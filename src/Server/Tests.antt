-- ===== src/Server/Tests.antt =====
-- The server's queue on concrete connections and frames.
use web_socket_cpp.Base.{
  ◌+◌, ℕ, ◌*◌, Bool, true, false, not, List, [], ◌∷◌, ◌++◌, map, Option, some, none, ◌≡◌, refl,
  arith, ◌==◌, codes, ByteArray, get_or, All, length,
}
use web_socket_cpp.Frame.MessageType
use web_socket_cpp.Frame.Request.{Config, RequestWebSocket, fresh, parse}
use web_socket_cpp.Request
use web_socket_cpp.Request.{UrlOps, Request}
use web_socket_cpp.Server.{
  RequestData, Handlers, check_ws_frame, check_frames, check_entry, process_entry, init_connection,
  put_to_queue,
}
use web_socket_cpp.Server.Queue.{IsDistinct}
use web_socket_cpp.Server.Frames.{check_frames_ends, check_frames-put, put}
use web_socket_cpp.Server.Delivery.{
  Sent, stream, received, IsSendable, run_all, open_connection, serve_stream,
}
use web_socket_cpp.Server.Steps.{Step, Reachable, IsValid, Reachable-IsValid}
use web_socket_cpp.Server.Steps
use web_socket_cpp.Server.Messages.{RouteWebSocket, process_ws_request, process_ws_request_ping}
use web_socket_cpp.Frame.Response
use web_socket_cpp.Frame.Response.{write_text}

abbrev config : Config
config = record { max_frame_size = 1024 * 1024; max_message_size = 10 * 1024 * 1024 }

abbrev text_url : UrlOps ByteArray
text_url = record {
  empty = [];
  parse_relative = λ _ address. address;
  is_initialized = λ u. not (length u == 0);
}

abbrev no_number : ByteArray → Option ℕ
no_number _ = none

-- A route whose handler echoes the message, and one that matches nothing.
abbrev echo : RouteWebSocket ByteArray (List ByteArray)
echo = record {
  is_match = λ _ _. ([], true);
  function_request = none;
  function_message = some (λ _ response bytes w. (write_text response bytes, w, some true));
}

abbrev elsewhere : RouteWebSocket ByteArray (List ByteArray)
elsewhere = record {
  is_match = λ _ _. ((codes "id", codes "1") ∷ [], false);
  function_request = none;
  function_message = none;
}

-- What is written is kept.
abbrev written : ℕ → ByteArray → List ByteArray → List ByteArray
written _ bytes w = w ++ bytes ∷ []

abbrev keeping : Handlers ByteArray (List ByteArray)
keeping = record {
  process_request = λ request w. (request, w, true);
  process_ws_request = process_ws_request (elsewhere ∷ echo ∷ []) written;
}

abbrev request : Request ByteArray
request = Request.create text_url 5

abbrev key : ByteArray
key = 0x37 ∷ 0xfa ∷ 0x21 ∷ 0x3d ∷ []

abbrev message : ByteArray → Sent
message bytes = (record fresh { data_bytes = bytes; message_type = MessageType.text }, key)

abbrev sent : List Sent
sent = message (codes "Hello") ∷ message (codes "you") ∷ []

abbrev rest : ByteArray
rest = 0x81 ∷ 0x85 ∷ 0x37 ∷ []

sent-IsSendable : All (IsSendable config) sent
sent-IsSendable = (sendable_hello, (sendable_you, tt))
  where
    sendable_hello : IsSendable config (message (codes "Hello"))
    sendable_hello = record {
      mask = refl;
      mask_bytes = omega arith;
      data_bytes = omega arith;
      some_data = omega arith;
      frame_fits = omega arith;
      message_fits = omega arith;
    }

    sendable_you : IsSendable config (message (codes "you"))
    sendable_you = record {
      mask = refl;
      mask_bytes = omega arith;
      data_bytes = omega arith;
      some_data = omega arith;
      frame_fits = omega arith;
      message_fits = omega arith;
    }

rest_ends : (parse config fresh rest).1 ≡ false
unfolding parse web_socket_cpp.Frame.read_header web_socket_cpp.Frame.Request.read_length
    web_socket_cpp.Frame.Request.read_payload
rest_ends = refl

serve_stream_example :
    (next : RequestData ByteArray) × (found : Bool) × (check_entry text_url no_number config
        (open_connection 5 request (stream sent ++ rest))
      ≡ some (next, found))
    × (process_entry keeping next [] ≡ (
      open_connection 5 (run_all keeping request (map received sent) []).0 rest,
      (run_all keeping request (map received sent) []).1,
    ))
serve_stream_example =
    serve_stream keeping text_url no_number config (omega arith) 5 request sent rest []
      sent-IsSendable rest_ends

abbrev waiting : RequestData ByteArray
waiting = open_connection 5 request (stream sent ++ rest)

check_frames_ends_example :
    (check_ws_frame config (check_frames config (length waiting.bytes) waiting).0).1 ≡ false
check_frames_ends_example =
    check_frames_ends config (omega arith) (length waiting.bytes) waiting (omega arith)

abbrev early : RequestData ByteArray
early = open_connection 5 request (0x81 ∷ 0x85 ∷ 0x37 ∷ [])

abbrev late : ByteArray
late = 0xfa ∷ 0x21 ∷ 0x3d ∷ 0x7f ∷ 0x9f ∷ 0x4d ∷ 0x51 ∷ 0x58 ∷ []

check_frames-put_example :
    (check_frames config 11 (put (check_frames config 3 early).0 late)).0
    ≡ (check_frames config 11 (put early late)).0
check_frames-put_example =
    check_frames-put config (omega arith) 3 11 11 early late (omega arith) (omega arith)
      (omega arith)

abbrev queue : List (RequestData ByteArray)
queue = early ∷ open_connection 6 request [] ∷ []

queue-IsDistinct : IsDistinct queue
queue-IsDistinct = ((λ e. absurd (omega arith), tt), (tt, tt))

abbrev marked : RequestData ByteArray
marked = record waiting { bytes = []; request_list = map received sent; ready_for_dispatch = true }

two_steps :
    Reachable text_url no_number config keeping []
      (put_to_queue 5 late (init_connection text_url 5 []), [])
two_steps =
    Steps.after (Steps.after Steps.initial (Steps.client_connected 5)) (Steps.data_ready 5 late)

Reachable-IsValid_example :
    IsValid text_url no_number config keeping
      (put_to_queue 5 late (init_connection text_url 5 []), [])
Reachable-IsValid_example =
    Reachable-IsValid text_url no_number config keeping (omega arith) two_steps

abbrev pinged : RequestWebSocket
pinged = record fresh { data_bytes = codes "you"; message_type = MessageType.ping }

process_ws_request_ping_example :
    (answer : ByteArray) × (process_ws_request (echo ∷ []) written request pinged []
      ≡ (request, written 5 answer []))
    × (get_or answer 0 0 ≡ 0x8a)
    × (Response.parse (Response.create 5) (answer ++ 7 ∷ [])
        ≡ Response.parsed
            (record (Response.create 5) { data_bytes = codes "you"; size = 2 + 3 })
            true)
unfolding Request.create
process_ws_request_ping_example =
    process_ws_request_ping (echo ∷ []) written request pinged [] (7 ∷ []) refl (omega arith)
