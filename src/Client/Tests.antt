-- ===== src/Client/Tests.antt =====
-- The client on concrete answers and frames.
use web_socket_cpp.Base.{
  true, false, Option, some, none, [], ◌∷◌, ◌≡◌, refl, sym, append-nil, arith, ◌<◌, ByteArray,
  codes, length,
}
use web_socket_cpp.HttpHeader
use web_socket_cpp.HttpHeader.{HttpHeader, set_header}
use web_socket_cpp.Text.Compare
use web_socket_cpp.Base64
use web_socket_cpp.Names.HeaderType
use web_socket_cpp.Frame.Response
use web_socket_cpp.Frame.Response.{ResponseWebSocket, frame, write_text}
use web_socket_cpp.Client.{
  WebSocketClient, State, Event, Answer, accepts, take_frames, take_parsed, on_data_ready,
}
use web_socket_cpp.Client.Stream.{stream, received, Ends, on_data_ready-stream}
use web_socket_cpp.Client.Handshake.{Outcome, on_data_ready-Outcome}

abbrev no_answer : ByteArray → Option Answer
no_answer _ = none

abbrev digest : ByteArray → ByteArray
digest _ = codes "abc"

abbrev client : WebSocketClient
client = record { state = State.binary_message; key = []; bytes = []; handshake_done = true }

abbrev hello : ResponseWebSocket
hello = write_text (Response.create 7) (codes "Hello")

Ends-no_bytes : Ends [] true
unfolding take_frames take_parsed Response.parse Response.read_sizes
Ends-no_bytes = refl

short : length hello.data_bytes < 126
unfolding write_text
short = omega arith

on_data_ready-stream_example :
    on_data_ready no_answer digest (stream (hello ∷ hello ∷ [])) client ≡ (
      record client { bytes = [] },
      Event.message (received hello) ∷ Event.message (received hello) ∷ [],
      true,
    )
on_data_ready-stream_example =
    on_data_ready-stream no_answer digest client (stream (hello ∷ hello ∷ [])) (hello ∷ hello ∷ [])
      [] true refl (sym (append-nil _)) (short, (short, tt)) Ends-no_bytes

-- An answer with the digest of the key.
abbrev answer : Answer
answer = record {
  code = 101;
  header = set_header (codes "Sec-WebSocket-Accept") (codes "YWJj") (
      set_header (codes "Connection") (codes "Upgrade") (
        set_header (codes "Upgrade") (codes "websocket")
          (HttpHeader.create HttpHeader.HeaderRole.response)));
  size = 3;
}

abbrev whole_answer : ByteArray → Option Answer
whole_answer _ = some answer

abbrev waiting : WebSocketClient
waiting = record { state = State.handshake; key = codes "k"; bytes = []; handshake_done = false }

on_data_ready-Outcome_example :
    Outcome whole_answer digest
      (record waiting { bytes = codes "abcd" })
      (on_data_ready whole_answer digest (codes "abcd") waiting)
on_data_ready-Outcome_example =
    on_data_ready-Outcome whole_answer digest waiting (codes "abcd") refl

accepts_right_key : accepts digest (codes "k") answer ≡ true
unfolding accepts HttpHeader.get_header HttpHeader.get_header_type HttpHeader.get_entry
    HttpHeader.create set_header HttpHeader.set_entry Compare.compare Compare.same_letters
    Compare.lower Compare.compare_bytes Compare.same_bytes Base64.encode Base64.first_six
    Base64.second_six Base64.third_six Base64.fourth_six Base64.digit
    HeaderType.header_type_to_string
accepts_right_key = refl
