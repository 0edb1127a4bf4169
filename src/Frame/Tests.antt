-- ===== src/Frame/Tests.antt =====
-- Frames at concrete payloads: the example of RFC 6455, section 5.7, and its neighbours.
use web_socket_cpp.Base.{
  ℕ, zero, suc, ◌+◌, ◌*◌, ◌%◌, ◌<◌, ◌≢◌, true, false, [], ◌∷◌, ◌++◌, ◌≡◌, refl, arith, codes,
  ByteArray, length, take,
}
use web_socket_cpp.Frame.{
  apply_mask, flags1_byte, flags2_byte, payload_field, length_field, read_header,
}
use web_socket_cpp.Frame.Request
use web_socket_cpp.Frame.Request.{Config, RequestWebSocket, fresh, parse, frame}
use web_socket_cpp.Frame.Request.RoundTrip.{parse-frame}
use web_socket_cpp.Frame.Request.Stream.{parse-append}
use web_socket_cpp.Frame.Request.Bounds.{
  IsWithin, parse-IsWithin, parse-incomplete, parse-empty, parse_unfinished,
}
use web_socket_cpp.Frame.Response
use web_socket_cpp.Frame.Response.{ResponseWebSocket, parsed}
use web_socket_cpp.Frame.Response.Laws.{parse-frame_short, parse-frame_medium, parse-frame_swapped}
use web_socket_cpp.Frame.MessageType

-- The defaults of include/Config.h.
abbrev config : Config
config = record { max_frame_size = 1024 * 1024; max_message_size = 10 * 1024 * 1024 }

abbrev key : ByteArray
key = 0x37 ∷ 0xfa ∷ 0x21 ∷ 0x3d ∷ []

abbrev hello : RequestWebSocket
hello = record fresh { data_bytes = codes "Hello"; message_type = MessageType.text }

-- The masked "Hello" of the RFC.
abbrev hello_frame : ByteArray
hello_frame = 0x81 ∷ 0x85 ∷ 0x37 ∷ 0xfa ∷ 0x21 ∷ 0x3d ∷ 0x7f ∷ 0x9f ∷ 0x4d ∷ 0x51 ∷ 0x58 ∷ []

frame_rfc : frame hello key ≡ hello_frame
unfolding frame Request.header_of flags1_byte flags2_byte payload_field length_field apply_mask
frame_rfc = refl

parse_rfc : (parse config fresh hello_frame).1 ≡ true
unfolding parse read_header Request.read_length Request.read_payload Request.take_payload
parse_rfc = refl

parse-frame_example : parse config fresh (frame hello key ++ 7 ∷ []) ≡ (
  record {
    data_bytes = codes "Hello";
    final = true;
    size = length (frame hello key);
    message_type = 1 % 16;
  },
  true,
)
parse-frame_example =
    parse-frame config hello key (7 ∷ []) refl (omega arith) (omega arith) (omega arith)
      (omega arith) (omega arith) (omega arith) (omega arith)

parse-append_example : parse config fresh (hello_frame ++ 1 ∷ []) ≡ parse config fresh hello_frame
parse-append_example = parse-append hello_frame (1 ∷ []) config (omega arith) fresh parse_rfc

parse-IsWithin_example : IsWithin config fresh hello_frame (parse config fresh hello_frame)
parse-IsWithin_example = parse-IsWithin config hello_frame (omega arith) fresh (omega arith)

hello_longer : 10 < length (frame hello key)
unfolding frame length_field apply_mask
hello_longer = omega arith

parse-incomplete_example : (parse config fresh (take 10 (frame hello key))).1 ≡ false
parse-incomplete_example =
    parse-incomplete config hello key 10 refl (omega arith) (omega arith) (omega arith)
      (omega arith) (omega arith) (omega arith) hello_longer

-- A masked ping with no payload, as `WebSocketClient::SendPing` writes it.
parse-empty_example :
    ((parse config fresh (0x89 ∷ 0x80 ∷ key)).1 ≡ false)
    × ((parse config fresh (0x89 ∷ 0x80 ∷ key)).0.size ≡ 0)
    × ((parse config fresh (0x89 ∷ 0x80 ∷ key)).0.data_bytes ≡ [])
parse-empty_example = parse-empty config fresh 0x89 0x80 key refl

parse_unfinished_example : (parse config fresh (0x01 ∷ 0x01 ∷ 65 ∷ [])).1 ≡ false
parse_unfinished_example = parse_unfinished config fresh 0x01 0x01 (65 ∷ []) refl

abbrev greeting : ResponseWebSocket
greeting = record (Response.create 3) { data_bytes = codes "Hello"; message_type = 1 }

parse-frame_short_example :
    Response.parse (Response.create 0) (Response.frame greeting ++ 1 ∷ [])
    ≡ parsed (record (Response.create 0) { data_bytes = codes "Hello"; size = 2 + 5 }) true
parse-frame_short_example = parse-frame_short greeting (1 ∷ []) 0 (omega arith)

abbrev zeros : ℕ → ByteArray
zeros zero = []
zeros (suc n) = 0 ∷ zeros n

-- 256 bytes: the length's bytes are 1 and 0, and are read as 1.
abbrev long_response : ResponseWebSocket
long_response = record (Response.create 3) { data_bytes = zeros 256; message_type = 2 }

long_read :
    Response.parse (Response.create 0) (Response.frame long_response ++ [])
    ≡ parsed (record (Response.create 0) { data_bytes = 0 ∷ []; size = 5 }) true
long_read = parse-frame_medium long_response [] 0 (omega arith) (omega arith)

parse-frame_swapped_example : ◌≢◌ {A = ByteArray} (0 ∷ []) (zeros 256)
parse-frame_swapped_example =
    parse-frame_swapped long_response [] 0
      (record (Response.create 0) { data_bytes = 0 ∷ []; size = 5 }) (omega arith) (omega arith)
      (omega arith) long_read

short_read :
    Response.parse (Response.create 0) (0x81 ∷ 0x01 ∷ 65 ∷ [])
    ≡ parsed (record (Response.create 0) { data_bytes = 65 ∷ []; size = 3 }) true
unfolding Response.parse Response.read_sizes read_header
short_read = refl
