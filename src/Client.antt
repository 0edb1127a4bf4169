-- ===== src/Client.antt =====
-- src/WebSocketClient.cpp: the client's state and what it does with the bytes that arrive. The calls that
-- it makes are events, in their order. `Response` and SHA-1 are parameters. `OnDataReady` and `OnClosed` run
-- on the thread that reads; `Open` runs on another one, and is modelled by the headers that it sends only.
pub mod Stream
pub mod Handshake
mod Tests
use web_socket_cpp.Base.{
  ℕ, zero, suc, Bool, true, false, ◌&&◌, List, [], ◌∷◌, ◌++◌, map, Option, none, some, ByteArray,
  codes, length, drop, ◌==◌, if◌then◌else◌,
}
use web_socket_cpp.Text.Compare.{lower, compare_bytes}
use web_socket_cpp.Names.HeaderType
use web_socket_cpp.HttpHeader.{HttpHeader, get_header, get_header_type, set_header, set_header_type}
use web_socket_cpp.Base64.{encode}
use web_socket_cpp.Frame.Response
use web_socket_cpp.Frame.Response.{ResponseWebSocket, Parsed}

pub data State : Type 0 where
  undefined initialized connected handshake_sent handshake handshake_failed binary_message closed :
      State

pub record WebSocketClient : Type 0 where
  pub state : State
  pub key : ByteArray
  pub bytes : ByteArray
  pub handshake_done : Bool

-- The callbacks, the flag of the handshake that is set for `Open`, and `Close(false)` of the connection.
pub data Event : Type 0 where
  state_changed : State → Event
  connect : Bool → Event
  message : ResponseWebSocket → Event
  disconnected : Event
  handshake_marked : Event
  close : Event

-- What the client uses of `Response`: the code, the headers and the size.
pub record Answer : Type 0 where
  pub code : ℕ
  pub header : HttpHeader
  pub size : ℕ

abbrev pub key_token : ByteArray
key_token = codes "258EAFA5-E914-47DA-95CA-C5AB0DC85B11"

-- The tests of the handshake's answer against the key that was sent.
unfoldable pub accepts : (ByteArray → ByteArray) → ByteArray → Answer → Bool
accepts sha1 key answer =
    answer.code == 101
    && compare_bytes (lower (get_header_type HeaderType.upgrade answer.header)) (codes "websocket")
    && compare_bytes (lower (get_header_type HeaderType.connection answer.header)) (codes "upgrade")
    && compare_bytes (get_header (codes "Sec-WebSocket-Accept") answer.header)
        (encode (sha1 (key ++ key_token)))

-- The bytes that are left by the loop over the frames, the messages, and whether it ended by a read
-- outside the data.
abbrev pub Taken : Type 0
Taken = ByteArray × List ResponseWebSocket × Bool

-- A round, after `Parse`.
unfoldable pub take_parsed : ByteArray → (ByteArray → Taken) → Parsed → Taken
take_parsed bytes next Response.fault = (bytes, [], true)
take_parsed bytes next (Response.parsed response false) = (bytes, [], false)
take_parsed bytes next (Response.parsed response true) =
    let more = next (drop response.size bytes) in (more.0, response ∷ more.1, more.2)

unfoldable pub take_frames : ℕ → ByteArray → Taken
unfolding take_parsed
take_frames zero bytes = (bytes, [], false)
take_frames (suc fuel) bytes =
    take_parsed bytes (take_frames fuel) (Response.parse (Response.create 0) bytes)

module _ (parse_response : ByteArray → Option Answer) (sha1 : ByteArray → ByteArray) where
  -- The handshake is done if there is an answer and it is accepted.
  unfoldable pub accepted : WebSocketClient → Option Answer
  unfolding accepts
  accepted client = elim (parse_response client.bytes) [
    | none ↦ none
    | some answer ↦ if accepts sha1 client.key answer then some answer else none
  ]

  unfoldable pub on_answer : WebSocketClient → WebSocketClient × List Event
  unfolding accepted
  on_answer client = elim (accepted client) [
    | some answer ↦ (
      record client {
        state = binary_message;
        handshake_done = true;
        bytes = drop answer.size client.bytes;
      },
      state_changed binary_message ∷ handshake_marked ∷ connect true ∷ [],
    )
    | none ↦ (record client { state = closed }, state_changed closed ∷ connect false ∷ close ∷ [])
  ]

  -- `OnDataReady` behind the insertion of the bytes. The loop has as many rounds as there are bytes, and
  -- one.
  unfoldable pub on_state : State → WebSocketClient → WebSocketClient × List Event × Bool
  unfolding on_answer take_frames
  on_state handshake client = let out = on_answer client in (out.0, out.1, false)
  on_state binary_message client =
      let out = take_frames (suc (length client.bytes)) client.bytes in
      (record client { bytes = out.0 }, map message out.1, out.2)
  on_state _ client = (client, [], false)

  unfoldable pub on_data_ready : ByteArray → WebSocketClient → WebSocketClient × List Event × Bool
  unfolding on_state
  on_data_ready more client = on_state client.state (record client { bytes = client.bytes ++ more })

unfoldable pub on_closed : WebSocketClient → WebSocketClient × List Event
on_closed client = (record client { state = closed }, state_changed closed ∷ disconnected ∷ [])

-- The headers that `Open` sets, for the host and the key that was drawn.
unfoldable pub handshake_header : ByteArray → ByteArray → HttpHeader → HttpHeader
handshake_header host key header = set_header (codes "Sec-WebSocket-Version") (codes "13") (
    set_header (codes "Sec-WebSocket-Key") key (
      set_header_type HeaderType.connection (codes "Upgrade") (
        set_header_type HeaderType.upgrade (codes "websocket")
          (set_header_type HeaderType.host host header))))
