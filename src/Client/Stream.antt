-- ===== src/Client/Stream.antt =====
-- The way of the frames of the server to the callback of the client.
use web_socket_cpp.Base.{
  ℕ, zero, suc, ◌+◌, ◌≤◌, ◌<◌, Bool, true, false, List, [], ◌∷◌, ◌++◌, map, Option, ◌≡◌, sym, ap,
  ◌∙◌, arith, append_assoc, ByteArray, All, length, length-append, drop_exact,
}
use web_socket_cpp.Frame.Response
use web_socket_cpp.Frame.Response.{ResponseWebSocket, Parsed, frame}
use web_socket_cpp.Frame.Response.Laws.{parse-frame_short, length-frame_short}
use web_socket_cpp.Client.{
  WebSocketClient, State, Event, Answer, take_frames, take_parsed, Taken, on_state, on_data_ready,
}

abbrev pub stream : List ResponseWebSocket → ByteArray
stream [] = []
stream (res ∷ sent) = frame res ++ stream sent

-- What the client makes of a response: the payload and the size of its frame.
abbrev pub received : ResponseWebSocket → ResponseWebSocket
received res = record (Response.create 0) {
  data_bytes = res.data_bytes;
  size = 2 + length res.data_bytes;
}

abbrev pub IsShort : ResponseWebSocket → Type 0
IsShort res = length res.data_bytes < 126

take_frames-frame :
    (fuel : ℕ) (res : ResponseWebSocket) (rest : ByteArray)
    → IsShort res
    → take_frames (suc fuel) (frame res ++ rest) ≡ (
      (take_frames fuel rest).0,
      received res ∷ (take_frames fuel rest).1,
      (take_frames fuel rest).2,
    )
unfolding take_frames
take_frames-frame fuel res rest short =
    ap (take_parsed (frame res ++ rest) (take_frames fuel)) (parse-frame_short res rest 0 short)
    ∙ ap
        (λ (bytes : ByteArray). (
          (take_frames fuel bytes).0,
          received res ∷ (take_frames fuel bytes).1,
          (take_frames fuel bytes).2,
        ))
        (drop_exact (2 + length res.data_bytes) (frame res) rest
          (sym (length-frame_short res short)))

-- The next round takes nothing: `broken` says whether it reads outside the data.
abbrev pub Ends : ByteArray → Bool → Type 0
Ends rest broken = take_frames 1 rest ≡ (rest, [], broken)

take_parsed_end :
    (rest : ByteArray) (next : ByteArray → Taken) (out : Parsed) (broken : Bool)
    → take_parsed rest (take_frames 0) out ≡ (rest, [], broken)
    → take_parsed rest next out ≡ (rest, [], broken)
unfolding take_parsed
take_parsed_end rest next Response.fault broken ends = ends
take_parsed_end rest next (Response.parsed response false) broken ends = ends
take_parsed_end rest next (Response.parsed response true) broken ends =
    absurd (ground (arith, ends))

take_frames_end :
    (fuel : ℕ) (rest : ByteArray) (broken : Bool)
    → Ends rest broken
    → take_frames (suc fuel) rest ≡ (rest, [], broken)
unfolding take_frames
take_frames_end fuel rest broken ends =
    take_parsed_end rest (take_frames fuel) (Response.parse (Response.create 0) rest) broken ends

take_frames-stream :
    (fuel : ℕ) (sent : List ResponseWebSocket) (rest : ByteArray) (broken : Bool)
    → All IsShort sent
    → Ends rest broken
    → length sent < fuel
    → take_frames fuel (stream sent ++ rest) ≡ (rest, map received sent, broken)
take_frames-stream zero sent rest broken short ends enough = absurd (omega arith)
take_frames-stream (suc fuel) [] rest broken short ends enough =
    take_frames_end fuel rest broken ends
take_frames-stream (suc fuel) (res ∷ sent) rest broken (first, short) ends enough =
    ap (take_frames (suc fuel)) (append_assoc (frame res) (stream sent) rest)
    ∙ take_frames-frame fuel res (stream sent ++ rest) first
    ∙ ap (λ (o : ByteArray × List ResponseWebSocket × Bool). (o.0, received res ∷ o.1, o.2))
        (take_frames-stream fuel sent rest broken short ends (omega arith))

length-stream :
    (sent : List ResponseWebSocket) (rest : ByteArray) → length sent ≤ length (stream sent ++ rest)
unfolding frame
length-stream [] rest = omega arith
length-stream (res ∷ sent) rest = omega (
  arith,
  length-append (frame res ++ stream sent) rest,
  length-append (frame res) (stream sent),
  length-append (stream sent) rest,
  length-stream sent rest,
)

module _ (parse_response : ByteArray → Option Answer) (sha1 : ByteArray → ByteArray) where
  -- After the handshake, when the bytes at hand and those that arrive are frames of the server with
  -- less than 126 bytes of payload each, followed by bytes in which the next `Parse` takes no frame:
  -- every payload is handed to the callback exactly once, whole and in the order in which it was
  -- sent, wherever the stream was cut, and exactly the bytes that follow are kept. The loop ends by a
  -- read outside the data exactly if that next `Parse` makes one.
  pub on_data_ready-stream :
      (client : WebSocketClient) (more : ByteArray) (sent : List ResponseWebSocket)
      (rest : ByteArray) (broken : Bool)
      → client.state ≡ State.binary_message
      → client.bytes ++ more ≡ stream sent ++ rest
      → All IsShort sent
      → Ends rest broken
      → on_data_ready parse_response sha1 more client
        ≡ (record client { bytes = rest }, map Event.message (map received sent), broken)
  unfolding on_data_ready on_state
  on_data_ready-stream client more sent rest broken state same short ends =
      let taken =
        take_frames-stream (suc (length (stream sent ++ rest))) sent rest broken short ends
          (omega (arith, length-stream sent rest)) in
      rw state (
        rw same (
          ap
            (λ (o : Taken). (
              record client { state = State.binary_message; bytes = o.0 },
              map Event.message o.1,
              o.2,
            ))
            taken))
