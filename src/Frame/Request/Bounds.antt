-- ===== src/Frame/Request/Bounds.antt =====
-- Limits of the server's frame parser: sizes, unfinished input, and the frames it never takes.
use web_socket_cpp.Base.{
  ℕ, ◌+◌, ◌-◌, ◌%◌, ◌/◌, ◌≤◌, ◌<◌, Bool, true, false, inl, inr, [], ◌∷◌, ◌++◌, ◌≡◌, ◌∙◌, arith,
  append-nil, leb, ltb, ◌==◌, Bool-cases, Option-cases, add64, sub64, sym, ap, ByteArray, IsBytes,
  length, size_mod, drop, take, get_or, length-append, length-take, take-append-drop, length-slice,
}
use web_socket_cpp.Frame.{WebSocketHeader, read_header}
use web_socket_cpp.Frame.Mask.{length-apply_mask}
use web_socket_cpp.Frame.Request.{
  Config, RequestWebSocket, fresh, parse, frame, read_length, read_mask, payload, take_payload,
  read_payload,
}
use web_socket_cpp.Frame.Request.RoundTrip.{parse-frame}
use web_socket_cpp.Frame.Request.Stream.{
  parse-append, read_mask-le, read_mask-start, read_length-le,
}

length-payload :
    (header : WebSocketHeader) (start : ℕ) (key : ByteArray) (n : ℕ) (bytes : ByteArray)
    → start + n ≤ length bytes
    → length (payload header start key n bytes) ≡ n
unfolding payload
length-payload header start key n bytes h =
    ground
      (arith, length-slice start n bytes h, length-apply_mask key 0 (take n (drop start bytes)))

-- What every outcome of `Parse` keeps to, and what an accepted frame does.
pub record IsWithin (config : Config) (req : RequestWebSocket) (bytes : ByteArray)
    (out : RequestWebSocket × Bool) : Type 0 where
  pub message : length out.0.data_bytes ≤ config.max_message_size
  pub final : out.1 ≡ true → out.0.final ≡ true
  pub covers : out.1 ≡ true → out.0.size ≤ length bytes
  pub takes :
      out.1 ≡ true
      → (length req.data_bytes < length out.0.data_bytes)
        × (length out.0.data_bytes + 2 ≤ length req.data_bytes + out.0.size)

module _ (config : Config) (bytes : ByteArray)
    (limit : config.max_frame_size + config.max_message_size + 14 < size_mod) where
  take_payload-IsWithin :
      (req : RequestWebSocket) (header : WebSocketHeader) (start : ℕ) (key : ByteArray) (n : ℕ)
      → length req.data_bytes + n ≤ config.max_message_size
      → 0 < n
      → 2 ≤ start
      → start + n < size_mod
      → IsWithin config req bytes (take_payload req header start key n bytes)
  unfolding take_payload
  take_payload-IsWithin req header start key n room pos two fits =
      let appended = length-append req.data_bytes (payload header start key n bytes) in
      let all_there = length-payload header start key n bytes in
      elim (Bool-cases (leb (add64 start n) (length bytes))) [
        | inl whole ↦ rw whole (record {
          message = ground (arith, appended, all_there);
          final = λ e. ground arith;
          covers = λ e. ground arith;
          takes = λ e. ground (arith, appended, all_there);
        })
        | inr short ↦ rw short (record {
          message = omega arith;
          final = λ e. cc;
          covers = λ e. cc;
          takes = λ e. ground arith;
        })
      ]

  refused-IsWithin :
      (req : RequestWebSocket)
      → length req.data_bytes ≤ config.max_message_size
      → IsWithin config req bytes (req, false)
  refused-IsWithin req small = record {
    message = small;
    final = λ e. cc;
    covers = λ e. cc;
    takes = λ e. ground arith;
  }

  read_payload-IsWithin :
      (req : RequestWebSocket) (header : WebSocketHeader) (ext n : ℕ)
      → ext ≤ 8
      → length req.data_bytes ≤ config.max_message_size
      → IsWithin config req bytes (read_payload config req header ext n bytes)
  unfolding read_payload
  read_payload-IsWithin req header ext n le small =
      let no = refused-IsWithin req small in
      elim (Bool-cases (n == 0)) [
        | inl empty ↦ rw empty no
        | inr some_bytes ↦ elim (Bool-cases (ltb config.max_frame_size n)) [
          | inl large ↦ rw (some_bytes, large) no
          | inr frame_fits ↦
              elim (Bool-cases (ltb config.max_message_size (add64 (length req.data_bytes) n))) [
                | inl large ↦ rw (some_bytes, frame_fits, large) no
                | inr message_fits ↦ elim (Bool-cases (ltb (sub64 (size_mod - 1) n) (2 + ext))) [
                  | inl large ↦ rw (some_bytes, frame_fits, message_fits, large) no
                  | inr sizes_fit ↦ elim (Option-cases (read_mask header (2 + ext) bytes)) [
                    | inl short ↦ rw (some_bytes, frame_fits, message_fits, sizes_fit, short) no
                    | inr ((start, key), e) ↦
                        rw (some_bytes, frame_fits, message_fits, sizes_fit, e)
                          (take_payload-IsWithin req header start key n (ground arith)
                            (ground arith)
                            (ground (arith, read_mask-le bytes bytes header (2 + ext) e))
                            (ground (arith, read_mask-start bytes bytes header (2 + ext) e)))
                  ]
                ]
              ]
        ]
      ]

  retype-IsWithin :
      (req : RequestWebSocket) (kind : ℕ) {out : RequestWebSocket × Bool}
      → IsWithin config (record req { message_type = kind }) bytes out
      → IsWithin config req bytes out
  retype-IsWithin req kind w = record {
    message = w.message;
    final = w.final;
    covers = w.covers;
    takes = w.takes;
  }

  -- Whatever the bytes are: the message never grows past the configured limit, and a frame that is
  -- accepted is final, lies within the bytes at hand, brings at least one byte and is at least two
  -- bytes longer than what it brings.
  pub parse-IsWithin :
      (req : RequestWebSocket)
      → length req.data_bytes ≤ config.max_message_size
      → IsWithin config req bytes (parse config req bytes)
  unfolding parse
  parse-IsWithin req small =
      let header = read_header (get_or bytes 0 0) (get_or bytes 1 0) in
      elim (Bool-cases (ltb (length bytes) 2)) [
        | inl short ↦ rw short (refused-IsWithin req small)
        | inr long ↦ elim (Option-cases (read_length header.payload_len bytes)) [
          | inl cut ↦
              rw (long, cut)
                (retype-IsWithin req header.opcode
                  (refused-IsWithin (record req { message_type = header.opcode }) small))
          | inr ((ext, n), e) ↦
              rw (long, e)
                (retype-IsWithin req header.opcode (
                  read_payload-IsWithin (record req { message_type = header.opcode }) header ext n
                    (read_length-le bytes bytes header.payload_len e) small))
        ]
      ]

-- A frame that has not arrived whole is not accepted, and nothing of it is taken as a frame.
pub parse-incomplete :
    (config : Config) (req : RequestWebSocket) (key : ByteArray) (n : ℕ)
    → length key ≡ 4
    → IsBytes key
    → IsBytes req.data_bytes
    → 0 < length req.data_bytes
    → length req.data_bytes ≤ config.max_frame_size
    → length req.data_bytes ≤ config.max_message_size
    → config.max_frame_size + config.max_message_size + 14 < size_mod
    → n < length (frame req key)
    → (parse config fresh (take n (frame req key))).1 ≡ false
parse-incomplete config req key n four hk hd pos small total limit cut =
    elim (Bool-cases (parse config fresh (take n (frame req key))).1) [
      | inr refused ↦ refused
      | inl taken ↦
          let whole = frame req key in
          let arrived = take n whole in
          let same : parse config fresh arrived ≡ parse config fresh (whole ++ []) =
            sym (parse-append arrived (drop n whole) config (omega arith) fresh taken)
            ∙ ap (parse config fresh) (take-append-drop n whole ∙ sym (append-nil whole)) in
          let complete =
            parse-frame config req key [] four hk hd pos small total (omega arith) (omega arith) in
          let within = (parse-IsWithin config arrived limit fresh (omega arith)).covers taken in
          absurd (
            omega (
              arith,
              within,
              ap (λ (o : RequestWebSocket × Bool). o.0.size) (same ∙ complete),
              length-take n whole (omega arith),
            ))
    ]

-- A frame whose header gives an empty payload is never accepted, whatever its type and whatever
-- follows, and no byte of it is ever counted as read.
pub parse-empty :
    (config : Config) (req : RequestWebSocket) (b0 b1 : ℕ) (rest : ByteArray)
    → b1 % 128 ≡ 0
    → ((parse config req (b0 ∷ b1 ∷ rest)).1 ≡ false)
      × ((parse config req (b0 ∷ b1 ∷ rest)).0.size ≡ req.size)
      × ((parse config req (b0 ∷ b1 ∷ rest)).0.data_bytes ≡ req.data_bytes)
unfolding parse read_length read_payload read_header
parse-empty config req b0 b1 rest e = ground arith

read_payload-unfinished :
    (config : Config) (req : RequestWebSocket) (header : WebSocketHeader) (ext n : ℕ)
    (bytes : ByteArray)
    → header.fin ≡ 0
    → (read_payload config req header ext n bytes).1 ≡ false
unfolding read_payload take_payload read_mask
read_payload-unfinished config req header ext n bytes e = ground arith

-- A frame without the FIN bit is never reported as complete.
pub parse_unfinished :
    (config : Config) (req : RequestWebSocket) (b0 b1 : ℕ) (rest : ByteArray)
    → b0 / 128 % 2 ≡ 0
    → (parse config req (b0 ∷ b1 ∷ rest)).1 ≡ false
unfolding parse
parse_unfinished config req b0 b1 rest e =
    let header = read_header b0 b1 in
    elim (Option-cases (read_length header.payload_len (b0 ∷ b1 ∷ rest))) [
      | inl cut ↦ ground (arith, cut)
      | inr ((ext, n), q) ↦ ground (
        arith,
        q,
        read_payload-unfinished config (record req { message_type = header.opcode }) header ext n
            (b0 ∷ b1 ∷ rest) (unfold read_header in e),
      )
    ]
