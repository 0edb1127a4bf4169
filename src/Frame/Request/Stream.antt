-- ===== src/Frame/Request/Stream.antt =====
-- Parsing a stream: what stands behind a frame does not matter, and a frame that has not arrived
-- whole is not taken.
use web_socket_cpp.Base.{
  ℕ, ◌+◌, ◌≤◌, ◌<◌, true, inl, inr, ◌++◌, some, ◌≡◌, arith, Option-cases, ByteArray, size_mod,
  get_or, get_or_inside, slice_inside, length-append,
}
use web_socket_cpp.Frame.{WebSocketHeader, read_header}
use web_socket_cpp.Frame.Request.{
  Config, RequestWebSocket, parse, read_length, read_mask, payload, take_payload, read_payload,
}

module _ (bytes more : ByteArray) where
  read_length-append :
      (field : ℕ) {ext n : ℕ}
      → read_length field bytes ≡ some (ext, n)
      → read_length field (bytes ++ more) ≡ some (ext, n)
  unfolding read_length
  read_length-append field h = ground (
    arith,
    length-append bytes more,
    get_or_inside bytes more 2 0,
    get_or_inside bytes more 3 0,
    slice_inside 2 8 bytes more,
  )

  read_mask-append :
      (header : WebSocketHeader) (at : ℕ) {start : ℕ} {key : ByteArray}
      → read_mask header at bytes ≡ some (start, key)
      → read_mask header at (bytes ++ more) ≡ some (start, key)
  unfolding read_mask
  read_mask-append header at h =
      ground (arith, length-append bytes more, slice_inside at 4 bytes more)

  take_payload-append :
      (req : RequestWebSocket) (header : WebSocketHeader) (start : ℕ) (key : ByteArray) (n : ℕ)
      → start + n < size_mod
      → (take_payload req header start key n bytes).1 ≡ true
      → take_payload req header start key n (bytes ++ more)
        ≡ take_payload req header start key n bytes
  unfolding take_payload payload
  take_payload-append req header start key n fits h =
      ground (arith, length-append bytes more, slice_inside start n bytes more)

  pub read_mask-start :
      (header : WebSocketHeader) (at : ℕ) {start : ℕ} {key : ByteArray}
      → read_mask header at bytes ≡ some (start, key)
      → start ≤ at + 4
  unfolding read_mask
  read_mask-start header at h = ground arith

  pub read_mask-le :
      (header : WebSocketHeader) (at : ℕ) {start : ℕ} {key : ByteArray}
      → read_mask header at bytes ≡ some (start, key)
      → at ≤ start
  unfolding read_mask
  read_mask-le header at h = ground arith

  pub read_length-le : (field : ℕ) {ext n : ℕ} → read_length field bytes ≡ some (ext, n) → ext ≤ 8
  unfolding read_length
  read_length-le field h = ground arith

  module _ (config : Config) (limit : config.max_frame_size + 14 < size_mod) where
    read_payload-append :
        (req : RequestWebSocket) (header : WebSocketHeader) (ext n : ℕ)
        → ext ≤ 8
        → (read_payload config req header ext n bytes).1 ≡ true
        → read_payload config req header ext n (bytes ++ more)
          ≡ read_payload config req header ext n bytes
    unfolding read_payload
    read_payload-append req header ext n le h =
        elim (Option-cases (read_mask header (2 + ext) bytes)) [
          | inl short ↦ ground (arith, short)
          | inr ((start, key), e) ↦ ground (
            arith,
            read_mask-append header (2 + ext) e,
            read_mask-start header (2 + ext) e,
            take_payload-append req header start key n,
          )
        ]

    -- Bytes that arrive behind a frame that `Parse` accepts do not change what it returns.
    pub parse-append :
        (req : RequestWebSocket)
        → (parse config req bytes).1 ≡ true
        → parse config req (bytes ++ more) ≡ parse config req bytes
    unfolding parse
    parse-append req h =
        let header = read_header (get_or bytes 0 0) (get_or bytes 1 0) in
        elim (Option-cases (read_length header.payload_len bytes)) [
          | inl short ↦ ground (arith, short)
          | inr ((ext, n), e) ↦ ground (
            arith,
            length-append bytes more,
            get_or_inside bytes more 0 0,
            get_or_inside bytes more 1 0,
            read_length-append header.payload_len e,
            read_payload-append (record req { message_type = header.opcode }) header ext n
                (read_length-le header.payload_len e),
          )
        ]
