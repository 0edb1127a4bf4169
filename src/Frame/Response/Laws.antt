-- ===== src/Frame/Response/Laws.antt =====
-- Which of the server's frames the client reads back.
use web_socket_cpp.Base.{
  ℕ, ◌+◌, ◌*◌, ◌%◌, ◌/◌, ◌≤◌, ◌<◌, ◌≢◌, true, false, inl, inr, ◌∷◌, ◌++◌, none, some, ◌≡◌, refl,
  arith, append_assoc, leb, ◌==◌, if◌then◌else◌, Option-cases, ap, ByteArray, length, drop, take,
  length-append, take_exact, length-take, length-slice,
}
use web_socket_cpp.Frame.{
  WebSocketHeader, flags1_byte, flags2_byte, union_value, union_bytes, payload_field, length_field,
}
use web_socket_cpp.Frame.Field.{IsHeader, read_header_bytes}
use web_socket_cpp.Frame.Response.{
  ResponseWebSocket, create, parsed, header_of, frame, parse, read_sizes,
}

header_of-IsHeader : (res : ResponseWebSocket) → IsHeader (header_of res)
unfolding header_of payload_field
header_of-IsHeader res = ground arith

frame-layout :
    (res : ResponseWebSocket) (rest : ByteArray)
    → frame res ++ rest
      ≡ flags1_byte (header_of res)
        ∷ flags2_byte (header_of res)
        ∷ (length_field (length res.data_bytes) ++ (res.data_bytes ++ rest))
unfolding frame
frame-layout res rest = simp append_assoc

-- What the client reads where the server wrote a length: two bytes, turned round or not.
abbrev pub swapped : ℕ → ℕ
swapped n = n / 256 + 256 * (n % 256)

read_sizes-cons :
    (h : WebSocketHeader) (tail : ByteArray)
    → IsHeader h
    → read_sizes (flags1_byte h ∷ flags2_byte h ∷ tail) ≡ (
        if leb 126 h.payload_len
        then (if h.payload_len == 126
            then (if leb 2 (length tail) then some (4, union_value (take 2 tail)) else none)
            else if leb 8 (length tail)
            then some (10, union_value (take 8 tail))
            else none)
        else some (2, h.payload_len))
unfolding read_sizes
read_sizes-cons h tail ok = rw (read_header_bytes h ok) (ground arith)

pub length-frame_short :
    (res : ResponseWebSocket)
    → length res.data_bytes < 126
    → length (frame res) ≡ 2 + length res.data_bytes
unfolding frame length_field
length-frame_short res h = ground arith

module _ (res : ResponseWebSocket) (rest : ByteArray) where
  read_sizes_short :
      length res.data_bytes < 126 → read_sizes (frame res ++ rest) ≡ some (2, length res.data_bytes)
  unfolding header_of payload_field
  read_sizes_short h =
      rw (frame-layout res rest, read_sizes-cons (header_of res) _ (header_of-IsHeader res))
        (ground arith)

  read_sizes_medium :
      126 ≤ length res.data_bytes
      → length res.data_bytes < 65536
      → read_sizes (frame res ++ rest) ≡ some (4, swapped (length res.data_bytes))
  unfolding header_of payload_field length_field union_bytes union_value
  read_sizes_medium h k =
      rw (frame-layout res rest, read_sizes-cons (header_of res) _ (header_of-IsHeader res))
        (ground arith)

  length-frame :
      length (frame res ++ rest)
      ≡ 2 + length (length_field (length res.data_bytes)) + length res.data_bytes + length rest
  length-frame = rw (frame-layout res rest) (
      omega (
        arith,
        length-append (length_field (length res.data_bytes)) (res.data_bytes ++ rest),
        length-append res.data_bytes rest,
      ))

  drop_short : length res.data_bytes < 126 → drop 2 (frame res ++ rest) ≡ res.data_bytes ++ rest
  unfolding length_field
  drop_short h = rw (frame-layout res rest) (ground arith)

  drop_medium :
      126 ≤ length res.data_bytes
      → length res.data_bytes < 65536
      → drop 4 (frame res ++ rest) ≡ res.data_bytes ++ rest
  unfolding length_field union_bytes
  drop_medium h k = rw (frame-layout res rest) (ground arith)

  -- A frame of the server with less than 126 bytes of payload is read back by the client, whatever
  -- follows it, with its payload and its exact size; the message type is not recorded.
  pub parse-frame_short :
      (conn_id : ℕ)
      → length res.data_bytes < 126
      → parse (create conn_id) (frame res ++ rest)
        ≡ parsed
            (record (create conn_id) {
              data_bytes = res.data_bytes;
              size = 2 + length res.data_bytes;
            })
            true
  unfolding parse length_field
  parse-frame_short conn_id h =
      rw (read_sizes_short h, parse)
        (rw (drop_short h, take_exact _ res.data_bytes rest refl) (ground (arith, length-frame)))

  -- A frame of 126 to 65535 bytes of payload is read with the two bytes of its length exchanged.
  pub parse-frame_medium :
      (conn_id : ℕ)
      → 126 ≤ length res.data_bytes
      → length res.data_bytes < 65536
      → parse (create conn_id) (frame res ++ rest) ≡ (
          if leb (swapped (length res.data_bytes)) (length res.data_bytes + length rest)
          then parsed
              (record (create conn_id) {
                data_bytes = take (swapped (length res.data_bytes)) (res.data_bytes ++ rest);
                size = 4 + swapped (length res.data_bytes);
              })
              true
          else parsed (create conn_id) false)
  unfolding parse length_field union_bytes
  parse-frame_medium conn_id h k =
      rw (read_sizes_medium h k, parse) (rw (drop_medium h k) (ground (arith, length-frame)))

-- The client never reads back a frame of 126 to 65535 bytes of payload unless the two bytes of the
-- length are equal: whatever it takes, it is not the payload that the server sent.
pub parse-frame_swapped :
    (res : ResponseWebSocket) (rest : ByteArray) (conn_id : ℕ) (r : ResponseWebSocket)
    → 126 ≤ length res.data_bytes
    → length res.data_bytes < 65536
    → length res.data_bytes / 256 ≢ length res.data_bytes % 256
    → parse (create conn_id) (frame res ++ rest) ≡ parsed r true
    → r.data_bytes ≢ res.data_bytes
parse-frame_swapped res rest conn_id r h k differs e same =
    let n = length res.data_bytes in
    ground (
      arith,
      parse-frame_medium res rest conn_id h k,
      length-take (swapped n) (res.data_bytes ++ rest),
      length-append res.data_bytes rest,
      ap (length {A = ℕ}) same,
    )

read_sizes-le :
    (bytes : ByteArray) {headers n : ℕ} → read_sizes bytes ≡ some (headers, n) → 2 ≤ headers
unfolding read_sizes
read_sizes-le bytes e = ground arith

-- The client's parser stays inside the data where it takes a frame: it appends just the bytes of
-- the frame behind the headers, and the frame's size is at most that of the data.
parse_covers :
    (res r : ResponseWebSocket) (bytes : ByteArray)
    → parse res bytes ≡ parsed r true
    → (r.size ≤ length bytes)
      × (2 ≤ r.size)
      × (length r.data_bytes + 2 ≤ length res.data_bytes + r.size)
unfolding parse
parse_covers res r bytes e = elim (Option-cases (read_sizes bytes)) [
  | inl outside ↦ ground (arith, outside)
  | inr ((headers, n), q) ↦ ground (
    arith,
    q,
    read_sizes-le bytes q,
    length-append res.data_bytes (take n (drop headers bytes)),
    length-slice headers n bytes,
  )
]
