-- ===== src/Frame/Request/RoundTrip.antt =====
-- What the client sends is what the server parses.
use web_socket_cpp.Base.{
  ℕ, suc, ◌+◌, ◌%◌, ◌≤◌, ◌<◌, true, false, inl, inr, ◌∷◌, ◌++◌, some, ◌≡◌, refl, ◌∙◌, arith,
  append_assoc, leb, ltb, Bool-cases, ByteArray, IsBytes, length, size_mod, drop, drop_two,
  drop-add, drop_exact, take_exact, length-append,
}
use web_socket_cpp.Frame.{
  WebSocketHeader, flags1_byte, flags2_byte, payload_field, length_field, union_value, union_bytes,
  apply_mask,
}
use web_socket_cpp.Frame.Field.{IsHeader, read_header_bytes}
use web_socket_cpp.Frame.Mask.{apply_mask_twice, length-apply_mask}
use web_socket_cpp.Frame.Request.{
  Config, RequestWebSocket, fresh, parse, frame, header_of, read_length, read_mask, payload,
  take_payload, read_payload,
}

pub header_of-IsHeader : (req : RequestWebSocket) → IsHeader (header_of req)
unfolding header_of payload_field
header_of-IsHeader req = ground arith

-- The extended length that `Send` writes is read back as the payload's size.
pub read_length-length_field :
    (n b0 b1 : ℕ) (tail : ByteArray)
    → n < size_mod
    → read_length (payload_field n) (b0 ∷ b1 ∷ (length_field n ++ tail))
      ≡ some (length (length_field n), n)
unfolding read_length payload_field length_field union_value union_bytes
read_length-length_field n b0 b1 tail h = elim (Bool-cases (ltb n 126)) [
  | inl small ↦ rw small (ground arith)
  | inr more ↦ elim (Bool-cases (leb n 65535)) [
    | inl two ↦ rw (more, two) (ground arith)
    | inr eight ↦ rw (more, eight) (ground arith)
  ]
]

module _ (b0 b1 : ℕ) (ext key tail : ByteArray) (four : length key ≡ 4) where
  abbrev layout : ByteArray
  layout = b0 ∷ b1 ∷ (ext ++ (key ++ tail))

  length-layout : length layout ≡ 2 + length ext + 4 + length tail
  length-layout = omega (arith, length-append ext (key ++ tail), length-append key tail)

  drop_headers : drop (2 + length ext) layout ≡ key ++ tail
  drop_headers = rw (drop_two, drop_exact (length ext) ext (key ++ tail) refl)

  drop_mask : drop (2 + length ext + 4) layout ≡ tail
  drop_mask = rw (drop-add, drop_headers, drop_exact 4 key tail (omega arith))

  read_mask-layout :
      (header : WebSocketHeader)
      → header.mask ≡ 1
      → read_mask header (2 + length ext) layout ≡ some (2 + length ext + 4, key)
  unfolding read_mask
  read_mask-layout header e =
      rw (e, drop_headers, take_exact 4 key tail (omega arith)) (ground (arith, length-layout))

pub length-length_field : (n : ℕ) → length (length_field n) ≤ 8
unfolding length_field union_bytes
length-length_field n = ground arith

-- A masked frame, whatever follows it: the masked body of `n` bytes is appended unmasked.
module _ (b0 b1 : ℕ) (ext key body rest : ByteArray) (four : length key ≡ 4) (hk : IsBytes key)
    (hb : IsBytes body) (fits : 2 + length ext + 4 + length body < size_mod) where
  abbrev framed : ByteArray
  framed = layout b0 b1 ext key (apply_mask key 0 body ++ rest) four

  payload-framed :
      (header : WebSocketHeader)
      → header.mask ≡ 1
      → payload header (2 + length ext + 4) key (length body) framed ≡ body
  unfolding payload
  payload-framed header e =
      rw
        (
          e,
          drop_mask b0 b1 ext key (apply_mask key 0 body ++ rest) four,
          take_exact (length body) (apply_mask key 0 body) rest
              (omega (arith, length-apply_mask key 0 body)),
        )
        (apply_mask_twice key 0 body hk hb)

  length-framed : length framed ≡ 2 + length ext + 4 + length body + length rest
  length-framed = omega (
    arith,
    length-layout b0 b1 ext key (apply_mask key 0 body ++ rest) four,
    length-append (apply_mask key 0 body) rest,
    length-apply_mask key 0 body,
  )

  take_payload-framed :
      (req : RequestWebSocket) (header : WebSocketHeader)
      → header.mask ≡ 1
      → header.fin ≡ 1
      → take_payload req header (2 + length ext + 4) key (length body) framed ≡ (
        record req {
          data_bytes = req.data_bytes ++ body;
          final = true;
          size = 2 + length ext + 4 + length body;
        },
        true,
      )
  unfolding take_payload
  take_payload-framed req header masked last =
      ground (arith, length-framed, payload-framed header masked)

  read_payload-framed :
      (config : Config) (req : RequestWebSocket) (header : WebSocketHeader)
      → header.mask ≡ 1
      → header.fin ≡ 1
      → 0 < length body
      → length body ≤ config.max_frame_size
      → length req.data_bytes + length body ≤ config.max_message_size
      → config.max_message_size < size_mod
      → read_payload config req header (length ext) (length body) framed ≡ (
        record req {
          data_bytes = req.data_bytes ++ body;
          final = true;
          size = 2 + length ext + 4 + length body;
        },
        true,
      )
  unfolding read_payload
  read_payload-framed config req header masked last pos small total room =
      rw
        (
          read_mask-layout b0 b1 ext key (apply_mask key 0 body ++ rest) four header masked,
          take_payload-framed req header masked last,
        )
        (ground arith)

pub length-frame :
    (req : RequestWebSocket) (key : ByteArray)
    → length key ≡ 4
    → length (frame req key)
      ≡ 2 + length (length_field (length req.data_bytes)) + 4 + length req.data_bytes
unfolding frame
length-frame req key four = omega (
  arith,
  length-append (length_field (length req.data_bytes)) (key ++ apply_mask key 0 req.data_bytes),
  length-append key (apply_mask key 0 req.data_bytes),
  length-apply_mask key 0 req.data_bytes,
)

frame-layout :
    (req : RequestWebSocket) (key rest : ByteArray)
    → frame req key ++ rest
      ≡ flags1_byte (header_of req)
        ∷ flags2_byte (header_of req)
        ∷ (length_field (length req.data_bytes)
            ++ (key ++ (apply_mask key 0 req.data_bytes ++ rest)))
unfolding frame
frame-layout req key rest = simp append_assoc

-- `Parse` of a header and an extended length that it can read.
parse-cons :
    (config : Config) (req : RequestWebSocket) (h : WebSocketHeader)
    → IsHeader h
    → (tail : ByteArray) {ext n : ℕ}
    → read_length h.payload_len (flags1_byte h ∷ flags2_byte h ∷ tail) ≡ some (ext, n)
    → parse config req (flags1_byte h ∷ flags2_byte h ∷ tail)
      ≡ read_payload config
          (record req { message_type = h.opcode })
          h
          ext
          n
          (flags1_byte h ∷ flags2_byte h ∷ tail)
unfolding parse
parse-cons config req h ok tail e =
    let long : ltb (suc (suc (length tail))) 2 ≡ false = ground arith in
    let same = read_header_bytes h ok in rw (long, same, e, same)

-- What the client's `Send` writes for a payload that is not empty and within the configured limits,
-- whatever the mask and whatever bytes follow, a new request's `Parse` accepts as final, with the
-- payload, the type's low four bits and, as size, exactly the bytes of the frame.
pub parse-frame :
    (config : Config) (req : RequestWebSocket) (key rest : ByteArray)
    → length key ≡ 4
    → IsBytes key
    → IsBytes req.data_bytes
    → 0 < length req.data_bytes
    → length req.data_bytes ≤ config.max_frame_size
    → length req.data_bytes ≤ config.max_message_size
    → config.max_message_size < size_mod
    → length req.data_bytes + 14 < size_mod
    → parse config fresh (frame req key ++ rest) ≡ (
      record {
        data_bytes = req.data_bytes;
        final = true;
        size = length (frame req key);
        message_type = req.message_type % 16;
      },
      true,
    )
unfolding header_of
parse-frame config req key rest four hk hd pos small total room fits =
    let n = length req.data_bytes in
    let h = header_of req in
    let ext = length_field n in
    rw (frame-layout req key rest, length-frame req key four)
      (parse-cons config fresh h (header_of-IsHeader req)
          (ext ++ (key ++ (apply_mask key 0 req.data_bytes ++ rest)))
          (read_length-length_field n (flags1_byte h) (flags2_byte h)
            (key ++ (apply_mask key 0 req.data_bytes ++ rest)) (omega arith))
        ∙ read_payload-framed (flags1_byte h) (flags2_byte h) ext key req.data_bytes rest four hk hd
            (omega (arith, length-length_field n)) config (record fresh { message_type = h.opcode })
            h refl refl pos small (omega arith) room)
