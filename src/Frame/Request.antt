-- ===== src/Frame/Request.antt =====
-- src/RequestWebSocket.cpp: a frame on its way to the server. `parse` is `RequestWebSocket::Parse` and
-- `frame` the bytes that `RequestWebSocket::Send` builds. The sizes of `Config` that `parse` reads are
-- a record, the random mask of `Send` is an argument, and the connection that `Send` writes to is a
-- function, where `none` means that it threw.
pub mod RoundTrip
pub mod Stream
pub mod Bounds
use mathlib.Core.List.{reverse}
use web_socket_cpp.Base.{
  ℕ, ◌+◌, ◌%◌, Bool, true, false, [], ◌∷◌, ◌++◌, Option, none, some, ByteArray, length, get_or,
  take, drop, add64, sub64, size_mod, leb, ltb, ◌==◌, if◌then◌else◌, ◌-◌,
}
use web_socket_cpp.Frame.{
  WebSocketHeader, read_header, flags1_byte, flags2_byte, union_value, payload_field, length_field,
  apply_mask,
}
use web_socket_cpp.Frame.MessageType

pub record Config : Type 0 where
  pub max_frame_size : ℕ
  pub max_message_size : ℕ

pub record RequestWebSocket : Type 0 where
  pub data_bytes : ByteArray
  pub final : Bool
  pub size : ℕ
  pub message_type : ℕ

-- A request as its constructor leaves it.
abbrev pub fresh : RequestWebSocket
fresh = record { data_bytes = []; final = false; size = 0; message_type = MessageType.undefined }

-- The `switch` on `PayloadLen`: the size of the extended length and the payload's size; `none` where
-- the data ends inside the extended length.
unfoldable pub read_length : ℕ → ByteArray → Option (ℕ × ℕ)
read_length field bytes =
    if field == 126
    then (if leb 4 (length bytes)
        then some (2, union_value (get_or bytes 3 0 ∷ get_or bytes 2 0 ∷ []))
        else none)
    else if field == 127
    then (if leb 10 (length bytes)
        then some (8, union_value (reverse (take 8 (drop 2 bytes))))
        else none)
    else some (0, field)

-- Where the payload starts and its mask, if it has one; `none` where the data ends inside the mask.
unfoldable pub read_mask : WebSocketHeader → ℕ → ByteArray → Option (ℕ × ByteArray)
read_mask header headers_size bytes =
    if header.mask == 1
    then (if leb (headers_size + 4) (length bytes)
        then some (headers_size + 4, take 4 (drop headers_size bytes))
        else none)
    else some (headers_size, [])

-- The payload's bytes, unmasked if the frame is masked.
unfoldable pub payload : WebSocketHeader → ℕ → ByteArray → ℕ → ByteArray → ByteArray
payload header start key payload_size bytes =
    let raw = take payload_size (drop start bytes) in
    if header.mask == 1 then apply_mask key 0 raw else raw

-- The end of `Parse`, from the test of the full size on.
unfoldable pub take_payload :
    RequestWebSocket → WebSocketHeader → ℕ → ByteArray → ℕ → ByteArray → RequestWebSocket × Bool
take_payload req header start key payload_size bytes =
    let full = add64 start payload_size in
    if leb full (length bytes)
    then (
      record req {
        data_bytes = req.data_bytes ++ payload header start key payload_size bytes;
        final = if header.fin == 1 then true else req.final;
        size = full;
      },
      header.fin == 1,
    )
    else (req, false)

-- The size tests of `Parse`, which refuse an empty payload among others.
unfoldable pub read_payload :
    Config → RequestWebSocket → WebSocketHeader → ℕ → ℕ → ByteArray → RequestWebSocket × Bool
unfolding read_mask
read_payload config req header size_header_size payload_size bytes =
    if payload_size == 0
    then (req, false)
    else if ltb config.max_frame_size payload_size
    then (req, false)
    else if ltb config.max_message_size (add64 (length req.data_bytes) payload_size)
    then (req, false)
    else if ltb (sub64 (size_mod - 1) payload_size) (2 + size_header_size)
    then (req, false)
    else elim (read_mask header (2 + size_header_size) bytes) [
      | none ↦ (req, false)
      | some (start, key) ↦ take_payload req header start key payload_size bytes
    ]

unfoldable pub parse : Config → RequestWebSocket → ByteArray → RequestWebSocket × Bool
parse config req bytes =
    if ltb (length bytes) 2
    then (req, false)
    else (let header = read_header (get_or bytes 0 0) (get_or bytes 1 0) in
        let typed : RequestWebSocket = record req { message_type = header.opcode } in
        elim (read_length header.payload_len bytes) [
          | none ↦ (typed, false)
          | some (size_header_size, payload_size) ↦
              read_payload config typed header size_header_size payload_size bytes
        ])

unfoldable pub header_of : RequestWebSocket → WebSocketHeader
header_of req = record {
  opcode = req.message_type % 16;
  rsv3 = 0;
  rsv2 = 0;
  rsv1 = 0;
  fin = 1;
  payload_len = payload_field (length req.data_bytes);
  mask = 1;
}

unfoldable pub frame : RequestWebSocket → ByteArray → ByteArray
frame req key =
    flags1_byte (header_of req)
    ∷ flags2_byte (header_of req)
    ∷ (length_field (length req.data_bytes) ++ (key ++ apply_mask key 0 req.data_bytes))

-- `Send` reports success whatever `Write` returns; only an exception makes it fail.
unfoldable pub send {ℓ} :
    {W : Type ℓ} → (ByteArray → Option W) → RequestWebSocket → ByteArray → Option W × Bool
send write req key = elim (write (frame req key)) [ none ↦ (none, false) | some w ↦ (some w, true) ]
