-- ===== src/Frame/Response.antt =====
-- src/ResponseWebSocket.cpp: a frame on its way to the client. `frame` is what
-- `ResponseWebSocket::Send` builds and `parse` is `ResponseWebSocket::Parse`, in which `fault` is a
-- read outside the data, which C++ leaves undefined. The connection that `Send` writes to is a function
-- of the connection's id, where `none` means that it threw.
pub mod Laws
use web_socket_cpp.Base.{
  ℕ, ◌+◌, ◌%◌, Bool, true, false, [], ◌∷◌, ◌++◌, Option, none, some, ByteArray, length, get_or,
  take, drop, add64, leb, ltb, ◌==◌, if◌then◌else◌,
}
use web_socket_cpp.Frame.{
  WebSocketHeader, read_header, flags1_byte, flags2_byte, union_value, payload_field, length_field,
}
use web_socket_cpp.Frame.MessageType

pub record ResponseWebSocket : Type 0 where
  pub conn_id : ℕ
  pub data_bytes : ByteArray
  pub message_type : ℕ
  pub size : ℕ

-- A response as its constructor leaves it.
abbrev pub create : ℕ → ResponseWebSocket
create conn_id = record {
  conn_id = conn_id;
  data_bytes = [];
  message_type = MessageType.undefined;
  size = 0;
}

unfoldable pub is_empty : ResponseWebSocket → Bool
is_empty res = res.message_type == MessageType.undefined

unfoldable pub write_text : ResponseWebSocket → ByteArray → ResponseWebSocket
write_text res bytes = record res { data_bytes = bytes; message_type = MessageType.text }

unfoldable pub write_binary : ResponseWebSocket → ByteArray → ResponseWebSocket
write_binary res bytes = record res { data_bytes = bytes; message_type = MessageType.binary }

unfoldable pub set_message_type : ResponseWebSocket → ℕ → ResponseWebSocket
set_message_type res kind = record res { message_type = kind }

unfoldable pub header_of : ResponseWebSocket → WebSocketHeader
header_of res = record {
  opcode = res.message_type % 16;
  rsv3 = 0;
  rsv2 = 0;
  rsv1 = 0;
  fin = 1;
  payload_len = payload_field (length res.data_bytes);
  mask = 0;
}

unfoldable pub frame : ResponseWebSocket → ByteArray
frame res =
    flags1_byte (header_of res)
    ∷ flags2_byte (header_of res)
    ∷ (length_field (length res.data_bytes) ++ res.data_bytes)

-- `Send` reports success whatever `Write` returns; only an exception makes it fail.
unfoldable pub send {ℓ} :
    {W : Type ℓ} → (ℕ → ByteArray → Option W) → ResponseWebSocket → Option W × Bool
send write res = elim (write res.conn_id (frame res)) [
  | none ↦ (none, false)
  | some w ↦ (some w, true)
]

pub data Parsed : Type 0 where
  parsed : ResponseWebSocket → Bool → Parsed
  fault : Parsed

-- The size of the headers and of the payload; `none` for a read outside the data. The extended
-- length's bytes are copied as they stand into the integer.
unfoldable pub read_sizes : ByteArray → Option (ℕ × ℕ)
read_sizes bytes =
    let field = (read_header (get_or bytes 0 0) (get_or bytes 1 0)).payload_len in
    if ltb (length bytes) 2
    then none
    else if leb 126 field
    then (if field == 126
        then (if leb 4 (length bytes) then some (4, union_value (take 2 (drop 2 bytes))) else none)
        else if leb 10 (length bytes)
        then some (10, union_value (take 8 (drop 2 bytes)))
        else none)
    else some (2, field)

-- The test is made on the wrapped sum; the copy reads as far as the true one.
unfoldable pub parse : ResponseWebSocket → ByteArray → Parsed
parse res bytes = elim (read_sizes bytes) [
  | none ↦ fault
  | some (header_size, size) ↦
      if leb (add64 size header_size) (length bytes)
      then (if leb (header_size + size) (length bytes)
          then parsed
              (record res {
                size = header_size + size;
                data_bytes = res.data_bytes ++ take size (drop header_size bytes);
              })
              true
          else fault)
      else parsed res false
]
