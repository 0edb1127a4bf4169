-- ===== src/Frame/Field.antt =====
-- The header's fields survive the way through the two flag bytes, and a length the way through the
-- turned bytes of its field.
use web_socket_cpp.Base.{ℕ, ◌^◌, ◌≤◌, ◌<◌, ◌≡◌, arith}
use web_socket_cpp.Frame.{
  WebSocketHeader, read_header, flags1_byte, flags2_byte, union_bytes, union_value,
}

abbrev pub IsHeader : WebSocketHeader → Type 0
IsHeader h =
    (h.opcode < 16)
    × (h.rsv3 < 2)
    × (h.rsv2 < 2)
    × (h.rsv1 < 2)
    × (h.fin < 2)
    × (h.payload_len < 128)
    × (h.mask < 2)

-- A header whose fields fit their widths is read back from its two bytes.
pub read_header_bytes :
    (h : WebSocketHeader) → IsHeader h → read_header (flags1_byte h) (flags2_byte h) ≡ h
unfolding read_header flags1_byte flags2_byte
read_header_bytes h v = ground arith

pub union_value_two : (n : ℕ) → n ≤ 65535 → union_value (union_bytes 2 n) ≡ n
unfolding union_value union_bytes
union_value_two n h = omega arith

pub union_value_eight : (n : ℕ) → n < 2 ^ 64 → union_value (union_bytes 8 n) ≡ n
unfolding union_value union_bytes
union_value_eight n h = omega arith
