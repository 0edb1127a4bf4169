-- ===== src/Frame.antt =====
-- include/common/common_ws.h, and what the two classes that read and write WebSocket frames share.
-- The bit-fields stand in their byte from the lowest bit on and integers in memory are little-endian,
-- as the compilers of the supported targets lay them out.
pub mod MessageType
pub mod Mask
pub mod Field
pub mod Request
pub mod Response
mod Tests
use Prim.Native.Nat.{bit_xor}
use mathlib.Core.List.{reverse}
use web_socket_cpp.Base.{
  ℕ, zero, suc, ◌+◌, ◌*◌, ◌/◌, ◌%◌, [], ◌∷◌, ByteArray, get_or, leb, ltb, if◌then◌else◌,
}

-- `Flag1` and `Flag2`.
pub record WebSocketHeader : Type 0 where
  pub opcode : ℕ
  pub rsv3 : ℕ
  pub rsv2 : ℕ
  pub rsv1 : ℕ
  pub fin : ℕ
  pub payload_len : ℕ
  pub mask : ℕ

-- `memcpy` of the first two bytes into a header, and of a header into two bytes.
unfoldable pub read_header : ℕ → ℕ → WebSocketHeader
read_header b0 b1 = record {
  opcode = b0 % 16;
  rsv3 = b0 / 16 % 2;
  rsv2 = b0 / 32 % 2;
  rsv1 = b0 / 64 % 2;
  fin = b0 / 128 % 2;
  payload_len = b1 % 128;
  mask = b1 / 128 % 2;
}

unfoldable pub flags1_byte : WebSocketHeader → ℕ
flags1_byte h = h.opcode + 16 * h.rsv3 + 32 * h.rsv2 + 64 * h.rsv1 + 128 * h.fin

unfoldable pub flags2_byte : WebSocketHeader → ℕ
flags2_byte h = h.payload_len + 128 * h.mask

-- The bytes in memory of an unsigned integer of `n` bytes, and the integer that bytes in memory
-- stand for: the two views of the unions in `WebSocketHeaderLength2` and `WebSocketHeaderLength3`.
unfoldable pub union_bytes : ℕ → ℕ → ByteArray
union_bytes zero v = []
union_bytes (suc n) v = v % 256 ∷ union_bytes n (v / 256)

unfoldable pub union_value : ByteArray → ℕ
union_value [] = 0
union_value (b ∷ bs) = b + 256 * union_value bs

-- The 7-bit field `PayloadLen` that both `Send` functions set for a payload of that size.
unfoldable pub payload_field : ℕ → ℕ
payload_field size = if ltb size 126 then size % 256 % 128 else if leb size 65535 then 126 else 127

-- The extended length that both `Send` functions write behind the two flag bytes, its bytes turned
-- round: none, two or eight.
unfoldable pub length_field : ℕ → ByteArray
unfolding union_bytes
length_field size =
    if ltb size 126
    then []
    else if leb size 65535
    then reverse (union_bytes 2 size)
    else reverse (union_bytes 8 size)

-- The loops `encoded[i] = data[i] ^ mask.bytes[i % 4]`, from index `i` on.
unfoldable pub apply_mask : ByteArray → ℕ → ByteArray → ByteArray
apply_mask key i [] = []
apply_mask key i (b ∷ bs) = bit_xor b (get_or key (i % 4) 0) ∷ apply_mask key (suc i) bs
