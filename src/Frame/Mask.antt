-- ===== src/Frame/Mask.antt =====
-- Masking is its own inverse and keeps length and bytes.
use web_socket_cpp.Base.{
  ℕ, zero, suc, ◌%◌, [], ◌∷◌, ◌≡◌, refl, ap₂, ap, arith, ByteArray, IsByte, IsBytes, length, get_or,
}
use web_socket_cpp.Base.Bits.{bit_xor_twice, bit_xor-lt}
use web_socket_cpp.Frame.{apply_mask}

pub get_or-IsByte : (key : ByteArray) (i : ℕ) → IsBytes key → IsByte (get_or key i 0)
get_or-IsByte [] i h = omega arith
get_or-IsByte (k ∷ key) zero h = h.0
get_or-IsByte (k ∷ key) (suc i) h = get_or-IsByte key i h.1

-- Masking twice with the same key gives the bytes back, from any index and for a key of any length.
pub apply_mask_twice :
    (key : ByteArray) (i : ℕ) (bs : ByteArray)
    → IsBytes key
    → IsBytes bs
    → apply_mask key i (apply_mask key i bs) ≡ bs
unfolding apply_mask
apply_mask_twice key i [] hk hb = refl
apply_mask_twice key i (b ∷ bs) hk hb =
    ap₂ ◌∷◌ (bit_xor_twice b (get_or key (i % 4) 0) hb.0 (get_or-IsByte key (i % 4) hk))
      (apply_mask_twice key (suc i) bs hk hb.1)

pub length-apply_mask :
    (key : ByteArray) (i : ℕ) (bs : ByteArray) → length (apply_mask key i bs) ≡ length bs
unfolding apply_mask
length-apply_mask key i [] = refl
length-apply_mask key i (b ∷ bs) = ap suc (length-apply_mask key (suc i) bs)

pub apply_mask-IsBytes :
    (key : ByteArray) (i : ℕ) (bs : ByteArray)
    → IsBytes key
    → IsBytes bs
    → IsBytes (apply_mask key i bs)
unfolding apply_mask
apply_mask-IsBytes key i [] hk hb = tt
apply_mask-IsBytes key i (b ∷ bs) hk hb = (
  bit_xor-lt b (get_or key (i % 4) 0) hb.0 (get_or-IsByte key (i % 4) hk),
  apply_mask-IsBytes key (suc i) bs hk hb.1,
)
