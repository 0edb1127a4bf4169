-- ===== src/Base64/Digits.antt =====
-- The digits of the alphabet, and the shifts and masks on bytes, by evaluation over every value.
use Prim.Native.Nat.{bit_and}
use web_socket_cpp.Base.{
  ℕ, ◌+◌, ◌*◌, ◌/◌, ◌%◌, ◌<◌, Bool, true, not, ◌&&◌, ◌≡◌, refl, arith, ◌==◌, IsByte,
}
use web_socket_cpp.Base.Bits.{every_value, every_value-at}
use web_socket_cpp.Base64.{
  digit, find, is_base64, first_six, second_six, third_six, fourth_six, first_byte, second_byte,
  third_byte,
}

digit_test : ℕ → Bool
unfolding digit find is_base64
digit_test i = (find (digit i) == i) && not (digit i == b'=') && is_base64 (digit i)

digit_table : every_value digit_test 64 ≡ true
unfolding every_value digit_test
digit_table = refl

digit_row : (i : ℕ) → i < 64 → digit_test i ≡ true
digit_row i h = every_value-at digit_test 64 digit_table i h

-- A digit is found again at its place in the alphabet.
pub find-digit : (i : ℕ) → i < 64 → find (digit i) ≡ i
unfolding digit_test
find-digit i h = ground (arith, digit_row i h)

-- The decoder's loop does not stop at a digit.
pub digit-is_base64 : (i : ℕ) → i < 64 → (not (digit i == b'=') && is_base64 (digit i)) ≡ true
unfolding digit_test
digit-is_base64 i h = ground (arith, digit_row i h)

mask_test : ℕ → Bool
mask_test x =
    (bit_and x 0xfc / 4 == x / 4)
    && (bit_and x 0x03 == x % 4)
    && (bit_and x 0xf0 / 16 == x / 16)
    && (bit_and x 0x0f == x % 16)
    && (bit_and x 0xc0 / 64 == x / 64)
    && (bit_and x 0x3f == x % 64)
    && (bit_and x 0x30 / 16 == x / 16 % 4)
    && (bit_and x 0x3c / 4 == x / 4 % 16)

mask_table : every_value mask_test 256 ≡ true
unfolding every_value mask_test
mask_table = refl

mask_row : (x : ℕ) → IsByte x → mask_test x ≡ true
mask_row x h = every_value-at mask_test 256 mask_table x h

-- What each mask and shift keeps of a byte.
pub masks_of_byte :
    (x : ℕ)
    → IsByte x
    → (bit_and x 0xfc / 4 ≡ x / 4)
      × (bit_and x 0x03 ≡ x % 4)
      × (bit_and x 0xf0 / 16 ≡ x / 16)
      × (bit_and x 0x0f ≡ x % 16)
      × (bit_and x 0xc0 / 64 ≡ x / 64)
      × (bit_and x 0x3f ≡ x % 64)
      × (bit_and x 0x30 / 16 ≡ x / 16 % 4)
      × (bit_and x 0x3c / 4 ≡ x / 4 % 16)
unfolding mask_test
masks_of_byte x h = ground (arith, mask_row x h)

pub first_six-eq : (a : ℕ) → IsByte a → first_six a ≡ a / 4
unfolding first_six
first_six-eq a ha = (masks_of_byte a ha).0

pub second_six-eq : (a b : ℕ) → IsByte a → IsByte b → second_six a b ≡ a % 4 * 16 + b / 16
unfolding second_six
second_six-eq a b ha hb =
    let low = (masks_of_byte a ha).1 in
    let high = (masks_of_byte b hb).2 in rw (low, high) (omega arith)

pub third_six-eq : (b c : ℕ) → IsByte b → IsByte c → third_six b c ≡ b % 16 * 4 + c / 64
unfolding third_six
third_six-eq b c hb hc =
    let low = (masks_of_byte b hb).3 in
    let high = (masks_of_byte c hc).4 in rw (low, high) (omega arith)

pub fourth_six-eq : (c : ℕ) → IsByte c → fourth_six c ≡ c % 64
unfolding fourth_six
fourth_six-eq c hc = let low = (masks_of_byte c hc).5 in low

pub first_byte-eq : (w x : ℕ) → w < 64 → x < 64 → first_byte w x ≡ w * 4 + x / 16
unfolding first_byte
first_byte-eq w x hw hx = let middle = (masks_of_byte x (omega arith)).6 in rw middle (omega arith)

pub second_byte-eq : (x y : ℕ) → x < 64 → y < 64 → second_byte x y ≡ x % 16 * 16 + y / 4
unfolding second_byte
second_byte-eq x y hx hy =
    let low = (masks_of_byte x (omega arith)).3 in
    let middle = (masks_of_byte y (omega arith)).7 in rw (low, middle) (omega arith)

pub third_byte-eq : (y z : ℕ) → y < 64 → z < 64 → third_byte y z ≡ y % 4 * 64 + z
unfolding third_byte
third_byte-eq y z hy hz = let low = (masks_of_byte y (omega arith)).1 in rw low (omega arith)
