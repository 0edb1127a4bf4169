-- ===== src/Text/Compare.antt =====
-- `StringUtil::Compare` over byte arrays and, ignoring case, over texts; `ToLower`, `ToUpper` and
-- `Contains`; `Trim` of a text, with its default characters.
use mathlib.Core.List.{reverse}
use web_socket_cpp.Base.{
  ℕ, Bool, true, false, [], ◌∷◌, map, ◌↔◌, ◌≡◌, refl, arith, ByteArray, length, ◌==◌, if◌then◌else◌,
}
use web_socket_cpp.Names.Hash.{to_lower, to_upper}

unfoldable pub lower : ByteArray → ByteArray
lower str = map to_lower str

unfoldable pub upper : ByteArray → ByteArray
upper str = map to_upper str

unfoldable pub contains : ByteArray → ℕ → Bool
contains [] ch = false
contains (c ∷ str) ch = if c == ch then true else contains str ch

-- The loops of the two `Compare` functions, over arrays of one size.
unfoldable pub same_bytes : ByteArray → ByteArray → Bool
same_bytes (a ∷ xs) (b ∷ ys) = if a == b then same_bytes xs ys else false
same_bytes _ _ = true

unfoldable pub same_letters : ByteArray → ByteArray → Bool
same_letters (a ∷ xs) (b ∷ ys) = if to_lower a == to_lower b then same_letters xs ys else false
same_letters _ _ = true

unfoldable pub compare_bytes : ByteArray → ByteArray → Bool
compare_bytes a b = if length a == length b then same_bytes a b else false

unfoldable pub compare : ByteArray → ByteArray → Bool
compare a b = if length a == length b then same_letters a b else false

-- `str.erase(0, str.find_first_not_of(chars))`
unfoldable pub ltrim : ByteArray → ByteArray → ByteArray
ltrim chars [] = []
ltrim chars (c ∷ str) = let rest = ltrim chars str in if contains chars c then rest else c ∷ str

-- `str.erase(str.find_last_not_of(chars) + 1)`
unfoldable pub rtrim : ByteArray → ByteArray → ByteArray
unfolding ltrim
rtrim chars str = reverse (ltrim chars (reverse str))

abbrev pub blanks : ByteArray
blanks = b' ' ∷ b'\r' ∷ b'\n' ∷ b'\t' ∷ []

unfoldable pub trim : ByteArray → ByteArray
unfolding rtrim ltrim
trim str = ltrim blanks (rtrim blanks str)

compare_bytes_sound : (a b : ByteArray) → compare_bytes a b ≡ true → a ≡ b
unfolding compare_bytes same_bytes
compare_bytes_sound [] [] h = refl
compare_bytes_sound [] (y ∷ b) h = ground arith
compare_bytes_sound (x ∷ a) [] h = ground arith
compare_bytes_sound (x ∷ a) (y ∷ b) h = ground (arith, compare_bytes_sound a b)

compare_bytes_refl : (a : ByteArray) → compare_bytes a a ≡ true
unfolding compare_bytes same_bytes
compare_bytes_refl [] = refl
compare_bytes_refl (x ∷ a) = ground (arith, compare_bytes_refl a)

-- The comparison of byte arrays decides equality.
pub compare_bytes-iff-eq : (a b : ByteArray) → (compare_bytes a b ≡ true) ↔ (a ≡ b)
compare_bytes-iff-eq a b = (compare_bytes_sound a b, λ e. rw e (compare_bytes_refl b))

-- The comparison of texts is equality of their lower-case forms.
pub compare-eq-lower : (a b : ByteArray) → compare a b ≡ compare_bytes (lower a) (lower b)
unfolding compare compare_bytes same_letters same_bytes lower
compare-eq-lower [] [] = refl
compare-eq-lower [] (y ∷ b) = ground arith
compare-eq-lower (x ∷ a) [] = ground arith
compare-eq-lower (x ∷ a) (y ∷ b) = ground (arith, compare-eq-lower a b)

-- Two texts compare as the same exactly if their lower-case forms are equal.
pub compare-iff-lower : (a b : ByteArray) → (compare a b ≡ true) ↔ (lower a ≡ lower b)
compare-iff-lower a b = rw compare-eq-lower (compare_bytes-iff-eq (lower a) (lower b))
