-- ===== src/Text/Search/Outside.antt =====
-- Where the searches read outside their array.
use web_socket_cpp.Base.{
  ℕ, ◌+◌, ◌≤◌, ◌<◌, [], ◌∷◌, ◌≡◌, refl, ◌⊎◌, inr, false, ◌||◌, arith, ByteArray, length, ◌==◌,
}
use web_socket_cpp.Text.Search.{
  differs, outside, compare_at, fault, scan, search_position, size_max,
}

-- Too few bytes never make up the substring.
compare_short :
    (bytes sub : ByteArray)
    → length bytes < length sub
    → (compare_at bytes sub ≡ differs) ⊎ (compare_at bytes sub ≡ outside)
unfolding compare_at
compare_short bytes [] lt = absurd (omega arith)
compare_short [] (s ∷ sub) lt = inr refl
compare_short (b ∷ bytes) (s ∷ sub) lt = ground (arith, compare_short bytes sub (omega arith))

scan_outside :
    (sub : ByteArray) (limit pos : ℕ) (bytes : ByteArray)
    → length bytes < length sub
    → pos + length bytes ≤ limit
    → scan sub limit pos bytes ≡ fault
unfolding scan
scan_outside sub limit pos [] lt le = ground arith
scan_outside sub limit pos (b ∷ bytes) lt le = ground (
  arith,
  compare_short (b ∷ bytes) sub lt,
  scan_outside sub limit (pos + 1) bytes (omega arith) (omega arith),
)

-- A search for a substring that is longer than the array, from the array's start up to its end,
-- reads outside the array whatever the bytes are, unless the array is empty: the last position at
-- which the substring could stand is computed below zero and wraps round.
search_position_outside :
    (bytes sub : ByteArray)
    → 0 < length bytes
    → length bytes < length sub
    → length sub < size_max
    → search_position bytes sub 0 size_max ≡ fault
unfolding search_position
search_position_outside bytes sub some_bytes longer size =
    let enough : (length bytes == 0 || length sub == 0) ≡ false = ground arith in
    rw enough (scan_outside sub _ 0 bytes longer (omega arith))
