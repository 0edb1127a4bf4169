-- ===== src/Text/Search.antt =====
-- `StringUtil::SearchPosition` and `StringUtil::Split` over byte arrays. `fault` is a read outside the
-- array, which C++ leaves undefined. Sizes and positions wrap round as `size_t` does, and an end of
-- `SIZE_MAX` stands for the last byte.
pub mod First
pub mod Outside
use web_socket_cpp.Base.{
  ℕ, zero, suc, ◌+◌, ◌-◌, List, [], ◌∷◌, ByteArray, ◌||◌, length, drop, add64, sub64, size_mod, ltb,
  leb, ◌==◌, if◌then◌else◌,
}

abbrev pub size_max : ℕ
size_max = size_mod - 1

-- The inner loop: the bytes at a position against the substring.
pub data Compared : Type 0 where
  same differs outside : Compared

unfoldable pub compare_at : ByteArray → ByteArray → Compared
compare_at bytes [] = same
compare_at [] (s ∷ sub) = outside
compare_at (b ∷ bytes) (s ∷ sub) = if b == s then compare_at bytes sub else differs

pub data Position : Type 0 where
  found : ℕ → Position
  missing fault : Position

-- The outer loop, from `pos` on, over the bytes that stand there.
unfoldable pub scan : ByteArray → ℕ → ℕ → ByteArray → Position
scan sub limit pos [] = if ltb limit pos then missing else fault
scan sub limit pos (b ∷ bytes) =
    let rest = scan sub limit (pos + 1) bytes in
    if ltb limit pos
    then missing
    else elim (compare_at (b ∷ bytes) sub) [ same ↦ found pos | differs ↦ rest | outside ↦ fault ]

unfoldable pub search_position : ByteArray → ByteArray → ℕ → ℕ → Position
search_position bytes sub start end =
    if length bytes == 0 || length sub == 0
    then missing
    else (let last = if end == size_max then sub64 (length bytes) 1 else end in
        let limit = add64 (sub64 last (length sub)) 1 in scan sub limit start (drop start bytes))

pub record Range : Type 0 where
  pub start : ℕ
  pub end : ℕ

-- The ranges, or none if an array was read outside its bounds or the loop's fuel ran out.
pub data Ranges : Type 0 where
  ranges : List Range → Ranges
  broken : Ranges

unfoldable pub cons_range : Range → Ranges → Ranges
cons_range r (ranges rs) = ranges (r ∷ rs)
cons_range r broken = broken

-- The `while` loop of `Split`: each round starts behind the delimiter that it found.
unfoldable pub split_loop : ℕ → ByteArray → ByteArray → ℕ → ℕ → Ranges
unfolding cons_range
split_loop zero bytes delimiter start end = broken
split_loop (suc fuel) bytes delimiter start end = elim (search_position bytes delimiter start end) [
  | found pos ↦
      let next = add64 pos (length delimiter) in
      let more = split_loop fuel bytes delimiter next end in
      cons_range (record { start = start; end = sub64 pos 1 })
        (if leb (add64 (sub64 end (length delimiter)) 1) pos
          then (if leb next end
              then ranges (record { start = next; end = end } ∷ [])
              else ranges [])
          else more)
  | missing ↦ if leb start end then ranges (record { start = start; end = end } ∷ []) else ranges []
  | fault ↦ broken
]

unfoldable pub split : ByteArray → ByteArray → ℕ → ℕ → Ranges
unfolding split_loop
split bytes delimiter start end =
    if length bytes == 0 || length delimiter == 0
    then ranges []
    else (let last = if end == size_max then sub64 (length bytes) 1 else end in
        if ltb last (length delimiter)
        then ranges []
        else split_loop (suc (length bytes)) bytes delimiter start last)
