-- ===== src/Text/Search/First.antt =====
-- `SearchPosition` finds the first occurrence.
use web_socket_cpp.Base.{
  ℕ, zero, suc, ◌+◌, ◌-◌, ◌≤◌, ◌<◌, [], ◌∷◌, ◌≡◌, refl, inl, inr, true, false, ◌||◌, arith,
  ByteArray, length, drop, length-drop, add64, sub64, ltb, ◌==◌, Bool-cases,
}
use web_socket_cpp.Text.Search.{
  Compared, same, differs, outside, compare_at, Position, found, missing, fault, scan,
  search_position, size_max,
}

-- `bytes` begins with `sub`.
abbrev pub Starts : ByteArray → ByteArray → Type 0
Starts [] bytes = Unit
Starts (s ∷ sub) [] = ⊥
Starts (s ∷ sub) (b ∷ bytes) = (b ≡ s) × Starts sub bytes

Starts-le : (sub bytes : ByteArray) → Starts sub bytes → length sub ≤ length bytes
Starts-le [] bytes h = omega arith
Starts-le (s ∷ sub) [] h = absurd h
Starts-le (s ∷ sub) (b ∷ bytes) (e, h) = omega (arith, Starts-le sub bytes h)

-- The inner loop decides `Starts`, and reads outside only if the bytes are too few.
data Verdict (bytes sub : ByteArray) : Compared → Type 0 where
  agrees : Starts sub bytes → Verdict bytes sub same
  parts : (Starts sub bytes → ⊥) → Verdict bytes sub differs
  ends : length bytes < length sub → Verdict bytes sub outside

Verdict-cons :
    (b : ℕ) (bytes sub : ByteArray) {out : Compared}
    → Verdict bytes sub out
    → Verdict (b ∷ bytes) (b ∷ sub) out
Verdict-cons b bytes sub (agrees h) = agrees (refl, h)
Verdict-cons b bytes sub (parts h) = parts (λ q. h q.1)
Verdict-cons b bytes sub (ends h) = ends (omega arith)

compare_at-Verdict : (bytes sub : ByteArray) → Verdict bytes sub (compare_at bytes sub)
unfolding compare_at
compare_at-Verdict bytes [] = agrees tt
compare_at-Verdict [] (s ∷ sub) = ends (omega arith)
compare_at-Verdict (b ∷ bytes) (s ∷ sub) = elim (Bool-cases (b == s)) [
  | inl e ↦
      let same_byte : b ≡ s = ground arith in
      rw (e, ← same_byte) (Verdict-cons b bytes sub (compare_at-Verdict bytes sub))
  | inr ne ↦ rw ne (parts (λ q. ground arith))
]

-- What a search from `pos` over `bytes` may return.
pub data First (sub bytes : ByteArray) (pos : ℕ) : Position → Type 0 where
  at :
      (k : ℕ) {p : ℕ}
      → p ≡ pos + k
      → Starts sub (drop k bytes)
      → ((j : ℕ) → j < k → Starts sub (drop j bytes) → ⊥)
      → First sub bytes pos (found p)
  nowhere : ((j : ℕ) → Starts sub (drop j bytes) → ⊥) → First sub bytes pos missing

First-cons :
    (sub : ByteArray) (b : ℕ) (bytes : ByteArray) (pos : ℕ) {out : Position}
    → (Starts sub (b ∷ bytes) → ⊥)
    → First sub bytes (pos + 1) out
    → First sub (b ∷ bytes) pos out
First-cons sub b bytes pos not_here (at k e h low) = at (suc k) (omega arith) h below
  where
    below : (j : ℕ) → j < suc k → Starts sub (drop j (b ∷ bytes)) → ⊥
    below zero lt q = not_here q
    below (suc j) lt q = low j (omega arith) q
First-cons sub b bytes pos not_here (nowhere h) = nowhere none_at
  where
    none_at : (j : ℕ) → Starts sub (drop j (b ∷ bytes)) → ⊥
    none_at zero q = not_here q
    none_at (suc j) q = h j q

too_short :
    (sub bytes : ByteArray) (pos : ℕ) → length bytes < length sub → First sub bytes pos missing
too_short sub bytes pos lt =
    nowhere (λ j q. omega (arith, Starts-le sub (drop j bytes) q, length-drop j bytes))

after_byte :
    (sub : ByteArray) (b : ℕ) (bytes : ByteArray) (pos : ℕ) {out : Compared} {rest : Position}
    → length sub ≤ suc (length bytes)
    → Verdict (b ∷ bytes) sub out
    → First sub bytes (pos + 1) rest
    → First sub (b ∷ bytes) pos (elim out [ same ↦ found pos | differs ↦ rest | outside ↦ fault ])
after_byte sub b bytes pos le (agrees h) rest =
    at 0 (omega arith) h (λ j lt q. absurd (omega arith))
after_byte sub b bytes pos le (parts h) rest = First-cons sub b bytes pos h rest
after_byte sub b bytes pos le (ends h) rest = absurd (omega arith)

-- With the limit at the last position at which the substring fits.
scan-First :
    (sub : ByteArray) (limit pos : ℕ) (bytes : ByteArray)
    → 0 < length sub
    → limit + length sub ≡ pos + length bytes
    → First sub bytes pos (scan sub limit pos bytes)
unfolding scan
scan-First sub limit pos [] pos_sub e =
    let past : ltb limit pos ≡ true = ground arith in rw past (too_short sub [] pos (omega arith))
scan-First sub limit pos (b ∷ bytes) pos_sub e = elim (Bool-cases (ltb limit pos)) [
  | inl past ↦ rw past (too_short sub (b ∷ bytes) pos (ground arith))
  | inr fits ↦ rw fits (
      after_byte sub b bytes pos (ground arith) (compare_at-Verdict (b ∷ bytes) sub)
        (scan-First sub limit (pos + 1) bytes pos_sub (omega arith)))
]

limit-eq-sub : (n m : ℕ) → m ≤ n → n < size_max → add64 (sub64 (sub64 n 1) m) 1 ≡ n - m
limit-eq-sub n m le lt = omega arith

-- In an array at least as long as the substring, a search up to the end never reads outside: it
-- returns the first position, from the start on, at which the substring stands, and `missing`
-- exactly if there is none. Positions count from the start.
pub search_position-First :
    (bytes sub : ByteArray) (start : ℕ)
    → 0 < length sub
    → length sub ≤ length bytes
    → start ≤ length bytes
    → length bytes < size_max
    → First sub (drop start bytes) start (search_position bytes sub start size_max)
unfolding search_position
search_position-First bytes sub start pos_sub fits inside size =
    let enough : (length bytes == 0 || length sub == 0) ≡ false = ground arith in
    let limit_eq = limit-eq-sub (length bytes) (length sub) fits size in
    rw (enough, limit_eq)
      (scan-First sub _ start (drop start bytes) pos_sub (omega (arith, length-drop start bytes)))

pub First-bounds :
    (sub bytes : ByteArray) (pos : ℕ) {p : ℕ}
    → 0 < length sub
    → First sub bytes pos (found p)
    → (pos ≤ p) × (p < pos + length bytes)
First-bounds sub bytes pos pos_sub (at k e h low) =
    omega (arith, Starts-le sub (drop k bytes) h, length-drop k bytes)

-- What is found ends within the bytes.
pub First-fits :
    (sub bytes : ByteArray) (pos : ℕ) {p : ℕ}
    → 0 < length sub
    → First sub bytes pos (found p)
    → p + length sub ≤ pos + length bytes
First-fits sub bytes pos pos_sub (at k e h low) =
    omega (arith, Starts-le sub (drop k bytes) h, length-drop k bytes)
