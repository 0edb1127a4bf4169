-- ===== src/Pool/Release.antt =====
-- What `free` does to a valid pool.
use web_socket_cpp.Base.{
  ℕ, zero, suc, false, ◌+◌, ◌-◌, ◌≤◌, ◌<◌, ◌≢◌, List, [], ◌∷◌, ◌++◌, Option, none, some, ◌≡◌, refl,
  ap, ◌∙◌, arith, inl, inr, ◌==◌, if◌then◌else◌, Bool-cases, size_mod, sub64, All,
}
use web_socket_cpp.Pool.{Region, MemoryPool, allocate, erase_at, free}
use web_socket_cpp.Pool.Invariant.{sum_sizes, IsOrdered, IsValid, sum_sizes-le, IsOrdered-lower}
use web_socket_cpp.Pool.Placement.{Allocation, refused, granted, allocate-Allocation}

-- The regions less the one that starts at `at`, and the size of that one.
abbrev pub remove : ℕ → List Region → List Region
remove at [] = []
remove at (r ∷ rs) = if r.offset == at then rs else r ∷ remove at rs

abbrev pub size_at : ℕ → List Region → ℕ
size_at at [] = 0
size_at at (r ∷ rs) = if r.offset == at then r.size else size_at at rs

erase_at_none :
    (at : ℕ) (rs : List Region) (used : ℕ)
    → All (λ r. r.offset ≢ at) rs
    → erase_at at rs used ≡ (rs, used)
unfolding erase_at
erase_at_none at [] used h = refl
erase_at_none at (r ∷ []) used h = ground arith
erase_at_none at (r ∷ s ∷ rs) used (h, hs) = ground (arith, erase_at_none at (s ∷ rs) used hs)

-- Regions behind `at` do not start there.
All-behind :
    (at lo total : ℕ) (rs : List Region)
    → at < lo
    → IsOrdered lo total rs
    → All (λ r. r.offset ≢ at) rs
All-behind at lo total [] lt h = tt
All-behind at lo total (r ∷ rs) lt (a, b, c) =
    (omega arith, All-behind at (r.offset + r.size) total rs (omega arith) c)

-- On regions in order the loop of `free` removes the one region that starts at `at`.
erase_at-remove :
    (at lo total : ℕ) (rs : List Region) (used : ℕ)
    → IsOrdered lo total rs
    → sum_sizes rs ≤ used
    → used < size_mod
    → erase_at at rs used ≡ (remove at rs, used - size_at at rs)
unfolding erase_at
erase_at-remove at lo total [] used ord le lt = ground arith
erase_at-remove at lo total (r ∷ []) used ord le lt = ground arith
erase_at-remove at lo total (r ∷ s ∷ rs) used ord le lt = elim (Bool-cases (r.offset == at)) [
  | inl here ↦
      rw
        (
          here,
          erase_at_none at rs (sub64 used r.size)
              (All-behind at (s.offset + s.size) total rs (ground arith) ord.2.2),
        )
        (ground arith)
  | inr there ↦
      rw (there, erase_at-remove at (r.offset + r.size) total (s ∷ rs) used ord.2 (omega arith) lt)
]

sum_sizes-remove :
    (at : ℕ) (rs : List Region) → sum_sizes (remove at rs) + size_at at rs ≡ sum_sizes rs
sum_sizes-remove at [] = refl
sum_sizes-remove at (r ∷ rs) = ground (arith, sum_sizes-remove at rs)

remove-IsOrdered :
    (at lo total : ℕ) (rs : List Region) → IsOrdered lo total rs → IsOrdered lo total (remove at rs)
remove-IsOrdered at lo total [] h = h
remove-IsOrdered at lo total (r ∷ rs) (a, b, c) = elim (Bool-cases (r.offset == at)) [
  | inl here ↦ rw here (IsOrdered-lower lo (r.offset + r.size) total rs (omega arith) c)
  | inr there ↦ rw there (a, b, remove-IsOrdered at (r.offset + r.size) total rs c)
]

-- What `free` computes on a valid pool.
free-remove :
    (p : MemoryPool) (at : ℕ)
    → IsValid p
    → free p (some at)
      ≡ record p { used_size = p.used_size - size_at at p.regions; regions = remove at p.regions }
unfolding free
free-remove p at v = rw (
    erase_at-remove at 0 p.total_size p.regions p.used_size v.ordered (omega (arith, v.counted))
      (omega (arith, v.counted, v.fits, sum_sizes-le 0 p.total_size p.regions v.ordered)))

-- Freeing any pointer, known to the pool or not, leaves a valid pool valid.
pub free-IsValid : (p : MemoryPool) (ptr : Option ℕ) → IsValid p → IsValid (free p ptr)
free-IsValid p none v = unfold free in v
free-IsValid p (some at) v = rw (free-remove p at v) (record {
  fits = v.fits;
  ordered = remove-IsOrdered at 0 p.total_size p.regions v.ordered;
  counted = omega (arith, v.counted, sum_sizes-remove at p.regions);
})

remove_middle :
    (lo total : ℕ) (before : List Region) (r : Region) (behind : List Region)
    → IsOrdered lo total (before ++ r ∷ behind)
    → (remove r.offset (before ++ r ∷ behind) ≡ before ++ behind)
      × (size_at r.offset (before ++ r ∷ behind) ≡ r.size)
      × (lo ≤ r.offset)
remove_middle lo total [] r behind ord = (ground arith, ground arith, ord.0)
remove_middle lo total (q ∷ before) r behind ord =
    let (same, size, le) = remove_middle (q.offset + q.size) total before r behind ord.2 in
    let differs : (q.offset == r.offset) ≡ false = ground arith in
    (rw (differs, same), rw (differs, size), omega arith)

-- Freeing a live region takes exactly that region away and gives its bytes back to the count.
pub free_live :
    (p : MemoryPool) (before : List Region) (r : Region) (behind : List Region)
    → IsValid p
    → p.regions ≡ before ++ r ∷ behind
    → free p (some r.offset)
      ≡ record p { used_size = p.used_size - r.size; regions = before ++ behind }
free_live p before r behind v split =
    let (same, size, le) = remove_middle 0 p.total_size before r behind (rw split at (v.ordered)) in
    rw (free-remove p r.offset v, split, same, size)

remove_unknown :
    (at : ℕ) (rs : List Region)
    → All (λ r. r.offset ≢ at) rs
    → (remove at rs ≡ rs) × (size_at at rs ≡ 0)
remove_unknown at [] h = (refl, refl)
remove_unknown at (r ∷ rs) (h, hs) =
    let (same, size) = remove_unknown at rs hs in (ground arith, ground arith)

-- Freeing a pointer at which no live region starts changes nothing.
free_unknown :
    (p : MemoryPool) (at : ℕ)
    → IsValid p
    → All (λ r. r.offset ≢ at) p.regions
    → free p (some at) ≡ p
free_unknown p at v h =
    let (same, size) = remove_unknown at p.regions h in
    rw (free-remove p at v, same, size) (ground arith)

sum_sizes-insert :
    (before : List Region) (r : Region) (behind : List Region)
    → sum_sizes (before ++ r ∷ behind) ≡ r.size + sum_sizes (before ++ behind)
sum_sizes-insert [] r behind = refl
sum_sizes-insert (q ∷ before) r behind = omega (arith, sum_sizes-insert before r behind)

restore :
    (p : MemoryPool) (size : ℕ) {out : MemoryPool × Option ℕ}
    → IsValid p
    → Allocation p size out
    → free out.0 out.1 ≡ p
restore p size v (refused _) = unfold free in refl
restore p size v (granted {q} {at} before behind fit low split joined total vq) =
    free_live q before (record { offset = at; size = size }) behind vq joined
    ∙ ground (
      arith,
      v.counted,
      vq.counted,
      ap sum_sizes joined,
      ap sum_sizes split,
      sum_sizes-insert before (record { offset = at; size = size }) behind,
    )

-- Freeing what `allocate` returned restores the pool, whether the call succeeded or not.
pub free-allocate :
    (p : MemoryPool) (size : ℕ) → IsValid p → free (allocate p size).0 (allocate p size).1 ≡ p
free-allocate p zero v = unfold allocate free in refl
free-allocate p (suc n) v = restore p (suc n) v (allocate-Allocation p (suc n) v (omega arith))

Allocation-IsValid :
    (p : MemoryPool) (size : ℕ) {out : MemoryPool × Option ℕ}
    → IsValid p
    → Allocation p size out
    → IsValid out.0
Allocation-IsValid p size v (refused _) = v
Allocation-IsValid p size v (granted before behind fit low split joined total vq) = vq

-- `allocate` leaves a valid pool valid, for every size.
pub allocate-IsValid : (p : MemoryPool) (size : ℕ) → IsValid p → IsValid (allocate p size).0
allocate-IsValid p zero v = unfold allocate in v
allocate-IsValid p (suc n) v =
    Allocation-IsValid p (suc n) v (allocate-Allocation p (suc n) v (omega arith))
