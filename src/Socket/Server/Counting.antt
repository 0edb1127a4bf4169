-- ===== src/Socket/Server/Counting.antt =====
-- How often a pointer stands for a region of the pool, and what `allocate` and `free` do to that.
use web_socket_cpp.Base.{
  ℕ, ◌+◌, ◌≤◌, ◌<◌, ◌⊎◌, inl, inr, ◌&&◌, List, [], ◌∷◌, ◌++◌, Option, some, ◌≡◌, sym, ap, arith,
  Bool-cases, All, ◌==◌, if◌then◌else◌,
}
use web_socket_cpp.Pool.{Region, MemoryPool, allocate, free}
use web_socket_cpp.Pool.Invariant.{IsValid, IsApart}
use web_socket_cpp.Pool.Placement.{Allocation, refused, granted, allocate-Allocation}
use web_socket_cpp.Pool.Release.{free_live}

-- The regions of that size that start at a pointer.
abbrev pub regions_at : ℕ → ℕ → List Region → ℕ
regions_at size pointer [] = 0
regions_at size pointer (r ∷ rs) =
    (if r.offset == pointer && r.size == size then 1 else 0) + regions_at size pointer rs

abbrev pub one_at : ℕ → ℕ → ℕ
one_at pointer q = if pointer == q then 1 else 0

regions_at-insert :
    (size q pointer : ℕ) (before behind : List Region)
    → regions_at size q (before ++ record { offset = pointer; size = size } ∷ behind)
      ≡ one_at pointer q + regions_at size q (before ++ behind)
regions_at-insert size q pointer [] behind = ground arith
regions_at-insert size q pointer (r ∷ before) behind =
    omega (arith, regions_at-insert size q pointer before behind)

-- A pointer that is counted stands for a region.
record Found (size pointer : ℕ) (rs : List Region) : Type 0 where
  pub before : List Region
  pub behind : List Region
  pub split : rs ≡ before ++ record { offset = pointer; size = size } ∷ behind

regions_at-Found :
    (size pointer : ℕ) (rs : List Region) → 0 < regions_at size pointer rs → Found size pointer rs
regions_at-Found size pointer [] h = absurd (omega arith)
regions_at-Found size pointer (r ∷ rs) h =
    elim (Bool-cases (r.offset == pointer && r.size == size)) [
      | inl here ↦ record { before = []; behind = rs; split = ground arith }
      | inr there ↦
          let rest = regions_at-Found size pointer rs (ground arith) in
          record { before = r ∷ rest.before; behind = rest.behind; split = ap (◌∷◌ r) rest.split }
    ]

-- What is apart from every region is apart from the one at a pointer that is counted.
pub regions_at-apart :
    (size pointer at : ℕ) (rs : List Region)
    → 0 < regions_at size pointer rs
    → All (IsApart at size) rs
    → (pointer + size ≤ at) ⊎ (at + size ≤ pointer)
regions_at-apart size pointer at [] h apart = absurd (omega arith)
regions_at-apart size pointer at (r ∷ rs) h (apart, more) =
    elim (Bool-cases (r.offset == pointer && r.size == size)) [
      | inl here ↦ elim apart [ inl below ↦ inr (ground arith) | inr above ↦ inl (ground arith) ]
      | inr there ↦ regions_at-apart size pointer at rs (ground arith) more
    ]

-- A buffer that is given is a new region, apart from the others.
pub record Given (size pointer : ℕ) (before after : MemoryPool) : Type 0 where
  pub valid : IsValid after
  pub apart : All (IsApart pointer size) before.regions
  pub counted :
      (q : ℕ)
      → regions_at size q after.regions ≡ one_at pointer q + regions_at size q before.regions

Allocation-Given :
    (size pointer : ℕ) (pool : MemoryPool) {out : MemoryPool × Option ℕ}
    → Allocation pool size out
    → out.1 ≡ some pointer
    → Given size pointer pool out.0
Allocation-Given size pointer pool (refused no_fit) e = absurd (ground (arith, e))
Allocation-Given size pointer pool (granted {q} {at} before behind fit low split joined total valid)
      e =
    let same : at ≡ pointer = ground (arith, e) in
    record {
      valid = valid;
      apart = rw (sym same) (fit.1);
      counted = λ k. rw (joined, split, sym same) (regions_at-insert size k at before behind);
    }

pub allocate-Given :
    (size pointer : ℕ) (pool : MemoryPool)
    → IsValid pool
    → 0 < size
    → (allocate pool size).1 ≡ some pointer
    → Given size pointer pool (allocate pool size).0
allocate-Given size pointer pool valid some_bytes e =
    Allocation-Given size pointer pool (allocate-Allocation pool size valid some_bytes) e

-- A buffer that is freed is one region less.
pub regions_at-free :
    (size pointer : ℕ) (pool : MemoryPool)
    → IsValid pool
    → 0 < regions_at size pointer pool.regions
    → (q : ℕ)
    → regions_at size q (free pool (some pointer)).regions + one_at pointer q
      ≡ regions_at size q pool.regions
regions_at-free size pointer pool valid live q =
    let found = regions_at-Found size pointer pool.regions live in
    rw
      (
        free_live pool found.before (record { offset = pointer; size = size }) found.behind valid
            found.split,
        found.split,
      )
      (omega (arith, regions_at-insert size q pointer found.before found.behind))
