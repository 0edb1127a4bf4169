-- ===== src/Pool.antt =====
-- include/wrappers/posix/MemoryPool.h and src/wrappers/posix/MemoryPool.cpp. A pointer into the
-- pool's buffer is its offset in the buffer and `none` is `nullptr`; the contents of the buffer,
-- which the pool never reads, and the mutex around each call are left out.
pub mod Invariant
pub mod Placement
pub mod Release
mod Tests
use web_socket_cpp.Base.{
  ℕ, Bool, List, [], ◌∷◌, Option, none, some, ◌==◌, leb, if◌then◌else◌, add64, sub64, length,
}

pub record Region : Type 0 where
  pub offset : ℕ
  pub size : ℕ

pub record MemoryPool : Type 0 where
  pub total_size : ℕ
  pub used_size : ℕ
  pub regions : List Region

-- The constructor.
unfoldable pub create : ℕ → MemoryPool
create total = record { total_size = total; used_size = 0; regions = [] }

-- The loop of `allocate` from `cursor` on: where the new region starts, and the regions with it
-- inserted. Past the last region the rest of the buffer is tried.
unfoldable pub place : ℕ → ℕ → ℕ → List Region → Option (ℕ × List Region)
place total size cursor [] =
    if leb size (sub64 total cursor)
    then some (cursor, record { offset = cursor; size = size } ∷ [])
    else none
place total size cursor (r ∷ rs) =
    if leb size (sub64 r.offset cursor)
    then some (cursor, record { offset = cursor; size = size } ∷ r ∷ rs)
    else elim (place total size (add64 r.offset r.size) rs) [
      | none ↦ none
      | some (at, rest) ↦ some (at, r ∷ rest)
    ]

unfoldable pub allocate : MemoryPool → ℕ → MemoryPool × Option ℕ
allocate p size = if size == 0 then (p, none) else elim (place p.total_size size 0 p.regions) [
  | none ↦ (p, none)
  | some (at, rest) ↦ (record p { used_size = add64 p.used_size size; regions = rest }, some at)
]

-- The loop of `free`. It goes on behind an erased region, and the one that moves into the erased
-- place is passed over, since the index is advanced all the same.
unfoldable pub erase_at : ℕ → List Region → ℕ → List Region × ℕ
erase_at at [] used = ([], used)
erase_at at (r ∷ []) used = if r.offset == at then ([], sub64 used r.size) else (r ∷ [], used)
erase_at at (r ∷ s ∷ rs) used =
    let erased = erase_at at rs (sub64 used r.size) in
    let kept = erase_at at (s ∷ rs) used in
    if r.offset == at then (s ∷ erased.0, erased.1) else (r ∷ kept.0, kept.1)

unfoldable pub free : MemoryPool → Option ℕ → MemoryPool
free p none = p
free p (some at) =
    let rest = erase_at at p.regions p.used_size in
    record p { used_size = rest.1; regions = rest.0 }

pub free_size : MemoryPool → ℕ
free_size p = sub64 p.total_size p.used_size

pub allocation_count : MemoryPool → ℕ
allocation_count p = length p.regions

pub empty : MemoryPool → Bool
empty p = p.used_size == 0

pub full : MemoryPool → Bool
full p = p.used_size == p.total_size

pub reset : MemoryPool → MemoryPool
reset p = record p { used_size = 0; regions = [] }
