-- ===== src/Pool/Invariant.antt =====
-- The pool's invariant: the regions stand in order, apart from one another and inside the buffer,
-- none is empty, and `m_used_size` is the sum of their sizes.
use web_socket_cpp.Base.{ℕ, ◌+◌, ◌≤◌, ◌<◌, List, [], ◌∷◌, ◌≡◌, refl, ◌⊎◌, arith, size_mod, All}
use web_socket_cpp.Pool.{Region, MemoryPool, create, reset}

abbrev pub sum_sizes : List Region → ℕ
sum_sizes [] = 0
sum_sizes (r ∷ rs) = r.size + sum_sizes rs

-- `rs` fills parts of the buffer from `lo` up to `total`, in order.
abbrev pub IsOrdered : ℕ → ℕ → List Region → Type 0
IsOrdered lo total [] = lo ≤ total
IsOrdered lo total (r ∷ rs) =
    (lo ≤ r.offset) × (0 < r.size) × IsOrdered (r.offset + r.size) total rs

pub record IsValid (p : MemoryPool) : Type 0 where
  pub fits : p.total_size < size_mod
  pub ordered : IsOrdered 0 p.total_size p.regions
  pub counted : p.used_size ≡ sum_sizes p.regions

-- The bytes from `at`, `size` of them, share none with the region.
abbrev pub IsApart : ℕ → ℕ → Region → Type 0
IsApart at size r = (at + size ≤ r.offset) ⊎ (r.offset + r.size ≤ at)

-- The bytes from `at`, `size` of them, lie in the buffer and are in no region.
abbrev pub IsFree : MemoryPool → ℕ → ℕ → Type 0
IsFree p at size = (at + size ≤ p.total_size) × All (IsApart at size) p.regions

pub sum_sizes-le :
    (lo total : ℕ) (rs : List Region) → IsOrdered lo total rs → lo + sum_sizes rs ≤ total
sum_sizes-le lo total [] h = omega arith
sum_sizes-le lo total (r ∷ rs) (a, b, c) =
    omega (arith, sum_sizes-le (r.offset + r.size) total rs c)

pub IsOrdered-le : (lo total : ℕ) (rs : List Region) → IsOrdered lo total rs → lo ≤ total
IsOrdered-le lo total rs h = omega (arith, sum_sizes-le lo total rs h)

pub IsOrdered-lower :
    (lo lo' total : ℕ) (rs : List Region)
    → lo ≤ lo'
    → IsOrdered lo' total rs
    → IsOrdered lo total rs
IsOrdered-lower lo lo' total [] le h = omega arith
IsOrdered-lower lo lo' total (r ∷ rs) le (a, b, c) = (omega arith, b, c)

-- Every region starts at or behind the lower end.
pub IsOrdered-All :
    (lo total : ℕ) (rs : List Region)
    → IsOrdered lo total rs
    → All (λ r. (lo ≤ r.offset) × (0 < r.size) × (r.offset + r.size ≤ total)) rs
IsOrdered-All lo total [] h = tt
IsOrdered-All lo total (r ∷ rs) (a, b, c) = (
  (a, b, IsOrdered-le (r.offset + r.size) total rs c),
  weaken rs (IsOrdered-All (r.offset + r.size) total rs c),
)
  where
    weaken :
        (qs : List Region)
        → All (λ q. (r.offset + r.size ≤ q.offset) × (0 < q.size) × (q.offset + q.size ≤ total)) qs
        → All (λ q. (lo ≤ q.offset) × (0 < q.size) × (q.offset + q.size ≤ total)) qs
    weaken [] _ = tt
    weaken (q ∷ qs) ((x, y, z), t) = ((omega arith, y, z), weaken qs t)

-- A new pool and a pool that is reset meet the invariant.
pub create-IsValid : (total : ℕ) → total < size_mod → IsValid (create total)
unfolding create
create-IsValid total h = record { fits = h; ordered = omega arith; counted = refl }

pub reset-IsValid : (p : MemoryPool) → IsValid p → IsValid (reset p)
unfolding reset
reset-IsValid p v = record { fits = v.fits; ordered = omega arith; counted = refl }
