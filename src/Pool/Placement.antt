-- ===== src/Pool/Placement.antt =====
-- What `allocate` does to a valid pool: it places the region first-fit.
use web_socket_cpp.Base.{
  ℕ, ◌+◌, ◌≤◌, ◌<◌, List, [], ◌∷◌, ◌++◌, Option, none, some, ◌≡◌, refl, inl, inr, ap, arith, leb,
  ◌==◌, add64-eq-add, Bool-cases, size_mod, add64, sub64, All,
}
use web_socket_cpp.Pool.{Region, MemoryPool, place, allocate}
use web_socket_cpp.Pool.Invariant.{
  sum_sizes, IsOrdered, IsValid, IsApart, IsFree, sum_sizes-le, IsOrdered-le, IsOrdered-lower,
}

abbrev IsFit : ℕ → ℕ → ℕ → List Region → ℕ → Type 0
IsFit total size cursor rs a = (cursor ≤ a) × (a + size ≤ total) × All (IsApart a size) rs

-- What the loop found: the regions before the gap and those behind it, at the lowest address.
pub record Placed (total size cursor : ℕ) (rs : List Region) (at : ℕ) (rest : List Region)
    : Type 0 where
  pub before : List Region
  pub behind : List Region
  pub split : rs ≡ before ++ behind
  pub joined : rest ≡ before ++ record { offset = at; size = size } ∷ behind
  pub ordered : IsOrdered cursor total rest
  pub counted : sum_sizes rest ≡ size + sum_sizes rs
  pub fit : IsFit total size cursor rs at
  pub lowest : (a : ℕ) → IsFit total size cursor rs a → at ≤ a

-- The two outcomes of the loop.
pub data Search (total size cursor : ℕ) (rs : List Region) : Option (ℕ × List Region) → Type 0 where
  full : ((a : ℕ) → IsFit total size cursor rs a → ⊥) → Search total size cursor rs none
  found :
      {at : ℕ} {rest : List Region}
      → Placed total size cursor rs at rest
      → Search total size cursor rs (some (at, rest))

-- Regions that start behind the new one are apart from it.
IsApart-behind :
    (at size lo total : ℕ) (rs : List Region)
    → at + size ≤ lo
    → IsOrdered lo total rs
    → All (IsApart at size) rs
IsApart-behind at size lo total [] le h = tt
IsApart-behind at size lo total (r ∷ rs) le (a, b, c) =
    (inl (omega arith), IsApart-behind at size (r.offset + r.size) total rs (omega arith) c)

module _ (total size : ℕ) (fits : total < size_mod) (pos : 0 < size) where
  Placed-gap :
      (cursor lo : ℕ) (rs : List Region)
      → cursor + size ≤ lo
      → IsOrdered lo total rs
      → Placed total size cursor rs cursor (record { offset = cursor; size = size } ∷ rs)
  Placed-gap cursor lo rs le ord = record {
    before = [];
    behind = rs;
    split = refl;
    joined = refl;
    ordered = (omega arith, pos, IsOrdered-lower (cursor + size) lo total rs le ord);
    counted = refl;
    fit = (
      omega arith,
      omega (arith, IsOrdered-le lo total rs ord),
      IsApart-behind cursor size lo total rs le ord,
    );
    lowest = λ a h. h.0;
  }

  Search-cons :
      (cursor : ℕ) (r : Region) (rs : List Region) {out : Option (ℕ × List Region)}
      → IsOrdered cursor total (r ∷ rs)
      → r.offset < cursor + size
      → Search total size (r.offset + r.size) rs out
      → Search total size cursor
          (r ∷ rs)
          (elim out [ none ↦ none | some (at, rest) ↦ some (at, r ∷ rest) ])
  Search-cons cursor r rs ord small (full no_fit) = full (λ a h. no_fit a (omega arith, h.1, h.2.1))
  Search-cons cursor r rs ord small (found {at} p) = found (record {
    before = r ∷ p.before;
    behind = p.behind;
    split = ap (◌∷◌ r) p.split;
    joined = ap (◌∷◌ r) p.joined;
    ordered = (ord.0, ord.1, p.ordered);
    counted = omega (arith, p.counted);
    fit = (omega (arith, p.fit), p.fit.1, (inr p.fit.0, p.fit.2));
    lowest = λ a h. p.lowest a (omega arith, h.1, h.2.1);
  })

  place-Search :
      (cursor : ℕ) (rs : List Region)
      → IsOrdered cursor total rs
      → Search total size cursor rs (place total size cursor rs)
  unfolding place
  place-Search cursor [] ord = elim (Bool-cases (leb size (sub64 total cursor))) [
    | inl gap ↦ rw gap (found (Placed-gap cursor total [] (ground arith) (omega arith)))
    | inr short ↦ rw short (full (λ a h. ground arith))
  ]
  place-Search cursor (r ∷ rs) ord =
      let end_le : r.offset + r.size ≤ total = IsOrdered-le (r.offset + r.size) total rs ord.2 in
      elim (Bool-cases (leb size (sub64 r.offset cursor))) [
        | inl gap ↦
            rw gap (
              found
                (Placed-gap cursor r.offset (r ∷ rs) (ground arith) (omega arith, ord.1, ord.2)))
        | inr short ↦
            rw (short, add64-eq-add r.offset r.size (omega arith))
              (Search-cons cursor r rs ord (ground arith)
                (place-Search (r.offset + r.size) rs ord.2))
      ]

-- What a call returns: the pool as it was, if no part of the buffer is free for `size` bytes, and
-- otherwise the lowest free address, with a region for it among the others.
pub data Allocation (p : MemoryPool) (size : ℕ) : MemoryPool × Option ℕ → Type 0 where
  refused : ((at : ℕ) → IsFree p at size → ⊥) → Allocation p size (p, none)
  granted :
      {q : MemoryPool} {at : ℕ} (before behind : List Region)
      → IsFree p at size
      → ((a : ℕ) → IsFree p a size → at ≤ a)
      → p.regions ≡ before ++ behind
      → q.regions ≡ before ++ record { offset = at; size = size } ∷ behind
      → q.total_size ≡ p.total_size
      → IsValid q
      → Allocation p size (q, some at)

module _ (p : MemoryPool) (size : ℕ) (v : IsValid p) (pos : 0 < size) where
  Search-Allocation :
      {out : Option (ℕ × List Region)}
      → Search p.total_size size 0 p.regions out
      → Allocation p size (elim out [
        | none ↦ (p, none)
        | some (at, rest) ↦
            (record p { used_size = add64 p.used_size size; regions = rest }, some at)
      ])
  Search-Allocation (full no_fit) = refused (λ a h. no_fit a (omega arith, h.0, h.1))
  Search-Allocation (found {at} {rest} f) =
      granted f.before f.behind (f.fit.1, f.fit.2) (λ a h. f.lowest a (omega arith, h.0, h.1))
        f.split f.joined refl
        (record {
          fits = v.fits;
          ordered = f.ordered;
          counted =
              omega
                (arith, f.counted, v.counted, v.fits, sum_sizes-le 0 p.total_size rest f.ordered);
        })

  -- `allocate` of a valid pool, for a size that is not 0, is first-fit and complete: it fails only
  -- if no `size` free bytes stand together anywhere in the buffer; otherwise it returns the lowest
  -- address at which they do, so no live region is touched, it adds just that region in its place,
  -- and the pool stays valid.
  pub allocate-Allocation : Allocation p size (allocate p size)
  unfolding allocate
  allocate-Allocation = elim (Bool-cases (size == 0)) [
    | inl zero_size ↦ absurd (ground arith)
    | inr more ↦
        rw more
          (Search-Allocation (place-Search p.total_size size v.fits pos 0 p.regions v.ordered))
  ]
