-- ===== src/Socket/Server/Slots.antt =====
-- A slot that is written, and the sum of a measure over all slots.
use web_socket_cpp.Base.{
  ℕ, zero, suc, ◌+◌, ◌≤◌, ◌<◌, ◌≢◌, true, List, [], ◌∷◌, none, some, ◌≡◌, refl, sym, ap, arith, inl,
  inr, Option-cases, length, get_or, set,
}
use web_socket_cpp.Socket.Server.{Connection, new_connection, find_free_connection, slots}

module _ {ℓ} {A : Type ℓ} where
  pub get_or-set_same :
      (xs : List A) (i : ℕ) (v d : A) → i < length xs → get_or (set xs i v) i d ≡ v
  get_or-set_same [] i v d h = absurd (omega arith)
  get_or-set_same (x ∷ xs) zero v d h = refl
  get_or-set_same (x ∷ xs) (suc i) v d h = get_or-set_same xs i v d (omega arith)

  pub get_or-set_other :
      (xs : List A) (i j : ℕ) (v d : A) → i ≢ j → get_or (set xs i v) j d ≡ get_or xs j d
  get_or-set_other [] i j v d h = refl
  get_or-set_other (x ∷ xs) zero zero v d h = absurd (h refl)
  get_or-set_other (x ∷ xs) zero (suc j) v d h = refl
  get_or-set_other (x ∷ xs) (suc i) zero v d h = refl
  get_or-set_other (x ∷ xs) (suc i) (suc j) v d h = get_or-set_other xs i j v d (λ e. h (ap suc e))

  pub set-get_or : (xs : List A) (i : ℕ) (d : A) → set xs i (get_or xs i d) ≡ xs
  set-get_or [] i d = refl
  set-get_or (x ∷ xs) zero d = refl
  set-get_or (x ∷ xs) (suc i) d = ap (◌∷◌ x) (set-get_or xs i d)

  pub length-set : (xs : List A) (i : ℕ) (v : A) → length (set xs i v) ≡ length xs
  length-set [] i v = refl
  length-set (x ∷ xs) zero v = refl
  length-set (x ∷ xs) (suc i) v = ap suc (length-set xs i v)

  abbrev pub sum_of : (A → ℕ) → List A → ℕ
  sum_of measure [] = 0
  sum_of measure (x ∷ xs) = measure x + sum_of measure xs

  pub sum_of-set :
      (measure : A → ℕ) (xs : List A) (i : ℕ) (v d : A)
      → i < length xs
      → sum_of measure (set xs i v) + measure (get_or xs i d) ≡ sum_of measure xs + measure v
  sum_of-set measure [] i v d h = absurd (omega arith)
  sum_of-set measure (x ∷ xs) zero v d h = omega arith
  sum_of-set measure (x ∷ xs) (suc i) v d h = omega (arith, sum_of-set measure xs i v d)

  pub get_or-le-sum_of :
      (measure : A → ℕ) (xs : List A) (i : ℕ) (d : A)
      → measure d ≡ 0
      → measure (get_or xs i d) ≤ sum_of measure xs
  get_or-le-sum_of measure [] i d h = omega arith
  get_or-le-sum_of measure (x ∷ xs) zero d h = omega arith
  get_or-le-sum_of measure (x ∷ xs) (suc i) d h = omega (arith, get_or-le-sum_of measure xs i d h)

-- Out of range there is a new connection.
pub get_or-outside :
    (connections : List Connection) (i : ℕ)
    → (get_or connections i new_connection).watched ≡ true
    → i < length connections
get_or-outside [] i h = absurd (ground (arith, h))
get_or-outside (conn ∷ connections) zero h = omega arith
get_or-outside (conn ∷ connections) (suc i) h = omega (arith, get_or-outside connections i h)

pub get_or-outside_running :
    (connections : List Connection) (i : ℕ)
    → (get_or connections i new_connection).running ≡ true
    → i < length connections
get_or-outside_running [] i h = absurd (ground (arith, h))
get_or-outside_running (conn ∷ connections) zero h = omega arith
get_or-outside_running (conn ∷ connections) (suc i) h =
    omega (arith, get_or-outside_running connections i h)

-- The search gives a slot without a descriptor.
pub find_free_connection_lem :
    (connections : List Connection) (i : ℕ)
    → find_free_connection connections ≡ some i
    → (i < length connections) × ((get_or connections i new_connection).fd ≡ none)
unfolding find_free_connection
find_free_connection_lem [] i h = absurd (ground (arith, h))
find_free_connection_lem (conn ∷ connections) i h = elim (Option-cases conn.fd) [
  | inl e ↦ let first : ◌≡◌ {A = ℕ} 0 i = ground (arith, h, e) in rw (sym first) (omega arith, e)
  | inr (fd, e) ↦ elim (Option-cases (find_free_connection connections)) [
    | inl missing ↦ absurd (ground (arith, h, e, missing))
    | inr (k, found) ↦
        let next : suc k ≡ i = ground (arith, h, e, found) in
        let (inside, free) = find_free_connection_lem connections k found in
        rw (sym next) (omega arith, free)
  ]
]

pub get_or-slots : (count i : ℕ) → get_or (slots count) i new_connection ≡ new_connection
unfolding slots
get_or-slots zero i = refl
get_or-slots (suc count) zero = refl
get_or-slots (suc count) (suc i) = get_or-slots count i
