-- ===== src/Route/Matching.antt =====
-- What a list of tokens stands for, and that `IsMatch` keeps to it.
use web_socket_cpp.Base.{
  ℕ, ◌≤◌, ◌<◌, ◌⊎◌, inl, inr, Bool, true, false, List, [], ◌∷◌, ◌++◌, some, ◌≡◌, refl, arith,
  Bool-cases, ByteArray, All, length, take, if◌then◌else◌, length-take,
}
use web_socket_cpp.Route.Tokens.{
  Token, Kind, view_test, run_length, starts_with, match_group, match_kind,
}
use web_socket_cpp.Route.{Args, is_any, is_variable}

abbrev pub IsMember : ByteArray → List ByteArray → Type 0
IsMember w [] = ⊥
IsMember w (str ∷ strs) = (w ≡ str) ⊎ IsMember w strs

-- The texts that a token of each kind stands for.
abbrev pub Accepts : Kind → Token → ByteArray → Type 0
Accepts Kind.default token w = w ≡ token.text
Accepts Kind.variable token w = (0 < length w) × All (λ c. view_test token.view c ≡ true) w
Accepts Kind.group token w = IsMember w token.members
Accepts Kind.any token w = Unit

abbrev pub Fits : Token → ByteArray → Type 0
Fits token w =
    Accepts token.kind token w ⊎ ((is_any token.kind ≡ false) × (token.optional ≡ true) × (w ≡ []))

-- The arguments of a variable that stands for some text.
abbrev pub captured : Token → ByteArray → Args → Args
captured token [] more = more
captured token (c ∷ w) more = if is_variable token.kind then (token.text, c ∷ w) ∷ more else more

-- The tokens stand for the parts of the text, one after the other, with these arguments.
abbrev pub Matches : List Token → ByteArray → Args → Type 0
Matches [] s args = (s ≡ []) × (args ≡ [])
Matches (token ∷ tokens) s args =
    (w : ByteArray) × (rest : ByteArray) × (more : Args) × (s ≡ w ++ rest)
    × Fits token w
    × (args ≡ captured token w more)
    × Matches tokens rest more

starts_with_lem :
    (str rest : ByteArray)
    → starts_with str rest ≡ true
    → (length str ≤ length rest) × (take (length str) rest ≡ str)
unfolding starts_with
starts_with_lem [] rest h = (omega arith, refl)
starts_with_lem (c ∷ str) [] h = absurd (ground (arith, h))
starts_with_lem (c ∷ str) (d ∷ rest) h = ground (arith, starts_with_lem str rest)

run_length_lem :
    (test : ℕ → Bool) (rest : ByteArray)
    → (run_length test rest ≤ length rest)
      × All (λ c. test c ≡ true) (take (run_length test rest) rest)
unfolding run_length
run_length_lem test [] = (omega arith, tt)
run_length_lem test (c ∷ rest) =
    let more = run_length_lem test rest in
    elim (Bool-cases (test c)) [
      | inl good ↦ rw good (omega arith, (good, more.1))
      | inr bad ↦ rw bad (omega arith, tt)
    ]

match_group_lem :
    (members : List ByteArray) (rest : ByteArray) (n : ℕ)
    → match_group members rest ≡ some n
    → (n ≤ length rest) × IsMember (take n rest) members
unfolding match_group
match_group_lem [] rest n h = absurd (ground (arith, h))
match_group_lem (str ∷ strs) rest n h = elim (Bool-cases (starts_with str rest)) [
  | inl here ↦
      let found = starts_with_lem str rest here in
      let same : length str ≡ n = ground arith in (omega arith, inl (rw (← same) found.1))
  | inr other ↦ let found = match_group_lem strs rest n (ground arith) in (found.0, inr found.1)
]

pub match_kind_lem :
    (kind : Kind) (token : Token) (rest : ByteArray) (offset n : ℕ)
    → is_any kind ≡ false
    → match_kind kind token rest offset ≡ some n
    → (n ≤ length rest) × Accepts kind token (take n rest)
unfolding match_kind is_any
match_kind_lem Kind.default token rest offset n plain h =
    elim (Bool-cases (starts_with token.text rest)) [
      | inl here ↦
          let found = starts_with_lem token.text rest here in
          let same : length token.text ≡ n = ground arith in (omega arith, rw (← same) found.1)
      | inr other ↦ absurd (ground arith)
    ]
match_kind_lem Kind.variable token rest offset n plain h =
    let run = run_length_lem (view_test token.view) rest in
    let same : (run_length (view_test token.view) rest ≡ n) × (0 < n) = ground arith in
    let all = rw (same.0) at run.1 in
    (omega arith, (omega (arith, length-take n rest (omega arith)), all))
match_kind_lem Kind.group token rest offset n plain h = match_group_lem token.members rest n h
match_kind_lem Kind.any token rest offset n plain h = absurd (ground (arith, plain))
