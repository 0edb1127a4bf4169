-- ===== src/Route/Soundness.antt =====
-- `IsMatch` keeps to what the tokens stand for.
use web_socket_cpp.Base.{
  ℕ, zero, suc, ◌+◌, ◌-◌, ◌≤◌, ◌<◌, ◌≢◌, inl, inr, true, false, List, [], ◌∷◌, ◌++◌, some, ◌≡◌,
  refl, sym, ap, ◌∙◌, arith, append-nil, Bool-cases, Option-cases, ByteArray, length, take, drop,
  ltb, ◌==◌, if◌then◌else◌, length-drop, take-append-drop, drop-add,
}
use web_socket_cpp.Names.Method.{Method}
use web_socket_cpp.Route.Tokens.{Token, Kind, token_match}
use web_socket_cpp.Route.{
  Args, Answer, answered, fault, is_any, is_variable, set_arg, find_token, match_token,
  match_tokens, Route, is_match, method_number,
}
use web_socket_cpp.Route.Matching.{Accepts, captured, Matches, match_kind_lem}

token_match_lem :
    (token : Token) (rest : ByteArray) (offset n : ℕ)
    → is_any token.kind ≡ false
    → token_match token rest offset ≡ some n
    → (n ≤ length rest) × Accepts token.kind token (take n rest)
unfolding token_match
token_match_lem token rest offset n plain h = match_kind_lem token.kind token rest offset n plain h

find_token_lem :
    (rounds : ℕ) (token : Token) (path : ByteArray) (search_pos offset found n : ℕ)
    → find_token rounds token path search_pos offset ≡ some (found, n)
    → (search_pos ≤ found)
      × (found < search_pos + rounds)
      × (token_match token (drop found path) offset ≡ some n)
unfolding find_token
find_token_lem zero token path search_pos offset found n h = absurd (ground (arith, h))
find_token_lem (suc rounds) token path search_pos offset found n h =
    elim (Option-cases (token_match token (drop search_pos path) offset)) [
      | inl other ↦
          let later =
            find_token_lem rounds token path (search_pos + 1) offset found n
              (ground (arith, other)) in
          (omega arith, omega arith, later.2)
      | inr (m, here) ↦
          let same : (search_pos ≡ found) × (m ≡ n) = ground (arith, here) in
          (omega arith, omega arith, rw (← same.0) (rw (← same.1) here))
    ]

-- No two tokens `Any` stand side by side.
abbrev pub IsSpaced : List Token → Type 0
IsSpaced [] = Unit
IsSpaced (token ∷ []) = Unit
IsSpaced (token ∷ following ∷ tokens) =
    ((is_any token.kind ≡ true) → is_any following.kind ≡ false) × IsSpaced (following ∷ tokens)

IsSpaced-tail : (token : Token) (tokens : List Token) → IsSpaced (token ∷ tokens) → IsSpaced tokens
IsSpaced-tail token [] spaced = tt
IsSpaced-tail token (following ∷ tokens) spaced = spaced.1

-- The answer is right for the text, and it is one.
abbrev pub IsRight : List Token → ByteArray → Answer → Type 0
IsRight tokens s fault = ⊥
IsRight tokens s (answered args true) = Matches tokens s args
IsRight tokens s (answered args false) = Unit

any_lem :
    (kind : Kind) (token : Token) (w : ByteArray)
    → is_any kind ≡ true
    → (is_variable kind ≡ false) × Accepts kind token w
unfolding is_any is_variable
any_lem Kind.default token w any = absurd (ground (arith, any))
any_lem Kind.variable token w any = absurd (ground (arith, any))
any_lem Kind.group token w any = absurd (ground (arith, any))
any_lem Kind.any token w any = (refl, tt)

empty_lem : (kind : Kind) (token : Token) → Accepts kind token [] → is_variable kind ≡ false
unfolding is_variable
empty_lem Kind.default token ok = refl
empty_lem Kind.variable token ok = absurd (omega arith)
empty_lem Kind.group token ok = refl
empty_lem Kind.any token ok = refl

captured_any :
    (token : Token) (w : ByteArray) (more : Args)
    → is_any token.kind ≡ true
    → more ≡ captured token w more
captured_any token [] more any = refl
captured_any token (c ∷ w) more any =
    let plain = (any_lem token.kind token w any).0 in ground (arith, plain)

captured_accepted :
    (token : Token) (w : ByteArray) (more : Args)
    → Accepts token.kind token w
    → (if is_variable token.kind then (token.text, w) ∷ more else more) ≡ captured token w more
captured_accepted token [] more ok =
    let plain = empty_lem token.kind token ok in ground (arith, plain)
captured_accepted token (c ∷ w) more ok = refl

set_arg-IsRight :
    (token : Token) (tokens : List Token) (s w rest : ByteArray) (answer : Answer)
    → s ≡ w ++ rest
    → Accepts token.kind token w
    → IsRight tokens rest answer
    → IsRight (token ∷ tokens) s (set_arg token w answer)
unfolding set_arg
set_arg-IsRight token tokens s w rest fault parts ok right = right
set_arg-IsRight token tokens s w rest (answered args true) parts ok right =
    (w, rest, args, parts, inl ok, captured_accepted token w args ok, right)
set_arg-IsRight token tokens s w rest (answered args false) parts ok right = tt

skip-IsRight :
    (token : Token) (tokens : List Token) (s : ByteArray) (answer : Answer)
    → is_any token.kind ≡ false
    → token.optional ≡ true
    → IsRight tokens s answer
    → IsRight (token ∷ tokens) s answer
skip-IsRight token tokens s fault plain optional right = right
skip-IsRight token tokens s (answered args true) plain optional right =
    ([], s, args, refl, inr (plain, optional, refl), refl, right)
skip-IsRight token tokens s (answered args false) plain optional right = tt

any-IsRight :
    (token : Token) (tokens : List Token) (s w rest : ByteArray) (answer : Answer)
    → s ≡ w ++ rest
    → is_any token.kind ≡ true
    → IsRight tokens rest answer
    → IsRight (token ∷ tokens) s answer
any-IsRight token tokens s w rest fault parts any right = right
any-IsRight token tokens s w rest (answered args true) parts any right = (
  w,
  rest,
  args,
  parts,
  inl (any_lem token.kind token w any).1,
  captured_any token w args any,
  right,
)
any-IsRight token tokens s w rest (answered args false) parts any right = tt

-- From `pos` on, the path is the part before `at` and what stands there.
drop_between :
    (pos at : ℕ) (path : ByteArray)
    → pos ≤ at
    → drop pos path ≡ take (at - pos) (drop pos path) ++ drop at path
drop_between pos at path le =
    let split = take-append-drop (at - pos) (drop pos path) in
    let e : pos + (at - pos) ≡ at = omega arith in
    sym split
    ∙ ap (λ (tail : ByteArray). take (at - pos) (drop pos path) ++ tail)
        (sym (drop-add pos (at - pos) path) ∙ ap (λ (k : ℕ). drop k path) e)

drop_after :
    (pos n : ℕ) (path : ByteArray) → drop pos path ≡ take n (drop pos path) ++ drop (pos + n) path
drop_after pos n path =
    sym (take-append-drop n (drop pos path))
    ∙ ap (λ (tail : ByteArray). take n (drop pos path) ++ tail) (sym (drop-add pos n path))

drop_all : (pos : ℕ) (path : ByteArray) → length path ≤ pos → drop pos path ≡ []
drop_all zero [] le = refl
drop_all zero (c ∷ path) le = absurd (omega arith)
drop_all (suc pos) [] le = refl
drop_all (suc pos) (c ∷ path) le = drop_all pos path (omega arith)

module _ (path : ByteArray) where
  match_token-IsRight :
      (token : Token) (tokens : List Token) (pos offset : ℕ) (next : ℕ → ℕ → Answer)
      → is_any token.kind ≡ false
      → pos ≤ length path
      → ((p k : ℕ) → p ≤ length path → IsRight tokens (drop p path) (next p k))
      → IsRight (token ∷ tokens) (drop pos path) (match_token token path pos offset next)
  unfolding match_token
  match_token-IsRight token tokens pos offset next plain inside later =
      let within : ltb (length path) pos ≡ false = ground arith in
      elim (Option-cases (token_match token (drop pos path) offset)) [
        | inl other ↦ elim (Bool-cases token.optional) [
          | inl optional ↦
              let skipped =
                skip-IsRight token tokens (drop pos path) (next pos offset) plain optional
                  (later pos offset inside) in
              let same : match_token token path pos offset next ≡ next pos offset =
                ground (arith, other) in
              rw same skipped
          | inr needed ↦
              let same : match_token token path pos offset next ≡ answered [] false =
                ground (arith, other) in
              rw same tt
        ]
        | inr (n, here) ↦
            let found = token_match_lem token (drop pos path) offset n plain here in
            let end : pos + n ≤ length path = omega (arith, length-drop pos path) in
            let taken =
              set_arg-IsRight token tokens (drop pos path) (take n (drop pos path))
                (drop (pos + n) path) (next (pos + n) n) (drop_after pos n path) found.1
                (later (pos + n) n end) in
            let same : match_token token path pos offset next
                ≡ set_arg token (take n (drop pos path)) (next (pos + n) n) =
              ground (arith, here) in
            rw same taken
      ]

  match_tokens-IsRight :
      (tokens : List Token) (pos offset : ℕ)
      → IsSpaced tokens
      → pos ≤ length path
      → IsRight tokens (drop pos path) (match_tokens tokens path pos offset)
  unfolding match_tokens
  match_tokens-IsRight [] pos offset spaced inside = elim (Bool-cases (ltb pos (length path))) [
    | inl left ↦ rw left tt
    | inr all ↦ rw all (drop_all pos path (ground arith), refl)
  ]
  match_tokens-IsRight (token ∷ []) pos offset spaced inside =
      elim (Bool-cases (is_any token.kind)) [
        | inl any ↦
            rw (match_tokens, any)
              (any-IsRight token [] (drop pos path) (drop pos path) [] (answered [] true)
                (sym (append-nil (drop pos path))) any (refl, refl))
        | inr plain ↦
            rw (match_tokens, plain)
              (match_token-IsRight token [] pos offset (match_tokens [] path) plain inside
                (λ p k le. match_tokens-IsRight [] p k tt le))
      ]
  match_tokens-IsRight (token ∷ following ∷ tokens) pos offset spaced inside =
      elim (Bool-cases (is_any token.kind)) [
        | inl any ↦ elim (Option-cases (find_token (length path - pos) following path pos offset)) [
          | inl none_there ↦ rw (match_tokens, any) (rw (none_there) tt)
          | inr ((found, n), e) ↦
              let place = find_token_lem (length path - pos) following path pos offset found n e in
              let word =
                token_match_lem following (drop found path) offset n (spaced.0 any) place.2 in
              let end : found + n ≤ length path = omega (arith, length-drop found path) in
              let rest =
                match_tokens-IsRight tokens (found + n) n (IsSpaced-tail following tokens spaced.1)
                  end in
              let taken =
                set_arg-IsRight following tokens (drop found path) (take n (drop found path))
                  (drop (found + n) path) _ (drop_after found n path) word.1 rest in
              let whole =
                any-IsRight token (following ∷ tokens) (drop pos path)
                  (take (found - pos) (drop pos path)) (drop found path) _
                  (drop_between pos found path place.0) any taken in
              rw (match_tokens, any) (rw (e) whole)
        ]
        | inr plain ↦
            rw (match_tokens, plain)
              (match_token-IsRight token (following ∷ tokens) pos offset
                (match_tokens (following ∷ tokens) path) plain inside
                (λ p k le. match_tokens-IsRight (following ∷ tokens) p k spaced.1 le))
      ]

-- When no two tokens `Any` of a route stand side by side, then `IsMatch` never leaves the path, and
-- where it returns true, the method is the route's and the path is made of a text for each token, one
-- after the other: the token's own, a run of a variable's characters, a member of a group, anything for
-- `Any`, or nothing for an optional token; the arguments that are set are the variables' texts.
pub is_match-IsRight :
    (route : Route) (method : Method) (path : ByteArray)
    → IsSpaced route.tokens
    → IsRight route.tokens path (is_match route method path)
      × (is_match route method path ≢ answered [] false
          → method_number method ≡ method_number route.method)
unfolding is_match
is_match-IsRight route method path spaced =
    elim (Bool-cases (method_number method == method_number route.method)) [
      | inl same ↦
          rw same
            (match_tokens-IsRight path route.tokens 0 0 spaced (omega arith), λ _. ground arith)
      | inr other ↦ rw other (tt, λ ne. absurd (ne refl))
    ]
