-- ===== src/Route.antt =====
-- src/Route.cpp: the path of a route and the requests that it matches. The answer of `IsMatch` comes with
-- the arguments that it sets, in the order of the calls of `SetArg`, which it makes also on the way to a
-- refusal. `fault` stands for a pointer past the end of the path.
pub mod Tokens
pub mod Parser
pub mod Matching
pub mod Soundness
pub mod Groups
pub mod Plain
mod Tests
use web_socket_cpp.Base.{
  ℕ, zero, suc, ◌+◌, ◌-◌, Bool, true, false, not, List, [], ◌∷◌, Option, none, some, ByteArray,
  length, take, drop, ltb, ◌==◌, if◌then◌else◌,
}
use web_socket_cpp.Names.Method.{Method}
use web_socket_cpp.Names.Method
use web_socket_cpp.Route.Tokens.{Token, Kind, token_match}
use web_socket_cpp.Route.Parser.{parse}

pub record Route : Type 0 where
  pub tokens : List Token
  pub method : Method
  pub path : ByteArray
  pub use_auth : Bool

-- The constructor ignores what `Parse` returns.
unfoldable pub create : ByteArray → Method → Bool → Route
unfolding parse
create path method use_auth = record {
  tokens = (parse path).0;
  method = method;
  path = path;
  use_auth = use_auth;
}

abbrev pub Args : Type 0
Args = List (ByteArray × ByteArray)

pub data Answer : Type 0 where
  answered : Args → Bool → Answer
  fault : Answer

unfoldable pub is_any : Kind → Bool
is_any Kind.any = true
is_any _ = false

unfoldable pub is_variable : Kind → Bool
is_variable Kind.variable = true
is_variable _ = false

-- `SetArg` of a variable with the text that it matches.
unfoldable pub set_arg : Token → ByteArray → Answer → Answer
unfolding is_variable
set_arg token word fault = fault
set_arg token word (answered args matched) =
    answered (if is_variable token.kind then (token.text, word) ∷ args else args) matched

-- The search for the token behind an `Any`: the position and the offset of the first match, in as
-- many rounds as there are positions left.
unfoldable pub find_token : ℕ → Token → ByteArray → ℕ → ℕ → Option (ℕ × ℕ)
unfolding token_match
find_token zero token path search_pos offset = none
find_token (suc rounds) token path search_pos offset =
    elim (token_match token (drop search_pos path) offset) [
      | some n ↦ some (search_pos, n)
      | none ↦ find_token rounds token path (search_pos + 1) offset
    ]

-- A token that is no `Any`; `next` goes on with a position and the last offset that was stored.
unfoldable pub match_token : Token → ByteArray → ℕ → ℕ → (ℕ → ℕ → Answer) → Answer
unfolding token_match set_arg
match_token token path pos offset next = elim (ltb (length path) pos) [
  | true ↦ fault
  | false ↦ elim (token_match token (drop pos path) offset) [
    | some n ↦ set_arg token (take n (drop pos path)) (next (pos + n) n)
    | none ↦ elim token.optional [ true ↦ next pos offset | false ↦ answered [] false ]
  ]
]

-- The loop over the tokens from a position in the path on.
unfoldable pub match_tokens : List Token → ByteArray → ℕ → ℕ → Answer
unfolding is_any set_arg match_token find_token
match_tokens [] path pos offset = answered [] (not (ltb pos (length path)))
match_tokens (token ∷ []) path pos offset = elim (is_any token.kind) [
  | true ↦ answered [] true
  | false ↦ match_token token path pos offset (match_tokens [] path)
]
match_tokens (token ∷ following ∷ tokens) path pos offset = elim (is_any token.kind) [
  | true ↦ elim (find_token (length path - pos) following path pos offset) [
    | none ↦ answered [] false
    | some (found, n) ↦
        set_arg following (take n (drop found path)) (match_tokens tokens path (found + n) n)
  ]
  | false ↦ match_token token path pos offset (match_tokens (following ∷ tokens) path)
]

-- The place of a method in its enumeration.
unfoldable pub method_number : Method → ℕ
method_number Method.undefined = 0
method_number Method.options = 1
method_number Method.get = 2
method_number Method.head = 3
method_number Method.post = 4
method_number Method.put = 5
method_number Method.delete = 6
method_number Method.trace = 7
method_number Method.connect = 8
method_number Method.websocket = 9

-- `IsMatch` of a request with that method and path.
unfoldable pub is_match : Route → Method → ByteArray → Answer
unfolding match_tokens method_number
is_match route method path =
    if method_number method == method_number route.method
    then match_tokens route.tokens path 0 0
    else answered [] false
