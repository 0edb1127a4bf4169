-- ===== src/Route/Parser.antt =====
-- `Route::Parse` and `AddToken` of src/Route.cpp. A round of the loop is `step`; a `return false` in it ends
-- the parse with the tokens that were added so far, which the constructor keeps.
use web_socket_cpp.Base.{
  ℕ, Bool, true, false, List, [], ◌∷◌, ◌++◌, ByteArray, length, ◌==◌, if◌then◌else◌,
}
use web_socket_cpp.Route.Tokens.{
  Token, Kind, View, new_token, clear, is_empty, sort_group, string_to_view,
}

pub data State : Type 0 where
  default variable optional variable_type or_group : State

pub record Parser : Type 0 where
  pub tokens : List Token
  pub current : Token
  pub str : ByteArray
  pub state : State

abbrev pub start : Parser
start = record { tokens = []; current = new_token; str = []; state = State.default }

-- `AddToken(current, str)`.
unfoldable pub add_token : ByteArray → Parser → Parser
unfolding is_empty clear
add_token str p =
    let token : Token = if length str == 0 then p.current else record p.current { text = str } in
    if is_empty token
    then record p { current = token }
    else record p { tokens = p.tokens ++ token ∷ []; current = clear token }

-- `AddToken(current, str); str = "";`
unfoldable pub flush : Parser → Parser
unfolding add_token
flush p = record (add_token p.str p) { str = [] }

unfoldable pub on_star : Parser → Parser
unfolding flush
on_star p =
    let q = flush p in
    add_token [] (record q { current = record q.current { text = b'*' ∷ []; kind = Kind.any } })

unfoldable pub on_open_bracket : Parser → Parser × Bool
unfolding flush
on_open_bracket p = elim p.state [
  | State.optional ↦ (p, false)
  | _ ↦
      let q = flush p in
      (record q { current = record q.current { optional = true }; state = State.optional }, true)
]

unfoldable pub on_close_bracket : Parser → Parser × Bool
unfolding flush
on_close_bracket p = elim p.state [
  | State.optional ↦
      let q = flush p in
      (record q { current = record q.current { optional = false }; state = State.default }, true)
  | _ ↦ (p, false)
]

unfoldable pub on_close_brace : Parser → Parser × Bool
unfolding add_token string_to_view
on_close_brace p = elim p.state [
  | State.variable_type ↦
      let q : Parser = record p { current = record p.current { view = string_to_view p.str } } in
      if length q.current.text == 0
      then (q, false)
      else (record (add_token [] q) { str = []; state = State.default }, true)
  | State.variable ↦
      let q : Parser = record p { current = record p.current { text = p.str } } in
      if length q.current.text == 0 then (q, false) else (
        record (add_token [] (record q { current = record q.current { view = View.string } })) {
          str = [];
          state = State.default;
        },
        true,
      )
  | _ ↦ (p, false)
]

abbrev open_variable : Parser → Parser
open_variable p = record p {
  current = record p.current { kind = Kind.variable };
  state = State.variable;
}

unfoldable pub on_open_brace : Parser → Parser × Bool
unfolding flush
on_open_brace p = elim p.state [
  | State.variable ↦ (p, false)
  | State.variable_type ↦ (p, false)
  | State.or_group ↦ (open_variable p, true)
  | _ ↦ (open_variable (flush p), true)
]

unfoldable pub on_colon : Parser → Parser
on_colon p = elim p.state [
  | State.variable ↦ record p {
    state = State.variable_type;
    current = record p.current { text = p.str };
    str = [];
  }
  | _ ↦ record p { str = p.str ++ b':' ∷ [] }
]

unfoldable pub on_open_group : Parser → Parser
unfolding flush
on_open_group p =
    let q = flush p in
    record q { state = State.or_group; current = record q.current { kind = Kind.group } }

unfoldable pub on_bar : Parser → Parser
on_bar p = record p {
  current = record p.current { members = p.current.members ++ p.str ∷ [] };
  str = [];
}

unfoldable pub on_close_group : Parser → Parser
unfolding add_token sort_group
on_close_group p = add_token [] (record p {
  current = record p.current { members = sort_group (p.current.members ++ p.str ∷ []) };
  str = [];
  state = State.default;
})

-- The body of the loop, `false` where it returns false.
unfoldable pub step : ℕ → Parser → Parser × Bool
unfolding on_star on_open_bracket on_close_bracket on_close_brace on_open_brace on_colon
    on_open_group on_bar on_close_group
step ch p =
    if ch == b'*'
    then (on_star p, true)
    else if ch == b'['
    then on_open_bracket p
    else if ch == b']'
    then on_close_bracket p
    else if ch == b'}'
    then on_close_brace p
    else if ch == b'{'
    then on_open_brace p
    else if ch == b':'
    then (on_colon p, true)
    else if ch == b'('
    then (on_open_group p, true)
    else if ch == b'|'
    then (on_bar p, true)
    else if ch == b')'
    then (on_close_group p, true)
    else (record p { str = p.str ++ ch ∷ [] }, true)

-- The loop goes on unless the round returned false.
unfoldable pub go_on : Parser × Bool → (Parser → Parser × Bool) → Parser × Bool
go_on (p, true) next = next p
go_on (p, false) next = (p, false)

unfoldable pub steps : ByteArray → Parser → Parser × Bool
unfolding step go_on
steps [] p = (p, true)
steps (ch ∷ path) p = go_on (step ch p) (steps path)

-- What stands behind the loop.
unfoldable pub finish : Parser → Parser × Bool
unfolding add_token
finish p = elim p.state [ State.default ↦ (add_token p.str p, true) | _ ↦ (p, false) ]

unfoldable pub parse : ByteArray → List Token × Bool
unfolding steps finish go_on
parse path = let out = go_on (steps path start) finish in (out.0.tokens, out.1)
