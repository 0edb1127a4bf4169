-- ===== src/Route/Plain.antt =====
-- Routes without special characters, and a variable in an optional part.
use web_socket_cpp.Base.{
  ℕ, Bool, true, false, not, List, [], ◌∷◌, ◌++◌, ◌≡◌, refl, sym, ap, ◌∙◌, arith, append_assoc,
  append-nil, ByteArray, All, codes, length, ltb, ◌==◌, if◌then◌else◌,
}
use web_socket_cpp.Names.Method.{Method}
use web_socket_cpp.Text.Compare.{contains, compare_bytes, same_bytes}
use web_socket_cpp.Route.Tokens.{
  Token, Kind, View, starts_with, token_match, match_kind, is_empty, clear,
}
use web_socket_cpp.Route.Parser.{
  Parser, State, step, steps, finish, parse, go_on, start, add_token, flush, on_open_bracket,
  on_close_bracket, on_open_brace, on_close_brace,
}
use web_socket_cpp.Route.{
  create, is_match, match_tokens, match_token, method_number, answered, is_any, is_variable,
  set_arg,
}

-- No character with a meaning of its own.
abbrev pub IsPlain : ByteArray → Type 0
IsPlain = All (λ c. contains (codes "*[]}{:(|)") c ≡ false)

step_plain :
    (c : ℕ) (p : Parser)
    → contains (codes "*[]}{:(|)") c ≡ false
    → step c p ≡ (record p { str = p.str ++ c ∷ [] }, true)
unfolding step contains
step_plain c p plain = ground arith

steps_next :
    (c : ℕ) (rest : ByteArray) (p q : Parser)
    → step c p ≡ (q, true)
    → steps (c ∷ rest) p ≡ steps rest q
unfolding steps
steps_next c rest p q e = ap (λ (o : Parser × Bool). go_on o (steps rest)) e

steps_end : (p : Parser) → steps [] p ≡ (p, true)
unfolding steps
steps_end p = refl

steps_stop :
    (c : ℕ) (rest : ByteArray) (p q : Parser)
    → step c p ≡ (q, false)
    → steps (c ∷ rest) p ≡ (q, false)
unfolding steps
steps_stop c rest p q e = ap (λ (o : Parser × Bool). go_on o (steps rest)) e

abbrev with_str : Parser → ByteArray → Parser
with_str p str = record p { str = str }

steps_plain :
    (str rest : ByteArray) (p : Parser)
    → IsPlain str
    → steps (str ++ rest) p ≡ steps rest (with_str p (p.str ++ str))
steps_plain [] rest p plain =
    ap (λ (s : ByteArray). steps rest (with_str p s)) (sym (append-nil p.str))
steps_plain (c ∷ str) rest p (first, plain) =
    steps_next c (str ++ rest) p (with_str p (p.str ++ c ∷ [])) (step_plain c p first)
    ∙ steps_plain str rest (with_str p (p.str ++ c ∷ [])) plain
    ∙ ap (λ (s : ByteArray). steps rest (with_str p s)) (append_assoc p.str (c ∷ []) str)

abbrev pub text_token : ByteArray → Bool → Token
text_token text optional = record {
  text = text;
  members = [];
  kind = Kind.default;
  view = View.default;
  optional = optional;
}

parse-steps :
    (path : ByteArray) (q : Parser × Bool)
    → steps path start ≡ q
    → parse path ≡ ((go_on q finish).0.tokens, (go_on q finish).1)
unfolding parse
parse-steps path q e = ap (λ (o : Parser × Bool). ((go_on o finish).0.tokens, (go_on o finish).1)) e

add_text :
    (c : ℕ) (str : ByteArray) (p : Parser)
    → p.current.kind ≡ Kind.default
    → add_token (c ∷ str) p ≡ record p {
      tokens = p.tokens ++ record p.current { text = c ∷ str } ∷ [];
      current = clear p.current;
    }
unfolding add_token is_empty clear
add_text c str p e = ground arith

-- A route of plain characters is one token.
parse_plain :
    (c : ℕ) (path : ByteArray)
    → IsPlain (c ∷ path)
    → parse (c ∷ path) ≡ (text_token (c ∷ path) false ∷ [], true)
unfolding finish go_on
parse_plain c path plain =
    let all : steps (c ∷ path) start ≡ (with_str start (c ∷ path), true) =
      ap (λ (s : ByteArray). steps s start) (sym (append-nil (c ∷ path)))
      ∙ steps_plain (c ∷ path) [] start plain
      ∙ steps_end (with_str start (c ∷ path)) in
    parse-steps (c ∷ path) _ all
    ∙ ap (λ (p : Parser). (p.tokens, true)) (add_text c path (with_str start (c ∷ path)) refl)

starts_with-compare :
    (path s : ByteArray)
    → (if starts_with path s then not (ltb (length path) (length s)) else false)
      ≡ compare_bytes path s
unfolding starts_with compare_bytes same_bytes
starts_with-compare [] [] = refl
starts_with-compare [] (d ∷ s) = ground arith
starts_with-compare (c ∷ path) [] = ground arith
starts_with-compare (c ∷ path) (d ∷ s) = ground (arith, starts_with-compare path s)

match_nothing : (s : ByteArray) → match_tokens [] s 0 0 ≡ answered [] (compare_bytes [] s)
unfolding match_tokens starts_with
match_nothing s = ap (answered []) (starts_with-compare [] s)

match_text :
    (path s : ByteArray)
    → match_tokens (text_token path false ∷ []) s 0 0 ≡ answered [] (compare_bytes path s)
unfolding match_tokens match_token is_any token_match match_kind set_arg is_variable
match_text path s = ground (arith, starts_with-compare path s)

is_match_parsed :
    (path s : ByteArray) (method : Method) (use_auth : Bool) (out : List Token × Bool)
    → parse path ≡ out
    → is_match (create path method use_auth) method s ≡ match_tokens out.0 s 0 0
unfolding is_match create
is_match_parsed path s method use_auth out e =
    let same : (method_number method == method_number method) ≡ true = ground arith in
    ap
      (λ (o : List Token × Bool).
        if method_number method == method_number method
        then match_tokens o.0 s 0 0
        else answered [] false)
      e
    ∙ rw same refl

-- A route of plain characters matches, for its own method, exactly its own text, and sets no argument.
pub is_match_plain :
    (path s : ByteArray) (method : Method) (use_auth : Bool)
    → IsPlain path
    → is_match (create path method use_auth) method s ≡ answered [] (compare_bytes path s)
is_match_plain [] s method use_auth plain =
    is_match_parsed [] s method use_auth ([], true) (unfold parse in refl) ∙ match_nothing s
is_match_plain (c ∷ path) s method use_auth plain =
    is_match_parsed (c ∷ path) s method use_auth (text_token (c ∷ path) false ∷ [], true)
      (parse_plain c path plain)
    ∙ match_text (c ∷ path) s

-- The parser's states on the way through a variable in an optional part.
abbrev pub empty_token : Token
empty_token = text_token [] true

abbrev pub variable_token : ByteArray → Token
variable_token name = record (text_token name true) { kind = Kind.variable; view = View.string }

abbrev in_optional : ByteArray → Parser
in_optional before = record {
  tokens = text_token before false ∷ [];
  current = empty_token;
  str = [];
  state = State.optional;
}

abbrev in_variable : ByteArray → Parser
in_variable before = record (in_optional before) {
  current = record empty_token { kind = Kind.variable };
  state = State.variable;
}

abbrev behind_variable : ByteArray → ByteArray → Parser
behind_variable before name = record {
  tokens = text_token before false ∷ variable_token name ∷ [];
  current = empty_token;
  str = [];
  state = State.default;
}

step_open_bracket :
    (c : ℕ) (before : ByteArray)
    → step b'[' (with_str start (c ∷ before)) ≡ (in_optional (c ∷ before), true)
unfolding step on_open_bracket flush add_token is_empty clear
step_open_bracket c before = ground arith

step_open_brace : (before : ByteArray) → step b'{' (in_optional before) ≡ (in_variable before, true)
unfolding step on_open_brace flush add_token is_empty
step_open_brace before = refl

step_close_brace :
    (before : ByteArray) (n : ℕ) (name : ByteArray)
    → step b'}' (with_str (in_variable before) (n ∷ name))
      ≡ (behind_variable before (n ∷ name), true)
unfolding step on_close_brace add_token is_empty clear
step_close_brace before n name = ground arith

step_close_bracket :
    (before name str : ByteArray)
    → step b']' (with_str (behind_variable before name) str)
      ≡ (with_str (behind_variable before name) str, false)
unfolding step on_close_bracket
step_close_bracket before name str = refl

-- A variable and behind it a plain text in an optional part that follows a plain text: the parse is
-- refused at the closing bracket, whatever follows, and the route keeps the first text and the
-- variable, which alone is optional.
pub parse_optional_variable :
    (c : ℕ) (before : ByteArray) (n : ℕ) (name behind rest : ByteArray)
    → IsPlain (c ∷ before)
    → IsPlain (n ∷ name)
    → IsPlain behind
    → parse ((c ∷ before) ++ b'[' ∷ b'{' ∷ ((n ∷ name) ++ b'}' ∷ (behind ++ b']' ∷ rest)))
      ≡ (text_token (c ∷ before) false ∷ variable_token (n ∷ name) ∷ [], false)
unfolding go_on
parse_optional_variable c before n name behind rest p1 p2 p3 =
    let first = c ∷ before in
    let word = n ∷ name in
    let last = with_str (behind_variable first word) behind in
    parse-steps _ (last, false)
      (steps_plain first (b'[' ∷ b'{' ∷ (word ++ b'}' ∷ (behind ++ b']' ∷ rest))) start p1
        ∙ steps_next b'[' (b'{' ∷ (word ++ b'}' ∷ (behind ++ b']' ∷ rest))) (with_str start first)
            (in_optional first) (step_open_bracket c before)
        ∙ steps_next b'{' (word ++ b'}' ∷ (behind ++ b']' ∷ rest)) (in_optional first)
            (in_variable first) (step_open_brace first)
        ∙ steps_plain word (b'}' ∷ (behind ++ b']' ∷ rest)) (in_variable first) p2
        ∙ steps_next b'}' (behind ++ b']' ∷ rest) (with_str (in_variable first) word)
            (behind_variable first word) (step_close_brace first n name)
        ∙ steps_plain behind (b']' ∷ rest) (behind_variable first word) p3
        ∙ steps_stop b']' rest last last (step_close_bracket first word behind))
