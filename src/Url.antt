-- ===== src/Url.antt =====
-- src/Url.cpp: an address and its parts. `std::stoi` and `std::to_string` are parameters, the texts of
-- the errors are left out, and a text is shorter than 2 ^ 31, as `FindOneOf` counts in `int`.
pub mod Pairs
pub mod Parts
pub mod Parsing
pub mod Query
mod Tests
use web_socket_cpp.Base.{
  ℕ, ◌+◌, Bool, true, false, ◌&&◌, ◌||◌, List, [], ◌∷◌, ◌++◌, Option, none, some, ByteArray, codes,
  length, ltb, ◌==◌, if◌then◌else◌,
}
use web_socket_cpp.Names.Hash.{switch}
use web_socket_cpp.Text.Compare.{lower}
use web_socket_cpp.Text.Encode.{
  ℤ, StringToInt, string2int, cut, Decoded, decoded, fault, endless, url_decode, url_encode,
}
use web_socket_cpp.Text.Encode

pub data Scheme : Type 0 where
  undefined http https ws wss : Scheme

-- `m_query` in the order of its keys.
pub record Url : Type 0 where
  pub initialized : Bool
  pub scheme : Scheme
  pub user : ByteArray
  pub host : ByteArray
  pub port : ℤ
  pub path : ByteArray
  pub query : List (ByteArray × ByteArray)
  pub fragment : ByteArray
  pub original_size : ℕ

abbrev pub default_port : ℤ
default_port = Encode.pos 80

abbrev pub default_secured_port : ℤ
default_secured_port = Encode.pos 443

-- `Clear`, which is also what a new `Url` is.
unfoldable pub cleared : Url
cleared = record {
  initialized = false;
  scheme = undefined;
  user = [];
  host = [];
  port = default_port;
  path = [];
  query = [];
  fragment = [];
  original_size = 0;
}

abbrev pub scheme_labels : List (ByteArray × Scheme)
scheme_labels =
    (codes "http", http) ∷ (codes "https", https) ∷ (codes "ws", ws) ∷ (codes "wss", wss) ∷ []

unfoldable pub string2scheme : ByteArray → Scheme
unfolding switch
string2scheme str = switch (lower str) scheme_labels undefined

unfoldable pub scheme2string : Scheme → ByteArray
scheme2string http = codes "http"
scheme2string https = codes "https"
scheme2string ws = codes "ws"
scheme2string wss = codes "wss"
scheme2string undefined = []

-- `IsValid`
unfoldable pub is_valid : Scheme → Bool
is_valid undefined = false
is_valid _ = true

unfoldable pub set_scheme : Scheme → Url → Url
unfolding is_valid
set_scheme scheme url = record url { scheme = scheme; initialized = is_valid scheme }

unfoldable pub set_host : ByteArray → Url → Url
unfolding is_valid
set_host value url = record url { host = value; initialized = is_valid url.scheme }

-- `first < second` of two texts.
unfoldable pub text_less : ByteArray → ByteArray → Bool
text_less first [] = false
text_less [] (b ∷ second) = true
text_less (a ∷ first) (b ∷ second) = if a == b then text_less first second else ltb a b

-- The assignment of a key of the map.
unfoldable pub assign :
    ByteArray → ByteArray → List (ByteArray × ByteArray) → List (ByteArray × ByteArray)
unfolding text_less
assign name value [] = (name, value) ∷ []
assign name value ((key, old) ∷ entries) =
    let rest = assign name value entries in
    if text_less key name
    then (key, old) ∷ rest
    else if text_less name key
    then (name, value) ∷ (key, old) ∷ entries
    else (key, value) ∷ entries

unfoldable pub lookup : ByteArray → List (ByteArray × ByteArray) → ByteArray
unfolding text_less
lookup name [] = []
lookup name ((key, value) ∷ entries) =
    if text_less key name || text_less name key then lookup name entries else value

unfoldable pub set_query_value : ByteArray → ByteArray → Url → Url
unfolding assign
set_query_value name value url = record url { query = assign name value url.query }

unfoldable pub get_query_value : ByteArray → Url → ByteArray
unfolding lookup
get_query_value name url = lookup name url.query

-- `Split` of a text: `getline` gives no text behind a delimiter that stands last.
unfoldable pub split_text : ℕ → ByteArray → ByteArray → List ByteArray
split_text delimiter line [] = if length line == 0 then [] else line ∷ []
split_text delimiter line (c ∷ str) =
    let ends = c == delimiter in
    let rest = split_text delimiter (if ends then [] else line ++ c ∷ []) str in
    if ends then line ∷ rest else rest

-- `FindOneOf`, with the text before the position and the text from there on: the first of the characters
-- that is found decides, wherever it stands.
unfoldable pub find_one_of : ByteArray → ByteArray → Option (ByteArray × ByteArray)
unfolding cut
find_one_of str [] = none
find_one_of str (ch ∷ chars) = elim (cut ch str) [
  | none ↦ find_one_of str chars
  | some (before, after) ↦ some (before, ch ∷ after)
]

-- The address, and what the routine returns.
abbrev pub Parsed : Type 0
Parsed = Decoded (Url × Bool)

unfoldable pub bind {ℓ κ} : {A : Type ℓ} {B : Type κ} → Decoded A → (A → Decoded B) → Decoded B
bind (decoded a) next = next a
bind fault next = fault
bind endless next = endless

module _ (stoi : StringToInt) where
  -- A round of the loop of `ParseQuery`.
  unfoldable pub add_pair : List ByteArray → Url → Decoded Url
  unfolding bind
  add_pair (name ∷ value ∷ []) url =
      bind (url_decode stoi name)
        (λ n. bind (url_decode stoi value) (λ v. decoded (set_query_value n v url)))
  add_pair _ url = decoded url

  unfoldable pub add_pairs : List ByteArray → Url → Decoded Url
  unfolding bind add_pair split_text
  add_pairs [] url = decoded url
  add_pairs (token ∷ tokens) url = bind (add_pair (split_text b'=' [] token) url) (add_pairs tokens)

  unfoldable pub parse_query : ByteArray → Url → Decoded Url
  unfolding add_pairs split_text
  parse_query query url = add_pairs (split_text b'&' [] query) url

  -- `ParsePath` behind the `?`.
  unfoldable pub parse_after_path : ByteArray → Url → Parsed
  unfolding bind cut
  parse_after_path text url = elim (cut b'#' text) [
    | none ↦ bind (parse_query text url) (λ u. decoded (u, true))
    | some (query, fragment) ↦
        bind (parse_query query url) (λ u. decoded (record u { fragment = fragment }, true))
  ]

  unfoldable pub parse_path : ByteArray → Url → Parsed
  unfolding parse_after_path cut
  parse_path path url = elim (cut b'?' path) [
    | some (before, after) ↦ parse_after_path after (record url { path = before })
    | none ↦ elim (cut b'#' path) [
      | some (before, fragment) ↦ decoded (record url { path = before; fragment = fragment }, true)
      | none ↦ decoded (record url { path = path }, true)
    ]
  ]

  unfoldable pub parse_host : ByteArray → Url → Url × Bool
  unfolding cut string2int
  parse_host text url = elim (cut b':' text) [
    | none ↦ (record url { host = text }, true)
    | some (host, number) ↦ elim (string2int stoi number 10) [
      | some port ↦ (record url { host = host; port = port }, true)
      | none ↦ (record url { host = host }, false)
    ]
  ]

  unfoldable pub parse_authority : ByteArray → Url → Url × Bool
  unfolding cut parse_host
  parse_authority authority url = elim (cut b'@' authority) [
    | some (user, text) ↦ parse_host text (record url { user = user })
    | none ↦ parse_host authority url
  ]

  -- The end of `Parse`, which sets `m_initiaized`.
  unfoldable pub parse_rest : ByteArray → Url → Parsed
  unfolding bind parse_path
  parse_rest rest url =
      bind (parse_path rest url) (λ out. decoded (record out.0 { initialized = out.1 }, out.1))

  -- `Parse` behind the authority.
  unfoldable pub parse_behind : ByteArray → Url × Bool → Parsed
  unfolding parse_rest
  parse_behind rest (url, false) = decoded (url, false)
  parse_behind rest (url, true) =
      if length url.host == 0 then decoded (url, false) else parse_rest rest url

  -- `Parse` behind `scheme:`.
  unfoldable pub parse_address : ByteArray → Url → Parsed
  unfolding find_one_of parse_authority parse_behind parse_rest
  parse_address (first ∷ second ∷ text) url =
      if first == b'/' && second == b'/'
      then elim (find_one_of text (codes "/?#")) [
        | some (authority, rest) ↦ parse_behind rest (parse_authority authority url)
        | none ↦ parse_behind [] (parse_authority text url)
      ]
      else parse_rest (first ∷ second ∷ text) url
  parse_address text url = parse_rest text url

  -- `Parse` with the scheme's text, and the text behind the `:`.
  unfoldable pub parse_scheme : Scheme → ByteArray → Url → Parsed
  unfolding parse_address
  parse_scheme undefined text url = decoded (url, false)
  parse_scheme https text url =
      parse_address text (record url { scheme = https; port = default_secured_port })
  parse_scheme wss text url =
      parse_address text (record url { scheme = wss; port = default_secured_port })
  parse_scheme scheme text url =
      parse_address text (record url { scheme = scheme; port = default_port })

  -- `Parse`; what the address was before is cleared.
  unfoldable pub parse : Bool → ByteArray → Url → Parsed
  unfolding cleared cut string2scheme parse_scheme parse_rest
  parse full text old =
      let url = record cleared { original_size = length text } in
      if full
      then elim (cut b':' text) [
        | none ↦ decoded (url, false)
        | some (scheme, rest) ↦ parse_scheme (string2scheme scheme) rest url
      ]
      else parse_rest text url

unfoldable pub get_normalized_path : Url → ByteArray
get_normalized_path url = elim url.path [
  | [] ↦ b'/' ∷ []
  | c ∷ path ↦ if c == b'/' then c ∷ path else b'/' ∷ c ∷ path
]

-- A round of `Query2String`; none if an encoding does not end.
unfoldable pub append_pair : ByteArray × ByteArray → ByteArray → Option ByteArray
unfolding url_encode
append_pair (name, value) retval = elim (url_encode name) [
  | none ↦ none
  | some n ↦ elim (url_encode value) [
    | none ↦ none
    | some v ↦
        some (retval ++ (if length retval == 0 then [] else codes "&") ++ n ++ codes "=" ++ v)
  ]
]

unfoldable pub append_pairs : List (ByteArray × ByteArray) → ByteArray → Option ByteArray
unfolding append_pair
append_pairs [] retval = some retval
append_pairs (entry ∷ entries) retval = elim (append_pair entry retval) [
  | none ↦ none
  | some next ↦ append_pairs entries next
]

-- `Query2String`
unfoldable pub query2string : Url → Option ByteArray
unfolding append_pairs
query2string url = append_pairs url.query []

unfoldable pub is_default_port : ℤ → Bool
is_default_port (Encode.pos n) = n == 80
is_default_port (Encode.negsuc n) = false

-- `ToString` up to the path.
unfoldable pub authority_text : (ℤ → ByteArray) → Url → ByteArray
unfolding scheme2string is_default_port
authority_text number_text url =
    let named = if length url.user == 0 then [] else url.user ++ codes "@" in
    let port = if is_default_port url.port then [] else codes ":" ++ number_text url.port in
    scheme2string url.scheme
    ++ codes ":"
    ++ (if length url.host == 0 then [] else codes "//" ++ named ++ url.host ++ port)

-- `ToString` from the path on.
unfoldable pub path_text : Url → Option ByteArray
unfolding query2string
path_text url = elim (query2string url) [
  | none ↦ none
  | some query ↦ some (
      codes "/"
      ++ url.path
      ++ (if length url.query == 0 then [] else codes "?" ++ query)
      ++ (if length url.fragment == 0 then [] else codes "#" ++ url.fragment))
]

unfoldable pub to_string : (ℤ → ByteArray) → Bool → Url → Option ByteArray
unfolding authority_text path_text
to_string number_text full url = elim (path_text url) [
  | none ↦ none
  | some text ↦ some ((if full then authority_text number_text url else []) ++ text)
]
