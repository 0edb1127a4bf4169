-- ===== src/Url/Pairs.antt =====
-- The query of an address: pairs of names and values, and what `ParseQuery` makes of their text.
use web_socket_cpp.Base.{
  ℕ, ◌<◌, true, List, [], ◌∷◌, ◌++◌, map, Option, none, some, ◌≡◌, refl, ap, ◌∙◌, arith,
  append_assoc, append-nil, All, All-append, ByteArray, length, if◌then◌else◌,
}
use web_socket_cpp.Text.Compare.{compare_bytes}
use web_socket_cpp.Text.Encode.{ℤ, StringToInt, decoded, url_decode, decode_loop, plus_to_space}
use web_socket_cpp.Text.Encode.Cut.{IsOther, cut_missing}
use web_socket_cpp.Url.Parsing.{parse-finished}
use web_socket_cpp.Url.Parts.{
  Parts, IsWellFormed, text_of, address, fields, with_fragment, with_user, with_port,
}
use web_socket_cpp.Url.{
  parse, cleared, Url, split_text, bind, add_pair, add_pairs, parse_query, lookup, set_query_value,
  get_query_value,
}
use web_socket_cpp.Url.Query.{get_query_value-set_query_value}

abbrev pub Pair : Type 0
Pair = ByteArray × ByteArray

abbrev pub pair_text : Pair → ByteArray
pair_text (name, value) = name ++ b'=' ∷ value

abbrev pub query_text : List Pair → ByteArray
query_text [] = []
query_text (pair ∷ []) = pair_text pair
query_text (pair ∷ next ∷ pairs) = pair_text pair ++ b'&' ∷ query_text (next ∷ pairs)

abbrev pub IsPlain : ByteArray → Type 0
IsPlain text =
    All (IsOther b'&') text
    × All (IsOther b'=') text
    × All (IsOther b'%') text
    × All (IsOther b'+') text

-- Neither holds a character that means something in a query, and the value is not empty.
abbrev pub IsPair : Pair → Type 0
IsPair (name, value) = IsPlain name × IsPlain value × (0 < length value)

-- The value that stands last for a name.
abbrev pub last_value : ByteArray → List Pair → ByteArray → ByteArray
last_value name [] known = known
last_value name ((key, value) ∷ pairs) known =
    last_value name pairs (if compare_bytes key name then value else known)

abbrev pub set_all : List Pair → Url → Url
set_all [] url = url
set_all ((name, value) ∷ pairs) url = set_all pairs (set_query_value name value url)

pub set_all-entries :
    (pairs : List Pair) (url : Url)
    → set_all pairs url ≡ record url { query = (set_all pairs url).query }
unfolding set_query_value
set_all-entries [] url = refl
set_all-entries ((name, value) ∷ pairs) url = set_all-entries pairs (set_query_value name value url)

pub get_query_value-set_all :
    (name : ByteArray) (pairs : List Pair) (url : Url)
    → get_query_value name (set_all pairs url) ≡ last_value name pairs (get_query_value name url)
get_query_value-set_all name [] url = refl
get_query_value-set_all name ((key, value) ∷ pairs) url =
    get_query_value-set_all name pairs (set_query_value key value url)
    ∙ ap (last_value name pairs) (get_query_value-set_query_value key name value url)

split_text_at :
    (d : ℕ) (line text rest : ByteArray)
    → All (IsOther d) text
    → split_text d line (text ++ d ∷ rest) ≡ (line ++ text) ∷ split_text d [] rest
unfolding split_text
split_text_at d line [] rest others = ground (arith, append-nil line)
split_text_at d line (c ∷ text) rest (other, others) =
    ground
      (arith, split_text_at d (line ++ c ∷ []) text rest others, append_assoc line (c ∷ []) text)

split_text_last :
    (d : ℕ) (line text : ByteArray)
    → All (IsOther d) text
    → 0 < length (line ++ text)
    → split_text d line text ≡ (line ++ text) ∷ []
unfolding split_text
split_text_last d line [] others some_text = ground (arith, append-nil line)
split_text_last d line (c ∷ text) (other, others) some_text =
    ground (arith, split_text_last d (line ++ c ∷ []) text others, append_assoc line (c ∷ []) text)

plain_map : (text : ByteArray) → All (IsOther b'+') text → map plus_to_space text ≡ text
plain_map [] others = refl
plain_map (c ∷ text) (other, others) = ground (arith, plain_map text others)

equals_split :
    (name value : ByteArray)
    → IsPair (name, value)
    → split_text b'=' [] (pair_text (name, value)) ≡ name ∷ value ∷ []
equals_split name value ((_, name_equals, _, _), (_, value_equals, _, _), some_value) =
    split_text_at b'=' [] name value name_equals
    ∙ ap (name ∷◌) (split_text_last b'=' [] value value_equals some_value)

pair_and : (pair : Pair) → IsPair pair → All (IsOther b'&') (pair_text pair)
pair_and (name, value) ((name_and, _, _, _), (value_and, _, _, _), _) =
    All-append (IsOther b'&') name (b'=' ∷ value) name_and (ground arith, value_and)

pair_some : (pair : Pair) → 0 < length (pair_text pair)
pair_some ([], value) = ground arith
pair_some (c ∷ name, value) = ground arith

query_tokens :
    (pairs : List Pair)
    → All IsPair pairs
    → split_text b'&' [] (query_text pairs) ≡ map pair_text pairs
unfolding split_text
query_tokens [] ok = refl
query_tokens (pair ∷ []) (ok, _) =
    split_text_last b'&' [] (pair_text pair) (pair_and pair ok) (pair_some pair)
query_tokens (pair ∷ next ∷ pairs) (ok, rest) =
    split_text_at b'&' [] (pair_text pair) (query_text (next ∷ pairs)) (pair_and pair ok)
    ∙ ap (pair_text pair ∷◌) (query_tokens (next ∷ pairs) rest)

module _ (stoi : StringToInt) where
  plain_decode : (text : ByteArray) → IsPlain text → url_decode stoi text ≡ decoded text
  unfolding url_decode decode_loop
  plain_decode text (_, _, percent, plus) =
      rw (url_decode, decode_loop, cut_missing b'%' text percent, plain_map text plus) refl

  add_plain_pair :
      (name value : ByteArray) (url : Url)
      → IsPair (name, value)
      → add_pair stoi (split_text b'=' [] (pair_text (name, value))) url
        ≡ decoded (set_query_value name value url)
  unfolding add_pair bind
  add_plain_pair name value url ok =
      rw (equals_split name value ok, plain_decode name ok.0, plain_decode value ok.1) refl

  add_plain_pairs :
      (pairs : List Pair) (url : Url)
      → All IsPair pairs
      → add_pairs stoi (map pair_text pairs) url ≡ decoded (set_all pairs url)
  unfolding add_pairs bind
  add_plain_pairs [] url ok = refl
  add_plain_pairs ((name, value) ∷ pairs) url (ok, rest) =
      rw (add_plain_pair name value url ok)
        (add_plain_pairs pairs (set_query_value name value url) rest)

  parse_query_text :
      (pairs : List Pair) (url : Url)
      → All IsPair pairs
      → parse_query stoi (query_text pairs) url ≡ decoded (set_all pairs url)
  unfolding parse_query
  parse_query_text pairs url ok = rw (query_tokens pairs ok) (add_plain_pairs pairs url ok)

user_query : (user : Option ByteArray) (url : Url) → (with_user user url).query ≡ url.query
user_query none url = refl
user_query (some user) url = refl

port_query : (port : Option (ByteArray × ℤ)) (url : Url) → (with_port port url).query ≡ url.query
port_query none url = refl
port_query (some (number, value)) url = refl

fields_query : (parts : Parts) → (fields parts).query ≡ []
unfolding cleared
fields_query parts = port_query parts.port _ ∙ user_query parts.user _

-- The address that `Parse` leaves: the fields that the parts say, and the map of the query.
abbrev pub parsed : Parts → List Pair → Url
parsed parts entries =
    record (with_fragment parts.fragment (record (fields parts) { query = entries })) {
      initialized = true;
    }

-- `Parse` of an address written out of well-formed parts, with the scheme's name, an optional user
-- and port, a host, a path, a query of pairs `name=value` joined by `&` and an optional fragment,
-- whatever the address held before: it succeeds, the scheme, the user, the host, the path and the
-- fragment are what was written, the port is the number that was written or the scheme's own, and the
-- map of the query has for each name the value that was written last for it, and the empty text for a
-- name that was not written. The scheme is one of the four and the host is not empty, a part does not
-- hold the characters that end it, nor the fragment a `?` where there is no query, `std::stoi` reads
-- the port, and names and values hold none of `&`, `=`, `%` and `+`; a value is not empty.
pub parse-Parts :
    (stoi : StringToInt) (parts : Parts) (pairs : List Pair) (old : Url)
    → IsWellFormed stoi parts
    → text_of parts.query ≡ query_text pairs
    → All IsPair pairs
    → (entries : List Pair) × (parse stoi true (address parts) old
        ≡ decoded (parsed parts entries, true))
      × ((name : ByteArray) → lookup name entries ≡ last_value name pairs [])
unfolding bind get_query_value lookup
parse-Parts stoi parts pairs old ok same plain =
    let url = fields parts in
    let entries = (set_all pairs url).query in
    let read = parse_query_text stoi pairs url plain in
    (
      entries,
      parse-finished stoi parts old ok ∙ rw (same, read, set_all-entries pairs url) refl,
      λ name.
          get_query_value-set_all name pairs url
          ∙ ap (λ q. last_value name pairs (lookup name q)) (fields_query parts),
    )
