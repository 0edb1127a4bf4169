-- ===== src/Route/Tokens.antt =====
-- `Route::Token` of include/Route.h and src/Route.cpp: a part of a route's path. `sort_group` is
-- `std::sort` with the order of `SortGroup`, in which two texts that compare as equal are equal, so
-- that the sorted list is one only.
use web_socket_cpp.Base.{
  ℕ, suc, Bool, true, false, ◌&&◌, ◌||◌, List, [], ◌∷◌, Option, none, some, ByteArray, codes,
  length, leb, ltb, ◌==◌, if◌then◌else◌,
}
use web_socket_cpp.Names.Hash.{switch}
use web_socket_cpp.Text.Compare.{contains}
use web_socket_cpp.Text.Compare

pub data Kind : Type 0 where
  default variable group any : Kind

pub data View : Type 0 where
  default any alpha numeric string upper lower : View

pub record Token : Type 0 where
  pub text : ByteArray
  pub members : List ByteArray
  pub kind : Kind
  pub view : View
  pub optional : Bool

abbrev pub new_token : Token
new_token = record {
  text = [];
  members = [];
  kind = Kind.default;
  view = View.default;
  optional = false;
}

-- `Clear` keeps `optional`.
unfoldable pub clear : Token → Token
clear token = record token { text = []; kind = Kind.default; view = View.default; members = [] }

unfoldable pub is_default : Kind → Bool
is_default Kind.default = true
is_default _ = false

unfoldable pub is_empty : Token → Bool
unfolding is_default
is_empty token = is_default token.kind && length token.text == 0 && length token.members == 0

-- `first > second` of two texts.
unfoldable pub text_greater : ByteArray → ByteArray → Bool
text_greater [] second = false
text_greater (a ∷ first) [] = true
text_greater (a ∷ first) (b ∷ second) = if a == b then text_greater first second else ltb b a

-- The order of `SortGroup`: longer texts first.
unfoldable pub sorts_before : ByteArray → ByteArray → Bool
unfolding text_greater
sorts_before first second =
    if length first == length second
    then text_greater first second
    else ltb (length second) (length first)

unfoldable pub insert_sorted : ByteArray → List ByteArray → List ByteArray
unfolding sorts_before
insert_sorted str [] = str ∷ []
insert_sorted str (other ∷ strs) =
    let rest = insert_sorted str strs in
    if sorts_before other str then other ∷ rest else str ∷ other ∷ strs

unfoldable pub sort_group : List ByteArray → List ByteArray
unfolding insert_sorted
sort_group [] = []
sort_group (str ∷ strs) = insert_sorted str (sort_group strs)

unfoldable pub string_to_view : ByteArray → View
unfolding switch Compare.lower
string_to_view str =
    switch (Compare.lower str)
      ((codes "any", View.any)
        ∷ (codes "alpha", View.alpha)
        ∷ (codes "numeric", View.numeric)
        ∷ (codes "string", View.string)
        ∷ (codes "upper", View.upper)
        ∷ (codes "lower", View.lower)
        ∷ [])
      View.default

unfoldable pub is_lower : ℕ → Bool
is_lower ch = leb b'a' ch && leb ch b'z'

unfoldable pub is_upper : ℕ → Bool
is_upper ch = leb b'A' ch && leb ch b'Z'

unfoldable pub is_numeric : ℕ → Bool
is_numeric ch = leb b'0' ch && leb ch b'9'

unfoldable pub is_alpha : ℕ → Bool
unfolding is_lower is_upper
is_alpha ch = is_lower ch || is_upper ch

unfoldable pub is_string : ℕ → Bool
unfolding is_alpha is_numeric contains
is_string ch = is_alpha ch || is_numeric ch || contains (b'.' ∷ b'_' ∷ b'-' ∷ []) ch

-- The test that the `switch` on the view chooses.
unfoldable pub view_test : View → ℕ → Bool
unfolding is_string is_alpha is_numeric is_upper is_lower
view_test View.default ch = is_string ch
view_test View.any ch = true
view_test View.alpha ch = is_alpha ch
view_test View.numeric ch = is_numeric ch
view_test View.string ch = is_string ch
view_test View.upper ch = is_upper ch
view_test View.lower ch = is_lower ch

-- The loop over a variable's characters: how many there are.
unfoldable pub run_length : (ℕ → Bool) → ByteArray → ℕ
run_length test [] = 0
run_length test (ch ∷ rest) = let more = run_length test rest in if test ch then suc more else 0

-- `memcmp` behind the test of the length.
unfoldable pub starts_with : ByteArray → ByteArray → Bool
starts_with [] rest = true
starts_with (c ∷ str) [] = false
starts_with (c ∷ str) (d ∷ rest) = if c == d then starts_with str rest else false

unfoldable pub match_group : List ByteArray → ByteArray → Option ℕ
unfolding starts_with
match_group [] rest = none
match_group (str ∷ strs) rest =
    if starts_with str rest then some (length str) else match_group strs rest

-- The cases of `IsMatch`.
unfoldable pub match_kind : Kind → Token → ByteArray → ℕ → Option ℕ
unfolding starts_with match_group run_length view_test
match_kind Kind.default token rest offset =
    if starts_with token.text rest then some (length token.text) else none
match_kind Kind.variable token rest offset =
    let n = run_length (view_test token.view) rest in if n == 0 then none else some n
match_kind Kind.group token rest offset = match_group token.members rest
match_kind Kind.any token rest offset = some offset

-- `IsMatch` at the text that is left: the offset that it stores, `none` where it returns false. A token
-- `Any` returns true and leaves the offset as it was.
unfoldable pub token_match : Token → ByteArray → ℕ → Option ℕ
unfolding match_kind
token_match token rest offset = match_kind token.kind token rest offset
