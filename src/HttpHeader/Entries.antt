-- ===== src/HttpHeader/Entries.antt =====
-- Reading and writing headers by name.
use web_socket_cpp.Base.{
  Bool, true, false, ◌≡◌, refl, inl, inr, arith, List, [], ◌∷◌, ByteArray, if◌then◌else◌,
  Bool-cases,
}
use web_socket_cpp.Text.Compare.{compare, compare-iff-lower}
use web_socket_cpp.HttpHeader.{Header, HttpHeader, set_entry, set_header, get_entry, get_header}

-- Is a header of that name there, ignoring case?
abbrev pub has : ByteArray → List Header → Bool
has name [] = false
has name (h ∷ headers) = if compare h.name name then true else has name headers

-- No two headers have names that agree but for case.
abbrev pub IsDistinct : List Header → Type 0
IsDistinct [] = Unit
IsDistinct (h ∷ headers) = (has h.name headers ≡ false) × IsDistinct headers

compare_sym : (a b : ByteArray) → compare a b ≡ compare b a
compare_sym a b = ground (
  arith,
  (compare-iff-lower a b).0,
  (compare-iff-lower b a).0,
  (compare-iff-lower a b).1,
  (compare-iff-lower b a).1,
)

compare_trans : (a b c : ByteArray) → compare a b ≡ true → compare b c ≡ compare a c
compare_trans a b c h = ground (
  arith,
  (compare-iff-lower a b).0,
  (compare-iff-lower a c).0,
  (compare-iff-lower b c).0,
  (compare-iff-lower a c).1,
  (compare-iff-lower b c).1,
)

has-compare :
    (m n : ByteArray) (hs : List Header) → compare m n ≡ true → has m hs ≡ true → has n hs ≡ true
has-compare m n [] e h = ground arith
has-compare m n (g ∷ hs) e h = ground (
  arith,
  compare_sym m n,
  compare_trans g.name m n,
  compare_trans g.name n m,
  has-compare m n hs e,
)

-- Setting a header that is there already, in whatever case its name is written, changes nothing: the
-- old value stays.
set_header_existing :
    (name value : ByteArray) (http : HttpHeader)
    → has name http.headers ≡ true
    → set_header name value http ≡ http
unfolding set_header
set_header_existing name value http h = rw (same http.headers h)
  where
    same : (hs : List Header) → has name hs ≡ true → set_entry name value hs ≡ hs
    same [] q = ground arith
    same (g ∷ hs) q = ground (arith, same hs)

get_entry-set_entry :
    (n m value : ByteArray) (hs : List Header)
    → get_entry n (set_entry m value hs)
      ≡ (if has n hs then get_entry n hs else if compare m n then value else [])
unfolding set_entry get_entry
get_entry-set_entry n m value [] = refl
get_entry-set_entry n m value (g ∷ hs) = ground (
  arith,
  get_entry-set_entry n m value hs,
  compare_trans g.name m n,
  get_missing n hs,
  has-compare m n hs,
)
  where
    get_missing : (k : ByteArray) (xs : List Header) → has k xs ≡ false → get_entry k xs ≡ []
    get_missing k [] q = refl
    get_missing k (x ∷ xs) q = ground (arith, get_missing k xs)

-- What `GetHeader` returns after `SetHeader`, for any two names: the value that was there, or else
-- the new value if the names agree but for case, or else the empty text.
pub get_header-set_header :
    (n m value : ByteArray) (http : HttpHeader)
    → get_header n (set_header m value http)
      ≡ (if has n http.headers then get_header n http else if compare m n then value else [])
unfolding get_header set_header
get_header-set_header n m value http = get_entry-set_entry n m value http.headers

has-set_entry :
    (n m value : ByteArray) (hs : List Header)
    → has n (set_entry m value hs) ≡ (if has n hs then true else compare m n)
unfolding set_entry
has-set_entry n m value [] = ground arith
has-set_entry n m value (g ∷ hs) =
    ground (arith, has-set_entry n m value hs, compare_trans g.name m n, has-compare m n hs)

pub set_entry-IsDistinct :
    (name value : ByteArray) (hs : List Header)
    → IsDistinct hs
    → IsDistinct (set_entry name value hs)
unfolding set_entry
set_entry-IsDistinct name value [] d = (refl, tt)
set_entry-IsDistinct name value (g ∷ hs) (out, d) = elim (Bool-cases (compare g.name name)) [
  | inl there ↦ rw there (out, d)
  | inr new ↦ rw new (
    ground (arith, has-set_entry g.name name value hs, compare_sym g.name name),
    set_entry-IsDistinct name value hs d,
  )
]
