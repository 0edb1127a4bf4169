-- ===== src/HttpHeader.antt =====
-- src/HttpHeader.cpp and the class `Header` of include/Header.h. The remote address, which only logging
-- reads, is left out; `std::stoull` behind `GetBodySize` is a parameter. `broken` stands for a read
-- outside the data, or a range of `Split` that leaves it.
pub mod Entries
pub mod Reading
mod Tests
use web_socket_cpp.Base.{
  ℕ, ◌+◌, ◌-◌, Bool, true, false, ◌||◌, List, [], ◌∷◌, ◌++◌, Option, none, some, ByteArray, codes,
  length, take, drop, add64, sub64, ltb, ◌==◌, if◌then◌else◌,
}
use web_socket_cpp.Names.HeaderType.{HeaderType, string_to_header_type, header_type_to_string}
use web_socket_cpp.Names.HeaderType
use web_socket_cpp.Text.Compare.{compare, compare_bytes, trim}
use web_socket_cpp.Text.Search
use web_socket_cpp.Text.Search.{Range, Ranges, ranges, search_position, split, size_max}

pub record Header : Type 0 where
  pub kind : HeaderType
  pub name : ByteArray
  pub value : ByteArray

pub data HeaderRole : Type 0 where
  undefined request response : HeaderRole

pub record HttpHeader : Type 0 where
  pub role : HeaderRole
  pub complete : Bool
  pub headers : List Header
  pub version : ByteArray
  pub header_size : ℕ
  pub chunked_size : ℕ

unfoldable pub create : HeaderRole → HttpHeader
create role = record {
  role = role;
  complete = false;
  headers = [];
  version = codes "HTTP/1.1";
  header_size = 0;
  chunked_size = 0;
}

-- The loop of `SetHeader`. `getValue` returns a copy, so the assignment to it for a header that is
-- there leaves that header as it was.
unfoldable pub set_entry : ByteArray → ByteArray → List Header → List Header
set_entry name value [] =
    record { kind = string_to_header_type name; name = name; value = value } ∷ []
set_entry name value (h ∷ headers) =
    let rest = set_entry name value headers in if compare h.name name then h ∷ headers else h ∷ rest

unfoldable pub set_header : ByteArray → ByteArray → HttpHeader → HttpHeader
unfolding set_entry
set_header name value http = record http { headers = set_entry name value http.headers }

unfoldable pub set_header_type : HeaderType → ByteArray → HttpHeader → HttpHeader
unfolding set_header
set_header_type kind value http = set_header (header_type_to_string kind) value http

unfoldable pub get_entry : ByteArray → List Header → ByteArray
get_entry name [] = []
get_entry name (h ∷ headers) = if compare h.name name then h.value else get_entry name headers

unfoldable pub get_header : ByteArray → HttpHeader → ByteArray
unfolding get_entry
get_header name http = get_entry name http.headers

unfoldable pub get_header_type : HeaderType → HttpHeader → ByteArray
unfolding get_header
get_header_type kind http = get_header (header_type_to_string kind) http

-- `GetAllHeaders` compares names with their case.
unfoldable pub all_entries : ByteArray → List Header → List ByteArray
all_entries name [] = []
all_entries name (h ∷ headers) =
    let rest = all_entries name headers in
    if compare_bytes h.name name then h.value ∷ rest else rest

unfoldable pub get_all_headers : ByteArray → HttpHeader → List ByteArray
unfolding all_entries
get_all_headers name http = all_entries name http.headers

unfoldable pub clear : HttpHeader → HttpHeader
unfolding create
clear http = create undefined

unfoldable pub header_bytes : List Header → ByteArray
header_bytes [] = []
header_bytes (h ∷ headers) = h.name ++ codes ": " ++ h.value ++ b'\r' ∷ b'\n' ∷ header_bytes headers

unfoldable pub to_byte_array : HttpHeader → ByteArray
unfolding header_bytes
to_byte_array http = header_bytes http.headers

-- `std::string(data.begin() + from, data.begin() + to)`
unfoldable pub slice : ByteArray → ℕ → ℕ → Option ByteArray
slice bytes from to =
    if ltb (length bytes) to || ltb to from then none else some (take (to - from) (drop from bytes))

-- One round of the loop of `ParseHeaders`.
unfoldable pub parse_range : ByteArray → Range → HttpHeader → Option HttpHeader
parse_range bytes r http = elim (search_position bytes (b':' ∷ []) r.start r.end) [
  | Search.missing ↦ some http
  | Search.fault ↦ none
  | Search.found at ↦ elim (slice bytes r.start at) [
    | none ↦ none
    | some name ↦ elim (slice bytes (at + 1) (add64 r.end 1)) [
      | none ↦ none
      | some value ↦
          if length (trim name) == 0
          then some http
          else some (set_header (trim name) (trim value) http)
    ]
  ]
]

unfoldable pub parse_ranges : ByteArray → List Range → HttpHeader → Option HttpHeader
parse_ranges bytes [] http = some http
parse_ranges bytes (r ∷ rs) http = elim (parse_range bytes r http) [
  | none ↦ none
  | some next ↦ parse_ranges bytes rs next
]

pub data Parsed : Type 0 where
  parsed : HttpHeader → Bool → Parsed
  broken : Parsed

unfoldable pub parse_headers : ByteArray → Ranges → HttpHeader → Parsed
parse_headers bytes Search.broken http = broken
parse_headers bytes (ranges []) http = parsed http false
parse_headers bytes (ranges (r ∷ rs)) http = elim (parse_ranges bytes (r ∷ rs) http) [
  | none ↦ broken
  | some next ↦ parsed next true
]

abbrev pub crlf : ByteArray
crlf = b'\r' ∷ b'\n' ∷ []

abbrev pub crlf_crlf : ByteArray
crlf_crlf = b'\r' ∷ b'\n' ∷ b'\r' ∷ b'\n' ∷ []

-- The end of `Parse`, where `pos` is the position of the empty line.
unfoldable pub finish : ℕ → ℕ → Parsed → Parsed
finish start pos broken = broken
finish start pos (parsed http false) = parsed http http.complete
finish start pos (parsed http true) =
    parsed (record http { header_size = sub64 pos start; complete = true }) true

unfoldable pub parse : ByteArray → ℕ → HttpHeader → Parsed
unfolding finish
parse bytes start http =
    let opened : HttpHeader = record http { complete = false } in
    elim (search_position bytes crlf_crlf start size_max) [
      | Search.missing ↦ parsed opened false
      | Search.fault ↦ broken
      | Search.found pos ↦
          finish start pos (parse_headers bytes (split bytes crlf start pos) opened)
    ]

-- `String2uint64` is a parameter: `none` where it fails.
unfoldable pub body_size : (ByteArray → Option ℕ) → HttpHeader → ℕ
body_size to_number http =
    if http.complete
    then (let text = get_header_type HeaderType.content_length http in
        if length text == 0
        then http.chunked_size
        else elim (to_number text) [ none ↦ 0 | some num ↦ num ])
    else 0

unfoldable pub request_size : (ByteArray → Option ℕ) → HttpHeader → ℕ
unfolding body_size
request_size to_number http = add64 (add64 http.header_size 4) (body_size to_number http)
