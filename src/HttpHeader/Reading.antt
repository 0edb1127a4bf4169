-- ===== src/HttpHeader/Reading.antt =====
-- What `HttpHeader::Parse` establishes.
use web_socket_cpp.Base.{
  ℕ, ◌+◌, ◌≤◌, ◌<◌, Bool, true, false, Option, none, some, ◌≡◌, refl, inl, inr, sym, arith, List,
  [], ◌∷◌, ByteArray, if◌then◌else◌, Bool-cases, Option-cases, length, length-drop, drop, sub64,
  add64, ◌⊎◌, ◌==◌,
}
use web_socket_cpp.Text.Compare.{trim}
use web_socket_cpp.Text.Search
use web_socket_cpp.Text.Search.{
  Range, Ranges, Position, search_position, split, size_max, found, ranges,
}
use web_socket_cpp.Text.Search.First.{First, search_position-First, First-bounds}
use web_socket_cpp.HttpHeader.{
  HttpHeader, set_header, parse_range, parse_ranges, parse_headers, Parsed, parsed, broken, finish,
  parse, crlf, crlf_crlf, slice,
}
use web_socket_cpp.HttpHeader.Entries.{IsDistinct, set_entry-IsDistinct}

pub Position-cases :
    (p : Position) → (p ≡ Search.missing) ⊎ (p ≡ Search.fault) ⊎ ((k : ℕ) × (p ≡ found k))
Position-cases Search.missing = inl refl
Position-cases Search.fault = inr (inl refl)
Position-cases (found k) = inr (inr (k, refl))

abbrev Keeps : Option HttpHeader → Type 0
Keeps none = Unit
Keeps (some http) = IsDistinct http.headers

set_header-Keeps :
    (name value : ByteArray) (http : HttpHeader)
    → IsDistinct http.headers
    → Keeps (if length name == 0 then some http else some (set_header name value http))
unfolding set_header
set_header-Keeps name value http d = elim (Bool-cases (length name == 0)) [
  | inl nameless ↦ rw nameless d
  | inr named ↦ rw named (set_entry-IsDistinct name value http.headers d)
]

parse_range-Keeps :
    (bytes : ByteArray) (r : Range) (http : HttpHeader)
    → IsDistinct http.headers
    → Keeps (parse_range bytes r http)
unfolding parse_range
parse_range-Keeps bytes r http d =
    elim (Position-cases (search_position bytes (b':' ∷ []) r.start r.end)) [
      | inl e ↦ rw (e, Keeps, parse_range) d
      | inr (inl e) ↦ rw (e, Keeps, parse_range) tt
      | inr (inr (at, e)) ↦ elim (Option-cases (slice bytes r.start at)) [
        | inl f ↦ rw (e, Keeps, parse_range) (rw (f, Keeps) tt)
        | inr (name, f) ↦ elim (Option-cases (slice bytes (at + 1) (add64 r.end 1))) [
          | inl g ↦ rw (e, Keeps, parse_range) (rw (f, Keeps) (rw (g, Keeps) tt))
          | inr (value, g) ↦
              rw (e, Keeps, parse_range)
                (rw (f, Keeps) (rw (g, Keeps) (set_header-Keeps (trim name) (trim value) http d)))
        ]
      ]
    ]

parse_ranges-Keeps :
    (bytes : ByteArray) (rs : List Range) (http : HttpHeader)
    → IsDistinct http.headers
    → Keeps (parse_ranges bytes rs http)
unfolding parse_ranges
parse_ranges-Keeps bytes [] http d = d
parse_ranges-Keeps bytes (r ∷ rs) http d = elim (Option-cases (parse_range bytes r http)) [
  | inl e ↦ rw (e, Keeps, parse_ranges) tt
  | inr (next, e) ↦
      let kept : IsDistinct next.headers = rw e at (parse_range-Keeps bytes r http d) in
      rw (e, Keeps, parse_ranges) (parse_ranges-Keeps bytes rs next kept)
]

-- Either no range was given and the headers are as they were, or the ranges were read.
parse_headers_lem :
    (bytes : ByteArray) (rs : Ranges) (http next : HttpHeader) (read : Bool)
    → IsDistinct http.headers
    → parse_headers bytes rs http ≡ parsed next read
    → IsDistinct next.headers × (read ≡ false → next ≡ http)
unfolding parse_headers
parse_headers_lem bytes Search.broken http next read d e = ground (arith, e)
parse_headers_lem bytes (ranges []) http next read d e =
    let same : next ≡ http = cc in (rw same d, λ _. same)
parse_headers_lem bytes (ranges (r ∷ rs)) http next read d e =
    elim (Option-cases (parse_ranges bytes (r ∷ rs) http)) [
      | inl q ↦ ground (arith, q)
      | inr (out, q) ↦
          let kept : IsDistinct out.headers = rw q at (parse_ranges-Keeps bytes (r ∷ rs) http d) in
          let same : out ≡ next = ground arith in (rw same at kept, λ w. ground arith)
    ]

finish_lem :
    (start pos : ℕ) (out : Parsed) (next : HttpHeader)
    → finish start pos out ≡ parsed next true
    → (http : HttpHeader) × (read : Bool) × (out ≡ parsed http read)
      × (next.headers ≡ http.headers)
      × (((read ≡ false) × (next ≡ http) × (next.complete ≡ true))
          ⊎ ((next.header_size ≡ sub64 pos start) × (next.complete ≡ true)))
unfolding finish
finish_lem start pos broken next e = ground (arith, e)
finish_lem start pos (parsed http false) next e =
    let same : http ≡ next = ground arith in
    (http, false, refl, rw same, inl (refl, sym same, ground arith))
finish_lem start pos (parsed http true) next e =
    (http, true, refl, ground arith, inr (ground arith))

-- When `Parse` reports a complete header, the header ends at the first empty line behind the start,
-- its size is the distance to it, and, if the names were distinct but for case before, they are
-- afterwards.
pub parse_complete :
    (bytes : ByteArray) (start : ℕ) (http next : HttpHeader)
    → 4 ≤ length bytes
    → start ≤ length bytes
    → length bytes < size_max
    → IsDistinct http.headers
    → parse bytes start http ≡ parsed next true
    → (next.complete ≡ true)
      × IsDistinct next.headers
      × First crlf_crlf (drop start bytes) start (found (start + next.header_size))
unfolding parse
parse_complete bytes start http next long inside size d e =
    elim (Position-cases (search_position bytes crlf_crlf start size_max)) [
      | inl q ↦ ground (arith, q)
      | inr (inl q) ↦ ground (arith, q)
      | inr (inr (pos, q)) ↦
          let opened : HttpHeader = record http { complete = false } in
          let done : finish start pos (parse_headers bytes (split bytes crlf start pos) opened)
              ≡ parsed next true =
            ground (arith, q) in
          let (seen, read, r, heads, ending) = finish_lem start pos _ next done in
          let (distinct, same) = parse_headers_lem bytes _ opened seen read d r in
          let first = search_position-First bytes crlf_crlf start (omega arith) long inside size in
          let at_pos : First crlf_crlf (drop start bytes) start (found pos) = rw q at first in
          let range = First-bounds crlf_crlf (drop start bytes) start (omega arith) at_pos in
          elim ending [
            | inl (unread, kept, complete) ↦ ground (arith, same unread, kept, complete)
            | inr (sized, complete) ↦
                let end : start + next.header_size ≡ pos =
                  omega (arith, range, sized, length-drop start bytes) in
                (complete, rw heads distinct, rw end at_pos)
          ]
    ]
