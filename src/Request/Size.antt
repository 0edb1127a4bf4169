-- ===== src/Request/Size.antt =====
-- What `Request::Parse` establishes, and where the request ends by `GetRequestSize`.
use web_socket_cpp.Base.{
  ℕ, ◌+◌, ◌%◌, ◌≤◌, ◌<◌, Bool, true, false, inl, inr, [], ◌∷◌, Option, ◌≡◌, ◌⊎◌, refl, ap, arith,
  Bool-cases, Option-cases, ByteArray, add64, size_mod, length, drop,
}
use web_socket_cpp.Text.Search
use web_socket_cpp.Text.Search.{Range, Ranges, ranges, search_position, split, size_max, found}
use web_socket_cpp.Text.Search.First.{First, search_position-First, First-fits}
use web_socket_cpp.HttpHeader
use web_socket_cpp.HttpHeader.{HttpHeader, crlf, crlf_crlf, slice, Parsed, parsed}
use web_socket_cpp.HttpHeader.Entries.{IsDistinct}
use web_socket_cpp.HttpHeader.Reading.{parse_complete, Position-cases}
use web_socket_cpp.Names.Method.{string_to_method}
use web_socket_cpp.Request.{
  UrlOps, Request, Outcome, answered, broken, get_request_size, is_undefined, parse_address,
  parse_parts, parse_ranges, parse_request_line, line_step, header_step, parse,
}

module _ {U : Type 0} where
  -- The header and the length of the line are as in the request.
  abbrev Keeps : Request U → Outcome U → Type 0
  Keeps req broken = Unit
  Keeps req (answered next ok) =
      (next.header ≡ req.header) × (next.request_line_length ≡ req.request_line_length)

module _ {U : Type 0} (url : UrlOps U) (bytes : ByteArray) where
  parse_address-Keeps :
      (second third : Range) (req : Request U)
      → Keeps req (parse_address url bytes second third req)
  unfolding parse_address
  parse_address-Keeps second third req =
      elim (Option-cases (slice bytes second.start (add64 second.end 1))) [
        | inl e ↦ rw (Keeps, e) tt
        | inr (address, e) ↦
            elim (Bool-cases (url.is_initialized (url.parse_relative req.url address))) [
              | inr bad ↦ rw (Keeps, e) (rw (Keeps, bad) (refl, refl))
              | inl good ↦ elim (Option-cases (slice bytes third.start (add64 third.end 1))) [
                | inl f ↦ rw (Keeps, e) (rw (Keeps, good) (rw (Keeps, f) tt))
                | inr (version, f) ↦ rw (Keeps, e) (rw (Keeps, good) (rw (Keeps, f) (refl, refl)))
              ]
            ]
      ]

  parse_parts-Keeps :
      (first second third : Range) (req : Request U)
      → Keeps req (parse_parts url bytes first second third req)
  unfolding parse_parts
  parse_parts-Keeps first second third req =
      elim (Option-cases (slice bytes first.start (add64 first.end 1))) [
        | inl e ↦ rw (Keeps, e) tt
        | inr (word, e) ↦ elim (Bool-cases (is_undefined (string_to_method word))) [
          | inl unknown ↦ rw (Keeps, e) (rw (Keeps, unknown) (refl, refl))
          | inr known ↦
              rw (Keeps, e)
                (rw (Keeps, known)
                  (parse_address-Keeps second third
                    (record req { method = string_to_method word })))
        ]
      ]

  parse_ranges-Keeps : (rs : Ranges) (req : Request U) → Keeps req (parse_ranges url bytes rs req)
  unfolding parse_ranges
  parse_ranges-Keeps Search.broken req = tt
  parse_ranges-Keeps (ranges []) req = (refl, refl)
  parse_ranges-Keeps (ranges (a ∷ [])) req = (refl, refl)
  parse_ranges-Keeps (ranges (a ∷ b ∷ [])) req = (refl, refl)
  parse_ranges-Keeps (ranges (a ∷ b ∷ c ∷ [])) req = parse_parts-Keeps a b c req
  parse_ranges-Keeps (ranges (a ∷ b ∷ c ∷ d ∷ rs)) req = (refl, refl)

  -- A request line that is read ends at the first line end of the data.
  parse_request_line_lem :
      (req next : Request U)
      → 2 ≤ length bytes
      → length bytes < size_max
      → parse_request_line url bytes req ≡ answered next true
      → (next.header ≡ req.header) × First crlf bytes 0 (found next.request_line_length)
  unfolding parse_request_line
  parse_request_line_lem req next long size e =
      let first = search_position-First bytes crlf 0 (omega arith) long (omega arith) size in
      elim (Position-cases (search_position bytes crlf 0 size_max)) [
        | inl q ↦ ground (arith, q)
        | inr (inl q) ↦ ground (arith, q)
        | inr (inr (pos, q)) ↦
            let at_pos : Request U = record req { request_line_length = pos } in
            let line = split bytes (b' ' ∷ []) 0 pos in
            let done : parse_ranges url bytes line at_pos ≡ answered next true =
              ground (arith, q) in
            let kept : Keeps at_pos (answered next true) =
              rw done at (parse_ranges-Keeps line at_pos) in
            (kept.0, rw kept.1 (rw q at first))
      ]

  Outcome-cases :
      (o : Outcome U) → (o ≡ broken) ⊎ ((r : Request U) × (b : Bool) × (o ≡ answered r b))
  Outcome-cases broken = inl refl
  Outcome-cases (answered r b) = inr (r, b, refl)

  Parsed-cases :
      (o : Parsed) → (o ≡ HttpHeader.broken) ⊎ ((h : HttpHeader) × (b : Bool) × (o ≡ parsed h b))
  Parsed-cases HttpHeader.broken = inl refl
  Parsed-cases (parsed h b) = inr (h, b, refl)

  -- An accepted new request has read its line, and its header behind the line.
  parse_halves :
      (req next : Request U)
      → req.request_line_length ≡ 0
      → req.header.complete ≡ false
      → 2 ≤ length bytes
      → length bytes < size_max
      → parse url bytes req ≡ answered next true
      → First crlf bytes 0 (found next.request_line_length)
        × (HttpHeader.parse bytes (add64 next.request_line_length 2) req.header
            ≡ parsed next.header true)
  unfolding parse line_step header_step
  parse_halves req next new incomplete long size e =
      elim (Outcome-cases (parse_request_line url bytes req)) [
        | inl bad ↦ ground (arith, bad)
        | inr (mid, false, q) ↦ ground (arith, q)
        | inr (mid, true, q) ↦
            let line = parse_request_line_lem req mid long size q in
            elim (Parsed-cases
              (HttpHeader.parse bytes (add64 mid.request_line_length 2) mid.header)) [
                | inl bad ↦ ground (arith, bad, q, line.0)
                | inr (header, done, r) ↦
                    let same : record mid { header = header } ≡ next =
                      ground (arith, q, r, line.0) in
                    let good : done ≡ true = ground (arith, q, r, line.0) in
                    let len : mid.request_line_length ≡ next.request_line_length =
                      ap (λ (o : Request U). o.request_line_length) same in
                    let head : header ≡ next.header = ap (λ (o : Request U). o.header) same in
                    (rw len at line.1, rw (good, head, len, line.0) at r)
              ]
      ]

  -- When `Parse` accepts a new request, then its line ends at the first line end of the data, its
  -- header at the first empty line behind that, and `GetRequestSize` is the number of bytes up to and
  -- with this empty line, plus the size of the body, in 64-bit arithmetic.
  pub parse-size :
      (to_number : ByteArray → Option ℕ) (req next : Request U)
      → req.request_line_length ≡ 0
      → req.header.complete ≡ false
      → IsDistinct req.header.headers
      → 4 ≤ length bytes
      → length bytes < size_max
      → parse url bytes req ≡ answered next true
      → (start : ℕ) × (end : ℕ) × First crlf bytes 0 (found start)
        × First crlf_crlf (drop (start + 2) bytes) (start + 2) (found end)
        × (get_request_size to_number next
            ≡ (end + 4 + HttpHeader.body_size to_number next.header) % size_mod)
        × (next.header.complete ≡ true)
        × IsDistinct next.header.headers
  unfolding get_request_size
  parse-size to_number req next new incomplete distinct long size e =
      let halves = parse_halves req next new incomplete (omega arith) size e in
      let start = next.request_line_length in
      let range = First-fits crlf bytes 0 (omega arith) halves.0 in
      let no_wrap : add64 start 2 ≡ start + 2 = omega (arith, range) in
      let read : HttpHeader.parse bytes (start + 2) req.header ≡ parsed next.header true =
        rw no_wrap at halves.1 in
      let full =
        parse_complete bytes (start + 2) req.header next.header long (omega (arith, range)) size
          distinct read in
      (start, start + 2 + next.header.header_size, halves.0, full.2, omega arith, full.0, full.1)
