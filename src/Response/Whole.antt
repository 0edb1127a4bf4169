-- ===== src/Response/Whole.antt =====
-- Which answers the client accepts.
use web_socket_cpp.Base.{
  ℕ, Bool, true, false, List, [], ◌∷◌, Option, ◌≡◌, ◌⊎◌, inl, inr, refl, sym, arith, Bool-cases,
  Option-cases, ByteArray, codes, length, add64, ◌==◌,
}
use web_socket_cpp.Names.HeaderType
use web_socket_cpp.Text.Compare.{compare_bytes, trim}
use web_socket_cpp.Text.Search
use web_socket_cpp.Text.Search.{Range, Ranges, ranges, search_position, Position, split, size_max}
use web_socket_cpp.Text.Encode.{StringToInt, string2int}
use web_socket_cpp.HttpHeader
use web_socket_cpp.HttpHeader.{HttpHeader, crlf, crlf_crlf, slice, get_header_type, request_size}
use web_socket_cpp.Response.{
  Response, Outcome, answered, thrown, broken, append_phrase, parse_code, parse_words, parse_body,
  parse_header, parse_line, parse,
}

Parsed-cases :
    (p : HttpHeader.Parsed)
    → ((p ≡ HttpHeader.broken) ⊎ ((h : HttpHeader) × (p ≡ HttpHeader.parsed h false)))
      ⊎ ((h : HttpHeader) × (p ≡ HttpHeader.parsed h true))
Parsed-cases HttpHeader.broken = inl (inl refl)
Parsed-cases (HttpHeader.parsed h false) = inl (inr (h, refl))
Parsed-cases (HttpHeader.parsed h true) = inr (h, refl)

Position-cases :
    (p : Position)
    → ((p ≡ Search.missing) ⊎ (p ≡ Search.fault)) ⊎ ((pos : ℕ) × (p ≡ Search.found pos))
Position-cases Search.missing = inl (inl refl)
Position-cases Search.fault = inl (inr refl)
Position-cases (Search.found pos) = inr (pos, refl)

Outcome-cases :
    (o : Outcome)
    → ((o ≡ broken) ⊎ ((r : Response) × ((o ≡ thrown r) ⊎ (o ≡ answered r false))))
      ⊎ ((r : Response) × (o ≡ answered r true))
Outcome-cases broken = inl (inl refl)
Outcome-cases (thrown r) = inl (inr (r, inl refl))
Outcome-cases (answered r false) = inl (inr (r, inr refl))
Outcome-cases (answered r true) = inr (r, refl)

module _ (stoi : StringToInt) where
  parse_code_header :
      (bytes : ByteArray) (second : Range) (phrase : List Range) (res out : Response)
      → parse_code stoi bytes second phrase res ≡ answered out true
      → out.header ≡ res.header
  unfolding parse_code
  parse_code_header bytes second phrase res out h =
      elim (Option-cases (slice bytes second.start (add64 second.end 1))) [
        | inl e ↦ absurd (ground (arith, h, e))
        | inr (text, e) ↦ elim (Option-cases (string2int stoi text 10)) [
          | inl f ↦ absurd (ground (arith, h, e, f))
          | inr (number, f) ↦ elim (Option-cases (append_phrase bytes phrase res.phrase)) [
            | inl g ↦ absurd (ground (arith, h, e, f, g))
            | inr (words, g) ↦ ground (arith, h, e, f, g)
          ]
        ]
      ]

  parse_words_header :
      (bytes : ByteArray) (rs : Ranges) (res out : Response)
      → parse_words stoi bytes rs res ≡ answered out true
      → out.header ≡ res.header
  unfolding parse_words
  parse_words_header bytes Search.broken res out h = absurd (ground (arith, h))
  parse_words_header bytes (ranges []) res out h = absurd (ground (arith, h))
  parse_words_header bytes (ranges (a ∷ [])) res out h = absurd (ground (arith, h))
  parse_words_header bytes (ranges (a ∷ b ∷ [])) res out h = absurd (ground (arith, h))
  parse_words_header bytes (ranges (a ∷ b ∷ c ∷ more)) res out h =
      elim (Option-cases (slice bytes a.start (add64 a.end 1))) [
        | inl e ↦ absurd (ground (arith, h, e))
        | inr (word, e) ↦
            parse_code_header bytes b (c ∷ more) (record res { version = trim word }) out
              (ground (arith, h, e))
      ]

module _ (stoi : StringToInt) (unzip uncompress : ByteArray → ByteArray)
    (to_number : ByteArray → Option ℕ) where
  abbrev pub is_chunked : HttpHeader → Bool
  is_chunked header =
      compare_bytes (get_header_type HeaderType.transfer_encoding header) (codes "chunked")

  parse_body-size :
      (bytes : ByteArray) (pos : ℕ) (res out : Response)
      → parse_body stoi unzip uncompress to_number bytes pos res ≡ answered out true
      → is_chunked res.header ≡ false
      → length bytes ≡ add64 (add64 pos 2) (request_size to_number res.header)
  unfolding parse_body
  parse_body-size bytes pos res out h plain =
      elim (Bool-cases (add64 (add64 pos 2) (request_size to_number res.header) == length bytes)) [
        | inl e ↦ ground (arith, e)
        | inr e ↦ absurd (ground (arith, h, e, plain))
      ]

  -- The header of an answer as it is parsed, and what its size must be.
  abbrev pub Whole : ByteArray → HttpHeader → Type 0
  Whole bytes before =
      (pos : ℕ) × (header : HttpHeader) × (search_position bytes crlf 0 size_max ≡ Search.found pos)
      × (HttpHeader.parse bytes (add64 pos 2) before ≡ HttpHeader.parsed header true)
      × ((is_chunked header ≡ true)
          ⊎ (length bytes ≡ add64 (add64 pos 2) (request_size to_number header)))

  parse_header-Whole :
      (bytes : ByteArray) (pos : ℕ) (res out : Response)
      → search_position bytes crlf 0 size_max ≡ Search.found pos
      → parse_header stoi unzip uncompress to_number bytes pos res ≡ answered out true
      → Whole bytes res.header
  unfolding parse_header
  parse_header-Whole bytes pos res out found h =
      elim (Parsed-cases (HttpHeader.parse bytes (add64 pos 2) res.header)) [
        | inl (inl e) ↦ absurd (ground (arith, h, e))
        | inl (inr (header, e)) ↦ absurd (ground (arith, h, e))
        | inr (header, e) ↦ (
          pos,
          header,
          found,
          e,
          elim (Bool-cases (is_chunked header)) [
            | inl chunked ↦ inl chunked
            | inr plain ↦ inr (
                parse_body-size bytes pos (record res { header = header }) out
                  (ground (arith, h, e)) plain)
          ],
        )
      ]

  parse_line-Whole :
      (bytes : ByteArray) (res out : Response)
      → parse_line stoi unzip uncompress to_number bytes res ≡ answered out true
      → Whole bytes res.header
  unfolding parse_line
  parse_line-Whole bytes res out h = elim (Position-cases (search_position bytes crlf 0 size_max)) [
    | inl (inl e) ↦ absurd (ground (arith, h, e))
    | inl (inr e) ↦ absurd (ground (arith, h, e))
    | inr (pos, e) ↦
        elim (Outcome-cases (parse_words stoi bytes (split bytes (b' ' ∷ []) 0 pos) res)) [
          | inl (inl f) ↦ absurd (ground (arith, h, e, f))
          | inl (inr (r, inl f)) ↦ absurd (ground (arith, h, e, f))
          | inl (inr (r, inr f)) ↦ absurd (ground (arith, h, e, f))
          | inr (r, f) ↦
              rw (sym (parse_words_header stoi bytes (split bytes (b' ' ∷ []) 0 pos) res r f))
                (parse_header-Whole bytes pos r out e (ground (arith, h, e, f)))
        ]
  ]

  -- An answer that the client accepts has a status line and headers that are complete, and unless it is
  -- chunked it is the whole of the data: nothing of what the server sends next stands behind it.
  pub parse-Whole :
      (bytes : ByteArray) (res out : Response)
      → parse stoi unzip uncompress to_number bytes res ≡ answered out true
      → Whole bytes res.header
  unfolding parse
  parse-Whole bytes res out h = elim (Position-cases (search_position bytes crlf_crlf 0 size_max)) [
    | inl (inl e) ↦ absurd (ground (arith, h, e))
    | inl (inr e) ↦ absurd (ground (arith, h, e))
    | inr (pos, e) ↦
        parse_line-Whole bytes (record res { response_size = add64 pos 4 }) out
          (ground (arith, h, e))
  ]
