-- ===== src/Response.antt =====
-- src/Response.cpp: the answer of a handshake as the client reads it. `std::stoi` and the two calls of
-- zlib are parameters, none where they throw; the texts of the errors are left out, as are the file
-- and the flag, which `Parse` does not touch.
pub mod Whole
pub mod Writing
pub mod MimeType
mod Tests
use web_socket_cpp.Base.{
  ℕ, zero, suc, ◌+◌, ◌-◌, ◌%◌, Bool, true, false, not, List, [], ◌∷◌, ◌++◌, Option, none, some,
  ByteArray, codes, length, drop, add64, sub64, ltb, leb, ◌==◌, if◌then◌else◌,
}
use web_socket_cpp.Names.Hash.{switch}
use web_socket_cpp.Names.HeaderType
use web_socket_cpp.Text.Compare.{trim, compare_bytes}
use web_socket_cpp.Text.Search
use web_socket_cpp.Text.Search.{Range, Ranges, ranges, search_position, split, size_max}
use web_socket_cpp.Text.Encode.{ℤ, StringToInt, string2int}
use web_socket_cpp.Text.Encode
use web_socket_cpp.HttpHeader
use web_socket_cpp.HttpHeader.{HttpHeader, crlf, crlf_crlf, slice, get_header_type, request_size}

pub data EncodingType : Type 0 where
  undefined gzip deflate chunked compress brotli : EncodingType

pub record Response : Type 0 where
  pub version : ByteArray
  pub header : HttpHeader
  pub body : ByteArray
  pub code : ℕ
  pub phrase : ByteArray
  pub response_size : ℕ

-- A new `Response` with the server's name of the configuration.
unfoldable pub create : ByteArray → Response
create server_name = record {
  version = codes "HTTP/1.1";
  header =
      HttpHeader.set_header_type HeaderType.server server_name
        (HttpHeader.create HttpHeader.HeaderRole.response);
  body = [];
  code = 200;
  phrase = [];
  response_size = 0;
}

-- `broken` stands for a read outside the data, or a chunk that cannot be cut; `thrown` for an
-- exception.
pub data Outcome : Type 0 where
  answered : Response → Bool → Outcome
  thrown : Response → Outcome
  broken : Outcome

unfoldable pub string2encoding_type : ByteArray → EncodingType
unfolding switch
string2encoding_type str =
    switch str
      ((codes "gzip", gzip)
        ∷ (codes "deflate", deflate)
        ∷ (codes "chunked", chunked)
        ∷ (codes "compress", compress)
        ∷ (codes "br", brotli)
        ∷ [])
      undefined

-- An `int` in a `uint16_t`.
unfoldable pub int_to_code : ℤ → ℕ
int_to_code (Encode.pos n) = n % 65536
int_to_code (Encode.negsuc n) = 65535 - n % 65536

-- The loop over the ranges of the phrase.
unfoldable pub append_phrase : ByteArray → List Range → ByteArray → Option ByteArray
append_phrase bytes [] phrase = some phrase
append_phrase bytes (r ∷ rs) phrase = elim (slice bytes r.start (add64 r.end 1)) [
  | none ↦ none
  | some word ↦
      append_phrase bytes rs (phrase ++ (if length phrase == 0 then [] else codes " ") ++ word)
]

module _ (stoi : StringToInt) where
  -- `ParseStatusLine` from the code on.
  unfoldable pub parse_code : ByteArray → Range → List Range → Response → Outcome
  unfolding append_phrase int_to_code string2int
  parse_code bytes second phrase res = elim (slice bytes second.start (add64 second.end 1)) [
    | none ↦ broken
    | some text ↦ elim (string2int stoi text 10) [
      | none ↦ answered res false
      | some number ↦ elim (append_phrase bytes phrase res.phrase) [
        | none ↦ broken
        | some words ↦ answered (record res { code = int_to_code number; phrase = trim words }) true
      ]
    ]
  ]

  unfoldable pub parse_words : ByteArray → Ranges → Response → Outcome
  unfolding parse_code
  parse_words bytes Search.broken res = broken
  parse_words bytes (ranges (first ∷ second ∷ third ∷ more)) res =
      elim (slice bytes first.start (add64 first.end 1)) [
        | none ↦ broken
        | some word ↦ parse_code bytes second (third ∷ more) (record res { version = trim word })
      ]
  parse_words bytes (ranges _) res = answered res false

-- The bytes behind a position, at the end of the body.
unfoldable pub append_body : ByteArray → ℕ → Response → Outcome
append_body bytes pos res =
    if ltb (length bytes) pos
    then broken
    else answered (record res { body = res.body ++ drop pos bytes }) true

-- An `int` added to a `size_t`.
unfoldable pub add_int : ℕ → ℤ → ℕ
add_int a (Encode.pos n) = add64 a n
add_int a (Encode.negsuc n) = sub64 a (n + 1)

module _ (stoi : StringToInt) (unzip uncompress : ByteArray → ByteArray) where
  -- The loop over the chunks, with as many rounds as there are bytes, and one: every chunk that is
  -- taken moves on. `thrown` is the exception of `std::stoi`.
  unfoldable pub decode_chunks : ℕ → ByteArray → ℕ → ℕ → Response → Outcome
  unfolding add_int
  decode_chunks zero bytes start limit res = broken
  decode_chunks (suc fuel) bytes start limit res = elim (ltb start limit) [
    | false ↦ answered res true
    | true ↦ elim (search_position bytes crlf start size_max) [
      | Search.missing ↦ broken
      | Search.fault ↦ broken
      | Search.found at ↦ elim (slice bytes start at) [
        | none ↦ broken
        | some text ↦ elim (stoi text 16) [
          | none ↦ thrown res
          | some n ↦
              let chunk_end = add_int (add64 at 2) n in
              elim (leb chunk_end limit) [
                | false ↦ answered res false
                | true ↦ elim (slice bytes (add64 at 2) chunk_end) [
                  | none ↦ broken
                  | some chunk ↦
                      decode_chunks fuel bytes (add64 chunk_end 2) limit
                        (record res { body = res.body ++ chunk })
                ]
              ]
        ]
      ]
    ]
  ]

  -- `DecodeBody` of the data.
  unfoldable pub decode_body : EncodingType → ByteArray → ℕ → Response → Outcome
  unfolding decode_chunks append_body
  decode_body chunked bytes pos res =
      decode_chunks (suc (length bytes)) bytes
        (add64 (add64 (add64 pos 2) res.header.header_size) 4) (sub64 (length bytes) 5)
        (record res { body = [] })
  decode_body gzip bytes pos res =
      if ltb (length bytes) pos
      then broken
      else answered (record res { body = unzip (drop pos bytes) }) true
  decode_body deflate bytes pos res =
      if ltb (length bytes) pos
      then broken
      else answered (record res { body = uncompress (drop pos bytes) }) true
  decode_body _ bytes pos res = append_body bytes pos res

  -- `DecodeBody` of the body itself, which the other encodings change while they read it.
  unfoldable pub decode_own_body : EncodingType → Response → Outcome
  decode_own_body undefined res = answered res true
  decode_own_body gzip res = answered (record res { body = unzip res.body }) true
  decode_own_body deflate res = answered (record res { body = uncompress res.body }) true
  decode_own_body _ res = broken

  -- The end of the chunked case.
  unfoldable pub finish_chunks : EncodingType → Outcome → Outcome
  unfolding decode_own_body
  finish_chunks encoding broken = broken
  finish_chunks encoding (thrown res) = answered res false
  finish_chunks encoding (answered res _) = elim (decode_own_body encoding res) [
    | broken ↦ broken
    | thrown next ↦ answered next false
    | answered next false ↦ answered next false
    | answered next true ↦
        answered (record next { header = record next.header { chunked_size = length next.body } })
          true
  ]

  unfoldable pub parse_chunks : ByteArray → ℕ → EncodingType → Response → Outcome
  unfolding decode_body finish_chunks
  parse_chunks bytes pos encoding res =
      if ltb (length bytes) 5
      then broken
      else if compare_bytes (drop (length bytes - 5) bytes) (codes "0\r\n\r\n")
      then finish_chunks encoding (decode_body chunked bytes pos res)
      else answered res false

  -- `Parse` behind the header, where `pos` is the end of the status line.
  unfoldable pub parse_body : (ByteArray → Option ℕ) → ByteArray → ℕ → Response → Outcome
  unfolding parse_chunks decode_body
  parse_body to_number bytes pos res =
      let all_size = add64 (add64 pos 2) (request_size to_number res.header) in
      let encoding =
        string2encoding_type (get_header_type HeaderType.content_encoding res.header) in
      let data_start = add64 (add64 (add64 pos 2) res.header.header_size) 4 in
      if ltb (length bytes) all_size
      then answered res false
      else if compare_bytes (get_header_type HeaderType.transfer_encoding res.header)
          (codes "chunked")
      then parse_chunks bytes pos encoding res
      else if not (all_size == length bytes)
      then answered res false
      else if ltb data_start (length bytes)
      then decode_body encoding bytes data_start res
      else answered res true

  unfoldable pub parse_header : (ByteArray → Option ℕ) → ByteArray → ℕ → Response → Outcome
  unfolding parse_body
  parse_header to_number bytes pos res =
      if res.header.complete
      then answered res false
      else elim (HttpHeader.parse bytes (add64 pos 2) res.header) [
        | HttpHeader.broken ↦ broken
        | HttpHeader.parsed header false ↦ answered (record res { header = header }) false
        | HttpHeader.parsed header true ↦
            parse_body to_number bytes pos (record res { header = header })
      ]

  -- `Parse` from the status line on.
  unfoldable pub parse_line : (ByteArray → Option ℕ) → ByteArray → Response → Outcome
  unfolding parse_words parse_header
  parse_line to_number bytes res = elim (search_position bytes crlf 0 size_max) [
    | Search.fault ↦ broken
    | Search.missing ↦ answered res false
    | Search.found pos ↦ elim (parse_words stoi bytes (split bytes (b' ' ∷ []) 0 pos) res) [
      | broken ↦ broken
      | thrown next ↦ thrown next
      | answered next false ↦ answered next false
      | answered next true ↦ parse_header to_number bytes pos next
    ]
  ]

  unfoldable pub parse : (ByteArray → Option ℕ) → ByteArray → Response → Outcome
  unfolding parse_line
  parse to_number bytes res = elim (search_position bytes crlf_crlf 0 size_max) [
    | Search.fault ↦ broken
    | Search.missing ↦ answered res false
    | Search.found pos ↦ parse_line to_number bytes (record res { response_size = add64 pos 4 })
  ]
