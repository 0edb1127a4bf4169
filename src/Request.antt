-- ===== src/Request.antt =====
-- src/Request.cpp: the request of a handshake on its way to the server. The `Url` is an interface, and
-- the conversion of `Content-Length` a parameter; the remote address, the session and the texts of the
-- errors, which the parser does not read, are left out.
pub mod Size
pub mod Writing
mod Tests
use web_socket_cpp.Base.{
  ℕ, Bool, true, false, List, [], ◌∷◌, Option, none, some, ByteArray, codes, add64, ◌==◌,
  if◌then◌else◌,
}
use web_socket_cpp.Names.Method.{Method, string_to_method}
use web_socket_cpp.Names.Method
use web_socket_cpp.Text.Compare.{trim}
use web_socket_cpp.Text.Search
use web_socket_cpp.Text.Search.{Range, Ranges, ranges, search_position, split, size_max}
use web_socket_cpp.HttpHeader
use web_socket_cpp.HttpHeader.{HttpHeader, crlf, slice}

-- What `Request` calls of `Url`: the default value, `Parse` of a relative address, and
-- `IsInitiaized`.
pub record UrlOps (U : Type 0) : Type 0 where
  pub empty : U
  pub parse_relative : U → ByteArray → U
  pub is_initialized : U → Bool

pub record Request (U : Type 0) : Type 0 where
  pub conn_id : ℕ
  pub url : U
  pub header : HttpHeader
  pub method : Method
  pub http_version : ByteArray
  pub request_line_length : ℕ
  pub args : List (ByteArray × ByteArray)

-- `broken` stands for a read outside the data.
pub data Outcome (U : Type 0) : Type 0 where
  answered : Request U → Bool → Outcome U
  broken : Outcome U

unfoldable pub get_request_size : {U : Type 0} → (ByteArray → Option ℕ) → Request U → ℕ
get_request_size to_number req =
    add64 (add64 (add64 (add64 req.request_line_length 2) req.header.header_size) 4)
      (HttpHeader.body_size to_number req.header)

-- `m_method == Method::Undefined`
unfoldable pub is_undefined : Method → Bool
is_undefined Method.undefined = true
is_undefined _ = false

module _ {U : Type 0} (url : UrlOps U) where
  -- A new request with its connection.
  unfoldable pub create : ℕ → Request U
  create conn_id = record {
    conn_id = conn_id;
    url = url.empty;
    header = HttpHeader.create HttpHeader.request;
    method = Method.undefined;
    http_version = codes "HTTP/1.1";
    request_line_length = 0;
    args = [];
  }

  -- `ParseRequestLine` from the address on.
  unfoldable pub parse_address : ByteArray → Range → Range → Request U → Outcome U
  parse_address bytes second third req = elim (slice bytes second.start (add64 second.end 1)) [
    | none ↦ broken
    | some address ↦
        let u = url.parse_relative req.url address in
        if url.is_initialized u
        then elim (slice bytes third.start (add64 third.end 1)) [
          | none ↦ broken
          | some version ↦ answered (record req { url = u; http_version = trim version }) true
        ]
        else answered (record req { url = u }) false
  ]

  -- `ParseRequestLine` from the method on, when the line has three parts.
  unfoldable pub parse_parts : ByteArray → Range → Range → Range → Request U → Outcome U
  unfolding parse_address is_undefined
  parse_parts bytes first second third req = elim (slice bytes first.start (add64 first.end 1)) [
    | none ↦ broken
    | some word ↦
        let typed : Request U = record req { method = string_to_method word } in
        if is_undefined (string_to_method word)
        then answered typed false
        else parse_address bytes second third typed
  ]

  unfoldable pub parse_ranges : ByteArray → Ranges → Request U → Outcome U
  unfolding parse_parts
  parse_ranges bytes Search.broken req = broken
  parse_ranges bytes (ranges (first ∷ second ∷ third ∷ [])) req =
      parse_parts bytes first second third req
  parse_ranges bytes (ranges _) req = answered req false

  -- `ParseRequestLine`, which writes the end of the line into `request_line_length`.
  unfoldable pub parse_request_line : ByteArray → Request U → Outcome U
  unfolding parse_ranges
  parse_request_line bytes req = elim (search_position bytes crlf 0 size_max) [
    | Search.fault ↦ broken
    | Search.missing ↦ answered (record req { request_line_length = size_max }) false
    | Search.found pos ↦
        parse_ranges bytes (split bytes (b' ' ∷ []) 0 pos)
          (record req { request_line_length = pos })
  ]

  -- The first half of `Parse`; a failure resets the length so that the next call tries again.
  unfoldable pub line_step : ByteArray → Request U → Outcome U
  unfolding parse_request_line
  line_step bytes req =
      if req.request_line_length == 0
      then elim (parse_request_line bytes req) [
        | broken ↦ broken
        | answered next true ↦ answered next true
        | answered next false ↦ answered (record next { request_line_length = 0 }) false
      ]
      else answered req true

  -- The second half of `Parse`.
  unfoldable pub header_step : ByteArray → Request U → Outcome U
  header_step bytes req =
      if req.header.complete
      then answered req true
      else elim (HttpHeader.parse bytes (add64 req.request_line_length 2) req.header) [
        | HttpHeader.broken ↦ broken
        | HttpHeader.parsed header done ↦ answered (record req { header = header }) done
      ]

  unfoldable pub parse : ByteArray → Request U → Outcome U
  unfolding line_step header_step
  parse bytes req = elim (line_step bytes req) [
    | broken ↦ broken
    | answered next false ↦ answered next false
    | answered next true ↦ header_step bytes next
  ]
