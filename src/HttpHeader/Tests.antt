-- ===== src/HttpHeader/Tests.antt =====
-- A request's headers at concrete bytes.
use web_socket_cpp.Base.{
  ◌≡◌, ◌+◌, refl, true, [], ◌∷◌, drop, arith, codes, ByteArray, if◌then◌else◌,
}
use web_socket_cpp.Text.Compare.{compare, trim, contains, same_letters}
use web_socket_cpp.Text.Search.{search_position, split, scan, compare_at, found}
use web_socket_cpp.Text.Search.First.{First}
use web_socket_cpp.Names.HeaderType.{string_to_header_type}
use web_socket_cpp.Names.HeaderType
use web_socket_cpp.Names.Hash.{switch}
use web_socket_cpp.HttpHeader.{
  HttpHeader, HeaderRole, create, set_header, get_header, parse, parse_range, parse_ranges,
  parse_headers, slice, parsed, crlf_crlf,
}
use web_socket_cpp.HttpHeader.Entries.{IsDistinct, has, get_header-set_header}
use web_socket_cpp.HttpHeader.Reading.{parse_complete}

abbrev request : ByteArray
request = codes "GET / HTTP/1.1\r\nHost: a\r\nUpgrade : websocket\r\n\r\n"

abbrev read_header_of_request : HttpHeader
read_header_of_request = record {
  role = HeaderRole.request;
  complete = true;
  headers =
      record { kind = HeaderType.host; name = codes "Host"; value = codes "a" }
      ∷ record { kind = HeaderType.upgrade; name = codes "Upgrade"; value = codes "websocket" }
      ∷ [];
  version = codes "HTTP/1.1";
  header_size = 28;
  chunked_size = 0;
}

read_request : parse request 16 (create HeaderRole.request) ≡ parsed read_header_of_request true
unfolding parse create search_position scan compare_at split parse_headers parse_ranges parse_range
    slice trim set_header compare string_to_header_type switch contains
read_request = refl

parse_complete_example :
    (true ≡ true)
    × IsDistinct read_header_of_request.headers
    × First crlf_crlf (drop 16 request) 16 (found (16 + 28))
parse_complete_example =
    parse_complete request 16 (create HeaderRole.request) read_header_of_request (omega arith)
      (omega arith) (omega arith) (unfold create in tt) read_request

abbrev host : HttpHeader
host = record read_header_of_request {
  headers = record { kind = HeaderType.host; name = codes "Host"; value = codes "a" } ∷ [];
}

has_host : has (codes "HOST") host.headers ≡ true
unfolding compare same_letters
has_host = refl

get_header-set_header_example :
    get_header (codes "date") (set_header (codes "Date") (codes "today") host) ≡ (
      if has (codes "date") host.headers
      then get_header (codes "date") host
      else if compare (codes "Date") (codes "date")
      then codes "today"
      else [])
get_header-set_header_example =
    get_header-set_header (codes "date") (codes "Date") (codes "today") host
