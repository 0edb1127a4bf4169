-- ===== src/Request/Tests.antt =====
-- A handshake request at concrete bytes.
use web_socket_cpp.Base.{
  ℕ, ◌+◌, ◌%◌, true, false, not, [], ◌∷◌, none, ◌≡◌, refl, arith, ◌==◌, codes, ByteArray, length,
  drop, size_mod,
}
use web_socket_cpp.Text.Compare.{compare, trim, contains}
use web_socket_cpp.Text.Search.{search_position, split, scan, compare_at, found}
use web_socket_cpp.Text.Search.First.{First}
use web_socket_cpp.Names.HeaderType.{string_to_header_type}
use web_socket_cpp.Names.HeaderType
use web_socket_cpp.Names.Method
use web_socket_cpp.Names.Method.{string_to_method}
use web_socket_cpp.Names.Hash.{switch}
use web_socket_cpp.HttpHeader
use web_socket_cpp.HttpHeader.{HttpHeader, crlf, crlf_crlf, slice}
use web_socket_cpp.HttpHeader.Entries.{IsDistinct}
use web_socket_cpp.Request.{
  UrlOps, Request, answered, parse, parse_request_line, parse_ranges, line_step, header_step,
  parse_parts, parse_address, is_undefined, get_request_size,
}
use web_socket_cpp.Request.Size.{parse-size}

abbrev text_url : UrlOps ByteArray
text_url = record {
  empty = [];
  parse_relative = λ _ address. address;
  is_initialized = λ u. not (length u == 0);
}

abbrev handshake : ByteArray
handshake = codes "GET / HTTP/1.1\r\nHost: a\r\n\r\nrest"

abbrev read_request : Request ByteArray
read_request = record {
  conn_id = 5;
  url = codes "/";
  header = record {
    role = HttpHeader.request;
    complete = true;
    headers = record { kind = HeaderType.host; name = codes "Host"; value = codes "a" } ∷ [];
    version = codes "HTTP/1.1";
    header_size = 7;
    chunked_size = 0;
  };
  method = Method.get;
  http_version = codes "HTTP/1.1";
  request_line_length = 14;
  args = [];
}

abbrev opened : Request ByteArray
opened = record read_request {
  url = [];
  header = record {
    role = HttpHeader.request;
    complete = false;
    headers = [];
    version = codes "HTTP/1.1";
    header_size = 0;
    chunked_size = 0;
  };
  method = Method.undefined;
  request_line_length = 0;
  args = [];
}

parse_handshake : parse text_url handshake opened ≡ answered read_request true
unfolding parse line_step header_step parse_request_line parse_ranges parse_parts parse_address
    is_undefined string_to_method search_position scan compare_at split HttpHeader.parse
    HttpHeader.parse_headers HttpHeader.parse_ranges HttpHeader.parse_range HttpHeader.finish slice
    trim HttpHeader.set_header compare string_to_header_type switch contains
parse_handshake = refl

parse-size_example :
    (start : ℕ) × (end : ℕ) × First crlf handshake 0 (found start)
    × First crlf_crlf (drop (start + 2) handshake) (start + 2) (found end)
    × (get_request_size (λ _. none) read_request
        ≡ (end + 4 + HttpHeader.body_size (λ _. none) read_request.header) % size_mod)
    × (true ≡ true)
    × IsDistinct read_request.header.headers
parse-size_example =
    parse-size text_url handshake (λ _. none) opened read_request refl refl tt (omega arith)
      (omega arith) parse_handshake
