-- ===== src/Response/Tests.antt =====
-- An answer of a handshake at concrete bytes.
use web_socket_cpp.Base.{
  ℕ, true, [], ◌∷◌, ◌++◌, Option, none, some, ◌≡◌, refl, ByteArray, codes, length,
}
use web_socket_cpp.Text.Search.{search_position, scan, compare_at, split, split_loop, cons_range}
use web_socket_cpp.Text.Compare.{
  trim, ltrim, rtrim, contains, compare, same_letters, compare_bytes, same_bytes,
}
use web_socket_cpp.Text.Encode.{ℤ, StringToInt, string2int}
use web_socket_cpp.Text.Encode
use web_socket_cpp.Names.HeaderType
use web_socket_cpp.Names.Hash
use web_socket_cpp.HttpHeader
use web_socket_cpp.Response.{
  Response, Outcome, answered, create, parse, parse_line, parse_words, parse_code, parse_header,
  parse_body, append_phrase, int_to_code,
}
use web_socket_cpp.Response.Whole.{Whole, parse-Whole}

abbrev stoi : StringToInt
stoi _ _ = some (Encode.pos 101)

abbrev no_number : ByteArray → Option ℕ
no_number _ = none

abbrev same : ByteArray → ByteArray
same bytes = bytes

abbrev answer : ByteArray
answer = codes "HTTP/1.1 101 Switching Protocols\r\nUpgrade: websocket\r\n\r\n"

-- What the client reads of an outcome.
abbrev read_outcome : Outcome → Option (ℕ × ByteArray × ℕ)
read_outcome (answered res true) = some (res.code, res.phrase, res.response_size)
read_outcome _ = none

abbrev outcome_of : Outcome → Response
outcome_of (answered res b) = res
outcome_of _ = create []

read_alone :
    read_outcome (parse stoi same same no_number answer (create (codes "s")))
    ≡ some (101, codes "Switching Protocols", length answer)
unfolding parse create parse_line parse_words parse_code parse_header parse_body append_phrase
    int_to_code string2int search_position scan compare_at split split_loop cons_range trim ltrim
    rtrim contains HttpHeader.parse HttpHeader.finish HttpHeader.parse_headers
    HttpHeader.parse_ranges HttpHeader.parse_range HttpHeader.slice HttpHeader.set_header
    HttpHeader.set_entry HttpHeader.set_header_type HttpHeader.create HttpHeader.body_size
    HttpHeader.request_size HttpHeader.get_header_type HttpHeader.get_header HttpHeader.get_entry
    compare same_letters compare_bytes same_bytes HeaderType.header_type_to_string
    HeaderType.string_to_header_type Hash.switch
read_alone = refl

-- The first frame in the same read.
refused_with_frame :
    read_outcome (parse stoi same same no_number (answer ++ 0x81 ∷ 0 ∷ []) (create (codes "s")))
    ≡ none
unfolding parse create parse_line parse_words parse_code parse_header parse_body append_phrase
    int_to_code string2int search_position scan compare_at split split_loop cons_range trim ltrim
    rtrim contains HttpHeader.parse HttpHeader.finish HttpHeader.parse_headers
    HttpHeader.parse_ranges HttpHeader.parse_range HttpHeader.slice HttpHeader.set_header
    HttpHeader.set_entry HttpHeader.set_header_type HttpHeader.create HttpHeader.body_size
    HttpHeader.request_size HttpHeader.get_header_type HttpHeader.get_header HttpHeader.get_entry
    compare same_letters compare_bytes same_bytes HeaderType.header_type_to_string
    HeaderType.string_to_header_type Hash.switch
refused_with_frame = refl

parse-answer :
    parse stoi same same no_number answer (create (codes "s"))
    ≡ answered (outcome_of (parse stoi same same no_number answer (create (codes "s")))) true
unfolding parse create parse_line parse_words parse_code parse_header parse_body append_phrase
    int_to_code string2int search_position scan compare_at split split_loop cons_range trim ltrim
    rtrim contains HttpHeader.parse HttpHeader.finish HttpHeader.parse_headers
    HttpHeader.parse_ranges HttpHeader.parse_range HttpHeader.slice HttpHeader.set_header
    HttpHeader.set_entry HttpHeader.set_header_type HttpHeader.create HttpHeader.body_size
    HttpHeader.request_size HttpHeader.get_header_type HttpHeader.get_header HttpHeader.get_entry
    compare same_letters compare_bytes same_bytes HeaderType.header_type_to_string
    HeaderType.string_to_header_type Hash.switch
parse-answer = refl

parse-Whole_example : Whole stoi same same no_number answer (create (codes "s")).header
parse-Whole_example =
    parse-Whole stoi same same no_number answer (create (codes "s"))
      (outcome_of (parse stoi same same no_number answer (create (codes "s")))) parse-answer
