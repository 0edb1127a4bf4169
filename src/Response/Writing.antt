-- ===== src/Response/Writing.antt =====
-- src/Response.cpp: the answer as the server builds it and sends it. `std::to_string` is a parameter;
-- answers with a file are left out.
use web_socket_cpp.Base.{
  ℕ, Bool, true, false, not, List, [], ◌∷◌, ◌++◌, ByteArray, codes, length, drop, ◌==◌,
  if◌then◌else◌,
}
use web_socket_cpp.Names.HeaderType.{HeaderType}
use web_socket_cpp.HttpHeader.{crlf, set_header, set_header_type, to_byte_array}
use web_socket_cpp.Response.{Response}

abbrev pub code_names : List (ℕ × ByteArray)
code_names =
    (100, codes "Continue")
    ∷ (101, codes "Switching Protocols")
    ∷ (200, codes "OK")
    ∷ (201, codes "Created")
    ∷ (202, codes "Accepted")
    ∷ (203, codes "Non-Authoritative Information")
    ∷ (204, codes "No Content")
    ∷ (205, codes "Reset Content")
    ∷ (206, codes "Partial Content")
    ∷ (300, codes "Multiple Choices")
    ∷ (301, codes "Moved Permanently")
    ∷ (302, codes "Found")
    ∷ (303, codes "See Other")
    ∷ (304, codes "Not Modified")
    ∷ (305, codes "Use Proxy")
    ∷ (307, codes "Temporary Redirect")
    ∷ (400, codes "Bad Request")
    ∷ (401, codes "Unauthorized")
    ∷ (402, codes "Payment Required")
    ∷ (403, codes "Forbidden")
    ∷ (404, codes "Not Found")
    ∷ (405, codes "Method Not Allowed")
    ∷ (407, codes "Proxy Authentication Required")
    ∷ (408, codes "Request Time-out")
    ∷ (409, codes "Conflict")
    ∷ (410, codes "Gone")
    ∷ (411, codes "Length Required")
    ∷ (412, codes "Precondition Failed")
    ∷ (413, codes "Request Entity Too Large")
    ∷ (414, codes "Request-URI Too Large")
    ∷ (415, codes "Unsupported Media Type")
    ∷ (416, codes "Requested range not satisfiable")
    ∷ (417, codes "Expectation Failed")
    ∷ (500, codes "Internal Server Error")
    ∷ (501, codes "Not Implemented")
    ∷ (502, codes "Bad Gateway")
    ∷ (503, codes "Service Unavailable")
    ∷ (504, codes "Gateway Time-out")
    ∷ (505, codes "HTTP Version not supported")
    ∷ []

unfoldable pub find_name : ℕ → List (ℕ × ByteArray) → ByteArray
find_name code [] = []
find_name code ((known, name) ∷ names) = if code == known then name else find_name code names

unfoldable pub response_code_to_string : ℕ → ByteArray
unfolding find_name
response_code_to_string code = find_name code code_names

unfoldable pub set_response_code : ℕ → Response → Response
unfolding response_code_to_string
set_response_code code res = record res { code = code; phrase = response_code_to_string code }

unfoldable pub add_header : ByteArray → ByteArray → Response → Response
add_header name value res = record res { header = set_header name value res.header }

unfoldable pub add_header_type : HeaderType → ByteArray → Response → Response
add_header_type kind value res = record res { header = set_header_type kind value res.header }

unfoldable pub not_found : Response → Response
unfolding set_response_code add_header_type
not_found res = add_header_type HeaderType.content_length (codes "0") (set_response_code 404 res)

unfoldable pub redirect : ByteArray → Response → Response
unfolding set_response_code add_header_type
redirect url res =
    add_header_type HeaderType.content_length (codes "0")
      (add_header_type HeaderType.location url (set_response_code 301 res))

unfoldable pub unauthorized : Response → Response
unfolding set_response_code add_header_type
unauthorized res = add_header_type HeaderType.content_length (codes "0") (set_response_code 401 res)

module _ (number_text : ℕ → ByteArray) where
  -- `Write` of bytes from a position that they have.
  unfoldable pub write : ByteArray → ℕ → Response → Response
  unfolding add_header_type
  write bytes start res =
      let body = res.body ++ drop start bytes in
      add_header_type HeaderType.content_length (number_text (length body))
        (record res { body = body })

  unfoldable pub build_status_line : Response → ByteArray
  build_status_line res =
      res.version ++ codes " " ++ number_text res.code ++ codes " " ++ res.phrase ++ crlf

  -- The first part of `Send`.
  unfoldable pub header_part : Response → ByteArray
  unfolding build_status_line
  header_part res = build_status_line res ++ to_byte_array res.header ++ crlf

  -- `Send` with what writing does to the state and returns.
  unfoldable pub send : {W : Type 0} → (ByteArray → W → W × Bool) → Response → W → W × Bool
  unfolding header_part
  send write_bytes res w =
      let head = write_bytes (header_part res) w in
      if not head.1
      then (head.0, false)
      else if length res.body == 0
      then (head.0, true)
      else write_bytes res.body head.0
