-- ===== src/Request/Writing.antt =====
-- src/Request.cpp: the request that the client sends. What it uses of `Url` is an interface.
use web_socket_cpp.Base.{Bool, [], ◌++◌, ByteArray, codes, if◌then◌else◌}
use web_socket_cpp.Names.HeaderType.{HeaderType}
use web_socket_cpp.Names.Method.{Protocol, http, ws, method_to_string}
use web_socket_cpp.Text.Compare.{compare}
use web_socket_cpp.HttpHeader.{HttpHeader, crlf, set_header_type, get_header_type, to_byte_array}
use web_socket_cpp.Request.{Request}

pub record UrlText (U : Type 0) : Type 0 where
  pub host : U → ByteArray
  pub normalized_path : U → ByteArray
  pub has_query : U → Bool
  pub query_to_string : U → ByteArray

unfoldable pub get_protocol : {U : Type 0} → Request U → Protocol
get_protocol req =
    if compare (get_header_type HeaderType.upgrade req.header) (codes "websocket") then ws else http

-- The headers that `Send` adds, with the library's name, and with zlib or without.
unfoldable pub sent_header : ByteArray → Bool → ByteArray → HttpHeader → HttpHeader
sent_header library_name with_zlib host header =
    let added = set_header_type HeaderType.accept (codes "*/*") (
      set_header_type HeaderType.host host
        (set_header_type HeaderType.user_agent library_name header)) in
    if with_zlib
    then set_header_type HeaderType.accept_encoding (codes "gzip, deflate") added
    else added

module _ {U : Type 0} (url : UrlText U) where
  unfoldable pub build_request_line : Request U → ByteArray
  build_request_line req =
      method_to_string req.method
      ++ codes " "
      ++ url.normalized_path req.url
      ++ (if url.has_query req.url then codes "?" ++ url.query_to_string req.url else [])
      ++ codes " "
      ++ req.http_version
      ++ crlf

  unfoldable pub send :
      {W : Type 0}
      → ByteArray
      → Bool
      → (ByteArray → W → W × Bool)
      → Request U
      → W
      → Request U × W × Bool
  unfolding build_request_line sent_header
  send library_name with_zlib write_bytes req w =
      let header = sent_header library_name with_zlib (url.host req.url) req.header in
      let out = write_bytes (build_request_line req ++ to_byte_array header ++ crlf) w in
      (record req { header = header }, out.0, out.1)
