-- ===== src/Names/HeaderType.antt =====
-- `Header::HeaderType` of include/Header.h and its two conversions in src/Header.cpp.
pub mod RoundTrip
use web_socket_cpp.Base.{List, [], ◌∷◌, ByteArray, codes}
use web_socket_cpp.Names.Hash.{switch}

pub data HeaderType : Type 0 where
  undefined : HeaderType
  accept : HeaderType
  accept_charset : HeaderType
  accept_encoding : HeaderType
  accept_datetime : HeaderType
  accept_language : HeaderType
  authorization : HeaderType
  cache_control : HeaderType
  connection : HeaderType
  content_encoding : HeaderType
  content_length : HeaderType
  content_md5 : HeaderType
  content_type : HeaderType
  cookie : HeaderType
  date : HeaderType
  expect : HeaderType
  forwarded : HeaderType
  from : HeaderType
  host : HeaderType
  http2_settings : HeaderType
  if_match : HeaderType
  if_modified_since : HeaderType
  if_none_match : HeaderType
  if_range : HeaderType
  if_unmodified_since : HeaderType
  max_forwards : HeaderType
  origin : HeaderType
  pragma : HeaderType
  prefer : HeaderType
  proxy_authorization : HeaderType
  range : HeaderType
  referer : HeaderType
  te : HeaderType
  trailer : HeaderType
  transfer_encoding : HeaderType
  user_agent : HeaderType
  upgrade : HeaderType
  via : HeaderType
  warning : HeaderType
  accept_ch : HeaderType
  access_control_allow_origin : HeaderType
  access_control_allow_credentials : HeaderType
  access_control_expose_headers : HeaderType
  access_control_max_age : HeaderType
  access_control_allow_methods : HeaderType
  access_control_allow_headers : HeaderType
  accept_patch : HeaderType
  accept_ranges : HeaderType
  age : HeaderType
  allow : HeaderType
  alt_svc : HeaderType
  content_disposition : HeaderType
  content_language : HeaderType
  content_location : HeaderType
  content_range : HeaderType
  delta_base : HeaderType
  etag : HeaderType
  expires : HeaderType
  im : HeaderType
  last_modified : HeaderType
  link : HeaderType
  location : HeaderType
  p3p : HeaderType
  preference_applied : HeaderType
  proxy_authenticate : HeaderType
  public_key_pins : HeaderType
  retry_after : HeaderType
  server : HeaderType
  set_cookie : HeaderType
  strict_transport_security : HeaderType
  tk : HeaderType
  vary : HeaderType
  www_authenticate : HeaderType
  x_frame_options : HeaderType

-- The `case` labels of the switch on a name's hash, in the order of the source.
abbrev pub header_labels : List (ByteArray × HeaderType)
header_labels =
    (codes "Accept", accept)
    ∷ (codes "Accept-Charset", accept_charset)
    ∷ (codes "Accept-Encoding", accept_encoding)
    ∷ (codes "Accept-Datetime", accept_datetime)
    ∷ (codes "Accept-Language", accept_language)
    ∷ (codes "Authorization", authorization)
    ∷ (codes "Cache-Control", cache_control)
    ∷ (codes "Connection", connection)
    ∷ (codes "Content-Encoding", content_encoding)
    ∷ (codes "Content-Length", content_length)
    ∷ (codes "Content-MD5", content_md5)
    ∷ (codes "Content-Type", content_type)
    ∷ (codes "Cookie", cookie)
    ∷ (codes "Date", date)
    ∷ (codes "Expect", expect)
    ∷ (codes "Forwarded", forwarded)
    ∷ (codes "From", from)
    ∷ (codes "HTTP2-Settings", http2_settings)
    ∷ (codes "Host", host)
    ∷ (codes "If-Match", if_match)
    ∷ (codes "If-Modified-Since", if_modified_since)
    ∷ (codes "If-None-Match", if_none_match)
    ∷ (codes "If-Range", if_range)
    ∷ (codes "If-Unmodified-Since", if_unmodified_since)
    ∷ (codes "Max-Forwards", max_forwards)
    ∷ (codes "Origin", origin)
    ∷ (codes "Pragma", pragma)
    ∷ (codes "Prefer", prefer)
    ∷ (codes "Proxy-Authorization", proxy_authorization)
    ∷ (codes "Range", range)
    ∷ (codes "Referer", referer)
    ∷ (codes "TE", te)
    ∷ (codes "Trailer", trailer)
    ∷ (codes "TransferEncoding", transfer_encoding)
    ∷ (codes "User-Agent", user_agent)
    ∷ (codes "Upgrade", upgrade)
    ∷ (codes "Via", via)
    ∷ (codes "Warning", warning)
    ∷ (codes "Accept-CH", accept_ch)
    ∷ (codes "Access-Control-Allow-Origin", access_control_allow_origin)
    ∷ (codes "Access-Control-Allow-Credential", access_control_allow_credentials)
    ∷ (codes "Access-Control-Expose-Headers", access_control_expose_headers)
    ∷ (codes "Access-Control-Max-Age", access_control_max_age)
    ∷ (codes "Access-Control-Allow-Methods", access_control_allow_methods)
    ∷ (codes "Access-Control-Allow-Headers", access_control_allow_headers)
    ∷ (codes "Accept-Patch", accept_patch)
    ∷ (codes "Accept-Ranges", accept_ranges)
    ∷ (codes "Age", age)
    ∷ (codes "Allow", allow)
    ∷ (codes "Alt-Svc", alt_svc)
    ∷ (codes "Content-Disposition", content_disposition)
    ∷ (codes "Content-Language", content_language)
    ∷ (codes "Content-Location", content_location)
    ∷ (codes "Content-Range", content_range)
    ∷ (codes "Delta-Base", delta_base)
    ∷ (codes "ETag", etag)
    ∷ (codes "Expires", expires)
    ∷ (codes "IM", im)
    ∷ (codes "Last-Modified", last_modified)
    ∷ (codes "Link", link)
    ∷ (codes "Location", location)
    ∷ (codes "P3P", p3p)
    ∷ (codes "Preference-Applied", preference_applied)
    ∷ (codes "Proxy-Authenticate", proxy_authenticate)
    ∷ (codes "Public-Key-Pins", public_key_pins)
    ∷ (codes "Retry-After", retry_after)
    ∷ (codes "Server", server)
    ∷ (codes "Set-Cookie", set_cookie)
    ∷ (codes "Strict-Transport-Security", strict_transport_security)
    ∷ (codes "Transfer-Encoding", transfer_encoding)
    ∷ (codes "Tk", tk)
    ∷ (codes "Vary", vary)
    ∷ (codes "WWW-Authenticate", www_authenticate)
    ∷ (codes "X-Frame-Options", x_frame_options)
    ∷ []

unfoldable pub string_to_header_type : ByteArray → HeaderType
string_to_header_type str = switch str header_labels undefined

unfoldable pub header_type_to_string : HeaderType → ByteArray
header_type_to_string undefined = codes ""
header_type_to_string accept = codes "Accept"
header_type_to_string accept_charset = codes "Accept-Charset"
header_type_to_string accept_encoding = codes "Accept-Encoding"
header_type_to_string accept_datetime = codes "Accept-Datetime"
header_type_to_string accept_language = codes "Accept-Language"
header_type_to_string authorization = codes "Authorization"
header_type_to_string cache_control = codes "Cache-Control"
header_type_to_string connection = codes "Connection"
header_type_to_string content_encoding = codes "Content-Encoding"
header_type_to_string content_length = codes "Content-Length"
header_type_to_string content_md5 = codes "Content-MD5"
header_type_to_string content_type = codes "Content-Type"
header_type_to_string cookie = codes "Cookie"
header_type_to_string date = codes "Date"
header_type_to_string expect = codes "Expect"
header_type_to_string forwarded = codes "Forwarded"
header_type_to_string from = codes "From"
header_type_to_string host = codes "Host"
header_type_to_string http2_settings = codes "HTTP2-Settings"
header_type_to_string if_match = codes "If-Match"
header_type_to_string if_modified_since = codes "If-Modified-Since"
header_type_to_string if_none_match = codes "If-None-Match"
header_type_to_string if_range = codes "If-Range"
header_type_to_string if_unmodified_since = codes "If-Unmodified-Since"
header_type_to_string max_forwards = codes "Max-Forwards"
header_type_to_string origin = codes "Origin"
header_type_to_string pragma = codes "Pragma"
header_type_to_string prefer = codes "Prefer"
header_type_to_string proxy_authorization = codes "Proxy-Authorization"
header_type_to_string range = codes "Range"
header_type_to_string referer = codes "Referer"
header_type_to_string te = codes "TE"
header_type_to_string trailer = codes "Trailer"
header_type_to_string transfer_encoding = codes "Transfer-Encoding"
header_type_to_string user_agent = codes "User-Agent"
header_type_to_string upgrade = codes "Upgrade"
header_type_to_string via = codes "Via"
header_type_to_string warning = codes "Warning"
header_type_to_string accept_ch = codes "Accept-CH"
header_type_to_string access_control_allow_origin = codes "Access-Control-Allow-Origin"
header_type_to_string access_control_allow_credentials = codes "Access-Control-Allow-Credential"
header_type_to_string access_control_expose_headers = codes "Access-Control-Expose-Headers"
header_type_to_string access_control_max_age = codes "Access-Control-Max-Age"
header_type_to_string access_control_allow_methods = codes "Access-Control-Allow-Methods"
header_type_to_string access_control_allow_headers = codes "Access-Control-Allow-Headers"
header_type_to_string accept_patch = codes "Accept-Patch"
header_type_to_string accept_ranges = codes "Accept-Ranges"
header_type_to_string age = codes "Age"
header_type_to_string allow = codes "Allow"
header_type_to_string alt_svc = codes "Alt-Svc"
header_type_to_string content_disposition = codes "Content-Disposition"
header_type_to_string content_language = codes "Content-Language"
header_type_to_string content_location = codes "Content-Location"
header_type_to_string content_range = codes "Content-Range"
header_type_to_string delta_base = codes "Delta-Base"
header_type_to_string etag = codes "ETag"
header_type_to_string expires = codes "Expires"
header_type_to_string im = codes "IM"
header_type_to_string last_modified = codes "Last-Modified"
header_type_to_string link = codes "Link"
header_type_to_string location = codes "Location"
header_type_to_string p3p = codes "P3P"
header_type_to_string preference_applied = codes "Preference-Applied"
header_type_to_string proxy_authenticate = codes "Proxy-Authenticate"
header_type_to_string public_key_pins = codes "Public-Key-Pins"
header_type_to_string retry_after = codes "Retry-After"
header_type_to_string server = codes "Server"
header_type_to_string set_cookie = codes "Set-Cookie"
header_type_to_string strict_transport_security = codes "Strict-Transport-Security"
header_type_to_string tk = codes "Tk"
header_type_to_string vary = codes "Vary"
header_type_to_string www_authenticate = codes "WWW-Authenticate"
header_type_to_string x_frame_options = codes "X-Frame-Options"
