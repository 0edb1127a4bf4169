-- ===== src/Names/HeaderType/RoundTrip.antt =====
-- A header's type survives the way through its name.
use web_socket_cpp.Base.{◌≡◌, refl}
use web_socket_cpp.Names.Hash.{switch}
use web_socket_cpp.Names.HeaderType

-- The name that the program writes for a header type is read back as that type, for every type: no
-- two names of the tables share a hash.
header_type-name :
    (kind : HeaderType.HeaderType)
    → HeaderType.string_to_header_type (HeaderType.header_type_to_string kind) ≡ kind
unfolding HeaderType.string_to_header_type HeaderType.header_type_to_string switch
header_type-name HeaderType.undefined = refl
header_type-name HeaderType.accept = refl
header_type-name HeaderType.accept_charset = refl
header_type-name HeaderType.accept_encoding = refl
header_type-name HeaderType.accept_datetime = refl
header_type-name HeaderType.accept_language = refl
header_type-name HeaderType.authorization = refl
header_type-name HeaderType.cache_control = refl
header_type-name HeaderType.connection = refl
header_type-name HeaderType.content_encoding = refl
header_type-name HeaderType.content_length = refl
header_type-name HeaderType.content_md5 = refl
header_type-name HeaderType.content_type = refl
header_type-name HeaderType.cookie = refl
header_type-name HeaderType.date = refl
header_type-name HeaderType.expect = refl
header_type-name HeaderType.forwarded = refl
header_type-name HeaderType.from = refl
header_type-name HeaderType.host = refl
header_type-name HeaderType.http2_settings = refl
header_type-name HeaderType.if_match = refl
header_type-name HeaderType.if_modified_since = refl
header_type-name HeaderType.if_none_match = refl
header_type-name HeaderType.if_range = refl
header_type-name HeaderType.if_unmodified_since = refl
header_type-name HeaderType.max_forwards = refl
header_type-name HeaderType.origin = refl
header_type-name HeaderType.pragma = refl
header_type-name HeaderType.prefer = refl
header_type-name HeaderType.proxy_authorization = refl
header_type-name HeaderType.range = refl
header_type-name HeaderType.referer = refl
header_type-name HeaderType.te = refl
header_type-name HeaderType.trailer = refl
header_type-name HeaderType.transfer_encoding = refl
header_type-name HeaderType.user_agent = refl
header_type-name HeaderType.upgrade = refl
header_type-name HeaderType.via = refl
header_type-name HeaderType.warning = refl
header_type-name HeaderType.accept_ch = refl
header_type-name HeaderType.access_control_allow_origin = refl
header_type-name HeaderType.access_control_allow_credentials = refl
header_type-name HeaderType.access_control_expose_headers = refl
header_type-name HeaderType.access_control_max_age = refl
header_type-name HeaderType.access_control_allow_methods = refl
header_type-name HeaderType.access_control_allow_headers = refl
header_type-name HeaderType.accept_patch = refl
header_type-name HeaderType.accept_ranges = refl
header_type-name HeaderType.age = refl
header_type-name HeaderType.allow = refl
header_type-name HeaderType.alt_svc = refl
header_type-name HeaderType.content_disposition = refl
header_type-name HeaderType.content_language = refl
header_type-name HeaderType.content_location = refl
header_type-name HeaderType.content_range = refl
header_type-name HeaderType.delta_base = refl
header_type-name HeaderType.etag = refl
header_type-name HeaderType.expires = refl
header_type-name HeaderType.im = refl
header_type-name HeaderType.last_modified = refl
header_type-name HeaderType.link = refl
header_type-name HeaderType.location = refl
header_type-name HeaderType.p3p = refl
header_type-name HeaderType.preference_applied = refl
header_type-name HeaderType.proxy_authenticate = refl
header_type-name HeaderType.public_key_pins = refl
header_type-name HeaderType.retry_after = refl
header_type-name HeaderType.server = refl
header_type-name HeaderType.set_cookie = refl
header_type-name HeaderType.strict_transport_security = refl
header_type-name HeaderType.tk = refl
header_type-name HeaderType.vary = refl
header_type-name HeaderType.www_authenticate = refl
header_type-name HeaderType.x_frame_options = refl
