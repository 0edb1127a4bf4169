-- ===== src/Url/Parts.antt =====
-- An address written out of its parts, and what `Parse` makes of it.
use web_socket_cpp.Base.{
  ◌<◌, true, [], ◌∷◌, ◌++◌, Option, none, some, ◌≡◌, ◌≢◌, refl, arith, append-nil, All, All-append,
  ByteArray, length,
}
use web_socket_cpp.Text.Encode.{ℤ, StringToInt, string2int, decoded}
use web_socket_cpp.Text.Encode.Cut.{IsOther, cut_at, cut_missing}
use web_socket_cpp.Url.{
  Url, Scheme, cleared, default_port, default_secured_port, scheme2string, string2scheme,
  find_one_of, Parsed, bind, parse_query, parse_after_path, parse_path, parse_host, parse_authority,
  parse_rest, parse_behind, parse_address, parse_scheme, parse,
}
use web_socket_cpp.Url

pub record Parts : Type 0 where
  pub scheme : Scheme
  pub user : Option ByteArray
  pub host : ByteArray
  pub port : Option (ByteArray × ℤ)
  pub path : ByteArray
  pub query : Option ByteArray
  pub fragment : Option ByteArray

abbrev pub text_of : Option ByteArray → ByteArray
text_of none = []
text_of (some str) = str

abbrev pub port_text : Option (ByteArray × ℤ) → ByteArray
port_text none = []
port_text (some (number, value)) = number

-- `std::stoi` reads a port that there is.
abbrev pub IsNumber : StringToInt → Option (ByteArray × ℤ) → Type 0
IsNumber stoi none = Unit
IsNumber stoi (some (number, value)) = string2int stoi number 10 ≡ some value

-- The parts do not hold the characters that end them, and a port is a number.
pub record IsWellFormed (stoi : StringToInt) (parts : Parts) : Type 0 where
  pub scheme : parts.scheme ≢ Scheme.undefined
  pub user_at : All (IsOther b'@') (text_of parts.user)
  pub user_slash : All (IsOther b'/') (text_of parts.user)
  pub host : 0 < length parts.host
  pub host_at : All (IsOther b'@') parts.host
  pub host_slash : All (IsOther b'/') parts.host
  pub host_colon : All (IsOther b':') parts.host
  pub port : IsNumber stoi parts.port
  pub port_at : All (IsOther b'@') (port_text parts.port)
  pub port_slash : All (IsOther b'/') (port_text parts.port)
  pub path_query : All (IsOther b'?') parts.path
  pub path_fragment : All (IsOther b'#') parts.path
  pub query_fragment : All (IsOther b'#') (text_of parts.query)
  pub fragment_query : parts.query ≡ none → All (IsOther b'?') (text_of parts.fragment)

abbrev pub host_and_port : ByteArray → Option (ByteArray × ℤ) → ByteArray
host_and_port host none = host
host_and_port host (some (number, value)) = host ++ b':' ∷ number

abbrev pub authority_of : Option ByteArray → ByteArray → ByteArray
authority_of none text = text
authority_of (some user) text = user ++ b'@' ∷ text

abbrev pub fragment_of : Option ByteArray → ByteArray
fragment_of none = []
fragment_of (some fragment) = b'#' ∷ fragment

abbrev pub query_of : Option ByteArray → ByteArray → ByteArray
query_of none text = text
query_of (some query) text = b'?' ∷ query ++ text

abbrev pub path_of : Parts → ByteArray
path_of parts = parts.path ++ query_of parts.query (fragment_of parts.fragment)

abbrev pub after_scheme : Parts → ByteArray
after_scheme parts =
    b'/'
    ∷ b'/'
    ∷ (authority_of parts.user (host_and_port parts.host parts.port) ++ b'/' ∷ path_of parts)

abbrev pub address : Parts → ByteArray
address parts = scheme2string parts.scheme ++ b':' ∷ after_scheme parts

abbrev pub with_user : Option ByteArray → Url → Url
with_user none url = url
with_user (some user) url = record url { user = user }

abbrev pub with_port : Option (ByteArray × ℤ) → Url → Url
with_port none url = url
with_port (some (number, value)) url = record url { port = value }

abbrev pub with_fragment : Option ByteArray → Url → Url
with_fragment none url = url
with_fragment (some fragment) url = record url { fragment = fragment }

abbrev pub port_of : Scheme → ℤ
port_of Scheme.https = default_secured_port
port_of Scheme.wss = default_secured_port
port_of _ = default_port

-- The fields that the parts say, before the query is read.
abbrev pub fields : Parts → Url
fields parts = with_port parts.port (
    with_user parts.user (record cleared {
      scheme = parts.scheme;
      host = parts.host;
      port = port_of parts.scheme;
      path = b'/' ∷ parts.path;
      original_size = length (address parts);
    }))

module _ (stoi : StringToInt) where
  parse_host_parts :
      (host : ByteArray) (port : Option (ByteArray × ℤ)) (url : Url)
      → All (IsOther b':') host
      → IsNumber stoi port
      → parse_host stoi (host_and_port host port) url
        ≡ (with_port port (record url { host = host }), true)
  unfolding parse_host
  parse_host_parts host none url colon reads = rw (parse_host, cut_missing b':' host colon) refl
  parse_host_parts host (some (number, value)) url colon reads =
      rw (parse_host, cut_at b':' host number colon, reads) refl

  pub parse_authority_parts :
      (user : Option ByteArray) (host : ByteArray) (port : Option (ByteArray × ℤ)) (url : Url)
      → All (IsOther b'@') (text_of user)
      → All (IsOther b'@') (host_and_port host port)
      → All (IsOther b':') host
      → IsNumber stoi port
      → parse_authority stoi (authority_of user (host_and_port host port)) url
        ≡ (with_port port (record (with_user user url) { host = host }), true)
  unfolding parse_authority
  parse_authority_parts none host port url _ at colon reads =
      rw (parse_authority, cut_missing b'@' (host_and_port host port) at)
        (parse_host_parts host port url colon reads)
  parse_authority_parts (some user) host port url user_at at colon reads =
      rw (parse_authority, cut_at b'@' user (host_and_port host port) user_at)
        (parse_host_parts host port (record url { user = user }) colon reads)

  abbrev pub with_query : Option ByteArray → Option ByteArray → Url → Parsed
  with_query query fragment url =
      bind (parse_query stoi (text_of query) url) (λ u. decoded (with_fragment fragment u, true))

  parse_after_path_parts :
      (query : ByteArray) (fragment : Option ByteArray) (url : Url)
      → All (IsOther b'#') query
      → parse_after_path stoi (query ++ fragment_of fragment) url
        ≡ with_query (some query) fragment url
  unfolding parse_after_path
  parse_after_path_parts query none url others =
      rw (append-nil query) (rw (parse_after_path, cut_missing b'#' query others) refl)
  parse_after_path_parts query (some fragment) url others =
      rw (parse_after_path, cut_at b'#' query fragment others) refl

  pub parse_path_parts :
      (path : ByteArray) (query fragment : Option ByteArray) (url : Url)
      → All (IsOther b'?') path
      → All (IsOther b'#') path
      → All (IsOther b'#') (text_of query)
      → (query ≡ none → All (IsOther b'?') (text_of fragment))
      → parse_path stoi (path ++ query_of query (fragment_of fragment)) url
        ≡ with_query query fragment (record url { path = path })
  unfolding parse_path parse_query Url.split_text Url.add_pairs bind
  parse_path_parts path none none url no_query no_fragment _ _ =
      rw (append-nil path)
        (rw (parse_path, cut_missing b'?' path no_query, cut_missing b'#' path no_fragment) refl)
  parse_path_parts path none (some fragment) url no_query no_fragment _ other =
      rw
        (
          parse_path,
          cut_missing b'?' (path ++ b'#' ∷ fragment) (
              All-append (IsOther b'?') path (b'#' ∷ fragment) no_query (ground arith, other refl)),
          cut_at b'#' path fragment no_fragment,
        )
        refl
  parse_path_parts path (some query) fragment url no_query _ others _ =
      rw (parse_path, cut_at b'?' path (query ++ fragment_of fragment) no_query)
        (parse_after_path_parts query fragment (record url { path = path }) others)
