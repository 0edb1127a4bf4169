-- ===== src/Url/Parsing.antt =====
-- `Parse` of an address written out of its parts.
use web_socket_cpp.Base.{
  ◌<◌, Bool, true, false, ◌∷◌, ◌++◌, Option, none, some, ◌≡◌, ◌≢◌, refl, ap, ◌∙◌, arith, All,
  All-append, ByteArray, codes, length, ◌==◌,
}
use web_socket_cpp.Names.Hash.{switch}
use web_socket_cpp.Text.Compare.{lower}
use web_socket_cpp.Text.Encode.{ℤ, StringToInt, cut, Decoded, decoded, fault, endless}
use web_socket_cpp.Text.Encode.Cut.{IsOther, cut_at}
use web_socket_cpp.Url.{
  Url, Scheme, cleared, scheme2string, string2scheme, find_one_of, Parsed, bind, parse_query,
  parse_rest, parse_behind, parse_address, parse_scheme, parse,
}
use web_socket_cpp.Url.Parts.{
  Parts, IsWellFormed, after_scheme, address, fields, text_of, port_text, host_and_port,
  authority_of, path_of, with_user, with_port, with_fragment, port_of, parse_authority_parts,
  parse_path_parts,
}

scheme_colon : (scheme : Scheme) → All (IsOther b':') (scheme2string scheme)
unfolding scheme2string
scheme_colon Scheme.undefined = tt
scheme_colon Scheme.http = ground arith
scheme_colon Scheme.https = ground arith
scheme_colon Scheme.ws = ground arith
scheme_colon Scheme.wss = ground arith

scheme_name : (scheme : Scheme) → string2scheme (scheme2string scheme) ≡ scheme
unfolding string2scheme scheme2string switch lower
scheme_name Scheme.undefined = refl
scheme_name Scheme.http = refl
scheme_name Scheme.https = refl
scheme_name Scheme.ws = refl
scheme_name Scheme.wss = refl

bind-bind :
    {A B C : Type 0} (a : Decoded A) (f : A → Decoded B) (g : B → Decoded C)
    → bind (bind a f) g ≡ bind a (λ x. bind (f x) g)
unfolding bind
bind-bind (decoded a) f g = refl
bind-bind fault f g = refl
bind-bind endless f g = refl

authority_slash :
    (user : Option ByteArray) (host : ByteArray) (port : Option (ByteArray × ℤ))
    → All (IsOther b'/') (text_of user)
    → All (IsOther b'/') host
    → All (IsOther b'/') (port_text port)
    → All (IsOther b'/') (authority_of user (host_and_port host port))
authority_slash none host none u h p = h
authority_slash none host (some (number, value)) u h p =
    All-append (IsOther b'/') host (b':' ∷ number) h (ground arith, p)
authority_slash (some user) host none u h p =
    All-append (IsOther b'/') user (b'@' ∷ host) u (ground arith, h)
authority_slash (some user) host (some (number, value)) u h p =
    All-append (IsOther b'/') user (b'@' ∷ host ++ b':' ∷ number) u
      (ground arith, All-append (IsOther b'/') host (b':' ∷ number) h (ground arith, p))

host_at_sign :
    (host : ByteArray) (port : Option (ByteArray × ℤ))
    → All (IsOther b'@') host
    → All (IsOther b'@') (port_text port)
    → All (IsOther b'@') (host_and_port host port)
host_at_sign host none h p = h
host_at_sign host (some (number, value)) h p =
    All-append (IsOther b'@') host (b':' ∷ number) h (ground arith, p)

module _ (stoi : StringToInt) where
  parse_scheme_port :
      (scheme : Scheme) (text : ByteArray) (url : Url)
      → scheme ≢ Scheme.undefined
      → parse_scheme stoi scheme text url
        ≡ parse_address stoi text (record url { scheme = scheme; port = port_of scheme })
  unfolding parse_scheme
  parse_scheme_port Scheme.undefined text url h = absurd (h refl)
  parse_scheme_port Scheme.http text url h = refl
  parse_scheme_port Scheme.https text url h = refl
  parse_scheme_port Scheme.ws text url h = refl
  parse_scheme_port Scheme.wss text url h = refl

  -- What is left to say after the authority: the query, and the rest of the fields.
  abbrev pub finished : Parts → Url → Parsed
  finished parts url =
      bind (parse_query stoi (text_of parts.query) url)
        (λ u. decoded (record (with_fragment parts.fragment u) { initialized = true }, true))

  parse_rest_parts :
      (parts : Parts) (url : Url)
      → IsWellFormed stoi parts
      → parse_rest stoi (b'/' ∷ path_of parts) url
        ≡ finished parts (record url { path = b'/' ∷ parts.path })
  unfolding parse_rest bind
  parse_rest_parts parts url ok =
      ap (λ (out : Parsed). bind out (λ o. decoded (record o.0 { initialized = o.1 }, o.1)))
        (parse_path_parts stoi (b'/' ∷ parts.path) parts.query parts.fragment url
          (ground arith, ok.path_query) (ground arith, ok.path_fragment) ok.query_fragment
          ok.fragment_query)
      ∙ bind-bind (parse_query stoi (text_of parts.query) (record url { path = b'/' ∷ parts.path }))
          (λ u. decoded (with_fragment parts.fragment u, true))
          (λ (o : Url × Bool). decoded (record o.0 { initialized = o.1 }, o.1))

  host_kept : (port : Option (ByteArray × ℤ)) (url : Url) → (with_port port url).host ≡ url.host
  host_kept none url = refl
  host_kept (some (number, value)) url = refl

  parse_behind_host :
      (rest : ByteArray) (port : Option (ByteArray × ℤ)) (url : Url)
      → 0 < length url.host
      → parse_behind stoi rest (with_port port url, true)
        ≡ parse_rest stoi rest (with_port port url)
  unfolding parse_behind
  parse_behind_host rest port url h =
      let there : (length (with_port port url).host == 0) ≡ false =
        rw (host_kept port url) (ground arith) in
      rw there refl

  find_authority :
      (authority rest : ByteArray)
      → All (IsOther b'/') authority
      → find_one_of (authority ++ b'/' ∷ rest) (codes "/?#") ≡ some (authority, b'/' ∷ rest)
  unfolding find_one_of
  find_authority authority rest others = rw (find_one_of, cut_at b'/' authority rest others) refl

  parse_address_parts :
      (parts : Parts) (url : Url)
      → IsWellFormed stoi parts
      → parse_address stoi (after_scheme parts) url
        ≡ parse_rest stoi
            (b'/' ∷ path_of parts)
            (with_port parts.port (record (with_user parts.user url) { host = parts.host }))
  unfolding parse_address
  parse_address_parts parts url ok =
      let slash =
        authority_slash parts.user parts.host parts.port ok.user_slash ok.host_slash
          ok.port_slash in
      let at = host_at_sign parts.host parts.port ok.host_at ok.port_at in
      rw
        (find_authority (authority_of parts.user (host_and_port parts.host parts.port))
          (path_of parts) slash)
        (rw
          (parse_authority_parts stoi parts.user parts.host parts.port url ok.user_at at
            ok.host_colon ok.port)
          (parse_behind_host (b'/' ∷ path_of parts) parts.port
            (record (with_user parts.user url) { host = parts.host }) ok.host))

  parse_fields :
      (user : Option ByteArray) (host : ByteArray) (port : Option (ByteArray × ℤ))
      (path : ByteArray) (url : Url)
      → record (with_port port (record (with_user user url) { host = host })) { path = path }
        ≡ with_port port (with_user user (record url { host = host; path = path }))
  parse_fields none host none path url = refl
  parse_fields none host (some port) path url = refl
  parse_fields (some user) host none path url = refl
  parse_fields (some user) host (some port) path url = refl

  parse_full :
      (text scheme rest : ByteArray) (old : Url)
      → cut b':' text ≡ some (scheme, rest)
      → parse stoi true text old
        ≡ parse_scheme stoi
            (string2scheme scheme)
            rest
            (record cleared { original_size = length text })
  unfolding parse
  parse_full text scheme rest old e = rw (parse, e) refl

  pub parse-finished :
      (parts : Parts) (old : Url)
      → IsWellFormed stoi parts
      → parse stoi true (address parts) old ≡ finished parts (fields parts)
  parse-finished parts old ok =
      let url : Url = record cleared { original_size = length (address parts) } in
      parse_full (address parts) (scheme2string parts.scheme) (after_scheme parts) old
        (cut_at b':' (scheme2string parts.scheme) (after_scheme parts) (scheme_colon parts.scheme))
      ∙ ap (λ (s : Scheme). parse_scheme stoi s (after_scheme parts) url) (scheme_name parts.scheme)
      ∙ parse_scheme_port parts.scheme (after_scheme parts) url ok.scheme
      ∙ parse_address_parts parts _ ok
      ∙ parse_rest_parts parts _ ok
      ∙ ap (finished parts) (parse_fields parts.user parts.host parts.port _ _)
