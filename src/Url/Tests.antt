-- ===== src/Url/Tests.antt =====
-- Addresses and their escapes at concrete texts.
use web_socket_cpp.Base.{
  List, ℕ, ◌+◌, ◌-◌, ◌*◌, ◌/◌, ◌%◌, ◌<◌, true, ◌&&◌, [], ◌∷◌, ◌++◌, Option, none, some, ◌≡◌, refl,
  arith, ByteArray, codes, leb, if◌then◌else◌,
}
use web_socket_cpp.Names.Hash.{switch}
use web_socket_cpp.Text.Compare
use web_socket_cpp.Text.Encode.{
  ℤ, StringToInt, string2int, hex_digit, url_encode, url_decode, Decoded, decoded, endless, fault,
  cut, decode_loop, replace_escape, encode_from, escape, int2hex, hex_digits, hex_loop,
  is_char_allowed, append_to, char_to_int, int_to_char,
}
use web_socket_cpp.Text.Encode
use web_socket_cpp.Text.Encode.RoundTrip.{ReadsHex, url_decode-url_encode}
use web_socket_cpp.Text.Encode.Endless.{decode_loop_endless}
use web_socket_cpp.Url.{
  lookup, Scheme, cleared, bind, parse, parse_scheme, parse_address, parse_authority, parse_host,
  parse_behind, parse_rest, parse_path, find_one_of, string2scheme, scheme2string, to_string,
  path_text, authority_text, query2string, append_pairs, is_default_port,
}
use web_socket_cpp.Url.Parts.{Parts, IsWellFormed, address}
use web_socket_cpp.Url.Pairs.{Pair, last_value, parsed, parse-Parts}

-- The value of a digit, and of a text of digits behind a number.
abbrev digit_value : ℕ → Option ℕ
digit_value c =
    if leb b'0' c && leb c b'9'
    then some (c - 48)
    else if leb b'A' c && leb c b'F'
    then some (c - 55)
    else none

abbrev digits_value : ByteArray → ℕ → ℕ → Option ℕ
digits_value [] base number = some number
digits_value (c ∷ str) base number = elim (digit_value c) [
  | none ↦ none
  | some d ↦ digits_value str base (number * base + d)
]

abbrev stoi : StringToInt
stoi str base = elim (digits_value str base 0) [ none ↦ none | some n ↦ some (Encode.pos n) ]

digit_value_hex : (d : ℕ) → d < 16 → digit_value (hex_digit d) ≡ some d
digit_value_hex d h = ground arith

digits_value_two :
    (high low : ℕ)
    → high < 16
    → low < 16
    → digits_value (hex_digit high ∷ hex_digit low ∷ []) 16 0 ≡ some (high * 16 + low)
digits_value_two high low h l =
    rw (digits_value, digit_value_hex high h)
      (rw (digits_value, digit_value_hex low l)
        (let zero_high : 0 * 16 + high ≡ high = omega arith in rw zero_high refl))

stoi-ReadsHex : ReadsHex stoi
stoi-ReadsHex byte h =
    let sum : byte / 16 * 16 + byte % 16 ≡ byte = omega arith in
    rw (stoi, digits_value_two (byte / 16) (byte % 16) (omega arith) (omega arith)) (rw sum refl)

url_decode-url_encode_example :
    (encoding : ByteArray) × (url_encode (codes "a b/c") ≡ some encoding)
    × (url_decode stoi encoding ≡ decoded (codes "a b/c"))
url_decode-url_encode_example =
    url_decode-url_encode stoi (codes "a b/c") stoi-ReadsHex (ground arith)

-- The character behind an encoded one is left as it is.
encoded_once : url_encode (codes "//") ≡ some (codes "%2F/")
unfolding url_encode encode_from escape int2hex hex_digits hex_loop is_char_allowed append_to
    char_to_int
encoded_once = refl

-- The padding of a byte from 128 on does not end.
encoded_never : url_encode (195 ∷ []) ≡ none
unfolding url_encode encode_from escape int2hex hex_digits hex_loop is_char_allowed append_to
    char_to_int
encoded_never = refl

-- What is decoded is decoded again.
decoded_twice : url_decode stoi (codes "%2541") ≡ decoded (codes "A")
unfolding url_decode decode_loop cut replace_escape string2int int_to_char
decoded_twice = refl

decoded_outside : url_decode stoi (codes "a%4") ≡ fault
unfolding url_decode decode_loop cut replace_escape string2int int_to_char
decoded_outside = refl

decode_loop_endless_example : decode_loop stoi 1000 [] (codes "a=" ++ codes "%zz") ≡ endless
decode_loop_endless_example =
    decode_loop_endless stoi (codes "a=") [] b'z' b'z' 1000 (ground arith)
      (unfold string2int in refl)

abbrev parts : Parts
parts = record {
  scheme = Scheme.wss;
  user = some (codes "me");
  host = codes "host";
  port = some (codes "8080", Encode.pos 8080);
  path = codes "p";
  query = some (codes "a=b&c=d&a=e");
  fragment = some (codes "end");
}

parts-IsWellFormed : IsWellFormed stoi parts
unfolding string2int
parts-IsWellFormed = record {
  scheme = λ h. absurd (ground (arith, h));
  user_at = ground arith;
  user_slash = ground arith;
  host = omega arith;
  host_at = ground arith;
  host_slash = ground arith;
  host_colon = ground arith;
  port = refl;
  port_at = ground arith;
  port_slash = ground arith;
  path_query = ground arith;
  path_fragment = ground arith;
  query_fragment = ground arith;
  fragment_query = λ h. absurd (ground (arith, h));
}

abbrev pairs : List Pair
pairs = (codes "a", codes "b") ∷ (codes "c", codes "d") ∷ (codes "a", codes "e") ∷ []

parse-Parts_example :
    (entries : List Pair) × (parse stoi true (address parts) cleared
      ≡ decoded (parsed parts entries, true))
    × ((name : ByteArray) → lookup name entries ≡ last_value name pairs [])
parse-Parts_example = parse-Parts stoi parts pairs cleared parts-IsWellFormed refl (ground arith)

-- The first `/` ends the authority also when it stands in the query.
slash_in_query :
    parse stoi true (codes "ws://h?x=/y") cleared
    ≡ decoded (
      record cleared {
        initialized = true;
        scheme = Scheme.ws;
        host = codes "h?x=";
        path = codes "/y";
        original_size = 11;
      },
      true,
    )
unfolding parse parse_scheme string2scheme switch Compare.lower parse_address find_one_of cut
    parse_authority parse_host parse_behind parse_rest parse_path bind cleared
slash_in_query = refl

-- The path of a text that is parsed and printed has one more slash.
printed_twice :
    to_string
      (λ _. [])
      true
      (record cleared { scheme = Scheme.ws; host = codes "h"; path = codes "/p" })
    ≡ some (codes "ws://h//p")
unfolding to_string path_text authority_text query2string append_pairs is_default_port scheme2string
    cleared
printed_twice = refl
