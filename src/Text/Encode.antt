-- ===== src/Text/Encode.antt =====
-- `UrlEncode`, `UrlDecode`, `Int2Hex` and `IsCharAllowed` of src/utils/StringUtil.cpp. `std::stoi` is a
-- parameter: it takes a text and a base.
pub mod Cut
pub mod RoundTrip
pub mod Endless
use web_socket_cpp.Base.{
  ℕ, zero, suc, ◌+◌, ◌-◌, ◌%◌, ◌/◌, Bool, false, not, ◌&&◌, ◌||◌, [], ◌∷◌, ◌++◌, map, Option, none,
  some, ByteArray, codes, length, ltb, leb, ◌==◌, if◌then◌else◌,
}

-- An `int`.
pub data ℤ : Type 0 where
  pos negsuc : ℕ → ℤ

abbrev pub StringToInt : Type 0
StringToInt = ByteArray → ℕ → Option ℤ

-- `String2int`
unfoldable pub string2int : StringToInt → ByteArray → ℕ → Option ℤ
string2int stoi [] base = none
string2int stoi (c ∷ str) base = stoi (c ∷ str) base

unfoldable pub is_char_allowed : ℕ → Bool
is_char_allowed ch =
    leb b'a' ch && leb ch b'z'
    || leb b'A' ch && leb ch b'Z'
    || leb b'0' ch && leb ch b'9'
    || ch == b'-'
    || ch == b'_'
    || ch == b'.'
    || ch == b'~'

abbrev pub hex_digit : ℕ → ℕ
hex_digit d = if ltb d 10 then 48 + d else 55 + d

-- The `do` loop of `Int2Hex` for a number that is not negative, with a round for every digit.
unfoldable pub hex_loop : ℕ → ℕ → ByteArray → ByteArray
hex_loop zero number digits = digits
hex_loop (suc rounds) number digits =
    let next = hex_digit (number % 16) ∷ digits in
    let more = hex_loop rounds (number / 16) next in if number / 16 == 0 then next else more

-- All digits of an `int`; a negative number is still negative behind the shift, so its loop ends after
-- one round.
unfoldable pub hex_digits : ℤ → ByteArray
unfolding hex_loop
hex_digits (pos number) = hex_loop 8 number []
hex_digits (negsuc number) = hex_digit (15 - number % 16) ∷ []

-- `Int2Hex`: the padding has `retval.size() - len` rounds, which wraps round when the digits are too
-- few. None stands for its rounds of nearly `2 ^ 64`, which no memory holds.
unfoldable pub int2hex : ℤ → ℕ → ByteArray → Option ByteArray
unfolding hex_digits
int2hex number len prefix =
    if ltb (length (hex_digits number)) len then none else some (prefix ++ hex_digits number)

-- A byte as the `int` of a signed `char`, and back.
unfoldable pub char_to_int : ℕ → ℤ
char_to_int byte = if ltb byte 128 then pos byte else negsuc (255 - byte)

unfoldable pub int_to_char : ℤ → ℕ
int_to_char (pos n) = n % 256
int_to_char (negsuc n) = 255 - n % 256

unfoldable pub escape : ℕ → Option ByteArray
unfolding int2hex char_to_int
escape ch = int2hex (char_to_int ch) 2 (codes "%")

unfoldable pub append_to : Option ByteArray → Option ByteArray → Option ByteArray
append_to (some first) (some rest) = some (first ++ rest)
append_to _ _ = none

-- The loop of `UrlEncode`; behind an escape `i` passes over one more character.
unfoldable pub encode_from : Bool → ByteArray → Option ByteArray
unfolding append_to escape is_char_allowed
encode_from passes [] = some []
encode_from passes (ch ∷ str) =
    let kept = passes || is_char_allowed ch in
    let rest = encode_from (not kept) str in
    append_to (if kept then some (ch ∷ []) else escape ch) rest

unfoldable pub url_encode : ByteArray → Option ByteArray
unfolding encode_from
url_encode str = encode_from false str

-- `find` of a character, with the text before it and the text behind it.
unfoldable pub cut : ℕ → ByteArray → Option (ByteArray × ByteArray)
cut ch [] = none
cut ch (c ∷ str) =
    if c == ch
    then some ([], str)
    else elim (cut ch str) [ none ↦ none | some (before, after) ↦ some (c ∷ before, after) ]

-- What a routine with a decoding gives: a value, a read behind the end of a text, or a loop that has
-- more rounds than its fuel.
pub data Decoded {ℓ} (A : Type ℓ) : Type ℓ where
  decoded : A → Decoded A
  fault endless : Decoded A

abbrev pub plus_to_space : ℕ → ℕ
plus_to_space ch = if ch == b'+' then b' ' else ch

-- The text from `from` on, where an escape whose number is read gives way to one character and is
-- looked at again from that character on; one whose number is not read stays, and so does `from`.
unfoldable pub replace_escape : StringToInt → ByteArray → Option ByteArray
unfolding string2int int_to_char
replace_escape stoi (high ∷ low ∷ rest) = elim (string2int stoi (high ∷ low ∷ []) 16) [
  | none ↦ some (b'%' ∷ high ∷ low ∷ rest)
  | some number ↦ some (int_to_char number ∷ rest)
]
replace_escape stoi _ = none

-- The loop of `UrlDecode`, with the text before `from` and the text from there on.
unfoldable pub decode_loop : StringToInt → ℕ → ByteArray → ByteArray → Decoded ByteArray
unfolding cut replace_escape
decode_loop stoi zero front str = endless
decode_loop stoi (suc fuel) front str = elim (cut b'%' str) [
  | none ↦ decoded (map plus_to_space (front ++ str))
  | some (before, after) ↦ elim (replace_escape stoi after) [
    | none ↦ fault
    | some next ↦ decode_loop stoi fuel (front ++ before) next
  ]
]

-- Every round with an escape that is read makes the text shorter.
unfoldable pub url_decode : StringToInt → ByteArray → Decoded ByteArray
unfolding decode_loop
url_decode stoi str = decode_loop stoi (suc (length str)) [] str
