-- ===== src/Base64.antt =====
-- `Data::Base64Encode` and `Data::Base64Decode` of src/utils/Data.cpp. The loops fill an array of three or
-- four characters and empty it when it is full: here each round takes three or four bytes at once,
-- and what is left at the end is the part behind the loop.
pub mod Digits
pub mod RoundTrip
mod Tests
use Prim.Native.Nat.{bit_and}
use web_socket_cpp.Base.{
  ℕ, ◌+◌, ◌*◌, ◌/◌, ◌%◌, Bool, not, ◌&&◌, ◌||◌, [], ◌∷◌, ByteArray, codes, Option, none, some, ◌^◌,
  length, take, ltb, get_or, leb, ◌==◌, if◌then◌else◌,
}

abbrev pub base64_chars : ByteArray
base64_chars = codes "ABCDEFGHIJKLMNOPQRSTUVWXYZabcdefghijklmnopqrstuvwxyz0123456789+/"

unfoldable pub is_base64 : ℕ → Bool
is_base64 c =
    (leb b'A' c && leb c b'Z')
    || (leb b'a' c && leb c b'z')
    || (leb b'0' c && leb c b'9')
    || c == b'+'
    || c == b'/'

-- `base64_chars[i]`
unfoldable pub digit : ℕ → ℕ
digit i = get_or base64_chars i 0

-- `base64_chars.find(c)` in an `unsigned char`, from a position on: 255 for `npos`.
unfoldable pub find_from : ByteArray → ℕ → ℕ → ℕ
find_from [] i c = 255
find_from (d ∷ chars) i c = if d == c then i else find_from chars (i + 1) c

unfoldable pub find : ℕ → ℕ
unfolding find_from
find c = find_from base64_chars 0 c

-- The four values of three bytes.
unfoldable pub first_six : ℕ → ℕ
first_six a = bit_and a 0xfc / 4

unfoldable pub second_six : ℕ → ℕ → ℕ
second_six a b = (bit_and a 0x03 * 16 + bit_and b 0xf0 / 16) % 256

unfoldable pub third_six : ℕ → ℕ → ℕ
third_six b c = (bit_and b 0x0f * 4 + bit_and c 0xc0 / 64) % 256

unfoldable pub fourth_six : ℕ → ℕ
fourth_six c = bit_and c 0x3f

unfoldable pub encode : ByteArray → ByteArray
encode (a ∷ b ∷ c ∷ rest) =
    digit (first_six a)
    ∷ digit (second_six a b)
    ∷ digit (third_six b c)
    ∷ digit (fourth_six c)
    ∷ encode rest
encode (a ∷ b ∷ []) =
    digit (first_six a) ∷ digit (second_six a b) ∷ digit (third_six b 0) ∷ b'=' ∷ []
encode (a ∷ []) = digit (first_six a) ∷ digit (second_six a 0) ∷ b'=' ∷ b'=' ∷ []
encode [] = []

-- The three bytes of four values.
unfoldable pub first_byte : ℕ → ℕ → ℕ
first_byte w x = (w * 4 + bit_and x 0x30 / 16) % 256

unfoldable pub second_byte : ℕ → ℕ → ℕ
second_byte x y = (bit_and x 0x0f * 16 + bit_and y 0x3c / 4) % 256

unfoldable pub third_byte : ℕ → ℕ → ℕ
third_byte y z = (bit_and y 0x03 * 64 + z) % 256

-- The characters that the loop reads: it stops at the first that is no digit, `=` included.
unfoldable pub digits : ByteArray → ByteArray
digits [] = []
digits (c ∷ text) =
    let rest = digits text in if not (c == b'=') && is_base64 c then c ∷ rest else []

unfoldable pub decode_digits : ByteArray → ByteArray
decode_digits (w ∷ x ∷ y ∷ z ∷ rest) =
    first_byte (find w) (find x)
    ∷ second_byte (find x) (find y)
    ∷ third_byte (find y) (find z)
    ∷ decode_digits rest
decode_digits (w ∷ x ∷ y ∷ []) = first_byte (find w) (find x) ∷ second_byte (find x) (find y) ∷ []
decode_digits (w ∷ x ∷ []) = first_byte (find w) (find x) ∷ []
decode_digits (w ∷ []) = []
decode_digits [] = []

-- `in_len` is an `int`, so it is the length modulo 2^32, negative from 2^31 on, and then the loop ends at a
-- character only. none stands for an `int` that overflows.
unfoldable pub decode : ByteArray → Option ByteArray
unfolding digits decode_digits
decode text =
    let count = length text % 2 ^ 32 in
    if ltb count (2 ^ 31)
    then some (decode_digits (digits (take count text)))
    else if leb (2 ^ 31 + length (digits text) + 1) count
    then some (decode_digits (digits text))
    else none
