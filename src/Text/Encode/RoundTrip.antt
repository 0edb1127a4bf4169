-- ===== src/Text/Encode/RoundTrip.antt =====
-- The encoding and the decoding of a text, one after the other.
use web_socket_cpp.Base.{
  ℕ, zero, suc, ◌%◌, ◌/◌, ◌<◌, ◌≤◌, Bool, true, false, ◌||◌, [], ◌∷◌, ◌++◌, map, some, ◌≡◌, ◌≢◌,
  refl, ap, ◌∙◌, inl, inr, arith, Bool-cases, Option-cases, append_assoc, append-nil, All,
  ByteArray, length, ltb, ◌==◌,
}
use web_socket_cpp.Text.Encode.{
  pos, StringToInt, string2int, is_char_allowed, hex_digit, hex_loop, hex_digits, int2hex,
  char_to_int, int_to_char, escape, append_to, encode_from, url_encode, cut, decoded, plus_to_space,
  replace_escape, decode_loop, url_decode,
}

-- `std::stoi` reads two digits of base 16.
abbrev pub ReadsHex : StringToInt → Type 0
ReadsHex stoi =
    (byte : ℕ)
    → byte < 256
    → stoi (hex_digit (byte / 16) ∷ hex_digit (byte % 16) ∷ []) 16 ≡ some (pos byte)

abbrev pub IsPlain : ℕ → Type 0
IsPlain ch = (16 ≤ ch) × (ch < 128) × (ch ≢ b'%') × (ch ≢ b'+')

hex_loop_last :
    (rounds number : ℕ) (digits : ByteArray)
    → number < 16
    → hex_loop (suc rounds) number digits ≡ hex_digit number ∷ digits
unfolding hex_loop
hex_loop_last rounds number digits h =
    let small : number / 16 ≡ 0 = omega arith in
    let same : number % 16 ≡ number = omega arith in rw (small, same) refl

hex_loop_two :
    (number : ℕ)
    → 16 ≤ number
    → number < 256
    → hex_loop 8 number [] ≡ hex_digit (number / 16) ∷ hex_digit (number % 16) ∷ []
unfolding hex_loop
hex_loop_two number low high =
    let more : (number / 16 == 0) ≡ false = ground arith in
    rw more (hex_loop_last 6 (number / 16) (hex_digit (number % 16) ∷ []) (omega arith))

escape_lem :
    (ch : ℕ)
    → 16 ≤ ch
    → ch < 128
    → escape ch ≡ some (b'%' ∷ hex_digit (ch / 16) ∷ hex_digit (ch % 16) ∷ [])
unfolding escape char_to_int int2hex hex_digits
escape_lem ch low high =
    let positive : ltb ch 128 ≡ true = ground arith in
    rw positive (rw (hex_loop_two ch low (omega arith)) refl)

pub decode_plain :
    (stoi : StringToInt) (fuel : ℕ) (front : ByteArray) (ch : ℕ) (str : ByteArray)
    → ch ≢ b'%'
    → decode_loop stoi fuel front (ch ∷ str) ≡ decode_loop stoi fuel (front ++ ch ∷ []) str
unfolding decode_loop cut
decode_plain stoi zero front ch str h = refl
decode_plain stoi (suc fuel) front ch str h = elim (Option-cases (cut b'%' str)) [
  | inl e ↦ ground (arith, e, append_assoc front (ch ∷ []) str)
  | inr ((before, after), e) ↦ ground (arith, e, append_assoc front (ch ∷ []) before)
]

replace_escape_hex :
    (stoi : StringToInt) (ch : ℕ) (str : ByteArray)
    → ReadsHex stoi
    → ch < 256
    → replace_escape stoi (hex_digit (ch / 16) ∷ hex_digit (ch % 16) ∷ str) ≡ some (ch ∷ str)
unfolding replace_escape string2int int_to_char
replace_escape_hex stoi ch str reads h =
    let same : ch % 256 ≡ ch = omega arith in rw (replace_escape, reads ch h) (rw same refl)

decode_escape :
    (stoi : StringToInt) (fuel : ℕ) (front : ByteArray) (ch : ℕ) (str : ByteArray)
    → ReadsHex stoi
    → ch < 256
    → decode_loop stoi (suc fuel) front (b'%' ∷ hex_digit (ch / 16) ∷ hex_digit (ch % 16) ∷ str)
      ≡ decode_loop stoi fuel front (ch ∷ str)
unfolding decode_loop cut
decode_escape stoi fuel front ch str reads h =
    rw (decode_loop, replace_escape_hex stoi ch str reads h) (rw (append-nil front) refl)

decode_end :
    (stoi : StringToInt) (fuel : ℕ) (front : ByteArray)
    → 0 < fuel
    → decode_loop stoi fuel front [] ≡ decoded (map plus_to_space (front ++ []))
unfolding decode_loop cut
decode_end stoi zero front enough = absurd (omega arith)
decode_end stoi (suc fuel) front enough = refl

-- What a loop says of a text, for enough fuel.
abbrev pub Decodes : StringToInt → ByteArray → ByteArray → Type 0
Decodes stoi encoding str =
    (fuel : ℕ) (front : ByteArray)
    → length encoding < fuel
    → decode_loop stoi fuel front encoding ≡ decoded (map plus_to_space (front ++ str))

Decodes-kept :
    (stoi : StringToInt) (ch : ℕ) (encoding str : ByteArray)
    → ch ≢ b'%'
    → Decodes stoi encoding str
    → Decodes stoi (ch ∷ encoding) (ch ∷ str)
Decodes-kept stoi ch encoding str h decodes fuel front enough =
    decode_plain stoi fuel front ch encoding h
    ∙ decodes fuel (front ++ ch ∷ []) (omega arith)
    ∙ ap (λ (all : ByteArray). decoded (map plus_to_space all)) (append_assoc front (ch ∷ []) str)

Decodes-escape :
    (stoi : StringToInt) (ch : ℕ) (encoding str : ByteArray)
    → ReadsHex stoi
    → ch < 128
    → ch ≢ b'%'
    → Decodes stoi encoding str
    → Decodes stoi (b'%' ∷ hex_digit (ch / 16) ∷ hex_digit (ch % 16) ∷ encoding) (ch ∷ str)
Decodes-escape stoi ch encoding str reads high h decodes zero front enough = absurd (omega arith)
Decodes-escape stoi ch encoding str reads high h decodes (suc fuel) front enough =
    decode_escape stoi fuel front ch encoding reads (omega arith)
    ∙ Decodes-kept stoi ch encoding str h decodes fuel front (omega arith)

-- The encoding from a character on, and what the loop of the decoding makes of it.
abbrev pub Encoded : StringToInt → Bool → ByteArray → Type 0
Encoded stoi passes str =
    (encoding : ByteArray) × (encode_from passes str ≡ some encoding) × Decodes stoi encoding str

Encoded-kept :
    (stoi : StringToInt) (passes : Bool) (ch : ℕ) (str : ByteArray)
    → ch ≢ b'%'
    → (passes || is_char_allowed ch) ≡ true
    → Encoded stoi false str
    → Encoded stoi passes (ch ∷ str)
unfolding encode_from append_to
Encoded-kept stoi passes ch str h kept (encoding, e, decodes) =
    (ch ∷ encoding, rw kept (rw e refl), Decodes-kept stoi ch encoding str h decodes)

Encoded-escape :
    (stoi : StringToInt) (ch : ℕ) (str : ByteArray)
    → ReadsHex stoi
    → IsPlain ch
    → is_char_allowed ch ≡ false
    → Encoded stoi true str
    → Encoded stoi false (ch ∷ str)
unfolding encode_from append_to
Encoded-escape stoi ch str reads (low, high, percent, plus) refused (encoding, e, decodes) = (
  b'%' ∷ hex_digit (ch / 16) ∷ hex_digit (ch % 16) ∷ encoding,
  rw refused (rw (e, escape_lem ch low high) refl),
  Decodes-escape stoi ch encoding str reads high percent decodes,
)

encode_from-Encoded :
    (stoi : StringToInt) (passes : Bool) (str : ByteArray)
    → ReadsHex stoi
    → All IsPlain str
    → Encoded stoi passes str
unfolding encode_from
encode_from-Encoded stoi passes [] reads plain =
    ([], refl, λ fuel front enough. decode_end stoi fuel front enough)
encode_from-Encoded stoi true (ch ∷ str) reads ((low, high, percent, plus), plain) =
    Encoded-kept stoi true ch str percent refl (encode_from-Encoded stoi false str reads plain)
encode_from-Encoded stoi false (ch ∷ str) reads (p, plain) =
    elim (Bool-cases (is_char_allowed ch)) [
      | inl kept ↦
          Encoded-kept stoi false ch str p.2 kept (encode_from-Encoded stoi false str reads plain)
      | inr refused ↦
          Encoded-escape stoi ch str reads p refused (encode_from-Encoded stoi true str reads plain)
    ]

plus_to_space_plain : (str : ByteArray) → All IsPlain str → map plus_to_space str ≡ str
plus_to_space_plain [] plain = refl
plus_to_space_plain (ch ∷ str) ((low, high, percent, plus), plain) =
    let same : plus_to_space ch ≡ ch = ground arith in
    rw same (ap (◌∷◌ ch) (plus_to_space_plain str plain))

-- A text of characters from 16 to 127 without `%` and `+` is encoded without a failure, and its encoding
-- is decoded to it without a fault and with enough fuel, provided that `std::stoi` reads two digits of
-- base 16.
pub url_decode-url_encode :
    (stoi : StringToInt) (str : ByteArray)
    → ReadsHex stoi
    → All IsPlain str
    → (encoding : ByteArray) × (url_encode str ≡ some encoding)
      × (url_decode stoi encoding ≡ decoded str)
unfolding url_encode url_decode
url_decode-url_encode stoi str reads plain =
    let out = encode_from-Encoded stoi false str reads plain in
    (
      out.0,
      out.1,
      out.2 (suc (length out.0)) [] (omega arith)
          ∙ ap (λ (all : ByteArray). decoded all) (plus_to_space_plain str plain),
    )
