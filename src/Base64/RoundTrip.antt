-- ===== src/Base64/RoundTrip.antt =====
-- What is encoded is decoded again.
use web_socket_cpp.Base.{
  ℕ, true, some, sym, ap, ◌∙◌, ◌%◌, ◌^◌, ltb, take, take-append, append-nil, ◌+◌, ◌*◌, ◌/◌, ◌<◌,
  ◌≡◌, refl, arith, IsByte, IsBytes, [], ◌∷◌, ByteArray, length,
}
use web_socket_cpp.Base64.{
  digit, find, first_six, second_six, third_six, fourth_six, first_byte, second_byte, third_byte,
  encode, decode, digits, decode_digits,
}
use web_socket_cpp.Base64.Digits.{
  find-digit, digit-is_base64, first_six-eq, second_six-eq, third_six-eq, fourth_six-eq,
  first_byte-eq, second_byte-eq, third_byte-eq,
}

first_six-lt : (a : ℕ) → IsByte a → first_six a < 64
first_six-lt a ha = omega (arith, first_six-eq a ha)

second_six-lt : (a b : ℕ) → IsByte a → IsByte b → second_six a b < 64
second_six-lt a b ha hb = omega (arith, second_six-eq a b ha hb)

third_six-lt : (b c : ℕ) → IsByte b → IsByte c → third_six b c < 64
third_six-lt b c hb hc = omega (arith, third_six-eq b c hb hc)

fourth_six-lt : (c : ℕ) → IsByte c → fourth_six c < 64
fourth_six-lt c hc = omega (arith, fourth_six-eq c hc)

digits_step : (i : ℕ) (text : ByteArray) → i < 64 → digits (digit i ∷ text) ≡ digit i ∷ digits text
unfolding digits
digits_step i text h = rw (digit-is_base64 i h) refl

digits_stop : (text : ByteArray) → digits (b'=' ∷ text) ≡ []
unfolding digits
digits_stop text = refl

-- The three bytes are those of the four values.
first_back :
    (a b : ℕ)
    → IsByte a
    → IsByte b
    → first_byte (find (digit (first_six a))) (find (digit (second_six a b))) ≡ a
first_back a b ha hb =
    rw
      (
        find-digit (first_six a) (first_six-lt a ha),
        find-digit (second_six a b) (second_six-lt a b ha hb),
        first_byte-eq (first_six a) (second_six a b) (first_six-lt a ha) (second_six-lt a b ha hb),
        first_six-eq a ha,
        second_six-eq a b ha hb,
      )
      (omega arith)

second_back :
    (a b c : ℕ)
    → IsByte a
    → IsByte b
    → IsByte c
    → second_byte (find (digit (second_six a b))) (find (digit (third_six b c))) ≡ b
second_back a b c ha hb hc =
    rw
      (
        find-digit (second_six a b) (second_six-lt a b ha hb),
        find-digit (third_six b c) (third_six-lt b c hb hc),
        second_byte-eq (second_six a b) (third_six b c) (second_six-lt a b ha hb)
            (third_six-lt b c hb hc),
        second_six-eq a b ha hb,
        third_six-eq b c hb hc,
      )
      (omega arith)

third_back :
    (b c : ℕ)
    → IsByte b
    → IsByte c
    → third_byte (find (digit (third_six b c))) (find (digit (fourth_six c))) ≡ c
third_back b c hb hc =
    rw
      (
        find-digit (third_six b c) (third_six-lt b c hb hc),
        find-digit (fourth_six c) (fourth_six-lt c hc),
        third_byte-eq (third_six b c) (fourth_six c) (third_six-lt b c hb hc) (fourth_six-lt c hc),
        third_six-eq b c hb hc,
        fourth_six-eq c hc,
      )
      (omega arith)

digits-encode : (bytes : ByteArray) → IsBytes bytes → decode_digits (digits (encode bytes)) ≡ bytes
unfolding encode decode_digits
digits-encode [] _ = unfold digits in refl
digits-encode (a ∷ []) (ha, _) =
    rw
      (
        digits_step (first_six a) _ (first_six-lt a ha),
        digits_step (second_six a 0) _ (second_six-lt a 0 ha (omega arith)),
        digits_stop,
        first_back a 0 ha (omega arith),
      )
      refl
digits-encode (a ∷ b ∷ []) (ha, (hb, _)) =
    rw
      (
        digits_step (first_six a) _ (first_six-lt a ha),
        digits_step (second_six a b) _ (second_six-lt a b ha hb),
        digits_step (third_six b 0) _ (third_six-lt b 0 hb (omega arith)),
        digits_stop,
        first_back a b ha hb,
        second_back a b 0 ha hb (omega arith),
      )
      refl
digits-encode (a ∷ b ∷ c ∷ rest) (ha, (hb, (hc, hr))) =
    rw
      (
        digits_step (first_six a) _ (first_six-lt a ha),
        digits_step (second_six a b) _ (second_six-lt a b ha hb),
        digits_step (third_six b c) _ (third_six-lt b c hb hc),
        digits_step (fourth_six c) _ (fourth_six-lt c hc),
        first_back a b ha hb,
        second_back a b c ha hb hc,
        third_back b c hb hc,
        digits-encode rest hr,
      )
      refl

-- The text is four characters for every three bytes or part of three.
length-encode : (bytes : ByteArray) → length (encode bytes) ≡ (length bytes + 2) / 3 * 4
unfolding encode
length-encode [] = refl
length-encode (a ∷ []) = refl
length-encode (a ∷ b ∷ []) = refl
length-encode (a ∷ b ∷ c ∷ rest) = omega (arith, length-encode rest)

take_all : (text : ByteArray) → take (length text) text ≡ text
take_all text = ap (take (length text)) (sym (append-nil text)) ∙ take-append text []

-- Decoding the Base64 text of any bytes gives the bytes back, the padding and the digits of an
-- unfinished group included, as long as the text, which has four characters for every three bytes or part
-- of three, has less than 2^31 characters.
pub decode-encode :
    (bytes : ByteArray)
    → IsBytes bytes
    → (length bytes + 2) / 3 * 4 < 2 ^ 31
    → decode (encode bytes) ≡ some bytes
unfolding decode
decode-encode bytes ok fits =
    let same = length-encode bytes in
    let count : length (encode bytes) % 2 ^ 32 ≡ length (encode bytes) = omega arith in
    let small : ltb (length (encode bytes)) (2 ^ 31) ≡ true = ground arith in
    rw (count, small, take_all (encode bytes), digits-encode bytes ok) refl
