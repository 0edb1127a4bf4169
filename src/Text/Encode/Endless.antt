-- ===== src/Text/Encode/Endless.antt =====
-- Texts that the decoding does not get past.
use web_socket_cpp.Base.{
  ℕ, zero, suc, [], ◌∷◌, ◌++◌, none, ◌≡◌, refl, ap, ◌∙◌, append_assoc, append-nil, All, ByteArray,
}
use web_socket_cpp.Text.Encode.{StringToInt, string2int, cut, endless, replace_escape, decode_loop}
use web_socket_cpp.Text.Encode.Cut.{IsOther}
use web_socket_cpp.Text.Encode.RoundTrip.{decode_plain}

-- The text in front of the first escape is passed over.
decode_front :
    (stoi : StringToInt) (fuel : ℕ) (front before str : ByteArray)
    → All (IsOther b'%') before
    → decode_loop stoi fuel front (before ++ str) ≡ decode_loop stoi fuel (front ++ before) str
decode_front stoi fuel front [] str others = rw (append-nil front) refl
decode_front stoi fuel front (c ∷ before) str (h, others) =
    decode_plain stoi fuel front c (before ++ str) h
    ∙ decode_front stoi fuel (front ++ c ∷ []) before str others
    ∙ ap (λ (all : ByteArray). decode_loop stoi fuel all str) (append_assoc front (c ∷ []) before)

decode_stays :
    (stoi : StringToInt) (fuel : ℕ) (front : ByteArray) (high low : ℕ) (rest : ByteArray)
    → string2int stoi (high ∷ low ∷ []) 16 ≡ none
    → decode_loop stoi fuel front (b'%' ∷ high ∷ low ∷ rest) ≡ endless
unfolding decode_loop cut
decode_stays stoi zero front high low rest h = refl
decode_stays stoi (suc fuel) front high low rest h =
    rw (decode_loop, replace_escape, h) (decode_stays stoi fuel (front ++ []) high low rest h)

-- If the two characters behind the first `%` of a text are no number in base 16, no number of rounds
-- ends the loop of the decoding.
pub decode_loop_endless :
    (stoi : StringToInt) (before rest : ByteArray) (high low : ℕ) (fuel : ℕ)
    → All (IsOther b'%') before
    → string2int stoi (high ∷ low ∷ []) 16 ≡ none
    → decode_loop stoi fuel [] (before ++ b'%' ∷ high ∷ low ∷ rest) ≡ endless
decode_loop_endless stoi before rest high low fuel others h =
    decode_front stoi fuel [] before (b'%' ∷ high ∷ low ∷ rest) others
    ∙ decode_stays stoi fuel before high low rest h
