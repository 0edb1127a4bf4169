-- ===== src/Text/Encode/Cut.antt =====
-- Where a text is cut at a character.
use web_socket_cpp.Base.{ℕ, [], ◌∷◌, ◌++◌, none, some, ◌≡◌, ◌≢◌, refl, arith, All, ByteArray}
use web_socket_cpp.Text.Encode.{cut}

abbrev pub IsOther : ℕ → ℕ → Type 0
IsOther ch c = c ≢ ch

pub cut_at :
    (ch : ℕ) (before after : ByteArray)
    → All (IsOther ch) before
    → cut ch (before ++ ch ∷ after) ≡ some (before, after)
unfolding cut
cut_at ch [] after others = ground arith
cut_at ch (c ∷ before) after (h, others) = ground (arith, cut_at ch before after others)

pub cut_missing : (ch : ℕ) (str : ByteArray) → All (IsOther ch) str → cut ch str ≡ none
unfolding cut
cut_missing ch [] others = refl
cut_missing ch (c ∷ str) (h, others) = ground (arith, cut_missing ch str others)
