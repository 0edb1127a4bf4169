-- ===== src/Names/Hash.antt =====
-- The string hash of include/common/common.h, `mix` and `_`, and the switches made with it. A `char` is
-- signed, as on the supported targets; a text is its bytes, and `c_str` stops at the first zero byte.
pub mod Collision
use web_socket_cpp.Base.{
  ℕ, ◌+◌, ◌-◌, ◌*◌, ◌/◌, ◌%◌, List, [], ◌∷◌, ByteArray, ltb, leb, ◌==◌, ◌&&◌, if◌then◌else◌,
  size_mod,
}

-- `static_cast<uint64_t>(~m)` for the character with that byte.
unfoldable pub complement : ℕ → ℕ
complement byte = if ltb byte 128 then size_mod - 1 - byte else 255 - byte

unfoldable pub mix : ℕ → ℕ → ℕ
unfolding complement
mix byte s = (s * 128 % size_mod + (size_mod - 1 - s / 8) + complement byte) % size_mod

unfoldable pub hash : ByteArray → ℕ
unfolding mix
hash [] = 0
hash (c ∷ cs) = if c == 0 then 0 else mix c (hash cs)

-- `switch (_(str.c_str()))` with a `case` for each label.
unfoldable pub switch_hash {ℓ} : {A : Type ℓ} → ℕ → List (ByteArray × A) → A → A
unfolding hash
switch_hash h [] other = other
switch_hash h ((label, a) ∷ cases) other = if h == hash label then a else switch_hash h cases other

unfoldable pub switch {ℓ} : {A : Type ℓ} → ByteArray → List (ByteArray × A) → A → A
unfolding switch_hash hash
switch str cases other = switch_hash (hash str) cases other

-- `std::tolower` and `std::toupper` in the "C" locale.
abbrev pub to_lower : ℕ → ℕ
to_lower c = if leb b'A' c && leb c b'Z' then c + 32 else c

abbrev pub to_upper : ℕ → ℕ
to_upper c = if leb b'a' c && leb c b'z' then c - 32 else c
