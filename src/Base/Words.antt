-- ===== src/Base/Words.antt =====
-- Machine words: a 64-bit `size_t` with its wrap-around, and bytes.
use Prim.Native.Nat.{ℕ, ◌+◌, ◌-◌, ◌%◌, ◌^◌, ◌<◌}
use mathlib.Core.List.{List}
use mathlib.Core.Path.{◌≡◌}
use native.Mathlib.Omega.{arith}
use web_socket_cpp.Base.Lists.{All}

-- `SIZE_MAX + 1`
abbrev pub size_mod : ℕ
size_mod = 2 ^ 64

abbrev pub add64 : ℕ → ℕ → ℕ
add64 a b = (a + b) % size_mod

-- The modulus is added first, since `-` stops at 0.
abbrev pub sub64 : ℕ → ℕ → ℕ
sub64 a b = (a + size_mod - b) % size_mod

abbrev pub ByteArray : Type 0
ByteArray = List ℕ

abbrev pub IsByte : ℕ → Type 0
IsByte b = b < 256

abbrev pub IsBytes : ByteArray → Type 0
IsBytes = All IsByte

pub add64-eq-add : (a b : ℕ) → a + b < size_mod → add64 a b ≡ a + b
add64-eq-add a b h = omega arith
