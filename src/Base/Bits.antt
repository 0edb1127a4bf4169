-- ===== src/Base/Bits.antt =====
-- Laws of the bit operations on bytes, by evaluation over every value.
use Prim.Native.Nat.{ℕ, zero, suc, ◌<◌, bit_xor}
use mathlib.Core.Path.{◌≡◌, refl}
use mathlib.Core.Logic.{inl, inr}
use mathlib.Core.Bool.{Bool, true, false, ◌&&◌}
use native.Mathlib.Omega.{arith}
use web_socket_cpp.Base.Tests.{◌==◌, ltb, if◌then◌else◌, Bool-cases}

-- Does the test answer yes for every number under the bound?
unfoldable pub every_value : (ℕ → Bool) → ℕ → Bool
every_value test zero = true
every_value test (suc last) =
    let lower = every_value test last in if test last then lower else false

-- A table that was evaluated answers for each of its entries.
pub every_value-at :
    (test : ℕ → Bool) (bound : ℕ)
    → every_value test bound ≡ true
    → (entry : ℕ) → entry < bound
    → test entry ≡ true
unfolding every_value
every_value-at test zero table entry inside = absurd (omega arith)
every_value-at test (suc last) table entry inside = elim (Bool-cases (entry == last)) [
  | inl here ↦ ground arith
  | inr below ↦ every_value-at test last (ground arith) entry (ground arith)
]

xor_test : ℕ → ℕ → Bool
xor_test x k = (bit_xor (bit_xor x k) k == x) && ltb (bit_xor x k) 256

xor_table : every_value (λ x. every_value (xor_test x) 256) 256 ≡ true
unfolding every_value xor_test
xor_table = refl

xor_row : (x k : ℕ) → x < 256 → k < 256 → xor_test x k ≡ true
xor_row x k hx hk = every_value-at (xor_test x) 256 (every_value-at _ 256 xor_table x hx) k hk

pub bit_xor_twice : (x k : ℕ) → x < 256 → k < 256 → bit_xor (bit_xor x k) k ≡ x
unfolding xor_test
bit_xor_twice x k hx hk = ground (arith, xor_row x k hx hk)

pub bit_xor-lt : (x k : ℕ) → x < 256 → k < 256 → bit_xor x k < 256
unfolding xor_test
bit_xor-lt x k hx hk = ground (arith, xor_row x k hx hk)
