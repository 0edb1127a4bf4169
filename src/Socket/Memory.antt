-- ===== src/Socket/Memory.antt =====
-- The bytes of a buffer: `read` stores what has arrived at a pointer, and a worker loads it.
use web_socket_cpp.Base.{
  ℕ, zero, suc, ◌+◌, ◌-◌, ◌≤◌, ◌<◌, ◌⊎◌, inl, inr, ◌&&◌, [], ◌∷◌, ◌≡◌, refl, ap₂, ◌∙◌, arith,
  ByteArray, length, get_or, leb, ltb, if◌then◌else◌,
}

abbrev pub Memory : Type 0
Memory = ℕ → ℕ

unfoldable pub store : ℕ → ByteArray → Memory → Memory
store at bytes memory a =
    if leb at a && ltb a (at + length bytes) then get_or bytes (a - at) 0 else memory a

-- `ByteArray(data, data + size)`
unfoldable pub load : ℕ → ℕ → Memory → ByteArray
load at zero memory = []
load at (suc size) memory = memory at ∷ load (at + 1) size memory

load_same :
    (at n : ℕ) (memory other : Memory)
    → ((a : ℕ) → at ≤ a → a < at + n → memory a ≡ other a)
    → load at n memory ≡ load at n other
unfolding load
load_same at zero memory other same = refl
load_same at (suc n) memory other same =
    ap₂ ◌∷◌ (same at (omega arith) (omega arith))
      (load_same (at + 1) n memory other (λ a le lt. same a (omega arith) (omega arith)))

store_next :
    (at c : ℕ) (bytes : ByteArray) (memory : Memory) (a : ℕ)
    → at + 1 ≤ a
    → a < at + 1 + length bytes
    → store at (c ∷ bytes) memory a ≡ store (at + 1) bytes memory a
unfolding store
store_next at c bytes memory a le lt =
    let e : a - at ≡ suc (a - (at + 1)) = omega arith in rw e (ground arith)

-- What is stored is loaded.
pub load-store :
    (at : ℕ) (bytes : ByteArray) (memory : Memory)
    → load at (length bytes) (store at bytes memory) ≡ bytes
unfolding load store
load-store at [] memory = refl
load-store at (c ∷ bytes) memory = ap₂ ◌∷◌ (head at c bytes memory) (
    load_same (at + 1) (length bytes) (store at (c ∷ bytes) memory) (store (at + 1) bytes memory)
      (store_next at c bytes memory)
    ∙ load-store (at + 1) bytes memory)
  where
    head : (at c : ℕ) (bytes : ByteArray) (memory : Memory) → store at (c ∷ bytes) memory at ≡ c
    head at c bytes memory = let e : at - at ≡ 0 = omega arith in rw e (ground arith)

-- What lies apart from it stays.
pub load-store_apart :
    (at n to : ℕ) (bytes : ByteArray) (memory : Memory)
    → (at + n ≤ to) ⊎ (to + length bytes ≤ at)
    → load at n (store to bytes memory) ≡ load at n memory
unfolding store
load-store_apart at n to bytes memory (inl before) =
    load_same at n (store to bytes memory) memory (λ a le lt. ground arith)
load-store_apart at n to bytes memory (inr behind) =
    load_same at n (store to bytes memory) memory (λ a le lt. ground arith)
