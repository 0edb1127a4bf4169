-- ===== src/Names/Hash/Collision.antt =====
-- Two texts with one hash: what the switches on hashes take for each other.
use web_socket_cpp.Base.{
  ℕ, ◌+◌, ◌%◌, ◌<◌, ◌≢◌, [], ◌∷◌, ◌++◌, ◌≡◌, ap, arith, List, ByteArray, ◌==◌, if◌then◌else◌,
}
use web_socket_cpp.Names.Hash.{complement, mix, hash, switch, switch_hash}

mix_collision :
    (c t : ℕ) → c < 128 → t < 127 → t % 8 ≢ 6 → mix (c + 128) (mix (t + 1) 0) ≡ mix c (mix t 0)
unfolding mix complement
mix_collision c t hc ht h = ground arith

-- A text that ends in two ASCII characters has the hash of another text: the one whose last
-- character is the next one and whose last but one has its top bit set.
pub hash_collision :
    (start : ByteArray) (c t : ℕ)
    → 0 < c
    → c < 128
    → 0 < t
    → t < 127
    → t % 8 ≢ 6
    → hash (start ++ (c + 128) ∷ (t + 1) ∷ []) ≡ hash (start ++ c ∷ t ∷ [])
unfolding hash
hash_collision [] c t pc hc pt ht h = ground (arith, mix_collision c t hc ht h)
hash_collision (b ∷ start) c t pc hc pt ht h =
    ap (λ s. if b == 0 then 0 else mix b s) (hash_collision start c t pc hc pt ht h)

-- For every text whose last two characters are c and t, with c and t ASCII and not zero, t below 127
-- and t not 6 modulo 8: a switch on the hash gives the same for it as for the text with c + 128 and
-- t + 1 in their places, whatever its cases are.
pub switch_collision {ℓ} :
    {A : Type ℓ} (cases : List (ByteArray × A)) (other : A) (start : ByteArray) (c t : ℕ)
    → 0 < c
    → c < 128
    → 0 < t
    → t < 127
    → t % 8 ≢ 6
    → switch (start ++ (c + 128) ∷ (t + 1) ∷ []) cases other
      ≡ switch (start ++ c ∷ t ∷ []) cases other
unfolding switch
switch_collision cases other start c t pc hc pt ht h =
    ap (λ s. switch_hash s cases other) (hash_collision start c t pc hc pt ht h)
