-- ===== src/Names/Tests.antt =====
-- Names at concrete texts.
use web_socket_cpp.Base.{◌≡◌, refl, [], ◌∷◌, arith, ◌+◌}
use web_socket_cpp.Names.Hash.{switch}
use web_socket_cpp.Names.Hash.Collision.{switch_collision}
use web_socket_cpp.Names.Method.{Method, method_labels, string_to_method}

-- "G", 0xC5, "U" is taken for "GET".
switch_collision_example :
    switch (b'G' ∷ (b'E' + 128) ∷ (b'T' + 1) ∷ []) method_labels Method.undefined
    ≡ switch (b'G' ∷ b'E' ∷ b'T' ∷ []) method_labels Method.undefined
switch_collision_example =
    switch_collision method_labels Method.undefined (b'G' ∷ []) b'E' b'T' (omega arith)
      (omega arith) (omega arith) (omega arith) (omega arith)

not_a_method : string_to_method (b'g' ∷ 0xc5 ∷ b'u' ∷ []) ≡ Method.get
unfolding string_to_method
not_a_method = refl
