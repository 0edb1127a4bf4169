-- ===== src/Socket/Write.antt =====
-- The loop of `ServerSocket::Write` and of `ClientSocket::Write`.
use web_socket_cpp.Base.{
  ℕ, ◌↔◌, Bool, true, false, List, [], ◌∷◌, ◌++◌, Option, none, some, ◌≡◌, refl, sym, ap, ◌∙◌,
  arith, append_assoc, ByteArray, take, drop, take-append-drop,
}

-- An answer of `send`: how many bytes it took, `EAGAIN` or `EWOULDBLOCK`, or an error.
pub data Sent : Type 0 where
  sent : ℕ → Sent
  again failed : Sent

-- The loop over the answers, for the data that is left: what is written, and what the routine returns;
-- none where it waits for a further answer.
unfoldable pub write_loop : List Sent → ByteArray → ByteArray × Option Bool
write_loop answers [] = ([], some true)
write_loop [] (c ∷ data_bytes) = ([], none)
write_loop (sent n ∷ answers) (c ∷ data_bytes) =
    let out = write_loop answers (drop n (c ∷ data_bytes)) in
    (take n (c ∷ data_bytes) ++ out.0, out.1)
write_loop (again ∷ answers) (c ∷ data_bytes) = write_loop answers (c ∷ data_bytes)
write_loop (failed ∷ answers) (c ∷ data_bytes) = ([], some false)

-- What was written is the beginning of the data, and it is all of it exactly if the routine returns true.
pub record IsWritten (data_bytes : ByteArray) (out : ByteArray × Option Bool) : Type 0 where
  pub rest : ByteArray
  pub joined : data_bytes ≡ out.0 ++ rest
  pub whole : (out.1 ≡ some true) ↔ (rest ≡ [])

IsWritten-take :
    (n : ℕ) (data_bytes : ByteArray) (out : ByteArray × Option Bool)
    → IsWritten (drop n data_bytes) out
    → IsWritten data_bytes (take n data_bytes ++ out.0, out.1)
IsWritten-take n data_bytes out w = record {
  rest = w.rest;
  joined =
      sym (take-append-drop n data_bytes)
      ∙ ap (λ (bytes : ByteArray). take n data_bytes ++ bytes) w.joined
      ∙ sym (append_assoc (take n data_bytes) out.0 w.rest);
  whole = w.whole;
}

-- Whatever `send` answers, the bytes that reach the socket are a beginning of the data, in their order
-- and none twice, and `Write` returns true exactly if they are all of it.
pub write_loop-IsWritten :
    (answers : List Sent) (data_bytes : ByteArray)
    → IsWritten data_bytes (write_loop answers data_bytes)
unfolding write_loop
write_loop-IsWritten answers [] = record {
  rest = [];
  joined = refl;
  whole = ((λ _. refl), (λ _. refl));
}
write_loop-IsWritten [] (c ∷ data_bytes) = record {
  rest = c ∷ data_bytes;
  joined = refl;
  whole = ((λ e. absurd (ground (arith, e))), (λ e. absurd (ground (arith, e))));
}
write_loop-IsWritten (sent n ∷ answers) (c ∷ data_bytes) =
    IsWritten-take n (c ∷ data_bytes) (write_loop answers (drop n (c ∷ data_bytes)))
      (write_loop-IsWritten answers (drop n (c ∷ data_bytes)))
write_loop-IsWritten (again ∷ answers) (c ∷ data_bytes) =
    write_loop-IsWritten answers (c ∷ data_bytes)
write_loop-IsWritten (failed ∷ answers) (c ∷ data_bytes) = record {
  rest = c ∷ data_bytes;
  joined = refl;
  whole = ((λ e. absurd (ground (arith, e))), (λ e. absurd (ground (arith, e))));
}
