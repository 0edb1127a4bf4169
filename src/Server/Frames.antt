-- ===== src/Server/Frames.antt =====
-- `CheckWsFrame` and its loop: what a connection's bytes become.
use web_socket_cpp.Base.{
  ℕ, zero, suc, ◌+◌, ◌≤◌, ◌<◌, Bool, true, false, inl, inr, ◌++◌, ◌≡◌, refl, sym, ap, ◌∙◌, arith,
  Bool-cases, ByteArray, length, size_mod, length-append, length-drop, drop_inside,
}
use web_socket_cpp.Frame.Request.{Config, fresh, parse}
use web_socket_cpp.Frame.Request.Stream.{parse-append}
use web_socket_cpp.Frame.Request.Bounds.{parse-IsWithin}
use web_socket_cpp.Server.{RequestData, check_ws_frame, check_frames}

module _ {U : Type 0} where
  -- More bytes behind those at hand.
  abbrev pub put : RequestData U → ByteArray → RequestData U
  put entry more = record entry { bytes = entry.bytes ++ more }

module _ {U : Type 0} (config : Config)
    (limit : config.max_frame_size + config.max_message_size + 14 < size_mod) where
  -- A round that takes a frame takes at least three bytes of those at hand.
  check_ws_frame-lt :
      (entry : RequestData U)
      → (check_ws_frame config entry).1 ≡ true
      → length (check_ws_frame config entry).0.bytes + 3 ≤ length entry.bytes
  unfolding check_ws_frame
  check_ws_frame-lt entry h =
      let within = parse-IsWithin config entry.bytes limit fresh (omega arith) in
      let taken : (parse config fresh entry.bytes).1 ≡ true = ground arith in
      rw taken (
        omega (
          arith,
          within.covers taken,
          (within.takes taken).0,
          (within.takes taken).1,
          length-drop (parse config fresh entry.bytes).0.size entry.bytes,
        ))

  check_ws_frame_refused :
      (entry : RequestData U)
      → (check_ws_frame config entry).1 ≡ false
      → (check_ws_frame config entry).0 ≡ entry
  unfolding check_ws_frame
  check_ws_frame_refused entry h = ground arith

  pub check_frames_stop :
      (fuel : ℕ) (entry : RequestData U)
      → (check_ws_frame config entry).1 ≡ false
      → (check_frames config fuel entry).0 ≡ entry
  unfolding check_frames
  check_frames_stop zero entry h = refl
  check_frames_stop (suc fuel) entry h = rw (check_frames, h) (check_ws_frame_refused entry h)

  pub check_frames_go :
      (fuel : ℕ) (entry : RequestData U)
      → (check_ws_frame config entry).1 ≡ true
      → (check_frames config (suc fuel) entry).0
        ≡ (check_frames config fuel (check_ws_frame config entry).0).0
  unfolding check_frames
  check_frames_go fuel entry h = rw (check_frames, h) refl

  -- With limits that fit into 2^64 the loop has ended after as many rounds as there are bytes, whatever
  -- they are: no further frame can be taken.
  pub check_frames_ends :
      (fuel : ℕ) (entry : RequestData U)
      → length entry.bytes ≤ fuel
      → (check_ws_frame config (check_frames config fuel entry).0).1 ≡ false
  check_frames_ends zero entry h = elim (Bool-cases (check_ws_frame config entry).1) [
    | inl taken ↦ absurd (omega (arith, check_ws_frame-lt entry taken))
    | inr refused ↦ rw (check_frames_stop zero entry refused) refused
  ]
  check_frames_ends (suc fuel) entry h = elim (Bool-cases (check_ws_frame config entry).1) [
    | inl taken ↦ rw (check_frames_go fuel entry taken) (
        check_frames_ends fuel (check_ws_frame config entry).0
          (omega (arith, check_ws_frame-lt entry taken)))
    | inr refused ↦ rw (check_frames_stop (suc fuel) entry refused) refused
  ]

  check_ws_frame-put :
      (entry : RequestData U) (more : ByteArray)
      → (check_ws_frame config entry).1 ≡ true
      → check_ws_frame config (put entry more) ≡ (put (check_ws_frame config entry).0 more, true)
  unfolding check_ws_frame
  check_ws_frame-put entry more h =
      let taken : (parse config fresh entry.bytes).1 ≡ true = ground arith in
      let within = parse-IsWithin config entry.bytes limit fresh (omega arith) in
      rw
        (
          parse-append entry.bytes more config (omega arith) fresh taken,
          taken,
          drop_inside (parse config fresh entry.bytes).0.size entry.bytes more
              (within.covers taken),
        )
        refl

  -- Any fuel that is enough gives the same.
  check_frames_fuel :
      (n m : ℕ) (entry : RequestData U)
      → length entry.bytes ≤ n
      → length entry.bytes ≤ m
      → (check_frames config n entry).0 ≡ (check_frames config m entry).0
  unfolding check_frames
  check_frames_fuel zero m entry hn hm = elim (Bool-cases (check_ws_frame config entry).1) [
    | inl taken ↦ absurd (omega (arith, check_ws_frame-lt entry taken))
    | inr refused ↦ sym (check_frames_stop m entry refused)
  ]
  check_frames_fuel (suc n) zero entry hn hm = elim (Bool-cases (check_ws_frame config entry).1) [
    | inl taken ↦ absurd (omega (arith, check_ws_frame-lt entry taken))
    | inr refused ↦ check_frames_stop (suc n) entry refused
  ]
  check_frames_fuel (suc n) (suc m) entry hn hm =
      elim (Bool-cases (check_ws_frame config entry).1) [
        | inl taken ↦
            check_frames_go n entry taken
            ∙ check_frames_fuel n m (check_ws_frame config entry).0
                (omega (arith, check_ws_frame-lt entry taken))
                (omega (arith, check_ws_frame-lt entry taken))
            ∙ sym (check_frames_go m entry taken)
        | inr refused ↦
            check_frames_stop (suc n) entry refused ∙ sym (check_frames_stop (suc m) entry refused)
      ]

  check_frames_go-put :
      (k : ℕ) (entry : RequestData U) (more : ByteArray)
      → (check_ws_frame config entry).1 ≡ true
      → (check_frames config (suc k) (put entry more)).0
        ≡ (check_frames config k (put (check_ws_frame config entry).0 more)).0
  check_frames_go-put k entry more taken =
      let after = check_ws_frame-put entry more taken in
      check_frames_go k (put entry more) (ap (λ (o : RequestData U × Bool). o.1) after)
      ∙ ap (λ (o : RequestData U × Bool). (check_frames config k o.0).0) after

  -- Bytes that arrive while the loop has run on the earlier ones, with limits that fit into 2^64 and
  -- in each run at least as many rounds as there are bytes: the connection ends as if all the bytes had
  -- been there at once. How the stream is cut into pieces does not matter.
  pub check_frames-put :
      (n m k : ℕ) (entry : RequestData U) (more : ByteArray)
      → length entry.bytes ≤ n
      → length entry.bytes + length more ≤ m
      → length entry.bytes + length more ≤ k
      → (check_frames config m (put (check_frames config n entry).0 more)).0
        ≡ (check_frames config k (put entry more)).0
  unfolding check_frames
  check_frames-put zero m k entry more hn hm hk =
      check_frames_fuel m k (put entry more) (omega (arith, length-append entry.bytes more))
        (omega (arith, length-append entry.bytes more))
  check_frames-put (suc n) m k entry more hn hm hk =
      elim (Bool-cases (check_ws_frame config entry).1) [
        | inl taken ↦
            let lt = check_ws_frame-lt entry taken in
            let next = (check_ws_frame config entry).0 in
            ap (λ (e : RequestData U). (check_frames config m (put e more)).0)
              (check_frames_go n entry taken)
            ∙ check_frames-put n m k next more (omega arith) (omega arith) (omega arith)
            ∙ sym (check_frames_go-put k entry more taken)
            ∙ check_frames_fuel (suc k) k (put entry more)
                (omega (arith, length-append entry.bytes more))
                (omega (arith, length-append entry.bytes more))
        | inr refused ↦
            ap (λ (e : RequestData U). (check_frames config m (put e more)).0)
              (check_frames_stop (suc n) entry refused)
            ∙ check_frames_fuel m k (put entry more) (omega (arith, length-append entry.bytes more))
                (omega (arith, length-append entry.bytes more))
      ]
