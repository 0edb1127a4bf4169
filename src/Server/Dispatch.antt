-- ===== src/Server/Dispatch.antt =====
-- The server's steps on its queue and what holds in every state they reach.
use web_socket_cpp.Base.{
  ℕ, zero, suc, ◌+◌, ◌<◌, ◌⊎◌, Bool, true, false, inl, inr, List, [], ◌∷◌, Option, some, ◌≡◌, refl,
  sym, ap, ap₂, ◌∙◌, arith, Bool-cases, Option-cases, ByteArray, All, All-append, length, size_mod,
}
use web_socket_cpp.Frame.Request.{Config, RequestWebSocket, fresh, parse}
use web_socket_cpp.Frame.Request.Bounds.{parse-IsWithin}
use web_socket_cpp.Request.{UrlOps, Request}
use web_socket_cpp.Server.{
  RequestData, check_frames, check_ws_frame, check_ws_header, check_entry, check_data, Handlers,
  process_frames, process_entry, process_requests,
}
use web_socket_cpp.Server.Queue.{conn_ids}

abbrev pub IsFinal : RequestWebSocket → Type 0
IsFinal frame = frame.final ≡ true

-- The frames that wait are final, and while some wait, the connection has its handshake behind it and
-- is marked for dispatch.
pub record IsEntry {U : Type 0} (entry : RequestData U) : Type 0 where
  pub frames : All IsFinal entry.request_list
  pub waiting :
      (length entry.request_list ≡ 0)
      ⊎ ((entry.handshake ≡ true) × (entry.ready_for_dispatch ≡ true))

module _ {U : Type 0} (config : Config)
    (limit : config.max_frame_size + config.max_message_size + 14 < size_mod) where
  check_ws_frame-IsEntry :
      (entry : RequestData U) → IsEntry entry → IsEntry (check_ws_frame config entry).0
  unfolding check_ws_frame
  check_ws_frame-IsEntry entry ok =
      let within = parse-IsWithin config entry.bytes limit fresh (omega arith) in
      elim (Bool-cases (parse config fresh entry.bytes).1) [
        | inr refused ↦ rw refused ok
        | inl taken ↦ rw taken (record {
          frames = All-append IsFinal entry.request_list _ ok.frames (within.final taken, tt);
          waiting = inr (refl, refl);
        })
      ]

  check_ws_frame-conn_id :
      (entry : RequestData U) → (check_ws_frame config entry).0.conn_id ≡ entry.conn_id
  unfolding check_ws_frame
  check_ws_frame-conn_id entry = ground arith

  check_frames-IsEntry :
      (fuel : ℕ) (entry : RequestData U)
      → IsEntry entry
      → IsEntry (check_frames config fuel entry).0
        × ((check_frames config fuel entry).0.conn_id ≡ entry.conn_id)
  unfolding check_frames
  check_frames-IsEntry zero entry ok = (ok, refl)
  check_frames-IsEntry (suc fuel) entry ok =
      let one = check_ws_frame-IsEntry entry ok in
      let same = check_ws_frame-conn_id entry in
      elim (Bool-cases (check_ws_frame config entry).1) [
        | inl taken ↦
            let more = check_frames-IsEntry fuel (check_ws_frame config entry).0 one in
            rw (check_frames, taken) (more.0, more.1 ∙ same)
        | inr refused ↦ rw (check_frames, refused) (one, same)
      ]

module _ {U : Type 0} (url : UrlOps U) (to_number : ByteArray → Option ℕ) (config : Config)
    (limit : config.max_frame_size + config.max_message_size + 14 < size_mod) where
  check_ws_header-IsEntry :
      (entry next : RequestData U) (found : Bool)
      → IsEntry entry
      → entry.handshake ≡ false
      → check_ws_header url to_number config entry ≡ some (next, found)
      → IsEntry next × (next.conn_id ≡ entry.conn_id)
  unfolding check_ws_header
  check_ws_header-IsEntry entry next found ok early e =
      let none_waits : length entry.request_list ≡ 0 = elim ok.waiting [
        | inl empty ↦ empty
        | inr (late, _) ↦ absurd (ground arith)
      ] in
      let same : (next.request_list ≡ entry.request_list) × (next.conn_id ≡ entry.conn_id) =
        ground (arith, e) in
      (record { frames = rw same.0 ok.frames; waiting = inl (rw same.0 none_waits) }, same.1)

  check_entry-IsEntry :
      (entry next : RequestData U) (found : Bool)
      → IsEntry entry
      → check_entry url to_number config entry ≡ some (next, found)
      → IsEntry next × (next.conn_id ≡ entry.conn_id)
  unfolding check_entry
  check_entry-IsEntry entry next found ok e = elim (Bool-cases entry.ready_for_dispatch) [
    | inl ready ↦
        let same : entry ≡ next = ground arith in
        (rw same at ok, ap (λ (o : RequestData U). o.conn_id) (sym same))
    | inr unready ↦ elim (Bool-cases entry.handshake) [
      | inl late ↦
          let same : (check_frames config (length entry.bytes) entry).0 ≡ next = ground arith in
          rw same at (check_frames-IsEntry config limit (length entry.bytes) entry ok)
      | inr early ↦ check_ws_header-IsEntry entry next found ok early (ground arith)
    ]
  ]

  pub check_data-IsEntry :
      (queue next : List (RequestData U)) (found : Bool)
      → All IsEntry queue
      → check_data url to_number config queue ≡ some (next, found)
      → All IsEntry next × (conn_ids queue ≡ conn_ids next)
  unfolding check_data
  check_data-IsEntry [] next found ok e =
      let same : next ≡ [] = ground arith in (rw same tt, ap conn_ids (sym same))
  check_data-IsEntry (entry ∷ queue) next found (first, ok) e =
      elim (Option-cases (check_entry url to_number config entry)) [
        | inl bad ↦ ground (arith, bad)
        | inr ((one, b), q) ↦ elim (Option-cases (check_data url to_number config queue)) [
          | inl bad ↦ ground (arith, bad, q)
          | inr ((rest, c), r) ↦
              let same : next ≡ one ∷ rest = ground (arith, q, r) in
              let head = check_entry-IsEntry entry one b first q in
              let tail = check_data-IsEntry queue rest c ok r in
              (rw same (head.0, tail.0), ap₂ ◌∷◌ (sym head.1) tail.1 ∙ ap conn_ids (sym same))
        ]
      ]

module _ {U W : Type 0} (handlers : Handlers U W) where
  -- All final frames are processed, and none is kept.
  pub process_frames_final :
      (request : Request U) (frames : List RequestWebSocket) (w : W)
      → All IsFinal frames
      → (process_frames handlers request frames w).1 ≡ []
  unfolding process_frames
  process_frames_final request [] w ok = refl
  process_frames_final request (frame ∷ frames) w (final, ok) = ground (
    arith,
    process_frames_final (handlers.process_ws_request request frame w).0 frames
        (handlers.process_ws_request request frame w).1 ok,
  )

  empty_list : {A : Type 0} (xs : List A) → length xs ≡ 0 → xs ≡ []
  empty_list [] e = refl
  empty_list (x ∷ xs) e = absurd (omega arith)

  -- When the frames that wait for a connection are final, and wait only behind the handshake and
  -- marked for dispatch, then none of them waits after the connection has been served.
  process_entry-request_list :
      (entry : RequestData U) (w : W)
      → IsEntry entry
      → (process_entry handlers entry w).0.request_list ≡ []
  unfolding process_entry
  process_entry-request_list entry w ok =
      let rest = process_frames_final entry.request entry.request_list w ok.frames in
      elim ok.waiting [
        | inl empty ↦ ground (arith, rest, empty_list entry.request_list empty)
        | inr (late, ready) ↦ ground (arith, rest, empty_list entry.request_list)
      ]

  process_entry-conn_id :
      (entry : RequestData U) (w : W) → (process_entry handlers entry w).0.conn_id ≡ entry.conn_id
  unfolding process_entry
  process_entry-conn_id entry w = ground arith

  process_entry-IsEntry :
      (entry : RequestData U) (w : W) → IsEntry entry → IsEntry (process_entry handlers entry w).0
  process_entry-IsEntry entry w ok =
      let empty = process_entry-request_list entry w ok in
      record { frames = rw empty tt; waiting = inl (rw empty refl) }

  pub process_requests-IsEntry :
      (queue : List (RequestData U)) (w : W)
      → All IsEntry queue
      → All IsEntry (process_requests handlers queue w).0
        × (conn_ids queue ≡ conn_ids (process_requests handlers queue w).0)
  unfolding process_requests
  process_requests-IsEntry [] w ok = (tt, refl)
  process_requests-IsEntry (entry ∷ queue) w (first, ok) =
      let out = process_entry handlers entry w in
      let more = process_requests-IsEntry queue out.1 ok in
      (
        (process_entry-IsEntry entry w first, more.0),
        ap₂ ◌∷◌ (sym (process_entry-conn_id entry w)) more.1,
      )
