-- ===== src/Server/Queue.antt =====
-- The queue of connections: their numbers stay distinct, and an operation on one of them leaves the
-- others as they are.
use web_socket_cpp.Base.{
  ℕ, ◌≢◌, inl, inr, List, [], ◌∷◌, ◌++◌, Option, none, some, ◌≡◌, refl, sym, arith, ◌==◌,
  if◌then◌else◌, Bool-cases, Option-cases, ByteArray,
}
use web_socket_cpp.Request.{UrlOps}
use web_socket_cpp.Server.{
  RequestData, get_request, put_to_queue, remove_from_queue, init_connection,
}

module _ {U : Type 0} where
  -- The number stands nowhere in the queue.
  abbrev pub IsNew : ℕ → List (RequestData U) → Type 0
  IsNew conn_id [] = Unit
  IsNew conn_id (entry ∷ queue) = (entry.conn_id ≢ conn_id) × IsNew conn_id queue

  abbrev pub IsDistinct : List (RequestData U) → Type 0
  IsDistinct [] = Unit
  IsDistinct (entry ∷ queue) = IsNew entry.conn_id queue × IsDistinct queue

  abbrev pub conn_ids : List (RequestData U) → List ℕ
  conn_ids [] = []
  conn_ids (entry ∷ queue) = entry.conn_id ∷ conn_ids queue

  abbrev pub appended : ByteArray → Option (RequestData U) → Option (RequestData U)
  appended more none = none
  appended more (some entry) = some (record entry { bytes = entry.bytes ++ more })

  -- What arrives for a connection is appended to its bytes, in the order of arrival; every other
  -- connection, and one that is not in the queue, is found as before.
  get_request-put_to_queue :
      (c d : ℕ) (more : ByteArray) (queue : List (RequestData U))
      → get_request c (put_to_queue d more queue)
        ≡ (if c == d then appended more (get_request c queue) else get_request c queue)
  unfolding get_request put_to_queue
  get_request-put_to_queue c d more [] = ground arith
  get_request-put_to_queue c d more (entry ∷ queue) =
      ground (arith, get_request-put_to_queue c d more queue)

  get_request-IsNew :
      (c : ℕ) (queue : List (RequestData U)) → get_request c queue ≡ none → IsNew c queue
  unfolding get_request
  get_request-IsNew c [] h = tt
  get_request-IsNew c (entry ∷ queue) h =
      (λ e. ground arith, get_request-IsNew c queue (ground arith))

  get_request_new :
      (c : ℕ) (queue : List (RequestData U)) → IsNew c queue → get_request c queue ≡ none
  unfolding get_request
  get_request_new c [] h = refl
  get_request_new c (entry ∷ queue) (differs, new) = ground (arith, get_request_new c queue new)

  -- When the connections' numbers are distinct, one that is removed is found no more, and the others
  -- are found as before.
  get_request-remove_from_queue :
      (c d : ℕ) (queue : List (RequestData U))
      → IsDistinct queue
      → get_request c (remove_from_queue d queue) ≡ (if c == d then none else get_request c queue)
  unfolding get_request remove_from_queue
  get_request-remove_from_queue c d [] u = ground arith
  get_request-remove_from_queue c d (entry ∷ queue) (new, u) =
      ground
        (arith, get_request-remove_from_queue c d queue u, get_request_new entry.conn_id queue new)

  remove_from_queue-IsNew :
      (c d : ℕ) (queue : List (RequestData U)) → IsNew c queue → IsNew c (remove_from_queue d queue)
  unfolding remove_from_queue
  remove_from_queue-IsNew c d [] new = new
  remove_from_queue-IsNew c d (entry ∷ queue) (differs, new) =
      elim (Bool-cases (entry.conn_id == d)) [
        | inl same ↦ rw same new
        | inr other ↦ rw other (differs, remove_from_queue-IsNew c d queue new)
      ]

  pub remove_from_queue-IsDistinct :
      (d : ℕ) (queue : List (RequestData U))
      → IsDistinct queue
      → IsDistinct (remove_from_queue d queue)
  unfolding remove_from_queue
  remove_from_queue-IsDistinct d [] u = u
  remove_from_queue-IsDistinct d (entry ∷ queue) (new, u) = elim (Bool-cases (entry.conn_id == d)) [
    | inl same ↦ rw same u
    | inr other ↦
        rw other (
          remove_from_queue-IsNew entry.conn_id d queue new,
          remove_from_queue-IsDistinct d queue u,
        )
  ]

  append-IsNew :
      (c : ℕ) (queue : List (RequestData U)) (last : RequestData U)
      → IsNew c queue
      → last.conn_id ≢ c
      → IsNew c (queue ++ last ∷ [])
  append-IsNew c [] last new differs = (differs, tt)
  append-IsNew c (entry ∷ queue) last (first, new) differs =
      (first, append-IsNew c queue last new differs)

  append-IsDistinct :
      (queue : List (RequestData U)) (last : RequestData U)
      → IsDistinct queue
      → IsNew last.conn_id queue
      → IsDistinct (queue ++ last ∷ [])
  append-IsDistinct [] last u new = (tt, tt)
  append-IsDistinct (entry ∷ queue) last (first, u) (differs, new) = (
    append-IsNew entry.conn_id queue last first (λ e. differs (sym e)),
    append-IsDistinct queue last u new,
  )

  -- Queues with the same numbers.
  same_ids-IsNew :
      (c : ℕ) (queue next : List (RequestData U))
      → conn_ids queue ≡ conn_ids next
      → IsNew c queue
      → IsNew c next
  same_ids-IsNew c [] [] e new = tt
  same_ids-IsNew c [] (entry ∷ next) e new = absurd (ground (arith, e))
  same_ids-IsNew c (entry ∷ queue) [] e new = absurd (ground (arith, e))
  same_ids-IsNew c (entry ∷ queue) (other ∷ next) e (differs, new) =
      (λ q. differs (ground arith), same_ids-IsNew c queue next (ground arith) new)

  pub same_ids-IsDistinct :
      (queue next : List (RequestData U))
      → conn_ids queue ≡ conn_ids next
      → IsDistinct queue
      → IsDistinct next
  same_ids-IsDistinct [] [] e u = tt
  same_ids-IsDistinct [] (entry ∷ next) e u = absurd (ground (arith, e))
  same_ids-IsDistinct (entry ∷ queue) [] e u = absurd (ground (arith, e))
  same_ids-IsDistinct (entry ∷ queue) (other ∷ next) e (new, u) =
      let first : entry.conn_id ≡ other.conn_id = ground arith in
      (
        rw first at (same_ids-IsNew entry.conn_id queue next (ground arith) new),
        same_ids-IsDistinct queue next (ground arith) u,
      )

  pub conn_ids-put_to_queue :
      (d : ℕ) (more : ByteArray) (queue : List (RequestData U))
      → conn_ids queue ≡ conn_ids (put_to_queue d more queue)
  unfolding put_to_queue
  conn_ids-put_to_queue d more [] = refl
  conn_ids-put_to_queue d more (entry ∷ queue) = ground (arith, conn_ids-put_to_queue d more queue)

module _ {U : Type 0} (url : UrlOps U) where
  pub init_connection-IsDistinct :
      (c : ℕ) (queue : List (RequestData U))
      → IsDistinct queue
      → IsDistinct (init_connection url c queue)
  unfolding init_connection
  init_connection-IsDistinct c queue u = elim (Option-cases (get_request c queue)) [
    | inl absent ↦
        rw (init_connection, absent)
          (append-IsDistinct queue _ u (get_request-IsNew c queue absent))
    | inr (entry, present) ↦ rw (init_connection, present) u
  ]
