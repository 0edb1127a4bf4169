-- ===== src/Server/Steps.antt =====
-- The callbacks of the socket and the rounds of the request thread as steps on the queue, in any
-- order, and what holds in every state that they reach.
use web_socket_cpp.Base.{
  ℕ, ◌+◌, ◌<◌, Bool, inl, inr, List, [], ◌∷◌, Option, some, ◌≡◌, refl, ByteArray, All, All-append,
  size_mod, Option-cases, Bool-cases, ◌==◌,
}
use web_socket_cpp.Frame.Request.{Config}
use web_socket_cpp.Request.{UrlOps}
use web_socket_cpp.Server.{
  RequestData, put_to_queue, remove_from_queue, init_connection, check_data, Handlers,
  process_requests, get_request,
}
use web_socket_cpp.Server.Queue.{
  IsDistinct, same_ids-IsDistinct, conn_ids-put_to_queue, init_connection-IsDistinct,
  remove_from_queue-IsDistinct,
}
use web_socket_cpp.Server.Dispatch.{IsEntry, check_data-IsEntry, process_requests-IsEntry}

module _ {U W : Type 0} (url : UrlOps U) (to_number : ByteArray → Option ℕ) (config : Config)
    (handlers : Handlers U W) where
  -- A state is the queue and what the handlers keep.
  pub data Step : List (RequestData U) × W → List (RequestData U) × W → Type 0 where
    client_connected :
        (c : ℕ) {queue : List (RequestData U)} {w : W}
        → Step (queue, w) (init_connection url c queue, w)
    data_ready :
        (c : ℕ) (more : ByteArray) {queue : List (RequestData U)} {w : W}
        → Step (queue, w) (put_to_queue c more queue, w)
    client_disconnected :
        (c : ℕ) {queue : List (RequestData U)} {w : W}
        → Step (queue, w) (remove_from_queue c queue, w)
    checked :
        {queue next : List (RequestData U)} {found : Bool} {w : W}
        → check_data url to_number config queue ≡ some (next, found)
        → Step (queue, w) (next, w)
    processed :
        {queue : List (RequestData U)} {w : W} → Step (queue, w) (process_requests handlers queue w)

  -- The states that are reached from the empty queue.
  pub data Reachable (w : W) : List (RequestData U) × W → Type 0 where
    initial : Reachable w ([], w)
    after : {s t : List (RequestData U) × W} → Reachable w s → Step s t → Reachable w t

  pub record IsValid (s : List (RequestData U) × W) : Type 0 where
    pub distinct : IsDistinct s.0
    pub entries : All IsEntry s.0

  put_to_queue-IsEntry :
      (c : ℕ) (more : ByteArray) (queue : List (RequestData U))
      → All IsEntry queue
      → All IsEntry (put_to_queue c more queue)
  unfolding put_to_queue
  put_to_queue-IsEntry c more [] ok = ok
  put_to_queue-IsEntry c more (entry ∷ queue) (first, ok) = elim (Bool-cases (entry.conn_id == c)) [
    | inl same ↦ rw same (record { frames = first.frames; waiting = first.waiting }, ok)
    | inr other ↦ rw other (first, put_to_queue-IsEntry c more queue ok)
  ]

  remove_from_queue-IsEntry :
      (c : ℕ) (queue : List (RequestData U))
      → All IsEntry queue
      → All IsEntry (remove_from_queue c queue)
  unfolding remove_from_queue
  remove_from_queue-IsEntry c [] ok = ok
  remove_from_queue-IsEntry c (entry ∷ queue) (first, ok) = elim (Bool-cases (entry.conn_id == c)) [
    | inl same ↦ rw same ok
    | inr other ↦ rw other (first, remove_from_queue-IsEntry c queue ok)
  ]

  init_connection-IsEntry :
      (c : ℕ) (queue : List (RequestData U))
      → All IsEntry queue
      → All IsEntry (init_connection url c queue)
  unfolding init_connection
  init_connection-IsEntry c queue ok = elim (Option-cases (get_request c queue)) [
    | inl absent ↦
        rw (init_connection, absent)
          (All-append IsEntry queue _ ok (record { frames = tt; waiting = inl refl }, tt))
    | inr (entry, present) ↦ rw (init_connection, present) ok
  ]

  module _ (limit : config.max_frame_size + config.max_message_size + 14 < size_mod) where
    Step-IsValid : {s t : List (RequestData U) × W} → Step s t → IsValid s → IsValid t
    Step-IsValid (client_connected c) ok = record {
      distinct = init_connection-IsDistinct url c _ ok.distinct;
      entries = init_connection-IsEntry c _ ok.entries;
    }
    Step-IsValid (data_ready c more) ok = record {
      distinct = same_ids-IsDistinct _ _ (conn_ids-put_to_queue c more _) ok.distinct;
      entries = put_to_queue-IsEntry c more _ ok.entries;
    }
    Step-IsValid (client_disconnected c) ok = record {
      distinct = remove_from_queue-IsDistinct c _ ok.distinct;
      entries = remove_from_queue-IsEntry c _ ok.entries;
    }
    Step-IsValid (checked e) ok =
        let kept = check_data-IsEntry url to_number config limit _ _ _ ok.entries e in
        record { distinct = same_ids-IsDistinct _ _ kept.1 ok.distinct; entries = kept.0 }
    Step-IsValid processed ok =
        let kept = process_requests-IsEntry handlers _ _ ok.entries in
        record { distinct = same_ids-IsDistinct _ _ kept.1 ok.distinct; entries = kept.0 }

    -- When the limits fit into 2^64: in every state that the callbacks and the request thread reach,
    -- in any order, the connections' numbers are distinct, every frame that waits is final, and a
    -- connection with waiting frames has its handshake behind it and is marked for dispatch.
    pub Reachable-IsValid : {w : W} {s : List (RequestData U) × W} → Reachable w s → IsValid s
    Reachable-IsValid initial = record { distinct = tt; entries = tt }
    Reachable-IsValid (after r step) = Step-IsValid step (Reachable-IsValid r)
