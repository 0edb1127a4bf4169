-- ===== src/Socket/Server/Reading.antt =====
-- The steps of the task that serves the events: data that arrives.
use web_socket_cpp.Base.{
  ℕ, ◌+◌, ◌≤◌, ◌<◌, ◌⊎◌, true, false, List, [], ◌∷◌, ◌++◌, map, Option, none, some, ◌≡◌, refl, sym,
  ap, ap₂, ◌∙◌, arith, inl, inr, append-nil, All, Option-cases, ByteArray, length, if◌then◌else◌,
}
use web_socket_cpp.Pool.{Region, MemoryPool, allocate, free}
use web_socket_cpp.Pool.Invariant.{IsValid, IsApart}
use web_socket_cpp.Pool.Release.{free-allocate}
use web_socket_cpp.Socket.Memory.{Memory, store, load-store, load-store_apart}
use web_socket_cpp.Socket.Server.{
  Task, connection, disconnection, incoming, Connection, new_connection, ServerSocket, ReadResult,
  Event, connected, disconnected, data_ready, buffer_size, slot, set_slot, push, assign,
  find_free_connection, accept_client, read_into, handle_read, close_connection, process_read,
}
use web_socket_cpp.Socket.Server
use web_socket_cpp.Socket.Server.Slots.{get_or-outside, get_or-le-sum_of}
use web_socket_cpp.Socket.Server.Counting.{regions_at, Given, allocate-Given, regions_at-apart}
use web_socket_cpp.Socket.Server.Invariant.{
  pending, count_in, IsSmall, meaning, IsConsistent, at_input,
}
use web_socket_cpp.Socket.Server.Update.{after-IsConsistent}
use web_socket_cpp.Socket.Server.Pushing.{
  push-IsUpdate, IsEnded-incoming, running_of_watched, close_connection-IsConsistent,
}

-- What is stored apart from the buffers of the tasks does not change what they mean.
meaning_apart :
    (pointer : ℕ) (bytes : ByteArray) (memory : Memory) (regions : List Region) (tasks : List Task)
    → length bytes ≤ buffer_size
    → All (IsApart pointer buffer_size) regions
    → All IsSmall tasks
    → ((q : ℕ) → count_in q tasks ≤ regions_at buffer_size q regions)
    → map (meaning (store pointer bytes memory)) tasks ≡ map (meaning memory) tasks
meaning_apart pointer bytes memory regions [] short apart small owns = refl
meaning_apart pointer bytes memory regions (connection ∷ tasks) short apart (_, small) owns =
    ap (◌∷◌ connected) (meaning_apart pointer bytes memory regions tasks short apart small owns)
meaning_apart pointer bytes memory regions (disconnection ∷ tasks) short apart (_, small) owns =
    ap (◌∷◌ disconnected) (meaning_apart pointer bytes memory regions tasks short apart small owns)
meaning_apart pointer bytes memory regions (incoming at n ∷ tasks) short apart (le, small) owns =
    let there : 0 < regions_at buffer_size at regions = ground (arith, owns at) in
    let beside : (at + n ≤ pointer) ⊎ (pointer + length bytes ≤ at) =
      ground (arith, regions_at-apart buffer_size at pointer regions there apart) in
    ap₂ ◌∷◌ (ap data_ready (load-store_apart at n pointer bytes memory beside)) (
      meaning_apart pointer bytes memory regions tasks short apart small
        (λ q. ground (arith, owns q)))

-- What the kernel reads: at least one byte, and at most as many as the buffer takes.
abbrev pub IsRead : ReadResult → Type 0
IsRead (Server.arrived bytes) = (0 < length bytes) × (length bytes ≤ buffer_size)
IsRead _ = Unit

-- What the socket of a slot gives in a step.
abbrev read_events : ReadResult → List Event
read_events (Server.arrived bytes) = data_ready bytes ∷ []
read_events Server.again = []
read_events _ = disconnected ∷ []

abbrev pub arrivals : ServerSocket → ReadResult → List Event
arrivals server result = elim (allocate server.pool buffer_size).1 [
  | none ↦ disconnected ∷ []
  | some pointer ↦ read_events result
]

module _ (server : ServerSocket) {inputs : List (ℕ × Event)} {outputs : List (Option ℕ × Event)}
    (sound : IsConsistent server inputs outputs) where
  -- What a slot's tasks hold are regions.
  pub slot-owned :
      (i q : ℕ)
      → count_in q (pending (slot server i)) ≤ regions_at buffer_size q server.pool.regions
  slot-owned i q = omega (
    arith,
    sound.buffers q,
    get_or-le-sum_of (λ (conn : Connection). count_in q (pending conn)) server.connections i
        new_connection refl,
  )

  arrived-IsConsistent :
      (i pointer : ℕ) (bytes : ByteArray) (pool : MemoryPool)
      → (slot server i).watched ≡ true
      → length bytes ≤ buffer_size
      → Given buffer_size pointer server.pool pool
      → IsConsistent
          (set_slot i
            (push (incoming pointer (length bytes)) (slot server i))
            (record server { pool = pool; memory = store pointer bytes server.memory }))
          (inputs ++ at_input i (data_ready bytes ∷ []))
          (outputs ++ [])
  arrived-IsConsistent i pointer bytes pool watched short given =
      let runs = running_of_watched i (slot server i) (sound.slots i) watched in
      after-IsConsistent i (push (incoming pointer (length bytes)) (slot server i)) pool
        (store pointer bytes server.memory) (data_ready bytes ∷ []) [] server
        (get_or-outside server.connections i watched)
        (push-IsUpdate i (incoming pointer (length bytes)) (data_ready bytes)
          (slot server i).watched pool (store pointer bytes server.memory) server (sound.slots i)
          (record {
            runs = runs;
            valid = given.valid;
            counted = λ q. omega (arith, given.counted q);
            kept = λ j.
                meaning_apart pointer bytes server.memory server.pool.regions
                  (pending (slot server j)) short given.apart (sound.slots j).small (slot-owned j);
            ended = rw watched (
                IsEnded-incoming pointer (length bytes) (pending (slot server i))
                  (rw watched at ((sound.slots i).ended runs)));
            small = short;
            means = ap data_ready (load-store pointer bytes server.memory);
          }))
        sound

  -- A buffer that nobody frees is lost, and nothing else changes.
  kept-IsConsistent :
      (pointer : ℕ) (pool : MemoryPool)
      → Given buffer_size pointer server.pool pool
      → IsConsistent (record server { pool = pool }) (inputs ++ []) (outputs ++ [])
  kept-IsConsistent pointer pool given = record {
    pool = given.valid;
    buffers = λ q. omega (arith, sound.buffers q, given.counted q);
    slots = sound.slots;
    order = λ i. rw (append-nil inputs) (rw (append-nil outputs) (sound.order i));
  }

  stopped-IsConsistent : IsConsistent (record server { process_running = false }) inputs outputs
  stopped-IsConsistent = record {
    pool = sound.pool;
    buffers = sound.buffers;
    slots = sound.slots;
    order = sound.order;
  }

-- A buffer that is given back leaves the pool as it was.
returned :
    (server : ServerSocket) (pointer : ℕ)
    → IsValid server.pool
    → (allocate server.pool buffer_size).1 ≡ some pointer
    → record server { pool = free (allocate server.pool buffer_size).0 (some pointer) } ≡ server
returned server pointer valid e =
    ap (λ (p : MemoryPool). record server { pool = p })
      (ap (free (allocate server.pool buffer_size).0) (sym e)
        ∙ free-allocate server.pool buffer_size valid)

read_into-IsConsistent :
    (server : ServerSocket) {inputs : List (ℕ × Event)} {outputs : List (Option ℕ × Event)}
    (i pointer : ℕ) (result : ReadResult)
    → IsConsistent server inputs outputs
    → (slot server i).watched ≡ true
    → IsRead result
    → (allocate server.pool buffer_size).1 ≡ some pointer
    → (let out =
          read_into i pointer result
            (record server { pool = (allocate server.pool buffer_size).0 }) in
        IsConsistent
          (if out.1 then out.0 else close_connection i out.0)
          (inputs ++ at_input i (read_events result))
          (outputs ++ []))
unfolding read_into
read_into-IsConsistent server i pointer (Server.arrived bytes) sound watched (some_bytes, short) e =
    arrived-IsConsistent server sound i pointer bytes (allocate server.pool buffer_size).0 watched
      short (allocate-Given buffer_size pointer server.pool sound.pool (omega arith) e)
read_into-IsConsistent server i pointer Server.again sound watched _ e =
    kept-IsConsistent server sound pointer (allocate server.pool buffer_size).0
      (allocate-Given buffer_size pointer server.pool sound.pool (omega arith) e)
read_into-IsConsistent server i pointer Server.ended sound watched _ e =
    rw (returned server pointer sound.pool e) (close_connection-IsConsistent server sound i watched)
read_into-IsConsistent server i pointer Server.failed sound watched _ e =
    rw (returned server pointer sound.pool e) (close_connection-IsConsistent server sound i watched)

handle_full :
    (i : ℕ) (result : ReadResult) (server : ServerSocket)
    → (allocate server.pool buffer_size).1 ≡ none
    → handle_read i result server ≡ (record server { process_running = false }, false)
unfolding handle_read
handle_full i result server e = rw (handle_read, e) refl

handle_given :
    (i pointer : ℕ) (result : ReadResult) (server : ServerSocket)
    → (allocate server.pool buffer_size).1 ≡ some pointer
    → handle_read i result server
      ≡ read_into i pointer result (record server { pool = (allocate server.pool buffer_size).0 })
unfolding handle_read
handle_given i pointer result server e = rw (handle_read, e) refl

pub process_read-IsConsistent :
    (server : ServerSocket) {inputs : List (ℕ × Event)} {outputs : List (Option ℕ × Event)} (i : ℕ)
    (result : ReadResult)
    → IsConsistent server inputs outputs
    → (slot server i).watched ≡ true
    → IsRead result
    → IsConsistent
        (process_read i result server)
        (inputs ++ at_input i (arrivals server result))
        (outputs ++ [])
unfolding process_read
process_read-IsConsistent server i result sound watched ok =
    elim (Option-cases (allocate server.pool buffer_size).1) [
      | inl full ↦
          rw (process_read, handle_full i result server full, arrivals, full)
            (close_connection-IsConsistent (record server { process_running = false })
              (stopped-IsConsistent server sound) i watched)
      | inr (pointer, e) ↦
          rw (process_read, handle_given i pointer result server e, arrivals, e)
            (read_into-IsConsistent server i pointer result sound watched ok e)
    ]
