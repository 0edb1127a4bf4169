-- ===== src/Socket/Server/Invariant.antt =====
-- What holds between the steps of the server's socket: the buffers in the queues are regions of the pool
-- of their own, and what a slot's socket has given is what its callbacks were told and what still waits.
use web_socket_cpp.Base.{
  ℕ, ◌+◌, ◌≤◌, ◌≢◌, Bool, true, false, List, [], ◌∷◌, ◌++◌, map, Option, none, some, ◌≡◌, refl,
  arith, All, ◌==◌, if◌then◌else◌,
}
use web_socket_cpp.Pool.Invariant.{IsValid}
use web_socket_cpp.Socket.Memory.{Memory, load}
use web_socket_cpp.Socket.Server.{
  Task, connection, disconnection, incoming, Connection, ServerSocket, Event, connected,
  disconnected, data_ready, buffer_size, slot,
}
use web_socket_cpp.Socket.Server.Slots.{sum_of}
use web_socket_cpp.Socket.Server.Counting.{regions_at, one_at}

abbrev pub now : Option (Task × Option ℕ) → List Task
now none = []
now (some (task, idx)) = task ∷ []

-- The tasks that are not done: the one in hand, and the queue.
abbrev pub pending : Connection → List Task
pending conn = now conn.current ++ conn.queue

abbrev pub count_in : ℕ → List Task → ℕ
count_in q [] = 0
count_in q (connection ∷ tasks) = count_in q tasks
count_in q (disconnection ∷ tasks) = count_in q tasks
count_in q (incoming pointer size ∷ tasks) = one_at pointer q + count_in q tasks

abbrev pub IsSmall : Task → Type 0
IsSmall connection = Unit
IsSmall disconnection = Unit
IsSmall (incoming pointer size) = size ≤ buffer_size

-- A slot that is watched has no end in its tasks, and one that is not has it as the last of them.
abbrev pub IsEnded : Bool → List Task → Type 0
IsEnded watched [] = watched ≡ true
IsEnded watched (connection ∷ tasks) = IsEnded watched tasks
IsEnded watched (disconnection ∷ tasks) = (watched ≡ false) × (tasks ≡ [])
IsEnded watched (incoming pointer size ∷ tasks) = IsEnded watched tasks

pub record IsSlot (i : ℕ) (conn : Connection) : Type 0 where
  pub named : conn.running ≡ true → conn.idx ≡ some i
  pub opened : conn.fd ≡ none → conn.running ≡ false
  pub idle : conn.running ≡ false → pending conn ≡ []
  pub unwatched : conn.running ≡ false → conn.watched ≡ false
  pub ended : conn.running ≡ true → IsEnded conn.watched (pending conn)
  pub taken : (task : Task) (k : Option ℕ) → conn.current ≡ some (task, k) → k ≡ some i
  pub small : All IsSmall (pending conn)

abbrev pub meaning : Memory → Task → Event
meaning memory connection = connected
meaning memory disconnection = disconnected
meaning memory (incoming pointer size) = data_ready (load pointer size memory)

-- The events of one slot.
abbrev pub given : ℕ → List (ℕ × Event) → List Event
given i [] = []
given i ((k, event) ∷ events) = if k == i then event ∷ given i events else given i events

abbrev is_index : Option ℕ → ℕ → Bool
is_index none i = false
is_index (some k) i = k == i

abbrev pub told : ℕ → List (Option ℕ × Event) → List Event
told i [] = []
told i ((k, event) ∷ events) = if is_index k i then event ∷ told i events else told i events

abbrev pub waiting : ServerSocket → ℕ → List Event
waiting server i = map (meaning server.memory) (pending (slot server i))

abbrev pub owned : ℕ → List Connection → ℕ
owned q connections = sum_of (λ (conn : Connection). count_in q (pending conn)) connections

pub record IsConsistent (server : ServerSocket) (inputs : List (ℕ × Event))
    (outputs : List (Option ℕ × Event)) : Type 0 where
  pub pool : IsValid server.pool
  pub buffers : (q : ℕ) → owned q server.connections ≤ regions_at buffer_size q server.pool.regions
  pub slots : (i : ℕ) → IsSlot i (slot server i)
  pub order : (i : ℕ) → given i inputs ≡ told i outputs ++ waiting server i

pub given-append : (i : ℕ) (a b : List (ℕ × Event)) → given i (a ++ b) ≡ given i a ++ given i b
given-append i [] b = refl
given-append i ((k, event) ∷ a) b = ground (arith, given-append i a b)

pub told-append : (i : ℕ) (a b : List (Option ℕ × Event)) → told i (a ++ b) ≡ told i a ++ told i b
told-append i [] b = refl
told-append i ((k, event) ∷ a) b = ground (arith, told-append i a b)

-- The events that a step adds, all of one slot.
abbrev pub at_input : ℕ → List Event → List (ℕ × Event)
at_input k events = map (λ (event : Event). (k, event)) events

abbrev pub at_output : ℕ → List Event → List (Option ℕ × Event)
at_output k events = map (λ (event : Event). (some k, event)) events

pub given-at_input_same : (k : ℕ) (events : List Event) → given k (at_input k events) ≡ events
given-at_input_same k [] = refl
given-at_input_same k (event ∷ events) = ground (arith, given-at_input_same k events)

pub given-at_input_other :
    (k i : ℕ) (events : List Event) → k ≢ i → given i (at_input k events) ≡ []
given-at_input_other k i [] h = refl
given-at_input_other k i (event ∷ events) h = ground (arith, given-at_input_other k i events h)

pub told-at_output_same : (k : ℕ) (events : List Event) → told k (at_output k events) ≡ events
told-at_output_same k [] = refl
told-at_output_same k (event ∷ events) = ground (arith, told-at_output_same k events)

pub told-at_output_other :
    (k i : ℕ) (events : List Event) → k ≢ i → told i (at_output k events) ≡ []
told-at_output_other k i [] h = refl
told-at_output_other k i (event ∷ events) h = ground (arith, told-at_output_other k i events h)
