-- ===== src/Socket/Server/Draining.antt =====
-- The worker of a slot that is left alone: how many rounds it needs for its queue.
use web_socket_cpp.Base.{
  ℕ, zero, suc, ◌-◌, ◌*◌, ◌<◌, ◌≤◌, true, false, List, [], ◌∷◌, ◌++◌, Option, none, ◌≡◌, refl, sym,
  ap, ◌∙◌, arith, Bool-cases, Option-cases, inl, inr, append-nil, append_assoc, subst, length,
  size_mod,
}
use web_socket_cpp.Pool.{free}
use web_socket_cpp.Socket.Server.{
  Task, connection, disconnection, incoming, Connection, new_connection, ServerSocket, Event,
  buffer_size, slot, take_task, take_slot, run_task, perform_task, process_task,
}
use web_socket_cpp.Socket.Server.Slots.{
  length-set, get_or-set_same, set-get_or, get_or-outside_running,
}
use web_socket_cpp.Socket.Server.Invariant.{pending, IsSlot, given, told, IsConsistent}
use web_socket_cpp.Socket.Server.Working.{perform_task-IsConsistent}
use web_socket_cpp.Socket.Server.Taking.{stays, takes, take_task-Taking, take_slot-IsConsistent}
use web_socket_cpp.Socket.Server.Steps.{Reachable, Reachable-IsConsistent}

-- A worker with nothing in hand has an empty queue.
idle_queue :
    (conn : Connection) (queue : List Task)
    → conn.running ≡ true
    → (take_task conn).current ≡ none
    → conn.queue ≡ queue
    → (take_task conn).queue ≡ []
unfolding take_task
idle_queue conn [] runs nothing q = elim (Option-cases conn.current) [
  | inl e ↦ ground arith
  | inr (hand, e) ↦ ground arith
]
idle_queue conn (task ∷ queue) runs nothing q = elim (Option-cases conn.current) [
  | inl e ↦ absurd (ground (arith, nothing))
  | inr (hand, e) ↦ absurd (ground (arith, nothing))
]

take_task-pending : (conn : Connection) → pending (take_task conn) ≡ pending conn
take_task-pending conn = elim (take_task-Taking conn) [
  | stays same ↦ ap (λ (c : Connection). pending c) same
  | takes task queue _ free q taken ↦ rw (taken, free, q) refl
]

clean :
    (server : ServerSocket) {inputs : List (ℕ × Event)} {outputs : List (Option ℕ × Event)}
    → IsConsistent server (inputs ++ []) (outputs ++ [])
    → IsConsistent server inputs outputs
clean server {inputs} {outputs} sound = rw (append-nil inputs, append-nil outputs) at sound

process_task-IsConsistent :
    (rounds i : ℕ) (server : ServerSocket) {inputs : List (ℕ × Event)}
    {outputs : List (Option ℕ × Event)}
    → IsConsistent server inputs outputs
    → (let out = process_task rounds i server in IsConsistent out.0 inputs (outputs ++ out.1))
unfolding process_task
process_task-IsConsistent zero i server {inputs} {outputs} sound = rw (append-nil outputs) sound
process_task-IsConsistent (suc rounds) i server {inputs} {outputs} sound =
    let out = perform_task i (take_slot i server) in
    let next : IsConsistent out.0 inputs (outputs ++ out.1) = rw (append-nil inputs) at (
      perform_task-IsConsistent (take_slot i server) i
        (clean (take_slot i server) (take_slot-IsConsistent server i sound))) in
    subst (IsConsistent (process_task rounds i out.0).0 inputs)
      (append_assoc outputs out.1 (process_task rounds i out.0).1)
      (process_task-IsConsistent rounds i out.0 next)

take_slot-inside :
    (i : ℕ) (server : ServerSocket)
    → i < length server.connections
    → i < length (take_slot i server).connections
unfolding take_slot
take_slot-inside i server inside =
    omega (arith, inside, length-set server.connections i (take_task (slot server i)))

module _ (i : ℕ) (server : ServerSocket) (inside : i < length server.connections) where
  slot-take_slot : slot (take_slot i server) i ≡ take_task (slot server i)
  unfolding take_slot
  slot-take_slot =
      get_or-set_same server.connections i (take_task (slot server i)) new_connection inside

  run_task-pending :
      (task : Task) (k : Option ℕ)
      → pending (slot (run_task i (task, k) server).0 i) ≡ (slot server i).queue
  unfolding run_task
  run_task-pending connection k =
      ap (λ (c : Connection). pending c)
        (get_or-set_same server.connections i (record (slot server i) { current = none })
          new_connection inside)
  run_task-pending (incoming pointer size) k =
      ap (λ (c : Connection). pending c)
        (get_or-set_same server.connections i (record (slot server i) { current = none })
          new_connection inside)
  run_task-pending disconnection k =
      ap (λ (c : Connection). pending c)
        (get_or-set_same server.connections i
          (record (slot server i) { fd = none; idx = none; running = false; current = none })
          new_connection inside)

perform_task-length :
    (i : ℕ) (server : ServerSocket)
    → i < length server.connections
    → ((slot server i).current ≡ none → (slot server i).queue ≡ [])
    → length (pending (slot (perform_task i server).0 i)) ≤ length (pending (slot server i)) - 1
unfolding perform_task
perform_task-length i server inside idle = elim (Option-cases (slot server i).current) [
  | inl e ↦
      let tasks : pending (slot server i) ≡ [] = rw (e, idle e) refl in
      let same : (perform_task i server).0 ≡ server = rw (perform_task, e) refl in
      rw (same, tasks) (omega arith)
  | inr ((task, k), e) ↦
      rw (perform_task, e) (rw (run_task-pending i server inside task k) (omega arith))
]

-- The round of a worker that has ended changes nothing.
stopped_round :
    (i : ℕ) (server : ServerSocket)
    → (slot server i).running ≡ false
    → pending (slot server i) ≡ []
    → (perform_task i (take_slot i server)).0 ≡ server
unfolding perform_task take_slot take_task
stopped_round i server stopped none_left =
    let nothing : (slot server i).current ≡ none = elim (Option-cases (slot server i).current) [
      | inl e ↦ e
      | inr (hand, e) ↦ absurd (ground (arith, none_left, e))
    ] in
    let same : take_slot i server ≡ server =
      rw (take_slot, take_task, stopped, set-get_or server.connections i new_connection) refl in
    rw same (rw (perform_task, nothing) refl)

round-length :
    (i : ℕ) (server : ServerSocket)
    → IsSlot i (slot server i)
    → length (pending (slot (perform_task i (take_slot i server)).0 i))
      ≤ length (pending (slot server i)) - 1
round-length i server ok = elim (Bool-cases (slot server i).running) [
  | inr stopped ↦
      rw (stopped_round i server stopped (ok.idle stopped), ok.idle stopped) (omega arith)
  | inl runs ↦
      let inside = get_or-outside_running server.connections i runs in
      let same = slot-take_slot i server inside in
      let bound =
        perform_task-length i (take_slot i server) (take_slot-inside i server inside)
          (rw same (λ nothing. idle_queue (slot server i) _ runs nothing refl)) in
      rw (same, take_task-pending (slot server i)) at bound
]

process_task-length :
    (rounds i : ℕ) (server : ServerSocket) {inputs : List (ℕ × Event)}
    {outputs : List (Option ℕ × Event)}
    → IsConsistent server inputs outputs
    → length (pending (slot (process_task rounds i server).0 i))
      ≤ length (pending (slot server i)) - rounds
unfolding process_task
process_task-length zero i server sound = omega arith
process_task-length (suc rounds) i server sound = omega (
  arith,
  round-length i server (sound.slots i),
  process_task-length rounds i (perform_task i (take_slot i server)).0
      (perform_task-IsConsistent (take_slot i server) i (take_slot-IsConsistent server i sound)),
)

-- Whatever the threads did before: when the worker of a slot is then given as many rounds as the slot
-- has tasks, with none of the other threads between them, its callbacks have been told all that its socket
-- has given, in that order.
pub process_task-told :
    (count i rounds : ℕ) (server : ServerSocket) (inputs : List (ℕ × Event))
    (outputs : List (Option ℕ × Event))
    → count * buffer_size * 2 < size_mod
    → Reachable count server inputs outputs
    → length (pending (slot server i)) ≤ rounds
    → told i (outputs ++ (process_task rounds i server).1) ≡ given i inputs
process_task-told count i rounds server inputs outputs fits run enough =
    let sound = Reachable-IsConsistent count server inputs outputs fits run in
    let later = process_task-IsConsistent rounds i server sound in
    let none_left : pending (slot (process_task rounds i server).0 i) ≡ [] =
      ground (arith, process_task-length rounds i server sound) in
    sym (later.order i ∙ rw none_left (append-nil _))
