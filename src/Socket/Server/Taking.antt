-- ===== src/Socket/Server/Taking.antt =====
-- A slot's worker takes a task from the queue.
use web_socket_cpp.Base.{
  ℕ, subst, true, List, [], ◌∷◌, ◌++◌, Option, none, some, ◌≡◌, refl, arith, inl, inr, append-nil,
  All, Bool-cases, Option-cases,
}
use web_socket_cpp.Pool.{free}
use web_socket_cpp.Socket.Server.{
  Task, Connection, new_connection, ServerSocket, Event, slot, take_task, take_slot,
}
use web_socket_cpp.Socket.Server.Slots.{get_or-outside_running, set-get_or}
use web_socket_cpp.Socket.Server.Invariant.{pending, IsSmall, IsEnded, IsSlot, IsConsistent}
use web_socket_cpp.Socket.Server.Update.{after-IsConsistent}

-- A worker takes a task, or the slot stays.
pub data Taking (conn : Connection) : Type 0 where
  stays : take_task conn ≡ conn → Taking conn
  takes :
      (task : Task) (queue : List Task)
      → conn.running ≡ true
      → conn.current ≡ none
      → conn.queue ≡ task ∷ queue
      → take_task conn ≡ record conn { queue = queue; current = some (task, conn.idx) }
      → Taking conn

idle-Taking :
    (conn : Connection) (queue : List Task)
    → conn.running ≡ true
    → conn.current ≡ none
    → conn.queue ≡ queue
    → Taking conn
unfolding take_task
idle-Taking conn [] runs e q = stays (ground arith)
idle-Taking conn (task ∷ queue) runs e q = takes task queue runs e q (ground arith)

pub take_task-Taking : (conn : Connection) → Taking conn
unfolding take_task
take_task-Taking conn = elim (Bool-cases conn.running) [
  | inr stopped ↦ stays (ground arith)
  | inl runs ↦ elim (Option-cases conn.current) [
    | inr (task, e) ↦ stays (ground arith)
    | inl e ↦ idle-Taking conn conn.queue runs e refl
  ]
]

pub same-IsConsistent :
    (server : ServerSocket) {inputs : List (ℕ × Event)} {outputs : List (Option ℕ × Event)}
    → IsConsistent server inputs outputs
    → IsConsistent server (inputs ++ []) (outputs ++ [])
same-IsConsistent server {inputs} {outputs} sound = rw (append-nil inputs, append-nil outputs) sound

taken-IsSlot :
    (i : ℕ) (conn : Connection) (task : Task) (queue : List Task)
    → IsSlot i conn
    → conn.running ≡ true
    → pending conn ≡ task ∷ queue
    → IsSlot i (record conn { queue = queue; current = some (task, conn.idx) })
taken-IsSlot i conn task queue ok runs tasks = record {
  named = ok.named;
  opened = ok.opened;
  idle = λ stopped. absurd (ground (arith, runs, stopped));
  unwatched = ok.unwatched;
  ended = λ _. subst (IsEnded conn.watched) tasks (ok.ended runs);
  taken = λ t k e. ground (arith, e, ok.named runs);
  small = subst (All IsSmall) tasks ok.small;
}

pub take_slot-IsConsistent :
    (server : ServerSocket) {inputs : List (ℕ × Event)} {outputs : List (Option ℕ × Event)} (i : ℕ)
    → IsConsistent server inputs outputs
    → IsConsistent (take_slot i server) (inputs ++ []) (outputs ++ [])
unfolding take_slot
take_slot-IsConsistent server i sound = elim (take_task-Taking (slot server i)) [
  | stays same ↦
      rw (take_slot, same, set-get_or server.connections i new_connection)
        (same-IsConsistent server sound)
  | takes task queue runs free q taken ↦
      let tasks : pending (slot server i) ≡ task ∷ queue = rw (free, q) refl in
      rw (take_slot, taken)
        (after-IsConsistent i
          (record (slot server i) { queue = queue; current = some (task, (slot server i).idx) })
          server.pool server.memory [] [] server (get_or-outside_running server.connections i runs)
          (record {
            valid = sound.pool;
            fresh = taken-IsSlot i (slot server i) task queue (sound.slots i) runs tasks;
            counted = λ q. rw tasks (omega arith);
            kept = λ j. refl;
            moved = rw tasks (append-nil _);
          })
          sound)
]
