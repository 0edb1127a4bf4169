-- ===== src/Socket/Server/Pushing.antt =====
-- A task that is put into the queue of a slot.
use web_socket_cpp.Base.{
  ℕ, ◌+◌, ◌≤◌, Bool, true, false, List, [], ◌∷◌, ◌++◌, map, Option, ◌≡◌, refl, sym, ap, ap₂, ◌∙◌,
  arith, inl, inr, append_assoc, All-append, Bool-cases,
}
use web_socket_cpp.Pool.{MemoryPool}
use web_socket_cpp.Pool.Invariant.{IsValid}
use web_socket_cpp.Socket.Memory.{Memory}
use web_socket_cpp.Socket.Server.{
  Task, connection, disconnection, incoming, Connection, ServerSocket, Event, disconnected,
  buffer_size, slot, push, close_connection,
}
use web_socket_cpp.Socket.Server.Slots.{get_or-outside}
use web_socket_cpp.Socket.Server.Counting.{regions_at}
use web_socket_cpp.Socket.Server.Invariant.{
  now, pending, count_in, IsSmall, IsEnded, IsSlot, meaning, waiting, IsConsistent, at_input,
}
use web_socket_cpp.Socket.Server.Update.{IsUpdate, after-IsConsistent}

pub pending-push :
    (task : Task) (conn : Connection) → pending (push task conn) ≡ pending conn ++ task ∷ []
unfolding push
pending-push task conn = sym (append_assoc (now conn.current) conn.queue (task ∷ []))

pub count_in-append : (q : ℕ) (a b : List Task) → count_in q (a ++ b) ≡ count_in q a + count_in q b
count_in-append q [] b = omega arith
count_in-append q (connection ∷ a) b = count_in-append q a b
count_in-append q (disconnection ∷ a) b = count_in-append q a b
count_in-append q (incoming pointer size ∷ a) b = omega (arith, count_in-append q a b)

meaning-append :
    (memory : Memory) (a b : List Task)
    → map (meaning memory) (a ++ b) ≡ map (meaning memory) a ++ map (meaning memory) b
meaning-append memory [] b = refl
meaning-append memory (task ∷ a) b = ap (◌∷◌ (meaning memory task)) (meaning-append memory a b)

IsEnded-last :
    (tasks : List Task) → IsEnded true tasks → IsEnded false (tasks ++ disconnection ∷ [])
IsEnded-last [] h = (refl, refl)
IsEnded-last (connection ∷ tasks) h = IsEnded-last tasks h
IsEnded-last (disconnection ∷ tasks) (h, _) = absurd (ground (arith, h))
IsEnded-last (incoming pointer size ∷ tasks) h = IsEnded-last tasks h

pub IsEnded-incoming :
    (pointer size : ℕ) (tasks : List Task)
    → IsEnded true tasks
    → IsEnded true (tasks ++ incoming pointer size ∷ [])
IsEnded-incoming pointer size [] h = refl
IsEnded-incoming pointer size (connection ∷ tasks) h = IsEnded-incoming pointer size tasks h
IsEnded-incoming pointer size (disconnection ∷ tasks) (h, _) = absurd (ground (arith, h))
IsEnded-incoming pointer size (incoming at n ∷ tasks) h = IsEnded-incoming pointer size tasks h

-- A slot that is watched runs.
pub running_of_watched :
    (i : ℕ) (conn : Connection) → IsSlot i conn → conn.watched ≡ true → conn.running ≡ true
running_of_watched i conn ok watched = elim (Bool-cases conn.running) [
  | inl running ↦ running
  | inr stopped ↦ absurd (ground (arith, watched, ok.unwatched stopped))
]

-- A task that is put at the end of a slot that runs.
pub record IsPush (i : ℕ) (task : Task) (event : Event) (watched : Bool) (pool : MemoryPool)
    (memory : Memory) (server : ServerSocket) : Type 0 where
  pub runs : (slot server i).running ≡ true
  pub valid : IsValid pool
  pub counted :
      (q : ℕ)
      → count_in q (task ∷ []) + regions_at buffer_size q server.pool.regions
        ≤ regions_at buffer_size q pool.regions
  pub kept : (j : ℕ) → map (meaning memory) (pending (slot server j)) ≡ waiting server j
  pub ended : IsEnded watched (pending (slot server i) ++ task ∷ [])
  pub small : IsSmall task
  pub means : meaning memory task ≡ event

push-IsSlot :
    (i : ℕ) (task : Task) (watched : Bool) (conn : Connection)
    → IsSlot i conn
    → conn.running ≡ true
    → IsEnded watched (pending conn ++ task ∷ [])
    → IsSmall task
    → IsSlot i (push task (record conn { watched = watched }))
unfolding push
push-IsSlot i task watched conn ok runs ended small = record {
  named = ok.named;
  opened = ok.opened;
  idle = λ stopped. absurd (ground (arith, runs, stopped));
  unwatched = λ stopped. absurd (ground (arith, runs, stopped));
  ended = λ _. rw (pending-push task conn) ended;
  taken = ok.taken;
  small =
      rw (pending-push task conn)
        (All-append IsSmall (pending conn) (task ∷ []) ok.small (small, tt));
}

pub push-IsUpdate :
    (i : ℕ) (task : Task) (event : Event) (watched : Bool) (pool : MemoryPool) (memory : Memory)
    (server : ServerSocket)
    → IsSlot i (slot server i)
    → IsPush i task event watched pool memory server
    → IsUpdate i
        (push task (record (slot server i) { watched = watched }))
        pool
        memory
        (event ∷ [])
        []
        server
push-IsUpdate i task event watched pool memory server ok p = record {
  valid = p.valid;
  fresh = push-IsSlot i task watched (slot server i) ok p.runs p.ended p.small;
  counted = λ q.
      rw (pending-push task (record (slot server i) { watched = watched }))
        (omega (arith, p.counted q, count_in-append q (pending (slot server i)) (task ∷ [])));
  kept = p.kept;
  moved = sym (
      ap (map (meaning memory)) (pending-push task (record (slot server i) { watched = watched }))
      ∙ meaning-append memory (pending (slot server i)) (task ∷ [])
      ∙ ap₂ ◌++◌ (p.kept i) (ap (λ (e : Event). e ∷ []) p.means));
}

module _ (server : ServerSocket) {inputs : List (ℕ × Event)} {outputs : List (Option ℕ × Event)}
    (sound : IsConsistent server inputs outputs) where
  pub close_connection-IsConsistent :
      (i : ℕ)
      → (slot server i).watched ≡ true
      → IsConsistent
          (close_connection i server)
          (inputs ++ at_input i (disconnected ∷ []))
          (outputs ++ [])
  unfolding close_connection
  close_connection-IsConsistent i watched =
      let runs = running_of_watched i (slot server i) (sound.slots i) watched in
      after-IsConsistent i (push disconnection (record (slot server i) { watched = false }))
        server.pool server.memory (disconnected ∷ []) [] server
        (get_or-outside server.connections i watched)
        (push-IsUpdate i disconnection disconnected false server.pool server.memory server
          (sound.slots i)
          (record {
            runs = runs;
            valid = sound.pool;
            counted = λ q. omega arith;
            kept = λ j. refl;
            ended =
                IsEnded-last (pending (slot server i)) (rw watched at ((sound.slots i).ended runs));
            small = tt;
            means = refl;
          }))
        sound
