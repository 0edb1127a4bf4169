-- ===== src/Socket/Server/Working.antt =====
-- A slot's worker does the task that it has taken.
use web_socket_cpp.Base.{
  ℕ, subst, ◌+◌, ◌≤◌, ◌<◌, true, false, List, [], ◌∷◌, ◌++◌, Option, none, some, ◌≡◌, refl, ap,
  arith, inl, inr, append-nil, All, Bool-cases, Option-cases,
}
use web_socket_cpp.Pool.{MemoryPool, free}
use web_socket_cpp.Pool.Invariant.{IsValid}
use web_socket_cpp.Pool.Release.{free-IsValid}
use web_socket_cpp.Socket.Server.{
  Task, connection, disconnection, incoming, Connection, ServerSocket, Event, buffer_size, slot,
  set_slot, run_task, perform_task,
}
use web_socket_cpp.Socket.Server.Slots.{get_or-outside_running}
use web_socket_cpp.Socket.Server.Counting.{regions_at, regions_at-free}
use web_socket_cpp.Socket.Server.Invariant.{
  pending, count_in, IsSmall, IsEnded, IsSlot, meaning, IsConsistent,
}
use web_socket_cpp.Socket.Server.Update.{IsUpdate, after-IsConsistent}
use web_socket_cpp.Socket.Server.Reading.{slot-owned}
use web_socket_cpp.Socket.Server.Taking.{same-IsConsistent}

-- What a task that is done must show.
record IsDone (i : ℕ) (task : Task) (conn : Connection) (pool : MemoryPool) (server : ServerSocket)
    : Type 0 where
  pub tasks : pending (slot server i) ≡ task ∷ pending conn
  pub fresh : IsSlot i conn
  pub valid : IsValid pool
  pub counted :
      (q : ℕ)
      → regions_at buffer_size q server.pool.regions
        ≤ regions_at buffer_size q pool.regions + count_in q (task ∷ [])

count_in-cons :
    (q : ℕ) (task : Task) (tasks : List Task)
    → count_in q (task ∷ tasks) ≡ count_in q (task ∷ []) + count_in q tasks
count_in-cons q connection tasks = omega arith
count_in-cons q disconnection tasks = omega arith
count_in-cons q (incoming pointer size) tasks = omega arith

done-IsUpdate :
    (i : ℕ) (task : Task) (conn : Connection) (pool : MemoryPool) (server : ServerSocket)
    → IsDone i task conn pool server
    → IsUpdate i conn pool server.memory [] (meaning server.memory task ∷ []) server
done-IsUpdate i task conn pool server d = record {
  valid = d.valid;
  fresh = d.fresh;
  counted = λ q. rw d.tasks (omega (arith, d.counted q, count_in-cons q task (pending conn)));
  kept = λ j. refl;
  moved = rw d.tasks (append-nil _);
}

module _ (server : ServerSocket) {inputs : List (ℕ × Event)} {outputs : List (Option ℕ × Event)}
    (i : ℕ) (task : Task) (sound : IsConsistent server inputs outputs)
    (current : (slot server i).current ≡ some (task, some i)) where
  in_hand : pending (slot server i) ≡ task ∷ (slot server i).queue
  in_hand = rw current refl

  runs : (slot server i).running ≡ true
  runs = elim (Bool-cases (slot server i).running) [
    | inl runs_now ↦ runs_now
    | inr stopped ↦ absurd (ground (arith, in_hand, (sound.slots i).idle stopped))
  ]

  ended : IsEnded (slot server i).watched (task ∷ (slot server i).queue)
  ended = subst (IsEnded (slot server i).watched) in_hand ((sound.slots i).ended runs)

  small : All IsSmall (task ∷ (slot server i).queue)
  small = subst (All IsSmall) in_hand (sound.slots i).small

  -- A slot that goes on after its task.
  next-IsSlot :
      IsEnded (slot server i).watched (slot server i).queue
      → IsSlot i (record (slot server i) { current = none })
  next-IsSlot rest = record {
    named = (sound.slots i).named;
    opened = (sound.slots i).opened;
    idle = λ stopped. absurd (ground (arith, runs, stopped));
    unwatched = (sound.slots i).unwatched;
    ended = λ _. rest;
    taken = λ t k e. absurd (ground (arith, e));
    small = small.1;
  }

  done-IsConsistent :
      (conn : Connection) (pool : MemoryPool)
      → IsDone i task conn pool server
      → IsConsistent
          (set_slot i conn (record server { pool = pool }))
          (inputs ++ [])
          (outputs ++ (some i, meaning server.memory task) ∷ [])
  done-IsConsistent conn pool d =
      after-IsConsistent i conn pool server.memory [] (meaning server.memory task ∷ []) server
        (get_or-outside_running server.connections i runs) (done-IsUpdate i task conn pool server d)
        sound

run_task-IsConsistent :
    (server : ServerSocket) {inputs : List (ℕ × Event)} {outputs : List (Option ℕ × Event)} (i : ℕ)
    (task : Task)
    → IsConsistent server inputs outputs
    → (slot server i).current ≡ some (task, some i)
    → (let out = run_task i (task, some i) server in
        IsConsistent out.0 (inputs ++ []) (outputs ++ out.1))
unfolding run_task
run_task-IsConsistent server i connection sound e =
    done-IsConsistent server i connection sound e (record (slot server i) { current = none })
      server.pool
      (record {
        tasks = in_hand server i connection sound e;
        fresh = next-IsSlot server i connection sound e (ended server i connection sound e);
        valid = sound.pool;
        counted = λ q. omega arith;
      })
run_task-IsConsistent server i disconnection sound e =
    let (unwatched, last) = ended server i disconnection sound e in
    done-IsConsistent server i disconnection sound e
      (record (slot server i) { fd = none; idx = none; running = false; current = none })
      server.pool
      (record {
        tasks = in_hand server i disconnection sound e;
        fresh = record {
          named = λ runs. absurd (ground (arith, runs));
          opened = λ _. refl;
          idle = λ _. last;
          unwatched = λ _. unwatched;
          ended = λ runs. absurd (ground (arith, runs));
          taken = λ t k taken. absurd (ground (arith, taken));
          small = (small server i disconnection sound e).1;
        };
        valid = sound.pool;
        counted = λ q. omega arith;
      })
run_task-IsConsistent server i (incoming pointer size) sound e =
    let tasks = in_hand server i (incoming pointer size) sound e in
    let live : 0 < regions_at buffer_size pointer server.pool.regions =
      ground (arith, slot-owned server sound i pointer, ap (count_in pointer) tasks) in
    done-IsConsistent server i (incoming pointer size) sound e
      (record (slot server i) { current = none }) (free server.pool (some pointer))
      (record {
        tasks = tasks;
        fresh =
            next-IsSlot server i (incoming pointer size) sound e
              (ended server i (incoming pointer size) sound e);
        valid = free-IsValid server.pool (some pointer) sound.pool;
        counted =
            λ q. omega (arith, regions_at-free buffer_size pointer server.pool sound.pool live q);
      })

pub perform_task-IsConsistent :
    (server : ServerSocket) {inputs : List (ℕ × Event)} {outputs : List (Option ℕ × Event)} (i : ℕ)
    → IsConsistent server inputs outputs
    → (let out = perform_task i server in IsConsistent out.0 (inputs ++ []) (outputs ++ out.1))
unfolding perform_task
perform_task-IsConsistent server i sound = elim (Option-cases (slot server i).current) [
  | inl e ↦ rw (perform_task, e) (same-IsConsistent server sound)
  | inr ((task, k), e) ↦
      let same = (sound.slots i).taken task k e in
      let current : (slot server i).current ≡ some (task, some i) =
        rw e (ap (λ (k : Option ℕ). some (task, k)) same) in
      rw (perform_task, current) (run_task-IsConsistent server i task sound current)
]
