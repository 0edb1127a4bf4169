-- ===== src/Socket/Server/Steps.antt =====
-- The threads of the server's socket, interleaved: the task that serves the events and the workers.
use web_socket_cpp.Base.{
  ℕ, zero, suc, ◌*◌, ◌<◌, true, List, [], ◌∷◌, ◌++◌, Option, none, some, ◌≡◌, refl, arith, size_mod,
}
use web_socket_cpp.Pool.Invariant.{create-IsValid}
use web_socket_cpp.Socket.Server.{
  new_connection, ServerSocket, ReadResult, Event, connected, disconnected, buffer_size, slot,
  slots, create, start, find_free_connection, accept_client, process_read, close_connection,
  take_slot, perform_task,
}
use web_socket_cpp.Socket.Server.Slots.{get_or-slots}
use web_socket_cpp.Socket.Server.Invariant.{IsSlot, owned, IsConsistent, at_input}
use web_socket_cpp.Socket.Server.Pushing.{close_connection-IsConsistent}
use web_socket_cpp.Socket.Server.Reading.{IsRead, arrivals, process_read-IsConsistent}
use web_socket_cpp.Socket.Server.Working.{perform_task-IsConsistent}
use web_socket_cpp.Socket.Server.Taking.{take_slot-IsConsistent, same-IsConsistent}
use web_socket_cpp.Socket.Server.Accepting.{accept_client-IsConsistent}

-- One step, with what the sockets give in it and what the callbacks are told. The kernel reports
-- events only of what it watches.
pub data Step
    : ServerSocket → List (ℕ × Event) → List (Option ℕ × Event) → ServerSocket → Type 0 where
  accepts :
      {server : ServerSocket} (fd i : ℕ)
      → find_free_connection server.connections ≡ some i
      → Step server (at_input i (connected ∷ [])) [] (accept_client (some fd) server)
  refuses :
      {server : ServerSocket} (fd : Option ℕ)
      → find_free_connection server.connections ≡ none
      → Step server [] [] (accept_client fd server)
  reads :
      {server : ServerSocket} (i : ℕ) (result : ReadResult)
      → (slot server i).watched ≡ true
      → IsRead result
      → Step server (at_input i (arrivals server result)) [] (process_read i result server)
  hangs_up :
      {server : ServerSocket} (i : ℕ)
      → (slot server i).watched ≡ true
      → Step server (at_input i (disconnected ∷ [])) [] (close_connection i server)
  takes : {server : ServerSocket} (i : ℕ) → Step server [] [] (take_slot i server)
  performs :
      {server : ServerSocket} (i : ℕ)
      → Step server [] ((perform_task i server).1) ((perform_task i server).0)

-- What has been given and told when a server of that many slots comes to a state.
pub data Reachable (count : ℕ)
    : ServerSocket → List (ℕ × Event) → List (Option ℕ × Event) → Type 0 where
  starts : Reachable count (start (create count)) [] []
  moves :
      {server later : ServerSocket} {inputs come : List (ℕ × Event)}
      {outputs went : List (Option ℕ × Event)}
      → Reachable count server inputs outputs
      → Step server come went later
      → Reachable count later (inputs ++ come) (outputs ++ went)

refused-same :
    (fd : Option ℕ) (server : ServerSocket)
    → find_free_connection server.connections ≡ none
    → accept_client fd server ≡ server
unfolding accept_client
refused-same none server full = refl
refused-same (some fd) server full = ground (arith, full)

Step-IsConsistent :
    {server later : ServerSocket} {inputs come : List (ℕ × Event)}
    {outputs went : List (Option ℕ × Event)}
    → IsConsistent server inputs outputs
    → Step server come went later
    → IsConsistent later (inputs ++ come) (outputs ++ went)
Step-IsConsistent {server} sound (accepts fd i free) =
    accept_client-IsConsistent server fd i sound free
Step-IsConsistent {server} sound (refuses fd full) =
    rw (refused-same fd server full) (same-IsConsistent server sound)
Step-IsConsistent {server} sound (reads i result watched ok) =
    process_read-IsConsistent server i result sound watched ok
Step-IsConsistent {server} sound (hangs_up i watched) =
    close_connection-IsConsistent server sound i watched
Step-IsConsistent {server} sound (takes i) = take_slot-IsConsistent server i sound
Step-IsConsistent {server} sound (performs i) = perform_task-IsConsistent server i sound

owned-slots : (q count : ℕ) → owned q (slots count) ≡ 0
unfolding slots
owned-slots q zero = refl
owned-slots q (suc count) = omega (arith, owned-slots q count)

new-IsSlot : (i : ℕ) → IsSlot i new_connection
new-IsSlot i = record {
  named = λ runs. absurd (ground (arith, runs));
  opened = λ _. refl;
  idle = λ _. refl;
  unwatched = λ _. refl;
  ended = λ runs. absurd (ground (arith, runs));
  taken = λ t k e. absurd (ground (arith, e));
  small = tt;
}

create-IsConsistent :
    (count : ℕ) → count * buffer_size * 2 < size_mod → IsConsistent (start (create count)) [] []
unfolding start create
create-IsConsistent count fits = record {
  pool = create-IsValid (count * buffer_size * 2) fits;
  buffers = λ q. omega (arith, owned-slots q count);
  slots = λ i. rw (get_or-slots count i) (new-IsSlot i);
  order = λ i. rw (get_or-slots count i) refl;
}

-- For every number of slots whose pool's size fits into `size_t`, every order of the steps of the
-- event task and of the workers, and what the sockets give in them (reads of at most one buffer),
-- every state that is reached is sound: the pool is valid; the buffers in the queues and in the
-- workers' hands are regions of the pool, each of its own; a slot that runs has its own index and
-- descriptor, one that does not has no tasks; and for each slot what its socket has given is, in this
-- order, what its callbacks were told followed by what waits in its queue, with the bytes that arrived.
pub Reachable-IsConsistent :
    (count : ℕ) (server : ServerSocket) (inputs : List (ℕ × Event))
    (outputs : List (Option ℕ × Event))
    → count * buffer_size * 2 < size_mod
    → Reachable count server inputs outputs
    → IsConsistent server inputs outputs
Reachable-IsConsistent count server inputs outputs fits starts = create-IsConsistent count fits
Reachable-IsConsistent count server inputs outputs fits (moves {server = before} run step) =
    Step-IsConsistent (Reachable-IsConsistent count before _ _ fits run) step
