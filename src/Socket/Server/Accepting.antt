-- ===== src/Socket/Server/Accepting.antt =====
-- A client that is accepted.
use web_socket_cpp.Base.{
  ℕ, true, List, [], ◌∷◌, ◌++◌, Option, none, some, ◌≡◌, refl, ap, ◌∙◌, arith,
}
use web_socket_cpp.Pool.{free}
use web_socket_cpp.Socket.Server.{
  Task, connection, Connection, ServerSocket, Event, connected, slot, assign, find_free_connection,
  accept_client,
}
use web_socket_cpp.Socket.Server.Slots.{find_free_connection_lem}
use web_socket_cpp.Socket.Server.Invariant.{pending, IsSlot, IsConsistent, at_input}
use web_socket_cpp.Socket.Server.Update.{after-IsConsistent}
use web_socket_cpp.Socket.Server.Pushing.{pending-push}

assign-pending :
    (fd i : ℕ) (conn : Connection)
    → pending conn ≡ []
    → pending (assign fd i conn) ≡ connection ∷ []
unfolding assign
assign-pending fd i conn idle =
    pending-push connection
      (record conn { fd = some fd; idx = some i; running = true; watched = true })
    ∙ ap (λ (tasks : List Task). tasks ++ connection ∷ []) idle

assign-IsSlot :
    (fd i : ℕ) (conn : Connection) → IsSlot i conn → conn.fd ≡ none → IsSlot i (assign fd i conn)
unfolding assign
assign-IsSlot fd i conn ok free =
    let tasks = assign-pending fd i conn (ok.idle (ok.opened free)) in
    record {
      named = λ _. refl;
      opened = λ closed. absurd (ground (arith, closed));
      idle = λ stopped. absurd (ground (arith, stopped));
      unwatched = λ stopped. absurd (ground (arith, stopped));
      ended = λ _. rw tasks refl;
      taken = ok.taken;
      small = rw tasks (tt, tt);
    }

pub accept_client-IsConsistent :
    (server : ServerSocket) {inputs : List (ℕ × Event)} {outputs : List (Option ℕ × Event)}
    (fd i : ℕ)
    → IsConsistent server inputs outputs
    → find_free_connection server.connections ≡ some i
    → IsConsistent
        (accept_client (some fd) server)
        (inputs ++ at_input i (connected ∷ []))
        (outputs ++ [])
unfolding accept_client
accept_client-IsConsistent server fd i sound found =
    let (inside, free) = find_free_connection_lem server.connections i found in
    let ok = sound.slots i in
    let idle = ok.idle (ok.opened free) in
    let tasks = assign-pending fd i (slot server i) idle in
    rw (accept_client, found)
      (after-IsConsistent i (assign fd i (slot server i)) server.pool server.memory (connected ∷ [])
        [] server inside
        (record {
          valid = sound.pool;
          fresh = assign-IsSlot fd i (slot server i) ok free;
          counted = λ q. rw tasks (omega arith);
          kept = λ j. refl;
          moved = rw (tasks, idle) refl;
        })
        sound)
