-- ===== src/Socket/Server/Tests.antt =====
-- Runs of the server's socket on concrete events.
use web_socket_cpp.Base.{
  ℕ, List, [], ◌∷◌, ◌++◌, ◌≤◌, some, ◌≡◌, refl, true, arith, length, ByteArray,
}
use web_socket_cpp.Pool
use web_socket_cpp.Pool.{allocate, free}
use web_socket_cpp.Socket.Write.{sent, again, failed, write_loop, IsWritten, write_loop-IsWritten}
use web_socket_cpp.Socket.Memory.{store, load}
use web_socket_cpp.Socket.Server
use web_socket_cpp.Socket.Server.{
  ServerSocket, Event, connected, disconnected, data_ready, slots, create, start, assign, push,
  find_free_connection, accept_client, handle_read, read_into, process_read, close_connection,
  take_task, take_slot, run_task, perform_task, process_task, write,
}
use web_socket_cpp.Socket.Server.Invariant.{given, told, IsConsistent}
use web_socket_cpp.Socket.Server.Steps.{
  accepts, reads, hangs_up, takes, performs, Reachable, starts, moves, Reachable-IsConsistent,
}
use web_socket_cpp.Socket.Server.Draining.{process_task-told}

-- One slot: a client on the descriptor 7 sends two bytes and hangs up, while the worker has told
-- its callback of the connection only.
abbrev accepted : ServerSocket
accepted = accept_client (some 7) (start (create 1))

abbrev two_bytes : ByteArray
two_bytes = 104 ∷ 105 ∷ []

abbrev told_once : ServerSocket
told_once = (perform_task 0 (take_slot 0 accepted)).0

abbrev received : ServerSocket
received = process_read 0 (Server.arrived two_bytes) told_once

abbrev hung_up : ServerSocket
hung_up = close_connection 0 received

abbrev all_inputs : List (ℕ × Event)
all_inputs = (0, connected) ∷ (0, data_ready two_bytes) ∷ (0, disconnected) ∷ []

run : Reachable 1 hung_up all_inputs ((some 0, connected) ∷ [])
unfolding accept_client start create slots assign push find_free_connection take_task take_slot
    run_task perform_task allocate Pool.create process_read handle_read read_into close_connection
    Pool.place
run =
    moves
      (moves (moves (moves (moves starts (accepts 7 0 refl)) (takes 0)) (performs 0))
        (reads 0 (Server.arrived two_bytes) refl (omega arith, omega arith)))
      (hangs_up 0 refl)

Reachable-IsConsistent_example : IsConsistent hung_up all_inputs ((some 0, connected) ∷ [])
Reachable-IsConsistent_example =
    Reachable-IsConsistent 1 hung_up all_inputs ((some 0, connected) ∷ []) (omega arith) run

short : length (Server.Invariant.pending (Server.slot hung_up 0)) ≤ 2
unfolding accept_client start create slots assign push find_free_connection take_task take_slot
    run_task perform_task allocate Pool.create process_read handle_read read_into close_connection
    Pool.place
short = omega arith

-- The worker of the slot goes on to the end.
worker_ends :
    (process_task 2 0 hung_up).1 ≡ (some 0, data_ready two_bytes) ∷ (some 0, disconnected) ∷ []
unfolding accept_client start create slots assign push find_free_connection take_task take_slot
    run_task perform_task allocate Pool.create process_read handle_read read_into close_connection
    Pool.place process_task free Pool.erase_at store load
worker_ends = refl

-- Until then a write still goes to the descriptor, which is closed.
writes_to_closed : write 0 (sent 2 ∷ []) two_bytes hung_up ≡ (two_bytes, some true)
unfolding accept_client start create slots assign push find_free_connection take_task take_slot
    run_task perform_task allocate Pool.create process_read handle_read read_into close_connection
    Pool.place write write_loop
writes_to_closed = refl

-- Two clients wait for one slot: nothing is done for the second.
refuses_second : accept_client (some 8) accepted ≡ accepted
unfolding accept_client start create slots assign push find_free_connection take_task take_slot
    run_task perform_task allocate Pool.create process_read handle_read read_into close_connection
    Pool.place
refuses_second = refl

process_task-told_example :
    told 0 (((some 0, connected) ∷ []) ++ (process_task 2 0 hung_up).1) ≡ given 0 all_inputs
process_task-told_example =
    process_task-told 1 0 2 hung_up all_inputs ((some 0, connected) ∷ []) (omega arith) run short

write_loop-IsWritten_example :
    IsWritten (1 ∷ 2 ∷ 3 ∷ []) (write_loop (sent 2 ∷ again ∷ failed ∷ []) (1 ∷ 2 ∷ 3 ∷ []))
write_loop-IsWritten_example = write_loop-IsWritten (sent 2 ∷ again ∷ failed ∷ []) (1 ∷ 2 ∷ 3 ∷ [])
