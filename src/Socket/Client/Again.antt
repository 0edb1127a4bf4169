-- ===== src/Socket/Client/Again.antt =====
-- Connecting once more after the other side has closed.
use web_socket_cpp.Base.{ℕ, Bool, true, false, List, ◌∷◌, none, some, ◌≡◌, refl, ap, ◌∙◌, arith}
use web_socket_cpp.Socket.Client.{
  ClientSocket, Answers, goes_well, Poll, ended, handle_close, connect, connect_fd, run, read_round,
  read_loop,
}

-- A socket whose `Run` went well, until its thread is joined: it has a thread and a descriptor.
pub record IsStarted (fd : ℕ) (socket : ClientSocket) : Type 0 where
  pub initialized : socket.initialized ≡ true
  pub joinable : socket.joinable ≡ true
  pub held : socket.fd ≡ some fd
  pub runs : socket.read_running ≡ true

-- The answers let `Connect` go well.
pub record IsGood (fd : ℕ) (answers : Answers) : Type 0 where
  pub resolved : answers.resolved ≡ true
  pub socket : answers.socket ≡ some fd
  pub nonblocking : answers.nonblocking ≡ true
  pub connecting : goes_well answers.connecting ≡ true
  pub watched : answers.watched ≡ true

ended_loop :
    (socket : ClientSocket) (polls : List (Bool × Poll))
    → socket.read_running ≡ true
    → (read_loop ((false, ended) ∷ polls) socket).0
      ≡ record socket { connected = false; running = false }
unfolding read_loop read_round handle_close
ended_loop socket polls runs = ground arith

connect_good :
    (answers : Answers) (fd : ℕ) (socket : ClientSocket)
    → IsGood fd answers
    → socket.initialized ≡ true
    → socket.connected ≡ false
    → connect answers socket
      ≡ (record socket { fd = some fd; open_fds = fd ∷ socket.open_fds; connected = true }, true)
unfolding connect connect_fd
connect_good answers fd socket good initialized gone = ground (
  arith, initialized, gone, good.resolved, good.socket, good.nonblocking, good.connecting,
  good.watched,
)

run_joinable :
    (socket : ClientSocket)
    → socket.initialized ≡ true
    → socket.connected ≡ true
    → socket.running ≡ false
    → socket.joinable ≡ true
    → run socket ≡ none
unfolding run
run_joinable socket initialized connected stopped joinable = ground arith

-- The other side closes the connection, the thread that reads ends by itself, and the client, without
-- a `Close` that waits, connects again and runs: the connection is made, its descriptor takes the place of
-- the one before, which stays open, and `Run` ends the program.
pub reconnect_terminates :
    (old fd : ℕ) (socket : ClientSocket) (answers : Answers) (polls : List (Bool × Poll))
    → IsStarted old socket
    → IsGood fd answers
    → (let again = connect answers (read_loop ((false, ended) ∷ polls) socket).0 in
        (again.1 ≡ true)
        × (again.0.fd ≡ some fd)
        × (again.0.open_fds ≡ fd ∷ socket.open_fds)
        × (run again.0 ≡ none))
reconnect_terminates old fd socket answers polls started good =
    let closed : ClientSocket = record socket { connected = false; running = false } in
    let again =
      ap (connect answers) (ended_loop socket polls started.runs)
      ∙ connect_good answers fd closed good started.initialized refl in
    (
      ap (λ (out : ClientSocket × Bool). out.1) again,
      ap (λ (out : ClientSocket × Bool). out.0.fd) again,
      ap (λ (out : ClientSocket × Bool). out.0.open_fds) again,
      ap (λ (out : ClientSocket × Bool). run out.0) again
          ∙ run_joinable
              (record closed { fd = some fd; open_fds = fd ∷ socket.open_fds; connected = true })
              started.initialized refl refl started.joinable,
    )
