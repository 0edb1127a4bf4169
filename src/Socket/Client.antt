-- ===== src/Socket/Client.antt =====
-- src/utils/ClientSocket.cpp, in the build without OpenSSL: connecting, the thread that reads, and the
-- end of both. The answers of the system calls are arguments; -1 is none. `joinable` is that of the
-- thread's object, and `open_fds` are the descriptors of sockets that nobody has closed.
pub mod Reading
pub mod Again
mod Tests
use web_socket_cpp.Base.{
  ℕ, Bool, true, false, not, List, [], ◌∷◌, ◌++◌, Option, none, some, ByteArray, ◌==◌,
  if◌then◌else◌,
}
use web_socket_cpp.Socket.Write.{Sent, write_loop}

pub record ClientSocket : Type 0 where
  pub fd : Option ℕ
  pub epoll_fd : Option ℕ
  pub connected : Bool
  pub read_running : Bool
  pub initialized : Bool
  pub running : Bool
  pub joinable : Bool
  pub open_fds : List ℕ

abbrev pub new_socket : ClientSocket
new_socket = record {
  fd = none;
  epoll_fd = none;
  connected = false;
  read_running = false;
  initialized = false;
  running = false;
  joinable = false;
  open_fds = [];
}

-- `Init` with the answer of `epoll_create1`.
unfoldable pub init : Option ℕ → ClientSocket → ClientSocket × Bool
init answer socket = if socket.initialized then (socket, true) else elim answer [
  | none ↦ (record socket { epoll_fd = none }, false)
  | some fd ↦ (record socket { epoll_fd = some fd; initialized = true }, true)
]

unfoldable pub remove_fd : ℕ → List ℕ → List ℕ
remove_fd fd [] = []
remove_fd fd (held ∷ fds) = let rest = remove_fd fd fds in if held == fd then fds else held ∷ rest

-- `close` of the socket, and -1 in its place.
unfoldable pub close_fd : ClientSocket → ClientSocket
unfolding remove_fd
close_fd socket = elim socket.fd [
  | none ↦ socket
  | some fd ↦ record socket { fd = none; open_fds = remove_fd fd socket.open_fds }
]

-- How `connect` goes: at once, after a wait that ends well or not, or with an error.
pub data Connecting : Type 0 where
  at_once refused : Connecting
  later : Bool → Connecting

abbrev pub goes_well : Connecting → Bool
goes_well at_once = true
goes_well refused = false
goes_well (later ok) = ok

-- The answers of `getaddrinfo`, `socket`, `fcntl`, `connect` with `WaitConnect`, and `epoll_ctl`.
pub record Answers : Type 0 where
  pub resolved : Bool
  pub socket : Option ℕ
  pub nonblocking : Bool
  pub connecting : Connecting
  pub watched : Bool

-- `Connect` from the new socket on.
unfoldable pub connect_fd : Answers → ℕ → ClientSocket → ClientSocket × Bool
unfolding close_fd
connect_fd answers fd socket =
    let opened : ClientSocket = record socket { fd = some fd; open_fds = fd ∷ socket.open_fds } in
    if not answers.nonblocking
    then (close_fd opened, false)
    else if not (goes_well answers.connecting)
    then (close_fd opened, false)
    else if not answers.watched
    then (close_fd opened, false)
    else (record opened { connected = true }, true)

unfoldable pub connect : Answers → ClientSocket → ClientSocket × Bool
unfolding connect_fd
connect answers socket =
    if not socket.initialized
    then (socket, false)
    else if socket.connected
    then (socket, false)
    else if not answers.resolved
    then (socket, false)
    else elim answers.socket [
      | none ↦ (record socket { fd = none }, false)
      | some fd ↦ connect_fd answers fd socket
    ]

-- `Run`: a thread that is put into an object whose thread was not joined ends the program, none.
unfoldable pub run : ClientSocket → Option (ClientSocket × Bool)
run socket =
    if not socket.initialized
    then some (socket, false)
    else if not socket.connected
    then some (socket, false)
    else if socket.running
    then some (socket, false)
    else if socket.joinable
    then none
    else some (record socket { read_running = true; joinable = true; running = true }, true)

unfoldable pub shut_down : ClientSocket → ClientSocket
shut_down socket = record socket { connected = false; read_running = false }

-- `Close`: the wait ends when the thread has, which then has told that it does not run.
unfoldable pub close : Bool → ClientSocket → ClientSocket
unfolding shut_down close_fd
close wait socket =
    if wait
    then close_fd (record (shut_down socket) {
      joinable = false;
      running = if socket.joinable then false else socket.running;
    })
    else shut_down socket

-- What the callbacks are told.
pub data Told : Type 0 where
  data_told : ByteArray → Told
  close_told : Told

-- The answers of `epoll_wait`, with that of `read` where there is something to read.
pub data Poll : Type 0 where
  interrupted failed timeout hung_up : Poll
  readable : ByteArray → Poll
  nothing_there ended : Poll

unfoldable pub handle_close : ClientSocket → ClientSocket × List Told
handle_close socket =
    (record socket { connected = false }, if socket.connected then close_told ∷ [] else [])

-- A round of `ReadLoop`, and whether the loop goes on.
unfoldable pub read_round : Poll → ClientSocket → ClientSocket × List Told × Bool
unfolding handle_close
read_round interrupted socket = (socket, [], true)
read_round failed socket = (socket, [], false)
read_round timeout socket = (socket, [], true)
read_round hung_up socket = let out = handle_close socket in (out.0, out.1, false)
read_round (readable bytes) socket = (socket, data_told bytes ∷ [], true)
read_round nothing_there socket = (socket, [], true)
read_round ended socket = let out = handle_close socket in (out.0, out.1, false)

-- `ReadLoop` over the answers, each with whether another thread calls `Shutdown` while the loop
-- waits for it. Where the answers end the loop waits for more.
unfoldable pub read_loop : List (Bool × Poll) → ClientSocket → ClientSocket × List Told
unfolding read_round shut_down
read_loop [] socket = (socket, [])
read_loop ((shut, poll) ∷ polls) socket =
    if not socket.read_running
    then (record socket { running = false }, [])
    else (let out = read_round poll (if shut then shut_down socket else socket) in
        let rest = read_loop polls out.0 in
        if out.2 then (rest.0, out.1 ++ rest.1) else (record out.0 { running = false }, out.1))

unfoldable pub write : List Sent → ByteArray → ClientSocket → ByteArray × Option Bool
unfolding write_loop
write answers data_bytes socket =
    if not socket.connected
    then ([], some false)
    else elim socket.fd [ none ↦ ([], some false) | some fd ↦ write_loop answers data_bytes ]
