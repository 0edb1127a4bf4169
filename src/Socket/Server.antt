-- ===== src/Socket/Server.antt =====
-- src/utils/ServerSocket.cpp: the slots of the connections with their queues of tasks and their workers,
-- and the task that serves the events of epoll. A worker's `current` is the task that it has taken, with
-- the index that it read then; `watched` is the registration with epoll, which the kernel keeps.
-- -1 is none.
pub mod Slots
pub mod Counting
pub mod Invariant
pub mod Update
pub mod Pushing
pub mod Reading
pub mod Accepting
pub mod Taking
pub mod Working
pub mod Steps
pub mod Draining
mod Tests
use web_socket_cpp.Base.{
  ℕ, zero, suc, ◌*◌, Bool, true, false, List, [], ◌∷◌, ◌++◌, Option, none, some, ByteArray, length,
  get_or, set, if◌then◌else◌,
}
use web_socket_cpp.Pool
use web_socket_cpp.Pool.{MemoryPool, allocate, free}
use web_socket_cpp.Socket.Memory.{Memory, store, load}
use web_socket_cpp.Socket.Write.{Sent, write_loop}

-- The tasks of a connection, with the pointer and the size of the data.
pub data Task : Type 0 where
  connection disconnection : Task
  incoming : ℕ → ℕ → Task

pub record Connection : Type 0 where
  pub fd : Option ℕ
  pub idx : Option ℕ
  pub running : Bool
  pub queue : List Task
  pub current : Option (Task × Option ℕ)
  pub watched : Bool

abbrev pub new_connection : Connection
new_connection = record {
  fd = none;
  idx = none;
  running = false;
  queue = [];
  current = none;
  watched = false;
}

-- `Submit` and `Disconnect`
unfoldable pub push : Task → Connection → Connection
push task conn = record conn { queue = conn.queue ++ task ∷ [] }

-- `Assign` behind its wait for the worker's end, with the registration in `AcceptClient`.
unfoldable pub assign : ℕ → ℕ → Connection → Connection
unfolding push
assign fd idx conn =
    push connection (record conn { fd = some fd; idx = some idx; running = true; watched = true })

-- The first part of a round of `processTask`, under the lock.
unfoldable pub take_task : Connection → Connection
take_task conn = elim conn.running [
  | false ↦ conn
  | true ↦ elim conn.current [
    | some task ↦ conn
    | none ↦ elim conn.queue [
      | [] ↦ conn
      | task ∷ queue ↦ record conn { queue = queue; current = some (task, conn.idx) }
    ]
  ]
]

pub record ServerSocket : Type 0 where
  pub connections : List Connection
  pub pool : MemoryPool
  pub memory : Memory
  pub process_running : Bool

-- `BUFFER_SIZE`
abbrev pub buffer_size : ℕ
buffer_size = 1024

-- The constructor.
unfoldable pub slots : ℕ → List Connection
slots zero = []
slots (suc count) = new_connection ∷ slots count

unfoldable pub create : ℕ → ServerSocket
unfolding slots
create client_count = record {
  connections = slots client_count;
  pool = Pool.create (client_count * buffer_size * 2);
  memory = λ _. 0;
  process_running = false;
}

-- What `Run` leaves.
unfoldable pub start : ServerSocket → ServerSocket
start server = record server { process_running = true }

abbrev pub slot : ServerSocket → ℕ → Connection
slot server idx = get_or server.connections idx new_connection

abbrev pub set_slot : ℕ → Connection → ServerSocket → ServerSocket
set_slot idx conn server = record server { connections = set server.connections idx conn }

unfoldable pub find_free_connection : List Connection → Option ℕ
find_free_connection [] = none
find_free_connection (conn ∷ connections) = elim conn.fd [
  | none ↦ some 0
  | some fd ↦ elim (find_free_connection connections) [ none ↦ none | some idx ↦ some (suc idx) ]
]

-- `AcceptClient` with the answer of `accept`; none is an error.
unfoldable pub accept_client : Option ℕ → ServerSocket → ServerSocket
unfolding find_free_connection assign
accept_client none server = server
accept_client (some fd) server = elim (find_free_connection server.connections) [
  | none ↦ server
  | some idx ↦ set_slot idx (assign fd idx (slot server idx)) server
]

-- The answers of `read`: bytes, none of them, `EAGAIN` or `EWOULDBLOCK`, or an error.
pub data ReadResult : Type 0 where
  arrived : ByteArray → ReadResult
  ended again failed : ReadResult

-- `HandleRead` with the buffer that the pool gave.
unfoldable pub read_into : ℕ → ℕ → ReadResult → ServerSocket → ServerSocket × Bool
unfolding push
read_into idx pointer (arrived bytes) server = (
  set_slot idx (push (incoming pointer (length bytes)) (slot server idx))
      (record server { memory = store pointer bytes server.memory }),
  true,
)
read_into idx pointer ended server =
    (record server { pool = free server.pool (some pointer) }, false)
read_into idx pointer again server = (server, true)
read_into idx pointer failed server =
    (record server { pool = free server.pool (some pointer) }, false)

-- `HandleRead`: without a buffer the whole server is closed.
unfoldable pub handle_read : ℕ → ReadResult → ServerSocket → ServerSocket × Bool
unfolding read_into
handle_read idx result server =
    let out = allocate server.pool buffer_size in
    elim out.1 [
      | none ↦ (record server { process_running = false }, false)
      | some pointer ↦ read_into idx pointer result (record server { pool = out.0 })
    ]

-- `CloseSocket` and `Disconnect`
unfoldable pub close_connection : ℕ → ServerSocket → ServerSocket
unfolding push
close_connection idx server =
    set_slot idx (push disconnection (record (slot server idx) { watched = false })) server

-- The branches of `ProcessTask`.
unfoldable pub process_read : ℕ → ReadResult → ServerSocket → ServerSocket
unfolding handle_read close_connection
process_read idx result server =
    let out = handle_read idx result server in if out.1 then out.0 else close_connection idx out.0

-- What a connection's callbacks are told, and what its socket has given.
pub data Event : Type 0 where
  connected disconnected : Event
  data_ready : ByteArray → Event

-- The second part of a round of `processTask`, with the index that its callback gets.
unfoldable pub run_task :
    ℕ → Task × Option ℕ → ServerSocket → ServerSocket × List (Option ℕ × Event)
run_task at (connection, idx) server =
    (set_slot at (record (slot server at) { current = none }) server, (idx, connected) ∷ [])
run_task at (disconnection, idx) server = (
  set_slot at (record (slot server at) { fd = none; idx = none; running = false; current = none })
      server,
  (idx, disconnected) ∷ [],
)
run_task at (incoming pointer size, idx) server = (
  set_slot at (record (slot server at) { current = none })
      (record server { pool = free server.pool (some pointer) }),
  (idx, data_ready (load pointer size server.memory)) ∷ [],
)

unfoldable pub perform_task : ℕ → ServerSocket → ServerSocket × List (Option ℕ × Event)
unfolding run_task
perform_task at server = elim (slot server at).current [
  | none ↦ (server, [])
  | some task ↦ run_task at task server
]

unfoldable pub take_slot : ℕ → ServerSocket → ServerSocket
unfolding take_task
take_slot at server = set_slot at (take_task (slot server at)) server

-- `processTask` for that many rounds, each with a task if there is one.
unfoldable pub process_task : ℕ → ℕ → ServerSocket → ServerSocket × List (Option ℕ × Event)
unfolding take_slot perform_task
process_task zero at server = (server, [])
process_task (suc rounds) at server =
    let out = perform_task at (take_slot at server) in
    let rest = process_task rounds at out.0 in (rest.0, out.1 ++ rest.1)

-- `Write` with the answers of `send`: what reaches the socket, and what it returns.
unfoldable pub write : ℕ → List Sent → ByteArray → ServerSocket → ByteArray × Option Bool
unfolding write_loop
write idx answers data_bytes server = elim (slot server idx).fd [
  | none ↦ ([], some false)
  | some fd ↦ write_loop answers data_bytes
]
