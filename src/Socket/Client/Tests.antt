-- ===== src/Socket/Client/Tests.antt =====
-- Runs of the client's socket on concrete answers.
use web_socket_cpp.Base.{Bool, true, false, List, [], ◌∷◌, none, some, ◌≡◌, refl}
use web_socket_cpp.Socket.Client.{
  ClientSocket, new_socket, Answers, at_once, refused, data_told, close_told, Poll, timeout,
  readable, ended, hung_up, init, connect, connect_fd, close_fd, remove_fd, run, close, shut_down,
  handle_close, read_round, read_loop,
}
use web_socket_cpp.Socket.Client.Reading.{seen, IsOrderly, read_loop-IsOrderly}
use web_socket_cpp.Socket.Client.Again.{reconnect_terminates}

abbrev running_socket : ClientSocket
running_socket = record {
  fd = some 5;
  epoll_fd = some 4;
  connected = true;
  read_running = true;
  initialized = true;
  running = true;
  joinable = true;
  open_fds = 5 ∷ [];
}

abbrev polls : List (Bool × Poll)
polls =
    (false, readable (1 ∷ 2 ∷ []))
    ∷ (false, timeout)
    ∷ (false, readable (3 ∷ []))
    ∷ (false, ended)
    ∷ []

read_loop-IsOrderly_example : IsOrderly true (seen polls) (read_loop polls running_socket)
read_loop-IsOrderly_example = read_loop-IsOrderly polls running_socket refl

all_told :
    (read_loop polls running_socket).1
    ≡ data_told (1 ∷ 2 ∷ []) ∷ data_told (3 ∷ []) ∷ close_told ∷ []
unfolding read_loop read_round handle_close shut_down
all_told = refl

-- Another thread closes the socket first, so the end of the connection is not told.
shut_first :
    (read_loop ((false, readable (1 ∷ [])) ∷ (true, hung_up) ∷ []) running_socket).1
    ≡ data_told (1 ∷ []) ∷ []
unfolding read_loop read_round handle_close shut_down
shut_first = refl

abbrev answers : Answers
answers = record {
  resolved = true;
  socket = some 6;
  nonblocking = true;
  connecting = at_once;
  watched = true;
}

reconnect_terminates_example :
    (let again = connect answers (read_loop ((false, ended) ∷ []) running_socket).0 in
      (again.1 ≡ true)
      × (again.0.fd ≡ some 6)
      × (again.0.open_fds ≡ 6 ∷ 5 ∷ [])
      × (run again.0 ≡ none))
reconnect_terminates_example =
    reconnect_terminates 5 6 running_socket answers []
      (record { initialized = refl; joinable = refl; held = refl; runs = refl })
      (record {
        resolved = refl;
        socket = refl;
        nonblocking = refl;
        connecting = refl;
        watched = refl;
      })

-- A `Close` that waits leaves nothing open, and the socket can be used again.
closed_whole : (close true running_socket).open_fds ≡ []
unfolding close close_fd remove_fd shut_down
closed_whole = refl

-- So does a connection that is refused.
refused_whole :
    (connect (record answers { connecting = refused }) (init (some 4) new_socket).0).0.open_fds ≡ []
unfolding connect connect_fd close_fd remove_fd init
refused_whole = refl
