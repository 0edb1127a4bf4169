-- ===== src/Socket/Client/Reading.antt =====
-- What the callbacks of the client's socket are told.
use web_socket_cpp.Base.{
  Bool, true, false, not, ◌&&◌, ◌||◌, List, [], ◌∷◌, ◌++◌, map, ◌≡◌, refl, ap, ◌∙◌, arith,
  ByteArray, if◌then◌else◌,
}
use web_socket_cpp.Socket.Client.{
  ClientSocket, Told, data_told, close_told, Poll, interrupted, failed, timeout, hung_up, readable,
  nothing_there, ended, handle_close, shut_down, read_round, read_loop,
}

-- The other side has ended the connection.
abbrev pub is_end : Poll → Bool
is_end hung_up = true
is_end ended = true
is_end _ = false

abbrev pub is_last : Poll → Bool
is_last failed = true
is_last poll = is_end poll

-- The answers that the loop gets to: up to the first end or error, and none behind a shutdown.
abbrev pub seen : List (Bool × Poll) → List (Bool × Poll)
seen [] = []
seen ((shut, poll) ∷ polls) = (shut, poll) ∷ (if shut || is_last poll then [] else seen polls)

-- The data of some answers, whether one is the end, and whether there was a shutdown.
abbrev pub arrivals : List (Bool × Poll) → List ByteArray
arrivals [] = []
arrivals ((shut, readable bytes) ∷ polls) = bytes ∷ arrivals polls
arrivals ((shut, _) ∷ polls) = arrivals polls

abbrev pub any_end : List (Bool × Poll) → Bool
any_end [] = false
any_end ((shut, poll) ∷ polls) = is_end poll || any_end polls

abbrev pub any_shut : List (Bool × Poll) → Bool
any_shut [] = false
any_shut ((shut, poll) ∷ polls) = shut || any_shut polls

abbrev pub closing : Bool → List Told
closing tells = if tells then close_told ∷ [] else []

-- What the callbacks are told of the answers.
abbrev pub all_told : Bool → List (Bool × Poll) → List Told
all_told connected polls =
    map data_told (arrivals polls) ++ closing (connected && not (any_shut polls) && any_end polls)

-- What is told, and whether the socket is still connected.
abbrev pub IsOrderly : Bool → List (Bool × Poll) → ClientSocket × List Told → Type 0
IsOrderly connected polls out =
    (out.1 ≡ all_told connected polls)
    × (out.0.connected ≡ (connected && not (any_shut polls) && not (any_end polls)))

nothing_told :
    (connected : Bool)
    → ([] ≡ closing (connected && true && false)) × (connected ≡ (connected && true && true))
nothing_told true = (refl, refl)
nothing_told false = (refl, refl)

end_told :
    (connected : Bool)
    → (closing connected ≡ closing (connected && true && true))
      × (false ≡ (connected && true && false))
end_told true = (refl, refl)
end_told false = (refl, refl)

shut_told :
    (connected one two : Bool)
    → ([] ≡ closing (connected && false && one)) × (false ≡ (connected && false && two))
shut_told true one two = (refl, refl)
shut_told false one two = (refl, refl)

stopped_loop :
    (polls : List (Bool × Poll)) (socket : ClientSocket)
    → socket.read_running ≡ false
    → ((read_loop polls socket).1 ≡ []) × ((read_loop polls socket).0.connected ≡ socket.connected)
unfolding read_loop
stopped_loop [] socket stopped = (refl, refl)
stopped_loop ((shut, poll) ∷ polls) socket stopped = rw stopped (refl, refl)

-- The loop behind its test.
abbrev after_round : Poll → List (Bool × Poll) → ClientSocket → ClientSocket × List Told
after_round poll polls socket =
    let out = read_round poll socket in
    let rest = read_loop polls out.0 in
    if out.2 then (rest.0, out.1 ++ rest.1) else (record out.0 { running = false }, out.1)

going_loop :
    (poll : Poll) (polls : List (Bool × Poll)) (socket : ClientSocket)
    → IsOrderly socket.connected (seen polls) (read_loop polls socket)
    → IsOrderly socket.connected (seen ((false, poll) ∷ polls)) (after_round poll polls socket)
unfolding read_round handle_close
going_loop interrupted polls socket later = later
going_loop failed polls socket later = nothing_told socket.connected
going_loop timeout polls socket later = later
going_loop hung_up polls socket later = end_told socket.connected
going_loop (readable bytes) polls socket (told, left) = (ap (◌∷◌ (data_told bytes)) told, left)
going_loop nothing_there polls socket later = later
going_loop ended polls socket later = end_told socket.connected

-- Behind a shutdown the answer at hand is the last.
quiet_loop :
    (polls : List (Bool × Poll)) (socket : ClientSocket)
    → ((read_loop polls (shut_down socket)).1 ≡ closing (socket.connected && false && false))
      × ((read_loop polls (shut_down socket)).0.connected ≡ (socket.connected && false && true))
unfolding shut_down
quiet_loop polls socket =
    let (told, left) = stopped_loop polls (shut_down socket) refl in
    let (none_told, unconnected) = shut_told socket.connected false true in
    (told ∙ none_told, left ∙ unconnected)

shut_loop :
    (poll : Poll) (polls : List (Bool × Poll)) (socket : ClientSocket)
    → IsOrderly socket.connected ((true, poll) ∷ []) (after_round poll polls (shut_down socket))
unfolding read_round handle_close shut_down
shut_loop interrupted polls socket = quiet_loop polls socket
shut_loop failed polls socket = shut_told socket.connected false true
shut_loop timeout polls socket = quiet_loop polls socket
shut_loop hung_up polls socket = shut_told socket.connected true false
shut_loop (readable bytes) polls socket =
    let (told, left) = quiet_loop polls socket in (ap (◌∷◌ (data_told bytes)) told, left)
shut_loop nothing_there polls socket = quiet_loop polls socket
shut_loop ended polls socket = shut_told socket.connected true false

next_loop :
    (shut : Bool) (poll : Poll) (polls : List (Bool × Poll)) (socket : ClientSocket)
    → IsOrderly socket.connected (seen polls) (read_loop polls socket)
    → IsOrderly socket.connected
        (seen ((shut, poll) ∷ polls))
        (after_round poll polls (if shut then shut_down socket else socket))
next_loop true poll polls socket later = shut_loop poll polls socket
next_loop false poll polls socket later = going_loop poll polls socket later

tested :
    (connected runs : Bool) (polls : List (Bool × Poll)) (stopped going : ClientSocket × List Told)
    → runs ≡ true
    → IsOrderly connected polls going
    → IsOrderly connected polls (if not runs then stopped else going)
tested connected true polls stopped going e orderly = orderly
tested connected false polls stopped going e orderly = absurd (ground (arith, e))

-- The thread that reads runs, and the system gives its answers, with shutdowns by other threads between
-- them. Of these the loop gets to those up to the first end of the connection or error, and to none behind a
-- shutdown. The data callback gets just the data of these, in their order, each once. Then the close
-- callback is called if and only if one of them is the end of the connection, the socket was connected and none
-- of them came with a shutdown; it is called once. The socket is still connected if it was, and there was
-- neither a shutdown nor an end.
pub read_loop-IsOrderly :
    (polls : List (Bool × Poll)) (socket : ClientSocket)
    → socket.read_running ≡ true
    → IsOrderly socket.connected (seen polls) (read_loop polls socket)
unfolding read_loop
read_loop-IsOrderly [] socket runs = nothing_told socket.connected
read_loop-IsOrderly ((shut, poll) ∷ polls) socket runs =
    tested socket.connected socket.read_running (seen ((shut, poll) ∷ polls))
      (record socket { running = false }, [])
      (after_round poll polls (if shut then shut_down socket else socket)) runs
      (next_loop shut poll polls socket (read_loop-IsOrderly polls socket runs))
