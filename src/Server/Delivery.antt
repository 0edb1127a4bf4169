-- ===== src/Server/Delivery.antt =====
-- From the client's frames to the handlers: the messages of a stream arrive whole and in order.
use web_socket_cpp.Base.{
  ℕ, zero, suc, ◌+◌, ◌%◌, ◌≤◌, ◌<◌, Bool, true, false, List, [], ◌∷◌, ◌++◌, map, Option, some, ◌≡◌,
  ◌==◌, refl, ap, ◌∙◌, arith, append_assoc, ByteArray, IsBytes, length, size_mod, length-append,
  drop_exact, All,
}
use web_socket_cpp.Frame.Request.{Config, RequestWebSocket, fresh, parse, frame}
use web_socket_cpp.Frame.Request.RoundTrip.{parse-frame, length-frame}
use web_socket_cpp.Request.{Request, UrlOps}
use web_socket_cpp.Server.{
  RequestData, check_ws_frame, check_frames, Handlers, process_frames, process_entry, check_entry,
}
use web_socket_cpp.Server.Frames.{check_frames_go, check_frames_stop}

-- A message of the client with the mask that `Send` has chosen.
abbrev pub Sent : Type 0
Sent = RequestWebSocket × ByteArray

abbrev pub stream : List Sent → ByteArray
stream [] = []
stream ((req, key) ∷ sent) = frame req key ++ stream sent

-- What the server makes of it.
abbrev pub received : Sent → RequestWebSocket
received (req, key) = record {
  data_bytes = req.data_bytes;
  final = true;
  size = length (frame req key);
  message_type = req.message_type % 16;
}

pub record IsSendable (config : Config) (sent : Sent) : Type 0 where
  pub mask : length sent.1 ≡ 4
  pub mask_bytes : IsBytes sent.1
  pub data_bytes : IsBytes sent.0.data_bytes
  pub some_data : 0 < length sent.0.data_bytes
  pub frame_fits : length sent.0.data_bytes ≤ config.max_frame_size
  pub message_fits : length sent.0.data_bytes ≤ config.max_message_size

length-stream :
    (config : Config) (sent : List Sent) (rest : ByteArray)
    → All (IsSendable config) sent
    → length sent ≤ length (stream sent ++ rest)
length-stream config [] rest ok = omega arith
length-stream config (one ∷ sent) rest (first, ok) = omega (
  arith,
  length-frame one.0 one.1 first.mask,
  length-append (frame one.0 one.1 ++ stream sent) rest,
  length-append (frame one.0 one.1) (stream sent),
  length-append (stream sent) rest,
  length-stream config sent rest ok,
)

module _ {U : Type 0} where
  -- A connection whose handshake is done and for which nothing waits.
  abbrev pub open_connection : ℕ → Request U → ByteArray → RequestData U
  open_connection c request bytes = record {
    conn_id = c;
    request = request;
    bytes = bytes;
    request_list = [];
    handshake = true;
    ready_for_dispatch = false;
  }

  -- The connection after the messages, with the bytes that are left.
  abbrev pub delivered : RequestData U → List Sent → ByteArray → RequestData U
  delivered entry [] rest = record entry { bytes = rest }
  delivered entry (one ∷ sent) rest = record entry {
    bytes = rest;
    request_list = entry.request_list ++ map received (one ∷ sent);
    ready_for_dispatch = true;
    handshake = true;
  }

  abbrev with_frame : RequestData U → Sent → RequestData U
  with_frame entry one = record entry {
    request_list = entry.request_list ++ received one ∷ [];
    ready_for_dispatch = true;
    handshake = true;
  }

  delivered_step :
      (entry : RequestData U) (one : Sent) (sent : List Sent) (rest : ByteArray)
      → delivered (with_frame entry one) sent rest ≡ delivered entry (one ∷ sent) rest
  delivered_step entry one [] rest = refl
  delivered_step entry one (two ∷ sent) rest =
      ap
        (λ (frames : List RequestWebSocket). record entry {
          bytes = rest;
          request_list = frames;
          ready_for_dispatch = true;
          handshake = true;
        })
        (append_assoc entry.request_list (received one ∷ []) (map received (two ∷ sent)))

module _ {U : Type 0} (config : Config)
    (limit : config.max_frame_size + config.max_message_size + 14 < size_mod) where
  check_ws_frame_ends :
      (entry : RequestData U) (rest : ByteArray)
      → (parse config fresh rest).1 ≡ false
      → (check_ws_frame config (record entry { bytes = rest })).1 ≡ false
  unfolding check_ws_frame
  check_ws_frame_ends entry rest ends = ground arith

  check_ws_frame-frame :
      (entry : RequestData U) (one : Sent) (more : ByteArray)
      → IsSendable config one
      → check_ws_frame config (record entry { bytes = frame one.0 one.1 ++ more }) ≡ (
        record entry {
          bytes = more;
          request_list = entry.request_list ++ received one ∷ [];
          ready_for_dispatch = true;
          handshake = true;
        },
        true,
      )
  unfolding check_ws_frame
  check_ws_frame-frame entry (req, key) more ok =
      rw
        (
          parse-frame config req key more ok.mask ok.mask_bytes ok.data_bytes ok.some_data
              ok.frame_fits ok.message_fits (omega arith) (omega (arith, ok.frame_fits)),
          drop_exact (length (frame req key)) (frame req key) more refl,
        )
        refl

  check_frames-delivered :
      (fuel : ℕ) (entry : RequestData U) (sent : List Sent) (rest : ByteArray)
      → All (IsSendable config) sent
      → (parse config fresh rest).1 ≡ false
      → length sent ≤ fuel
      → (check_frames config fuel (record entry { bytes = stream sent ++ rest })).0
        ≡ delivered entry sent rest
  check_frames-delivered fuel entry [] rest ok ends enough =
      check_frames_stop config limit fuel (record entry { bytes = rest })
        (check_ws_frame_ends entry rest ends)
  check_frames-delivered zero entry (one ∷ sent) rest ok ends enough = absurd (omega arith)
  check_frames-delivered (suc fuel) entry (one ∷ sent) rest (first, ok) ends enough =
      let step = check_ws_frame-frame entry one (stream sent ++ rest) first in
      ap (λ (bs : ByteArray). (check_frames config (suc fuel) (record entry { bytes = bs })).0)
        (append_assoc (frame one.0 one.1) (stream sent) rest)
      ∙ check_frames_go config limit fuel
          (record entry { bytes = frame one.0 one.1 ++ (stream sent ++ rest) })
          (ap (λ (o : RequestData U × Bool). o.1) step)
      ∙ ap (λ (o : RequestData U × Bool). (check_frames config fuel o.0).0) step
      ∙ check_frames-delivered fuel (with_frame entry one) sent rest ok ends (omega arith)
      ∙ delivered_step entry one sent rest

module _ {U W : Type 0} (handlers : Handlers U W) where
  -- The request and the handlers' state after the frames, one after the other.
  abbrev pub run_all : Request U → List RequestWebSocket → W → Request U × W
  run_all request [] w = (request, w)
  run_all request (frame ∷ frames) w =
      let done = handlers.process_ws_request request frame w in run_all done.0 frames done.1

  process_frames-received :
      (request : Request U) (sent : List Sent) (w : W)
      → process_frames handlers request (map received sent) w
        ≡ ((run_all request (map received sent) w).0, [], (run_all request (map received sent) w).1)
  unfolding process_frames
  process_frames-received request [] w = refl
  process_frames-received request (one ∷ sent) w =
      let done = handlers.process_ws_request request (received one) w in
      process_frames-received done.0 sent done.1

  process_entry-delivered :
      (config : Config) (limit : config.max_frame_size + config.max_message_size + 14 < size_mod)
      (c : ℕ) (request : Request U) (bytes rest : ByteArray) (sent : List Sent) (w : W)
      → process_entry handlers (delivered (open_connection c request bytes) sent rest) w ≡ (
        open_connection c (run_all request (map received sent) w).0 rest,
        (run_all request (map received sent) w).1,
      )
  unfolding process_entry
  process_entry-delivered config limit c request bytes rest [] w = refl
  process_entry-delivered config limit c request bytes rest (one ∷ sent) w =
      let served = process_frames-received request (one ∷ sent) w in
      let some_wait : (length (received one ∷ map received sent) == 0) ≡ false = ground arith in
      rw (served, some_wait) refl

  module _ (url : UrlOps U) (to_number : ByteArray → Option ℕ) (config : Config)
      (limit : config.max_frame_size + config.max_message_size + 14 < size_mod) where
    -- One round of the request thread on an open connection for which nothing waits and which holds
    -- frames of the client, each with a mask of four bytes and a payload that is not empty and within
    -- the limits, followed by bytes in which no frame is accepted; the limits fit into 2^64. The check
    -- reads within the data, and then every message is handed to the handlers exactly once, whole and
    -- in the order in which it was sent, with the request as the messages before have left it; the
    -- connection is left open, with nothing waiting and exactly the bytes that follow.
    pub serve_stream :
        (c : ℕ) (request : Request U) (sent : List Sent) (rest : ByteArray) (w : W)
        → All (IsSendable config) sent
        → (parse config fresh rest).1 ≡ false
        → (next : RequestData U) × (found : Bool) × (check_entry url to_number config
              (open_connection c request (stream sent ++ rest))
            ≡ some (next, found))
          × (process_entry handlers next w ≡ (
            open_connection c (run_all request (map received sent) w).0 rest,
            (run_all request (map received sent) w).1,
          ))
    unfolding check_entry
    serve_stream c request sent rest w ok ends =
        let all = stream sent ++ rest in
        let entry = open_connection c request all in
        let out = check_frames config (length all) entry in
        let same =
          check_frames-delivered config limit (length all) entry sent rest ok ends
            (length-stream config sent rest ok) in
        (
          out.0,
          out.1,
          refl,
          rw same (process_entry-delivered config limit c request all rest sent w),
        )
