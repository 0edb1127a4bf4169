-- ===== src/Server.antt =====
-- src/WebSocketServer.cpp and `RequestData` of include/WebSocketServer.h: the queue of connections
-- between the socket's callbacks and the request thread. Each operation holds `m_queueMutex` for its
-- whole body, so it is one step on the queue. A connection's number is a natural number. What
-- `ProcessRequest` and `ProcessWsRequest` do is an interface here; Server.Answering has the first and
-- Server.Messages the second.
pub mod Queue
pub mod Frames
pub mod Dispatch
pub mod Steps
pub mod Delivery
pub mod Messages
pub mod Answering
mod Tests
use web_socket_cpp.Base.{
  ℕ, zero, suc, Bool, true, false, not, ◌||◌, List, [], ◌∷◌, ◌++◌, Option, none, some, ByteArray,
  length, drop, leb, ◌==◌, if◌then◌else◌,
}
use web_socket_cpp.Names.Method
use web_socket_cpp.Frame.Request.{Config, RequestWebSocket, fresh, parse}
use web_socket_cpp.Request
use web_socket_cpp.Request.{UrlOps, Request}

pub record RequestData (U : Type 0) : Type 0 where
  pub conn_id : ℕ
  pub request : Request U
  pub bytes : ByteArray
  pub request_list : List RequestWebSocket
  pub handshake : Bool
  pub ready_for_dispatch : Bool

module _ {U : Type 0} where
  unfoldable pub get_request : ℕ → List (RequestData U) → Option (RequestData U)
  get_request conn_id [] = none
  get_request conn_id (entry ∷ queue) =
      if entry.conn_id == conn_id then some entry else get_request conn_id queue

  unfoldable pub put_to_queue : ℕ → ByteArray → List (RequestData U) → List (RequestData U)
  put_to_queue conn_id more [] = []
  put_to_queue conn_id more (entry ∷ queue) =
      let rest = put_to_queue conn_id more queue in
      if entry.conn_id == conn_id
      then record entry { bytes = entry.bytes ++ more } ∷ queue
      else entry ∷ rest

  unfoldable pub is_queue_empty : List (RequestData U) → Bool
  is_queue_empty [] = true
  is_queue_empty (_ ∷ _) = false

  unfoldable pub has_data : List (RequestData U) → Bool
  has_data [] = false
  has_data (entry ∷ queue) =
      not (length entry.bytes == 0) || entry.ready_for_dispatch || has_data queue

  unfoldable pub remove_from_queue : ℕ → List (RequestData U) → List (RequestData U)
  remove_from_queue conn_id [] = []
  remove_from_queue conn_id (entry ∷ queue) =
      let rest = remove_from_queue conn_id queue in
      if entry.conn_id == conn_id then queue else entry ∷ rest

  -- A frame that `Parse` accepts moves from the bytes to the list.
  unfoldable pub check_ws_frame : Config → RequestData U → RequestData U × Bool
  check_ws_frame config entry =
      let out = parse config fresh entry.bytes in
      if out.1
      then (
        record entry {
          bytes = drop out.0.size entry.bytes;
          request_list = entry.request_list ++ out.0 ∷ [];
          ready_for_dispatch = true;
          handshake = true;
        },
        true,
      )
      else (entry, false)

  -- The loop `while (CheckWsFrame(...))`, on fuel.
  unfoldable pub check_frames : Config → ℕ → RequestData U → RequestData U × Bool
  check_frames config zero entry = (entry, false)
  check_frames config (suc fuel) entry =
      let step = check_ws_frame config entry in
      elim step.1 [ true ↦ ((check_frames config fuel step.0).0, true) | false ↦ step ]

-- What the handlers of the routes and `Send` do is kept in a state `W`.
pub record Handlers (U W : Type 0) : Type 0 where
  pub process_request : Request U → W → Request U × W × Bool
  pub process_ws_request : Request U → RequestWebSocket → W → Request U × W

module _ {U : Type 0} (url : UrlOps U) where
  unfoldable pub init_connection : ℕ → List (RequestData U) → List (RequestData U)
  unfolding get_request
  init_connection conn_id queue = elim (get_request conn_id queue) [
    | some _ ↦ queue
    | none ↦
        queue
        ++ record {
          conn_id = conn_id;
          request = Request.create url conn_id;
          bytes = [];
          request_list = [];
          handshake = false;
          ready_for_dispatch = false;
        }
          ∷ []
  ]

module _ {U : Type 0} (url : UrlOps U) (to_number : ByteArray → Option ℕ) (config : Config) where
  -- `none` stands for a read outside the data.
  unfoldable pub check_ws_header : RequestData U → Option (RequestData U × Bool)
  check_ws_header entry = elim (Request.parse url entry.bytes entry.request) [
    | Request.broken ↦ none
    | Request.answered request false ↦ some (record entry { request = request }, false)
    | Request.answered request true ↦
        let size = Request.get_request_size to_number request in
        if leb size (length entry.bytes)
        then some (
          record entry {
            request = record request { method = Method.websocket };
            bytes = drop size entry.bytes;
            ready_for_dispatch = true;
            handshake = false;
          },
          true,
        )
        else some (record entry { request = request }, false)
  ]

  -- The body of the loop of `CheckData`. As many rounds as there are bytes are enough.
  unfoldable pub check_entry : RequestData U → Option (RequestData U × Bool)
  unfolding check_ws_header check_frames
  check_entry entry =
      if entry.ready_for_dispatch
      then some (entry, false)
      else if entry.handshake
      then some (check_frames config (length entry.bytes) entry)
      else check_ws_header entry

  unfoldable pub check_data : List (RequestData U) → Option (List (RequestData U) × Bool)
  unfolding check_entry
  check_data [] = some ([], false)
  check_data (entry ∷ queue) = elim (check_entry entry) [
    | none ↦ none
    | some (next, found) ↦ elim (check_data queue) [
      | none ↦ none
      | some (rest, more) ↦ some (next ∷ rest, found || more)
    ]
  ]

module _ {U W : Type 0} (handlers : Handlers U W) where
  -- The loop over `requestList`: final frames are processed in their order and taken out.
  unfoldable pub process_frames :
      Request U → List RequestWebSocket → W → Request U × List RequestWebSocket × W
  process_frames request [] w = (request, [], w)
  process_frames request (frame ∷ frames) w =
      if frame.final
      then (let done = handlers.process_ws_request request frame w in
          process_frames done.0 frames done.1)
      else (let out = process_frames request frames w in (out.0, frame ∷ out.1, out.2))

  -- The body of the loop of `ProcessRequests`.
  unfoldable pub process_entry : RequestData U → W → RequestData U × W
  unfolding process_frames
  process_entry entry w =
      if not entry.ready_for_dispatch
      then (entry, w)
      else if not entry.handshake
      then (let out = handlers.process_request entry.request w in
          if out.2
          then (
            record entry { request = out.0; handshake = true; ready_for_dispatch = false },
            out.1,
          )
          else (record entry { request = out.0 }, out.1))
      else if length entry.request_list == 0
      then (entry, w)
      else (let out = process_frames entry.request entry.request_list w in
          (
            record entry { request = out.0; request_list = out.1; ready_for_dispatch = false },
            out.2,
          ))

  unfoldable pub process_requests : List (RequestData U) → W → List (RequestData U) × W
  unfolding process_entry
  process_requests [] w = ([], w)
  process_requests (entry ∷ queue) w =
      let out = process_entry entry w in
      let rest = process_requests queue out.1 in (out.0 ∷ rest.0, rest.1)
