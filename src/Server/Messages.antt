-- ===== src/Server/Messages.antt =====
-- `WebSocketServer::ProcessWsRequest` of src/WebSocketServer.cpp: what is done with a message. `IsMatch` of
-- a route is a function, as are the handlers, which may throw and then keep what they have done.
-- The result of `Send` is not used, so writing is a function on the state, whether it throws or not.
use web_socket_cpp.Base.{
  ℕ, ◌<◌, Bool, true, false, not, ◌||◌, List, [], ◌∷◌, ◌++◌, Option, none, some, ◌≡◌, refl,
  ByteArray, length, ◌==◌, if◌then◌else◌, ◌⊎◌, get_or, ◌+◌,
}
use web_socket_cpp.Frame.MessageType
use web_socket_cpp.Frame.{flags1_byte}
use web_socket_cpp.Frame.Request.{RequestWebSocket}
use web_socket_cpp.Frame.Response
use web_socket_cpp.Frame.Response.{ResponseWebSocket, is_empty, write_binary, set_message_type}
use web_socket_cpp.Frame.Response.Laws.{parse-frame_short}
use web_socket_cpp.Request.{Request}
use web_socket_cpp.Names.Method.{Method}
use web_socket_cpp.Url.{assign}
use web_socket_cpp.Response.{Response}

-- `IsMatch` reads the method and the address of a request; it answers with the arguments that it sets,
-- also where it then refuses, and with its result. A handler answers with the response, the state and
-- its result, `none` where it threw.
pub record RouteWebSocket (U W : Type 0) : Type 0 where
  pub is_match : Method → U → List (ByteArray × ByteArray) × Bool
  pub function_request : Option (Request U → Response → W → Response × W × Option Bool)
  pub function_message :
      Option (Request U → ResponseWebSocket → ByteArray → W → ResponseWebSocket × W × Option Bool)

-- Did the handler return `true`?
unfoldable pub returned_true : Option Bool → Bool
returned_true none = false
returned_true (some b) = b

-- `SetArg` for each of the arguments.
unfoldable pub set_args :
    List (ByteArray × ByteArray) → List (ByteArray × ByteArray) → List (ByteArray × ByteArray)
set_args [] args = args
set_args ((name, value) ∷ more) args = set_args more (assign name value args)

module _ {U W : Type 0} where
  -- What a route's `IsMatch` returns for a request, and the request that it leaves.
  abbrev pub matches : RouteWebSocket U W → Request U → Bool
  matches route request = (route.is_match request.method request.url).1

  unfoldable pub tried : RouteWebSocket U W → Request U → Request U
  unfolding set_args
  tried route request = record request {
    args = set_args (route.is_match request.method request.url).0 request.args;
  }

  -- The loop over the routes.
  unfoldable pub process_routes :
      List (RouteWebSocket U W)
      → Request U
      → ByteArray
      → ResponseWebSocket
      → W
      → Request U × ResponseWebSocket × W
  unfolding returned_true tried
  process_routes [] request bytes response w = (request, response, w)
  process_routes (route ∷ routes) request bytes response w =
      let next = tried route request in
      if matches route request
      then elim route.function_message [
        | none ↦ process_routes routes next bytes response w
        | some f ↦
            let out = f next response bytes w in
            elim (returned_true out.2) [
              | true ↦ (next, out.0, out.1)
              | false ↦ process_routes routes next bytes out.0 out.1
            ]
      ]
      else process_routes routes next bytes response w

  unfoldable pub process_ws_request :
      List (RouteWebSocket U W)
      → (ℕ → ByteArray → W → W)
      → Request U
      → RequestWebSocket
      → W
      → Request U × W
  unfolding process_routes is_empty write_binary set_message_type
  process_ws_request routes write request frame w =
      let response = Response.create request.conn_id in
      let kind = frame.message_type in
      let out : Request U × ResponseWebSocket × W =
        if kind == MessageType.text || kind == MessageType.binary
        then process_routes routes request frame.data_bytes response w
        else if kind == MessageType.ping
        then (
          request,
          set_message_type (write_binary response frame.data_bytes) MessageType.pong,
          w,
        )
        else (request, response, w) in
      (
        out.0,
        if not (is_empty out.1) then write out.1.conn_id (Response.frame out.1) out.2 else out.2,
      )

  -- The request that several routes leave, one after the other.
  abbrev pub tried_all : List (RouteWebSocket U W) → Request U → Request U
  tried_all [] request = request
  tried_all (route ∷ routes) request = tried_all routes (tried route request)

  -- The route leaves the message to the others: it does not match or has no handler.
  abbrev pub IsPassed : Request U → RouteWebSocket U W → Type 0
  IsPassed request route = (matches route request ≡ false) ⊎ (route.function_message ≡ none)

  -- A ping with less than 126 bytes is answered on its connection by one frame, whatever the routes
  -- are: its first byte is that of a final pong, and the client reads back from it, whatever follows,
  -- the bytes of the ping. The request stays as it is.
  pub process_ws_request_ping :
      (routes : List (RouteWebSocket U W)) (write : ℕ → ByteArray → W → W) (request : Request U)
      (frame : RequestWebSocket) (w : W) (rest : ByteArray)
      → frame.message_type ≡ MessageType.ping
      → length frame.data_bytes < 126
      → (answer : ByteArray) × (process_ws_request routes write request frame w
          ≡ (request, write request.conn_id answer w))
        × (get_or answer 0 0 ≡ 0x8a)
        × (Response.parse (Response.create request.conn_id) (answer ++ rest)
            ≡ Response.parsed
                (record (Response.create request.conn_id) {
                  data_bytes = frame.data_bytes;
                  size = 2 + length frame.data_bytes;
                })
                true)
  unfolding process_ws_request
  process_ws_request_ping routes write request frame w rest ping small =
      let pong : ResponseWebSocket = record (Response.create request.conn_id) {
        data_bytes = frame.data_bytes;
        message_type = MessageType.pong;
      } in
      (
        Response.frame pong,
        rw ping refl,
        unfold Response.frame Response.header_of flags1_byte in refl,
        parse-frame_short pong rest request.conn_id small,
      )
