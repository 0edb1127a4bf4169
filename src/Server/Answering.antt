-- ===== src/Server/Answering.antt =====
-- `WebSocketServer::ProcessRequest` of src/WebSocketServer.cpp: how a handshake is answered. SHA-1 and
-- the time are parameters; `IsMatch` of a route and the handlers are functions, as for the messages.
pub mod Upgrade
pub mod Unmatched
mod Tests
use web_socket_cpp.Base.{
  ℕ, Bool, true, false, not, ◌&&◌, List, [], ◌∷◌, ◌++◌, none, some, ByteArray, codes, if◌then◌else◌,
}
use web_socket_cpp.Names.HeaderType
use web_socket_cpp.HttpHeader
use web_socket_cpp.HttpHeader.{get_header}
use web_socket_cpp.Base64.{encode}
use web_socket_cpp.Request.{Request}
use web_socket_cpp.Response
use web_socket_cpp.Response.{Response}
use web_socket_cpp.Response.Writing.{
  set_response_code, add_header, add_header_type, not_found, send,
}
use web_socket_cpp.Client.{key_token}
use web_socket_cpp.Server.{Handlers}
use web_socket_cpp.Server.Messages.{
  RouteWebSocket, returned_true, matches, tried, process_ws_request,
}

-- What the loop over the routes leaves: the request, the answer, the state, and the two flags.
pub record Tried (U W : Type 0) : Type 0 where
  pub request : Request U
  pub response : Response
  pub state : W
  pub processed : Bool
  pub matched : Bool

module _ {U W : Type 0} where
  unfoldable pub try_routes :
      List (RouteWebSocket U W) → Request U → Response → W → Bool → Tried U W
  unfolding returned_true tried
  try_routes [] request response w matched = record {
    request = request;
    response = response;
    state = w;
    processed = false;
    matched = matched;
  }
  try_routes (route ∷ routes) request response w matched =
      let next = tried route request in
      elim (matches route request) [
        | false ↦ try_routes routes next response w matched
        | true ↦ elim route.function_request [
          | none ↦ try_routes routes next response w true
          | some f ↦
              let out = f next response w in
              elim (returned_true out.2) [
                | true ↦ record {
                  request = next;
                  response = out.0;
                  state = out.1;
                  processed = true;
                  matched = true;
                }
                | false ↦ try_routes routes next out.0 out.1 true
              ]
        ]
      ]

-- The answer to a handshake of a route without a handler for requests.
unfoldable pub upgrade :
    (ByteArray → ByteArray) → ByteArray → {U : Type 0} → Request U → Response → Response
unfolding set_response_code add_header add_header_type
upgrade sha1 date request response =
    let key = get_header (codes "Sec-WebSocket-Key") request.header ++ key_token in
    add_header (codes "Sec-WebSocket-Version") (codes "13") (
      add_header (codes "Sec-WebSocket-Accept") (encode (sha1 key)) (
        add_header_type HeaderType.connection (codes "upgrade") (
          add_header_type HeaderType.upgrade (codes "websocket")
            (add_header_type HeaderType.date date (set_response_code 101 response)))))

-- What the server's configuration says, and the library's and the system's calls.
pub record Setting (W : Type 0) : Type 0 where
  pub server_name : ByteArray
  pub ws_process_default : Bool
  pub sha1 : ByteArray → ByteArray
  pub date : ByteArray
  pub number_text : ℕ → ByteArray
  pub write : ℕ → ByteArray → W → W × Bool

module _ {U W : Type 0} (setting : Setting W) (routes : List (RouteWebSocket U W)) where
  -- The request, the answer that is sent, and the state.
  unfoldable pub choose_response : Request U → W → Request U × Response × W
  unfolding try_routes upgrade not_found
  choose_response request w =
      let left = try_routes routes request (Response.create setting.server_name) w false in
      (
        left.request,
        if not left.processed && left.matched
            then (if setting.ws_process_default
                then upgrade setting.sha1 setting.date left.request left.response
                else not_found left.response)
            else left.response,
        left.state,
      )

  unfoldable pub process_request : Request U → W → Request U × W × Bool
  unfolding choose_response send
  process_request request w =
      let chosen = choose_response request w in
      let out = send setting.number_text (setting.write request.conn_id) chosen.1 chosen.2 in
      (chosen.0, out.0, out.1)

-- The two routines as the queue uses them.
unfoldable pub server_handlers :
    {U W : Type 0} → Setting W → List (RouteWebSocket U W) → Handlers U W
unfolding process_request process_ws_request
server_handlers setting routes = record {
  process_request = process_request setting routes;
  process_ws_request =
      process_ws_request routes (λ conn_id bytes w. (setting.write conn_id bytes w).0);
}
