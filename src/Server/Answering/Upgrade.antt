-- ===== src/Server/Answering/Upgrade.antt =====
-- The bytes of the server's own answer to a handshake.
use web_socket_cpp.Base.{
  ℕ, Bool, true, false, ◌||◌, List, [], ◌∷◌, ◌++◌, none, ◌≡◌, refl, ap, ◌∙◌, arith, ByteArray,
  codes, All, Bool-cases, inl, inr, append_assoc,
}
use web_socket_cpp.Names.HeaderType
use web_socket_cpp.HttpHeader
use web_socket_cpp.HttpHeader.{HttpHeader, get_header}
use web_socket_cpp.Text.Compare.{compare, same_letters}
use web_socket_cpp.Base64.{encode}
use web_socket_cpp.Request.{Request}
use web_socket_cpp.Response
use web_socket_cpp.Response.{Response}
use web_socket_cpp.Response.Writing.{
  set_response_code, response_code_to_string, find_name, add_header, add_header_type,
  build_status_line, header_part, send,
}
use web_socket_cpp.Server.Messages.{RouteWebSocket, matches, tried, tried_all}
use web_socket_cpp.Server.Answering.{
  try_routes, upgrade, Setting, choose_response, process_request, Tried,
}

module _ {U W : Type 0} where
  -- Does a route match the request?
  abbrev pub is_matched : List (RouteWebSocket U W) → Request U → Bool
  is_matched [] request = false
  is_matched (route ∷ routes) request = matches route request || is_matched routes request

  pub same_matched :
      (routes : List (RouteWebSocket U W)) (route : RouteWebSocket U W) (request : Request U)
      → is_matched routes (tried route request) ≡ is_matched routes request
  unfolding tried
  same_matched [] route request = refl
  same_matched (other ∷ routes) route request =
      ap (λ (b : Bool). matches other request || b) (same_matched routes route request)

  -- The headers and the connection are not touched by the routes.
  pub tried_all-header :
      (routes : List (RouteWebSocket U W)) (request : Request U)
      → (tried_all routes request).header ≡ request.header
  unfolding tried
  tried_all-header [] request = refl
  tried_all-header (route ∷ routes) request = tried_all-header routes (tried route request)

  abbrev bare_result : List (RouteWebSocket U W) → Request U → Response → W → Bool → Tried U W
  bare_result routes request response w matched = record {
    request = tried_all routes request;
    response = response;
    state = w;
    processed = false;
    matched = matched;
  }

  -- Routes without handlers for requests leave the answer as it is.
  try_routes_bare :
      (routes : List (RouteWebSocket U W)) (request : Request U) (response : Response) (w : W)
      (matched : Bool)
      → All (λ (route : RouteWebSocket U W). route.function_request ≡ none) routes
      → try_routes routes request response w matched
        ≡ bare_result routes request response w (matched || is_matched routes request)
  unfolding try_routes
  try_routes_bare [] request response w matched bare =
      ap (bare_result [] request response w) (ground arith)
  try_routes_bare (route ∷ routes) request response w matched (none_there, bare) =
      let later = try_routes_bare routes (tried route request) response w in
      elim (Bool-cases (matches route request)) [
        | inl fits ↦
            rw (try_routes, fits, none_there)
              (later true bare
                ∙ ap (bare_result routes (tried route request) response w) (ground arith))
        | inr other ↦
            rw (try_routes, other)
              (later matched bare
                ∙ ap (bare_result routes (tried route request) response w)
                    (ap (λ (b : Bool). matched || b) (same_matched routes route request)))
      ]

-- The answer of RFC 6455, with the library's name and the time.
abbrev pub answer_bytes :
    (ℕ → ByteArray) → (ByteArray → ByteArray) → ByteArray → ByteArray → ByteArray → ByteArray
answer_bytes number_text sha1 server_name date key =
    codes "HTTP/1.1 "
    ++ number_text 101
    ++ codes " Switching Protocols\r\nServer: "
    ++ server_name
    ++ codes "\r\nDate: "
    ++ date
    ++ codes "\r\nUpgrade: websocket\r\nConnection: upgrade\r\nSec-WebSocket-Accept: "
    ++ encode (sha1 (key ++ codes "258EAFA5-E914-47DA-95CA-C5AB0DC85B11"))
    ++ codes "\r\nSec-WebSocket-Version: 13\r\n\r\n"

upgrade-header_part :
    (number_text : ℕ → ByteArray) (sha1 : ByteArray → ByteArray) (server_name date : ByteArray)
    {U : Type 0} (request : Request U)
    → header_part number_text (upgrade sha1 date request (Response.create server_name))
      ≡ answer_bytes number_text sha1 server_name date
          (get_header (codes "Sec-WebSocket-Key") request.header)
unfolding header_part build_status_line upgrade set_response_code response_code_to_string find_name
    add_header add_header_type Response.create HttpHeader.create HttpHeader.set_header
    HttpHeader.set_header_type HttpHeader.set_entry HttpHeader.to_byte_array HttpHeader.header_bytes
    compare same_letters HeaderType.header_type_to_string
upgrade-header_part number_text sha1 server_name date request = simp append_assoc refl

upgrade-body :
    (sha1 : ByteArray → ByteArray) (server_name date : ByteArray) {U : Type 0} (request : Request U)
    → (upgrade sha1 date request (Response.create server_name)).body ≡ []
unfolding upgrade set_response_code add_header add_header_type Response.create
upgrade-body sha1 server_name date request = refl

-- Without a body there is one write, and its result is that of `Send`.
pub send_once :
    (number_text : ℕ → ByteArray) {W : Type 0} (write : ByteArray → W → W × Bool)
    (response : Response) (w : W)
    → response.body ≡ []
    → send number_text write response w ≡ (
      (write (header_part number_text response) w).0,
      (write (header_part number_text response) w).1,
    )
unfolding send
send_once number_text write response w empty =
    elim (Bool-cases (write (header_part number_text response) w).1) [
      | inl written ↦ rw (send, written, empty) refl
      | inr failed ↦ rw (send, failed) refl
    ]

module _ {U W : Type 0} (setting : Setting W) (routes : List (RouteWebSocket U W)) where
  -- When a route matches a request for a handshake, the routes have no handlers for requests, and the server
  -- is set to answer by itself, then it writes one piece, on the request's connection: the status line
  -- with the code 101, the server's name, the time, the two headers of the upgrade, the Base64 text of the digest
  -- of the request's key with the protocol's token behind it, the version and an empty line, whatever the
  -- names, the time and the digest are. What this write returns is the result.
  pub process_request-answer_bytes :
      (key : ByteArray) (request : Request U) (w : W)
      → setting.ws_process_default ≡ true
      → get_header (codes "Sec-WebSocket-Key") request.header ≡ key
      → All (λ (route : RouteWebSocket U W). route.function_request ≡ none) routes
      → is_matched routes request ≡ true
      → process_request setting routes request w ≡ (
        tried_all routes request,
        (setting.write request.conn_id
            (answer_bytes setting.number_text setting.sha1 setting.server_name setting.date key)
            w).0,
        (setting.write request.conn_id
            (answer_bytes setting.number_text setting.sha1 setting.server_name setting.date key)
            w).1,
      )
  unfolding process_request
  process_request-answer_bytes key request w default named bare match =
      let left = tried_all routes request in
      let answer = upgrade setting.sha1 setting.date left (Response.create setting.server_name) in
      let chosen : choose_response setting routes request w ≡ (left, answer, w) =
        rw
          (
            choose_response,
            try_routes_bare routes request (Response.create setting.server_name) w false bare,
            match,
            default,
          )
          refl in
      let bytes =
        upgrade-header_part setting.number_text setting.sha1 setting.server_name setting.date left
        ∙ ap (answer_bytes setting.number_text setting.sha1 setting.server_name setting.date) (
            ap (get_header (codes "Sec-WebSocket-Key")) (tried_all-header routes request)
            ∙ named) in
      let write = setting.write request.conn_id in
      ap
        (λ (c : Request U × Response × W). (
          c.0,
          (send setting.number_text write c.1 c.2).0,
          (send setting.number_text write c.1 c.2).1,
        ))
        chosen
      ∙ ap (λ (out : W × Bool). (left, out.0, out.1))
          (send_once setting.number_text write answer w
              (upgrade-body setting.sha1 setting.server_name setting.date left)
            ∙ ap (λ (b : ByteArray). ((write b w).0, (write b w).1)) bytes)
