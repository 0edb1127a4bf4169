-- ===== src/Server/Answering/Unmatched.antt =====
-- What a request that no route matches comes to.
use web_socket_cpp.Base.{
  Bool, true, false, List, [], ◌∷◌, ◌≡◌, refl, ap, ◌∙◌, arith, ByteArray, codes, Bool-cases, inl,
  inr,
}
use web_socket_cpp.Names.HeaderType
use web_socket_cpp.HttpHeader
use web_socket_cpp.HttpHeader.{HttpHeader, get_header}
use web_socket_cpp.Text.Compare.{compare, same_letters}
use web_socket_cpp.Request.{Request}
use web_socket_cpp.Response
use web_socket_cpp.Response.{Response}
use web_socket_cpp.Response.Writing.{header_part, send}
use web_socket_cpp.Server.{RequestData, process_entry}
use web_socket_cpp.Server.Messages.{RouteWebSocket, matches, tried, tried_all}
use web_socket_cpp.Server.Answering.{
  try_routes, Setting, choose_response, process_request, server_handlers,
}
use web_socket_cpp.Server.Answering.Upgrade.{is_matched, same_matched, send_once}

module _ {U W : Type 0} where
  try_routes_unmatched :
      (routes : List (RouteWebSocket U W)) (request : Request U) (response : Response) (w : W)
      (matched : Bool)
      → is_matched routes request ≡ false
      → try_routes routes request response w matched ≡ record {
        request = tried_all routes request;
        response = response;
        state = w;
        processed = false;
        matched = matched;
      }
  unfolding try_routes
  try_routes_unmatched [] request response w matched unmatched = refl
  try_routes_unmatched (route ∷ routes) request response w matched unmatched =
      elim (Bool-cases (matches route request)) [
        | inl fits ↦ absurd (ground (arith, fits, unmatched))
        | inr other ↦
            rw (try_routes, other)
              (try_routes_unmatched routes (tried route request) response w matched
                (same_matched routes route request ∙ ground (arith, other, unmatched)))
      ]

unmatched_code : (server_name : ByteArray) → (Response.create server_name).code ≡ 200
unfolding Response.create
unmatched_code server_name = refl

unmatched_body : (server_name : ByteArray) → (Response.create server_name).body ≡ []
unfolding Response.create
unmatched_body server_name = refl

unmatched_header :
    (server_name : ByteArray)
    → get_header (codes "Sec-WebSocket-Accept") (Response.create server_name).header ≡ []
unfolding Response.create HttpHeader.create HttpHeader.set_header HttpHeader.set_header_type
    HttpHeader.set_entry HttpHeader.get_entry HttpHeader.get_header compare same_letters
    HeaderType.header_type_to_string
unmatched_header server_name = refl

module _ {U W : Type 0} (setting : Setting W) (routes : List (RouteWebSocket U W)) where
  unmatched_request :
      (request : Request U) (w : W)
      → is_matched routes request ≡ false
      → (setting.write request.conn_id
          (header_part setting.number_text (Response.create setting.server_name))
          w).1
        ≡ true
      → process_request setting routes request w ≡ (
        tried_all routes request,
        (setting.write request.conn_id
            (header_part setting.number_text (Response.create setting.server_name))
            w).0,
        true,
      )
  unfolding process_request
  unmatched_request request w unmatched written =
      let left = tried_all routes request in
      let plain = Response.create setting.server_name in
      let write = setting.write request.conn_id in
      let chosen : choose_response setting routes request w ≡ (left, plain, w) =
        rw (choose_response, try_routes_unmatched routes request plain w false unmatched) refl in
      ap
        (λ (c : Request U × Response × W). (
          c.0,
          (send setting.number_text write c.1 c.2).0,
          (send setting.number_text write c.1 c.2).1,
        ))
        chosen
      ∙ ap (λ (out : W × Bool). (left, out.0, out.1))
          (send_once setting.number_text write plain w (unmatched_body setting.server_name)
            ∙ ap (λ (b : Bool). ((write (header_part setting.number_text plain) w).0, b)) written)

  -- A request that no route matches is answered with the code 200 and without the client's digest, and
  -- when this is written the connection counts as a WebSocket from then on. Its request has the
  -- arguments that the routes have set on the way.
  pub process_entry_unmatched :
      (entry : RequestData U) (w : W)
      → entry.ready_for_dispatch ≡ true
      → entry.handshake ≡ false
      → is_matched routes entry.request ≡ false
      → (setting.write entry.request.conn_id
          (header_part setting.number_text (Response.create setting.server_name))
          w).1
        ≡ true
      → ((Response.create setting.server_name).code ≡ 200)
        × (get_header (codes "Sec-WebSocket-Accept") (Response.create setting.server_name).header
            ≡ [])
        × (process_entry (server_handlers setting routes) entry w ≡ (
          record entry {
            request = tried_all routes entry.request;
            handshake = true;
            ready_for_dispatch = false;
          },
          (setting.write entry.request.conn_id
              (header_part setting.number_text (Response.create setting.server_name))
              w).0,
        ))
  unfolding process_entry server_handlers
  process_entry_unmatched entry w ready fresh unmatched written = (
    unmatched_code setting.server_name,
    unmatched_header setting.server_name,
    ground (arith, ready, fresh, unmatched_request entry.request w unmatched written),
  )
