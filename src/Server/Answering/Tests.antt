-- ===== src/Server/Answering/Tests.antt =====
-- A handshake between the client and the server at concrete values.
use web_socket_cpp.Base.{
  true, false, List, [], ◌∷◌, ◌++◌, none, ◌≡◌, refl, ByteArray, codes, ◌==◌, if◌then◌else◌,
}
use web_socket_cpp.Names.HeaderType
use web_socket_cpp.Names.Method
use web_socket_cpp.HttpHeader
use web_socket_cpp.HttpHeader.{get_header}
use web_socket_cpp.Text.Compare.{compare, same_letters}
use web_socket_cpp.Request.{Request}
use web_socket_cpp.Request.Writing.{sent_header}
use web_socket_cpp.Response
use web_socket_cpp.Response.{Response}
use web_socket_cpp.Response.Writing.{header_part, build_status_line}
use web_socket_cpp.Client.{handshake_header}
use web_socket_cpp.Server.Messages.{tried_all}
use web_socket_cpp.Server.{RequestData, process_entry}
use web_socket_cpp.Server.Messages.{RouteWebSocket}
use web_socket_cpp.Server.Answering.{Setting, process_request, server_handlers}
use web_socket_cpp.Server.Answering.Upgrade.{answer_bytes, process_request-answer_bytes}
use web_socket_cpp.Server.Answering.Unmatched.{process_entry_unmatched}

-- What is written is kept.
abbrev setting : Setting (List ByteArray)
setting = record {
  server_name = codes "lib";
  ws_process_default = true;
  sha1 = λ bytes. 1 ∷ 2 ∷ 3 ∷ [];
  date = codes "now";
  number_text = λ n. if n == 200 then codes "200" else codes "101";
  write = λ _ bytes w. (w ++ bytes ∷ [], true);
}

abbrev chat : RouteWebSocket ByteArray (List ByteArray)
chat = record { is_match = λ _ _. ([], true); function_request = none; function_message = none }

abbrev elsewhere : RouteWebSocket ByteArray (List ByteArray)
elsewhere = record {
  is_match = λ _ _. ((codes "id", codes "1") ∷ [], false);
  function_request = none;
  function_message = none;
}

abbrev request : Request ByteArray
request = record {
  conn_id = 3;
  url = codes "/chat";
  header =
      sent_header (codes "lib") true (codes "h")
        (handshake_header (codes "h") (codes "k") (HttpHeader.create HttpHeader.request));
  method = Method.get;
  http_version = codes "HTTP/1.1";
  request_line_length = 18;
  args = [];
}

-- The key is read out of the headers that the client sends.
sent_key : get_header (codes "Sec-WebSocket-Key") request.header ≡ codes "k"
unfolding sent_header handshake_header HttpHeader.create HttpHeader.set_header
    HttpHeader.set_header_type HttpHeader.set_entry get_header HttpHeader.get_entry compare
    same_letters HeaderType.header_type_to_string
sent_key = refl

abbrev sent_bytes : ByteArray
sent_bytes = answer_bytes setting.number_text setting.sha1 (codes "lib") (codes "now") (codes "k")

process_request-answer_bytes_example :
    process_request setting (elsewhere ∷ chat ∷ []) request [] ≡ (
      tried_all (elsewhere ∷ chat ∷ []) request,
      (setting.write 3 sent_bytes []).0,
      (setting.write 3 sent_bytes []).1,
    )
process_request-answer_bytes_example =
    process_request-answer_bytes setting (elsewhere ∷ chat ∷ []) (codes "k") request [] refl
      sent_key (refl, (refl, tt)) refl

abbrev entry : RequestData ByteArray
entry = record {
  conn_id = 3;
  request = request;
  bytes = [];
  request_list = [];
  handshake = false;
  ready_for_dispatch = true;
}

process_entry_unmatched_example :
    ((Response.create (codes "lib")).code ≡ 200)
    × (get_header (codes "Sec-WebSocket-Accept") (Response.create (codes "lib")).header ≡ [])
    × (process_entry (server_handlers setting (elsewhere ∷ [])) entry [] ≡ (
      record entry {
        request = tried_all (elsewhere ∷ []) request;
        handshake = true;
        ready_for_dispatch = false;
      },
      (setting.write 3 (header_part setting.number_text (Response.create (codes "lib"))) []).0,
    ))
process_entry_unmatched_example =
    process_entry_unmatched setting (elsewhere ∷ []) entry [] refl refl refl refl

-- The bytes that are sent when no route matches.
unmatched_bytes :
    header_part setting.number_text (Response.create (codes "lib"))
    ≡ codes "HTTP/1.1 200 \r\nServer: lib\r\n\r\n"
unfolding header_part build_status_line Response.create HttpHeader.create HttpHeader.set_header
    HttpHeader.set_header_type HttpHeader.set_entry HttpHeader.to_byte_array HttpHeader.header_bytes
    HeaderType.header_type_to_string
unmatched_bytes = refl
