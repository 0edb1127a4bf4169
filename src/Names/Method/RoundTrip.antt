-- ===== src/Names/Method/RoundTrip.antt =====
-- The way of methods and protocols through their names, in either case.
use web_socket_cpp.Base.{◌∙◌, [], ◌∷◌, map, ◌≡◌, ◌≢◌, refl, ap, ap₂, arith, ByteArray}
use web_socket_cpp.Names.Hash.{switch, to_lower, to_upper}
use web_socket_cpp.Names.Method.{
  Method, Protocol, method_labels, protocol_labels, string_to_method, method_to_string,
  string_to_protocol, protocol_to_string,
}

upper_lower : (str : ByteArray) → map to_upper (map to_lower str) ≡ map to_upper str
upper_lower [] = refl
upper_lower (c ∷ str) = ap₂ ◌∷◌ (ground arith) (upper_lower str)

string_to_method_lower :
    (str : ByteArray) → string_to_method (map to_lower str) ≡ string_to_method str
unfolding string_to_method
string_to_method_lower str = ap (λ s. switch s method_labels Method.undefined) (upper_lower str)

string_to_protocol_lower :
    (str : ByteArray) → string_to_protocol (map to_lower str) ≡ string_to_protocol str
unfolding string_to_protocol
string_to_protocol_lower str =
    ap (λ s. switch s protocol_labels Protocol.undefined) (upper_lower str)

method_name : (m : Method) → m ≢ Method.websocket → string_to_method (method_to_string m) ≡ m
unfolding string_to_method method_to_string
method_name Method.undefined h = refl
method_name Method.options h = refl
method_name Method.get h = refl
method_name Method.head h = refl
method_name Method.post h = refl
method_name Method.put h = refl
method_name Method.delete h = refl
method_name Method.trace h = refl
method_name Method.connect h = refl
method_name Method.websocket h = absurd (h refl)

-- The name of every method that is sent over the wire, written in either case, is read back as that
-- method; `websocket`, which the server sets by itself, has no name.
method-name :
    (m : Method)
    → m ≢ Method.websocket
    → (string_to_method (method_to_string m) ≡ m)
      × (string_to_method (map to_lower (method_to_string m)) ≡ m)
method-name m h = (method_name m h, string_to_method_lower (method_to_string m) ∙ method_name m h)

protocol_name : (p : Protocol) → string_to_protocol (protocol_to_string p) ≡ p
unfolding string_to_protocol protocol_to_string
protocol_name Protocol.undefined = refl
protocol_name Protocol.http = refl
protocol_name Protocol.https = refl
protocol_name Protocol.ws = refl
protocol_name Protocol.wss = refl

-- The name of every protocol, written in either case, is read back as that protocol.
protocol-name :
    (p : Protocol)
    → (string_to_protocol (protocol_to_string p) ≡ p)
      × (string_to_protocol (map to_lower (protocol_to_string p)) ≡ p)
protocol-name p =
    (protocol_name p, string_to_protocol_lower (protocol_to_string p) ∙ protocol_name p)
