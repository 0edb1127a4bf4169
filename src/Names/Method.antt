-- ===== src/Names/Method.antt =====
-- `Method` and `Protocol` of include/common/common.h and their conversions in src/common.cpp.
pub mod RoundTrip
use web_socket_cpp.Base.{List, [], ◌∷◌, map, ByteArray, codes}
use web_socket_cpp.Names.Hash.{switch, to_upper}

pub data Method : Type 0 where
  undefined options get head post put delete trace connect websocket : Method

pub data Protocol : Type 0 where
  undefined http https ws wss : Protocol

abbrev pub method_labels : List (ByteArray × Method)
method_labels =
    (codes "OPTIONS", options)
    ∷ (codes "GET", get)
    ∷ (codes "HEAD", head)
    ∷ (codes "POST", post)
    ∷ (codes "PUT", put)
    ∷ (codes "DELETE", delete)
    ∷ (codes "TRACE", trace)
    ∷ (codes "CONNECT", connect)
    ∷ []

unfoldable pub string_to_method : ByteArray → Method
unfolding switch
string_to_method str = switch (map to_upper str) method_labels Method.undefined

unfoldable pub method_to_string : Method → ByteArray
method_to_string options = codes "OPTIONS"
method_to_string get = codes "GET"
method_to_string head = codes "HEAD"
method_to_string post = codes "POST"
method_to_string put = codes "PUT"
method_to_string delete = codes "DELETE"
method_to_string trace = codes "TRACE"
method_to_string connect = codes "CONNECT"
method_to_string _ = []

abbrev pub protocol_labels : List (ByteArray × Protocol)
protocol_labels =
    (codes "HTTP", http) ∷ (codes "HTTPS", https) ∷ (codes "WS", ws) ∷ (codes "WSS", wss) ∷ []

unfoldable pub string_to_protocol : ByteArray → Protocol
unfolding switch
string_to_protocol str = switch (map to_upper str) protocol_labels Protocol.undefined

unfoldable pub protocol_to_string : Protocol → ByteArray
protocol_to_string http = codes "HTTP"
protocol_to_string https = codes "HTTPS"
protocol_to_string ws = codes "WS"
protocol_to_string wss = codes "WSS"
protocol_to_string _ = []
