-- ===== src/Client/Handshake.antt =====
-- When the client takes the handshake's answer.
use web_socket_cpp.Base.{
  ◌++◌, ◌⊎◌, inl, inr, Bool, true, false, List, [], ◌∷◌, Option, some, ◌≡◌, refl, arith, Bool-cases,
  Option-cases, ByteArray, codes, drop,
}
use web_socket_cpp.Text.Compare.{lower, compare_bytes-iff-eq}
use web_socket_cpp.Names.HeaderType
use web_socket_cpp.HttpHeader.{get_header, get_header_type}
use web_socket_cpp.Base64.{encode}
use web_socket_cpp.Client.{
  WebSocketClient, State, Event, Answer, key_token, accepts, accepted, on_answer, on_state,
  on_data_ready,
}

-- What the answer must be: the code, the two headers whatever their case, and the key's digest.
pub record IsAccepted (sha1 : ByteArray → ByteArray) (key : ByteArray) (answer : Answer)
    : Type 0 where
  pub code : answer.code ≡ 101
  pub upgrade : lower (get_header_type HeaderType.upgrade answer.header) ≡ codes "websocket"
  pub connection : lower (get_header_type HeaderType.connection answer.header) ≡ codes "upgrade"
  pub digest :
      get_header (codes "Sec-WebSocket-Accept") answer.header ≡ encode (sha1 (key ++ key_token))

accepts_sound :
    (sha1 : ByteArray → ByteArray) (key : ByteArray) (answer : Answer)
    → accepts sha1 key answer ≡ true
    → IsAccepted sha1 key answer
unfolding accepts
accepts_sound sha1 key answer h = record {
  code = ground arith;
  upgrade = (compare_bytes-iff-eq _ _).0 (ground arith);
  connection = (compare_bytes-iff-eq _ _).0 (ground arith);
  digest = (compare_bytes-iff-eq _ _).0 (ground arith);
}

accepts_complete :
    (sha1 : ByteArray → ByteArray) (key : ByteArray) (answer : Answer)
    → IsAccepted sha1 key answer
    → accepts sha1 key answer ≡ true
unfolding accepts
accepts_complete sha1 key answer ok =
    rw
      (
        ok.code,
        (compare_bytes-iff-eq _ _).1 ok.upgrade,
        (compare_bytes-iff-eq _ _).1 ok.connection,
        (compare_bytes-iff-eq _ _).1 ok.digest,
      )
      refl

module _ (parse_response : ByteArray → Option Answer) (sha1 : ByteArray → ByteArray) where
  -- What a client in its handshake becomes.
  abbrev pub Outcome : WebSocketClient → WebSocketClient × List Event × Bool → Type 0
  Outcome client out =
      ((answer : Answer) × (parse_response client.bytes ≡ some answer)
        × IsAccepted sha1 client.key answer
        × (out ≡ (
          record client {
            state = State.binary_message;
            handshake_done = true;
            bytes = drop answer.size client.bytes;
          },
          Event.state_changed State.binary_message
              ∷ Event.handshake_marked
              ∷ Event.connect true
              ∷ [],
          false,
        )))
      ⊎ (((answer : Answer)
            → parse_response client.bytes ≡ some answer
            → ¬ IsAccepted sha1 client.key answer)
          × (out ≡ (
            record client { state = State.closed },
            Event.state_changed State.closed ∷ Event.connect false ∷ Event.close ∷ [],
            false,
          )))

  -- A client in its handshake takes the answer exactly if there is one, with the code 101, the two
  -- headers and the digest of its own key: then it goes over to messages, tells so, marks the
  -- handshake as done, tells that it is connected, each once and in this order, and keeps the bytes
  -- behind the answer. Otherwise, also when the answer has not arrived whole, it is closed, tells
  -- so once and closes the connection.
  pub on_data_ready-Outcome :
      (client : WebSocketClient) (more : ByteArray)
      → client.state ≡ State.handshake
      → Outcome
          (record client { bytes = client.bytes ++ more })
          (on_data_ready parse_response sha1 more client)
  unfolding on_data_ready on_state on_answer accepted
  on_data_ready-Outcome client more state =
      elim (Option-cases (parse_response (client.bytes ++ more))) [
        | inl none_there ↦ inr (
          (λ answer e. absurd (ground (arith, e, none_there))),
          rw state (rw (on_answer, accepted, none_there) refl),
        )
        | inr (answer, e) ↦ elim (Bool-cases (accepts sha1 client.key answer)) [
          | inl good ↦ inl (
            answer,
            e,
            accepts_sound sha1 client.key answer good,
            rw state (rw (on_answer, accepted, e, good) refl),
          )
          | inr bad ↦ inr (
            (λ other q ok.
                absurd (ground (arith, e, q, accepts_complete sha1 client.key other ok))),
            rw state (rw (on_answer, accepted, e, bad) refl),
          )
        ]
      ]
