-- ===== src/Link/Datagrams.antt =====
-- The live UDP socket of src/transport.rs: a message is a datagram, and the loop of spawn_udp_reader
-- decodes each datagram into the inbox.
pub mod Delivery
use tcpform_protocol_lab.Base.{
  ℕ, List, [], ◌∷◌, Option, none, some, Bool, true, false, length, ltb, Result, err, ok, ◌>>=◌,
  if◌then◌else◌,
}
use tcpform_protocol_lab.Wire.Values.{Message}
use tcpform_protocol_lab.Wire.Encode.{encode_message}
use tcpform_protocol_lab.Wire.Cursor.{decode_message}
use tcpform_protocol_lab.Link.Errors.{
  TransportError, unencodable, datagram_above_udp, datagram_too_large, invalid_datagram,
}
use tcpform_protocol_lab.Link.Inbox.{push_message_limited}

-- send_message on a UDP socket: the datagram that it sends.
unfoldable pub send_datagram : Message → Result TransportError (List ℕ)
send_datagram message = elim (encode_message message) [
  | err reason ↦ err (unencodable reason)
  | ok payload ↦ if ltb 65507 (length payload) then err datagram_above_udp else ok payload
]

-- The datagrams of messages that are sent one after another.
unfoldable pub send_datagrams : List Message → Result TransportError (List (List ℕ))
send_datagrams [] = ok []
send_datagrams (message ∷ messages) = send_datagram message >>= λ payload.
    send_datagrams messages >>= λ datagrams. ok (payload ∷ datagrams)

-- One datagram of the loop, and the inbox that it leaves.
unfoldable pub read_datagram : ℕ → ℕ → List ℕ → List Message → Result TransportError (List Message)
read_datagram max_payload max_inbox payload queue = elim (ltb max_payload (length payload)) [
  | true ↦ err datagram_too_large
  | false ↦ elim (decode_message payload) [
    | err reason ↦ err (invalid_datagram reason)
    | ok message ↦ push_message_limited queue message none max_inbox
  ]
]

-- The loop over what `recv` returns: the inbox, and the error at which the reader stops.
unfoldable pub read_datagrams :
    ℕ → ℕ → List (List ℕ) → List Message → List Message × Option TransportError
read_datagrams max_payload max_inbox [] queue = (queue, none)
read_datagrams max_payload max_inbox (payload ∷ datagrams) queue =
    elim (read_datagram max_payload max_inbox payload queue) [
      | err reason ↦ (queue, some reason)
      | ok longer ↦ read_datagrams max_payload max_inbox datagrams longer
    ]
