-- ===== src/Link/Live.antt =====
-- The live TCP socket of src/transport.rs: a message is a frame under its length, and the loop of
-- spawn_tcp_reader decodes each frame into the inbox. The stream is all that the peer sends.
pub mod Delivery
use tcpform_protocol_lab.Base.{
  ℕ, zero, suc, ◌+◌, List, [], ◌∷◌, ◌++◌, Option, none, some, Bool, true, false, length, take, drop,
  ltb, Result, err, ok, ◌>>=◌, if◌then◌else◌,
}
use tcpform_protocol_lab.Wire.Values.{Message}
use tcpform_protocol_lab.Wire.Encode.{be_bytes, encode_message}
use tcpform_protocol_lab.Wire.Cursor.{be_number, decode_message}
use tcpform_protocol_lab.Link.Errors.{
  TransportError, unencodable, invalid_datagram, frame_above_u32, frame_too_large, out_of_fuel,
}
use tcpform_protocol_lab.Link.Inbox.{push_message_limited}

-- send_message on a TCP socket: what it writes.
unfoldable pub send_frame : Message → Result TransportError (List ℕ)
send_frame message = elim (encode_message message) [
  | err reason ↦ err (unencodable reason)
  | ok payload ↦
      if ltb (length payload) 0x100000000
      then ok (be_bytes 4 (length payload) ++ payload)
      else err frame_above_u32
]

unfoldable pub send_frames : List Message → Result TransportError (List ℕ)
send_frames [] = ok []
send_frames (message ∷ messages) =
    send_frame message >>= λ octets. send_frames messages >>= λ later. ok (octets ++ later)

-- read_exact_live twice: the payload of the next frame and what follows, or nothing where the stream
-- ends first.
unfoldable pub read_frame : ℕ → List ℕ → Result TransportError (Option (List ℕ × List ℕ))
read_frame max_payload stream =
    let size = be_number 0 (take 4 stream) in
    if ltb (length stream) 4
    then ok none
    else if ltb max_payload size
    then err frame_too_large
    else if ltb (length stream) (size + 4)
    then ok none
    else ok (some (take size (drop 4 stream), drop (4 + size) stream))

-- decode_message and the push.
unfoldable pub accept_frame : ℕ → List ℕ → List Message → Result TransportError (List Message)
accept_frame max_inbox payload queue = elim (decode_message payload) [
  | err reason ↦ err (invalid_datagram reason)
  | ok message ↦ push_message_limited queue message none max_inbox
]

-- The loop of the reader: the inbox, and the error at which it stops.
unfoldable pub read_loop : ℕ → ℕ → ℕ → List ℕ → List Message → List Message × Option TransportError
read_loop zero max_payload max_inbox stream queue = (queue, some out_of_fuel)
read_loop (suc fuel) max_payload max_inbox stream queue = elim (read_frame max_payload stream) [
  | err reason ↦ (queue, some reason)
  | ok taken ↦ elim taken [
    | none ↦ (queue, none)
    | some found ↦ elim (accept_frame max_inbox found.0 queue) [
      | err reason ↦ (queue, some reason)
      | ok longer ↦ read_loop fuel max_payload max_inbox found.1 longer
    ]
  ]
]

-- A frame takes four octets at least.
unfoldable pub read_frames : ℕ → ℕ → List ℕ → List Message → List Message × Option TransportError
read_frames max_payload max_inbox stream queue =
    read_loop (suc (length stream)) max_payload max_inbox stream queue
