-- ===== src/Link/Datagrams/Delivery.antt =====
-- What is sent over the live UDP socket of src/transport.rs arrives in the inbox.
use tcpform_protocol_lab.Base.{
  ℕ, ◌+◌, ◌≤◌, ◌<◌, ◌≡◌, refl, sym, ap, ◌∙◌, subst, List, [], ◌∷◌, ◌++◌, map, append-nil,
  append_assoc, none, false, Bool-cases, inl, inr, ltb-false→le, if◌then◌else◌, All, length,
  length-append, ltb, arith, Result, err, ok, >>=-eq-ok, ok-injective,
}
use tcpform_protocol_lab.Wire.Values.{Message, WireError}
use tcpform_protocol_lab.Wire.Encode.{encode_message}
use tcpform_protocol_lab.Wire.Canonical.{IsMessage, received}
use tcpform_protocol_lab.Wire.RoundTrip.{decode-encode_message}
use tcpform_protocol_lab.Link.Errors.{TransportError, unencodable, datagram_above_udp}
use tcpform_protocol_lab.Link.Inbox.Room.{push-room}
use tcpform_protocol_lab.Link.Datagrams.{
  send_datagram, send_datagrams, read_datagram, read_datagrams,
}

-- A datagram that the reader's limit allows.
abbrev pub IsShort : ℕ → List ℕ → Type 0
IsShort max_payload payload = length payload ≤ max_payload

-- What send_datagram sent is the encoded message, and a UDP datagram.
encode_message-send_datagram :
    (message : Message) (payload : List ℕ)
    → send_datagram message ≡ ok payload
    → (encode_message message ≡ ok payload) × (length payload ≤ 65507)
unfolding send_datagram
encode_message-send_datagram message payload h = sent (encode_message message) refl h
  where
    sent :
        (r : Result WireError (List ℕ))
        → encode_message message ≡ r
        → (elim r as (λ x. Result TransportError (List ℕ)) [
          | err reason ↦ err (unencodable reason)
          | ok octets ↦ if ltb 65507 (length octets) then err datagram_above_udp else ok octets
        ])
          ≡ ok payload
        → (encode_message message ≡ ok payload) × (length payload ≤ 65507)
    sent (err reason) e k = absurd (cc)
    sent (ok octets) e k = elim (Bool-cases (ltb 65507 (length octets))) [
      | inl long ↦ absurd (cc (rw long at k))
      | inr short ↦
          let same : octets ≡ payload = ok-injective (rw short at k) in
          (e ∙ ap ok same, omega (arith, ap length same, ltb-false→le 65507 (length octets) short))
    ]

read_datagram-send_datagram :
    (max_payload max_inbox : ℕ) (message : Message) (payload : List ℕ) (queue : List Message)
    → IsMessage message
    → send_datagram message ≡ ok payload
    → IsShort max_payload payload
    → length queue < max_inbox
    → read_datagram max_payload max_inbox payload queue ≡ ok (queue ++ received message ∷ [])
unfolding read_datagram
read_datagram-send_datagram max_payload max_inbox message payload queue h sent short room =
    let (e, small) = encode_message-send_datagram message payload sent in
    let allowed : ltb max_payload (length payload) ≡ false = ground arith in
    rw
      (
        read_datagram,
        allowed,
        decode-encode_message message payload h e (omega arith),
        push-room queue (received message) max_inbox room,
      )
      refl

-- Messages that the live format carries, in datagrams that the limit of the reader allows, and with
-- room for them in the inbox: the reader appends to the inbox exactly these messages as they are
-- received, in the order of their datagrams, and stops at no error.
pub read_datagrams-send_datagrams :
    (max_payload max_inbox : ℕ) (messages : List Message) (datagrams : List (List ℕ))
    (queue : List Message)
    → All IsMessage messages
    → send_datagrams messages ≡ ok datagrams
    → All (IsShort max_payload) datagrams
    → length queue + length messages ≤ max_inbox
    → read_datagrams max_payload max_inbox datagrams queue ≡ (queue ++ map received messages, none)
unfolding send_datagrams read_datagrams
read_datagrams-send_datagrams max_payload max_inbox [] datagrams queue h sent short room =
    let nothing : [] ≡ datagrams = ok-injective sent in rw (sym nothing, append-nil queue) refl
read_datagrams-send_datagrams max_payload max_inbox (message ∷ messages) datagrams queue (h, hs)
      sent short room =
    let (payload, e, later) = >>=-eq-ok (send_datagram message) _ sent in
    let (rest, more, whole) = >>=-eq-ok (send_datagrams messages) _ later in
    let split : payload ∷ rest ≡ datagrams = ok-injective whole in
    let shorts : All (IsShort max_payload) (payload ∷ rest) =
      subst (All (IsShort max_payload)) (sym split) short in
    let longer : List Message = queue ++ received message ∷ [] in
    let one : read_datagram max_payload max_inbox payload queue ≡ ok longer =
      read_datagram-send_datagram max_payload max_inbox message payload queue h e shorts.0
        (omega arith) in
    let on : read_datagrams max_payload max_inbox rest longer
        ≡ (longer ++ map received messages, none) =
      read_datagrams-send_datagrams max_payload max_inbox messages rest longer hs more shorts.1
        (omega (arith, length-append queue (received message ∷ []))) in
    rw
      (
        sym split,
        read_datagrams,
        one,
        on,
        append_assoc queue (received message ∷ []) (map received messages),
      )
      refl
