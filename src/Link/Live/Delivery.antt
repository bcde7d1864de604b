-- ===== src/Link/Live/Delivery.antt =====
-- What is sent over the live TCP socket of src/transport.rs arrives in the inbox.
use tcpform_protocol_lab.Base.{
  ℕ, zero, suc, ◌+◌, ◌^◌, ◌≤◌, ◌<◌, ◌≡◌, refl, sym, ap, ◌∙◌, List, [], ◌∷◌, ◌++◌, map, append-nil,
  append_assoc, none, some, Bool-cases, inl, inr, if◌then◌else◌, All, length, length-append, ltb,
  ltb→lt, arith, Result, err, ok, >>=-eq-ok, ok-injective,
}
use tcpform_protocol_lab.Wire.Values.{Message, WireError}
use tcpform_protocol_lab.Wire.Encode.{be_bytes, encode_message}
use tcpform_protocol_lab.Wire.Canonical.{IsMessage, received}
use tcpform_protocol_lab.Wire.RoundTrip.{decode-encode_message}
use tcpform_protocol_lab.Link.Errors.{TransportError, unencodable, frame_above_u32}
use tcpform_protocol_lab.Link.Frames.{length_prefix, next_frame, next_prefixed}
use tcpform_protocol_lab.Link.Frames.Parts.{IsFrame, length_prefix-IsFrame}
use tcpform_protocol_lab.Link.Inbox.Room.{push-room}
use tcpform_protocol_lab.Link.Live.{
  send_frame, send_frames, read_frame, accept_frame, read_loop, read_frames,
}

-- A message that the reader's limit allows, once it is encoded.
unfoldable pub IsFitting : ℕ → Message → Type 0
IsFitting max_payload message =
    IsMessage message
    × ((payload : List ℕ) → encode_message message ≡ ok payload → length payload ≤ max_payload)

-- What send_frame wrote.
record Framed (message : Message) (octets : List ℕ) : Type 0 where
  payload : List ℕ
  encoded : encode_message message ≡ ok payload
  small : length payload < 2 ^ 32
  whole : octets ≡ be_bytes 4 (length payload) ++ payload

send_frame-Framed :
    (message : Message) (octets : List ℕ) → send_frame message ≡ ok octets → Framed message octets
unfolding send_frame
send_frame-Framed message octets h = sent (encode_message message) refl h
  where
    sent :
        (r : Result WireError (List ℕ))
        → encode_message message ≡ r
        → (elim r as (λ x. Result TransportError (List ℕ)) [
          | err reason ↦ err (unencodable reason)
          | ok payload ↦
              if ltb (length payload) 0x100000000
              then ok (be_bytes 4 (length payload) ++ payload)
              else err frame_above_u32
        ])
          ≡ ok octets
        → Framed message octets
    sent (err reason) e k = absurd (cc)
    sent (ok payload) e k = elim (Bool-cases (ltb (length payload) 0x100000000)) [
      | inr long ↦ absurd (cc (rw long at k))
      | inl short ↦ record {
        payload = payload;
        encoded = e;
        small = ltb→lt (length payload) 0x100000000 short;
        whole = sym (ok-injective (rw short at k));
      }
    ]

read_frame-Framed :
    (max_payload : ℕ) (message : Message) (octets rest : List ℕ) (f : Framed message octets)
    → length (Framed.payload f) ≤ max_payload
    → read_frame max_payload (octets ++ rest) ≡ ok (some (Framed.payload f, rest))
unfolding read_frame next_frame next_prefixed
read_frame-Framed max_payload message octets rest f fits =
    ap (λ (xs : List ℕ). read_frame max_payload (xs ++ rest)) (Framed.whole f)
    ∙ IsFrame.taken (length_prefix-IsFrame max_payload (Framed.payload f) fits (Framed.small f))
        rest

accept_frame-encode_message :
    (max_inbox : ℕ) (message : Message) (payload : List ℕ) (queue : List Message)
    → IsMessage message
    → encode_message message ≡ ok payload
    → length payload < 2 ^ 32
    → length queue < max_inbox
    → accept_frame max_inbox payload queue ≡ ok (queue ++ received message ∷ [])
unfolding accept_frame
accept_frame-encode_message max_inbox message payload queue h e small room =
    rw
      (
        accept_frame,
        decode-encode_message message payload h e (omega arith),
        push-room queue (received message) max_inbox room,
      )
      refl

read_loop-send_frames :
    (fuel max_payload max_inbox : ℕ) (messages : List Message) (stream : List ℕ)
    (queue : List Message)
    → All (IsFitting max_payload) messages
    → send_frames messages ≡ ok stream
    → length queue + length messages ≤ max_inbox
    → length stream < fuel
    → read_loop fuel max_payload max_inbox stream queue ≡ (queue ++ map received messages, none)
unfolding send_frames read_loop IsFitting read_frame
read_loop-send_frames zero max_payload max_inbox messages stream queue h sent room enough =
    absurd (omega arith)
read_loop-send_frames (suc fuel) max_payload max_inbox [] stream queue h sent room enough =
    let nothing : [] ≡ stream = ok-injective sent in rw (sym nothing, append-nil queue) refl
read_loop-send_frames (suc fuel) max_payload max_inbox (message ∷ messages) stream queue
      ((is_message, fits), hs) sent room enough =
    let (octets, one, later) = >>=-eq-ok (send_frame message) _ sent in
    let (rest, more, whole) = >>=-eq-ok (send_frames messages) _ later in
    let split : octets ++ rest ≡ stream = ok-injective whole in
    let f : Framed message octets = send_frame-Framed message octets one in
    let payload : List ℕ = Framed.payload f in
    let longer : List Message = queue ++ received message ∷ [] in
    let taken : read_frame max_payload (octets ++ rest) ≡ ok (some (payload, rest)) =
      read_frame-Framed max_payload message octets rest f (fits payload (Framed.encoded f)) in
    let frame : IsFrame length_prefix max_payload payload (be_bytes 4 (length payload) ++ payload) =
      length_prefix-IsFrame max_payload payload (fits payload (Framed.encoded f))
        (Framed.small f) in
    let accepted : accept_frame max_inbox payload queue ≡ ok longer =
      accept_frame-encode_message max_inbox message payload queue is_message (Framed.encoded f)
        (Framed.small f) (omega arith) in
    let on : read_loop fuel max_payload max_inbox rest longer
        ≡ (longer ++ map received messages, none) =
      read_loop-send_frames fuel max_payload max_inbox messages rest longer hs more
        (omega (arith, length-append queue (received message ∷ [])))
        (omega (
          arith,
          ap length split,
          length-append octets rest,
          ap length (Framed.whole f),
          IsFrame.some_octet frame,
        )) in
    rw
      (
        sym split,
        read_loop,
        taken,
        accepted,
        on,
        append_assoc queue (received message ∷ []) (map received messages),
      )
      refl

-- Messages that the live format carries and the reader's limit allows, with room for them in the
-- inbox: the reader appends to the inbox exactly these messages as they are received, in the order in
-- which they were sent, and ends with the stream and no error.
pub read_frames-send_frames :
    (max_payload max_inbox : ℕ) (messages : List Message) (stream : List ℕ) (queue : List Message)
    → All (IsFitting max_payload) messages
    → send_frames messages ≡ ok stream
    → length queue + length messages ≤ max_inbox
    → read_frames max_payload max_inbox stream queue ≡ (queue ++ map received messages, none)
unfolding read_frames
read_frames-send_frames max_payload max_inbox messages stream queue h sent room =
    read_loop-send_frames (suc (length stream)) max_payload max_inbox messages stream queue h sent
      room (omega arith)
