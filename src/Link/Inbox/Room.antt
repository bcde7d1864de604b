-- ===== src/Link/Inbox/Room.antt =====
-- A push of src/transport.rs into an inbox that has room.
use tcpform_protocol_lab.Base.{
  ℕ, ◌<◌, ◌≡◌, refl, List, [], ◌∷◌, ◌++◌, none, false, length, leb, arith, ok,
}
use tcpform_protocol_lab.Wire.Values.{Message}
use tcpform_protocol_lab.Link.Inbox.{push_message_limited}

pub push-room :
    (queue : List Message) (msg : Message) (max_inbox : ℕ)
    → length queue < max_inbox
    → push_message_limited queue msg none max_inbox ≡ ok (queue ++ msg ∷ [])
unfolding push_message_limited
push-room queue msg max_inbox h =
    let room : leb max_inbox (length queue) ≡ false = ground arith in rw room refl
