-- ===== src/Link/Inbox.antt =====
-- The inboxes of src/transport.rs: push_message_limited and push_raw_message. An inbox is the list of
-- its messages, the one that is received first in front.
pub mod Lossy
pub mod Room
use tcpform_protocol_lab.Base.{
  ℕ, suc, ◌%◌, List, [], ◌∷◌, ◌++◌, Option, none, some, true, false, ◌&&◌, length, take, drop, leb,
  ◌==◌, Result, err, ok, if◌then◌else◌,
}
use tcpform_protocol_lab.Wire.Values.{Text, Message, map_end, utf8_tail}
use tcpform_protocol_lab.Link.Errors.{TransportError, inbox_full}

-- VecDeque::insert, and push_back at the end.
unfoldable pub insert_at : ℕ → Message → List Message → List Message
insert_at p msg queue = take p queue ++ msg ∷ drop p queue

unfoldable pub push_message_limited :
    List Message → Message → Option ℕ → ℕ → Result TransportError (List Message)
push_message_limited queue msg reorder_value max_inbox =
    if leb max_inbox (length queue) then err inbox_full else elim reorder_value [
      | none ↦ ok (queue ++ msg ∷ [])
      | some random ↦
          if length queue == 0
          then ok (queue ++ msg ∷ [])
          else ok (insert_at (random % suc (length queue)) msg queue)
    ]

-- U+FFFD in UTF-8.
abbrev pub replacement : Text
replacement = 0xEF ∷ 0xBF ∷ 0xBD ∷ []

-- String::from_utf8_lossy: the ranges that the octets of a sequence must still lie in, and those that
-- it has so far.
unfoldable pub lossy_from : List (ℕ × ℕ) → List ℕ → List ℕ → Text
lossy_from [] held [] = held
lossy_from (range ∷ ranges) held [] = replacement
lossy_from [] held (b ∷ bs) = held ++ elim (utf8_tail b) [
  | none ↦ replacement ++ lossy_from [] [] bs
  | some ranges ↦ lossy_from ranges (b ∷ []) bs
]
lossy_from ((low, high) ∷ ranges) held (b ∷ bs) = elim (leb low b && leb b high) [
  | true ↦ lossy_from ranges (held ++ b ∷ []) bs
  | false ↦ replacement ++ elim (utf8_tail b) [
    | none ↦ replacement ++ lossy_from [] [] bs
    | some fresh ↦ lossy_from fresh (b ∷ []) bs
  ]
]

unfoldable pub lossy : List ℕ → Text
lossy octets = lossy_from [] [] octets

-- The message that stands for octets from outside.
unfoldable pub raw_message : Text → List ℕ → Message
raw_message peer_role octets = record {
  from = peer_role;
  flags = [];
  seq = 0;
  ack = 0;
  payload = lossy octets;
  raw = octets;
  window = 0;
  stream = none;
  fields = map_end;
}

unfoldable pub push_raw_message :
    List Message → Text → List ℕ → ℕ → Result TransportError (List Message)
push_raw_message queue peer_role octets max_inbox =
    push_message_limited queue (raw_message peer_role octets) none max_inbox
