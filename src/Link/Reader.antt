-- ===== src/Link/Reader.antt =====
-- The readers of byte streams in src/transport.rs: what they read they cut into frames, and push the
-- frames into an inbox.
pub mod Cut
pub mod Stream
use tcpform_protocol_lab.Base.{
  ℕ, List, [], ◌∷◌, ◌++◌, Option, none, some, Bool, true, false, Result, err, ok, ◌>>=◌,
  if◌then◌else◌,
}
use tcpform_protocol_lab.Wire.Values.{Text, Message}
use tcpform_protocol_lab.Link.Errors.{TransportError}
use tcpform_protocol_lab.Link.Frames.{
  Framing, raw, length_prefix, delimiter, fixed, frame_outbound, drain_frames,
}
use tcpform_protocol_lab.Link.Inbox.{push_raw_message}

-- The messages, written one after another.
unfoldable pub send_all : Framing → List (List ℕ) → Result TransportError (List ℕ)
send_all framing [] = ok []
send_all framing (message ∷ rest) = frame_outbound message framing >>= λ octets.
    send_all framing rest >>= λ later. ok (octets ++ later)

-- What a push leaves in the inbox, with the error that it returned.
unfoldable pub settle_push :
    List Message → Result TransportError (List Message) → List Message × Option TransportError
settle_push queue (err reason) = (queue, some reason)
settle_push queue (ok longer) = (longer, none)

-- for raw in frames: the inbox, and the error at which the loop stops.
unfoldable pub push_frames :
    Text → ℕ → List Message → List (List ℕ) → List Message × Option TransportError
push_frames peer_role max_inbox queue [] = (queue, none)
push_frames peer_role max_inbox queue (frame ∷ frames) =
    elim (push_raw_message queue peer_role frame max_inbox) [
      | err reason ↦ (queue, some reason)
      | ok longer ↦ push_frames peer_role max_inbox longer frames
    ]

-- What the reader does at the end of the stream.
unfoldable pub flush_raw :
    Framing → Text → ℕ → List ℕ → List Message → List Message × Option TransportError
unfolding settle_push
flush_raw raw peer_role max_inbox [] queue = (queue, none)
flush_raw raw peer_role max_inbox (b ∷ bs) queue =
    settle_push queue (push_raw_message queue peer_role (b ∷ bs) max_inbox)
flush_raw length_prefix peer_role max_inbox pending queue = (queue, none)
flush_raw (delimiter mark) peer_role max_inbox pending queue = (queue, none)
flush_raw (fixed size) peer_role max_inbox pending queue = (queue, none)

-- The loop of the reader, over the octets that each call of `read` returns, none at the end of the
-- stream: the inbox, and the error at which the reader stops.
unfoldable pub read_stream :
    Framing
    → ℕ
    → Text
    → ℕ
    → List ℕ
    → List (List ℕ)
    → List Message
    → List Message × Option TransportError
unfolding push_frames flush_raw
read_stream framing max_payload peer_role max_inbox pending [] queue =
    flush_raw framing peer_role max_inbox pending queue
read_stream framing max_payload peer_role max_inbox pending ([] ∷ chunks) queue =
    flush_raw framing peer_role max_inbox pending queue
read_stream framing max_payload peer_role max_inbox pending ((b ∷ bs) ∷ chunks) queue =
    elim (drain_frames framing max_payload (pending ++ (b ∷ bs))) [
      | err reason ↦ (queue, some reason)
      | ok got ↦
          let pushed = push_frames peer_role max_inbox queue got.0 in
          elim pushed.1 [
            | some reason ↦ (pushed.0, some reason)
            | none ↦ read_stream framing max_payload peer_role max_inbox got.1 chunks pushed.0
          ]
    ]
