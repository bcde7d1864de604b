-- ===== src/Link/Reader/Stream.antt =====
-- The reader of src/transport.rs receives what was sent, however the stream is cut.
use mathlib.Core.List.{flatten, map-append}
use tcpform_protocol_lab.Base.{
  ℕ, map, length-map, suc, ◌+◌, ◌≤◌, ◌≡◌, refl, sym, ap, ◌∙◌, List, [], ◌∷◌, ◌++◌, append-nil,
  append_assoc, length, length-append, All, arith, none, ok, ok-injective,
}
use tcpform_protocol_lab.Link.Frames.{Framing, raw, length_prefix, delimiter, fixed, drain_frames}
use tcpform_protocol_lab.Wire.Values.{Text, Message}
use tcpform_protocol_lab.Link.Inbox.{raw_message, push_raw_message}
use tcpform_protocol_lab.Link.Reader.{send_all, push_frames, flush_raw, read_stream}
use tcpform_protocol_lab.Link.Inbox.Room.{push-room}
use tcpform_protocol_lab.Link.Reader.Cut.{
  IsUsable, IsCarried, Stands, Drained, send_all-Stands, drain_loop-Drained, no_message,
}

push_frames-room :
    (peer_role : Text) (max_inbox : ℕ) (queue : List Message) (frames : List (List ℕ))
    → length queue + length frames ≤ max_inbox
    → push_frames peer_role max_inbox queue frames
      ≡ (queue ++ map (raw_message peer_role) frames, none)
unfolding push_frames push_raw_message
push_frames-room peer_role max_inbox queue [] h = rw (append-nil queue) refl
push_frames-room peer_role max_inbox queue (frame ∷ frames) h =
    let msg : Message = raw_message peer_role frame in
    rw
      (
        push_frames,
        push-room queue msg max_inbox (omega arith),
        push_frames-room peer_role max_inbox (queue ++ msg ∷ []) frames
            (omega (arith, length-append queue (msg ∷ []))),
        append_assoc queue (msg ∷ []) (map (raw_message peer_role) frames),
      )
      refl

flush_nothing :
    (framing : Framing) (peer_role : Text) (max_inbox : ℕ) (queue : List Message)
    → flush_raw framing peer_role max_inbox [] queue ≡ (queue, none)
unfolding flush_raw
flush_nothing raw peer_role max_inbox queue = refl
flush_nothing length_prefix peer_role max_inbox queue = refl
flush_nothing (delimiter mark) peer_role max_inbox queue = refl
flush_nothing (fixed size) peer_role max_inbox queue = refl

-- A read in the middle of a stream returns an octet at least.
abbrev pub IsRead : List ℕ → Type 0
IsRead [] = ⊥
IsRead (b ∷ bs) = Unit

-- The reader in the middle of the stream, where what is pending holds no whole frame.
read_stream-Stands :
    (framing : Framing) (max_payload : ℕ) (peer_role : Text) (max_inbox : ℕ)
    (messages : List (List ℕ)) (pending : List ℕ) (chunks : List (List ℕ)) (queue : List Message)
    → IsUsable framing
    → Stands framing max_payload messages (pending ++ flatten chunks)
    → (flatten chunks ≡ [] → (messages ≡ []) × (pending ≡ []))
    → length queue + length messages ≤ max_inbox
    → All IsRead chunks
    → read_stream framing max_payload peer_role max_inbox pending chunks queue
      ≡ (queue ++ map (raw_message peer_role) messages, none)
unfolding read_stream flatten drain_frames
read_stream-Stands framing max_payload peer_role max_inbox messages pending [] queue u h ends room
      full =
    let (no_message, nothing) = ends refl in
    rw (nothing, no_message, flush_nothing framing peer_role max_inbox queue, append-nil queue) refl
read_stream-Stands framing max_payload peer_role max_inbox messages pending ([] ∷ chunks) queue u h
      ends room (full, hs) =
    absurd full
read_stream-Stands framing max_payload peer_role max_inbox messages pending ((b ∷ bs) ∷ chunks)
      queue u h ends room (full, hs) =
    let chunk : List ℕ = b ∷ bs in
    let d : Drained framing max_payload (suc (length (pending ++ chunk))) messages
        (pending ++ chunk) (flatten chunks) =
      drain_loop-Drained framing max_payload (suc (length (pending ++ chunk))) messages
        (pending ++ chunk) (flatten chunks) u (omega arith)
        (rw (append_assoc pending chunk (flatten chunks)) h) in
    let len : length messages ≡ length (Drained.done d) + length (Drained.todo d) =
      ap length (Drained.all d) ∙ length-append (Drained.done d) (Drained.todo d) in
    let pushed : List Message = map (raw_message peer_role) (Drained.done d) in
    let whole : (queue ++ pushed) ++ map (raw_message peer_role) (Drained.todo d)
        ≡ queue ++ map (raw_message peer_role) messages =
      append_assoc queue pushed (map (raw_message peer_role) (Drained.todo d))
      ∙ ap (λ (xs : List Message). queue ++ xs)
          (sym (map-append (raw_message peer_role) (Drained.done d) (Drained.todo d))
            ∙ ap (map (raw_message peer_role)) (sym (Drained.all d))) in
    let accepted : push_frames peer_role max_inbox queue (Drained.done d)
        ≡ (queue ++ pushed, none) =
      push_frames-room peer_role max_inbox queue (Drained.done d) (omega (arith, len)) in
    rw
      (
        read_stream,
        Drained.drains d,
        accepted,
        accepted,
        read_stream-Stands framing max_payload peer_role max_inbox (Drained.todo d) (Drained.left d)
            chunks (queue ++ pushed) u (Drained.stands d) (Drained.ends d)
            (omega (
              arith,
              len,
              length-append queue pushed,
              length-map (raw_message peer_role) (Drained.done d),
            ))
            hs,
        whole,
      )
      refl

-- Under a framing that keeps messages apart, for messages that it carries: however their stream is cut into reads, none of them empty, and with room in the
-- inbox for all of them, the reader appends exactly these messages to the inbox, in the order in
-- which they were sent, and fails nowhere.
pub read_stream-send_all :
    (framing : Framing) (max_payload : ℕ) (peer_role : Text) (max_inbox : ℕ)
    (messages chunks : List (List ℕ)) (stream : List ℕ) (queue : List Message)
    → IsUsable framing
    → All (IsCarried framing max_payload) messages
    → send_all framing messages ≡ ok stream
    → flatten chunks ≡ stream
    → length queue + length messages ≤ max_inbox
    → All IsRead chunks
    → read_stream framing max_payload peer_role max_inbox [] chunks queue
      ≡ (queue ++ map (raw_message peer_role) messages, none)
read_stream-send_all framing max_payload peer_role max_inbox messages chunks stream queue u h sent
      cut room full =
    let (octets, sent', stands) = send_all-Stands framing max_payload messages u h in
    let same : octets ≡ stream = ok-injective (sym sent' ∙ sent) in
    let here : flatten chunks ≡ octets = cut ∙ sym same in
    read_stream-Stands framing max_payload peer_role max_inbox messages [] chunks queue u
      (rw here stands)
      (λ nothing.
        (no_message framing max_payload messages octets stands (sym here ∙ nothing), refl))
      room full
