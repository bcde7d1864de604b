-- ===== src/Link/Reader/Cut.antt =====
-- A stream of the frames of src/transport.rs, drained where it happens to be cut.
use tcpform_protocol_lab.Base.{
  ℕ, zero, suc, ◌+◌, ◌^◌, ◌≤◌, ◌<◌, ◌≡◌, refl, sym, ap, ◌∙◌, List, [], ◌∷◌, ◌++◌, append-nil, none,
  some, true, false, Bool-cases, inl, inr, length, take, drop, length-append, length-drop,
  take-append, drop-append, take-append_front, drop-append_front, take-append-drop, All, ◌-◌, min,
  ◌==◌, leb, ltb, ltb→lt, ltb-false→le, arith, ok,
}
use tcpform_protocol_lab.Link.Frames.{
  Framing, raw, length_prefix, delimiter, fixed, frame_outbound, position_of, next_frame,
  next_prefixed, next_delimited, drain_loop,
}
use tcpform_protocol_lab.Link.Reader.{send_all}
use tcpform_protocol_lab.Link.Frames.Parts.{
  IsFrame, fixed-IsFrame, length_prefix-IsFrame, delimiter-IsFrame,
}

-- A framing that keeps messages apart.
abbrev pub IsUsable : Framing → Type 0
IsUsable raw = ⊥
IsUsable length_prefix = Unit
IsUsable (delimiter mark) = 0 < length mark
IsUsable (fixed size) = 0 < size

-- A message that the framing carries under the limit of the reader.
unfoldable pub IsCarried : Framing → ℕ → List ℕ → Type 0
IsCarried raw max_payload message = ⊥
IsCarried length_prefix max_payload message =
    (length message ≤ max_payload) × (length message < 2 ^ 32)
IsCarried (delimiter mark) max_payload message =
    (length message ≤ max_payload)
    × (max_payload + length mark < 2 ^ 64)
    × (position_of mark (message ++ mark) ≡ some (length message))
IsCarried (fixed size) max_payload message = length message ≡ size

outbound-IsFrame :
    (framing : Framing) (max_payload : ℕ) (message : List ℕ)
    → IsUsable framing
    → IsCarried framing max_payload message
    → (octets : List ℕ) × (frame_outbound message framing ≡ ok octets)
      × IsFrame framing max_payload message octets
unfolding frame_outbound IsCarried
outbound-IsFrame raw max_payload message u h = absurd u
outbound-IsFrame length_prefix max_payload message u (fits, small) =
    let counted : ltb (length message) 0x100000000 ≡ true = ground arith in
    (_, rw counted refl, length_prefix-IsFrame max_payload message fits small)
outbound-IsFrame (delimiter []) max_payload message u h = absurd (omega arith)
outbound-IsFrame (delimiter (m ∷ ms)) max_payload message u (fits, small, apart) =
    (_, refl, delimiter-IsFrame (m ∷ ms) max_payload message u apart fits small)
outbound-IsFrame (fixed size) max_payload message u h =
    let right : (length message == size) ≡ true = ground arith in
    (_, rw right refl, fixed-IsFrame size max_payload message u h)

-- Nothing is taken from nothing.
idle :
    (framing : Framing) (max_payload : ℕ)
    → IsUsable framing
    → next_frame framing max_payload [] ≡ ok none
unfolding next_frame next_prefixed next_delimited position_of
idle raw max_payload u = absurd u
idle length_prefix max_payload u = refl
idle (delimiter []) max_payload u = absurd (omega arith)
idle (delimiter (m ∷ ms)) max_payload u =
    let allowed : ltb (min (max_payload + suc (length ms)) (2 ^ 64 - 1)) 0 ≡ false = ground arith in
    rw allowed refl
idle (fixed size) max_payload u =
    let missing : leb size 0 ≡ false = ground arith in
    elim (Bool-cases (ltb 0 size)) [ inl e ↦ rw (e, missing) refl | inr e ↦ rw e refl ]

-- A stream is the frames of these messages, one after another.
unfoldable pub Stands : Framing → ℕ → List (List ℕ) → List ℕ → Type 0
Stands framing max_payload [] stream = stream ≡ []
Stands framing max_payload (message ∷ messages) stream =
    (octets : List ℕ) × (rest : List ℕ) × IsFrame framing max_payload message octets
    × (stream ≡ octets ++ rest)
    × Stands framing max_payload messages rest

pub send_all-Stands :
    (framing : Framing) (max_payload : ℕ) (messages : List (List ℕ))
    → IsUsable framing
    → All (IsCarried framing max_payload) messages
    → (stream : List ℕ) × (send_all framing messages ≡ ok stream)
      × Stands framing max_payload messages stream
unfolding send_all Stands
send_all-Stands framing max_payload [] u h = ([], refl, refl)
send_all-Stands framing max_payload (message ∷ messages) u (h, hs) =
    let (octets, sent, frame) = outbound-IsFrame framing max_payload message u h in
    let (rest, later, stands) = send_all-Stands framing max_payload messages u hs in
    (octets ++ rest, rw (sent, later) refl, (octets, rest, frame, refl, stands))

-- What draining a part of a stream gives.
pub record Drained (framing : Framing) (max_payload fuel : ℕ) (messages : List (List ℕ))
    (part later : List ℕ) : Type 0 where
  pub done : List (List ℕ)
  pub todo : List (List ℕ)
  pub left : List ℕ
  pub drains : drain_loop fuel framing max_payload part ≡ ok (done, left)
  pub all : messages ≡ done ++ todo
  pub stands : Stands framing max_payload todo (left ++ later)
  pub ends : later ≡ [] → (todo ≡ []) × (left ≡ [])

append-nil_front : (xs ys : List ℕ) → xs ++ ys ≡ [] → xs ≡ []
append-nil_front [] ys h = refl
append-nil_front (x ∷ xs) ys h = absurd (cc)

stops :
    (framing : Framing) (max_payload fuel : ℕ) (part : List ℕ)
    → next_frame framing max_payload part ≡ ok none
    → drain_loop (suc fuel) framing max_payload part ≡ ok ([], part)
unfolding drain_loop
stops framing max_payload fuel part h = rw h refl

goes_on :
    (framing : Framing) (max_payload fuel : ℕ) (part message rest : List ℕ) (done : List (List ℕ))
    (left : List ℕ)
    → next_frame framing max_payload part ≡ ok (some (message, rest))
    → drain_loop fuel framing max_payload rest ≡ ok (done, left)
    → drain_loop (suc fuel) framing max_payload part ≡ ok (message ∷ done, left)
unfolding drain_loop
goes_on framing max_payload fuel part message rest done left h k = rw (h, k) refl

-- A part that ends inside the first frame, and a part that holds all of it.
ends_inside :
    (part later octets rest : List ℕ)
    → part ++ later ≡ octets ++ rest
    → length part < length octets
    → octets ≡ part ++ drop (length part) octets
ends_inside part later octets rest whole short =
    let front : part ≡ take (length part) octets =
      sym (take-append part later refl)
      ∙ (ap (take (length part)) whole
          ∙ take-append_front (length part) octets rest (omega arith)) in
    sym (take-append-drop (length part) octets)
    ∙ ap (λ (xs : List ℕ). xs ++ drop (length part) octets) (sym front)

holds_all :
    (part later octets rest : List ℕ)
    → part ++ later ≡ octets ++ rest
    → length octets ≤ length part
    → (part ≡ octets ++ drop (length octets) part) × (drop (length octets) part ++ later ≡ rest)
holds_all part later octets rest whole full =
    let front : take (length octets) part ≡ octets =
      sym (take-append_front (length octets) part later full)
      ∙ (ap (take (length octets)) whole ∙ take-append octets rest refl) in
    (
      sym (take-append-drop (length octets) part)
          ∙ ap (λ (xs : List ℕ). xs ++ drop (length octets) part) front,
      sym (drop-append_front (length octets) part later full)
          ∙ (ap (drop (length octets)) whole ∙ drop-append octets rest refl),
    )

pub drain_loop-Drained :
    (framing : Framing) (max_payload fuel : ℕ) (messages : List (List ℕ)) (part later : List ℕ)
    → IsUsable framing
    → length part < fuel
    → Stands framing max_payload messages (part ++ later)
    → Drained framing max_payload fuel messages part later
unfolding Stands
drain_loop-Drained framing max_payload zero messages part later u enough h = absurd (omega arith)
drain_loop-Drained framing max_payload (suc fuel) [] part later u enough h =
    let empty : part ≡ [] = append-nil_front part later h in
    record {
      done = [];
      todo = [];
      left = part;
      drains = stops framing max_payload fuel part (rw empty (idle framing max_payload u));
      all = refl;
      stands = h;
      ends = λ none_later. (refl, empty);
    }
drain_loop-Drained framing max_payload (suc fuel) (message ∷ messages) part later u enough
      (octets, rest, frame, whole, stands) =
    elim (Bool-cases (ltb (length part) (length octets))) [
      | inl short ↦
          let less : length part < length octets = ltb→lt (length part) (length octets) short in
          record {
            done = [];
            todo = message ∷ messages;
            left = part;
            drains = stops framing max_payload fuel part (
                IsFrame.waits frame part (drop (length part) octets)
                  (ends_inside part later octets rest whole less) less);
            all = refl;
            stands = (octets, rest, frame, whole, stands);
            ends = λ none_later.
                let same : part ≡ octets ++ rest =
                  sym (append-nil part)
                  ∙ (ap (λ (xs : List ℕ). part ++ xs) (sym none_later) ∙ whole) in
                absurd (omega (arith, ap length same, length-append octets rest));
          }
      | inr full ↦
          let enough_octets : length octets ≤ length part =
            ltb-false→le (length part) (length octets) full in
          let behind : List ℕ = drop (length octets) part in
          let (split, seam) = holds_all part later octets rest whole enough_octets in
          let next : next_frame framing max_payload part ≡ ok (some (message, behind)) =
            ap (next_frame framing max_payload) split ∙ IsFrame.taken frame behind in
          let d : Drained framing max_payload fuel messages behind later =
            drain_loop-Drained framing max_payload fuel messages behind later u
              (omega (arith, length-drop (length octets) part, IsFrame.some_octet frame))
              (rw seam stands) in
          record {
            done = message ∷ Drained.done d;
            todo = Drained.todo d;
            left = Drained.left d;
            drains =
                goes_on framing max_payload fuel part message behind (Drained.done d)
                  (Drained.left d) next (Drained.drains d);
            all = ap (λ (xs : List (List ℕ)). message ∷ xs) (Drained.all d);
            stands = Drained.stands d;
            ends = Drained.ends d;
          }
    ]

pub no_message :
    (framing : Framing) (max_payload : ℕ) (messages : List (List ℕ)) (stream : List ℕ)
    → Stands framing max_payload messages stream
    → stream ≡ []
    → messages ≡ []
unfolding Stands
no_message framing max_payload [] stream h e = refl
no_message framing max_payload (message ∷ messages) stream (octets, rest, frame, whole, h) e =
    absurd (
      omega (arith, IsFrame.some_octet frame, ap length (sym whole ∙ e), length-append octets rest))
