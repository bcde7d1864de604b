-- ===== src/Packet/TcpState/History.antt =====
-- What the states of `TcpStateTracker` in src/packet.rs say about the segments that were seen.
use tcpform_protocol_lab.Base.{
  ℕ, ◌≡◌, refl, ◌⊎◌, inl, inr, Bool, true, false, ◌&&◌, ◌||◌, not, List, [], ◌∷◌, ok, err, arith,
  Bool-cases, some, none, Option,
}
use tcpform_protocol_lab.Packet.Types.{
  TcpState, TcpDirection, invalid_transition, closed, syn_sent, syn_received, established,
  fin_wait1, fin_wait2, close_wait, last_ack, time_wait, reset, outbound, inbound,
}
use tcpform_protocol_lab.Packet.TcpState.{
  has, flag_fin, flag_ack, flag_syn, flag_rst, tcp_flag_names, transition, settle, observe,
}

-- The tracker after a sequence of segments, whether or not each of them was accepted.
unfoldable pub track : TcpState → List (TcpDirection × ℕ) → TcpState
track state [] = state
track state ((direction, flags) ∷ events) = track (observe state direction flags).0 events

abbrev pub is_inbound : TcpDirection → Bool
is_inbound inbound = true
is_inbound outbound = false

-- What has been seen so far: a handshake segment received, and a FIN sent and received.
pub record Seen : Type 0 where
  pub heard_ack : Bool
  pub sent_fin : Bool
  pub heard_fin : Bool

abbrev pub nothing_seen : Seen
nothing_seen = record { heard_ack = false; sent_fin = false; heard_fin = false }

unfoldable pub note : Seen → TcpDirection → ℕ → Seen
note seen direction flags = record {
  heard_ack = seen.heard_ack || (is_inbound direction && has flags flag_ack);
  sent_fin = seen.sent_fin || (not (is_inbound direction) && has flags flag_fin);
  heard_fin = seen.heard_fin || (is_inbound direction && has flags flag_fin);
}

unfoldable pub witnessed : Seen → List (TcpDirection × ℕ) → Seen
witnessed seen [] = seen
witnessed seen ((direction, flags) ∷ events) = witnessed (note seen direction flags) events

-- What a state vouches for.
abbrev pub Explains : TcpState → Seen → Type 0
Explains established seen = seen.heard_ack ≡ true
Explains fin_wait1 seen = (seen.heard_ack ≡ true) × (seen.sent_fin ≡ true)
Explains fin_wait2 seen = (seen.heard_ack ≡ true) × (seen.sent_fin ≡ true)
Explains close_wait seen = (seen.heard_ack ≡ true) × (seen.heard_fin ≡ true)
Explains last_ack seen = (seen.heard_ack ≡ true) × (seen.sent_fin ≡ true) × (seen.heard_fin ≡ true)
Explains time_wait seen = (seen.heard_ack ≡ true) × (seen.sent_fin ≡ true) × (seen.heard_fin ≡ true)
Explains _ seen = Unit {0}

step-Explains :
    (state : TcpState) (direction : TcpDirection) (flags : ℕ) (seen : Seen)
    → Explains state seen
    → Explains (observe state direction flags).0 (note seen direction flags)
unfolding observe note transition
step-Explains closed d flags seen h = ground arith
step-Explains syn_sent d flags seen h = ground arith
step-Explains syn_received d flags seen h = ground arith
step-Explains established d flags seen h = ground arith
step-Explains fin_wait1 d flags seen h = ground arith
step-Explains fin_wait2 d flags seen h = ground arith
step-Explains close_wait d flags seen h = ground arith
step-Explains last_ack d flags seen h = ground arith
step-Explains time_wait d flags seen h = ground arith
step-Explains reset d flags seen h = ground arith

track-Explains_from :
    (state : TcpState) (seen : Seen) (events : List (TcpDirection × ℕ))
    → Explains state seen
    → Explains (track state events) (witnessed seen events)
unfolding track witnessed
track-Explains_from state seen [] h = h
track-Explains_from state seen ((direction, flags) ∷ events) h =
    track-Explains_from (observe state direction flags).0 (note seen direction flags) events
      (step-Explains state direction flags seen h)

-- Whatever segments a closed endpoint sends and receives, refused ones included: it is established
-- only after an ACK has been received, has a FIN behind it in the states that follow one it sent or
-- received, and in LAST-ACK and TIME-WAIT one in each direction.
pub track-Explains :
    (events : List (TcpDirection × ℕ))
    → Explains (track closed events) (witnessed nothing_seen events)
track-Explains events = track-Explains_from closed nothing_seen events tt

settled :
    (state : TcpState) (direction : TcpDirection) (flags : ℕ) (next : Option TcpState)
    → ((settle state direction flags next).1 ≡ ok (settle state direction flags next).0)
      ⊎ ((settle state direction flags next).0 ≡ state)
        × ((settle state direction flags next).1
            ≡ err (invalid_transition direction state (tcp_flag_names flags)))
settled state direction flags none = inr (refl, refl)
settled state direction flags (some next) = inl refl

-- A call returns the tracker's new state, or leaves the state and returns the error that names it;
-- a segment with RST is accepted in every state and resets, and after a reset nothing but RST is.
pub observe_cases :
    (state : TcpState) (direction : TcpDirection) (flags : ℕ)
    → (((observe state direction flags).1 ≡ ok (observe state direction flags).0)
        ⊎ ((observe state direction flags).0 ≡ state)
          × ((observe state direction flags).1
              ≡ err (invalid_transition direction state (tcp_flag_names flags))))
      × (has flags flag_rst ≡ true → observe state direction flags ≡ (reset, ok reset))
      × ((observe reset direction flags).0 ≡ reset)
      × (has flags flag_rst ≡ false
          → (observe reset direction flags).1
            ≡ err (invalid_transition direction reset (tcp_flag_names flags)))
unfolding observe transition
observe_cases state direction flags =
    let next =
      transition state direction (has flags flag_syn) (has flags flag_ack) (has flags flag_fin) in
    elim (Bool-cases (has flags flag_rst)) [
      | inl e ↦ (rw e (inl refl), λ h. rw e, rw e, λ h. cc)
      | inr e ↦ (rw e (settled state direction flags next), λ h. cc, rw e, λ h. rw e)
    ]
