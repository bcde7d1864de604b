-- ===== src/Link/Network/Send/Burst.antt =====
-- A burst of losses of src/transport.rs lasts as long as it was set to.
use tcpform_protocol_lab.Base.{
  ℕ, suc, ◌+◌, ◌-◌, ◌%◌, ◌^◌, ◌≤◌, ◌≡◌, ◌≢◌, refl, ◌∙◌, List, [], ◌∷◌, Option, Bool, true, false,
  Bool-cases, Option-cases, inl, inr, ◌&&◌, All, length, ltb, ◌==◌, arith, Result, err, ok,
}
use tcpform_protocol_lab.Wire.Values.{Text, Message}
use tcpform_protocol_lab.Link.Errors.{TransportError}
use tcpform_protocol_lab.Link.Network.{TransportConfig, ResourceLimits, Network, roll, is_eligible}
use tcpform_protocol_lab.Link.Network.Send.{
  inbox_of, with_burst, fate, send_after, send_to, send_scoped, Event, send, work, after, after_all,
}
use tcpform_protocol_lab.Link.Network.Send.Keeps.{KeepsState, roll-KeepsState, inboxes-with_burst}

-- Nothing passes, and at least so many losses are still to come.
record Strikes (config : TransportConfig) (n : ℕ) (before : Network)
    (struck : Network × Result TransportError Bool) : Type 0 where
  not_passed : struck.1 ≢ ok false
  same : Network.inboxes struck.0 ≡ Network.inboxes before
  more : n ≤ Network.burst_remaining struck.0
  limited : Network.burst_remaining struck.0 ≤ TransportConfig.burst_loss config - 1

burst-with_burst :
    (test : Bool) (config : TransportConfig) (n : ℕ) (net : Network)
    → Network.burst_remaining net ≡ n
    → n ≤ TransportConfig.burst_loss config - 1
    → (n ≤ Network.burst_remaining (with_burst test (TransportConfig.burst_loss config - 1) net))
      × (Network.burst_remaining (with_burst test (TransportConfig.burst_loss config - 1) net)
          ≤ TransportConfig.burst_loss config - 1)
unfolding with_burst
burst-with_burst true config n net e h = (h, omega arith)
burst-with_burst false config n net e h = (omega arith, omega arith)

fate-Strikes :
    (config : TransportConfig) (ordinal n : ℕ) (net : Network)
    → Network.burst_remaining net ≡ suc n
    → suc n ≤ TransportConfig.burst_loss config - 1
    → Strikes config n net (fate config true ordinal net)
unfolding fate with_burst
fate-Strikes config ordinal n net e h =
    let burst : ltb 0 (Network.burst_remaining net) ≡ true = ground arith in
    let less : Network = record net { burst_remaining = Network.burst_remaining net - 1 } in
    let rolled : Bool × Network = roll true (TransportConfig.loss_rate config) less in
    let kept : KeepsState less rolled.1 =
      roll-KeepsState true (TransportConfig.loss_rate config) less in
    let left : Network.burst_remaining rolled.1 ≡ n =
      omega (arith, KeepsState.burst_remaining kept) in
    let again : Bool = rolled.0 && ltb 1 (TransportConfig.burst_loss config) in
    let ports : Bool =
      ltb 0 (TransportConfig.port_capacity config)
      && ltb (TransportConfig.port_capacity config) ordinal in
    let link : Bool =
      ltb 0 (TransportConfig.disconnect_nth config)
      && (ordinal == TransportConfig.disconnect_nth config) in
    elim (Bool-cases ports) [
      | inl p ↦
          rw p (record {
            not_passed = λ z. cc;
            same = refl;
            more = omega arith;
            limited = omega arith;
          })
      | inr p ↦ elim (Bool-cases link) [
        | inl q ↦
            rw (p, q, burst)
              (record {
                not_passed = λ z. cc;
                same = KeepsState.inboxes kept;
                more = omega (arith, left);
                limited = omega (arith, left);
              })
        | inr q ↦
            let (far, low) = burst-with_burst again config n rolled.1 left (omega arith) in
            rw (p, q, burst)
              (record {
                not_passed = λ z. cc;
                same =
                    inboxes-with_burst again (TransportConfig.burst_loss config - 1) rolled.1
                    ∙ KeepsState.inboxes kept;
                more = far;
                limited = low;
              })
      ]
    ]

-- What stays after one send of a burst.
record GoesOn (config : TransportConfig) (n : ℕ) (before later : Network) : Type 0 where
  same : Network.inboxes later ≡ Network.inboxes before
  more : n ≤ Network.burst_remaining later
  limited : Network.burst_remaining later ≤ TransportConfig.burst_loss config - 1

send_after-GoesOn :
    (config : TransportConfig) (limits : ResourceLimits) (virtual_time : Bool) (to : Text)
    (queue : List Message) (msg : Message) (extra_delay_ms : ℕ) (ordinal n : ℕ) (before : Network)
    (struck : Network × Result TransportError Bool)
    → Strikes config n before struck
    → GoesOn config n before
        (send_after config limits virtual_time to queue msg extra_delay_ms true ordinal struck).0
unfolding send_after
send_after-GoesOn config limits virtual_time to queue msg extra_delay_ms ordinal n before
      (net, err reason) h =
    record { same = Strikes.same h; more = Strikes.more h; limited = Strikes.limited h }
send_after-GoesOn config limits virtual_time to queue msg extra_delay_ms ordinal n before
      (net, ok true) h =
    record { same = Strikes.same h; more = Strikes.more h; limited = Strikes.limited h }
send_after-GoesOn config limits virtual_time to queue msg extra_delay_ms ordinal n before
      (net, ok false) h =
    absurd (Strikes.not_passed h refl)

send_scoped-GoesOn :
    (config : TransportConfig) (limits : ResourceLimits) (virtual_time : Bool) (to : Text)
    (msg : Message) (extra_delay_ms : ℕ) (step : Option Text) (n : ℕ) (net : Network)
    → is_eligible config msg step ≡ true
    → Network.burst_remaining net ≡ suc n
    → suc n ≤ TransportConfig.burst_loss config - 1
    → GoesOn config n net (send_scoped config limits virtual_time to msg extra_delay_ms step net).0
unfolding send_scoped send_to
send_scoped-GoesOn config limits virtual_time to msg extra_delay_ms step n net eligible e h =
    let next : ℕ = (Network.send_counter net + 1) % 2 ^ 64 in
    let counted : Network = record net { send_counter = next } in
    elim (Option-cases (inbox_of to (Network.inboxes net))) [
      | inl absent ↦
          rw (absent, send_scoped)
            (record { same = refl; more = omega arith; limited = omega arith })
      | inr (queue, found) ↦
          let on : GoesOn config n counted
              (send_after config limits virtual_time to queue msg extra_delay_ms true next
                (fate config true next counted)).0 =
            send_after-GoesOn config limits virtual_time to queue msg extra_delay_ms next n counted
              (fate config true next counted) (fate-Strikes config next n counted e h) in
          rw (found, send_scoped, eligible, send_to)
            (record { same = GoesOn.same on; more = GoesOn.more on; limited = GoesOn.limited on })
    ]

-- A send that the faults may strike.
unfoldable pub IsStruck : TransportConfig → Event → Type 0
IsStruck config (send to msg extra_delay_ms step) = is_eligible config msg step ≡ true
IsStruck config (work worker) = ⊥

-- While a burst of losses lasts, of a length that burst_loss can set, no eligible send delivers: as
-- many sends as are still to be lost change no inbox, wherever they go, with whatever other faults.
pub inboxes-after_all-IsStruck :
    (config : TransportConfig) (limits : ResourceLimits) (virtual_time : Bool) (events : List Event)
    (net : Network)
    → All (IsStruck config) events
    → length events ≤ Network.burst_remaining net
    → Network.burst_remaining net ≤ TransportConfig.burst_loss config - 1
    → Network.inboxes (after_all config limits virtual_time events net) ≡ Network.inboxes net
unfolding after_all after IsStruck
inboxes-after_all-IsStruck config limits virtual_time [] net h few limited = refl
inboxes-after_all-IsStruck config limits virtual_time (send to msg extra_delay_ms step ∷ events) net
      (eligible, h) few limited =
    let n : ℕ = Network.burst_remaining net - 1 in
    let next : Network =
      (send_scoped config limits virtual_time to msg extra_delay_ms step net).0 in
    let on : GoesOn config n net next =
      send_scoped-GoesOn config limits virtual_time to msg extra_delay_ms step n net eligible
        (omega arith) (omega arith) in
    inboxes-after_all-IsStruck config limits virtual_time events next h
      (omega (arith, GoesOn.more on)) (GoesOn.limited on)
    ∙ GoesOn.same on
inboxes-after_all-IsStruck config limits virtual_time (work worker ∷ events) net (h, hs) few
      limited =
    absurd h
