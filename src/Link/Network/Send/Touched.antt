-- ===== src/Link/Network/Send/Touched.antt =====
-- What send_scoped of src/transport.rs changes of the inboxes: nothing, or the one of the destination,
-- where it delivers.
use tcpform_protocol_lab.Base.{
  ℕ, ◌+◌, ◌%◌, ◌^◌, ◌≡◌, ◌⊎◌, refl, ap, ◌∙◌, subst, List, Option, some, Bool, true, false,
  Bool-cases, Option-cases, inl, inr, ◌&&◌, ◌||◌, length, leb, ltb, ◌==◌, if◌then◌else◌, Result,
  err, ok,
}
use tcpform_protocol_lab.Wire.Values.{Text, Message}
use tcpform_protocol_lab.Link.Errors.{TransportError}
use tcpform_protocol_lab.Link.Network.{
  TransportConfig, ResourceLimits, Delivery, Network, payload_len, total_delay, is_eligible,
}
use tcpform_protocol_lab.Link.Network.Send.{
  inbox_of, set_inbox, deliver_copies, fate, Draws, draws, altered, hand_over, send_through,
  send_after, run_worker, send_to, send_scoped,
}
use tcpform_protocol_lab.Link.Network.Send.Keeps.{KeepsState, draws-KeepsState, inboxes-fate}

-- Nothing changed, or the inbox of the destination did, by a delivery.
pub record Delivers (max_inbox : ℕ) (to : Text) (before later : List (Text × List Message))
    : Type 0 where
  pub queue : List Message
  pub msg : Message
  pub reorder_value : Option ℕ
  pub duplicated : Bool
  pub found : inbox_of to before ≡ some queue
  pub stored :
      later ≡ set_inbox to (deliver_copies queue msg reorder_value max_inbox duplicated).0 before

unfoldable pub Touches : ℕ → Text → List (Text × List Message) → List (Text × List Message) → Type 0
Touches max_inbox to before later = (later ≡ before) ⊎ Delivers max_inbox to before later

-- The same, seen from a network with the same inboxes.
Touches-from :
    (max_inbox : ℕ) (to : Text) (middle before later : List (Text × List Message))
    → middle ≡ before
    → Touches max_inbox to middle later
    → Touches max_inbox to before later
unfolding Touches
Touches-from max_inbox to middle before later e h =
    subst (λ (from : List (Text × List Message)). Touches max_inbox to from later) e h

unchanged :
    (max_inbox : ℕ) (to : Text) (before later : List (Text × List Message))
    → later ≡ before
    → Touches max_inbox to before later
unfolding Touches
unchanged max_inbox to before later h = inl h

hand_over-Touches :
    (limits : ResourceLimits) (virtual_time : Bool) (to : Text) (queue : List Message)
    (msg : Message) (d : Draws) (delay : ℕ)
    → inbox_of to (Network.inboxes (Draws.network d)) ≡ some queue
    → Touches
        (ResourceLimits.max_inbox limits)
        to
        (Network.inboxes (Draws.network d))
        (Network.inboxes (hand_over limits virtual_time to queue msg d delay).0)
unfolding Touches hand_over
hand_over-Touches limits virtual_time to queue msg d delay e =
    elim (Bool-cases (virtual_time || (delay == 0))) [
      | inr waits ↦ rw waits (inl refl)
      | inl at_once ↦ rw at_once (
          inr (record {
            queue = queue;
            msg = msg;
            reorder_value = Draws.reorder_value d;
            duplicated = Draws.duplicated d;
            found = e;
            stored = refl;
          }))
    ]

send_through-Touches :
    (config : TransportConfig) (limits : ResourceLimits) (virtual_time : Bool) (to : Text)
    (queue : List Message) (msg : Message) (extra_delay_ms : ℕ) (eligible : Bool) (ordinal : ℕ)
    (net : Network)
    → inbox_of to (Network.inboxes net) ≡ some queue
    → Touches (ResourceLimits.max_inbox limits) to (Network.inboxes net) (
        Network.inboxes
          (send_through config limits virtual_time to queue msg extra_delay_ms eligible ordinal
            net).0)
unfolding send_through
send_through-Touches config limits virtual_time to queue msg extra_delay_ms eligible ordinal net e =
    let d : Draws = draws config eligible net in
    let same : Network.inboxes (Draws.network d) ≡ Network.inboxes net =
      KeepsState.inboxes (draws-KeepsState config eligible net) in
    let arrives : Message = altered config d msg in
    let len : ℕ = payload_len arrives in
    let delay : ℕ = total_delay config eligible ordinal extra_delay_ms (Draws.jitter d) len in
    let too_long : Bool =
      ltb 0 (TransportConfig.mtu config) && ltb (TransportConfig.mtu config) len in
    elim (Bool-cases (ltb (ResourceLimits.max_payload limits) len)) [
      | inl a ↦ rw a (unchanged _ to _ _ same)
      | inr a ↦ elim (Bool-cases (too_long && TransportConfig.mtu_blackhole config)) [
        | inl b ↦ rw (a, b) (unchanged _ to _ _ same)
        | inr b ↦ elim (Bool-cases too_long) [
          | inl c ↦ rw (a, b, c) (unchanged _ to _ _ same)
          | inr c ↦ elim (Bool-cases (leb (ResourceLimits.max_inbox limits) (length queue))) [
            | inl f ↦ rw (a, b, c, f) (unchanged _ to _ _ same)
            | inr f ↦
                rw (a, b, c, f)
                  (Touches-from (ResourceLimits.max_inbox limits) to
                    (Network.inboxes (Draws.network d)) (Network.inboxes net) _ same
                    (hand_over-Touches limits virtual_time to queue arrives d delay
                      (ap (inbox_of to) same ∙ e)))
          ]
        ]
      ]
    ]

send_after-Touches :
    (config : TransportConfig) (limits : ResourceLimits) (virtual_time : Bool) (to : Text)
    (queue : List Message) (msg : Message) (extra_delay_ms : ℕ) (eligible : Bool) (ordinal : ℕ)
    (net : Network) (result : Network × Result TransportError Bool)
    → Network.inboxes result.0 ≡ Network.inboxes net
    → inbox_of to (Network.inboxes net) ≡ some queue
    → Touches (ResourceLimits.max_inbox limits) to (Network.inboxes net) (
        Network.inboxes
          (send_after config limits virtual_time to queue msg extra_delay_ms eligible ordinal
            result).0)
unfolding send_after
send_after-Touches config limits virtual_time to queue msg extra_delay_ms eligible ordinal net
      (later, err reason) h e =
    unchanged _ to _ _ h
send_after-Touches config limits virtual_time to queue msg extra_delay_ms eligible ordinal net
      (later, ok true) h e =
    unchanged _ to _ _ h
send_after-Touches config limits virtual_time to queue msg extra_delay_ms eligible ordinal net
      (later, ok false) h e =
    Touches-from (ResourceLimits.max_inbox limits) to (Network.inboxes later) (Network.inboxes net)
      _ h
      (send_through-Touches config limits virtual_time to queue msg extra_delay_ms eligible ordinal
        later (ap (inbox_of to) h ∙ e))

send_to-Touches :
    (config : TransportConfig) (limits : ResourceLimits) (virtual_time : Bool) (to : Text)
    (queue : List Message) (msg : Message) (extra_delay_ms : ℕ) (eligible : Bool) (net : Network)
    → inbox_of to (Network.inboxes net) ≡ some queue
    → Touches (ResourceLimits.max_inbox limits) to (Network.inboxes net) (
        Network.inboxes
          (send_to config limits virtual_time to queue msg extra_delay_ms eligible net).0)
unfolding send_to
send_to-Touches config limits virtual_time to queue msg extra_delay_ms eligible net e =
    let next : ℕ = (Network.send_counter net + 1) % 2 ^ 64 in
    let ordinal : ℕ = if eligible then next else 0 in
    let counted : Network = if eligible then record net { send_counter = next } else net in
    let same : Network.inboxes counted ≡ Network.inboxes net = elim (Bool-cases eligible) [
      | inl yes_it ↦ rw yes_it refl
      | inr not_it ↦ rw not_it refl
    ] in
    send_after-Touches config limits virtual_time to queue msg extra_delay_ms eligible ordinal net
      (fate config eligible ordinal counted) (inboxes-fate config eligible ordinal counted ∙ same) e

-- A send changes no inbox, or the one of its destination, to which it delivers.
pub send_scoped-Touches :
    (config : TransportConfig) (limits : ResourceLimits) (virtual_time : Bool) (to : Text)
    (msg : Message) (extra_delay_ms : ℕ) (step : Option Text) (net : Network)
    → Touches
        (ResourceLimits.max_inbox limits)
        to
        (Network.inboxes net)
        (Network.inboxes (send_scoped config limits virtual_time to msg extra_delay_ms step net).0)
unfolding send_scoped
send_scoped-Touches config limits virtual_time to msg extra_delay_ms step net =
    elim (Option-cases (inbox_of to (Network.inboxes net))) [
      | inl absent ↦ rw (absent, send_scoped) (unchanged _ to _ _ refl)
      | inr (queue, e) ↦
          rw (e, send_scoped)
            (send_to-Touches config limits virtual_time to queue msg extra_delay_ms
              (is_eligible config msg step) net e)
    ]

-- A worker does the same to the inbox of its message.
pub run_worker-Touches :
    (limits : ResourceLimits) (worker : Delivery) (net : Network)
    → Touches
        (ResourceLimits.max_inbox limits)
        (Delivery.to worker)
        (Network.inboxes net)
        (Network.inboxes (run_worker limits worker net))
unfolding run_worker Touches
run_worker-Touches limits worker net =
    elim (Option-cases (inbox_of (Delivery.to worker) (Network.inboxes net))) [
      | inl absent ↦ rw (absent, run_worker) (inl refl)
      | inr (queue, e) ↦
          rw (e, run_worker)
            (inr (record {
              queue = queue;
              msg = Delivery.msg worker;
              reorder_value = Delivery.reorder_value worker;
              duplicated = Delivery.duplicated worker;
              found = e;
              stored = refl;
            }))
    ]
