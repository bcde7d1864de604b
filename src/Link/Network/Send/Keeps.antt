-- ===== src/Link/Network/Send/Keeps.antt =====
-- What the random draws and the losses of send_scoped in src/transport.rs leave unchanged.
use tcpform_protocol_lab.Base.{
  ℕ, ◌-◌, ◌≡◌, refl, ◌∙◌, Bool, true, false, Bool-cases, inl, inr, ◌&&◌, ltb, ◌==◌,
}
use tcpform_protocol_lab.Link.Network.{TransportConfig, Network, next_random_u64, roll}
use tcpform_protocol_lab.Link.Network.Send.{with_burst, fate, Draws, draws}

-- Drawing a number changes neither the inboxes nor the burst of losses.
pub record KeepsState (net later : Network) : Type 0 where
  pub inboxes : Network.inboxes later ≡ Network.inboxes net
  pub burst_remaining : Network.burst_remaining later ≡ Network.burst_remaining net

keeps-then : (a b c : Network) → KeepsState b c → KeepsState a b → KeepsState a c
keeps-then a b c h k = record {
  inboxes = KeepsState.inboxes h ∙ KeepsState.inboxes k;
  burst_remaining = KeepsState.burst_remaining h ∙ KeepsState.burst_remaining k;
}

next_random_u64-KeepsState : (net : Network) → KeepsState net (next_random_u64 net).1
unfolding next_random_u64
next_random_u64-KeepsState net = record { inboxes = refl; burst_remaining = refl }

pub roll-KeepsState :
    (eligible : Bool) (rate : ℕ) (net : Network) → KeepsState net (roll eligible rate net).1
unfolding roll
roll-KeepsState eligible rate net = elim (Bool-cases (eligible && ltb 0 rate)) [
  | inl e ↦ rw e (next_random_u64-KeepsState net)
  | inr e ↦ rw e (record { inboxes = refl; burst_remaining = refl })
]

pub draws-KeepsState :
    (config : TransportConfig) (eligible : Bool) (net : Network)
    → KeepsState net (Draws.network (draws config eligible net))
unfolding draws
draws-KeepsState config eligible net =
    let corrupt : Bool × Network = roll eligible (TransportConfig.corrupt_rate config) net in
    let double : Bool × Network = roll eligible (TransportConfig.duplicate_rate config) corrupt.1 in
    let kept : KeepsState net double.1 =
      keeps-then net corrupt.1 double.1
        (roll-KeepsState eligible (TransportConfig.duplicate_rate config) corrupt.1)
        (roll-KeepsState eligible (TransportConfig.corrupt_rate config) net) in
    let next : ℕ × Network = next_random_u64 double.1 in
    let kept_next : KeepsState net next.1 =
      keeps-then net double.1 next.1 (next_random_u64-KeepsState double.1) kept in
    elim (Bool-cases (TransportConfig.jitter_ms config == 0)) [
      | inl e ↦ elim (Bool-cases (TransportConfig.reorder config)) [
        | inl f ↦ rw (e, f) kept_next
        | inr f ↦ rw (e, f) kept
      ]
      | inr e ↦ elim (Bool-cases (TransportConfig.reorder config)) [
        | inl f ↦
            rw (e, f)
              (keeps-then net next.1 (next_random_u64 next.1).1 (next_random_u64-KeepsState next.1)
                kept_next)
        | inr f ↦ rw (e, f) kept_next
      ]
    ]

pub inboxes-with_burst :
    (test : Bool) (remaining : ℕ) (net : Network)
    → Network.inboxes (with_burst test remaining net) ≡ Network.inboxes net
unfolding with_burst
inboxes-with_burst true remaining net = refl
inboxes-with_burst false remaining net = refl

pub inboxes-fate :
    (config : TransportConfig) (eligible : Bool) (ordinal : ℕ) (net : Network)
    → Network.inboxes (fate config eligible ordinal net).0 ≡ Network.inboxes net
unfolding fate
inboxes-fate config eligible ordinal net =
    let burst : Bool = eligible && ltb 0 (Network.burst_remaining net) in
    let after_burst : Network = with_burst burst (Network.burst_remaining net - 1) net in
    let rolled : Bool × Network = roll eligible (TransportConfig.loss_rate config) after_burst in
    let same : Network.inboxes rolled.1 ≡ Network.inboxes net =
      KeepsState.inboxes (roll-KeepsState eligible (TransportConfig.loss_rate config) after_burst)
      ∙ inboxes-with_burst burst (Network.burst_remaining net - 1) net in
    elim (Bool-cases (
      eligible
      && (ltb 0 (TransportConfig.port_capacity config)
          && ltb (TransportConfig.port_capacity config) ordinal))) [
            | inl e ↦ rw e refl
            | inr e ↦
                elim (Bool-cases (
                  eligible
                  && (ltb 0 (TransportConfig.disconnect_nth config)
                      && (ordinal == TransportConfig.disconnect_nth config)))) [
                        | inl f ↦ rw (e, f) same
                        | inr f ↦
                            rw (e, f)
                              (inboxes-with_burst
                                  (rolled.0 && ltb 1 (TransportConfig.burst_loss config))
                                  (TransportConfig.burst_loss config - 1) rolled.1
                                ∙ same)
                      ]
          ]
