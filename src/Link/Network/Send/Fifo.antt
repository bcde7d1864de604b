-- ===== src/Link/Network/Send/Fifo.antt =====
-- A network of src/transport.rs without faults is one queue for each role.
use tcpform_protocol_lab.Base.{
  ℕ, suc, ◌+◌, ◌≤◌, ◌≡◌, refl, sym, ap, ◌∙◌, List, [], ◌∷◌, ◌++◌, append-nil, append_assoc, Option,
  some, true, Bool-cases, inl, inr, All, length, length-append, if◌then◌else◌, arith,
}
use tcpform_protocol_lab.Wire.Values.{Text, Message, text_eq}
use tcpform_protocol_lab.Wire.Texts.{text_eq→≡, text_eq_apart}
use tcpform_protocol_lab.Link.Network.{TransportConfig, ResourceLimits, Network, payload_len}
use tcpform_protocol_lab.Link.Network.Send.{
  inbox_of, set_inbox, send_scoped, with_options, Event, send, work, after, after_all,
}
use tcpform_protocol_lab.Link.Network.Send.Bounded.{
  IsWithin, inbox_of-IsWithin, set_inbox-IsWithin, with_options-IsWithin,
}
use tcpform_protocol_lab.Link.Network.Send.Perfect.{IsPerfect, IsAppended, send_scoped-IsAppended}

-- The messages that were sent to a role, in their order: what its queue holds by its contract.
unfoldable pub sent_to : Text → List Event → List Message
sent_to role [] = []
sent_to role (send to msg extra_delay_ms step ∷ events) =
    if text_eq to role then msg ∷ sent_to role events else sent_to role events
sent_to role (work worker ∷ events) = sent_to role events

-- A send to one of these roles of a payload that the limits allow.
unfoldable pub IsAllowed : ResourceLimits → List (Text × List Message) → Event → Type 0
IsAllowed limits inboxes (send to msg extra_delay_ms step) =
    ((queue : List Message) × (inbox_of to inboxes ≡ some queue))
    × (payload_len msg ≤ ResourceLimits.max_payload limits)
IsAllowed limits inboxes (work worker) = ⊥

inbox_of-set_inbox :
    (role to : Text) (queue old : List Message) (inboxes : List (Text × List Message))
    → inbox_of to inboxes ≡ some old
    → inbox_of role (set_inbox to queue inboxes)
      ≡ (if text_eq to role then some queue else inbox_of role inboxes)
unfolding inbox_of set_inbox
inbox_of-set_inbox role to queue old [] e = absurd (cc)
inbox_of-set_inbox role to queue old ((name, held) ∷ rest) e = elim (Bool-cases (text_eq name to)) [
  | inl same ↦
      rw (same, text_eq→≡ name to same)
        (elim (Bool-cases (text_eq to role)) [ inl f ↦ rw f refl | inr f ↦ rw f refl ])
  | inr other ↦
      rw (other, inbox_of-set_inbox role to queue old rest (rw other at e))
        (elim (Bool-cases (text_eq name role)) [
          | inl f ↦ rw (f, text_eq_apart name to role other f) refl
          | inr f ↦ rw f refl
        ])
]

-- The roles stay the same.
kept_role :
    (role to : Text) (queue old : List Message) (inboxes : List (Text × List Message))
    → inbox_of to inboxes ≡ some old
    → (held : List Message) × (inbox_of role inboxes ≡ some held)
    → (held : List Message) × (inbox_of role (set_inbox to queue inboxes) ≡ some held)
kept_role role to queue old inboxes e (held, there) =
    let stored : inbox_of role (set_inbox to queue inboxes)
        ≡ (if text_eq to role then some queue else inbox_of role inboxes) =
      inbox_of-set_inbox role to queue old inboxes e in
    elim (Bool-cases (text_eq to role)) [
      | inl f ↦ (queue, rw (stored, f) refl)
      | inr f ↦ (held, rw (stored, f) there)
    ]

IsAllowed-kept :
    (limits : ResourceLimits) (to : Text) (queue old : List Message)
    (inboxes : List (Text × List Message)) (events : List Event)
    → inbox_of to inboxes ≡ some old
    → All (IsAllowed limits inboxes) events
    → All (IsAllowed limits (set_inbox to queue inboxes)) events
unfolding IsAllowed
IsAllowed-kept limits to queue old inboxes [] e h = tt
IsAllowed-kept limits to queue old inboxes (send role msg extra_delay_ms step ∷ events) e
      ((there, fits), hs) =
    (
      (kept_role role to queue old inboxes e there, fits),
      IsAllowed-kept limits to queue old inboxes events e hs,
    )
IsAllowed-kept limits to queue old inboxes (work worker ∷ events) e (h, hs) = absurd h

IsWithin-suc :
    (k : ℕ) (inboxes : List (Text × List Message)) → IsWithin k inboxes → IsWithin (suc k) inboxes
unfolding IsWithin
IsWithin-suc k [] h = tt
IsWithin-suc k ((name, queue) ∷ rest) (h, hs) = (omega arith, IsWithin-suc k rest hs)

some_injective : {A : Type 0} {a b : A} → ◌≡◌ {A = Option A} (some a) (some b) → a ≡ b
some_injective e = cc

after_all-queues :
    (config : TransportConfig) (limits : ResourceLimits) (events : List Event) (net : Network)
    (k : ℕ) (role : Text) (held : List Message)
    → IsPerfect config
    → Network.burst_remaining net ≡ 0
    → IsWithin k (Network.inboxes net)
    → k + length events ≤ ResourceLimits.max_inbox limits
    → All (IsAllowed limits (Network.inboxes net)) events
    → inbox_of role (Network.inboxes net) ≡ some held
    → inbox_of role (Network.inboxes (after_all config limits true events net))
      ≡ some (held ++ sent_to role events)
unfolding after_all after IsAllowed sent_to
after_all-queues config limits [] net k role held p b within room h e = rw (append-nil held) e
after_all-queues config limits (send to msg extra_delay_ms step ∷ events) net k role held p b within
      room (((queue, there), fits), hs) e =
    let short : length queue ≤ k =
      inbox_of-IsWithin k to (Network.inboxes net) queue within there in
    let next : Network = (send_scoped config limits true to msg extra_delay_ms step net).0 in
    let a : IsAppended to queue msg net
        (send_scoped config limits true to msg extra_delay_ms step net) =
      send_scoped-IsAppended config limits to queue msg extra_delay_ms step net p b there
        (omega arith) fits in
    let stored : Network.inboxes next ≡ set_inbox to (queue ++ msg ∷ []) (Network.inboxes net) =
      IsAppended.stored a in
    let rest : (longer : List Message)
        → inbox_of role (Network.inboxes next) ≡ some longer
        → inbox_of role (Network.inboxes (after_all config limits true events next))
          ≡ some (longer ++ sent_to role events) =
      λ longer f.
        after_all-queues config limits events next (suc k) role longer p (IsAppended.no_burst a)
          (rw stored (
            set_inbox-IsWithin (suc k) to (queue ++ msg ∷ []) (Network.inboxes net)
              (omega (arith, length-append queue (msg ∷ [])))
              (IsWithin-suc k (Network.inboxes net) within)))
          (omega arith)
          (rw stored (
            IsAllowed-kept limits to (queue ++ msg ∷ []) queue (Network.inboxes net) events there
              hs))
          f in
    let found : inbox_of role (Network.inboxes next) ≡ (
        if text_eq to role then some (queue ++ msg ∷ []) else inbox_of role (Network.inboxes net)) =
      ap (inbox_of role) stored
      ∙ inbox_of-set_inbox role to (queue ++ msg ∷ []) queue (Network.inboxes net) there in
    elim (Bool-cases (text_eq to role)) [
      | inl same ↦
          let to_role : to ≡ role = text_eq→≡ to role same in
          let one : queue ≡ held =
            some_injective
              (sym there ∙ (ap (λ (r : Text). inbox_of r (Network.inboxes net)) to_role ∙ e)) in
          rw (same, sym one, sym (append_assoc queue (msg ∷ []) (sent_to role events)))
            (rest (queue ++ msg ∷ []) (rw (found, same) refl))
      | inr other ↦ rw other (rest held (rw (found, other) e))
    ]
after_all-queues config limits (work worker ∷ events) net k role held p b within room (h, hs) e =
    absurd h

-- On a new network without faults, in virtual time, after sends to roles that exist, of payloads that
-- the limits allow and no more of them than max_inbox, the inbox of each role holds exactly the
-- messages that were sent to it, in the order in which they were sent.
pub after_all-sent_to :
    (config : TransportConfig) (limits : ResourceLimits) (roles : List Text) (random_seed : ℕ)
    (events : List Event) (role : Text)
    → IsPerfect config
    → length events ≤ ResourceLimits.max_inbox limits
    → All (IsAllowed limits (Network.inboxes (with_options roles random_seed))) events
    → inbox_of role (Network.inboxes (with_options roles random_seed)) ≡ some []
    → inbox_of role
        (Network.inboxes (after_all config limits true events (with_options roles random_seed)))
      ≡ some (sent_to role events)
unfolding with_options
after_all-sent_to config limits roles random_seed events role p room h e =
    after_all-queues config limits events (with_options roles random_seed) 0 role [] p refl
      (with_options-IsWithin 0 roles) (omega arith) h e
