-- ===== src/Link/Network/Send/Bounded.antt =====
-- The simulated network of src/transport.rs keeps every inbox within max_inbox.
use tcpform_protocol_lab.Base.{
  ℕ, suc, ◌%◌, ◌≤◌, ◌≡◌, refl, List, [], ◌∷◌, ◌++◌, map, Option, none, some, Bool, true, false,
  Bool-cases, inl, inr, All, length, take, drop, length-append, length-take, length-drop, leb, ◌==◌,
  arith, Result, err, ok, ok-injective, ap, sym,
}
use tcpform_protocol_lab.Wire.Values.{Text, Message, text_eq}
use tcpform_protocol_lab.Link.Errors.{TransportError}
use tcpform_protocol_lab.Link.Inbox.{push_message_limited, insert_at}
use tcpform_protocol_lab.Link.Network.{TransportConfig, ResourceLimits, Delivery, Network}
use tcpform_protocol_lab.Link.Network.Send.Touched.{
  Touches, Delivers, send_scoped-Touches, run_worker-Touches,
}
use tcpform_protocol_lab.Link.Network.Send.{
  inbox_of, set_inbox, deliver, deliver_copies, with_options, Event, send, work, after, after_all,
}

length-insert_at :
    (p : ℕ) (msg : Message) (queue : List Message)
    → length (insert_at p msg queue) ≡ suc (length queue)
unfolding insert_at
length-insert_at p msg queue = omega (
  arith,
  length-append (take p queue) (msg ∷ drop p queue),
  length-take p queue,
  length-drop p queue,
)

-- A message that is pushed fits, and is one more.
length-push :
    (queue longer : List Message) (msg : Message) (reorder_value : Option ℕ) (max_inbox : ℕ)
    → push_message_limited queue msg reorder_value max_inbox ≡ ok longer
    → (length longer ≡ suc (length queue)) × (length longer ≤ max_inbox)
unfolding push_message_limited
length-push queue longer msg none max_inbox h = elim (Bool-cases (leb max_inbox (length queue))) [
  | inl full ↦ absurd (cc (rw full at h))
  | inr room ↦
      let e : queue ++ msg ∷ [] ≡ longer = ok-injective (rw room at h) in
      let len : length longer ≡ suc (length queue) =
        omega (arith, ap length e, length-append queue (msg ∷ [])) in
      (len, ground (arith, len))
]
length-push queue longer msg (some random) max_inbox h =
    elim (Bool-cases (leb max_inbox (length queue))) [
      | inl full ↦ absurd (cc (rw full at h))
      | inr room ↦ elim (Bool-cases (length queue == 0)) [
        | inl empty ↦
            let e : queue ++ msg ∷ [] ≡ longer = ok-injective (rw (room, empty) at h) in
            let len : length longer ≡ suc (length queue) =
              omega (arith, ap length e, length-append queue (msg ∷ [])) in
            (len, ground (arith, len))
        | inr some_queue ↦
            let e : insert_at (random % suc (length queue)) msg queue ≡ longer =
              ok-injective (rw (room, some_queue) at h) in
            let len : length longer ≡ suc (length queue) =
              omega
                (arith, ap length e, length-insert_at (random % suc (length queue)) msg queue) in
            (len, ground (arith, len))
      ]
    ]

length-deliver :
    (queue : List Message) (msg : Message) (reorder_value : Option ℕ) (max_inbox : ℕ)
    → length queue ≤ max_inbox
    → length (deliver queue msg reorder_value max_inbox).0 ≤ max_inbox
unfolding deliver
length-deliver queue msg reorder_value max_inbox h =
    pushed (push_message_limited queue msg reorder_value max_inbox) refl
  where
    pushed :
        (r : Result TransportError (List Message))
        → push_message_limited queue msg reorder_value max_inbox ≡ r
        → length
            (elim r as (λ x. List Message × Result TransportError (Unit {0})) [
              | err reason ↦ (queue, err reason)
              | ok longer ↦ (longer, ok tt)
            ]).0
          ≤ max_inbox
    pushed (err reason) e = h
    pushed (ok longer) e = (length-push queue longer msg reorder_value max_inbox e).1

length-deliver_copies :
    (queue : List Message) (msg : Message) (reorder_value : Option ℕ) (max_inbox : ℕ)
    (duplicated : Bool)
    → length queue ≤ max_inbox
    → length (deliver_copies queue msg reorder_value max_inbox duplicated).0 ≤ max_inbox
unfolding deliver_copies
length-deliver_copies queue msg reorder_value max_inbox false h =
    length-deliver queue msg reorder_value max_inbox h
length-deliver_copies queue msg reorder_value max_inbox true h =
    second (deliver queue msg reorder_value max_inbox)
      (length-deliver queue msg reorder_value max_inbox h)
  where
    second :
        (first : List Message × Result TransportError (Unit {0}))
        → length first.0 ≤ max_inbox
        → length
            (elim first.1 as (λ x. List Message × Result TransportError (Unit {0})) [
              | err reason ↦ first
              | ok done ↦ deliver first.0 msg reorder_value max_inbox
            ]).0
          ≤ max_inbox
    second (longer, err reason) k = k
    second (longer, ok done) k = length-deliver longer msg reorder_value max_inbox k

-- Every inbox holds at most so many messages.
unfoldable pub IsWithin : ℕ → List (Text × List Message) → Type 0
IsWithin max_inbox = All (λ entry. length entry.1 ≤ max_inbox)

pub inbox_of-IsWithin :
    (max_inbox : ℕ) (role : Text) (inboxes : List (Text × List Message)) (queue : List Message)
    → IsWithin max_inbox inboxes
    → inbox_of role inboxes ≡ some queue
    → length queue ≤ max_inbox
unfolding IsWithin inbox_of
inbox_of-IsWithin max_inbox role [] queue h e = absurd (cc)
inbox_of-IsWithin max_inbox role ((name, old) ∷ rest) queue (h, hs) e =
    elim (Bool-cases (text_eq name role)) [
      | inl same ↦ let found : old ≡ queue = cc (rw same at e) in rw (sym found) h
      | inr other ↦ inbox_of-IsWithin max_inbox role rest queue hs (rw other at e)
    ]

pub set_inbox-IsWithin :
    (max_inbox : ℕ) (role : Text) (queue : List Message) (inboxes : List (Text × List Message))
    → length queue ≤ max_inbox
    → IsWithin max_inbox inboxes
    → IsWithin max_inbox (set_inbox role queue inboxes)
unfolding IsWithin set_inbox
set_inbox-IsWithin max_inbox role queue [] k h = tt
set_inbox-IsWithin max_inbox role queue ((name, old) ∷ rest) k (h, hs) =
    elim (Bool-cases (text_eq name role)) [
      | inl same ↦ rw same (k, hs)
      | inr other ↦ rw other (h, set_inbox-IsWithin max_inbox role queue rest k hs)
    ]

Touches-IsWithin :
    (max_inbox : ℕ) (to : Text) (before later : List (Text × List Message))
    → Touches max_inbox to before later
    → IsWithin max_inbox before
    → IsWithin max_inbox later
unfolding Touches
Touches-IsWithin max_inbox to before later (inl same) h = rw same h
Touches-IsWithin max_inbox to before later (inr d) h = rw (Delivers.stored d) (
    set_inbox-IsWithin max_inbox to _ before
      (length-deliver_copies (Delivers.queue d) (Delivers.msg d) (Delivers.reorder_value d)
        max_inbox (Delivers.duplicated d)
        (inbox_of-IsWithin max_inbox to before (Delivers.queue d) h (Delivers.found d)))
      h)

after-IsWithin :
    (config : TransportConfig) (limits : ResourceLimits) (virtual_time : Bool) (event : Event)
    (net : Network)
    → IsWithin (ResourceLimits.max_inbox limits) (Network.inboxes net)
    → IsWithin
        (ResourceLimits.max_inbox limits)
        (Network.inboxes (after config limits virtual_time event net))
unfolding after
after-IsWithin config limits virtual_time (send to msg extra_delay_ms step) net h =
    Touches-IsWithin (ResourceLimits.max_inbox limits) to (Network.inboxes net) _
      (send_scoped-Touches config limits virtual_time to msg extra_delay_ms step net) h
after-IsWithin config limits virtual_time (work worker) net h =
    Touches-IsWithin (ResourceLimits.max_inbox limits) (Delivery.to worker) (Network.inboxes net) _
      (run_worker-Touches limits worker net) h

after_all-kept :
    (config : TransportConfig) (limits : ResourceLimits) (virtual_time : Bool) (events : List Event)
    (net : Network)
    → IsWithin (ResourceLimits.max_inbox limits) (Network.inboxes net)
    → IsWithin
        (ResourceLimits.max_inbox limits)
        (Network.inboxes (after_all config limits virtual_time events net))
unfolding after_all
after_all-kept config limits virtual_time [] net h = h
after_all-kept config limits virtual_time (event ∷ events) net h =
    after_all-kept config limits virtual_time events (after config limits virtual_time event net)
      (after-IsWithin config limits virtual_time event net h)

pub with_options-IsWithin :
    (max_inbox : ℕ) (roles : List Text) → IsWithin max_inbox (map (λ role. (role, [])) roles)
unfolding IsWithin
with_options-IsWithin max_inbox [] = tt
with_options-IsWithin max_inbox (role ∷ roles) =
    (omega arith, with_options-IsWithin max_inbox roles)

-- On a new network, whatever is sent, whatever the faults do and in whatever order workers deliver,
-- no inbox ever holds more than max_inbox messages.
pub after_all-IsWithin :
    (config : TransportConfig) (limits : ResourceLimits) (virtual_time : Bool) (roles : List Text)
    (random_seed : ℕ) (events : List Event)
    → IsWithin (ResourceLimits.max_inbox limits) (
        Network.inboxes
          (after_all config limits virtual_time events (with_options roles random_seed)))
unfolding with_options
after_all-IsWithin config limits virtual_time roles random_seed events =
    after_all-kept config limits virtual_time events (with_options roles random_seed)
      (with_options-IsWithin (ResourceLimits.max_inbox limits) roles)
