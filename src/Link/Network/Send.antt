-- ===== src/Link/Network/Send.antt =====
-- send_scoped of src/transport.rs on the simulated network, and the workers that deliver later. A
-- function that fails returns the network too, since what it did before stays done.
pub mod Keeps
pub mod Touched
pub mod Bounded
pub mod Burst
pub mod Perfect
pub mod Fifo
use tcpform_protocol_lab.Base.{
  ℕ, zero, suc, ◌+◌, ◌-◌, ◌%◌, ◌^◌, List, [], ◌∷◌, ◌++◌, map, Option, none, some, Bool, true, false,
  ◌&&◌, ◌||◌, length, ltb, leb, ◌==◌, Result, err, ok, ◌>>=◌, if◌then◌else◌,
}
use tcpform_protocol_lab.Wire.Values.{Text, Message, text_eq}
use tcpform_protocol_lab.Link.Errors.{
  TransportError, unknown_destination, ports_exhausted, disconnected, payload_too_large,
  payload_above_mtu, destination_full,
}
use tcpform_protocol_lab.Link.Inbox.{push_message_limited}
use tcpform_protocol_lab.Link.Network.{
  TransportConfig, ResourceLimits, DeliveryReport, Delivery, Network, next_random_u64, roll,
  is_eligible, payload_len, nat_address, nat_port, corrupt_if, total_delay, sat_add,
}

-- self.inboxes.get
unfoldable pub inbox_of : Text → List (Text × List Message) → Option (List Message)
inbox_of role [] = none
inbox_of role ((name, queue) ∷ rest) = if text_eq name role then some queue else inbox_of role rest

-- The inbox of a role, written.
unfoldable pub set_inbox :
    Text → List Message → List (Text × List Message) → List (Text × List Message)
set_inbox role queue [] = []
set_inbox role queue ((name, old) ∷ rest) =
    let later = set_inbox role queue rest in
    if text_eq name role then (name, queue) ∷ rest else (name, old) ∷ later

-- deliver_copies without a socket, with the inbox that it leaves.
unfoldable pub deliver :
    List Message → Message → Option ℕ → ℕ → List Message × Result TransportError (Unit {0})
deliver queue msg reorder_value max_inbox =
    elim (push_message_limited queue msg reorder_value max_inbox) [
      | err reason ↦ (queue, err reason)
      | ok longer ↦ (longer, ok tt)
    ]

unfoldable pub deliver_copies :
    List Message → Message → Option ℕ → ℕ → Bool → List Message × Result TransportError (Unit {0})
deliver_copies queue msg reorder_value max_inbox false = deliver queue msg reorder_value max_inbox
deliver_copies queue msg reorder_value max_inbox true =
    let first = deliver queue msg reorder_value max_inbox in
    elim first.1 [ err reason ↦ first | ok done ↦ deliver first.0 msg reorder_value max_inbox ]

-- burst_remaining.store, where the test holds.
unfoldable pub with_burst : Bool → ℕ → Network → Network
with_burst true remaining net = record net { burst_remaining = remaining }
with_burst false remaining net = net

-- The losses: whether the message is dropped.
unfoldable pub fate : TransportConfig → Bool → ℕ → Network → Network × Result TransportError Bool
fate config eligible ordinal net =
    let burst = eligible && ltb 0 (Network.burst_remaining net) in
    let after_burst = with_burst burst (Network.burst_remaining net - 1) net in
    let rolled = roll eligible (TransportConfig.loss_rate config) after_burst in
    let nth_drop =
      eligible
      && (ltb 0 (TransportConfig.drop_nth config)
          && (ordinal == TransportConfig.drop_nth config)) in
    if eligible
      && (ltb 0 (TransportConfig.port_capacity config)
          && ltb (TransportConfig.port_capacity config) ordinal)
    then (net, err ports_exhausted)
    else if eligible
        && (ltb 0 (TransportConfig.disconnect_nth config)
            && (ordinal == TransportConfig.disconnect_nth config))
    then (rolled.1, err disconnected)
    else (
      with_burst (rolled.0 && ltb 1 (TransportConfig.burst_loss config))
          (TransportConfig.burst_loss config - 1) rolled.1,
      ok (burst || (rolled.0 || nth_drop)),
    )

-- What the random draws decide for a message that is not lost.
pub record Draws : Type 0 where
  pub corrupted : Bool
  pub duplicated : Bool
  pub jitter : ℕ
  pub reorder_value : Option ℕ
  pub network : Network

unfoldable pub draws : TransportConfig → Bool → Network → Draws
draws config eligible net =
    let corrupt = roll eligible (TransportConfig.corrupt_rate config) net in
    let double = roll eligible (TransportConfig.duplicate_rate config) corrupt.1 in
    let jitter =
      if TransportConfig.jitter_ms config == 0 then (0, double.1) else next_random_u64 double.1 in
    let order = next_random_u64 jitter.1 in
    record {
      corrupted = corrupt.0;
      duplicated = double.0;
      jitter = jitter.0;
      reorder_value = if TransportConfig.reorder config then some order.0 else none;
      network = if TransportConfig.reorder config then order.1 else jitter.1;
    }

-- The message as it arrives.
unfoldable pub altered : TransportConfig → Draws → Message → Message
altered config d msg = corrupt_if (Draws.corrupted d) (
    nat_port (TransportConfig.nat_source_port config)
      (nat_address (TransportConfig.nat_source_ip config) msg))

abbrev Sent : Type 0
Sent = Network × Result TransportError DeliveryReport

-- The copies go into the inbox at once, or with a worker that sleeps first.
unfoldable pub hand_over : ResourceLimits → Bool → Text → List Message → Message → Draws → ℕ → Sent
hand_over limits virtual_time to queue msg d delay =
    let net = Draws.network d in
    let done : DeliveryReport = record {
      dropped = false;
      delay_ms = delay;
      reordered = elim (Draws.reorder_value d) [ none ↦ false | some r ↦ true ];
      duplicated = Draws.duplicated d;
      corrupted = Draws.corrupted d;
    } in
    let delivered =
      deliver_copies queue msg (Draws.reorder_value d) (ResourceLimits.max_inbox limits)
        (Draws.duplicated d) in
    let worker : Delivery = record {
      to = to;
      msg = msg;
      reorder_value = Draws.reorder_value d;
      duplicated = Draws.duplicated d;
    } in
    if virtual_time || (delay == 0)
    then (
      record net { inboxes = set_inbox to delivered.0 (Network.inboxes net) },
      (delivered.1 >>= λ sent. ok done),
    )
    else (record net { workers = Network.workers net ++ worker ∷ [] }, ok done)

-- The part of send_scoped behind the losses.
unfoldable pub send_through :
    TransportConfig
    → ResourceLimits
    → Bool
    → Text
    → List Message
    → Message
    → ℕ
    → Bool
    → ℕ
    → Network
    → Sent
send_through config limits virtual_time to queue msg extra_delay_ms eligible ordinal net =
    let d = draws config eligible net in
    let arrives = altered config d msg in
    let len = payload_len arrives in
    let delay = total_delay config eligible ordinal extra_delay_ms (Draws.jitter d) len in
    let too_long = ltb 0 (TransportConfig.mtu config) && ltb (TransportConfig.mtu config) len in
    if ltb (ResourceLimits.max_payload limits) len
    then (Draws.network d, err payload_too_large)
    else if too_long && TransportConfig.mtu_blackhole config
    then (
      Draws.network d,
      ok (record {
        dropped = true;
        delay_ms = delay;
        reordered = false;
        duplicated = false;
        corrupted = Draws.corrupted d;
      }),
    )
    else if too_long
    then (Draws.network d, err payload_above_mtu)
    else if leb (ResourceLimits.max_inbox limits) (length queue)
    then (Draws.network d, err destination_full)
    else hand_over limits virtual_time to queue arrives d delay

-- The report of a message that the losses took.
abbrev pub lost : TransportConfig → ℕ → DeliveryReport
lost config extra_delay_ms = record {
  dropped = true;
  delay_ms = sat_add (TransportConfig.delay_ms config) extra_delay_ms;
  reordered = false;
  duplicated = false;
  corrupted = false;
}

-- What the losses leave to do.
unfoldable pub send_after :
    TransportConfig
    → ResourceLimits
    → Bool
    → Text
    → List Message
    → Message
    → ℕ
    → Bool
    → ℕ
    → Network × Result TransportError Bool
    → Sent
send_after config limits virtual_time to queue msg extra_delay_ms eligible ordinal
      (net, err reason) =
    (net, err reason)
send_after config limits virtual_time to queue msg extra_delay_ms eligible ordinal (net, ok true) =
    (net, ok (lost config extra_delay_ms))
send_after config limits virtual_time to queue msg extra_delay_ms eligible ordinal (net, ok false) =
    send_through config limits virtual_time to queue msg extra_delay_ms eligible ordinal net

-- A send to a role that is there, whose eligibility is known.
unfoldable pub send_to :
    TransportConfig
    → ResourceLimits
    → Bool
    → Text
    → List Message
    → Message
    → ℕ
    → Bool
    → Network
    → Sent
send_to config limits virtual_time to queue msg extra_delay_ms eligible net =
    let next = (Network.send_counter net + 1) % 2 ^ 64 in
    let ordinal = if eligible then next else 0 in
    let counted = if eligible then record net { send_counter = next } else net in
    send_after config limits virtual_time to queue msg extra_delay_ms eligible ordinal
      (fate config eligible ordinal counted)

unfoldable pub send_scoped :
    TransportConfig → ResourceLimits → Bool → Text → Message → ℕ → Option Text → Network → Sent
send_scoped config limits virtual_time to msg extra_delay_ms step net =
    elim (inbox_of to (Network.inboxes net)) [
      | none ↦ (net, err unknown_destination)
      | some queue ↦
          send_to config limits virtual_time to queue msg extra_delay_ms
            (is_eligible config msg step) net
    ]

-- A worker that has slept.
unfoldable pub run_worker : ResourceLimits → Delivery → Network → Network
run_worker limits worker net = elim (inbox_of (Delivery.to worker) (Network.inboxes net)) [
  | none ↦ net
  | some queue ↦
      let delivered =
        deliver_copies queue (Delivery.msg worker) (Delivery.reorder_value worker)
          (ResourceLimits.max_inbox limits) (Delivery.duplicated worker) in
      record net {
        inboxes = set_inbox (Delivery.to worker) delivered.0 (Network.inboxes net);
        worker_errors = elim delivered.1 [
          | err reason ↦ Network.worker_errors net ++ reason ∷ []
          | ok done ↦ Network.worker_errors net
        ];
      }
]

-- A transport with an empty inbox for each role.
unfoldable pub with_options : List Text → ℕ → Network
with_options roles random_seed = record {
  inboxes = map (λ role. (role, [])) roles;
  random_counter = random_seed;
  send_counter = 0;
  burst_remaining = 0;
  workers = [];
  worker_errors = [];
}

-- What happens to a network: sends, and workers that have slept, in any order.
pub data Event : Type 0 where
  send : Text → Message → ℕ → Option Text → Event
  work : Delivery → Event

unfoldable pub after : TransportConfig → ResourceLimits → Bool → Event → Network → Network
after config limits virtual_time (send to msg extra_delay_ms step) net =
    (send_scoped config limits virtual_time to msg extra_delay_ms step net).0
after config limits virtual_time (work worker) net = run_worker limits worker net

unfoldable pub after_all : TransportConfig → ResourceLimits → Bool → List Event → Network → Network
after_all config limits virtual_time [] net = net
after_all config limits virtual_time (event ∷ events) net =
    after_all config limits virtual_time events (after config limits virtual_time event net)
