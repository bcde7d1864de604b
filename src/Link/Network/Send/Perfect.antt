-- ===== src/Link/Network/Send/Perfect.antt =====
-- One send of src/transport.rs on a network without faults.
use tcpform_protocol_lab.Base.{
  ℕ, ◌+◌, ◌%◌, ◌^◌, ◌≤◌, ◌<◌, ◌≡◌, refl, ◌∙◌, List, [], ◌∷◌, ◌++◌, Option, none, some, Bool, true,
  false, ◌&&◌, length, leb, ltb, arith, Result, ok,
}
use tcpform_protocol_lab.Wire.Values.{Text, Message}
use tcpform_protocol_lab.Link.Errors.{TransportError}
use tcpform_protocol_lab.Link.Inbox.Room.{push-room}
use tcpform_protocol_lab.Link.Network.{
  TransportConfig, ResourceLimits, DeliveryReport, Network, roll, payload_len, total_delay,
  is_eligible, nat_address, nat_port,
}
use tcpform_protocol_lab.Link.Network.Send.{
  inbox_of, set_inbox, deliver, deliver_copies, with_burst, fate, Draws, draws, altered, hand_over,
  send_through, send_after, send_to, send_scoped,
}
use tcpform_protocol_lab.Link.Network.Send.Keeps.{KeepsState, draws-KeepsState}

-- No loss, no change, no reordering; delays are allowed.
pub record IsPerfect (config : TransportConfig) : Type 0 where
  pub loss_rate : TransportConfig.loss_rate config ≡ 0
  pub reorder : TransportConfig.reorder config ≡ false
  pub mtu : TransportConfig.mtu config ≡ 0
  pub duplicate_rate : TransportConfig.duplicate_rate config ≡ 0
  pub corrupt_rate : TransportConfig.corrupt_rate config ≡ 0
  pub drop_nth : TransportConfig.drop_nth config ≡ 0
  pub disconnect_nth : TransportConfig.disconnect_nth config ≡ 0
  pub port_capacity : TransportConfig.port_capacity config ≡ 0
  pub nat_source_ip : TransportConfig.nat_source_ip config ≡ none
  pub nat_source_port : TransportConfig.nat_source_port config ≡ none

roll-zero : (eligible : Bool) (net : Network) → roll eligible 0 net ≡ (false, net)
unfolding roll
roll-zero true net = refl
roll-zero false net = refl

fate-IsPerfect :
    (config : TransportConfig) (eligible : Bool) (ordinal : ℕ) (net : Network)
    → IsPerfect config
    → Network.burst_remaining net ≡ 0
    → fate config eligible ordinal net ≡ (net, ok false)
unfolding fate with_burst roll
fate-IsPerfect config true ordinal net h b =
    rw
      (
        IsPerfect.port_capacity h,
        IsPerfect.disconnect_nth h,
        IsPerfect.drop_nth h,
        b,
        IsPerfect.loss_rate h,
      )
      refl
fate-IsPerfect config false ordinal net h b = refl

-- What the draws leave of a message.
pub record IsUntouched (d : Draws) : Type 0 where
  pub corrupted : Draws.corrupted d ≡ false
  pub duplicated : Draws.duplicated d ≡ false
  pub reorder_value : Draws.reorder_value d ≡ none

draws-IsUntouched :
    (config : TransportConfig) (eligible : Bool) (net : Network)
    → IsPerfect config
    → IsUntouched (draws config eligible net)
unfolding draws
draws-IsUntouched config eligible net h = record {
  corrupted = rw (IsPerfect.corrupt_rate h, roll-zero eligible net) refl;
  duplicated =
      rw
        (
          IsPerfect.corrupt_rate h,
          roll-zero eligible net,
          IsPerfect.duplicate_rate h,
          roll-zero eligible net,
        )
        refl;
  reorder_value = rw (IsPerfect.reorder h) refl;
}

altered-IsUntouched :
    (config : TransportConfig) (d : Draws) (msg : Message)
    → IsPerfect config
    → IsUntouched d
    → altered config d msg ≡ msg
unfolding altered nat_address nat_port
altered-IsUntouched config d msg h u =
    rw (IsUntouched.corrupted u, IsPerfect.nat_source_ip h, IsPerfect.nat_source_port h) refl

-- The message stands at the end of the inbox, the report says so, and no burst has begun.
pub record IsAppended (to : Text) (queue : List Message) (msg : Message) (net : Network)
    (sent : Network × Result TransportError DeliveryReport) : Type 0 where
  pub report : DeliveryReport
  pub succeeds : sent.1 ≡ ok report
  pub delivered : DeliveryReport.dropped report ≡ false
  pub stored : Network.inboxes sent.0 ≡ set_inbox to (queue ++ msg ∷ []) (Network.inboxes net)
  pub no_burst : Network.burst_remaining sent.0 ≡ 0

deliver_copies-room :
    (queue : List Message) (msg : Message) (d : Draws) (max_inbox : ℕ)
    → IsUntouched d
    → length queue < max_inbox
    → deliver_copies queue msg (Draws.reorder_value d) max_inbox (Draws.duplicated d)
      ≡ (queue ++ msg ∷ [], ok tt)
unfolding deliver_copies deliver
deliver_copies-room queue msg d max_inbox u room =
    rw
      (
        IsUntouched.duplicated u,
        IsUntouched.reorder_value u,
        deliver,
        push-room queue msg max_inbox room,
      )
      refl

hand_over-IsAppended :
    (limits : ResourceLimits) (to : Text) (queue : List Message) (msg : Message) (d : Draws)
    (delay : ℕ) (net : Network)
    → IsUntouched d
    → KeepsState net (Draws.network d)
    → Network.burst_remaining net ≡ 0
    → length queue < ResourceLimits.max_inbox limits
    → IsAppended to queue msg net (hand_over limits true to queue msg d delay)
unfolding hand_over
hand_over-IsAppended limits to queue msg d delay net u k b room =
    let pushed : deliver_copies queue msg (Draws.reorder_value d) (ResourceLimits.max_inbox limits)
          (Draws.duplicated d)
        ≡ (queue ++ msg ∷ [], ok tt) =
      deliver_copies-room queue msg d (ResourceLimits.max_inbox limits) u room in
    record {
      report = record {
        dropped = false;
        delay_ms = delay;
        reordered = elim (Draws.reorder_value d) [ none ↦ false | some r ↦ true ];
        duplicated = Draws.duplicated d;
        corrupted = Draws.corrupted d;
      };
      succeeds = rw pushed refl;
      delivered = refl;
      stored = rw (pushed, KeepsState.inboxes k) refl;
      no_burst = KeepsState.burst_remaining k ∙ b;
    }

send_through-IsAppended :
    (config : TransportConfig) (limits : ResourceLimits) (to : Text) (queue : List Message)
    (msg : Message) (extra_delay_ms : ℕ) (eligible : Bool) (ordinal : ℕ) (net : Network)
    → IsPerfect config
    → Network.burst_remaining net ≡ 0
    → length queue < ResourceLimits.max_inbox limits
    → payload_len msg ≤ ResourceLimits.max_payload limits
    → IsAppended to queue msg net
        (send_through config limits true to queue msg extra_delay_ms eligible ordinal net)
unfolding send_through
send_through-IsAppended config limits to queue msg extra_delay_ms eligible ordinal net h b room
      fits =
    let d : Draws = draws config eligible net in
    let u : IsUntouched d = draws-IsUntouched config eligible net h in
    let short : ltb (ResourceLimits.max_payload limits) (payload_len msg) ≡ false = ground arith in
    let free : leb (ResourceLimits.max_inbox limits) (length queue) ≡ false = ground arith in
    let long : Bool =
      ltb 0 (TransportConfig.mtu config) && ltb (TransportConfig.mtu config) (payload_len msg) in
    let no_mtu : long ≡ false = rw (IsPerfect.mtu h) refl in
    let no_hole : (long && TransportConfig.mtu_blackhole config) ≡ false = rw no_mtu refl in
    rw (altered-IsUntouched config d msg h u, short, no_hole, no_mtu, free)
      (hand_over-IsAppended limits to queue msg d
        (total_delay config eligible ordinal extra_delay_ms (Draws.jitter d) (payload_len msg)) net
        u (draws-KeepsState config eligible net) b room)

send_to-IsAppended :
    (config : TransportConfig) (limits : ResourceLimits) (to : Text) (queue : List Message)
    (msg : Message) (extra_delay_ms : ℕ) (eligible : Bool) (net : Network)
    → IsPerfect config
    → Network.burst_remaining net ≡ 0
    → length queue < ResourceLimits.max_inbox limits
    → payload_len msg ≤ ResourceLimits.max_payload limits
    → IsAppended to queue msg net
        (send_to config limits true to queue msg extra_delay_ms eligible net)
unfolding send_to send_after
send_to-IsAppended config limits to queue msg extra_delay_ms true net h b room fits =
    let next : ℕ = (Network.send_counter net + 1) % 2 ^ 64 in
    let counted : Network = record net { send_counter = next } in
    let sent : IsAppended to queue msg counted
        (send_through config limits true to queue msg extra_delay_ms true next counted) =
      send_through-IsAppended config limits to queue msg extra_delay_ms true next counted h b room
        fits in
    rw (send_to, fate-IsPerfect config true next counted h b)
      (record {
        report = IsAppended.report sent;
        succeeds = IsAppended.succeeds sent;
        delivered = IsAppended.delivered sent;
        stored = IsAppended.stored sent;
        no_burst = IsAppended.no_burst sent;
      })
send_to-IsAppended config limits to queue msg extra_delay_ms false net h b room fits =
    rw (send_to, fate-IsPerfect config false 0 net h b)
      (send_through-IsAppended config limits to queue msg extra_delay_ms false 0 net h b room fits)

-- On a network without faults, in virtual time, a message whose payload the limits allow, to a role
-- whose inbox has room, is delivered at once: it stands at the end of that inbox, no other inbox
-- changes, and the report says that it was not dropped.
pub send_scoped-IsAppended :
    (config : TransportConfig) (limits : ResourceLimits) (to : Text) (queue : List Message)
    (msg : Message) (extra_delay_ms : ℕ) (step : Option Text) (net : Network)
    → IsPerfect config
    → Network.burst_remaining net ≡ 0
    → inbox_of to (Network.inboxes net) ≡ some queue
    → length queue < ResourceLimits.max_inbox limits
    → payload_len msg ≤ ResourceLimits.max_payload limits
    → IsAppended to queue msg net (send_scoped config limits true to msg extra_delay_ms step net)
unfolding send_scoped
send_scoped-IsAppended config limits to queue msg extra_delay_ms step net h b e room fits =
    rw (e, send_scoped)
      (send_to-IsAppended config limits to queue msg extra_delay_ms (is_eligible config msg step)
        net h b room fits)
