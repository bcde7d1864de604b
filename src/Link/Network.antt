-- ===== src/Link/Network.antt =====
-- The simulated network of src/transport.rs: its state, its random numbers, and what its faults do to
-- a message. A rate, a f64, is the least number of 53 random bits that is not below it.
pub mod Send
use tcpform_protocol_lab.Base.{
  ℕ, zero, suc, ◌+◌, ◌-◌, ◌*◌, ◌/◌, ◌%◌, ◌^◌, min, bit_xor, List, [], ◌∷◌, ◌++◌, Option, none, some,
  Bool, true, false, ◌&&◌, ◌||◌, not, length, drop, ltb, leb, ◌==◌, if◌then◌else◌,
}
use tcpform_protocol_lab.Wire.Values.{
  Text, Value, Fields, Message, string, number, text_eq, insert, get, utf8_tail,
}
use tcpform_protocol_lab.Link.Errors.{TransportError}
use tcpform_protocol_lab.Link.Inbox.{replacement}

-- The fields of TransportConfig that send_scoped reads; fault_when is fault_predicate_matches at the
-- predicate of the configuration.
pub record TransportConfig : Type 0 where
  pub loss_rate : ℕ
  pub delay_ms : ℕ
  pub reorder : Bool
  pub jitter_ms : ℕ
  pub bandwidth_bps : ℕ
  pub bandwidth_after_nth : ℕ
  pub bandwidth_after_bps : ℕ
  pub mtu : ℕ
  pub burst_loss : ℕ
  pub duplicate_rate : ℕ
  pub corrupt_rate : ℕ
  pub drop_nth : ℕ
  pub disconnect_nth : ℕ
  pub delay_spike_nth : ℕ
  pub delay_spike_ms : ℕ
  pub mtu_blackhole : Bool
  pub port_capacity : ℕ
  pub nat_source_ip : Option Text
  pub nat_source_port : Option ℕ
  pub fault_steps : List Text
  pub fault_flag : Option Text
  pub fault_when : Option (Message → Bool)

pub record ResourceLimits : Type 0 where
  pub max_inbox : ℕ
  pub max_payload : ℕ

pub record DeliveryReport : Type 0 where
  pub dropped : Bool
  pub delay_ms : ℕ
  pub reordered : Bool
  pub duplicated : Bool
  pub corrupted : Bool

-- A message on its way, under a worker that sleeps first.
pub record Delivery : Type 0 where
  pub to : Text
  pub msg : Message
  pub reorder_value : Option ℕ
  pub duplicated : Bool

-- The fields of Transport that a simulated run changes.
pub record Network : Type 0 where
  pub inboxes : List (Text × List Message)
  pub random_counter : ℕ
  pub send_counter : ℕ
  pub burst_remaining : ℕ
  pub workers : List Delivery
  pub worker_errors : List TransportError

abbrev pub u64_max : ℕ
u64_max = 2 ^ 64 - 1

-- u64::saturating_add and u64::saturating_mul
abbrev pub sat_add : ℕ → ℕ → ℕ
sat_add a b = min (a + b) u64_max

abbrev sat_mul : ℕ → ℕ → ℕ
sat_mul a b = min (a * b) u64_max

-- SplitMix64 of an advanced counter.
unfoldable pub mix : ℕ → ℕ
mix counter =
    let first = bit_xor counter (counter / 2 ^ 30) * 0xbf58476d1ce4e5b9 % 2 ^ 64 in
    let second = bit_xor first (first / 2 ^ 27) * 0x94d049bb133111eb % 2 ^ 64 in
    bit_xor second (second / 2 ^ 31)

unfoldable pub next_random_u64 : Network → ℕ × Network
next_random_u64 net =
    let counter = (Network.random_counter net + 0x9e3779b97f4a7c15) % 2 ^ 64 in
    (mix counter, record net { random_counter = counter })

-- `eligible && rate > 0.0 && self.next_random() < rate`
unfoldable pub roll : Bool → ℕ → Network → Bool × Network
roll eligible rate net =
    let drawn = next_random_u64 net in
    if eligible && ltb 0 rate then (ltb (drawn.0 / 2 ^ 11) rate, drawn.1) else (false, net)

-- `map_or(true, ...)` and `any(|item| item == name)`
abbrev any_text : List Text → Text → Bool
any_text [] name = false
any_text (item ∷ items) name = text_eq item name || any_text items name

abbrev in_scope : List Text → Option Text → Bool
in_scope [] step = true
in_scope (item ∷ items) none = false
in_scope (item ∷ items) (some name) = any_text (item ∷ items) name

abbrev flag_allows : Option Text → Message → Bool
flag_allows none msg = true
flag_allows (some flag) msg = any_text (Message.flags msg) flag

abbrev predicate_allows : Option (Message → Bool) → Message → Bool
predicate_allows none msg = true
predicate_allows (some matches) msg = matches msg

unfoldable pub is_eligible : TransportConfig → Message → Option Text → Bool
is_eligible config msg step =
    in_scope (TransportConfig.fault_steps config) step
    && (flag_allows (TransportConfig.fault_flag config) msg
        && predicate_allows (TransportConfig.fault_when config) msg)

unfoldable pub payload_len : Message → ℕ
payload_len msg =
    if not (length (Message.raw msg) == 0)
    then length (Message.raw msg)
    else length (Message.payload msg)

-- The bits of `n as f64` for a number below 2 ^ 53, where `n` is not below 2 ^ exponent.
abbrev log2_below : ℕ → ℕ → ℕ
log2_below zero n = 0
log2_below (suc fuel) n = if ltb n 2 then 0 else suc (log2_below fuel (n / 2))

unfoldable pub f64_bits : ℕ → ℕ
f64_bits n =
    let exponent = log2_below 53 n in
    if n == 0 then 0 else (1023 + exponent) * 2 ^ 52 + (n - 2 ^ exponent) * 2 ^ (52 - exponent)

-- msg.fields.insert, where the key is there.
unfoldable pub replace_fields : List Text → Value → Fields → Fields
replace_fields [] v fields = fields
replace_fields (key ∷ keys) v fields = elim (get key fields) [
  | none ↦ replace_fields keys v fields
  | some old ↦ replace_fields keys v (insert key v fields)
]

-- The names of fields, as octets.
abbrev pub ip_source : Text
ip_source = 105 ∷ 112 ∷ 46 ∷ 115 ∷ 111 ∷ 117 ∷ 114 ∷ 99 ∷ 101 ∷ []

abbrev pub ipv4_source : Text
ipv4_source = 105 ∷ 112 ∷ 118 ∷ 52 ∷ 46 ∷ 115 ∷ 111 ∷ 117 ∷ 114 ∷ 99 ∷ 101 ∷ []

abbrev pub ipv6_source : Text
ipv6_source = 105 ∷ 112 ∷ 118 ∷ 54 ∷ 46 ∷ 115 ∷ 111 ∷ 117 ∷ 114 ∷ 99 ∷ 101 ∷ []

abbrev pub nat_original_role : Text
nat_original_role =
    110 ∷ 97 ∷ 116 ∷ 46 ∷ 111 ∷ 114 ∷ 105 ∷ 103 ∷ 105 ∷ 110 ∷ 97 ∷ 108 ∷ 95 ∷ 114 ∷ 111 ∷ 108 ∷ 101
    ∷ []

abbrev pub tcp_source_port : Text
tcp_source_port =
    116 ∷ 99 ∷ 112 ∷ 46 ∷ 115 ∷ 111 ∷ 117 ∷ 114 ∷ 99 ∷ 101 ∷ 95 ∷ 112 ∷ 111 ∷ 114 ∷ 116 ∷ []

abbrev pub udp_source_port : Text
udp_source_port =
    117 ∷ 100 ∷ 112 ∷ 46 ∷ 115 ∷ 111 ∷ 117 ∷ 114 ∷ 99 ∷ 101 ∷ 95 ∷ 112 ∷ 111 ∷ 114 ∷ 116 ∷ []

-- What NAT rewrites.
unfoldable pub nat_address : Option Text → Message → Message
nat_address none msg = msg
nat_address (some address) msg = record msg {
  fields = insert nat_original_role (string (Message.from msg)) (
      replace_fields (ip_source ∷ ipv4_source ∷ ipv6_source ∷ []) (string address)
        (Message.fields msg));
}

unfoldable pub nat_port : Option ℕ → Message → Message
nat_port none msg = msg
nat_port (some port) msg = record msg {
  fields =
      replace_fields (tcp_source_port ∷ udp_source_port ∷ []) (number (f64_bits port))
        (Message.fields msg);
}

-- `chars().next().map(char::len_utf8)`, by the first octet of a text.
abbrev char_len : ℕ → ℕ
char_len b = elim (utf8_tail b) [ none ↦ 0 | some ranges ↦ suc (length ranges) ]

unfoldable pub damage_text : Text → Text
damage_text [] = []
damage_text (b ∷ bs) = replacement ++ drop (char_len b) (b ∷ bs)

unfoldable pub damage : List ℕ → Message → Message
damage [] msg = record msg { payload = damage_text (Message.payload msg) }
damage (first ∷ rest) msg = record msg { raw = bit_xor first 0x80 ∷ rest }

abbrev pub corrupt_if : Bool → Message → Message
corrupt_if true msg = damage (Message.raw msg) msg
corrupt_if false msg = msg

-- The delay that jitter, a spike and the bandwidth make, where `draw` is the number drawn for the
-- jitter.
unfoldable pub with_jitter : ℕ → ℕ → ℕ → ℕ
with_jitter jitter_ms draw base =
    if jitter_ms == 0
    then base
    else min (base + draw % sat_add (sat_mul jitter_ms 2) 1 - jitter_ms) u64_max

unfoldable pub serialization : ℕ → ℕ → ℕ
serialization bandwidth len =
    let bits = sat_mul (sat_mul len 8) 1000 in
    elim bandwidth [ zero ↦ 0 | suc less ↦ (bits + less) / suc less ]

unfoldable pub bandwidth_at : TransportConfig → ℕ → ℕ
bandwidth_at config ordinal =
    if ltb 0 (TransportConfig.bandwidth_after_nth config)
      && leb (TransportConfig.bandwidth_after_nth config) ordinal
    then TransportConfig.bandwidth_after_bps config
    else TransportConfig.bandwidth_bps config

unfoldable pub base_delay : TransportConfig → Bool → ℕ → ℕ → ℕ
base_delay config eligible ordinal extra_delay_ms =
    sat_add (sat_add (TransportConfig.delay_ms config) extra_delay_ms) (
      if eligible
        && (ltb 0 (TransportConfig.delay_spike_nth config)
            && (ordinal == TransportConfig.delay_spike_nth config))
      then TransportConfig.delay_spike_ms config
      else 0)

unfoldable pub total_delay : TransportConfig → Bool → ℕ → ℕ → ℕ → ℕ → ℕ
total_delay config eligible ordinal extra_delay_ms draw len =
    sat_add
      (with_jitter (TransportConfig.jitter_ms config) draw
        (base_delay config eligible ordinal extra_delay_ms))
      (serialization (bandwidth_at config ordinal) len)
