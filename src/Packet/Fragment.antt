-- ===== src/Packet/Fragment.antt =====
-- `fragment_ipv4`, `fragment_ipv6`, `padded_ipv4_options` and `copied_ipv4_options` of
-- src/packet.rs. A position in a buffer is the number of octets in front of it.
use tcpform_protocol_lab.Base.{
  ℕ, zero, suc, ◌+◌, ◌-◌, ◌*◌, ◌/◌, bit_and, Bool, true, false, not, ◌||◌, Option, none, some, List,
  [], ◌∷◌, ◌++◌, length, take, drop, ltb, leb, ◌==◌, if◌then◌else◌, Result, ok, err, ◌>>=◌, ◌>>◌,
  refuse_if,
}
use tcpform_protocol_lab.Packet.Types
use tcpform_protocol_lab.Packet.Types.{
  PacketError, EthernetHeader, Ipv4Header, Ipv6Header, NetworkHeader, ipv4, ipv6, Packet,
  out_of_fuel,
}
use tcpform_protocol_lab.Packet.Bytes.{slice, pad4}
use tcpform_protocol_lab.Packet.Transport.{encode_transport}
use tcpform_protocol_lab.Packet.Ip.{ip_protocol_fragment}
use tcpform_protocol_lab.Packet.Frame.{protocol_of, encode}

unfoldable pub padded_ipv4_options : List ℕ → Result PacketError (List ℕ)
padded_ipv4_options options = do
  refuse_if (ltb 40 (length options)) PacketError.ipv4_options_too_long
  ok (pad4 options)

-- The loop of `copied_ipv4_options` on what `offset` has not passed.
unfoldable pub copy_loop : ℕ → List ℕ → Result PacketError (List ℕ)
copy_loop fuel [] = ok []
copy_loop zero (kind ∷ rest) = err out_of_fuel
copy_loop (suc fuel) (kind ∷ []) =
    if kind == 0 then ok [] else if kind == 1 then ok [] else err PacketError.truncated_ipv4_option
copy_loop (suc fuel) (kind ∷ len ∷ body) =
    let behind_nop = copy_loop fuel (len ∷ body) in
    let behind_option = copy_loop fuel (drop (len - 2) body) in
    if kind == 0
    then ok []
    else if kind == 1
    then behind_nop
    else if ltb len 2 || ltb (length body + 2) len
    then err (PacketError.invalid_ipv4_option kind len)
    else do
      copied ← behind_option
      ok (
          if not (bit_and kind 0x80 == 0)
          then kind ∷ len ∷ (take (len - 2) body ++ copied)
          else copied)

unfoldable pub copied_ipv4_options : List ℕ → Result PacketError (List ℕ)
unfolding copy_loop
copied_ipv4_options options = do copied ← copy_loop (length options) options; ok (pad4 copied)

-- The octets of a fragment that starts at `offset`: a multiple of eight, or all that remain.
unfoldable pub fragment_length : ℕ → ℕ → ℕ → ℕ
fragment_length mtu header_len remaining =
    let capacity = (mtu - header_len) / 8 * 8 in
    if ltb capacity remaining then capacity else remaining

-- The datagram that is cut up, and what the rounds of the loop share.
pub record Ipv4Job : Type 0 where
  pub ethernet : Option EthernetHeader
  pub base : Ipv4Header
  pub protocol : ℕ
  pub network_payload : List ℕ
  pub first_options : List ℕ
  pub later_options : List ℕ
  pub mtu : ℕ

unfoldable pub options_at : Ipv4Job → ℕ → List ℕ
options_at job offset = if offset == 0 then job.first_options else job.later_options

unfoldable pub ipv4_length_at : Ipv4Job → ℕ → ℕ
unfolding fragment_length
ipv4_length_at job offset =
    fragment_length job.mtu (20 + length (options_at job offset))
      (length job.network_payload - offset)

unfoldable pub ipv4_fragment : Ipv4Job → ℕ → Packet
ipv4_fragment job offset =
    let len = ipv4_length_at job offset in
    record {
      ethernet = job.ethernet;
      network = ipv4 (record (job.base) {
        options = options_at job offset;
        ihl = none;
        total_length = none;
        protocol = some job.protocol;
        fragment_offset = offset / 8;
        more_fragments = ltb (offset + len) (length job.network_payload);
        dont_fragment = false;
      });
      transport = none;
      payload = slice job.network_payload offset (offset + len);
    }

-- One round: the guards, and the encoded fragment.
unfoldable pub ipv4_round : Ipv4Job → ℕ → Result PacketError (List ℕ)
ipv4_round job offset = do
  refuse_if (ltb job.mtu (20 + length (options_at job offset) + 8))
      (PacketError.mtu_too_small job.mtu)
  refuse_if (leb 0x10000 (offset / 8)) PacketError.fragment_offset_overflow
  encode (ipv4_fragment job offset)

unfoldable pub ipv4_loop : Ipv4Job → ℕ → ℕ → Result PacketError (List (List ℕ))
ipv4_loop job zero offset =
    if ltb offset (length job.network_payload) then err out_of_fuel else ok []
ipv4_loop job (suc fuel) offset =
    let rest = ipv4_loop job fuel (offset + ipv4_length_at job offset) in
    if ltb offset (length job.network_payload)
    then (do fragment ← ipv4_round job offset; fragments ← rest; ok (fragment ∷ fragments))
    else ok []

abbrev pub ipv4_job :
    Option EthernetHeader → Ipv4Header → ℕ → List ℕ → List ℕ → List ℕ → ℕ → Ipv4Job
ipv4_job ethernet base protocol network_payload first_options later_options mtu = record {
  ethernet = ethernet;
  base = base;
  protocol = protocol;
  network_payload = network_payload;
  first_options = first_options;
  later_options = later_options;
  mtu = mtu;
}

-- A fragment takes eight octets at least, or all that remain: as many rounds as octets are enough.
unfoldable pub fragment_ipv4_base : Packet → Ipv4Header → ℕ → Result PacketError (List (List ℕ))
fragment_ipv4_base packet base mtu = do
  refuse_if (not (base.fragment_offset == 0) || base.more_fragments) PacketError.already_fragmented
  protocol ← protocol_of packet
  transport ← encode_transport packet.network packet.transport packet.payload
  let network_payload = transport ++ packet.payload
  first_options ← padded_ipv4_options base.options
  if leb (20 + length first_options + length network_payload) mtu
      then (do whole ← encode packet; ok (whole ∷ []))
      else (do
        refuse_if base.dont_fragment (PacketError.dont_fragment_set mtu)
        later_options ← copied_ipv4_options base.options
        ipv4_loop
            (ipv4_job packet.ethernet base protocol network_payload first_options later_options mtu)
            (length network_payload) 0)

abbrev pub on_ipv4 :
    NetworkHeader
    → (Ipv4Header → Result PacketError (List (List ℕ)))
    → Result PacketError (List (List ℕ))
on_ipv4 (ipv4 base) k = k base
on_ipv4 (ipv6 base) k = err PacketError.not_ipv4

unfoldable pub fragment_ipv4 : Packet → ℕ → Result PacketError (List (List ℕ))
unfolding fragment_ipv4_base
fragment_ipv4 packet mtu = on_ipv4 packet.network (λ base. fragment_ipv4_base packet base mtu)

pub record Ipv6Job : Type 0 where
  pub ethernet : Option EthernetHeader
  pub base : Ipv6Header
  pub protocol : ℕ
  pub network_payload : List ℕ
  pub identification : ℕ
  pub mtu : ℕ

unfoldable pub ipv6_length_at : Ipv6Job → ℕ → ℕ
unfolding fragment_length
ipv6_length_at job offset = fragment_length job.mtu 48 (length job.network_payload - offset)

unfoldable pub ipv6_fragment : Ipv6Job → ℕ → Packet
ipv6_fragment job offset =
    let len = ipv6_length_at job offset in
    record {
      ethernet = job.ethernet;
      network = ipv6 (record (job.base) {
        payload_length = none;
        next_header = some ip_protocol_fragment;
        fragment = some (record {
          next_header = job.protocol;
          offset = offset / 8;
          more_fragments = ltb (offset + len) (length job.network_payload);
          identification = job.identification;
        });
      });
      transport = none;
      payload = slice job.network_payload offset (offset + len);
    }

unfoldable pub ipv6_round : Ipv6Job → ℕ → Result PacketError (List ℕ)
ipv6_round job offset = do
  refuse_if (leb 0x10000 (offset / 8)) PacketError.ipv6_fragment_offset_overflow
  encode (ipv6_fragment job offset)

unfoldable pub ipv6_loop : Ipv6Job → ℕ → ℕ → Result PacketError (List (List ℕ))
ipv6_loop job zero offset =
    if ltb offset (length job.network_payload) then err out_of_fuel else ok []
ipv6_loop job (suc fuel) offset =
    let rest = ipv6_loop job fuel (offset + ipv6_length_at job offset) in
    if ltb offset (length job.network_payload)
    then (do fragment ← ipv6_round job offset; fragments ← rest; ok (fragment ∷ fragments))
    else ok []

abbrev pub is_some_fragment : Option Types.Ipv6Fragment → Bool
is_some_fragment none = false
is_some_fragment (some fragment) = true

unfoldable pub fragment_ipv6_base : Packet → Ipv6Header → ℕ → ℕ → Result PacketError (List (List ℕ))
fragment_ipv6_base packet base mtu identification = do
  refuse_if (is_some_fragment base.fragment) PacketError.already_fragmented_ipv6
  protocol ← protocol_of packet
  transport ← encode_transport packet.network packet.transport packet.payload
  let network_payload = transport ++ packet.payload
  if leb (40 + length network_payload) mtu then (do whole ← encode packet; ok (whole ∷ [])) else (do
    refuse_if (ltb mtu 56) (PacketError.mtu_too_small_ipv6 mtu)
    ipv6_loop
        (record {
          ethernet = packet.ethernet;
          base = base;
          protocol = protocol;
          network_payload = network_payload;
          identification = identification;
          mtu = mtu;
        })
        (length network_payload) 0)

abbrev pub on_ipv6 :
    NetworkHeader
    → (Ipv6Header → Result PacketError (List (List ℕ)))
    → Result PacketError (List (List ℕ))
on_ipv6 (ipv4 base) k = err PacketError.not_ipv6
on_ipv6 (ipv6 base) k = k base

unfoldable pub fragment_ipv6 : Packet → ℕ → ℕ → Result PacketError (List (List ℕ))
unfolding fragment_ipv6_base
fragment_ipv6 packet mtu identification =
    on_ipv6 packet.network (λ base. fragment_ipv6_base packet base mtu identification)
