-- ===== src/Packet/Frame.antt =====
-- `Packet::encode`, `Packet::protocol`, `encode_ethernet` and `decode_ethernet` of src/packet.rs.
pub mod Ethernet
pub mod RoundTrip
use tcpform_protocol_lab.Base.{
  ℕ, ◌*◌, ◌/◌, ◌%◌, bit_and, bit_or, not, ◌||◌, Option, none, some, List, ◌++◌, length, drop, ltb,
  ◌==◌, if◌then◌else◌, Result, ok, err, ◌>>=◌, ◌>>◌, refuse_if, [],
}
use tcpform_protocol_lab.Packet.Types.{
  PacketError, EthernetHeader, VlanTag, NetworkHeader, ipv4, ipv6, TransportHeader, tcp, udp,
  Packet, DecodedPacket,
}
use tcpform_protocol_lab.Packet.Bytes.{put_u16, u16_at, slice, bit, or_else}
use tcpform_protocol_lab.Packet.Transport.{ip_protocol_tcp, ip_protocol_udp, encode_transport}
use tcpform_protocol_lab.Packet.Ip.{encode_ipv4, encode_ipv6, decode_ip_inner}

abbrev pub ethertype_ipv4 : ℕ
ethertype_ipv4 = 0x0800

abbrev pub ethertype_ipv6 : ℕ
ethertype_ipv6 = 0x86dd

abbrev pub ethertype_vlan : ℕ
ethertype_vlan = 0x8100

abbrev pub inferred_ether_type : NetworkHeader → ℕ
inferred_ether_type (ipv4 header) = ethertype_ipv4
inferred_ether_type (ipv6 header) = ethertype_ipv6

-- What stands between the addresses and the ether type.
unfoldable pub encode_vlan : Option VlanTag → Result PacketError (List ℕ)
encode_vlan none = ok []
encode_vlan (some vlan) = do
  refuse_if (ltb 7 vlan.priority || ltb 4095 vlan.id) PacketError.vlan_out_of_range
  let control =
      bit_or (bit_or (vlan.priority * 0x2000 % 0x10000) (bit vlan.drop_eligible * 0x1000)) vlan.id
  ok (put_u16 ethertype_vlan (put_u16 control []))

unfoldable pub encode_ethernet :
    EthernetHeader → NetworkHeader → List ℕ → Result PacketError (List ℕ)
unfolding encode_vlan
encode_ethernet header network payload = do
  tag ← encode_vlan header.vlan
  ok (
      header.destination
      ++ (header.source
          ++ (tag ++ put_u16 (or_else header.ether_type (inferred_ether_type network)) payload)))

abbrev pub inferred_protocol : Option TransportHeader → Option ℕ
inferred_protocol none = none
inferred_protocol (some (tcp header)) = some ip_protocol_tcp
inferred_protocol (some (udp header)) = some ip_protocol_udp

abbrev pub configured_protocol : NetworkHeader → Option ℕ
configured_protocol (ipv4 header) = header.protocol
configured_protocol (ipv6 header) = elim header.fragment [
  | none ↦ header.next_header
  | some fragment ↦ some fragment.next_header
]

-- Packet::protocol
unfoldable pub protocol_of : Packet → Result PacketError ℕ
protocol_of packet = elim (configured_protocol packet.network) [
  | some protocol ↦ ok protocol
  | none ↦ elim (inferred_protocol packet.transport) [
    | some protocol ↦ ok protocol
    | none ↦ err PacketError.no_protocol
  ]
]

abbrev pub encode_network : NetworkHeader → ℕ → List ℕ → Result PacketError (List ℕ)
encode_network (ipv4 header) protocol payload = encode_ipv4 header protocol payload
encode_network (ipv6 header) protocol payload = encode_ipv6 header protocol payload

abbrev pub encode_link :
    Option EthernetHeader → NetworkHeader → List ℕ → Result PacketError (List ℕ)
encode_link none network ip = ok ip
encode_link (some ethernet) network ip = encode_ethernet ethernet network ip

-- Packet::encode
unfoldable pub encode : Packet → Result PacketError (List ℕ)
encode packet = do
  protocol ← protocol_of packet
  transport ← encode_transport packet.network packet.transport packet.payload
  ip ← encode_network packet.network protocol (transport ++ packet.payload)
  encode_link packet.ethernet packet.network ip

unfoldable pub vlan_of : List ℕ → VlanTag
vlan_of bytes =
    let control = u16_at bytes 14 in
    record {
      priority = control / 0x2000 % 256;
      drop_eligible = not (bit_and control 0x1000 == 0);
      id = bit_and control 0xfff;
    }

abbrev pub mac_pair : List ℕ → Option VlanTag → ℕ → EthernetHeader
mac_pair bytes vlan ether_type = record {
  destination = slice bytes 0 6;
  source = slice bytes 6 12;
  vlan = vlan;
  ether_type = some ether_type;
}

unfoldable pub decode_vlan : List ℕ → Result PacketError DecodedPacket
unfolding vlan_of
decode_vlan bytes = do
  refuse_if (ltb (length bytes) 18) PacketError.truncated_vlan
  decode_ip_inner (drop 18 bytes) (some (mac_pair bytes (some (vlan_of bytes)) (u16_at bytes 16)))

unfoldable pub decode_ethernet : List ℕ → Result PacketError DecodedPacket
unfolding decode_vlan
decode_ethernet bytes = do
  refuse_if (ltb (length bytes) 14) PacketError.truncated_ethernet
  let ether_type = u16_at bytes 12
  if ether_type == ethertype_vlan
      then decode_vlan bytes
      else decode_ip_inner (drop 14 bytes) (some (mac_pair bytes none ether_type))
