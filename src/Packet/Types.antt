-- ===== src/Packet/Types.antt =====
-- The types of src/packet.rs. An octet, a u16 and a u32 are numbers, bounded where a theorem says so.
-- A message of the code is a constructor of `PacketError`, what it prints the constructor's fields.
use Prim.Native.String.{String}
use tcpform_protocol_lab.Base.{ℕ, Bool, List, Option}

-- The life cycle of an endpoint, and which way a segment goes.
pub data TcpState : Type 0 where
  closed syn_sent syn_received established fin_wait1 fin_wait2 : TcpState
  close_wait last_ack time_wait reset : TcpState

pub data TcpDirection : Type 0 where
  outbound inbound : TcpDirection

pub data PacketError : Type 0 where
  no_protocol truncated_ethernet truncated_vlan vlan_out_of_range : PacketError
  empty_packet truncated_ipv4 truncated_ipv4_options ipv4_field_out_of_range : PacketError
  ipv4_options_too_long ihl_too_large length_overflow ipv4_too_long : PacketError
  flow_label_too_large ipv6_too_long ipv6_offset_too_large truncated_ipv6 : PacketError
  truncated_ipv6_fragment tcp_flags_too_large tcp_options_too_long : PacketError
  data_offset_too_large udp_too_long sack_length unknown_option_too_long : PacketError
  truncated_tcp truncated_tcp_options truncated_udp truncated_option : PacketError
  segment_too_long : PacketError
  unsupported_version invalid_ihl invalid_data_offset invalid_udp_length : ℕ → PacketError
  truncated_ipv4_option : PacketError
  invalid_total_length invalid_payload_length invalid_option invalid_ipv4_option :
      ℕ → ℕ → PacketError
  not_ipv4 already_fragmented fragment_offset_overflow : PacketError
  dont_fragment_set mtu_too_small : ℕ → PacketError
  invalid_transition : TcpDirection → TcpState → List String → PacketError
  ragged_fragment overlapping_fragments conflicting_final fragment_range_overflow : PacketError
  not_ipv6 already_fragmented_ipv6 ipv6_fragment_offset_overflow : PacketError
  mtu_too_small_ipv6 max_datagrams_reached max_buffered_bytes_reached : ℕ → PacketError
  -- no message of the code: a loop of the model has used up its fuel
  out_of_fuel : PacketError
  -- no message of the code: a slice of it would panic
  slice_out_of_range : PacketError

-- [u8; 6], and the octets of `std::net::Ipv4Addr` (4) and `Ipv6Addr` (16)
abbrev pub MacAddr : Type 0
MacAddr = List ℕ

abbrev pub Ipv4Addr : Type 0
Ipv4Addr = List ℕ

abbrev pub Ipv6Addr : Type 0
Ipv6Addr = List ℕ

pub data Checksum : Type 0 where
  auto : Checksum
  value : ℕ → Checksum
  invalid : Checksum

pub record VlanTag : Type 0 where
  pub priority : ℕ
  pub drop_eligible : Bool
  pub id : ℕ

pub record EthernetHeader : Type 0 where
  pub destination : MacAddr
  pub source : MacAddr
  pub vlan : Option VlanTag
  pub ether_type : Option ℕ

pub record Ipv4Header : Type 0 where
  pub dscp : ℕ
  pub ecn : ℕ
  pub identification : ℕ
  pub dont_fragment : Bool
  pub more_fragments : Bool
  pub fragment_offset : ℕ
  pub ttl : ℕ
  pub protocol : Option ℕ
  pub source : Ipv4Addr
  pub destination : Ipv4Addr
  pub options : List ℕ
  pub ihl : Option ℕ
  pub total_length : Option ℕ
  pub checksum : Checksum

pub record Ipv6Fragment : Type 0 where
  pub next_header : ℕ
  pub offset : ℕ
  pub more_fragments : Bool
  pub identification : ℕ

pub record Ipv6Header : Type 0 where
  pub traffic_class : ℕ
  pub flow_label : ℕ
  pub payload_length : Option ℕ
  pub next_header : Option ℕ
  pub hop_limit : ℕ
  pub source : Ipv6Addr
  pub destination : Ipv6Addr
  pub fragment : Option Ipv6Fragment

pub data NetworkHeader : Type 0 where
  ipv4 : Ipv4Header → NetworkHeader
  ipv6 : Ipv6Header → NetworkHeader

-- `end` is spelled `end_of_list`.
pub data TcpOption : Type 0 where
  end_of_list nop sack_permitted : TcpOption
  maximum_segment_size window_scale : ℕ → TcpOption
  sack : List (ℕ × ℕ) → TcpOption
  timestamp : ℕ → ℕ → TcpOption
  unknown : ℕ → List ℕ → TcpOption

pub record TcpHeader : Type 0 where
  pub source_port : ℕ
  pub destination_port : ℕ
  pub sequence : ℕ
  pub acknowledgment : ℕ
  pub flags : ℕ
  pub window : ℕ
  pub urgent_pointer : ℕ
  pub options : List TcpOption
  pub data_offset : Option ℕ
  pub checksum : Checksum

pub record UdpHeader : Type 0 where
  pub source_port : ℕ
  pub destination_port : ℕ
  pub length : Option ℕ
  pub checksum : Checksum

pub data TransportHeader : Type 0 where
  tcp : TcpHeader → TransportHeader
  udp : UdpHeader → TransportHeader

pub record Packet : Type 0 where
  pub ethernet : Option EthernetHeader
  pub network : NetworkHeader
  pub transport : Option TransportHeader
  pub payload : List ℕ

pub record DecodedPacket : Type 0 where
  pub packet : Packet
  pub network_payload : List ℕ
  pub ipv4_checksum_valid : Option Bool
  pub transport_checksum_valid : Option Bool
  pub trailing : List ℕ
