-- ===== src/Examples/Packets.antt =====
-- One frame of Ethernet, IPv4 and TCP, and one of UDP, for the tests of src/packet.rs: the headers,
-- and the octets that the encoders return for them.
use tcpform_protocol_lab.Base.{ℕ, List, [], ◌∷◌, true, false, none, some}
use tcpform_protocol_lab.Packet.Types
use tcpform_protocol_lab.Packet.Types.{
  EthernetHeader, Ipv4Header, TcpHeader, UdpHeader, Packet, TransportHeader, tcp, udp, ipv4,
  maximum_segment_size, window_scale,
}

abbrev pub ethernet : EthernetHeader
ethernet = record {
  destination = 2 ∷ 0 ∷ 0 ∷ 0 ∷ 0 ∷ 1 ∷ [];
  source = 2 ∷ 0 ∷ 0 ∷ 0 ∷ 0 ∷ 2 ∷ [];
  vlan = some (record { priority = 3; drop_eligible = true; id = 42 });
  ether_type = none;
}

abbrev pub header : Ipv4Header
header = record {
  dscp = 10;
  ecn = 1;
  identification = 0x1234;
  dont_fragment = true;
  more_fragments = false;
  fragment_offset = 0;
  ttl = 64;
  protocol = none;
  source = 192 ∷ 0 ∷ 2 ∷ 1 ∷ [];
  destination = 192 ∷ 0 ∷ 2 ∷ 2 ∷ [];
  options = 1 ∷ [];
  ihl = none;
  total_length = none;
  checksum = Types.auto;
}

abbrev pub segment : TcpHeader
segment = record {
  source_port = 49152;
  destination_port = 80;
  sequence = 1000;
  acknowledgment = 0;
  flags = 0x102;
  window = 65535;
  urgent_pointer = 0;
  options = maximum_segment_size 1460 ∷ window_scale 7 ∷ [];
  data_offset = none;
  checksum = Types.auto;
}

abbrev pub datagram : UdpHeader
datagram = record {
  source_port = 5353;
  destination_port = 53;
  length = none;
  checksum = Types.auto;
}

abbrev pub payload : List ℕ
payload = 104 ∷ 105 ∷ 33 ∷ []

abbrev pub option_bytes : List ℕ
option_bytes = 2 ∷ 4 ∷ 5 ∷ 180 ∷ 3 ∷ 3 ∷ 7 ∷ []

abbrev pub segment_bytes : List ℕ
segment_bytes =
    192 ∷ 0 ∷ 0 ∷ 80 ∷ 0 ∷ 0 ∷ 3 ∷ 232 ∷ 0 ∷ 0 ∷ 0 ∷ 0 ∷ 113 ∷ 2 ∷ 255 ∷ 255 ∷ 171 ∷ 118 ∷ 0 ∷ 0 ∷ 2
    ∷ 4 ∷ 5 ∷ 180 ∷ 3 ∷ 3 ∷ 7 ∷ 0 ∷ []

abbrev pub datagram_bytes : List ℕ
datagram_bytes = 20 ∷ 233 ∷ 0 ∷ 53 ∷ 0 ∷ 11 ∷ 221 ∷ 76 ∷ []

abbrev pub ip_bytes : List ℕ
ip_bytes =
    70 ∷ 41 ∷ 0 ∷ 55 ∷ 18 ∷ 52 ∷ 64 ∷ 0 ∷ 64 ∷ 6 ∷ 162 ∷ 96 ∷ 192 ∷ 0 ∷ 2 ∷ 1 ∷ 192 ∷ 0 ∷ 2 ∷ 2 ∷ 1
    ∷ 0 ∷ 0 ∷ 0 ∷ 192 ∷ 0 ∷ 0 ∷ 80 ∷ 0 ∷ 0 ∷ 3 ∷ 232 ∷ 0 ∷ 0 ∷ 0 ∷ 0 ∷ 113 ∷ 2 ∷ 255 ∷ 255 ∷ 171
    ∷ 118 ∷ 0 ∷ 0 ∷ 2 ∷ 4 ∷ 5 ∷ 180 ∷ 3 ∷ 3 ∷ 7 ∷ 0 ∷ 104 ∷ 105 ∷ 33 ∷ []

abbrev pub tcp_frame : List ℕ
tcp_frame =
    2 ∷ 0 ∷ 0 ∷ 0 ∷ 0 ∷ 1 ∷ 2 ∷ 0 ∷ 0 ∷ 0 ∷ 0 ∷ 2 ∷ 129 ∷ 0 ∷ 112 ∷ 42 ∷ 8 ∷ 0 ∷ 70 ∷ 41 ∷ 0 ∷ 55
    ∷ 18 ∷ 52 ∷ 64 ∷ 0 ∷ 64 ∷ 6 ∷ 162 ∷ 96 ∷ 192 ∷ 0 ∷ 2 ∷ 1 ∷ 192 ∷ 0 ∷ 2 ∷ 2 ∷ 1 ∷ 0 ∷ 0 ∷ 0 ∷ 192
    ∷ 0 ∷ 0 ∷ 80 ∷ 0 ∷ 0 ∷ 3 ∷ 232 ∷ 0 ∷ 0 ∷ 0 ∷ 0 ∷ 113 ∷ 2 ∷ 255 ∷ 255 ∷ 171 ∷ 118 ∷ 0 ∷ 0 ∷ 2 ∷ 4
    ∷ 5 ∷ 180 ∷ 3 ∷ 3 ∷ 7 ∷ 0 ∷ 104 ∷ 105 ∷ 33 ∷ []

abbrev pub udp_frame : List ℕ
udp_frame =
    2 ∷ 0 ∷ 0 ∷ 0 ∷ 0 ∷ 1 ∷ 2 ∷ 0 ∷ 0 ∷ 0 ∷ 0 ∷ 2 ∷ 129 ∷ 0 ∷ 112 ∷ 42 ∷ 8 ∷ 0 ∷ 70 ∷ 41 ∷ 0 ∷ 35
    ∷ 18 ∷ 52 ∷ 64 ∷ 0 ∷ 64 ∷ 17 ∷ 162 ∷ 105 ∷ 192 ∷ 0 ∷ 2 ∷ 1 ∷ 192 ∷ 0 ∷ 2 ∷ 2 ∷ 1 ∷ 0 ∷ 0 ∷ 0
    ∷ 20 ∷ 233 ∷ 0 ∷ 53 ∷ 0 ∷ 11 ∷ 221 ∷ 76 ∷ 104 ∷ 105 ∷ 33 ∷ []
