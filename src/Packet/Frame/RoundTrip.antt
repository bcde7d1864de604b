-- ===== src/Packet/Frame/RoundTrip.antt =====
-- `Packet::encode` and the decoders of src/packet.rs undo one another on whole IPv4 packets.
use tcpform_protocol_lab.Base.{
  ℕ, ◌≡◌, ◌∙◌, arith, List, [], ◌++◌, ◌==◌, ◌||◌, not, true, false, some, ok, >>=-eq-ok,
}
use tcpform_protocol_lab.Packet.Types.{
  EthernetHeader, Ipv4Header, TcpHeader, UdpHeader, Packet, TransportHeader, ipv4, tcp, udp,
}
use tcpform_protocol_lab.Packet.Bytes.{or_else}
use tcpform_protocol_lab.Packet.Checksum.{transport_checksum, pseudo_sum}
use tcpform_protocol_lab.Packet.Transport.{
  DecodedTransport, decode_transport, decode_tcp, decode_udp, verify, is_ipv4, encode_transport,
  ip_protocol_tcp, ip_protocol_udp,
}
use tcpform_protocol_lab.Packet.Transport.Tcp.{IsPlainTcp, IsReceivedTcp, decode-encode_tcp}
use tcpform_protocol_lab.Packet.Transport.Udp.{IsPlainUdp, IsReceivedUdp, decode-encode_udp}
use tcpform_protocol_lab.Packet.Ip.{decoded_packet, encode_ipv4}
use tcpform_protocol_lab.Packet.Ip.Ipv4.{IsPlainIpv4, IsReceivedIpv4, decode-encode_ipv4}
use tcpform_protocol_lab.Packet.Frame.{
  encode, decode_ethernet, encode_ethernet, protocol_of, inferred_ether_type,
}
use tcpform_protocol_lab.Packet.Frame.Ethernet.{IsPlainEthernet, decode-encode_ethernet}

-- The transport layer sees of an IPv4 header its addresses only.
module _ (h k : Ipv4Header) (source : h.source ≡ k.source)
    (destination : h.destination ≡ k.destination) where
  transport_checksum-addresses :
      (protocol : ℕ) (segment : List ℕ)
      → transport_checksum (ipv4 h) protocol segment ≡ transport_checksum (ipv4 k) protocol segment
  unfolding transport_checksum pseudo_sum
  transport_checksum-addresses protocol segment = rw (source, destination)

  decode_transport-addresses :
      (protocol : ℕ) (segment : List ℕ)
      → decode_transport (ipv4 h) protocol segment false
        ≡ decode_transport (ipv4 k) protocol segment false
  unfolding decode_transport decode_tcp decode_udp verify is_ipv4
  decode_transport-addresses protocol segment = simp transport_checksum-addresses

abbrev pub framed : EthernetHeader → Ipv4Header → TransportHeader → List ℕ → Packet
framed ethernet header transport payload = record {
  ethernet = some ethernet;
  network = ipv4 header;
  transport = some transport;
  payload = payload;
}

-- The ether type is filled in on the way.
abbrev pub on_wire : EthernetHeader → Ipv4Header → EthernetHeader
on_wire ethernet header = record ethernet {
  ether_type = some (or_else ethernet.ether_type (inferred_ether_type (ipv4 header)));
}

-- What `Packet::encode` has produced on the way to a frame.
pub record EncodeRun (ethernet : EthernetHeader) (header : Ipv4Header) (transport : TransportHeader)
    (payload bytes : List ℕ) : Type 0 where
  pub protocol : ℕ
  pub protocol_eq : protocol_of (framed ethernet header transport payload) ≡ ok protocol
  pub segment : List ℕ
  pub segment_eq : encode_transport (ipv4 header) (some transport) payload ≡ ok segment
  pub ip : List ℕ
  pub ip_eq : encode_ipv4 header protocol (segment ++ payload) ≡ ok ip
  pub frame_eq : encode_ethernet ethernet (ipv4 header) ip ≡ ok bytes

encode_run :
    (ethernet : EthernetHeader) (header : Ipv4Header) (transport : TransportHeader)
    (payload bytes : List ℕ)
    → encode (framed ethernet header transport payload) ≡ ok bytes
    → EncodeRun ethernet header transport payload bytes
unfolding encode
encode_run ethernet header transport payload bytes e =
    let (protocol, pe, e1) =
      >>=-eq-ok (protocol_of (framed ethernet header transport payload)) _ e in
    let (segment, se, e2) =
      >>=-eq-ok (encode_transport (ipv4 header) (some transport) payload) _ e1 in
    let (ip, ie, e3) = >>=-eq-ok (encode_ipv4 header protocol (segment ++ payload)) _ e2 in
    record {
      protocol = protocol;
      protocol_eq = pe;
      segment = segment;
      segment_eq = se;
      ip = ip;
      ip_eq = ie;
      frame_eq = e3;
    }

-- Headers that leave to the encoder what it fills in, around an unfragmented packet.
pub record IsPlainFrame (ethernet : EthernetHeader) (header : Ipv4Header) : Type 0 where
  pub ethernet_plain : IsPlainEthernet ethernet (ipv4 header)
  pub network_plain : IsPlainIpv4 header
  pub unfragmented : (not (header.fragment_offset == 0) || header.more_fragments) ≡ false

-- A frame goes through all three decoders, if its transport segment goes through its own.
frame_decoded :
    (ethernet : EthernetHeader) (header : Ipv4Header) (transport : TransportHeader)
    (payload bytes : List ℕ) (carried : ℕ) (decoded : DecodedTransport)
    → IsPlainFrame ethernet header
    → (run : EncodeRun ethernet header transport payload bytes)
    → or_else header.protocol run.protocol ≡ carried
    → decode_transport (ipv4 header) carried (run.segment ++ payload) false ≡ ok decoded
    → (seen : Ipv4Header) × (decode_ethernet bytes
        ≡ ok (
            decoded_packet
              (some (on_wire ethernet header))
              (ipv4 seen)
              (run.segment ++ payload)
              (some true)
              []
              decoded))
      × IsReceivedIpv4 header seen run.protocol run.ip
frame_decoded ethernet header transport payload bytes carried decoded h run pe de =
    let (seen, ip_back, received) =
      decode-encode_ipv4 header run.protocol (run.segment ++ payload) run.ip
        (some (on_wire ethernet header)) h.network_plain h.unfragmented run.ip_eq in
    (
      seen,
      decode-encode_ethernet ethernet (ipv4 header) run.ip bytes h.ethernet_plain run.frame_eq
          ∙ ip_back
          ∙ rw (
            pe,
            decode_transport-addresses seen header received.source received.destination carried
                (run.segment ++ payload),
            de,
          ),
      received,
    )

tcp_protocol :
    (ethernet : EthernetHeader) (header : Ipv4Header) (segment : TcpHeader) (payload : List ℕ)
    (protocol : ℕ)
    → or_else header.protocol ip_protocol_tcp ≡ ip_protocol_tcp
    → protocol_of (framed ethernet header (tcp segment) payload) ≡ ok protocol
    → or_else header.protocol protocol ≡ ip_protocol_tcp
unfolding protocol_of
tcp_protocol ethernet header segment payload protocol h e = ground arith

udp_protocol :
    (ethernet : EthernetHeader) (header : Ipv4Header) (segment : UdpHeader) (payload : List ℕ)
    (protocol : ℕ)
    → or_else header.protocol ip_protocol_udp ≡ ip_protocol_udp
    → protocol_of (framed ethernet header (udp segment) payload) ≡ ok protocol
    → or_else header.protocol protocol ≡ ip_protocol_udp
unfolding protocol_of
udp_protocol ethernet header segment payload protocol h e = ground arith

-- A whole frame of Ethernet, unfragmented IPv4 and TCP that `Packet::encode` accepts, with the lengths
-- and checksums left to the encoder, no protocol number in the IP header but that of TCP, without a VLAN tag an ether type other than 0x8100, and TCP
-- options that the decoder can return (no end of the list, numbers within their widths, an unknown
-- option not of a kind that is known at its length), decodes to the same headers and payload; both checksums verify, and
-- nothing is left over.
pub decode-encode_tcp_frame :
    (ethernet : EthernetHeader) (header : Ipv4Header) (segment : TcpHeader) (payload bytes : List ℕ)
    → IsPlainFrame ethernet header
    → IsPlainTcp segment
    → or_else header.protocol ip_protocol_tcp ≡ ip_protocol_tcp
    → encode (framed ethernet header (tcp segment) payload) ≡ ok bytes
    → (run : EncodeRun ethernet header (tcp segment) payload bytes) × (seen : Ipv4Header)
      × (received : TcpHeader) × (decode_ethernet bytes
          ≡ ok (
              decoded_packet
                (some (on_wire ethernet header))
                (ipv4 seen)
                (run.segment ++ payload)
                (some true)
                []
                (some (tcp received), payload, some true)))
      × IsReceivedIpv4 header seen run.protocol run.ip
      × IsReceivedTcp segment received
unfolding encode_transport
decode-encode_tcp_frame ethernet header segment payload bytes h k p e =
    let run = encode_run ethernet header (tcp segment) payload bytes e in
    let (received, back, same) =
      decode-encode_tcp (ipv4 header) segment payload run.segment k run.segment_eq in
    let (seen, decoded, same_network) =
      frame_decoded ethernet header (tcp segment) payload bytes ip_protocol_tcp _ h run
        (tcp_protocol ethernet header segment payload run.protocol p run.protocol_eq) back in
    (run, seen, received, decoded, same_network, same)

-- A whole frame of Ethernet, unfragmented IPv4 and UDP that `Packet::encode` accepts, with the lengths
-- and checksums left to the encoder, no protocol number in the IP header but that of UDP, and without a VLAN tag an ether type other than 0x8100, decodes to
-- the same headers and payload; both checksums verify, and nothing is left over.
pub decode-encode_udp_frame :
    (ethernet : EthernetHeader) (header : Ipv4Header) (datagram : UdpHeader)
    (payload bytes : List ℕ)
    → IsPlainFrame ethernet header
    → IsPlainUdp datagram
    → or_else header.protocol ip_protocol_udp ≡ ip_protocol_udp
    → encode (framed ethernet header (udp datagram) payload) ≡ ok bytes
    → (run : EncodeRun ethernet header (udp datagram) payload bytes) × (seen : Ipv4Header)
      × (received : UdpHeader) × (decode_ethernet bytes
          ≡ ok (
              decoded_packet
                (some (on_wire ethernet header))
                (ipv4 seen)
                (run.segment ++ payload)
                (some true)
                []
                (some (udp received), payload, some true)))
      × IsReceivedIpv4 header seen run.protocol run.ip
      × IsReceivedUdp datagram received payload
unfolding encode_transport
decode-encode_udp_frame ethernet header datagram payload bytes h k p e =
    let run = encode_run ethernet header (udp datagram) payload bytes e in
    let (received, back, same) =
      decode-encode_udp (ipv4 header) datagram payload run.segment k run.segment_eq in
    let (seen, decoded, same_network) =
      frame_decoded ethernet header (udp datagram) payload bytes ip_protocol_udp _ h run
        (udp_protocol ethernet header datagram payload run.protocol p run.protocol_eq) back in
    (run, seen, received, decoded, same_network, same)
