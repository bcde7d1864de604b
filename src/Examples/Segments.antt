-- ===== src/Examples/Segments.antt =====
-- The theorems on whole packets of src/packet.rs, at the packets of `Examples.Packets`.
use tcpform_protocol_lab.Base.{
  ℕ, ◌≡◌, ◌≢◌, ◌↔◌, refl, List, [], ◌∷◌, ◌++◌, replicate, All, true, false, none, some, ok, err,
  arith, ◌-◌, ◌>>=◌,
}
use tcpform_protocol_lab.Packet.Types
use tcpform_protocol_lab.Packet.Types.{
  EthernetHeader, Ipv4Header, TcpHeader, UdpHeader, TransportHeader, NetworkHeader, tcp, udp, ipv4,
  maximum_segment_size, window_scale, TcpOption, sack, unknown, nop, invalid_option,
  slice_out_of_range,
}
use tcpform_protocol_lab.Packet.Checksum.{
  resolve, checksum_add, fold, checksum_finish, internet_checksum, pseudo_sum, transport_checksum,
}
use tcpform_protocol_lab.Packet.Checksum.Valid.{internet_checksum_verifies, single_octet_error}
use tcpform_protocol_lab.Packet.Bytes.{pad4, put_u16}
use tcpform_protocol_lab.Packet.Options.{
  encode_blocks, encode_option, encode_tcp_options, decode_tcp_options,
}
use tcpform_protocol_lab.Packet.Options.RoundTrip.{
  IsCanonical, end_padding, decode-encode_options, decode_tcp_options_returns, is_assigned,
}
use tcpform_protocol_lab.Packet.Transport.{
  ip_protocol_tcp, ip_protocol_udp, tcp_bytes, encode_tcp, udp_bytes, nonzero_checksum, encode_udp,
  encode_transport, decode_transport,
}
use tcpform_protocol_lab.Packet.Transport.Tcp.{IsPlainTcp, IsReceivedTcp, decode-encode_tcp}
use tcpform_protocol_lab.Packet.Transport.Udp.{IsPlainUdp, IsReceivedUdp, decode-encode_udp}
use tcpform_protocol_lab.Packet.Transport.Damage.{invalid_checksum_iff}
use tcpform_protocol_lab.Packet.Ip.{ipv4_bytes, encode_ipv4, decode_ip_inner, decoded_packet}
use tcpform_protocol_lab.Packet.Ip.Ipv4.{IsPlainIpv4, IsReceivedIpv4, decode-encode_ipv4}
use tcpform_protocol_lab.Packet.Frame.{encode, protocol_of, encode_ethernet, decode_ethernet}
use tcpform_protocol_lab.Packet.Frame.Ethernet.{IsPlainEthernet, decode-encode_ethernet}
use tcpform_protocol_lab.Packet.Frame.RoundTrip.{
  framed, on_wire, EncodeRun, IsPlainFrame, decode-encode_tcp_frame, decode-encode_udp_frame,
}
use tcpform_protocol_lab.Examples.Packets.{
  ethernet, header, segment, datagram, payload, option_bytes, segment_bytes, datagram_bytes,
  ip_bytes, tcp_frame, udp_frame,
}

options_encoded : encode_tcp_options segment.options ≡ ok option_bytes
unfolding encode_tcp_options encode_option
options_encoded = refl

segment_encoded : encode_tcp (ipv4 header) segment payload ≡ ok segment_bytes
unfolding encode_tcp encode_tcp_options encode_option pad4 tcp_bytes transport_checksum pseudo_sum
    checksum_add checksum_finish fold resolve
segment_encoded = refl

datagram_encoded : encode_udp (ipv4 header) datagram payload ≡ ok datagram_bytes
unfolding encode_udp udp_bytes nonzero_checksum transport_checksum pseudo_sum checksum_add
    checksum_finish fold resolve
datagram_encoded = refl

ip_encoded : encode_ipv4 header ip_protocol_tcp (segment_bytes ++ payload) ≡ ok ip_bytes
unfolding encode_ipv4 ipv4_bytes pad4 internet_checksum checksum_add checksum_finish fold resolve
ip_encoded = refl

ethernet_encoded : encode_ethernet ethernet (ipv4 header) ip_bytes ≡ ok tcp_frame
unfolding encode_ethernet
ethernet_encoded = refl

tcp_frame_encoded : encode (framed ethernet header (tcp segment) payload) ≡ ok tcp_frame
unfolding encode protocol_of encode_transport
tcp_frame_encoded = rw (segment_encoded, ip_encoded, ethernet_encoded)

udp_frame_encoded : encode (framed ethernet header (udp datagram) payload) ≡ ok udp_frame
unfolding encode protocol_of encode_transport encode_ipv4 ipv4_bytes pad4 internet_checksum
    checksum_add checksum_finish fold resolve encode_ethernet
udp_frame_encoded = rw datagram_encoded

ethernet_plain : IsPlainEthernet ethernet (ipv4 header)
ethernet_plain = record {
  destination_octets = refl;
  source_octets = refl;
  type_fits = omega arith;
  not_tag = tt;
}

header_plain : IsPlainIpv4 header
header_plain = record {
  identification_fits = omega arith;
  source_octets = refl;
  destination_octets = refl;
  ihl_auto = refl;
  length_auto = refl;
  checksum_auto = refl;
}

frame_plain : IsPlainFrame ethernet header
frame_plain = record {
  ethernet_plain = ethernet_plain;
  network_plain = header_plain;
  unfragmented = refl;
}

options-IsCanonical : All IsCanonical segment.options
options-IsCanonical = (omega arith, (tt, tt))

segment_plain : IsPlainTcp segment
segment_plain = record {
  source_fits = omega arith;
  destination_fits = omega arith;
  sequence_fits = omega arith;
  acknowledgment_fits = omega arith;
  window_fits = omega arith;
  urgent_fits = omega arith;
  options_canonical = options-IsCanonical;
  offset_auto = refl;
  checksum_auto = refl;
}

datagram_plain : IsPlainUdp datagram
datagram_plain = record {
  source_fits = omega arith;
  destination_fits = omega arith;
  length_auto = refl;
  checksum_auto = refl;
}

decode-encode_tcp_frame_example :
    (run : EncodeRun ethernet header (tcp segment) payload tcp_frame) × (seen : Ipv4Header)
    × (received : TcpHeader) × (decode_ethernet tcp_frame
        ≡ ok (
            decoded_packet
              (some (on_wire ethernet header))
              (ipv4 seen)
              (run.segment ++ payload)
              (some true)
              []
              (some (tcp received), payload, some true)))
    × IsReceivedIpv4 header seen run.protocol run.ip
    × IsReceivedTcp segment received
decode-encode_tcp_frame_example =
    decode-encode_tcp_frame ethernet header segment payload tcp_frame frame_plain segment_plain refl
      tcp_frame_encoded

decode-encode_udp_frame_example :
    (run : EncodeRun ethernet header (udp datagram) payload udp_frame) × (seen : Ipv4Header)
    × (received : UdpHeader) × (decode_ethernet udp_frame
        ≡ ok (
            decoded_packet
              (some (on_wire ethernet header))
              (ipv4 seen)
              (run.segment ++ payload)
              (some true)
              []
              (some (udp received), payload, some true)))
    × IsReceivedIpv4 header seen run.protocol run.ip
    × IsReceivedUdp datagram received payload
decode-encode_udp_frame_example =
    decode-encode_udp_frame ethernet header datagram payload udp_frame frame_plain datagram_plain
      refl udp_frame_encoded

decode-encode_ipv4_example :
    (received : Ipv4Header) × (decode_ip_inner ip_bytes none ≡ (
      decode_transport (ipv4 received) ip_protocol_tcp (segment_bytes ++ payload) false
      >>= λ decoded.
          ok (
            decoded_packet none (ipv4 received) (segment_bytes ++ payload) (some true) [] decoded)))
    × IsReceivedIpv4 header received ip_protocol_tcp ip_bytes
decode-encode_ipv4_example =
    decode-encode_ipv4 header ip_protocol_tcp (segment_bytes ++ payload) ip_bytes none header_plain
      refl ip_encoded

decode-encode_ethernet_example :
    decode_ethernet tcp_frame ≡ decode_ip_inner ip_bytes (some (on_wire ethernet header))
decode-encode_ethernet_example =
    decode-encode_ethernet ethernet (ipv4 header) ip_bytes tcp_frame ethernet_plain ethernet_encoded

decode-encode_tcp_example :
    (received : TcpHeader) × (decode_transport
        (ipv4 header)
        ip_protocol_tcp
        (segment_bytes ++ payload)
        false
      ≡ ok (some (tcp received), payload, some true))
    × IsReceivedTcp segment received
decode-encode_tcp_example =
    decode-encode_tcp (ipv4 header) segment payload segment_bytes segment_plain segment_encoded

decode-encode_udp_example :
    (received : UdpHeader) × (decode_transport
        (ipv4 header)
        ip_protocol_udp
        (datagram_bytes ++ payload)
        false
      ≡ ok (some (udp received), payload, some true))
    × IsReceivedUdp datagram received payload
decode-encode_udp_example =
    decode-encode_udp (ipv4 header) datagram payload datagram_bytes datagram_plain datagram_encoded

-- One block of selective acknowledgments, a maximum segment size of one octet, and a kind without a
-- meaning.
abbrev odd_options : List TcpOption
odd_options = sack ((1, 258) ∷ []) ∷ unknown 2 (9 ∷ []) ∷ nop ∷ unknown 253 (7 ∷ 8 ∷ []) ∷ []

abbrev odd_bytes : List ℕ
odd_bytes = 5 ∷ 10 ∷ 0 ∷ 0 ∷ 0 ∷ 1 ∷ 0 ∷ 0 ∷ 1 ∷ 2 ∷ 2 ∷ 3 ∷ 9 ∷ 1 ∷ 253 ∷ 4 ∷ 7 ∷ 8 ∷ []

odd_options-IsCanonical : All IsCanonical odd_options
unfolding is_assigned
odd_options-IsCanonical =
    (((omega arith, omega arith), tt), ((omega arith, refl), (tt, ((omega arith, refl), tt))))

odd_options_encoded : encode_tcp_options odd_options ≡ ok odd_bytes
unfolding encode_tcp_options encode_option encode_blocks
odd_options_encoded = refl

decode-encode_options_example :
    decode_tcp_options (odd_bytes ++ replicate 2 0) ≡ ok (odd_options ++ end_padding 2)
decode-encode_options_example =
    decode-encode_options odd_options odd_bytes 2 odd_options-IsCanonical odd_options_encoded

-- An option that claims no octets at all, behind a maximum segment size.
abbrev empty_option : List ℕ
empty_option = 2 ∷ 4 ∷ 5 ∷ 180 ∷ 30 ∷ 0 ∷ 7 ∷ []

empty_option_refused : decode_tcp_options empty_option ≡ err (invalid_option 30 0)
unfolding decode_tcp_options
empty_option_refused = refl

decode_tcp_options_returns_example :
    (decode_tcp_options empty_option ≢ err Types.out_of_fuel)
    × (decode_tcp_options empty_option ≢ err slice_out_of_range)
decode_tcp_options_returns_example = decode_tcp_options_returns empty_option

internet_checksum_verifies_example :
    internet_checksum (69 ∷ 7 ∷ put_u16 (internet_checksum (69 ∷ 7 ∷ put_u16 0 (9 ∷ []))) (9 ∷ []))
    ≡ 0
internet_checksum_verifies_example = internet_checksum_verifies (69 ∷ 7 ∷ []) (9 ∷ []) refl

two_octets_verify : internet_checksum (69 ∷ 7 ∷ 186 ∷ 248 ∷ []) ≡ 0
unfolding internet_checksum checksum_add checksum_finish fold
two_octets_verify = refl

single_octet_error_example : internet_checksum (69 ∷ 8 ∷ 186 ∷ 248 ∷ []) ≢ 0
single_octet_error_example =
    single_octet_error (69 ∷ []) (186 ∷ 248 ∷ []) 7 8 (omega arith) (omega arith) (omega arith)
      two_octets_verify

abbrev spoilt : TcpHeader
spoilt = record segment { checksum = Types.invalid }

abbrev spoilt_bytes : List ℕ
spoilt_bytes =
    192 ∷ 0 ∷ 0 ∷ 80 ∷ 0 ∷ 0 ∷ 3 ∷ 232 ∷ 0 ∷ 0 ∷ 0 ∷ 0 ∷ 113 ∷ 2 ∷ 255 ∷ 255 ∷ 84 ∷ 137 ∷ 0 ∷ 0 ∷ 2
    ∷ 4 ∷ 5 ∷ 180 ∷ 3 ∷ 3 ∷ 7 ∷ 0 ∷ []

spoilt_encoded : encode_tcp (ipv4 header) spoilt payload ≡ ok spoilt_bytes
unfolding encode_tcp encode_tcp_options encode_option pad4 tcp_bytes transport_checksum pseudo_sum
    checksum_add checksum_finish fold resolve
spoilt_encoded = refl

invalid_checksum_iff_example :
    (options : List ℕ) × (offset calculated : ℕ) × (transport_checksum
        (ipv4 header)
        ip_protocol_tcp
        (tcp_bytes spoilt options offset 0 ++ payload)
      ≡ ok calculated)
    × (spoilt_bytes ≡ tcp_bytes spoilt options offset (0xffff - calculated))
    × ((transport_checksum (ipv4 header) ip_protocol_tcp (spoilt_bytes ++ payload) ≡ ok 0)
        ↔ (calculated ≡ 0))
invalid_checksum_iff_example =
    invalid_checksum_iff (ipv4 header) spoilt payload spoilt_bytes refl spoilt_encoded
