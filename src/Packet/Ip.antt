-- ===== src/Packet/Ip.antt =====
-- `encode_ipv4`, `encode_ipv6`, `decode_ipv4`, `decode_ipv6` and `decode_ip_inner` of src/packet.rs.
pub mod Fields
pub mod Ipv4
use tcpform_protocol_lab.Base.{
  ℕ, ◌+◌, ◌*◌, ◌/◌, ◌%◌, bit_and, bit_or, Bool, true, false, ◌&&◌, ◌||◌, not, Option, none, some,
  List, [], ◌∷◌, ◌++◌, length, take, drop, ltb, leb, ◌==◌, if◌then◌else◌, Result, ok, err, ◌>>=◌,
  ◌>>◌, refuse_if,
}
use tcpform_protocol_lab.Packet.Types
use tcpform_protocol_lab.Packet.Types.{
  PacketError, EthernetHeader, Ipv4Header, Ipv6Header, Ipv6Fragment, NetworkHeader, ipv4, ipv6,
  DecodedPacket,
}
use tcpform_protocol_lab.Packet.Bytes.{
  put_u16, put_u32, u8_at, u16_at, u32_at, slice, pad4, bit, or_else,
}
use tcpform_protocol_lab.Packet.Checksum.{resolve, internet_checksum}
use tcpform_protocol_lab.Packet.Transport.{
  DecodedTransport, complete_transport_header, decode_transport,
}

-- IP_PROTOCOL_FRAGMENT
abbrev pub ip_protocol_fragment : ℕ
ip_protocol_fragment = 44

-- The header buffer of `encode_ipv4`, with what stands in the checksum field.
unfoldable pub ipv4_bytes : Ipv4Header → ℕ → List ℕ → ℕ → ℕ → ℕ → List ℕ
ipv4_bytes header protocol options ihl total_length checksum =
    bit_or 0x40 ihl
    ∷ bit_or (header.dscp * 4 % 256) header.ecn
    ∷ put_u16 total_length (
        put_u16 header.identification (
          put_u16
            (bit_or
              (bit_or (bit header.dont_fragment * 0x4000) (bit header.more_fragments * 0x2000))
              header.fragment_offset)
            (header.ttl
              ∷ or_else header.protocol protocol
              ∷ put_u16 checksum (header.source ++ (header.destination ++ options)))))

unfoldable pub encode_ipv4 : Ipv4Header → ℕ → List ℕ → Result PacketError (List ℕ)
encode_ipv4 header protocol payload = do
  refuse_if (ltb 63 header.dscp || (ltb 3 header.ecn || ltb 8191 header.fragment_offset))
      PacketError.ipv4_field_out_of_range
  refuse_if (ltb 40 (length header.options)) PacketError.ipv4_options_too_long
  let options = pad4 header.options
  let ihl = or_else header.ihl ((5 + length options / 4) % 256)
  refuse_if (ltb 15 ihl) PacketError.ihl_too_large
  let actual_length = 20 + length options + length payload
  -- `checked_add` on a usize of 64 bits
  refuse_if (leb 0x10000000000000000 actual_length) PacketError.length_overflow
  refuse_if (ltb 0xffff actual_length) PacketError.ipv4_too_long
  let total_length = or_else header.total_length actual_length
  let calculated = internet_checksum (ipv4_bytes header protocol options ihl total_length 0)
  ok (
      ipv4_bytes header protocol options ihl total_length (resolve header.checksum calculated)
      ++ payload)

-- The header of `decode_ipv4`, read from a buffer that passed the guards.
unfoldable pub ipv4_header_of : List ℕ → Ipv4Header
ipv4_header_of bytes =
    let fragment = u16_at bytes 6 in
    record {
      dscp = u8_at bytes 1 / 4;
      ecn = bit_and (u8_at bytes 1) 3;
      identification = u16_at bytes 4;
      dont_fragment = not (bit_and fragment 0x4000 == 0);
      more_fragments = not (bit_and fragment 0x2000 == 0);
      fragment_offset = bit_and fragment 0x1fff;
      ttl = u8_at bytes 8;
      protocol = some (u8_at bytes 9);
      source = slice bytes 12 16;
      destination = slice bytes 16 20;
      options = slice bytes 20 (bit_and (u8_at bytes 0) 15 * 4);
      ihl = some (bit_and (u8_at bytes 0) 15);
      total_length = some (u16_at bytes 2);
      checksum = Types.value (u16_at bytes 10);
    }

-- The decoded packet, from what `decode_transport` returned.
abbrev pub decoded_packet :
    Option EthernetHeader
    → NetworkHeader
    → List ℕ
    → Option Bool
    → List ℕ
    → DecodedTransport
    → DecodedPacket
decoded_packet ethernet network ip_payload checksum_valid trailing decoded = record {
  packet = record {
    ethernet = ethernet;
    network = network;
    transport = decoded.0;
    payload = decoded.1;
  };
  network_payload = ip_payload;
  ipv4_checksum_valid = checksum_valid;
  transport_checksum_valid = decoded.2;
  trailing = trailing;
}

unfoldable pub decode_ipv4 : List ℕ → Option EthernetHeader → Result PacketError DecodedPacket
decode_ipv4 bytes ethernet = do
  refuse_if (ltb (length bytes) 20) PacketError.truncated_ipv4
  let ihl = bit_and (u8_at bytes 0) 15
  refuse_if (ltb ihl 5) (PacketError.invalid_ihl ihl)
  let header_len = ihl * 4
  refuse_if (ltb (length bytes) header_len) PacketError.truncated_ipv4_options
  let total_length = u16_at bytes 2
  refuse_if (ltb total_length header_len || ltb (length bytes) total_length)
      (PacketError.invalid_total_length total_length (length bytes))
  let protocol = u8_at bytes 9
  let header = ipv4_header_of bytes
  let checksum_valid = internet_checksum (take header_len bytes) == 0
  let ip_payload = slice bytes header_len total_length
  let fragmented = not (header.fragment_offset == 0) || header.more_fragments
  decoded ←
      (if fragmented
          && (not (header.fragment_offset == 0)
              || not (complete_transport_header protocol ip_payload))
        then ok (none, ip_payload, none)
        else decode_transport (ipv4 header) protocol ip_payload fragmented)
  ok (
      decoded_packet ethernet (ipv4 header) ip_payload (some checksum_valid)
        (drop total_length bytes) decoded)

-- The bytes pushed for the fragment extension header.
unfoldable pub fragment_bytes : Ipv6Fragment → List ℕ
fragment_bytes fragment =
    fragment.next_header
    ∷ 0
    ∷ put_u16 (bit_or (fragment.offset * 8 % 0x10000) (bit fragment.more_fragments))
        (put_u32 fragment.identification [])

unfoldable pub encode_fragment : Option Ipv6Fragment → Result PacketError (List ℕ)
unfolding fragment_bytes
encode_fragment none = ok []
encode_fragment (some fragment) = do
  refuse_if (ltb 8191 fragment.offset) PacketError.ipv6_offset_too_large
  ok (fragment_bytes fragment)

abbrev pub extension_len : Option Ipv6Fragment → ℕ
extension_len none = 0
extension_len (some fragment) = 8

-- bytes[6]
abbrev pub next_header_byte : Ipv6Header → ℕ → Option Ipv6Fragment → ℕ
next_header_byte header protocol none = or_else header.next_header protocol
next_header_byte header protocol (some fragment) = ip_protocol_fragment

unfoldable pub encode_ipv6 : Ipv6Header → ℕ → List ℕ → Result PacketError (List ℕ)
unfolding encode_fragment
encode_ipv6 header protocol payload = do
  refuse_if (ltb 0xfffff header.flow_label) PacketError.flow_label_too_large
  let actual_length = extension_len header.fragment + length payload
  refuse_if (ltb 0xffff actual_length) PacketError.ipv6_too_long
  let payload_length = or_else header.payload_length actual_length
  let first =
      bit_or (bit_or 0x60000000 (header.traffic_class * 0x100000))
        (bit_and header.flow_label 0xfffff)
  extension ← encode_fragment header.fragment
  ok (
      put_u32 first (
        put_u16 payload_length (
          next_header_byte header protocol header.fragment
          ∷ header.hop_limit
          ∷ (header.source ++ (header.destination ++ (extension ++ payload))))))

unfoldable pub ipv6_fragment_of : List ℕ → Ipv6Fragment
ipv6_fragment_of bytes =
    let bits = u16_at bytes 42 in
    record {
      next_header = u8_at bytes 40;
      offset = bits / 8;
      more_fragments = not (bit_and bits 1 == 0);
      identification = u32_at bytes 44;
    }

unfoldable pub decode_fragment : List ℕ → ℕ → Result PacketError (Option Ipv6Fragment)
unfolding ipv6_fragment_of
decode_fragment bytes total_length =
    if u8_at bytes 6 == ip_protocol_fragment
    then (do
      refuse_if (ltb total_length 48) PacketError.truncated_ipv6_fragment
      ok (some (ipv6_fragment_of bytes)))
    else ok none

unfoldable pub ipv6_header_of : List ℕ → Option Ipv6Fragment → Ipv6Header
ipv6_header_of bytes fragment =
    let first = u32_at bytes 0 in
    record {
      traffic_class = bit_and (first / 0x100000) 255 % 256;
      flow_label = bit_and first 0xfffff;
      payload_length = some (u16_at bytes 4);
      next_header = some (u8_at bytes 6);
      hop_limit = u8_at bytes 7;
      source = slice bytes 8 24;
      destination = slice bytes 24 40;
      fragment = fragment;
    }

-- `offset`, `protocol`, `fragmented`, and whether no transport header is decoded.
abbrev pub payload_offset : Option Ipv6Fragment → ℕ
payload_offset none = 40
payload_offset (some fragment) = 48

abbrev pub carried_protocol : List ℕ → Option Ipv6Fragment → ℕ
carried_protocol bytes none = u8_at bytes 6
carried_protocol bytes (some fragment) = fragment.next_header

abbrev pub is_fragmented : Option Ipv6Fragment → Bool
is_fragmented none = false
is_fragmented (some fragment) = not (fragment.offset == 0) || fragment.more_fragments

abbrev pub is_opaque : Option Ipv6Fragment → ℕ → List ℕ → Bool
is_opaque none protocol ip_payload = false
is_opaque (some fragment) protocol ip_payload =
    not (fragment.offset == 0) || not (complete_transport_header protocol ip_payload)

unfoldable pub decode_ipv6 : List ℕ → Option EthernetHeader → Result PacketError DecodedPacket
decode_ipv6 bytes ethernet = do
  refuse_if (ltb (length bytes) 40) PacketError.truncated_ipv6
  let payload_length = u16_at bytes 4
  let total_length = 40 + payload_length
  refuse_if (ltb (length bytes) total_length)
      (PacketError.invalid_payload_length payload_length (length bytes))
  fragment ← decode_fragment bytes total_length
  let protocol = carried_protocol bytes fragment
  let header = ipv6_header_of bytes fragment
  let ip_payload = slice bytes (payload_offset fragment) total_length
  decoded ←
      (if is_opaque fragment protocol ip_payload
        then ok (none, ip_payload, none)
        else decode_transport (ipv6 header) protocol ip_payload (is_fragmented fragment))
  ok (decoded_packet ethernet (ipv6 header) ip_payload none (drop total_length bytes) decoded)

unfoldable pub decode_ip_inner : List ℕ → Option EthernetHeader → Result PacketError DecodedPacket
decode_ip_inner [] ethernet = err PacketError.empty_packet
decode_ip_inner (first ∷ rest) ethernet =
    if first / 16 == 4
    then decode_ipv4 (first ∷ rest) ethernet
    else if first / 16 == 6
    then decode_ipv6 (first ∷ rest) ethernet
    else err (PacketError.unsupported_version (first / 16))

unfoldable pub decode_ip : List ℕ → Result PacketError DecodedPacket
unfolding decode_ip_inner
decode_ip bytes = decode_ip_inner bytes none
