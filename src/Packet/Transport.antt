-- ===== src/Packet/Transport.antt =====
-- `encode_transport`, `encode_tcp`, `encode_udp`, `complete_transport_header` and
-- `decode_transport` of src/packet.rs.
pub mod Tcp
pub mod Udp
pub mod Damage
use tcpform_protocol_lab.Base.{
  ℕ, ◌≡◌, ◌+◌, ◌*◌, ◌/◌, ◌%◌, bit_and, bit_or, Bool, true, false, ◌&&◌, ◌||◌, not, Option, none,
  some, List, [], ◌∷◌, ◌++◌, length, take, drop, min, ltb, leb, ◌==◌, if◌then◌else◌, Result, ok,
  err, ◌>>=◌, ◌>>◌, refuse_if,
}
use tcpform_protocol_lab.Packet.Types
use tcpform_protocol_lab.Packet.Types.{
  PacketError, NetworkHeader, TcpHeader, UdpHeader, TransportHeader, tcp, udp, ipv4, ipv6,
}
use tcpform_protocol_lab.Packet.Bytes.{
  put_u16, put_u32, u8_at, u16_at, u32_at, slice, pad4, or_else,
}
use tcpform_protocol_lab.Packet.Checksum.{resolve, transport_checksum}
use tcpform_protocol_lab.Packet.Options.{encode_tcp_options, decode_tcp_options}

-- IP_PROTOCOL_TCP and IP_PROTOCOL_UDP
abbrev pub ip_protocol_tcp : ℕ
ip_protocol_tcp = 6

abbrev pub ip_protocol_udp : ℕ
ip_protocol_udp = 17

-- The buffer of `encode_tcp`, with what stands in the checksum field.
unfoldable pub tcp_bytes : TcpHeader → List ℕ → ℕ → ℕ → List ℕ
tcp_bytes header options offset checksum = put_u16 header.source_port (
    put_u16 header.destination_port (
      put_u32 header.sequence (
        put_u32 header.acknowledgment (
          bit_or (offset * 16 % 256) (bit_and (header.flags / 256 % 256) 1)
          ∷ (header.flags % 256)
          ∷ put_u16 header.window (put_u16 checksum (put_u16 header.urgent_pointer options))))))

unfoldable pub encode_tcp : NetworkHeader → TcpHeader → List ℕ → Result PacketError (List ℕ)
encode_tcp network header payload = do
  refuse_if (ltb 0x1ff header.flags) PacketError.tcp_flags_too_large
  encoded ← encode_tcp_options header.options
  let options = pad4 encoded
  refuse_if (ltb 40 (length options)) PacketError.tcp_options_too_long
  let offset = or_else header.data_offset ((5 + length options / 4) % 256)
  refuse_if (ltb 15 offset) PacketError.data_offset_too_large
  calculated ←
      transport_checksum network ip_protocol_tcp (tcp_bytes header options offset 0 ++ payload)
  ok (tcp_bytes header options offset (resolve header.checksum calculated))

unfoldable pub udp_bytes : UdpHeader → ℕ → ℕ → List ℕ
udp_bytes header len checksum =
    put_u16 header.source_port (put_u16 header.destination_port (put_u16 len (put_u16 checksum [])))

-- A calculated zero is sent as 0xffff.
unfoldable pub nonzero_checksum : ℕ → ℕ
nonzero_checksum calculated = if calculated == 0 then 0xffff else calculated

unfoldable pub encode_udp : NetworkHeader → UdpHeader → List ℕ → Result PacketError (List ℕ)
encode_udp network header payload = do
  let actual_length = 8 + length payload
  refuse_if (ltb 0xffff actual_length) PacketError.udp_too_long
  let len = or_else header.length actual_length
  calculated ← transport_checksum network ip_protocol_udp (udp_bytes header len 0 ++ payload)
  ok (udp_bytes header len (resolve header.checksum (nonzero_checksum calculated)))

unfoldable pub encode_transport :
    NetworkHeader → Option TransportHeader → List ℕ → Result PacketError (List ℕ)
encode_transport network none payload = ok []
encode_transport network (some (tcp header)) payload = encode_tcp network header payload
encode_transport network (some (udp header)) payload = encode_udp network header payload

unfoldable pub complete_transport_header : ℕ → List ℕ → Bool
complete_transport_header protocol bytes =
    if protocol == ip_protocol_tcp
    then ltb 12 (length bytes)
      && (leb 5 (u8_at bytes 12 / 16) && leb (u8_at bytes 12 / 16 * 4) (length bytes))
    else if protocol == ip_protocol_udp
    then leb 8 (length bytes)
    else true

abbrev pub DecodedTransport : Type 0
DecodedTransport = Option TransportHeader × List ℕ × Option Bool

-- `Some(transport_checksum(..)? == 0)`
unfoldable pub verify : NetworkHeader → ℕ → List ℕ → Result PacketError (Option Bool)
verify network protocol segment = do
  checksum ← transport_checksum network protocol segment
  ok (some (checksum == 0))

pub verified :
    (network : NetworkHeader) (protocol : ℕ) (segment : List ℕ)
    → transport_checksum network protocol segment ≡ ok 0
    → verify network protocol segment ≡ ok (some true)
unfolding verify
verified network protocol segment e = rw e

unfoldable pub decode_tcp : NetworkHeader → List ℕ → Bool → Result PacketError DecodedTransport
decode_tcp network bytes fragmented = do
  refuse_if (ltb (length bytes) 20) PacketError.truncated_tcp
  let data_offset = u8_at bytes 12 / 16
  refuse_if (ltb data_offset 5) (PacketError.invalid_data_offset data_offset)
  let header_len = data_offset * 4
  refuse_if (ltb (length bytes) header_len) PacketError.truncated_tcp_options
  options ← decode_tcp_options (slice bytes 20 header_len)
  valid ← (if fragmented then ok none else verify network ip_protocol_tcp bytes)
  ok (
    some (
        tcp (record {
          source_port = u16_at bytes 0;
          destination_port = u16_at bytes 2;
          sequence = u32_at bytes 4;
          acknowledgment = u32_at bytes 8;
          flags = bit_or (bit_and (u8_at bytes 12) 1 * 256) (u8_at bytes 13);
          window = u16_at bytes 14;
          urgent_pointer = u16_at bytes 18;
          options = options;
          data_offset = some data_offset;
          checksum = Types.value (u16_at bytes 16);
        })),
    drop header_len bytes,
    valid,
  )

unfoldable pub is_ipv4 : NetworkHeader → Bool
is_ipv4 (ipv4 header) = true
is_ipv4 (ipv6 header) = false

unfoldable pub decode_udp : NetworkHeader → List ℕ → Bool → Result PacketError DecodedTransport
decode_udp network bytes fragmented = do
  refuse_if (ltb (length bytes) 8) PacketError.truncated_udp
  let declared = u16_at bytes 4
  refuse_if (ltb declared 8 || (not fragmented && ltb (length bytes) declared))
      (PacketError.invalid_udp_length declared)
  let available = min declared (length bytes)
  let checksum = u16_at bytes 6
  valid ←
      (if fragmented
        then ok none
        else if checksum == 0 && is_ipv4 network
        then ok (some true)
        else verify network ip_protocol_udp (take available bytes))
  ok (
    some (
        udp (record {
          source_port = u16_at bytes 0;
          destination_port = u16_at bytes 2;
          length = some declared;
          checksum = Types.value checksum;
        })),
    slice bytes 8 available,
    valid,
  )

unfoldable pub decode_transport :
    NetworkHeader → ℕ → List ℕ → Bool → Result PacketError DecodedTransport
decode_transport network protocol bytes fragmented =
    if protocol == ip_protocol_tcp
    then decode_tcp network bytes fragmented
    else if protocol == ip_protocol_udp
    then decode_udp network bytes fragmented
    else ok (none, bytes, none)
