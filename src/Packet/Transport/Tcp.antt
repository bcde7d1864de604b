-- ===== src/Packet/Transport/Tcp.antt =====
-- `encode_tcp` and `decode_transport` of src/packet.rs undo one another on a TCP segment, and the
-- checksum verifies.
use tcpform_protocol_lab.Base.{
  ℕ, ◌+◌, ◌-◌, ◌*◌, ◌/◌, ◌%◌, ◌≤◌, ◌<◌, ◌≡◌, refl, sym, ap, ◌∙◌, ltb-false→le, List, ◌++◌, length,
  take, drop, length-append, take-append, drop-append, drop-drop, arith, ltb, true, false, none,
  some, ok, ok-injective, >>=-eq-ok, refuse_if, refuse_if-eq-ok, bit_and, bit_or, All,
}
use tcpform_protocol_lab.Base.Bits.{bit_or_fields, bit_and_low}
use tcpform_protocol_lab.Packet.Types
use tcpform_protocol_lab.Packet.Types.{PacketError, NetworkHeader, TcpHeader, tcp, auto}
use tcpform_protocol_lab.Packet.Bytes.{
  u16_of_split, u32_of_split, pad4, padding, length-pad4, slice, or_else, put_u16,
}
use tcpform_protocol_lab.Packet.Checksum.{resolve, transport_checksum}
use tcpform_protocol_lab.Packet.Checksum.Valid.{transport_checksum_verifies, transport_checksum-lt}
use tcpform_protocol_lab.Packet.Options.{encode_tcp_options, decode_tcp_options}
use tcpform_protocol_lab.Packet.Options.RoundTrip.{IsCanonical, end_padding, decode-encode_options}
use tcpform_protocol_lab.Packet.Transport.{
  tcp_bytes, encode_tcp, decode_tcp, decode_transport, verified, ip_protocol_tcp,
}

-- Fields of their width, options that the decoder can return, and the data offset and the checksum
-- left to the encoder.
pub record IsPlainTcp (header : TcpHeader) : Type 0 where
  pub source_fits : header.source_port < 0x10000
  pub destination_fits : header.destination_port < 0x10000
  pub sequence_fits : header.sequence < 0x100000000
  pub acknowledgment_fits : header.acknowledgment < 0x100000000
  pub window_fits : header.window < 0x10000
  pub urgent_fits : header.urgent_pointer < 0x10000
  pub options_canonical : All IsCanonical header.options
  pub offset_auto : header.data_offset ≡ none
  pub checksum_auto : header.checksum ≡ auto

-- What a successful run of `encode_tcp` has checked and calculated.
pub record TcpRun (network : NetworkHeader) (header : TcpHeader) (payload bytes : List ℕ)
    : Type 0 where
  pub encoded : List ℕ
  pub options_eq : encode_tcp_options header.options ≡ ok encoded
  pub flags_fit : header.flags ≤ 0x1ff
  pub options_fit : length (pad4 encoded) ≤ 40
  pub offset : ℕ
  pub offset_eq : offset ≡ or_else header.data_offset ((5 + length (pad4 encoded) / 4) % 256)
  pub calculated : ℕ
  pub checksum_eq :
      transport_checksum network ip_protocol_tcp
        (tcp_bytes header (pad4 encoded) offset 0 ++ payload)
      ≡ ok calculated
  pub bytes_eq : bytes ≡ tcp_bytes header (pad4 encoded) offset (resolve header.checksum calculated)

pub tcp_run :
    (network : NetworkHeader) (header : TcpHeader) (payload bytes : List ℕ)
    → encode_tcp network header payload ≡ ok bytes
    → TcpRun network header payload bytes
unfolding encode_tcp
tcp_run network header payload bytes e =
    let (_, p0, e0) =
      >>=-eq-ok (refuse_if (ltb 0x1ff header.flags) PacketError.tcp_flags_too_large) _ e in
    let (encoded, oe, e1) = >>=-eq-ok (encode_tcp_options header.options) _ e0 in
    let options = pad4 encoded in
    let (_, p2, e2) =
      >>=-eq-ok (refuse_if (ltb 40 (length options)) PacketError.tcp_options_too_long) _ e1 in
    let offset = or_else header.data_offset ((5 + length options / 4) % 256) in
    let (_, _, e3) = >>=-eq-ok (refuse_if (ltb 15 offset) PacketError.data_offset_too_large) _ e2 in
    let (calculated, c, e4) =
      >>=-eq-ok
        (transport_checksum network ip_protocol_tcp (tcp_bytes header options offset 0 ++ payload))
        _ e3 in
    record {
      encoded = encoded;
      options_eq = oe;
      flags_fit = ltb-false→le _ _ (refuse_if-eq-ok _ _ p0);
      options_fit = ltb-false→le _ _ (refuse_if-eq-ok _ _ p2);
      offset = offset;
      offset_eq = refl;
      calculated = calculated;
      checksum_eq = c;
      bytes_eq = sym (ok-injective e4);
    }

offset_byte :
    (offset flags : ℕ)
    → offset ≤ 15
    → flags ≤ 0x1ff
    → bit_or (offset * 16 % 256) (bit_and (flags / 256 % 256) 1) ≡ offset * 16 + flags / 256
offset_byte offset flags h f =
    let wrap : offset * 16 % 256 ≡ offset * 16 = omega arith in
    rw
      (
        wrap,
        bit_and_low 1 (flags / 256 % 256),
        bit_or_fields 4 offset (flags / 256 % 256 % 2) (omega arith),
      )
      (omega arith)

abbrev byte_twelve : ℕ → ℕ → ℕ
byte_twelve offset flags = bit_or (offset * 16 % 256) (bit_and (flags / 256 % 256) 1)

offset_back :
    (offset flags : ℕ) → offset ≤ 15 → flags ≤ 0x1ff → byte_twelve offset flags / 16 ≡ offset
offset_back offset flags h f = omega (arith, offset_byte offset flags h f)

flags_back :
    (offset flags : ℕ)
    → offset ≤ 15
    → flags ≤ 0x1ff
    → bit_or (bit_and (byte_twelve offset flags) 1 * 256) (flags % 256) ≡ flags
flags_back offset flags h f =
    rw
      (
        offset_byte offset flags h f,
        bit_and_low 1 (offset * 16 + flags / 256),
        bit_or_fields 8 ((offset * 16 + flags / 256) % 2) (flags % 256) (omega arith),
      )
      (omega arith)

tcp_received : TcpHeader → List ℕ → ℕ → ℕ → TcpHeader
tcp_received header encoded offset checksum = record header {
  options = header.options ++ end_padding (padding (length encoded));
  data_offset = some offset;
  checksum = Types.value checksum;
}

module _ (network : NetworkHeader) (header : TcpHeader) (encoded payload : List ℕ) (offset sum : ℕ)
    (h : IsPlainTcp header) (options_eq : encode_tcp_options header.options ≡ ok encoded)
    (flags_fit : header.flags ≤ 0x1ff) (options_fit : length (pad4 encoded) ≤ 40)
    (offset_eq : offset ≡ 5 + length (pad4 encoded) / 4) (sum_fits : sum < 0x10000) where
  abbrev options : List ℕ
  options = pad4 encoded

  abbrev segment : List ℕ
  segment = tcp_bytes header options offset sum ++ payload

  header_length : offset * 4 ≡ 20 + length options
  header_length = omega (arith, length-pad4 encoded)

  options_slice : slice segment 20 (offset * 4) ≡ options
  unfolding tcp_bytes
  options_slice = take-append options payload {n = offset * 4 - 20} (omega (arith, header_length))

  payload_drop : drop (offset * 4) segment ≡ payload
  unfolding tcp_bytes
  payload_drop =
      rw (header_length, ← drop-drop 20 (length options) segment) (drop-append options payload refl)

  options_decode :
      decode_tcp_options options ≡ ok (header.options ++ end_padding (padding (length encoded)))
  unfolding pad4
  options_decode =
      decode-encode_options header.options encoded (padding (length encoded)) h.options_canonical
        options_eq

  decoded :
      transport_checksum network ip_protocol_tcp segment ≡ ok 0
      → decode_transport network ip_protocol_tcp segment false
        ≡ ok (some (tcp (tcp_received header encoded offset sum)), payload, some true)
  unfolding decode_transport decode_tcp tcp_bytes tcp_received
  decoded e =
      let not_short : ltb (length segment) 20 ≡ false = ground arith in
      let large : ltb offset 5 ≡ false = ground arith in
      let complete : ltb (length segment) (offset * 4) ≡ false =
        ground (arith, header_length, length-append options payload) in
      rw (
        not_short,
        offset_back offset header.flags (omega arith) flags_fit,
        large,
        complete,
        options_slice,
        options_decode,
        verified network ip_protocol_tcp segment e,
        payload_drop,
        flags_back offset header.flags (omega arith) flags_fit,
        u16_of_split header.source_port h.source_fits,
        u16_of_split header.destination_port h.destination_fits,
        u32_of_split header.sequence h.sequence_fits,
        u32_of_split header.acknowledgment h.acknowledgment_fits,
        u16_of_split header.window h.window_fits,
        u16_of_split header.urgent_pointer h.urgent_fits,
        u16_of_split sum sum_fits,
      )

-- What the receiver sees of a header that was sent: the same fields, the padding of the options
-- as the end of their list, and the true data offset.
pub record IsReceivedTcp (sent received : TcpHeader) : Type 0 where
  pub source_port : received.source_port ≡ sent.source_port
  pub destination_port : received.destination_port ≡ sent.destination_port
  pub sequence : received.sequence ≡ sent.sequence
  pub acknowledgment : received.acknowledgment ≡ sent.acknowledgment
  pub flags : received.flags ≡ sent.flags
  pub window : received.window ≡ sent.window
  pub urgent_pointer : received.urgent_pointer ≡ sent.urgent_pointer
  pub encoded : List ℕ
  pub encoded_eq : encode_tcp_options sent.options ≡ ok encoded
  pub options : received.options ≡ sent.options ++ end_padding (padding (length encoded))
  pub data_offset : received.data_offset ≡ some (5 + length (pad4 encoded) / 4)

sent_verifies :
    (network : NetworkHeader) (header : TcpHeader) (options : List ℕ) (offset calculated : ℕ)
    (payload : List ℕ)
    → transport_checksum network ip_protocol_tcp (tcp_bytes header options offset 0 ++ payload)
      ≡ ok calculated
    → transport_checksum network ip_protocol_tcp
        (tcp_bytes header options offset calculated ++ payload)
      ≡ ok 0
unfolding tcp_bytes
sent_verifies network header options offset calculated payload e =
    transport_checksum_verifies network ip_protocol_tcp
      (take 16 (tcp_bytes header options offset 0))
      (put_u16 header.urgent_pointer options ++ payload) refl calculated e

received :
    (header : TcpHeader) (encoded : List ℕ) (offset sum : ℕ)
    → encode_tcp_options header.options ≡ ok encoded
    → offset ≡ 5 + length (pad4 encoded) / 4
    → IsReceivedTcp header (tcp_received header encoded offset sum)
unfolding tcp_received
received header encoded offset sum e o = record {
  source_port = refl;
  destination_port = refl;
  sequence = refl;
  acknowledgment = refl;
  flags = refl;
  window = refl;
  urgent_pointer = refl;
  encoded = encoded;
  encoded_eq = e;
  options = refl;
  data_offset = ap some o;
}

-- A segment that `encode_tcp` accepts, with canonical options, and the data offset and checksum left
-- to it, decodes to the same fields and payload, and with a checksum that verifies.
pub decode-encode_tcp :
    (network : NetworkHeader) (header : TcpHeader) (payload bytes : List ℕ)
    → IsPlainTcp header
    → encode_tcp network header payload ≡ ok bytes
    → (received : TcpHeader) × (decode_transport network ip_protocol_tcp (bytes ++ payload) false
        ≡ ok (some (tcp received), payload, some true))
      × IsReceivedTcp header received
decode-encode_tcp network header payload bytes h e =
    let run = tcp_run network header payload bytes e in
    let resolved : resolve header.checksum run.calculated ≡ run.calculated =
      rw h.checksum_auto (unfold resolve in refl) in
    let offset_eq : run.offset ≡ 5 + length (pad4 run.encoded) / 4 =
      run.offset_eq ∙ rw h.offset_auto (omega (arith, run.options_fit)) in
    rw (run.bytes_eq, resolved)
      (
        tcp_received header run.encoded run.offset run.calculated,
        decoded network header run.encoded payload run.offset run.calculated h run.options_eq
            run.flags_fit run.options_fit offset_eq
            (transport_checksum-lt network ip_protocol_tcp _ run.checksum_eq)
            (sent_verifies network header (pad4 run.encoded) run.offset run.calculated payload
              run.checksum_eq),
        received header run.encoded run.offset run.calculated run.options_eq offset_eq,
      )
