-- ===== src/Packet/Ip/Ipv4.antt =====
-- `encode_ipv4` and `decode_ipv4` of src/packet.rs undo one another.
use tcpform_protocol_lab.Base.{
  ℕ, ◌+◌, ◌-◌, ◌*◌, ◌/◌, ◌%◌, ◌≤◌, ◌<◌, ◌≡◌, refl, sym, ap, ◌∙◌, List, [], ◌++◌, append_assoc,
  length, take, drop, length-append, take-append, take-all, drop-append, drop-drop, drop-all, arith,
  ltb, leb, ltb-false→le, ◌==◌, ◌||◌, not, true, false, Option, none, some, ok, ok-injective,
  >>=-eq-ok, refuse_if, refuse_if-eq-ok, ◌>>=◌,
}
use tcpform_protocol_lab.Packet.Ip.Fields.{version_ihl, dscp_ecn, fragment_word, fragment_fields}
use tcpform_protocol_lab.Packet.Types
use tcpform_protocol_lab.Packet.Types.{
  PacketError, EthernetHeader, Ipv4Header, ipv4, auto, DecodedPacket,
}
use tcpform_protocol_lab.Packet.Bytes.{u16_of_split, pad4, length-pad4, or_else}
use tcpform_protocol_lab.Packet.Checksum.{resolve, internet_checksum}
use tcpform_protocol_lab.Packet.Checksum.Valid.{internet_checksum_verifies, internet_checksum-lt}
use tcpform_protocol_lab.Packet.Transport.{decode_transport}
use tcpform_protocol_lab.Packet.Ip.{
  ipv4_bytes, encode_ipv4, ipv4_header_of, decode_ipv4, decoded_packet, decode_ip_inner,
}

-- Fields of their width, and the lengths and the checksum left to the encoder.
pub record IsPlainIpv4 (header : Ipv4Header) : Type 0 where
  pub identification_fits : header.identification < 0x10000
  pub source_octets : length header.source ≡ 4
  pub destination_octets : length header.destination ≡ 4
  pub ihl_auto : header.ihl ≡ none
  pub length_auto : header.total_length ≡ none
  pub checksum_auto : header.checksum ≡ auto

-- What a successful run of `encode_ipv4` has checked and calculated.
pub record Ipv4Run (header : Ipv4Header) (protocol : ℕ) (payload bytes : List ℕ) : Type 0 where
  pub dscp_fits : header.dscp ≤ 63
  pub ecn_fits : header.ecn ≤ 3
  pub offset_fits : header.fragment_offset ≤ 8191
  pub options_fit : length header.options ≤ 40
  pub ihl : ℕ
  pub ihl_eq : ihl ≡ or_else header.ihl ((5 + length (pad4 header.options) / 4) % 256)
  pub total_fits : 20 + length (pad4 header.options) + length payload ≤ 0xffff
  pub total_length : ℕ
  pub total_eq :
      total_length
      ≡ or_else header.total_length (20 + length (pad4 header.options) + length payload)
  pub bytes_eq :
      bytes
      ≡ ipv4_bytes header protocol (pad4 header.options) ihl total_length (
          resolve header.checksum (
            internet_checksum
              (ipv4_bytes header protocol (pad4 header.options) ihl total_length 0)))
        ++ payload

three_tests :
    (a b c : ℕ) → (ltb 63 a || (ltb 3 b || ltb 8191 c)) ≡ false → (a ≤ 63) × (b ≤ 3) × (c ≤ 8191)
three_tests a b c h = ground arith

pub ipv4_run :
    (header : Ipv4Header) (protocol : ℕ) (payload bytes : List ℕ)
    → encode_ipv4 header protocol payload ≡ ok bytes
    → Ipv4Run header protocol payload bytes
unfolding encode_ipv4
ipv4_run header protocol payload bytes e =
    let (_, p0, e0) =
      >>=-eq-ok
        (refuse_if (ltb 63 header.dscp || (ltb 3 header.ecn || ltb 8191 header.fragment_offset))
          PacketError.ipv4_field_out_of_range)
        _ e in
    let (_, p1, e1) =
      >>=-eq-ok (refuse_if (ltb 40 (length header.options)) PacketError.ipv4_options_too_long) _
        e0 in
    let options = pad4 header.options in
    let ihl = or_else header.ihl ((5 + length options / 4) % 256) in
    let (_, p2, e2) = >>=-eq-ok (refuse_if (ltb 15 ihl) PacketError.ihl_too_large) _ e1 in
    let actual_length = 20 + length options + length payload in
    let (_, p3, e3) =
      >>=-eq-ok (refuse_if (leb 0x10000000000000000 actual_length) PacketError.length_overflow) _
        e2 in
    let (_, p4, e4) =
      >>=-eq-ok (refuse_if (ltb 0xffff actual_length) PacketError.ipv4_too_long) _ e3 in
    let fields = three_tests _ _ _ (refuse_if-eq-ok _ _ p0) in
    record {
      dscp_fits = fields.0;
      ecn_fits = fields.1;
      offset_fits = fields.2;
      options_fit = ltb-false→le _ _ (refuse_if-eq-ok _ _ p1);
      ihl = ihl;
      ihl_eq = refl;
      total_fits = ltb-false→le _ _ (refuse_if-eq-ok _ _ p4);
      total_length = or_else header.total_length actual_length;
      total_eq = refl;
      bytes_eq = sym (ok-injective e4);
    }

-- The header that the receiver reads: the same fields, the padded options, and the true lengths.
pub ipv4_received : Ipv4Header → ℕ → ℕ → ℕ → ℕ → Ipv4Header
ipv4_received header protocol ihl total_length sum = record header {
  protocol = some (or_else header.protocol protocol);
  options = pad4 header.options;
  ihl = some ihl;
  total_length = some total_length;
  checksum = Types.value sum;
}

module _ (header : Ipv4Header) (protocol : ℕ) (payload : List ℕ) (ihl total_length sum : ℕ)
    (h : IsPlainIpv4 header) (dscp_fits : header.dscp ≤ 63) (ecn_fits : header.ecn ≤ 3)
    (offset_fits : header.fragment_offset ≤ 8191)
    (ihl_eq : ihl * 4 ≡ 20 + length (pad4 header.options)) (ihl_fits : ihl ≤ 15)
    (total_eq : total_length ≡ 20 + length (pad4 header.options) + length payload)
    (total_fits : total_length ≤ 0xffff) (sum_fits : sum < 0x10000) where
  abbrev options : List ℕ
  options = pad4 header.options

  abbrev front : List ℕ
  front = ipv4_bytes header protocol options ihl total_length sum

  -- What stands behind the first twelve octets.
  abbrev behind : List ℕ
  behind = (header.source ++ (header.destination ++ options)) ++ payload

  length-front : length front ≡ ihl * 4
  unfolding ipv4_bytes
  length-front = omega (
    arith,
    h.source_octets,
    h.destination_octets,
    ihl_eq,
    length-append header.source (header.destination ++ options),
    length-append header.destination options,
  )

  behind_assoc : behind ≡ header.source ++ (header.destination ++ (options ++ payload))
  behind_assoc = rw (
    append_assoc header.source (header.destination ++ options) payload,
    append_assoc header.destination options payload,
  )

  source_slice : take 4 behind ≡ header.source
  source_slice = rw behind_assoc (take-append header.source _ (sym h.source_octets))

  behind_source : drop 4 behind ≡ header.destination ++ (options ++ payload)
  behind_source = rw behind_assoc (drop-append header.source _ (sym h.source_octets))

  destination_slice : take 4 (drop 4 behind) ≡ header.destination
  destination_slice = rw behind_source (take-append header.destination _ (sym h.destination_octets))

  options_slice : take (ihl * 4 - 20) (drop 8 behind) ≡ options
  options_slice =
      rw (← drop-drop 4 4 behind, behind_source)
        (rw (drop-append header.destination (options ++ payload) (sym h.destination_octets))
          (take-append options payload (omega (arith, ihl_eq))))

  ipv4_header_back :
      ipv4_header_of (front ++ payload) ≡ ipv4_received header protocol ihl total_length sum
  unfolding ipv4_header_of ipv4_bytes ipv4_received
  ipv4_header_back =
      let (_, ihl_back) = version_ihl ihl ihl_fits in
      let (dscp_back, ecn_back) = dscp_ecn header.dscp header.ecn dscp_fits ecn_fits in
      let (word_fits, dont_back, more_back, offset_back) =
        fragment_fields header.dont_fragment header.more_fragments header.fragment_offset
          offset_fits in
      rw (
        ihl_back,
        dscp_back,
        ecn_back,
        u16_of_split
            (fragment_word header.dont_fragment header.more_fragments header.fragment_offset)
            word_fits,
        dont_back,
        more_back,
        offset_back,
        u16_of_split header.identification h.identification_fits,
        u16_of_split total_length (omega arith),
        u16_of_split sum sum_fits,
        source_slice,
        destination_slice,
        options_slice,
      )

  -- An unfragmented packet whose header verifies is handed to the transport decoder.
  decode_ipv4_whole :
      (ethernet : Option EthernetHeader)
      → (not (header.fragment_offset == 0) || header.more_fragments) ≡ false
      → internet_checksum front ≡ 0
      → decode_ipv4 (front ++ payload) ethernet ≡ (
          decode_transport
            (ipv4 (ipv4_received header protocol ihl total_length sum))
            (or_else header.protocol protocol)
            payload
            false
          >>= λ decoded. ok (
              decoded_packet ethernet
                (ipv4 (ipv4_received header protocol ihl total_length sum))
                payload
                (some true)
                []
                decoded))
  unfolding decode_ipv4 ipv4_bytes ipv4_received
  decode_ipv4_whole ethernet whole verifies =
      let size : length (front ++ payload) ≡ total_length =
        omega (arith, length-append front payload, length-front, ihl_eq, total_eq) in
      let not_short : ltb (length (front ++ payload)) 20 ≡ false = ground (arith, size, total_eq) in
      let (_, ihl_back) = version_ihl ihl ihl_fits in
      let large : ltb ihl 5 ≡ false = ground (arith, ihl_eq) in
      let complete : ltb (length (front ++ payload)) (ihl * 4) ≡ false =
        ground (arith, size, ihl_eq, total_eq) in
      let in_range : (ltb total_length (ihl * 4) || ltb (length (front ++ payload)) total_length)
          ≡ false =
        ground (arith, size, ihl_eq, total_eq) in
      let header_part : take (ihl * 4) (front ++ payload) ≡ front =
        take-append front payload (sym length-front) in
      let payload_part : drop (ihl * 4) (front ++ payload) ≡ payload =
        drop-append front payload (sym length-front) in
      let payload_whole : take (total_length - ihl * 4) payload ≡ payload =
        take-all payload (omega (arith, ihl_eq, total_eq)) in
      let nothing_behind : drop total_length (front ++ payload) ≡ [] =
        drop-all (front ++ payload) (omega (arith, size)) in
      rw (
        not_short,
        ipv4_header_back,
        ihl_back,
        large,
        complete,
        u16_of_split total_length (omega arith),
        in_range,
        header_part,
        payload_part,
        payload_whole,
        nothing_behind,
        verifies,
        whole,
      )

-- What the receiver sees of a header that was sent around `payload` in `bytes`.
pub record IsReceivedIpv4 (sent received : Ipv4Header) (protocol : ℕ) (bytes : List ℕ)
    : Type 0 where
  pub dscp : received.dscp ≡ sent.dscp
  pub ecn : received.ecn ≡ sent.ecn
  pub identification : received.identification ≡ sent.identification
  pub dont_fragment : received.dont_fragment ≡ sent.dont_fragment
  pub more_fragments : received.more_fragments ≡ sent.more_fragments
  pub fragment_offset : received.fragment_offset ≡ sent.fragment_offset
  pub ttl : received.ttl ≡ sent.ttl
  pub protocol_eq : received.protocol ≡ some (or_else sent.protocol protocol)
  pub source : received.source ≡ sent.source
  pub destination : received.destination ≡ sent.destination
  pub options : received.options ≡ pad4 sent.options
  pub total_length : received.total_length ≡ some (length bytes)

received :
    (header : Ipv4Header) (protocol ihl total_length sum : ℕ) (bytes : List ℕ)
    → total_length ≡ length bytes
    → IsReceivedIpv4 header (ipv4_received header protocol ihl total_length sum) protocol bytes
unfolding ipv4_received
received header protocol ihl total_length sum bytes e = record {
  dscp = refl;
  ecn = refl;
  identification = refl;
  dont_fragment = refl;
  more_fragments = refl;
  fragment_offset = refl;
  ttl = refl;
  protocol_eq = refl;
  source = refl;
  destination = refl;
  options = refl;
  total_length = ap some e;
}

header_verifies :
    (header : Ipv4Header) (protocol : ℕ) (options : List ℕ) (ihl total_length : ℕ)
    → internet_checksum (
        ipv4_bytes header protocol options ihl total_length
          (internet_checksum (ipv4_bytes header protocol options ihl total_length 0)))
      ≡ 0
unfolding ipv4_bytes
header_verifies header protocol options ihl total_length =
    internet_checksum_verifies (take 10 (ipv4_bytes header protocol options ihl total_length 0))
      (header.source ++ (header.destination ++ options)) refl

version_four :
    (header : Ipv4Header) (protocol : ℕ) (options payload : List ℕ) (ihl total_length sum : ℕ)
    (ethernet : Option EthernetHeader)
    → ihl ≤ 15
    → decode_ip_inner (ipv4_bytes header protocol options ihl total_length sum ++ payload) ethernet
      ≡ decode_ipv4 (ipv4_bytes header protocol options ihl total_length sum ++ payload) ethernet
unfolding decode_ip_inner ipv4_bytes
version_four header protocol options payload ihl total_length sum ethernet h =
    rw ((version_ihl ihl h).0)

-- An unfragmented packet that `encode_ipv4` accepts, with its lengths and checksum left to it,
-- decodes to the same header and payload, its header checksum verifies, nothing is left over, and
-- the payload goes to the transport decoder.
pub decode-encode_ipv4 :
    (header : Ipv4Header) (protocol : ℕ) (payload bytes : List ℕ) (ethernet : Option EthernetHeader)
    → IsPlainIpv4 header
    → (not (header.fragment_offset == 0) || header.more_fragments) ≡ false
    → encode_ipv4 header protocol payload ≡ ok bytes
    → (received : Ipv4Header) × (decode_ip_inner bytes ethernet ≡ (
        decode_transport (ipv4 received) (or_else header.protocol protocol) payload false
        >>= λ decoded. ok (decoded_packet ethernet (ipv4 received) payload (some true) [] decoded)))
      × IsReceivedIpv4 header received protocol bytes
decode-encode_ipv4 header protocol payload bytes ethernet h whole e =
    let run = ipv4_run header protocol payload bytes e in
    let options = pad4 header.options in
    let size = length-pad4 header.options in
    let ihl_eq : run.ihl ≡ 5 + length options / 4 =
      run.ihl_eq ∙ rw h.ihl_auto (omega (arith, run.options_fit, size)) in
    let total_eq : run.total_length ≡ 20 + length options + length payload =
      run.total_eq ∙ rw h.length_auto refl in
    let zero_sum = ipv4_bytes header protocol options run.ihl run.total_length 0 in
    let sum = internet_checksum zero_sum in
    let resolved : resolve header.checksum sum ≡ sum =
      rw h.checksum_auto (unfold resolve in refl) in
    let words : run.ihl * 4 ≡ 20 + length options = omega (arith, ihl_eq, size) in
    let ihl_fits : run.ihl ≤ 15 = omega (arith, ihl_eq, size, run.options_fit) in
    let total_fits : run.total_length ≤ 0xffff = omega (arith, total_eq, run.total_fits) in
    let sum_fits : sum < 0x10000 = internet_checksum-lt zero_sum in
    let front_length =
      length-front header protocol payload run.ihl run.total_length sum h run.dscp_fits run.ecn_fits
        run.offset_fits words ihl_fits total_eq total_fits sum_fits in
    let front = ipv4_bytes header protocol options run.ihl run.total_length sum in
    rw (run.bytes_eq, resolved)
      (
        ipv4_received header protocol run.ihl run.total_length sum,
        version_four header protocol options payload run.ihl run.total_length sum ethernet ihl_fits
            ∙ decode_ipv4_whole header protocol payload run.ihl run.total_length sum h run.dscp_fits
                run.ecn_fits run.offset_fits words ihl_fits total_eq total_fits sum_fits ethernet
                whole (header_verifies header protocol options run.ihl run.total_length),
        received header protocol run.ihl run.total_length sum (front ++ payload)
            (omega (arith, length-append front payload, front_length, words, total_eq)),
      )
