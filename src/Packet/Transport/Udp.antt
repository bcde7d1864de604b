-- ===== src/Packet/Transport/Udp.antt =====
-- `encode_udp` and `decode_udp` of src/packet.rs undo one another, and the checksum verifies.
use tcpform_protocol_lab.Base.{
  ℕ, ◌+◌, ◌-◌, ◌≤◌, ◌<◌, ◌≡◌, refl, sym, List, ◌++◌, length, take, min, take-all, arith, ltb, ◌==◌,
  ◌||◌, true, false, Bool-cases, inl, inr, ==_iff, none, some, ok, ok-injective, >>=-eq-ok,
  refuse_if, refuse_if-eq-ok,
}
use tcpform_protocol_lab.Packet.Types
use tcpform_protocol_lab.Packet.Types.{PacketError, NetworkHeader, UdpHeader, udp, auto, Checksum}
use tcpform_protocol_lab.Packet.Bytes.{u16_of_split}
use tcpform_protocol_lab.Packet.Checksum.{resolve, transport_checksum}
use tcpform_protocol_lab.Packet.Checksum.Valid.{
  transport_checksum_verifies, transport_checksum_all_ones, transport_checksum-lt,
}
use tcpform_protocol_lab.Packet.Transport.{
  udp_bytes, nonzero_checksum, encode_udp, decode_udp, verified, ip_protocol_udp, decode_transport,
}

-- Ports of 16 bits, and the length and the checksum left to the encoder.
pub record IsPlainUdp (header : UdpHeader) : Type 0 where
  pub source_fits : header.source_port < 0x10000
  pub destination_fits : header.destination_port < 0x10000
  pub length_auto : header.length ≡ none
  pub checksum_auto : header.checksum ≡ auto

-- What a successful run of `encode_udp` has checked and calculated.
pub record UdpRun (network : NetworkHeader) (header : UdpHeader) (payload bytes : List ℕ)
    : Type 0 where
  pub calculated : ℕ
  pub fits : 8 + length payload ≤ 0xffff
  pub checksum_eq :
      transport_checksum network ip_protocol_udp
        (udp_bytes header (8 + length payload) 0 ++ payload)
      ≡ ok calculated
  pub bytes_eq : bytes ≡ udp_bytes header (8 + length payload) (nonzero_checksum calculated)

udp_run :
    (network : NetworkHeader) (header : UdpHeader) (payload bytes : List ℕ)
    → IsPlainUdp header
    → encode_udp network header payload ≡ ok bytes
    → UdpRun network header payload bytes
unfolding encode_udp resolve udp_bytes
udp_run network header payload bytes h e =
    let (_, p, e1) =
      >>=-eq-ok (refuse_if (ltb 0xffff (8 + length payload)) PacketError.udp_too_long) _ e in
    let (calculated, c, e2) = >>=-eq-ok (transport_checksum network _ _) _ e1 in
    record {
      calculated = calculated;
      fits = ground (arith, refuse_if-eq-ok _ _ p);
      checksum_eq = rw h.length_auto at c;
      bytes_eq = sym (ok-injective (rw (h.length_auto, h.checksum_auto) at e2));
    }

nonzero_checksum_bounds :
    (c : ℕ) → c < 0x10000 → (0 < nonzero_checksum c) × (nonzero_checksum c < 0x10000)
unfolding nonzero_checksum
nonzero_checksum_bounds c h = ground arith

-- The segment on the wire verifies, also where 0xffff stands for zero.
sent_verifies :
    (network : NetworkHeader) (header : UdpHeader) (len calculated : ℕ) (payload : List ℕ)
    → transport_checksum network ip_protocol_udp (udp_bytes header len 0 ++ payload) ≡ ok calculated
    → transport_checksum network ip_protocol_udp
        (udp_bytes header len (nonzero_checksum calculated) ++ payload)
      ≡ ok 0
unfolding udp_bytes nonzero_checksum
sent_verifies network header len calculated payload e =
    let front = take 6 (udp_bytes header len 0) in
    elim (Bool-cases (calculated == 0)) [
      | inl z ↦
          let zero_sum = (==_iff calculated 0).0 z in
          rw z (
            transport_checksum_all_ones network ip_protocol_udp front payload refl
              (rw zero_sum at e))
      | inr z ↦
          rw z (transport_checksum_verifies network ip_protocol_udp front payload refl calculated e)
    ]

-- What the receiver sees of a header that was sent.
pub record IsReceivedUdp (sent received : UdpHeader) (payload : List ℕ) : Type 0 where
  pub source_port : received.source_port ≡ sent.source_port
  pub destination_port : received.destination_port ≡ sent.destination_port
  pub length_field : received.length ≡ some (8 + length payload)

udp_received : UdpHeader → List ℕ → ℕ → UdpHeader
udp_received header payload checksum = record {
  source_port = header.source_port;
  destination_port = header.destination_port;
  length = some (8 + length payload);
  checksum = Types.value checksum;
}

-- Decoding eight octets of a header that declares the true length and carries a nonzero checksum
-- that verifies.
decoded :
    (network : NetworkHeader) (header : UdpHeader) (payload : List ℕ) (sum : ℕ)
    → IsPlainUdp header
    → 8 + length payload ≤ 0xffff
    → 0 < sum
    → sum < 0x10000
    → transport_checksum network ip_protocol_udp
        (udp_bytes header (8 + length payload) sum ++ payload)
      ≡ ok 0
    → decode_transport network ip_protocol_udp
        (udp_bytes header (8 + length payload) sum ++ payload)
        false
      ≡ ok (some (udp (udp_received header payload sum)), payload, some true)
unfolding decode_transport decode_udp udp_bytes udp_received
decoded network header payload sum h fits pos sum_fits e =
    let len : ℕ = 8 + length payload in
    let segment = udp_bytes header (8 + length payload) sum ++ payload in
    let not_short : ltb (length segment) 8 ≡ false = ground arith in
    let in_range : (ltb len 8 || ltb (length segment) len) ≡ false = ground arith in
    let available : min len (length segment) ≡ length segment = omega arith in
    let given : (sum == 0) ≡ false = ground arith in
    rw (
      not_short,
      u16_of_split len (omega arith),
      u16_of_split sum sum_fits,
      in_range,
      given,
      available,
      take-all segment {n = length segment} (omega arith),
      verified network ip_protocol_udp segment e,
      u16_of_split header.source_port h.source_fits,
      u16_of_split header.destination_port h.destination_fits,
      take-all payload {n = length segment - 8} (omega arith),
    )

-- A datagram that `encode_udp` accepts, with its length and checksum left to it, decodes to the same
-- ports and payload, to its true length, and with a checksum that verifies.
pub decode-encode_udp :
    (network : NetworkHeader) (header : UdpHeader) (payload bytes : List ℕ)
    → IsPlainUdp header
    → encode_udp network header payload ≡ ok bytes
    → (received : UdpHeader) × (decode_transport network ip_protocol_udp (bytes ++ payload) false
        ≡ ok (some (udp received), payload, some true))
      × IsReceivedUdp header received payload
decode-encode_udp network header payload bytes h e =
    let run = udp_run network header payload bytes h e in
    let sum = nonzero_checksum run.calculated in
    let bounds =
      nonzero_checksum_bounds run.calculated (transport_checksum-lt _ _ _ run.checksum_eq) in
    rw run.bytes_eq (
      udp_received header payload sum,
      decoded network header payload sum h run.fits bounds.0 bounds.1 (
          sent_verifies network header (8 + length payload) run.calculated payload run.checksum_eq),
      unfold udp_received in
          record { source_port = refl; destination_port = refl; length_field = refl },
    )
