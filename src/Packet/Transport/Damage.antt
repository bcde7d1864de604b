-- ===== src/Packet/Transport/Damage.antt =====
-- `Checksum::Invalid` of src/packet.rs: which segments it spoils.
use tcpform_protocol_lab.Base.{ℕ, ◌-◌, ◌<◌, ◌≡◌, ◌↔◌, refl, List, ◌++◌, take, ok}
use tcpform_protocol_lab.Base.Bits.{bit_xor_ones}
use tcpform_protocol_lab.Packet.Types.{NetworkHeader, TcpHeader, Checksum, invalid}
use tcpform_protocol_lab.Packet.Bytes.{pad4, put_u16}
use tcpform_protocol_lab.Packet.Checksum.{resolve, transport_checksum}
use tcpform_protocol_lab.Packet.Checksum.Valid.{
  transport_checksum_all_ones, transport_checksum_turned, transport_checksum-lt,
}
use tcpform_protocol_lab.Packet.Transport.{tcp_bytes, encode_tcp, ip_protocol_tcp}
use tcpform_protocol_lab.Packet.Transport.Tcp.{tcp_run}

resolve_invalid :
    (c : Checksum) (calculated : ℕ)
    → c ≡ invalid
    → calculated < 0x10000
    → resolve c calculated ≡ 0xffff - calculated
resolve_invalid c calculated e h = rw e (unfold resolve in bit_xor_ones 16 calculated h)

turned_iff :
    (network : NetworkHeader) (header : TcpHeader) (options payload : List ℕ)
    (offset calculated : ℕ)
    → transport_checksum network ip_protocol_tcp (tcp_bytes header options offset 0 ++ payload)
      ≡ ok calculated
    → (transport_checksum network ip_protocol_tcp
          (tcp_bytes header options offset (0xffff - calculated) ++ payload)
        ≡ ok 0)
      ↔ (calculated ≡ 0)
unfolding tcp_bytes
turned_iff network header options payload offset calculated e =
    let front = take 16 (tcp_bytes header options offset 0) in
    let back = put_u16 header.urgent_pointer options ++ payload in
    (
      transport_checksum_turned network ip_protocol_tcp front back refl calculated e,
      λ z. rw z (transport_checksum_all_ones network ip_protocol_tcp front back refl (rw z at e)),
    )

-- A segment encoded with the invalid checksum is one that the receiver refuses, except where the
-- true checksum is zero: then the 0xffff that is sent stands for zero too, and it verifies.
pub invalid_checksum_iff :
    (network : NetworkHeader) (header : TcpHeader) (payload bytes : List ℕ)
    → header.checksum ≡ invalid
    → encode_tcp network header payload ≡ ok bytes
    → (options : List ℕ) × (offset calculated : ℕ) × (transport_checksum network ip_protocol_tcp
          (tcp_bytes header options offset 0 ++ payload)
        ≡ ok calculated)
      × (bytes ≡ tcp_bytes header options offset (0xffff - calculated))
      × ((transport_checksum network ip_protocol_tcp (bytes ++ payload) ≡ ok 0) ↔ (calculated ≡ 0))
invalid_checksum_iff network header payload bytes h e =
    let run = tcp_run network header payload bytes e in
    let resolved =
      resolve_invalid header.checksum run.calculated h
        (transport_checksum-lt network ip_protocol_tcp _ run.checksum_eq) in
    (
      pad4 run.encoded,
      run.offset,
      run.calculated,
      run.checksum_eq,
      rw (run.bytes_eq, resolved),
      rw (run.bytes_eq, resolved)
          (turned_iff network header (pad4 run.encoded) payload run.offset run.calculated
            run.checksum_eq),
    )
