-- ===== src/Packet/Frame/Ethernet.antt =====
-- `encode_ethernet` and `decode_ethernet` of src/packet.rs undo one another.
use tcpform_protocol_lab.Base.{
  ℕ, ◌+◌, ◌*◌, ◌/◌, ◌%◌, ◌≤◌, ◌<◌, ◌≡◌, ◌≢◌, sym, ap, ◌∙◌, List, [], ◌++◌, length, drop, get_or,
  get_or-drop, length-append, take-append, drop-append, drop-drop, arith, ltb, ◌==◌, ◌||◌, not,
  false, Option, none, some, ok, ok-injective, >>=-eq-ok, refuse_if, refuse_if-eq-ok, bit_and,
  bit_or,
}
use tcpform_protocol_lab.Base.Bits.{bit_or_fields, bit_and_low, bit_and_single}
use tcpform_protocol_lab.Packet.Types.{PacketError, EthernetHeader, VlanTag, NetworkHeader}
use tcpform_protocol_lab.Packet.Bytes.{
  u16_of_split, slice, or_else, put_u16, u16_at, bit, bit_lt, not_zero,
}
use tcpform_protocol_lab.Packet.Ip.{decode_ip_inner}
use tcpform_protocol_lab.Packet.Frame.{
  ethertype_vlan, inferred_ether_type, encode_vlan, encode_ethernet, vlan_of, decode_vlan,
  decode_ethernet,
}

abbrev control_word : VlanTag → ℕ
control_word vlan =
    bit_or (bit_or (vlan.priority * 0x2000 % 0x10000) (bit vlan.drop_eligible * 0x1000)) vlan.id

control_sum :
    (vlan : VlanTag)
    → vlan.priority ≤ 7
    → vlan.id ≤ 4095
    → control_word vlan ≡ vlan.priority * 0x2000 + bit vlan.drop_eligible * 0x1000 + vlan.id
control_sum vlan p i =
    let d = bit_lt vlan.drop_eligible in
    let w : vlan.priority * 0x2000 % 0x10000 ≡ vlan.priority * 0x2000 = omega arith in
    let high : bit_or (vlan.priority * 0x2000) (bit vlan.drop_eligible * 0x1000)
        ≡ (vlan.priority * 2 + bit vlan.drop_eligible) * 0x1000 =
      bit_or_fields 13 vlan.priority (bit vlan.drop_eligible * 0x1000) (omega arith)
      ∙ omega arith in
    rw (w, high)
      (bit_or_fields 12 (vlan.priority * 2 + bit vlan.drop_eligible) vlan.id (omega arith)
        ∙ omega arith)

-- Two addresses of six octets stand in front of `rest`.
module _ (destination source rest : List ℕ) (d : length destination ≡ 6)
    (s : length source ≡ 6) where
  abbrev frame : List ℕ
  frame = destination ++ (source ++ rest)

  destination_slice : slice frame 0 6 ≡ destination
  destination_slice = take-append destination (source ++ rest) (sym d)

  source_slice : slice frame 6 12 ≡ source
  source_slice =
      rw (drop-append destination (source ++ rest) (sym d)) (take-append source rest (sym s))

  behind_addresses : drop 12 frame ≡ rest
  behind_addresses =
      rw (← drop-drop 6 6 frame, drop-append destination (source ++ rest) (sym d))
        (drop-append source rest (sym s))

  length-frame : length frame ≡ 12 + length rest
  length-frame =
      omega (arith, length-append destination (source ++ rest), length-append source rest)

  octet_behind : (i : ℕ) → get_or frame (12 + i) 0 ≡ get_or rest i 0
  octet_behind i =
      sym (get_or-drop 12 i frame 0) ∙ ap (λ (l : List ℕ). get_or l i 0) behind_addresses

  behind_more : (n : ℕ) → drop (12 + n) frame ≡ drop n rest
  behind_more n = sym (drop-drop 12 n frame) ∙ ap (drop n) behind_addresses

-- A frame without a tag.
decode_untagged :
    (destination source ip : List ℕ) (ether_type : ℕ)
    → length destination ≡ 6
    → length source ≡ 6
    → ether_type < 0x10000
    → ether_type ≢ ethertype_vlan
    → decode_ethernet (destination ++ (source ++ put_u16 ether_type ip))
      ≡ decode_ip_inner ip (
          some (record {
            destination = destination;
            source = source;
            vlan = none;
            ether_type = some ether_type;
          }))
unfolding decode_ethernet
decode_untagged destination source ip ether_type d s fits ne =
    let rest = put_u16 ether_type ip in
    let not_short : ltb (length (frame destination source rest d s)) 14 ≡ false =
      ground (arith, length-frame destination source rest d s) in
    let kind : (ether_type == ethertype_vlan) ≡ false = ground arith in
    rw (
      not_short,
      octet_behind destination source rest d s 0,
      octet_behind destination source rest d s 1,
      u16_of_split ether_type fits,
      kind,
      destination_slice destination source rest d s,
      source_slice destination source rest d s,
      behind_more destination source rest d s 2,
    )

vlan_back :
    (vlan : VlanTag) (bytes : List ℕ)
    → vlan.priority ≤ 7
    → vlan.id ≤ 4095
    → u16_at bytes 14 ≡ control_word vlan
    → vlan_of bytes ≡ vlan
unfolding vlan_of
vlan_back vlan bytes p i e =
    let sum = control_sum vlan p i in
    let d = bit_lt vlan.drop_eligible in
    let word = control_word vlan in
    let priority_back : word / 0x2000 % 256 ≡ vlan.priority = omega arith in
    let eligible_back : not (bit_and word 0x1000 == 0) ≡ vlan.drop_eligible =
      not_zero vlan.drop_eligible (bit_and word 0x1000) 0x1000
        (bit_and_single 12 word ∙ omega arith) (omega arith) in
    let id_back : bit_and word 0xfff ≡ vlan.id = bit_and_low 12 word ∙ omega arith in
    rw (e, priority_back, eligible_back, id_back)

-- A frame with a tag.
decode_tagged :
    (destination source ip : List ℕ) (vlan : VlanTag) (ether_type : ℕ)
    → length destination ≡ 6
    → length source ≡ 6
    → vlan.priority ≤ 7
    → vlan.id ≤ 4095
    → ether_type < 0x10000
    → decode_ethernet (
        destination
        ++ (source ++ put_u16 ethertype_vlan (put_u16 (control_word vlan) (put_u16 ether_type ip))))
      ≡ decode_ip_inner ip (
          some (record {
            destination = destination;
            source = source;
            vlan = some vlan;
            ether_type = some ether_type;
          }))
unfolding decode_ethernet decode_vlan
decode_tagged destination source ip vlan ether_type d s p i fits =
    let rest = put_u16 ethertype_vlan (put_u16 (control_word vlan) (put_u16 ether_type ip)) in
    let bytes = frame destination source rest d s in
    let bound = bit_lt vlan.drop_eligible in
    let word_fits : control_word vlan < 0x10000 = omega (arith, control_sum vlan p i) in
    let size = length-frame destination source rest d s in
    let not_short : ltb (length bytes) 14 ≡ false = ground (arith, size) in
    let not_short_tag : ltb (length bytes) 18 ≡ false = ground (arith, size) in
    let octet = octet_behind destination source rest d s in
    let control : u16_at bytes 14 ≡ control_word vlan =
      rw (octet 2, octet 3) (u16_of_split (control_word vlan) word_fits) in
    rw (
      not_short,
      octet 0,
      octet 1,
      not_short_tag,
      vlan_back vlan bytes p i control,
      octet 4,
      octet 5,
      u16_of_split ether_type fits,
      destination_slice destination source rest d s,
      source_slice destination source rest d s,
      behind_more destination source rest d s 6,
    )

tag_tests : (p i : ℕ) → (ltb 7 p || ltb 4095 i) ≡ false → (p ≤ 7) × (i ≤ 4095)
tag_tests p i h = ground arith

encode_vlan_run :
    (vlan : VlanTag) (tag : List ℕ)
    → encode_vlan (some vlan) ≡ ok tag
    → (vlan.priority ≤ 7)
      × (vlan.id ≤ 4095)
      × (tag ≡ put_u16 ethertype_vlan (put_u16 (control_word vlan) []))
unfolding encode_vlan
encode_vlan_run vlan tag e =
    let (_, p, q) =
      >>=-eq-ok (refuse_if (ltb 7 vlan.priority || ltb 4095 vlan.id) PacketError.vlan_out_of_range)
        _ e in
    let (a, b) = tag_tests vlan.priority vlan.id (refuse_if-eq-ok _ _ p) in
    (a, b, sym (ok-injective q))

-- Without a tag, the ether type is not the one that announces a tag.
abbrev pub IsTellable : Option VlanTag → ℕ → Type 0
IsTellable none ether_type = ether_type ≢ ethertype_vlan
IsTellable (some vlan) ether_type = Unit

-- Addresses of six octets, and an ether type of 16 bits, which is not that of a tag if there is no tag.
pub record IsPlainEthernet (header : EthernetHeader) (network : NetworkHeader) : Type 0 where
  pub destination_octets : length header.destination ≡ 6
  pub source_octets : length header.source ≡ 6
  pub type_fits : or_else header.ether_type (inferred_ether_type network) < 0x10000
  pub not_tag : IsTellable header.vlan (or_else header.ether_type (inferred_ether_type network))

frame_back :
    (header : EthernetHeader) (ether_type : ℕ) (vlan : Option VlanTag) (ip tag : List ℕ)
    → length header.destination ≡ 6
    → length header.source ≡ 6
    → ether_type < 0x10000
    → IsTellable vlan ether_type
    → encode_vlan vlan ≡ ok tag
    → decode_ethernet (header.destination ++ (header.source ++ (tag ++ put_u16 ether_type ip)))
      ≡ decode_ip_inner ip (some (record header { vlan = vlan; ether_type = some ether_type }))
unfolding encode_vlan
frame_back header ether_type none ip tag d s fits ne e =
    rw (← ok-injective e)
      (decode_untagged header.destination header.source ip ether_type d s fits ne)
frame_back header ether_type (some vlan) ip tag d s fits ne e =
    let (p, i, shape) = encode_vlan_run vlan tag e in
    rw shape (decode_tagged header.destination header.source ip vlan ether_type d s p i fits)

-- A frame that `encode_ethernet` accepts, with addresses of six octets, an ether type of 16 bits, and
-- without a VLAN tag an ether type other than 0x8100, which announces one, is decoded to its header,
-- with the ether type filled in, and hands on exactly the packet that it carries.
pub decode-encode_ethernet :
    (header : EthernetHeader) (network : NetworkHeader) (ip bytes : List ℕ)
    → IsPlainEthernet header network
    → encode_ethernet header network ip ≡ ok bytes
    → decode_ethernet bytes
      ≡ decode_ip_inner ip (
          some (record header {
            ether_type = some (or_else header.ether_type (inferred_ether_type network));
          }))
unfolding encode_ethernet
decode-encode_ethernet header network ip bytes h e =
    let (tag, te, e1) = >>=-eq-ok (encode_vlan header.vlan) _ e in
    rw (← ok-injective e1) (
      frame_back header (or_else header.ether_type (inferred_ether_type network)) header.vlan ip tag
        h.destination_octets h.source_octets h.type_fits h.not_tag te)
