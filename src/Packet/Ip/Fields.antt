-- ===== src/Packet/Ip/Fields.antt =====
-- The packed octets of the IPv4 header in src/packet.rs, and their fields read back.
use tcpform_protocol_lab.Base.{
  ℕ, ◌+◌, ◌*◌, ◌/◌, ◌%◌, ◌≤◌, ◌<◌, ◌≡◌, ◌∙◌, arith, ◌==◌, not, Bool, true, false, bit_and, bit_or,
}
use tcpform_protocol_lab.Base.Bits.{bit_or_fields, bit_and_low, bit_and_single}
use tcpform_protocol_lab.Packet.Bytes.{bit, bit_lt, not_zero}

pub version_ihl :
    (ihl : ℕ) → ihl ≤ 15 → (bit_or 0x40 ihl / 16 ≡ 4) × (bit_and (bit_or 0x40 ihl) 15 ≡ ihl)
version_ihl ihl h =
    let e : bit_or 0x40 ihl ≡ 0x40 + ihl = bit_or_fields 4 4 ihl (omega arith) in
    (omega arith, rw (e, bit_and_low 4 (0x40 + ihl)) (omega arith))

pub dscp_ecn :
    (dscp ecn : ℕ)
    → dscp ≤ 63
    → ecn ≤ 3
    → (bit_or (dscp * 4 % 256) ecn / 4 ≡ dscp) × (bit_and (bit_or (dscp * 4 % 256) ecn) 3 ≡ ecn)
dscp_ecn dscp ecn h k =
    let w : dscp * 4 % 256 ≡ dscp * 4 = omega arith in
    let e : bit_or (dscp * 4 % 256) ecn ≡ dscp * 4 + ecn =
      rw w (bit_or_fields 2 dscp ecn (omega arith)) in
    (omega arith, rw (e, bit_and_low 2 (dscp * 4 + ecn)) (omega arith))

abbrev pub fragment_word : Bool → Bool → ℕ → ℕ
fragment_word dont more offset = bit_or (bit_or (bit dont * 0x4000) (bit more * 0x2000)) offset

fragment_word_sum :
    (dont more : Bool) (offset : ℕ)
    → offset ≤ 8191
    → fragment_word dont more offset ≡ bit dont * 0x4000 + bit more * 0x2000 + offset
fragment_word_sum true true offset h = bit_or_fields 13 3 offset (omega arith)
fragment_word_sum true false offset h = bit_or_fields 13 2 offset (omega arith)
fragment_word_sum false true offset h = bit_or_fields 13 1 offset (omega arith)
fragment_word_sum false false offset h = bit_or_fields 13 0 offset (omega arith)

pub fragment_fields :
    (dont more : Bool) (offset : ℕ)
    → offset ≤ 8191
    → let word = fragment_word dont more offset in
      (word < 0x10000)
      × (not (bit_and word 0x4000 == 0) ≡ dont)
      × (not (bit_and word 0x2000 == 0) ≡ more)
      × (bit_and word 0x1fff ≡ offset)
fragment_fields dont more offset h =
    let word = fragment_word dont more offset in
    let e = fragment_word_sum dont more offset h in
    let d = bit_lt dont in
    let m = bit_lt more in
    (
      omega arith,
      not_zero dont (bit_and word 0x4000) 0x4000 (bit_and_single 14 word ∙ omega arith)
          (omega arith),
      not_zero more (bit_and word 0x2000) 0x2000 (bit_and_single 13 word ∙ omega arith)
          (omega arith),
      bit_and_low 13 word ∙ omega arith,
    )
