-- ===== src/Packet/Checksum.antt =====
-- The Internet checksum of src/packet.rs. A sum is the code's u64, which cannot wrap on a buffer
-- shorter than 2 ^ 48 octets.
pub mod Folding
pub mod Valid
use mathlib.Core.Logic.{dite}
use mathlib.Core.WellFounded.{Acc, WellFounded}
use native.Mathlib.Decide.{dec_lt}
use tcpform_protocol_lab.Base.{
  ℕ, zero, suc, ◌+◌, ◌-◌, ◌*◌, ◌/◌, ◌%◌, ◌<◌, bit_and, bit_xor, ◌^◌, List, [], ◌∷◌, length, arith,
  leb, Result, ok, ◌>>=◌, ◌>>◌, refuse_if,
}
use tcpform_protocol_lab.Base.Bits.{bit_and_low}
use tcpform_protocol_lab.Packet.Types.{
  PacketError, segment_too_long, Checksum, auto, value, invalid, NetworkHeader, ipv4, ipv6,
}

-- Checksum::resolve
unfoldable pub resolve : Checksum → ℕ → ℕ
resolve auto calculated = calculated
resolve (value v) calculated = v
resolve invalid calculated = bit_xor calculated 0xffff

unfoldable pub checksum_add : ℕ → List ℕ → ℕ
checksum_add sum [] = sum
checksum_add sum (byte ∷ []) = sum + byte * 256
checksum_add sum (a ∷ b ∷ rest) = checksum_add (sum + (a * 256 + b)) rest

below-Acc : (k n : ℕ) → n < k → Acc ◌<◌ n
below-Acc zero n h = absurd (omega arith)
below-Acc (suc k) n h = Acc.intro n (λ m hm. below-Acc k m (omega arith))

lt-Acc : (n : ℕ) → Acc ◌<◌ n
unfolding below-Acc
lt-Acc n = below-Acc (suc n) n (omega arith)

carry-lt : (sum : ℕ) → 0 < sum / 0x10000 → bit_and sum 0xffff + sum / 0x10000 < sum
carry-lt sum h = omega (arith, bit_and_low 16 sum)

-- while sum >> 16 != 0 { sum = (sum & 0xffff) + (sum >> 16) }
unfoldable pub fold_acc : (sum : ℕ) → Acc ◌<◌ sum → ℕ
unfolding carry-lt dec_lt
fold_acc sum (Acc.intro _ smaller) =
    dite (dec_lt 0 (sum / 0x10000))
      (λ more. fold_acc (bit_and sum 0xffff + sum / 0x10000) (smaller _ (carry-lt sum more)))
      (λ _. sum)

unfoldable pub fold : ℕ → ℕ
unfolding fold_acc lt-Acc
fold sum = fold_acc sum (lt-Acc sum)

-- !(sum as u16)
unfoldable pub checksum_finish : ℕ → ℕ
checksum_finish sum = 0xffff - fold sum % 0x10000

unfoldable pub internet_checksum : List ℕ → ℕ
internet_checksum bytes = checksum_finish (checksum_add 0 bytes)

-- The sum over the pseudo-header, before the segment is added.
unfoldable pub pseudo_sum : NetworkHeader → ℕ → ℕ → ℕ
pseudo_sum (ipv4 header) protocol length =
    checksum_add (checksum_add 0 header.source) header.destination + protocol + length
pseudo_sum (ipv6 header) protocol length =
    checksum_add (checksum_add 0 header.source) header.destination
    + (length / 0x10000 + bit_and length 0xffff)
    + protocol

unfoldable pub transport_checksum : NetworkHeader → ℕ → List ℕ → Result PacketError ℕ
transport_checksum network protocol segment = do
  refuse_if (leb 0x100000000 (length segment)) segment_too_long
  ok (checksum_finish (checksum_add (pseudo_sum network protocol (length segment)) segment))
