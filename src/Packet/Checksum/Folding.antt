-- ===== src/Packet/Checksum/Folding.antt =====
-- The end-around carry keeps a sum's remainder by 0xffff, and sums are added up piece by piece.
use mathlib.Core.WellFounded.{Acc}
use mathlib.Core.Logic.{dif_pos, dif_neg}
use native.Mathlib.Decide.{dec_lt}
use native.Mathlib.Nat.{add_assoc}
use native.Mathlib.Bridge.{le_prop}
use tcpform_protocol_lab.Base.{
  ℕ, ◌+◌, ◌*◌, ◌/◌, ◌%◌, ◌<◌, ◌≡◌, refl, List, [], ◌∷◌, ◌++◌, length, arith,
}
use tcpform_protocol_lab.Base.Bits.{bit_and_low}
use tcpform_protocol_lab.Packet.Checksum.{
  checksum_add, fold_acc, fold, checksum_finish, carry-lt, lt-Acc,
}

-- What the loop returns: a u16 that is congruent to the sum, and zero only for the sum zero.
pub record Folds (sum result : ℕ) : Type 0 where
  pub carries : ℕ
  pub congruent : sum ≡ result + carries * 0xffff
  pub fits : result < 0x10000
  pub positive : 0 < sum → 0 < result

fold_acc-Folds : (sum : ℕ) (w : Acc ◌<◌ sum) → Folds sum (fold_acc sum w)
unfolding fold_acc
fold_acc-Folds sum (Acc.intro _ smaller) = elim (dec_lt 0 (sum / 0x10000)) [
  | yes more ↦
      let rest = fold_acc-Folds _ (smaller _ (carry-lt sum more)) in
      rw (dif_pos (dec_lt 0 (sum / 0x10000)) le_prop more) (record {
        carries = rest.carries + sum / 0x10000;
        congruent = omega (arith, bit_and_low 16 sum, rest.congruent);
        fits = rest.fits;
        positive = λ h. omega (arith, bit_and_low 16 sum, rest.positive, rest.congruent);
      })
  | no done ↦
      rw (dif_neg (dec_lt 0 (sum / 0x10000)) done)
        (record { carries = 0; congruent = omega arith; fits = omega arith; positive = λ h. h })
]

pub fold-Folds : (sum : ℕ) → Folds sum (fold sum)
unfolding fold
fold-Folds sum = fold_acc-Folds sum (lt-Acc sum)

-- A sum verifies exactly when it is a positive multiple of 0xffff.
pub finish-zero : (sum k : ℕ) → 0 < sum → sum ≡ k * 0xffff → checksum_finish sum ≡ 0
unfolding checksum_finish
finish-zero sum k h e = let f = fold-Folds sum in omega (arith, f.congruent, f.fits, f.positive h)

pub finish-zero_multiple : (sum : ℕ) → checksum_finish sum ≡ 0 → (k : ℕ) × (sum ≡ (k + 1) * 0xffff)
unfolding checksum_finish
finish-zero_multiple sum h =
    let f = fold-Folds sum in (f.carries, omega (arith, f.congruent, f.fits))

pub checksum_add_shift :
    (s t : ℕ) (bytes : List ℕ) → checksum_add (s + t) bytes ≡ s + checksum_add t bytes
unfolding checksum_add
checksum_add_shift s t [] = refl
checksum_add_shift s t (b ∷ []) = omega arith
checksum_add_shift s t (a ∷ b ∷ rest) =
    rw (add_assoc s t (a * 256 + b)) (checksum_add_shift s (t + (a * 256 + b)) rest)

-- Behind an even number of octets the sum goes on as if at the front.
pub checksum_add-append :
    (s : ℕ) (front back : List ℕ)
    → length front % 2 ≡ 0
    → checksum_add s (front ++ back) ≡ checksum_add (checksum_add s front) back
unfolding checksum_add
checksum_add-append s [] back h = refl
checksum_add-append s (b ∷ []) back h = absurd (omega arith)
checksum_add-append s (a ∷ b ∷ front) back h =
    checksum_add-append (s + (a * 256 + b)) front back (omega arith)

pub checksum_add_acc : (s : ℕ) (bytes : List ℕ) → checksum_add s bytes ≡ s + checksum_add 0 bytes
checksum_add_acc s bytes = let e : s + 0 ≡ s = omega arith in rw e at (checksum_add_shift s 0 bytes)
