-- ===== src/Packet/Checksum/Valid.antt =====
-- What an Internet checksum protects: a buffer that carries its own checksum verifies, and one
-- octet changed afterwards is noticed.
use tcpform_protocol_lab.Base.{
  ℕ, ◌+◌, ◌*◌, ◌/◌, ◌%◌, ◌<◌, ◌≡◌, ◌≢◌, refl, ap, List, [], ◌∷◌, ◌++◌, length, length-append, ◌-◌,
  arith, ok, ok-injective, >>=-eq-ok, refuse_if, refuse_if-eq-ok, sym, ◌∙◌, leb, false, ◌⊎◌, inl,
  inr,
}
use tcpform_protocol_lab.Packet.Types.{NetworkHeader, segment_too_long}
use tcpform_protocol_lab.Packet.Bytes.{IsByte, put_u16}
use tcpform_protocol_lab.Packet.Checksum.{
  checksum_add, fold, checksum_finish, internet_checksum, pseudo_sum, transport_checksum,
}
use tcpform_protocol_lab.Packet.Checksum.Folding.{
  fold-Folds, finish-zero, finish-zero_multiple, checksum_add_acc, checksum_add-append,
}

-- A u16 field at an even offset counts as its value.
pub checksum_add-field :
    (s v : ℕ) (front back : List ℕ)
    → length front % 2 ≡ 0
    → v < 0x10000
    → checksum_add s (front ++ put_u16 v back) ≡ checksum_add s (front ++ put_u16 0 back) + v
unfolding checksum_add
checksum_add-field s v front back even h =
    let sum = checksum_add s front in
    omega (
      arith,
      checksum_add-append s front (put_u16 v back) even,
      checksum_add-append s front (put_u16 0 back) even,
      checksum_add_acc (sum + (v / 256 % 256 * 256 + v % 256)) back,
      checksum_add_acc (sum + (0 * 256 + 0)) back,
    )

pub finish-lt : (sum : ℕ) → checksum_finish sum < 0x10000
unfolding checksum_finish
finish-lt sum = omega arith

pub internet_checksum-lt : (bytes : List ℕ) → internet_checksum bytes < 0x10000
unfolding internet_checksum
internet_checksum-lt bytes = finish-lt (checksum_add 0 bytes)

-- A sum with its own checksum added verifies.
pub finish-complement : (sum : ℕ) → checksum_finish (sum + checksum_finish sum) ≡ 0
unfolding checksum_finish
finish-complement sum =
    let f = fold-Folds sum in
    finish-zero (sum + checksum_finish sum) (f.carries + 1) (omega (arith, f.positive))
      (omega (arith, f.congruent, f.fits))

-- An even number of octets in front, and the buffer's checksum in the field that was zero when it
-- was calculated: the whole buffer has the checksum zero.
pub internet_checksum_verifies :
    (front back : List ℕ)
    → length front % 2 ≡ 0
    → internet_checksum (front ++ put_u16 (internet_checksum (front ++ put_u16 0 back)) back) ≡ 0
unfolding internet_checksum
internet_checksum_verifies front back even =
    let sum = checksum_add 0 (front ++ put_u16 0 back) in
    rw (checksum_add-field 0 (checksum_finish sum) front back even (finish-lt sum))
      (finish-complement sum)

-- So does one with 0xffff in the place of a checksum that is zero.
pub finish-all_ones : (sum : ℕ) → checksum_finish sum ≡ 0 → checksum_finish (sum + 0xffff) ≡ 0
finish-all_ones sum h =
    let (k, e) = finish-zero_multiple sum h in
    finish-zero (sum + 0xffff) (k + 2) (omega arith) (omega arith)

turned_sum :
    (sum folded carries k : ℕ)
    → sum ≡ folded + carries * 0xffff
    → folded < 0x10000
    → (0 < sum → 0 < folded)
    → sum + (0xffff - (0xffff - folded % 0x10000)) ≡ (k + 1) * 0xffff
    → 0xffff - folded % 0x10000 ≡ 0
turned_sum sum folded carries k h fits pos e = omega arith

-- With the complement of its checksum added, a sum verifies only if the checksum was zero.
pub finish-complement_turned :
    (sum : ℕ) → checksum_finish (sum + (0xffff - checksum_finish sum)) ≡ 0 → checksum_finish sum ≡ 0
unfolding checksum_finish
finish-complement_turned sum h =
    let f = fold-Folds sum in
    let (k, e) = finish-zero_multiple (sum + (0xffff - checksum_finish sum)) h in
    turned_sum sum (fold sum) f.carries k f.congruent f.fits f.positive e

pub transport_checksum_inversion :
    (network : NetworkHeader) (protocol : ℕ) (segment : List ℕ) (checksum : ℕ)
    → transport_checksum network protocol segment ≡ ok checksum
    → (leb 0x100000000 (length segment) ≡ false)
      × (checksum
          ≡ checksum_finish (checksum_add (pseudo_sum network protocol (length segment)) segment))
unfolding transport_checksum
transport_checksum_inversion network protocol segment checksum e =
    let (_, p, q) = >>=-eq-ok (refuse_if (leb 0x100000000 (length segment)) segment_too_long) _ e in
    (refuse_if-eq-ok _ _ p, sym (ok-injective q))

pub transport_checksum-lt :
    (network : NetworkHeader) (protocol : ℕ) (segment : List ℕ) {checksum : ℕ}
    → transport_checksum network protocol segment ≡ ok checksum
    → checksum < 0x10000
transport_checksum-lt network protocol segment {checksum} e =
    let (_, c) = transport_checksum_inversion network protocol segment checksum e in
    rw c (finish-lt _)

module _ (network : NetworkHeader) (protocol : ℕ) (front back : List ℕ)
    (even : length front % 2 ≡ 0) where
  abbrev segment_with : ℕ → List ℕ
  segment_with checksum = front ++ put_u16 checksum back

  length-segment_with : (v w : ℕ) → length (segment_with v) ≡ length (segment_with w)
  length-segment_with v w =
      omega (arith, length-append front (put_u16 v back), length-append front (put_u16 w back))

  -- The checksum of a segment with `v` in its checksum field, from the one with zero there.
  abbrev plain_sum : ℕ
  plain_sum = checksum_add (pseudo_sum network protocol (length (segment_with 0))) (segment_with 0)

  transport_checksum-field :
      (v calculated : ℕ)
      → v < 0x10000
      → transport_checksum network protocol (segment_with 0) ≡ ok calculated
      → (transport_checksum network protocol (segment_with v)
          ≡ ok (checksum_finish (plain_sum + v)))
        × (checksum_finish plain_sum ≡ calculated)
  unfolding transport_checksum
  transport_checksum-field v calculated h e =
      let (fits, c) = transport_checksum_inversion network protocol (segment_with 0) calculated e in
      (
        rw (
          length-segment_with v 0,
          fits,
          checksum_add-field (pseudo_sum network protocol (length (segment_with 0))) v front back
              even h,
        ),
        sym c,
      )

  -- A segment that carries the checksum calculated for it verifies.
  pub transport_checksum_verifies :
      (calculated : ℕ)
      → transport_checksum network protocol (segment_with 0) ≡ ok calculated
      → transport_checksum network protocol (segment_with calculated) ≡ ok 0
  transport_checksum_verifies calculated e =
      let (_, c) = transport_checksum-field 0 calculated (omega arith) e in
      let (r, _) =
        transport_checksum-field calculated calculated (omega (arith, c, finish-lt plain_sum)) e in
      rw (r, ← c, finish-complement plain_sum)

  -- So does one that carries 0xffff where zero was calculated.
  pub transport_checksum_all_ones :
      transport_checksum network protocol (segment_with 0) ≡ ok 0
      → transport_checksum network protocol (segment_with 0xffff) ≡ ok 0
  transport_checksum_all_ones e =
      let (r, c) = transport_checksum-field 0xffff 0 (omega arith) e in
      rw (r, finish-all_ones plain_sum c)

  -- One that carries the complement verifies only if zero was calculated.
  pub transport_checksum_turned :
      (calculated : ℕ)
      → transport_checksum network protocol (segment_with 0) ≡ ok calculated
      → transport_checksum network protocol (segment_with (0xffff - calculated)) ≡ ok 0
      → calculated ≡ 0
  transport_checksum_turned calculated e z =
      let (r, c) = transport_checksum-field (0xffff - calculated) calculated (omega arith) e in
      let verified : checksum_finish (plain_sum + (0xffff - calculated)) ≡ 0 =
        ok-injective (sym r ∙ z) in
      rw (← c) (finish-complement_turned plain_sum (rw c verified))

-- Where an octet stands in the sum: 256 times or once.
pub record Weighs (front back : List ℕ) : Type 0 where
  pub others : ℕ
  pub weight : ℕ
  pub low_or_high : (weight ≡ 1) ⊎ (weight ≡ 256)
  pub sum_lem : (octet : ℕ) → checksum_add 0 (front ++ (octet ∷ back)) ≡ others + octet * weight

weighs : (front back : List ℕ) → Weighs front back
unfolding checksum_add
weighs [] [] = record {
  others = 0;
  weight = 256;
  low_or_high = inr refl;
  sum_lem = λ x. omega arith;
}
weighs [] (b ∷ back) = record {
  others = b + checksum_add 0 back;
  weight = 256;
  low_or_high = inr refl;
  sum_lem = λ x. omega (arith, checksum_add_acc (0 + (x * 256 + b)) back);
}
weighs (a ∷ []) back = record {
  others = a * 256 + checksum_add 0 back;
  weight = 1;
  low_or_high = inl refl;
  sum_lem = λ x. omega (arith, checksum_add_acc (0 + (a * 256 + x)) back);
}
weighs (a ∷ b ∷ front) back =
    let w = weighs front back in
    record {
      others = a * 256 + b + w.others;
      weight = w.weight;
      low_or_high = w.low_or_high;
      sum_lem = λ x.
          omega (arith, checksum_add_acc (0 + (a * 256 + b)) (front ++ (x ∷ back)), w.sum_lem x);
    }

-- In a buffer that verifies, any one octet replaced by another makes the checksum nonzero.
pub single_octet_error :
    (front back : List ℕ) (x y : ℕ)
    → IsByte x
    → IsByte y
    → x ≢ y
    → internet_checksum (front ++ (x ∷ back)) ≡ 0
    → internet_checksum (front ++ (y ∷ back)) ≢ 0
unfolding internet_checksum
single_octet_error front back x y hx hy ne h k =
    let w = weighs front back in
    let (m, em) = finish-zero_multiple _ h in
    let (n, en) = finish-zero_multiple _ k in
    elim w.low_or_high [
      | inl e ↦ ne (
          omega (arith, w.sum_lem x, w.sum_lem y, ap (λ (t : ℕ). x * t) e, ap (λ (t : ℕ). y * t) e))
      | inr e ↦ ne (
          omega (arith, w.sum_lem x, w.sum_lem y, ap (λ (t : ℕ). x * t) e, ap (λ (t : ℕ). y * t) e))
    ]
