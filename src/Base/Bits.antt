-- ===== src/Base/Bits.antt =====
-- Rust's `|` of disjoint fields and `&` with a mask, as arithmetic at every width.
use Prim.Native.Nat.{digits, bit_and-bitwise, bit_or-bitwise, bit_xor-bitwise, differ}
use native.Mathlib.Nat.{pow-suc, one-le-pow, le_refl, div-add-mod', mod-lt}
use tcpform_protocol_lab.Base.{
  ℕ, zero, suc, ◌+◌, ◌*◌, ◌/◌, ◌%◌, ◌^◌, ◌≤◌, ◌<◌, ◌-◌, min, max, bit_and, bit_or, bit_xor, ◌≡◌,
  refl, ap, arith,
}

-- More fuel than the first number makes no difference to the native recursion on digits.
spare_fuel :
    (z : ℕ → ℕ) (f : ℕ → ℕ → ℕ) (n m x y : ℕ) → x ≤ n → x ≤ m → digits z f n x y ≡ digits z f m x y
spare_fuel z f zero zero x y p q = refl
spare_fuel z f zero (suc m) zero y p q = refl
spare_fuel z f zero (suc m) (suc x) y p q = absurd (omega arith)
spare_fuel z f (suc n) zero zero y p q = refl
spare_fuel z f (suc n) zero (suc x) y p q = absurd (omega arith)
spare_fuel z f (suc n) (suc m) zero y p q = refl
spare_fuel z f (suc n) (suc m) (suc x) y p q =
    rw (spare_fuel z f n m (suc x / 2) (y / 2) (omega arith) (omega arith))

or_halves : (x y : ℕ) → bit_or x y ≡ bit_or (x / 2) (y / 2) * 2 + max (x % 2) (y % 2)
or_halves zero y = omega (arith, bit_or-bitwise 0 y, bit_or-bitwise 0 (y / 2))
or_halves (suc x) y = omega (
  arith,
  bit_or-bitwise (suc x) y,
  bit_or-bitwise (suc x / 2) (y / 2),
  spare_fuel (λ b. b) max x (suc x / 2) (suc x / 2) (y / 2) (omega arith) (le_refl _),
)

and_halves : (x y : ℕ) → bit_and x y ≡ bit_and (x / 2) (y / 2) * 2 + min (x % 2) (y % 2)
and_halves zero y = omega (arith, bit_and-bitwise 0 y, bit_and-bitwise 0 (y / 2))
and_halves (suc x) y = omega (
  arith,
  bit_and-bitwise (suc x) y,
  bit_and-bitwise (suc x / 2) (y / 2),
  spare_fuel (λ b. zero) min x (suc x / 2) (suc x / 2) (y / 2) (omega arith) (le_refl _),
)

or_zero_within : (n x : ℕ) → x ≤ n → bit_or x 0 ≡ x
or_zero_within n zero h = refl
or_zero_within zero (suc x) h = absurd (omega arith)
or_zero_within (suc n) (suc x) h =
    omega (arith, or_halves (suc x) 0, or_zero_within n (suc x / 2) (omega arith))

and_zero_within : (n x : ℕ) → x ≤ n → bit_and x 0 ≡ 0
and_zero_within n zero h = refl
and_zero_within zero (suc x) h = absurd (omega arith)
and_zero_within (suc n) (suc x) h =
    omega (arith, and_halves (suc x) 0, and_zero_within n (suc x / 2) (omega arith))

pub bit_and-zero : (x : ℕ) → bit_and x 0 ≡ 0
bit_and-zero x = and_zero_within x x (le_refl _)

double : (q k : ℕ) → q * 2 ^ suc k ≡ 2 * (q * 2 ^ k)
double q k = omega (arith, ap (λ (t : ℕ). q * t) (pow-suc 2 k))

-- A field above bit `k` joined to one that fits below it is their sum.
pub bit_or_fields : (k q low : ℕ) → low < 2 ^ k → bit_or (q * 2 ^ k) low ≡ q * 2 ^ k + low
bit_or_fields zero q low h = ground (arith, or_zero_within q q)
bit_or_fields (suc k) q low h =
    ground
      (arith, or_halves (q * 2 ^ suc k) low, double q k, pow-suc 2 k, bit_or_fields k q (low / 2))

and_low_fields : (k q low : ℕ) → low < 2 ^ k → bit_and (q * 2 ^ k + low) (2 ^ k - 1) ≡ low
and_low_fields zero q low h = rw bit_and-zero (omega arith)
and_low_fields (suc k) q low h = ground (
  arith,
  and_halves (q * 2 ^ suc k + low) (2 ^ suc k - 1),
  double q k,
  pow-suc 2 k,
  one-le-pow k 2,
  and_low_fields k q (low / 2),
)

-- The mask of the `k` lowest bits is the remainder by `2 ^ k`.
pub bit_and_low : (k x : ℕ) → bit_and x (2 ^ k - 1) ≡ x % 2 ^ k
bit_and_low k x = ground (arith, one-le-pow k 2, and_low_fields k (x / 2 ^ k) (x % 2 ^ k))

and_single_fields :
    (k q b low : ℕ) → b < 2 → low < 2 ^ k → bit_and ((q * 2 + b) * 2 ^ k + low) (2 ^ k) ≡ b * 2 ^ k
and_single_fields zero q b low hb h =
    ground (arith, and_halves (q * 2 + b) 1, bit_and-zero ((q * 2 + b) / 2))
and_single_fields (suc k) q b low hb h = ground (
  arith,
  and_halves ((q * 2 + b) * 2 ^ suc k + low) (2 ^ suc k),
  double (q * 2 + b) k,
  double b k,
  pow-suc 2 k,
  and_single_fields k q b (low / 2),
)

-- The mask of bit `k` alone leaves that bit, in its place.
pub bit_and_single : (k x : ℕ) → bit_and x (2 ^ k) ≡ x / 2 ^ k % 2 * 2 ^ k
bit_and_single k x = ground (
  arith,
  one-le-pow k 2,
  and_single_fields k (x / 2 ^ k / 2) (x / 2 ^ k % 2) (x % 2 ^ k),
  div-add-mod' x (2 ^ k),
  mod-lt x {m = 2 ^ k},
)

xor_halves :
    (x y : ℕ) → bit_xor (suc x) y ≡ bit_xor (suc x / 2) (y / 2) * 2 + differ (suc x % 2) (y % 2)
xor_halves x y = omega (
  arith,
  bit_xor-bitwise (suc x) y,
  bit_xor-bitwise (suc x / 2) (y / 2),
  spare_fuel (λ b. b) differ x (suc x / 2) (suc x / 2) (y / 2) (omega arith) (le_refl _),
)

differ-one : (d : ℕ) → d < 2 → differ d 1 ≡ 1 - d
differ-one zero h = refl
differ-one (suc zero) h = refl
differ-one (suc (suc d)) h = absurd (omega arith)

-- Every bit below `k` turned over.
pub bit_xor_ones : (k x : ℕ) → x < 2 ^ k → bit_xor x (2 ^ k - 1) ≡ 2 ^ k - 1 - x
bit_xor_ones k zero h = omega (arith, bit_xor-bitwise 0 (2 ^ k - 1))
bit_xor_ones zero (suc x) h = absurd (omega arith)
bit_xor_ones (suc k) (suc x) h =
    let odd : (2 ^ suc k - 1) % 2 ≡ 1 = omega (arith, pow-suc 2 k, one-le-pow k 2) in
    let half : (2 ^ suc k - 1) / 2 ≡ 2 ^ k - 1 = omega (arith, pow-suc 2 k, one-le-pow k 2) in
    rw (xor_halves x (2 ^ suc k - 1), odd, half)
      (omega (
        arith,
        pow-suc 2 k,
        one-le-pow k 2,
        differ-one (suc x % 2) (omega arith),
        bit_xor_ones k (suc x / 2) (omega (arith, pow-suc 2 k)),
      ))
