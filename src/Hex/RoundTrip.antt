-- ===== src/Hex/RoundTrip.antt =====
-- parse_hex of src/value.rs reads back what bytes_to_hex wrote, with the prefix and the white space
-- that it allows.
use tcpform_protocol_lab.Base.{
  ℕ, ◌*◌, ◌/◌, ◌%◌, ◌≤◌, ◌<◌, bit_or, ◌≡◌, refl, sym, ap, ◌∙◌, List, [], ◌∷◌, Bool, true, false,
  Bool-cases, inl, inr, All, length, ◌==◌, arith, ok,
}
use tcpform_protocol_lab.Base.Bits.{bit_or_fields}
use tcpform_protocol_lab.Packet.Bytes.{IsByte}
use tcpform_protocol_lab.Hex.{
  space_len, without_space, strip_prefix, hex_digit, pairs, parse_hex, lower_digit, bytes_to_hex,
}

-- A digit, and what the parser makes of it.
lower_digit_bounds : (n : ℕ) → n < 16 → (48 ≤ lower_digit n) × (lower_digit n < 103)
unfolding lower_digit
lower_digit_bounds n h = ground arith

hex_digit-lower_digit : (n : ℕ) → n < 16 → hex_digit (lower_digit n) ≡ ok n
unfolding hex_digit lower_digit
hex_digit-lower_digit n h = ground arith

space_len-ascii : (a : ℕ) (rest : List ℕ) → 48 ≤ a → a < 128 → space_len (a ∷ rest) ≡ 0
unfolding space_len
space_len-ascii a [] h k = ground arith
space_len-ascii a (b ∷ []) h k = ground arith
space_len-ascii a (b ∷ c ∷ rest) h k = ground arith

space_len-blank : (rest : List ℕ) → space_len (32 ∷ rest) ≡ 1
unfolding space_len
space_len-blank [] = refl
space_len-blank (b ∷ []) = refl
space_len-blank (b ∷ c ∷ rest) = refl

without_space-ascii :
    (a : ℕ) (rest : List ℕ)
    → 48 ≤ a
    → a < 128
    → without_space 0 (a ∷ rest) ≡ a ∷ without_space 0 rest
unfolding without_space
without_space-ascii a rest h k = rw (space_len-ascii a rest h k, without_space) refl

without_space-blank : (rest : List ℕ) → without_space 0 (32 ∷ rest) ≡ without_space 0 rest
unfolding without_space
without_space-blank rest = rw (space_len-blank rest, without_space) refl

-- The digits with a blank in front of each pair, where the flag asks for it.
unfoldable pub spaced : Bool → List ℕ → List ℕ
spaced blank [] = []
spaced false (b ∷ bs) = lower_digit (b / 16) ∷ lower_digit (b % 16) ∷ spaced false bs
spaced true (b ∷ bs) = 32 ∷ lower_digit (b / 16) ∷ lower_digit (b % 16) ∷ spaced true bs

without_space-pair :
    (b : ℕ) (rest : List ℕ)
    → b < 256
    → without_space 0 (lower_digit (b / 16) ∷ lower_digit (b % 16) ∷ rest)
      ≡ lower_digit (b / 16) ∷ lower_digit (b % 16) ∷ without_space 0 rest
without_space-pair b rest h =
    let (low, high) = lower_digit_bounds (b / 16) (omega arith) in
    let (low', high') = lower_digit_bounds (b % 16) (omega arith) in
    without_space-ascii (lower_digit (b / 16)) (lower_digit (b % 16) ∷ rest) low (omega arith)
    ∙ ap (λ (xs : List ℕ). lower_digit (b / 16) ∷ xs)
        (without_space-ascii (lower_digit (b % 16)) rest low' (omega arith))

without_space-spaced :
    (blank : Bool) (bs : List ℕ)
    → All IsByte bs
    → without_space 0 (spaced blank bs) ≡ bytes_to_hex bs
unfolding spaced bytes_to_hex without_space
without_space-spaced blank [] h = refl
without_space-spaced false (b ∷ bs) (h, hs) =
    without_space-pair b (spaced false bs) h
    ∙ ap (λ (xs : List ℕ). lower_digit (b / 16) ∷ lower_digit (b % 16) ∷ xs)
        (without_space-spaced false bs hs)
without_space-spaced true (b ∷ bs) (h, hs) =
    without_space-blank (lower_digit (b / 16) ∷ lower_digit (b % 16) ∷ spaced true bs)
    ∙ (without_space-pair b (spaced true bs) h
        ∙ ap (λ (xs : List ℕ). lower_digit (b / 16) ∷ lower_digit (b % 16) ∷ xs)
            (without_space-spaced true bs hs))

length-bytes_to_hex : (bs : List ℕ) → length (bytes_to_hex bs) ≡ length bs * 2
unfolding bytes_to_hex
length-bytes_to_hex [] = refl
length-bytes_to_hex (b ∷ bs) = omega (arith, length-bytes_to_hex bs)

pairs-bytes_to_hex : (bs : List ℕ) → All IsByte bs → pairs (bytes_to_hex bs) ≡ ok bs
unfolding pairs bytes_to_hex
pairs-bytes_to_hex [] h = refl
pairs-bytes_to_hex (b ∷ bs) (h, hs) =
    let whole : bit_or (b / 16 * 16) (b % 16) ≡ b =
      omega (arith, bit_or_fields 4 (b / 16) (b % 16) (omega arith)) in
    rw
      (
        hex_digit-lower_digit (b / 16) (omega arith),
        hex_digit-lower_digit (b % 16) (omega arith),
        pairs-bytes_to_hex bs hs,
        whole,
      )
      refl

-- A text that is digits behind the white space is read, whatever stood between them.
parse-cleaned :
    (s bs : List ℕ)
    → All IsByte bs
    → without_space 0 (strip_prefix s) ≡ bytes_to_hex bs
    → parse_hex s ≡ ok bs
unfolding parse_hex
parse-cleaned s bs h e =
    let even : (length (bytes_to_hex bs) % 2 == 0) ≡ true =
      ground (arith, length-bytes_to_hex bs) in
    rw (e, even) (pairs-bytes_to_hex bs h)

strip_prefix-spaced :
    (blank : Bool) (bs : List ℕ) → All IsByte bs → strip_prefix (spaced blank bs) ≡ spaced blank bs
unfolding strip_prefix spaced
strip_prefix-spaced blank [] h = refl
strip_prefix-spaced false (b ∷ bs) (h, hs) =
    let (low, high) = lower_digit_bounds (b % 16) (omega arith) in
    let no_x : (lower_digit (b % 16) == 120) ≡ false = ground arith in
    elim (Bool-cases (lower_digit (b / 16) == 48)) [ inl e ↦ rw (e, no_x) refl | inr e ↦ rw e refl ]
strip_prefix-spaced true (b ∷ bs) (h, hs) = refl

-- Octets printed as digits, in pairs that follow one another or each behind a blank, are read back as
-- the same octets, with or without the prefix 0x.
pub parse_hex-spaced :
    (blank : Bool) (bs : List ℕ)
    → All IsByte bs
    → (parse_hex (spaced blank bs) ≡ ok bs) × (parse_hex (48 ∷ 120 ∷ spaced blank bs) ≡ ok bs)
unfolding strip_prefix
parse_hex-spaced blank bs h = (
  parse-cleaned (spaced blank bs) bs h
      (ap (without_space 0) (strip_prefix-spaced blank bs h) ∙ without_space-spaced blank bs h),
  parse-cleaned (48 ∷ 120 ∷ spaced blank bs) bs h (without_space-spaced blank bs h),
)

spaced-plain : (bs : List ℕ) → spaced false bs ≡ bytes_to_hex bs
unfolding spaced bytes_to_hex
spaced-plain [] = refl
spaced-plain (b ∷ bs) =
    ap (λ (xs : List ℕ). lower_digit (b / 16) ∷ lower_digit (b % 16) ∷ xs) (spaced-plain bs)

-- parse_hex undoes bytes_to_hex.
pub parse_hex-bytes_to_hex : (bs : List ℕ) → All IsByte bs → parse_hex (bytes_to_hex bs) ≡ ok bs
parse_hex-bytes_to_hex bs h = ap parse_hex (sym (spaced-plain bs)) ∙ (parse_hex-spaced false bs h).0
