-- ===== src/Packet/Options/RoundTrip.antt =====
-- The TCP option list of src/packet.rs: decoding ends on every input, and reads back what encoding
-- wrote.
use mathlib.Core.Path.{ap₂}
use tcpform_protocol_lab.Base.{
  ℕ, zero, suc, ◌+◌, ◌-◌, ◌*◌, ◌≤◌, ◌<◌, ◌≡◌, ◌≢◌, refl, ap, ◌∙◌, subst, List, [], ◌∷◌, ◌++◌,
  append_assoc, length, take, drop, replicate, All, length-append, length-drop, length-replicate,
  take-append, drop-append, arith, ltb, ◌==◌, ◌||◌, ◌&&◌, not, Bool, ◌%◌, false, Bool-cases, inl,
  inr, Result, ok, err, ◌>>=◌, >>=-eq-ok, ok-injective,
}
use tcpform_protocol_lab.Packet.Types.{
  PacketError, out_of_fuel, slice_out_of_range, TcpOption, end_of_list, nop, sack_permitted,
  maximum_segment_size, window_scale, sack, timestamp, unknown,
}
use tcpform_protocol_lab.Packet.Bytes.{put_u16, put_u32, u16_of_split, u32_of_split}
use tcpform_protocol_lab.Packet.Options.{
  encode_blocks, encode_option, encode_tcp_options, decode_blocks, decode_option, decode_mss,
  decode_scale, decode_permitted, decode_sack, decode_timestamp, octets_between,
  decode_options_loop, decode_tcp_options,
}

abbrev pub IsU32Pair : ℕ × ℕ → Type 0
IsU32Pair p = (p.0 < 0x100000000) × (p.1 < 0x100000000)

-- The kinds that the decoder knows, with the lengths of their data: kind 2 is a maximum segment size,
-- 3 a window scale, 4 the permission of selective acknowledgments, 5 such acknowledgments in blocks of
-- eight octets, 8 a timestamp.
unfoldable pub is_assigned : ℕ → ℕ → Bool
is_assigned kind size =
    (kind == 2 && size == 2)
    || ((kind == 3 && size == 1)
        || ((kind == 4 && size == 0)
            || ((kind == 5 && (not (size == 0) && size % 8 == 0)) || (kind == 8 && size == 8))))

-- An option that the decoder can return, other than the end of the list.
abbrev pub IsCanonical : TcpOption → Type 0
IsCanonical end_of_list = ⊥
IsCanonical nop = Unit
IsCanonical sack_permitted = Unit
IsCanonical (maximum_segment_size v) = v < 0x10000
IsCanonical (window_scale v) = Unit
IsCanonical (sack blocks) = All IsU32Pair blocks
IsCanonical (timestamp v echo) = (v < 0x100000000) × (echo < 0x100000000)
IsCanonical (unknown kind bytes) = (2 ≤ kind) × (is_assigned kind (length bytes) ≡ false)

length-encode_blocks : (blocks : List (ℕ × ℕ)) → length (encode_blocks blocks) ≡ length blocks * 8
unfolding encode_blocks
length-encode_blocks [] = refl
length-encode_blocks ((left, right) ∷ blocks) = omega (arith, length-encode_blocks blocks)

decode-encode_blocks :
    (blocks : List (ℕ × ℕ)) → All IsU32Pair blocks → decode_blocks (encode_blocks blocks) ≡ blocks
unfolding encode_blocks decode_blocks
decode-encode_blocks [] h = refl
decode-encode_blocks ((left, right) ∷ blocks) (h, hs) =
    rw (decode-encode_blocks blocks hs) (ground arith)

octets_between-front :
    (kind len : ℕ) (body rest : List ℕ)
    → len ≡ length body + 2
    → octets_between 2 len (kind ∷ len ∷ (body ++ rest)) ≡ ok body
unfolding octets_between
octets_between-front kind len body rest p =
    let size = length-append body rest in
    let inside : (ltb len 2 || ltb (suc (suc (length (body ++ rest)))) len) ≡ false =
      ground (arith, size) in
    rw (inside, take-append body rest {n = len - 2} (omega arith)) refl

-- One round of the loop on an option that carries its length.
long_option :
    (fuel kind len : ℕ) (body rest : List ℕ) (option : TcpOption)
    → 2 ≤ kind
    → len ≡ length body + 2
    → decode_option kind body ≡ option
    → decode_options_loop (suc fuel) (kind ∷ len ∷ (body ++ rest))
      ≡ (decode_options_loop fuel rest >>= λ options. ok (option ∷ options))
unfolding decode_options_loop
long_option fuel kind len body rest option h p d =
    let not_end : (kind == 0) ≡ false = ground arith in
    let not_nop : (kind == 1) ≡ false = ground arith in
    let fits : (ltb len 2 || ltb (length (body ++ rest) + 2) len) ≡ false =
      ground (arith, length-append body rest) in
    let whole = kind ∷ len ∷ (body ++ rest) in
    let inside : octets_between 2 len whole ≡ ok body = octets_between-front kind len body rest p in
    let two : length body + 2 ≡ suc (suc (length body)) = omega arith in
    let behind : drop len whole ≡ rest =
      ap (λ (n : ℕ). drop n whole) (p ∙ two) ∙ drop-append body rest refl in
    rw (not_end, not_nop, fits, inside, behind, d)

nop_option :
    (fuel : ℕ) (rest : List ℕ)
    → decode_options_loop (suc fuel) (1 ∷ rest)
      ≡ (decode_options_loop fuel rest >>= λ options. ok (nop ∷ options))
unfolding decode_options_loop
nop_option fuel [] = refl
nop_option fuel (len ∷ body) = refl

decode_option-sack :
    (blocks : List (ℕ × ℕ))
    → All IsU32Pair blocks
    → 0 < length blocks
    → decode_option 5 (encode_blocks blocks) ≡ sack blocks
unfolding decode_option
decode_option-sack blocks h pos =
    ground (arith, length-encode_blocks blocks, decode-encode_blocks blocks h)

decode_mss-unknown :
    (bytes : List ℕ) → (length bytes == 2) ≡ false → decode_mss bytes ≡ unknown 2 bytes
unfolding decode_mss
decode_mss-unknown [] h = refl
decode_mss-unknown (a ∷ []) h = refl
decode_mss-unknown (a ∷ b ∷ []) h = cc
decode_mss-unknown (a ∷ b ∷ c ∷ bytes) h = refl

decode_scale-unknown :
    (bytes : List ℕ) → (length bytes == 1) ≡ false → decode_scale bytes ≡ unknown 3 bytes
unfolding decode_scale
decode_scale-unknown [] h = refl
decode_scale-unknown (a ∷ []) h = cc
decode_scale-unknown (a ∷ b ∷ bytes) h = refl

decode_permitted-unknown :
    (bytes : List ℕ) → (length bytes == 0) ≡ false → decode_permitted bytes ≡ unknown 4 bytes
unfolding decode_permitted
decode_permitted-unknown [] h = cc
decode_permitted-unknown (a ∷ bytes) h = refl

decode_timestamp-unknown :
    (bytes : List ℕ) → (length bytes == 8) ≡ false → decode_timestamp bytes ≡ unknown 8 bytes
unfolding decode_timestamp
decode_timestamp-unknown [] h = refl
decode_timestamp-unknown (a ∷ []) h = refl
decode_timestamp-unknown (a ∷ b ∷ []) h = refl
decode_timestamp-unknown (a ∷ b ∷ c ∷ []) h = refl
decode_timestamp-unknown (a ∷ b ∷ c ∷ d ∷ []) h = refl
decode_timestamp-unknown (a ∷ b ∷ c ∷ d ∷ e ∷ []) h = refl
decode_timestamp-unknown (a ∷ b ∷ c ∷ d ∷ e ∷ f ∷ []) h = refl
decode_timestamp-unknown (a ∷ b ∷ c ∷ d ∷ e ∷ f ∷ g ∷ []) h = refl
decode_timestamp-unknown (a ∷ b ∷ c ∷ d ∷ e ∷ f ∷ g ∷ h ∷ []) p = cc
decode_timestamp-unknown (a ∷ b ∷ c ∷ d ∷ e ∷ f ∷ g ∷ h ∷ i ∷ bytes) p = refl

-- Data of another length than its kind has is kept as it is.
decode_option-unknown :
    (kind : ℕ) (bytes : List ℕ)
    → is_assigned kind (length bytes) ≡ false
    → decode_option kind bytes ≡ unknown kind bytes
unfolding decode_option is_assigned decode_sack
decode_option-unknown kind bytes h = ground (
  arith,
  decode_mss-unknown bytes,
  decode_scale-unknown bytes,
  decode_permitted-unknown bytes,
  decode_timestamp-unknown bytes,
)

sack_inversion :
    (blocks : List (ℕ × ℕ)) (front : List ℕ)
    → encode_option (sack blocks) ≡ ok front
    → (0 < length blocks) × (front ≡ 5 ∷ (length blocks * 8 + 2) ∷ encode_blocks blocks)
unfolding encode_option
sack_inversion blocks front e = ground arith

unknown_inversion :
    (kind : ℕ) (bytes front : List ℕ)
    → encode_option (unknown kind bytes) ≡ ok front
    → front ≡ kind ∷ (length bytes + 2) ∷ bytes
unfolding encode_option
unknown_inversion kind bytes front e = ground arith

decode_step :
    (fuel : ℕ) (option : TcpOption) (front rest : List ℕ)
    → IsCanonical option
    → encode_option option ≡ ok front
    → decode_options_loop (suc fuel) (front ++ rest)
      ≡ (decode_options_loop fuel rest >>= λ options. ok (option ∷ options))
unfolding encode_option decode_option
decode_step fuel end_of_list front rest h e = absurd h
decode_step fuel nop front rest h e = rw (← ok-injective e) (nop_option fuel rest)
decode_step fuel sack_permitted front rest h e =
    rw (← ok-injective e) (long_option fuel 4 2 [] rest sack_permitted (omega arith) refl refl)
decode_step fuel (maximum_segment_size v) front rest h e = rw (← ok-injective e) (
    long_option fuel 2 4 (put_u16 v []) rest (maximum_segment_size v) (omega arith) refl
      (ap maximum_segment_size (u16_of_split v h)))
decode_step fuel (window_scale v) front rest h e =
    rw (← ok-injective e)
      (long_option fuel 3 3 (v ∷ []) rest (window_scale v) (omega arith) refl refl)
decode_step fuel (sack blocks) front rest h e =
    let (fits, shape) = sack_inversion blocks front e in
    rw shape (
      long_option fuel 5 (length blocks * 8 + 2) (encode_blocks blocks) rest (sack blocks)
        (omega arith) (omega (arith, length-encode_blocks blocks))
        (decode_option-sack blocks h fits))
decode_step fuel (timestamp v echo) front rest h e = rw (← ok-injective e) (
    long_option fuel 8 10 (put_u32 v (put_u32 echo [])) rest (timestamp v echo) (omega arith) refl
      (ap₂ timestamp (u32_of_split v h.0) (u32_of_split echo h.1)))
decode_step fuel (unknown kind bytes) front rest h e = rw (unknown_inversion kind bytes front e) (
    long_option fuel kind (length bytes + 2) bytes rest (unknown kind bytes) h.0 refl
      (decode_option-unknown kind bytes h.1))

-- What the octets that fill the list up to a multiple of four decode to.
abbrev pub end_padding : ℕ → List TcpOption
end_padding zero = []
end_padding (suc n) = end_of_list ∷ []

decode_padding :
    (fuel n : ℕ) → n ≤ fuel → decode_options_loop fuel (replicate n 0) ≡ ok (end_padding n)
unfolding decode_options_loop
decode_padding zero zero h = refl
decode_padding (suc fuel) zero h = refl
decode_padding zero (suc n) h = absurd (omega arith)
decode_padding (suc fuel) (suc zero) h = refl
decode_padding (suc fuel) (suc (suc n)) h = refl

encode_option-pos :
    (option : TcpOption) (front : List ℕ) → encode_option option ≡ ok front → 0 < length front
unfolding encode_option
encode_option-pos end_of_list front e = rw (← ok-injective e) (omega arith)
encode_option-pos nop front e = rw (← ok-injective e) (omega arith)
encode_option-pos sack_permitted front e = rw (← ok-injective e) (omega arith)
encode_option-pos (maximum_segment_size v) front e = rw (← ok-injective e) (omega arith)
encode_option-pos (window_scale v) front e = rw (← ok-injective e) (omega arith)
encode_option-pos (sack blocks) front e = rw (sack_inversion blocks front e).1 (omega arith)
encode_option-pos (timestamp v echo) front e = rw (← ok-injective e) (omega arith)
encode_option-pos (unknown kind bytes) front e =
    rw (unknown_inversion kind bytes front e) (omega arith)

one_round :
    (fuel : ℕ) (option : TcpOption) (front rest : List ℕ) {options : List TcpOption}
    → IsCanonical option
    → encode_option option ≡ ok front
    → 0 < fuel
    → ((fuel' : ℕ) → fuel ≡ suc fuel' → decode_options_loop fuel' rest ≡ ok options)
    → decode_options_loop fuel (front ++ rest) ≡ ok (option ∷ options)
one_round zero option front rest h e pos later = absurd (omega arith)
one_round (suc fuel) option front rest h e pos later =
    rw (decode_step fuel option front rest h e, later fuel refl)

-- Reading back, with the octets that pad the list to a multiple of four behind it.
decode-encode_within :
    (options : List TcpOption) (bytes : List ℕ) (n fuel : ℕ)
    → All IsCanonical options
    → encode_tcp_options options ≡ ok bytes
    → length bytes + n ≤ fuel
    → decode_options_loop fuel (bytes ++ replicate n 0) ≡ ok (options ++ end_padding n)
unfolding encode_tcp_options
decode-encode_within [] bytes n fuel h e f =
    rw (← ok-injective e) (decode_padding fuel n (omega arith))
decode-encode_within (option ∷ options) bytes n fuel h e f =
    let (front, ef, e1) = >>=-eq-ok (encode_option option) _ e in
    let (back, eb, e2) = >>=-eq-ok (encode_tcp_options options) _ e1 in
    let pos = encode_option-pos option front ef in
    let len = length-append front back in
    let parts : front ++ back ≡ bytes = ok-injective e2 in
    rw (← parts, append_assoc front back (replicate n 0))
      (one_round fuel option front (back ++ replicate n 0) h.0 ef (omega (arith, ap length parts))
        (λ fuel' h'.
          decode-encode_within options back n fuel' h.1 eb (omega (arith, ap length parts))))

-- Encoding options that the decoder can return (no end of the list, numbers within their widths, an
-- unknown option not of a kind that is known at its length), padding them with `n` zero octets, and
-- decoding the result, returns the options, with the end of the list behind them where there is padding.
pub decode-encode_options :
    (options : List TcpOption) (bytes : List ℕ) (n : ℕ)
    → All IsCanonical options
    → encode_tcp_options options ≡ ok bytes
    → decode_tcp_options (bytes ++ replicate n 0) ≡ ok (options ++ end_padding n)
unfolding decode_tcp_options
decode-encode_options options bytes n h e =
    decode-encode_within options bytes n (length (bytes ++ replicate n 0)) h e
      (omega (arith, length-append bytes (replicate n 0), length-replicate {A = ℕ} n 0))

-- Options, or an error that the code has a message for.
abbrev Returns : Result PacketError (List TcpOption) → Type 0
Returns (err out_of_fuel) = ⊥
Returns (err slice_out_of_range) = ⊥
Returns _ = Unit

behind :
    (m : Result PacketError (List TcpOption)) (f : List TcpOption → List TcpOption)
    → Returns m
    → Returns (m >>= λ a. ok (f a))
behind (ok a) f h = tt
behind (err x) f h = h

-- The data of an option whose length passed the tests.
octets_between-tested :
    (kind len : ℕ) (body : List ℕ)
    → (ltb len 2 || ltb (length body + 2) len) ≡ false
    → (2 ≤ len) × (octets_between 2 len (kind ∷ len ∷ body) ≡ ok (take (len - 2) body))
unfolding octets_between
octets_between-tested kind len body h = ground arith

-- The loop never runs out of fuel, and slices within the octets.
loop-Returns :
    (fuel : ℕ) (bytes : List ℕ) → length bytes ≤ fuel → Returns (decode_options_loop fuel bytes)
unfolding decode_options_loop
loop-Returns fuel [] h = tt
loop-Returns zero (b ∷ bytes) h = absurd (omega arith)
loop-Returns (suc fuel) (b ∷ []) h = ground arith
loop-Returns (suc fuel) (b ∷ len ∷ body) h =
    let after_nop =
      behind (decode_options_loop fuel (len ∷ body)) (λ options. nop ∷ options)
        (loop-Returns fuel (len ∷ body) (omega arith)) in
    elim (Bool-cases (b == 0)) [
      | inl e ↦ rw e tt
      | inr e ↦ rw e (elim (Bool-cases (b == 1)) [
        | inl e ↦ rw e after_nop
        | inr e ↦ rw e (elim (Bool-cases (ltb len 2 || ltb (length body + 2) len)) [
          | inl e ↦ rw e tt
          | inr e ↦
              let (two, sliced) = octets_between-tested b len body e in
              let size = length-drop len (b ∷ len ∷ body) in
              rw (e, sliced)
                (behind (decode_options_loop fuel (drop len (b ∷ len ∷ body)))
                  (λ options. decode_option b (take (len - 2) body) ∷ options)
                  (loop-Returns fuel (drop len (b ∷ len ∷ body)) (omega (arith, size))))
        ])
      ])
    ]

-- On every input the decoder returns options or one of the errors of the code: each round passes one
-- octet at least, so the rounds that the input's length allows are enough, and the data of an option
-- are sliced within the input, so that no slice panics.
pub decode_tcp_options_returns :
    (bytes : List ℕ)
    → (decode_tcp_options bytes ≢ err out_of_fuel)
      × (decode_tcp_options bytes ≢ err slice_out_of_range)
unfolding decode_tcp_options
decode_tcp_options_returns bytes =
    let h = loop-Returns (length bytes) bytes (omega arith) in
    (λ e. subst Returns e h, λ e. subst Returns e h)
