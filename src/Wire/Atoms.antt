-- ===== src/Wire/Atoms.antt =====
-- The smallest parts of the live format: octets, numbers, counted octets and texts.
use native.Mathlib.Nat.{pow-suc}
use tcpform_protocol_lab.Base.{
  ℕ, zero, suc, ◌+◌, ◌*◌, ◌/◌, ◌%◌, ◌^◌, ◌<◌, ◌≡◌, refl, sym, subst, List, [], ◌∷◌, ◌++◌, true,
  false, length, get_or, length-append, take-append, ltb, leb, arith,
}
use tcpform_protocol_lab.Wire.Values.{Text, is_utf8}
use tcpform_protocol_lab.Wire.Encode.{Writer, extend, be_bytes, put_u32, put_bytes, put_string}
use tcpform_protocol_lab.Wire.Cursor.{
  ◌>>>◌, return, take_octets, byte, be_number, u32, i64, octets_of_length, text,
}
use tcpform_protocol_lab.Wire.Codes.{Writes, Decodes, Codes, Codes-then, Codes-emit}

-- The octets of a number are read back as that number.
be_number-append :
    (high : ℕ) (xs : List ℕ) (b : ℕ) → be_number high (xs ++ b ∷ []) ≡ be_number high xs * 256 + b
unfolding be_number
be_number-append high [] b = refl
be_number-append high (x ∷ xs) b = be_number-append (high * 256 + x) xs b

pub length-be_bytes : (width n : ℕ) → length (be_bytes width n) ≡ width
unfolding be_bytes
length-be_bytes zero n = refl
length-be_bytes (suc width) n = omega (
  arith,
  length-append (be_bytes width (n / 256)) ((n % 256) ∷ []),
  length-be_bytes width (n / 256),
)

pub be_number-be_bytes : (width n : ℕ) → n < 256 ^ width → be_number 0 (be_bytes width n) ≡ n
unfolding be_number be_bytes
be_number-be_bytes zero n h = omega arith
be_number-be_bytes (suc width) n h = rw (be_number-append 0 (be_bytes width (n / 256)) (n % 256)) (
    omega (
      arith,
      pow-suc 256 width,
      be_number-be_bytes width (n / 256) (omega (arith, pow-suc 256 width)),
    ))

Decodes-take_octets :
    {n : ℕ} (octets : List ℕ) → n ≡ length octets → Decodes (take_octets n) octets octets
unfolding take_octets
Decodes-take_octets {n} octets e = record {
  reads = λ whole p rest small fits here.
      let no_overflow : leb (2 ^ 64) (p + length octets) ≡ false = ground arith in
      let inside : leb (p + length octets) (length whole) ≡ true = ground arith in
      rw (e, no_overflow, inside, here, take-append octets rest refl);
}

-- A fixed number of octets, which the code then reads in its own way.
pub Codes-view :
    {A : Type 0} {w : Writer} (octets : List ℕ) (n : ℕ) (view : List ℕ → A) {a : A}
    → Writes w octets
    → n ≡ length octets
    → view octets ≡ a
    → Codes w (λ fuel. take_octets n >>> λ taken. return (view taken)) a
Codes-view {w} octets n view h e v =
    subst (λ b. Codes w (λ fuel. take_octets n >>> λ taken. return (view taken)) b) v
      (Codes-emit view (record {
        octets = octets;
        written = h;
        read = λ fuel enough. Decodes-take_octets octets e;
      }))

pub Writes-extend : (octets : List ℕ) → Writes (extend octets) octets
Writes-extend octets = record { appends = λ out. refl }

pub Codes-byte : (b : ℕ) → Codes (extend (b ∷ [])) (λ fuel. byte) b
unfolding byte
Codes-byte b =
    Codes-view (b ∷ []) 1 (λ octets. get_or octets 0 0) (Writes-extend (b ∷ [])) refl refl

pub Codes-i64 : (n : ℕ) → n < 2 ^ 64 → Codes (extend (be_bytes 8 n)) (λ fuel. i64) n
unfolding i64
Codes-i64 n h =
    Codes-view (be_bytes 8 n) 8 (be_number 0) (Writes-extend (be_bytes 8 n))
      (sym (length-be_bytes 8 n)) (be_number-be_bytes 8 n h)

Writes-put_u32 : (n : ℕ) → n < 2 ^ 32 → Writes (put_u32 n) (be_bytes 4 n)
unfolding put_u32
Writes-put_u32 n h = record {
  appends = λ out. let fits : ltb n 0x100000000 ≡ true = ground arith in rw fits refl;
}

pub Codes-u32 : (n : ℕ) → n < 2 ^ 32 → Codes (put_u32 n) (λ fuel. u32) n
unfolding u32
Codes-u32 n h =
    Codes-view (be_bytes 4 n) 4 (be_number 0) (Writes-put_u32 n h) (sym (length-be_bytes 4 n))
      (be_number-be_bytes 4 n h)

pub Codes-octets :
    (octets : List ℕ)
    → length octets < 2 ^ 32
    → Codes (put_bytes octets) (λ fuel. octets_of_length) octets
unfolding put_bytes octets_of_length
Codes-octets octets h =
    Codes-then (λ fuel. take_octets) (Codes-u32 (length octets) h)
      (record {
        octets = octets;
        written = Writes-extend octets;
        read = λ fuel enough. Decodes-take_octets octets refl;
      })

-- A text that a String can hold and that a u32 can count.
abbrev pub IsText : Text → Type 0
IsText octets = (is_utf8 octets ≡ true) × (length octets < 2 ^ 32)

pub Codes-text : (octets : Text) → IsText octets → Codes (put_string octets) (λ fuel. text) octets
unfolding put_string text ◌>>>◌ return
Codes-text octets h = record {
  octets = Codes.octets (Codes-octets octets h.1);
  written = Codes.written (Codes-octets octets h.1);
  read = λ fuel enough. record {
    reads = λ whole p rest small fits here.
        rw
          (
            Decodes.reads (Codes.read (Codes-octets octets h.1) fuel enough) whole p rest small fits
                here,
            h.0,
          )
          refl;
  };
}

pub Decodes-byte : (b : ℕ) → Decodes byte (b ∷ []) b
unfolding byte ◌>>>◌ return
Decodes-byte b = record {
  reads = λ whole p rest small fits here.
      rw (Decodes.reads (Decodes-take_octets (b ∷ []) refl) whole p rest small fits here) refl;
}
