-- ===== src/Packet/Bytes.antt =====
-- Big-endian fields in a buffer: `to_be_bytes`, `from_be_bytes`, slices and `resize`. A buffer that
-- src/packet.rs fills field by field is written front to back.
use tcpform_protocol_lab.Base.{
  ℕ, ◌+◌, ◌-◌, ◌*◌, ◌/◌, ◌%◌, ◌<◌, ◌≡◌, Bool, true, false, List, ◌∷◌, ◌++◌, Option, none, some,
  arith, not, ◌==◌, length, take, drop, get_or, replicate, length-append, length-replicate,
  take-append, drop-append,
}

abbrev pub IsByte : ℕ → Type 0
IsByte b = b < 256

abbrev pub put_u16 : ℕ → List ℕ → List ℕ
put_u16 n rest = (n / 256 % 256) ∷ (n % 256) ∷ rest

abbrev pub put_u32 : ℕ → List ℕ → List ℕ
put_u32 n rest = (n / 0x1000000 % 256) ∷ (n / 0x10000 % 256) ∷ (n / 256 % 256) ∷ (n % 256) ∷ rest

-- Each read stands behind a guard on the length, so the default of `get_or` is not read.
abbrev pub u8_at : List ℕ → ℕ → ℕ
u8_at bytes i = get_or bytes i 0

abbrev pub u16_of : ℕ → ℕ → ℕ
u16_of a b = a * 256 + b

abbrev pub u32_of : ℕ → ℕ → ℕ → ℕ → ℕ
u32_of a b c d = a * 0x1000000 + b * 0x10000 + c * 256 + d

abbrev pub u16_at : List ℕ → ℕ → ℕ
u16_at bytes i = u16_of (u8_at bytes i) (u8_at bytes (i + 1))

abbrev pub u32_at : List ℕ → ℕ → ℕ
u32_at bytes i =
    u32_of (u8_at bytes i) (u8_at bytes (i + 1)) (u8_at bytes (i + 2)) (u8_at bytes (i + 3))

-- bytes[from..to]
abbrev pub slice : List ℕ → ℕ → ℕ → List ℕ
slice bytes from to = take (to - from) (drop from bytes)

-- options.resize((options.len() + 3) & !3, 0)
abbrev pub padding : ℕ → ℕ
padding n = (n + 3) / 4 * 4 - n

unfoldable pub pad4 : List ℕ → List ℕ
pad4 xs = xs ++ replicate (padding (length xs)) 0

-- flag as u16
abbrev pub bit : Bool → ℕ
bit true = 1
bit false = 0

abbrev pub or_else : Option ℕ → ℕ → ℕ
or_else (some x) d = x
or_else none d = d

pub u16_of_split : (n : ℕ) → n < 0x10000 → u16_of (n / 256 % 256) (n % 256) ≡ n
u16_of_split n h = omega arith

pub u32_of_split :
    (n : ℕ)
    → n < 0x100000000
    → u32_of (n / 0x1000000 % 256) (n / 0x10000 % 256) (n / 256 % 256) (n % 256) ≡ n
u32_of_split n h = omega arith

pub length-pad4 : (xs : List ℕ) → length (pad4 xs) ≡ (length xs + 3) / 4 * 4
unfolding pad4
length-pad4 xs = omega (
  arith,
  length-append xs (replicate (padding (length xs)) 0),
  length-replicate {A = ℕ} (padding (length xs)) 0,
)

-- The slice between a known front and a known back.
pub slice_lem :
    (pre mid post : List ℕ) {from to : ℕ}
    → from ≡ length pre
    → to ≡ length pre + length mid
    → slice (pre ++ (mid ++ post)) from to ≡ mid
slice_lem pre mid post {from} {to} p q =
    let d : drop from (pre ++ (mid ++ post)) ≡ mid ++ post = drop-append pre (mid ++ post) p in
    rw d (take-append mid post (omega arith))

-- A flag is one bit, and a nonzero field of its weight is the flag.
pub bit_lt : (b : Bool) → bit b < 2
bit_lt true = omega arith
bit_lt false = omega arith

pub not_zero : (b : Bool) (n w : ℕ) → n ≡ bit b * w → 0 < w → not (n == 0) ≡ b
not_zero true n w e h = ground arith
not_zero false n w e h = ground arith
