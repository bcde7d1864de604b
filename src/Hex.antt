-- ===== src/Hex.antt =====
-- The hexadecimal literals of src/value.rs: parse_hex, hex_digit, bytes_to_hex. A text is its octets.
pub mod RoundTrip
use tcpform_protocol_lab.Base.{
  ℕ, zero, suc, ◌+◌, ◌-◌, ◌*◌, ◌/◌, ◌%◌, bit_or, List, [], ◌∷◌, ◌++◌, Bool, true, false, ◌&&◌, ◌||◌,
  not, length, ltb, leb, ◌==◌, Result, err, ok, ◌>>=◌, if◌then◌else◌,
}

pub data HexError : Type 0 where
  odd_digits : HexError
  invalid_digit : HexError

-- Between two bounds, both included.
abbrev pub within : ℕ → ℕ → ℕ → Bool
within low high b = leb low b && leb b high

-- How many octets char::is_whitespace takes at the front of a text in UTF-8, none where the first
-- character is no white space.
unfoldable pub space_len : List ℕ → ℕ
space_len [] = 0
space_len (a ∷ []) = if within 9 13 a || (a == 32) then 1 else 0
space_len (a ∷ b ∷ []) =
    if within 9 13 a || (a == 32)
    then 1
    else if (a == 0xC2) && ((b == 0x85) || (b == 0xA0))
    then 2
    else 0
space_len (a ∷ b ∷ c ∷ rest) =
    if within 9 13 a || (a == 32)
    then 1
    else if (a == 0xC2) && ((b == 0x85) || (b == 0xA0))
    then 2
    else if (a == 0xE1) && ((b == 0x9A) && (c == 0x80))
    then 3
    else if (a == 0xE2)
        && ((b == 0x80) && (within 0x80 0x8A c || (within 0xA8 0xA9 c || (c == 0xAF))))
    then 3
    else if (a == 0xE2) && ((b == 0x81) && (c == 0x9F))
    then 3
    else if (a == 0xE3) && ((b == 0x80) && (c == 0x80))
    then 3
    else 0

-- filter(|c| !c.is_whitespace()), where so many octets of a white space are still to be passed.
unfoldable pub without_space : ℕ → List ℕ → List ℕ
without_space skip [] = []
without_space (suc skip) (a ∷ rest) = without_space skip rest
without_space zero (a ∷ rest) = elim (space_len (a ∷ rest)) [
  | zero ↦ a ∷ without_space zero rest
  | suc more ↦ without_space more rest
]

-- strip_prefix("0x").unwrap_or(s)
unfoldable pub strip_prefix : List ℕ → List ℕ
strip_prefix [] = []
strip_prefix (a ∷ []) = a ∷ []
strip_prefix (a ∷ b ∷ rest) = if (a == 48) && (b == 120) then rest else a ∷ b ∷ rest

unfoldable pub hex_digit : ℕ → Result HexError ℕ
hex_digit b =
    if within 48 57 b
    then ok (b - 48)
    else if within 97 102 b
    then ok (b - 97 + 10)
    else if within 65 70 b
    then ok (b - 65 + 10)
    else err invalid_digit

-- The loop over pairs; a last digit alone does not get here.
unfoldable pub pairs : List ℕ → Result HexError (List ℕ)
pairs [] = ok []
pairs (a ∷ []) = err odd_digits
pairs (a ∷ b ∷ rest) = hex_digit a >>= λ high.
    hex_digit b >>= λ low. pairs rest >>= λ octets. ok (bit_or (high * 16) low ∷ octets)

unfoldable pub parse_hex : List ℕ → Result HexError (List ℕ)
parse_hex s =
    let cleaned = without_space 0 (strip_prefix s) in
    if length cleaned % 2 == 0 then pairs cleaned else err odd_digits

-- A digit of `{b:02x}`.
unfoldable pub lower_digit : ℕ → ℕ
lower_digit n = if ltb n 10 then 48 + n else 87 + n

unfoldable pub bytes_to_hex : List ℕ → List ℕ
bytes_to_hex [] = []
bytes_to_hex (b ∷ bs) = lower_digit (b / 16) ∷ lower_digit (b % 16) ∷ bytes_to_hex bs
