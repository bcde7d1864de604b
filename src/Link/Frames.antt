-- ===== src/Link/Frames.antt =====
-- The framing of a byte stream in src/transport.rs: frame_outbound and drain_frames.
pub mod Parts
pub mod Total
use mathlib.Core.Option
use tcpform_protocol_lab.Base.{
  ℕ, zero, suc, ◌+◌, ◌-◌, ◌^◌, min, List, [], ◌∷◌, ◌++◌, Option, none, some, Bool, true, false,
  ◌&&◌, not, length, take, drop, ltb, leb, ◌==◌, Result, err, ok, ◌>>=◌, if◌then◌else◌,
}
use tcpform_protocol_lab.Wire.Values.{text_eq}
use tcpform_protocol_lab.Wire.Encode.{be_bytes}
use tcpform_protocol_lab.Wire.Cursor.{be_number}
use tcpform_protocol_lab.Link.Errors.{
  TransportError, frame_too_large, delimited_too_large, frame_above_u32, empty_delimiter,
  wrong_fixed_size, zero_window, out_of_fuel,
}

pub data Framing : Type 0 where
  raw : Framing
  length_prefix : Framing
  delimiter : List ℕ → Framing
  fixed : ℕ → Framing

abbrev is_nil : List ℕ → Bool
is_nil [] = true
is_nil (x ∷ xs) = false

unfoldable pub frame_outbound : List ℕ → Framing → Result TransportError (List ℕ)
frame_outbound bytes raw = ok bytes
frame_outbound bytes length_prefix =
    if ltb (length bytes) 0x100000000
    then ok (be_bytes 4 (length bytes) ++ bytes)
    else err frame_above_u32
frame_outbound bytes (delimiter mark) =
    if is_nil mark then err empty_delimiter else ok (bytes ++ mark)
frame_outbound bytes (fixed size) = if length bytes == size then ok bytes else err wrong_fixed_size

-- windows(mark.len()).position(|window| window == mark), of a mark that is not empty.
unfoldable pub position_of : List ℕ → List ℕ → Option ℕ
position_of mark [] = none
position_of mark (x ∷ xs) =
    let later = position_of mark xs in
    if text_eq (take (length mark) (x ∷ xs)) mark then some 0 else Option.map suc later

-- A frame and what stays pending behind it, where the loop goes on.
abbrev Taken : Type 0
Taken = Result TransportError (Option (List ℕ × List ℕ))

unfoldable pub next_prefixed : ℕ → List ℕ → Taken
next_prefixed max_payload pending =
    let size = be_number 0 (take 4 pending) in
    if ltb (length pending) 4
    then ok none
    else if ltb max_payload size
    then err frame_too_large
    else if ltb (length pending) (size + 4)
    then ok none
    else ok (some (take size (drop 4 pending), drop (4 + size) pending))

unfoldable pub next_delimited : List ℕ → ℕ → List ℕ → Taken
next_delimited mark max_payload pending =
    if is_nil mark then err zero_window else elim (position_of mark pending) [
      | some p ↦ ok (some (take p pending, drop (p + length mark) pending))
      | none ↦
          if ltb (min (max_payload + length mark) (2 ^ 64 - 1)) (length pending)
          then err delimited_too_large
          else ok none
    ]

-- One round of the loop of drain_frames.
unfoldable pub next_frame : Framing → ℕ → List ℕ → Taken
next_frame raw max_payload pending = if is_nil pending then ok none else ok (some (pending, []))
next_frame length_prefix max_payload pending = next_prefixed max_payload pending
next_frame (delimiter mark) max_payload pending = next_delimited mark max_payload pending
next_frame (fixed size) max_payload pending =
    if ltb 0 size && leb size (length pending)
    then ok (some (take size pending, drop size pending))
    else ok none

-- The loop of drain_frames, with the frames that are there and what stays pending.
unfoldable pub drain_loop :
    ℕ → Framing → ℕ → List ℕ → Result TransportError (List (List ℕ) × List ℕ)
drain_loop zero framing max_payload pending = err out_of_fuel
drain_loop (suc fuel) framing max_payload pending =
    next_frame framing max_payload pending >>= λ taken. elim taken [
      | none ↦ ok ([], pending)
      | some found ↦
          drain_loop fuel framing max_payload found.1 >>= λ rest. ok (found.0 ∷ rest.0, rest.1)
    ]

-- Each frame takes one octet at least.
unfoldable pub drain_frames : Framing → ℕ → List ℕ → Result TransportError (List (List ℕ) × List ℕ)
drain_frames framing max_payload pending =
    drain_loop (suc (length pending)) framing max_payload pending
