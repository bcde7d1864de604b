-- ===== src/Link/Frames/Total.antt =====
-- drain_frames of src/transport.rs ends.
use tcpform_protocol_lab.Base.{
  ℕ, zero, suc, ◌+◌, ◌<◌, ◌≡◌, ◌≢◌, ap, List, [], ◌∷◌, Option, none, some, Option-cases, inl, inr,
  length, take, drop, length-drop, arith, Result, ok, err, ◌>>=◌, >>=-ne-err_after,
}
use tcpform_protocol_lab.Wire.Cursor.{be_number}
use tcpform_protocol_lab.Link.Frames.Parts.{position_of-inside}
use tcpform_protocol_lab.Link.Errors.{TransportError, out_of_fuel}
use tcpform_protocol_lab.Link.Frames.{
  Framing, raw, length_prefix, delimiter, fixed, position_of, next_frame, next_prefixed,
  next_delimited, drain_loop, drain_frames,
}

-- A round that goes on leaves less, and no round is out of fuel.
record Shrinks (framing : Framing) (max_payload : ℕ) (pending : List ℕ) : Type 0 where
  ends : next_frame framing max_payload pending ≢ err out_of_fuel
  shorter :
      (message rest : List ℕ)
      → next_frame framing max_payload pending ≡ ok (some (message, rest))
      → length rest < length pending

next_frame-Shrinks :
    (framing : Framing) (max_payload : ℕ) (pending : List ℕ) → Shrinks framing max_payload pending
unfolding next_frame next_prefixed next_delimited position_of
next_frame-Shrinks raw max_payload [] = record { ends = λ e. cc; shorter = λ m r e. absurd (cc) }
next_frame-Shrinks raw max_payload (b ∷ bs) = record {
  ends = λ e. cc;
  shorter = λ m r e. let nothing : r ≡ [] = cc in rw nothing (omega arith);
}
next_frame-Shrinks length_prefix max_payload pending = record {
  ends = λ e. ground arith;
  shorter = λ m r e. ground (arith, length-drop (4 + be_number 0 (take 4 pending)) pending);
}
next_frame-Shrinks (delimiter []) max_payload pending = record {
  ends = λ e. cc;
  shorter = λ m r e. absurd (cc);
}
next_frame-Shrinks (delimiter (c ∷ cs)) max_payload pending =
    elim (Option-cases (position_of (c ∷ cs) pending)) [
      | inl absent ↦ record {
        ends = rw absent (λ e. ground arith);
        shorter = λ m r e. absurd (ground (arith, rw absent at e));
      }
      | inr (p, found) ↦ record {
        ends = rw found (λ e. cc);
        shorter = λ m r e.
            let behind : r ≡ drop (p + suc (length cs)) pending = cc (rw found at e) in
            omega (
              arith,
              ap length behind,
              length-drop (p + suc (length cs)) pending,
              position_of-inside (c ∷ cs) pending p found,
            );
      }
    ]
next_frame-Shrinks (fixed size) max_payload pending = record {
  ends = λ e. ground arith;
  shorter = λ m r e. ground (arith, length-drop size pending);
}

drain_loop-ne-out_of_fuel :
    (fuel : ℕ) (framing : Framing) (max_payload : ℕ) (pending : List ℕ)
    → length pending < fuel
    → drain_loop fuel framing max_payload pending ≢ err out_of_fuel
unfolding drain_loop
drain_loop-ne-out_of_fuel zero framing max_payload pending h = absurd (omega arith)
drain_loop-ne-out_of_fuel (suc fuel) framing max_payload pending h =
    >>=-ne-err_after (next_frame framing max_payload pending) _ out_of_fuel
      (Shrinks.ends (next_frame-Shrinks framing max_payload pending))
      (after pending h (drain_loop-ne-out_of_fuel fuel framing max_payload))
  where
    after :
        (pending : List ℕ)
        → length pending < suc fuel
        → ((rest : List ℕ)
            → length rest < fuel
            → drain_loop fuel framing max_payload rest ≢ err out_of_fuel)
        → (taken : Option (List ℕ × List ℕ)) → next_frame framing max_payload pending ≡ ok taken
        → (elim taken as (λ x. Result TransportError (List (List ℕ) × List ℕ)) [
          | none ↦ ok ([], pending)
          | some found ↦
              drain_loop fuel framing max_payload found.1 >>= λ rest. ok (found.0 ∷ rest.0, rest.1)
        ])
          ≢ err out_of_fuel
    after pending h loop none e = λ p. cc
    after pending h loop (some (message, rest)) e =
        >>=-ne-err_after (drain_loop fuel framing max_payload rest) _ out_of_fuel
          (loop rest (
            omega (
              arith,
              Shrinks.shorter (next_frame-Shrinks framing max_payload pending) message rest e,
            )))
          (λ later f p. cc)

-- Draining ends, whatever is pending.
pub drain_frames-ne-out_of_fuel :
    (framing : Framing) (max_payload : ℕ) (pending : List ℕ)
    → drain_frames framing max_payload pending ≢ err out_of_fuel
unfolding drain_frames
drain_frames-ne-out_of_fuel framing max_payload pending =
    drain_loop-ne-out_of_fuel (suc (length pending)) framing max_payload pending (omega arith)
