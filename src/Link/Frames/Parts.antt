-- ===== src/Link/Frames/Parts.antt =====
-- One frame of src/transport.rs: drain_frames takes it from the front of what is pending when all of
-- it is there, and takes nothing before.
use mathlib.Core.Option
use tcpform_protocol_lab.Base.{
  ℕ, suc, ◌+◌, ◌-◌, ◌^◌, ◌≤◌, ◌<◌, min, ◌≡◌, refl, sym, ap, ◌∙◌, List, [], ◌∷◌, ◌++◌, append_assoc,
  Option, none, some, true, false, Bool-cases, inl, inr, length, take, drop, length-append,
  length-take, take-append, drop-append, Option-cases, drop-drop, take-append_front, ltb-false→le,
  ltb, leb, arith, ok,
}
use tcpform_protocol_lab.Wire.Values.{text_eq}
use tcpform_protocol_lab.Wire.Texts.{text_eq→≡}
use tcpform_protocol_lab.Wire.Encode.{be_bytes}
use tcpform_protocol_lab.Wire.Cursor.{be_number}
use tcpform_protocol_lab.Wire.Atoms.{length-be_bytes, be_number-be_bytes}
use tcpform_protocol_lab.Link.Frames.{
  Framing, length_prefix, delimiter, fixed, next_frame, next_prefixed, next_delimited, position_of,
}

-- `octets` is how `message` stands in the stream.
pub record IsFrame (framing : Framing) (max_payload : ℕ) (message octets : List ℕ) : Type 0 where
  pub some_octet : 0 < length octets
  pub taken :
      (rest : List ℕ) → next_frame framing max_payload (octets ++ rest) ≡ ok (some (message, rest))
  pub waits :
      (part rest : List ℕ)
      → octets ≡ part ++ rest
      → length part < length octets
      → next_frame framing max_payload part ≡ ok none

pub fixed-IsFrame :
    (size max_payload : ℕ) (message : List ℕ)
    → 0 < size
    → length message ≡ size
    → IsFrame (fixed size) max_payload message message
unfolding next_frame
fixed-IsFrame size max_payload message h e = record {
  some_octet = omega arith;
  taken = λ rest.
      let positive : ltb 0 size ≡ true = ground arith in
      let there : leb size (length (message ++ rest)) ≡ true =
        ground (arith, length-append message rest) in
      rw (positive, there, take-append message rest (sym e), drop-append message rest (sym e)) refl;
  waits = λ part rest whole short.
      let missing : leb size (length part) ≡ false = ground arith in
      elim (Bool-cases (ltb 0 size)) [ inl p ↦ rw (p, missing) refl | inr p ↦ rw p refl ];
}

pub length_prefix-IsFrame :
    (max_payload : ℕ) (message : List ℕ)
    → length message ≤ max_payload
    → length message < 2 ^ 32
    → IsFrame length_prefix max_payload message (be_bytes 4 (length message) ++ message)
unfolding next_frame next_prefixed
length_prefix-IsFrame max_payload message h small =
    let size : List ℕ = be_bytes 4 (length message) in
    let four : 4 ≡ length size = sym (length-be_bytes 4 (length message)) in
    let read : be_number 0 size ≡ length message = be_number-be_bytes 4 (length message) small in
    record {
      some_octet = omega (arith, four, length-append size message);
      taken = λ rest.
          let whole : (size ++ message) ++ rest ≡ size ++ (message ++ rest) =
            append_assoc size message rest in
          let front : take 4 (size ++ (message ++ rest)) ≡ size =
            take-append size (message ++ rest) four in
          let back : drop 4 (size ++ (message ++ rest)) ≡ message ++ rest =
            drop-append size (message ++ rest) four in
          let behind : drop (4 + length message) (size ++ (message ++ rest)) ≡ rest =
            sym (drop-drop 4 (length message) (size ++ (message ++ rest)))
            ∙ (ap (drop (length message)) back ∙ drop-append message rest refl) in
          let all_len : length (size ++ (message ++ rest)) ≡ 4 + (length message + length rest) =
            omega (arith, four, length-append size (message ++ rest), length-append message rest) in
          let long : ltb (length (size ++ (message ++ rest))) 4 ≡ false = ground (arith, all_len) in
          let allowed : ltb max_payload (length message) ≡ false = ground arith in
          let there : ltb (length (size ++ (message ++ rest))) (length message + 4) ≡ false =
            ground (arith, all_len) in
          rw (whole, front, read, long, allowed, there, back, behind, take-append message rest refl)
            refl;
      waits = λ part rest whole short. elim (Bool-cases (ltb (length part) 4)) [
        | inl few ↦ rw few refl
        | inr enough ↦
            let front : take 4 part ≡ size =
              sym (take-append_front 4 part rest (ltb-false→le (length part) 4 enough))
              ∙ (ap (take 4) (sym whole) ∙ take-append size message four) in
            let allowed : ltb max_payload (length message) ≡ false = ground arith in
            let missing : ltb (length part) (length message + 4) ≡ true =
              ground (arith, four, length-append size message) in
            rw (enough, front, read, allowed, missing) refl
      ];
    }

-- Where the code looks for the mark, and finds it.
starts_length :
    (mark xs : List ℕ) → text_eq (take (length mark) xs) mark ≡ true → length mark ≤ length xs
starts_length mark xs h =
    let same : take (length mark) xs ≡ mark = text_eq→≡ (take (length mark) xs) mark h in
    omega (arith, length-take (length mark) xs, ap length same)

shifted_some :
    (o : Option ℕ) (k : ℕ) → Option.map suc o ≡ some k → (j : ℕ) × (o ≡ some j) × (k ≡ suc j)
shifted_some none k e = absurd (cc)
shifted_some (some j) k e = (j, refl, cc)

pub position_of-inside :
    (mark xs : List ℕ) (k : ℕ) → position_of mark xs ≡ some k → k + length mark ≤ length xs
unfolding position_of
position_of-inside mark [] k h = absurd (cc)
position_of-inside mark (x ∷ xs) k h =
    elim (Bool-cases (text_eq (take (length mark) (x ∷ xs)) mark)) [
      | inl e ↦ let zero_at : k ≡ 0 = cc (rw e at h) in omega (arith, starts_length mark (x ∷ xs) e)
      | inr e ↦
          let (j, found, next) = shifted_some (position_of mark xs) k (rw e at h) in
          omega (arith, position_of-inside mark xs j found)
    ]

position_of-append :
    (mark xs ys : List ℕ) (k : ℕ)
    → position_of mark xs ≡ some k
    → position_of mark (xs ++ ys) ≡ some k
unfolding position_of
position_of-append mark [] ys k h = absurd (cc)
position_of-append mark (x ∷ xs) ys k h =
    let long : length mark ≤ length (x ∷ xs) =
      omega (arith, position_of-inside mark (x ∷ xs) k h) in
    let front : take (length mark) (x ∷ (xs ++ ys)) ≡ take (length mark) (x ∷ xs) =
      take-append_front (length mark) (x ∷ xs) ys long in
    elim (Bool-cases (text_eq (take (length mark) (x ∷ xs)) mark)) [
      | inl e ↦ rw (front, e) (rw e at h)
      | inr e ↦
          let (j, found, next) = shifted_some (position_of mark xs) k (rw e at h) in
          rw (front, e, position_of-append mark xs ys j found) (rw next refl)
    ]

-- The mark stands behind the message and nowhere earlier.
pub delimiter-IsFrame :
    (mark : List ℕ) (max_payload : ℕ) (message : List ℕ)
    → 0 < length mark
    → position_of mark (message ++ mark) ≡ some (length message)
    → length message ≤ max_payload
    → max_payload + length mark < 2 ^ 64
    → IsFrame (delimiter mark) max_payload message (message ++ mark)
unfolding next_frame next_delimited
delimiter-IsFrame [] max_payload message some_mark h fits small = absurd (omega arith)
delimiter-IsFrame (m ∷ ms) max_payload message some_mark h fits small =
    let mark : List ℕ = m ∷ ms in
    record {
      some_octet = omega (arith, length-append message mark);
      taken = λ rest.
          let whole : (message ++ mark) ++ rest ≡ message ++ (mark ++ rest) =
            append_assoc message mark rest in
          let behind : drop (length message + length mark) ((message ++ mark) ++ rest) ≡ rest =
            drop-append (message ++ mark) rest (omega (arith, length-append message mark)) in
          let front : take (length message) ((message ++ mark) ++ rest) ≡ message =
            ap (take (length message)) whole ∙ take-append message (mark ++ rest) refl in
          rw (position_of-append mark (message ++ mark) rest (length message) h, front, behind)
            refl;
      waits = λ part rest whole short. elim (Option-cases (position_of mark part)) [
        | inl absent ↦
            let allowed : ltb (min (max_payload + length mark) (2 ^ 64 - 1)) (length part) ≡ false =
              ground (arith, length-append message mark) in
            rw (absent, allowed) refl
        | inr found ↦
            let early : some (length message) ≡ some found.0 =
              sym h
              ∙ (ap (position_of mark) whole ∙ position_of-append mark part rest found.0 found.1) in
            absurd (
              omega (
                arith,
                position_of-inside mark part found.0 found.1,
                length-append message mark,
                some_injective early,
              ))
      ];
    }
  where
    some_injective : {a b : ℕ} → ◌≡◌ {A = Option ℕ} (some a) (some b) → a ≡ b
    some_injective e = cc
