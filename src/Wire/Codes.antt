-- ===== src/Wire/Codes.antt =====
-- An encoder and a decoder that agree on a value, whatever stands around it, and how such pairs are
-- put together.
use tcpform_protocol_lab.Base.{
  ℕ, ◌+◌, ◌^◌, ◌≤◌, ◌<◌, ◌≡◌, refl, sym, ap, ◌∙◌, subst, List, [], ◌++◌, append-nil, append_assoc,
  length, drop, length-append, drop-append, drop-drop, arith, ok, >>=_assoc,
}
use tcpform_protocol_lab.Wire.Encode.{Writer, ◌▷◌}
use tcpform_protocol_lab.Wire.Cursor.{Decoder, ◌>>>◌, return, at}

-- The encoder appends these octets.
pub record Writes (w : Writer) (octets : List ℕ) : Type 0 where
  pub appends : (out : List ℕ) → w out ≡ ok (out ++ octets)

-- The decoder reads these octets as that value, wherever they stand, and ends behind them.
pub record Decodes {A : Type 0} (d : Decoder A) (octets : List ℕ) (a : A) : Type 0 where
  pub reads :
      (whole : List ℕ) (p : ℕ) (rest : List ℕ)
      → length whole < 2 ^ 64
      → p + length octets ≤ length whole
      → drop p whole ≡ octets ++ rest
      → d (at whole p) ≡ ok (a, at whole (p + length octets))

-- What the encoder writes, the decoder reads back as that value, with as much fuel as octets.
pub record Codes {A : Type 0} (w : Writer) (d : ℕ → Decoder A) (a : A) : Type 0 where
  pub octets : List ℕ
  pub written : Writes w octets
  pub read : (fuel : ℕ) → length octets ≤ fuel → Decodes (d fuel) octets a

pub Writes-then :
    {v w : Writer} {xs ys : List ℕ} → Writes v xs → Writes w ys → Writes (v ▷ w) (xs ++ ys)
unfolding ◌▷◌
Writes-then {v} {w} {xs} {ys} h k = record {
  appends = λ out. rw (Writes.appends h out, Writes.appends k (out ++ xs), append_assoc out xs ys);
}

pub Decodes-then :
    {A B : Type 0} {d : Decoder A} (next : A → Decoder B) {xs ys : List ℕ} {a : A} {b : B}
    → Decodes d xs a
    → Decodes (next a) ys b
    → Decodes (d >>> next) (xs ++ ys) b
unfolding ◌>>>◌
Decodes-then next {xs} {ys} h k = record {
  reads = λ whole p rest small fits here.
      let len : length (xs ++ ys) ≡ length xs + length ys = length-append xs ys in
      let first : drop p whole ≡ xs ++ (ys ++ rest) = here ∙ append_assoc xs ys rest in
      let second : drop (p + length xs) whole ≡ ys ++ rest =
        sym (drop-drop p (length xs) whole)
        ∙ (ap (drop (length xs)) first ∙ drop-append xs (ys ++ rest) refl) in
      let end : p + length xs + length ys ≡ p + length (xs ++ ys) = omega (arith, len) in
      rw (
        Decodes.reads h whole p (ys ++ rest) small (omega (arith, len)) first,
        Decodes.reads k whole (p + length xs) rest small (omega (arith, len)) second,
        end,
      );
}

pub Decodes-return : {A : Type 0} (a : A) → Decodes (return a) [] a
unfolding return
Decodes-return a = record {
  reads = λ whole p rest small fits here. let e : p + 0 ≡ p = omega arith in rw e;
}

pub Codes-then :
    {A B : Type 0} {v w : Writer} {d : ℕ → Decoder A} (next : ℕ → A → Decoder B) {a : A} {b : B}
    → Codes v d a
    → Codes w (λ n. next n a) b
    → Codes (v ▷ w) (λ n. d n >>> next n) b
Codes-then next h k =
    let xs : List ℕ = Codes.octets h in
    let ys : List ℕ = Codes.octets k in
    let len : length (xs ++ ys) ≡ length xs + length ys = length-append xs ys in
    record {
      octets = xs ++ ys;
      written = Writes-then (Codes.written h) (Codes.written k);
      read = λ fuel enough.
          Decodes-then (next fuel) (Codes.read h fuel (omega (arith, len)))
            (Codes.read k fuel (omega (arith, len)));
    }

-- A decoder that reads nothing more.
pub Codes-last :
    {A B : Type 0} {w : Writer} {d : ℕ → Decoder A} (next : ℕ → A → Decoder B) {a : A} {b : B}
    → Codes w d a
    → ((n : ℕ) → Decodes (next n a) [] b)
    → Codes w (λ n. d n >>> next n) b
Codes-last {d} next {a} {b} h k = record {
  octets = Codes.octets h;
  written = Codes.written h;
  read = λ fuel enough.
      subst (λ (octets : List ℕ). Decodes (d fuel >>> next fuel) octets b)
        (append-nil (Codes.octets h))
        (Decodes-then (next fuel) (Codes.read h fuel enough) (k fuel));
}

pub Codes-emit :
    {A B : Type 0} {w : Writer} {d : ℕ → Decoder A} {a : A} (f : A → B)
    → Codes w d a
    → Codes w (λ n. d n >>> λ v. return (f v)) (f a)
Codes-emit {a} f h = Codes-last (λ n v. return (f v)) h (λ n. Decodes-return (f a))

-- How the encoders of a sequence are grouped makes no difference.
pub Codes-regroup :
    {A : Type 0} (u v w : Writer) {d : ℕ → Decoder A} {a : A}
    → Codes ((u ▷ v) ▷ w) d a
    → Codes (u ▷ (v ▷ w)) d a
unfolding ◌▷◌
Codes-regroup u v w h = record {
  octets = Codes.octets h;
  written = record {
    appends = λ out. sym (>>=_assoc (u out) v w) ∙ Writes.appends (Codes.written h) out;
  };
  read = Codes.read h;
}

-- Nothing to write, and nothing to read.
pub Codes-nothing : {A : Type 0} (a : A) → Codes ok (λ n. return a) a
Codes-nothing a = record {
  octets = [];
  written = record { appends = λ out. rw (append-nil out) };
  read = λ fuel enough. Decodes-return a;
}
