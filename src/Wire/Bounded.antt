-- ===== src/Wire/Bounded.antt =====
-- What a decoder of src/transport.rs leaves: a cursor inside the buffer, further on.
use tcpform_protocol_lab.Base.{
  ℕ, zero, suc, ◌+◌, ◌≤◌, ◌<◌, ◌^◌, ◌≡◌, ◌≢◌, sym, List, Bool, true, false, Bool-cases, inl, inr,
  length, get_or, leb, leb→le, ◌==◌, arith, err, ok, >>=-eq-ok, >>=-ne-err_after, if◌then◌else◌,
}
use tcpform_protocol_lab.Wire.Values.{
  Value, Fields, WireError, out_of_fuel, invalid_utf8, is_utf8, insert, bool, invalid_bool_tag,
}
use tcpform_protocol_lab.Wire.Cursor.{
  Cursor, Decoder, ◌>>>◌, return, fail, emit, at, take_octets, byte, be_number, u32, i64,
  octets_of_length, text, times, counted, bool_value, insert_body,
}

-- The decoder ends inside the buffer, `least` octets further at least, and is not out of fuel where
-- fewer octets than `fuel` remain.
pub record IsBounded {A : Type 0} (fuel least : ℕ) (d : Decoder A) : Type 0 where
  pub ends :
      (whole : List ℕ) (p : ℕ)
      → p ≤ length whole
      → length whole < p + fuel
      → d (at whole p) ≢ err out_of_fuel
  pub inside :
      (whole : List ℕ) (p : ℕ) (a : A) (cursor : Cursor)
      → p ≤ length whole
      → d (at whole p) ≡ ok (a, cursor)
      → (q : ℕ) × (cursor ≡ at whole q) × (p + least ≤ q) × (q ≤ length whole)

pub return-IsBounded : {A : Type 0} (fuel : ℕ) (a : A) → IsBounded fuel 0 (return a)
unfolding return
return-IsBounded fuel a = record {
  ends = λ whole p h k e. cc;
  inside = λ whole p b cursor h e. (p, cc, omega arith, h);
}

pub fail-IsBounded :
    {A : Type 0} (fuel least : ℕ) (reason : WireError)
    → reason ≢ out_of_fuel
    → IsBounded {A = A} fuel least (fail reason)
fail-IsBounded fuel least reason ne = record {
  ends = λ whole p h k e. ne (cc);
  inside = λ whole p b cursor h e. absurd (cc);
}

pub then-IsBounded :
    {A B : Type 0} {d : Decoder A} {next : A → Decoder B} (fuel less m n : ℕ)
    → IsBounded fuel m d
    → ((a : A) → IsBounded less n (next a))
    → fuel ≤ m + less
    → IsBounded fuel (m + n) (d >>> next)
unfolding ◌>>>◌
then-IsBounded {A} {d} {next} fuel less m n h k enough = record {
  ends = λ whole p le_len few.
      >>=-ne-err_after (d (at whole p)) (λ read. next read.0 read.1) out_of_fuel
        (IsBounded.ends h whole p le_len few) (λ read e. second whole p read.0 read.1 le_len few e);
  inside = λ whole p b cursor le_len e.
      let (read, first, last) = >>=-eq-ok (d (at whole p)) (λ read. next read.0 read.1) e in
      let (q, here, far, low) = IsBounded.inside h whole p read.0 read.1 le_len first in
      let (r, end, farther, lower) =
        IsBounded.inside (k read.0) whole q b cursor low (rw (sym here) last) in
      (r, end, omega arith, lower);
}
  where
    second :
        (whole : List ℕ) (p : ℕ) (a : A) (cursor : Cursor)
        → p ≤ length whole
        → length whole < p + fuel
        → d (at whole p) ≡ ok (a, cursor)
        → next a cursor ≢ err out_of_fuel
    second whole p a cursor le_len few e =
        let (q, here, far, low) = IsBounded.inside h whole p a cursor le_len e in
        rw here (IsBounded.ends (k a) whole q low (omega arith))

pub less_fuel :
    {A : Type 0} {d : Decoder A} (fuel more least : ℕ)
    → fuel ≤ more
    → IsBounded more least d
    → IsBounded fuel least d
less_fuel fuel more least le h = record {
  ends = λ whole p le_len few. IsBounded.ends h whole p le_len (omega arith);
  inside = IsBounded.inside h;
}

-- A shorter distance is reached too.
pub nearer :
    {A : Type 0} {d : Decoder A} (fuel near far : ℕ)
    → near ≤ far
    → IsBounded fuel far d
    → IsBounded fuel near d
nearer fuel near far le h = record {
  ends = IsBounded.ends h;
  inside = λ whole p a cursor le_len e.
      let (q, here, long, low) = IsBounded.inside h whole p a cursor le_len e in
      (q, here, omega arith, low);
}

pub take_octets-IsBounded : (fuel n : ℕ) → IsBounded fuel n (take_octets n)
unfolding take_octets
take_octets-IsBounded fuel n = record {
  ends = λ whole p le_len few. elim (Bool-cases (leb (2 ^ 64) (p + n))) [
    | inl e ↦ rw e (λ no. cc)
    | inr e ↦ elim (Bool-cases (leb (p + n) (length whole))) [
      | inl f ↦ rw (e, f) (λ no. cc)
      | inr f ↦ rw (e, f) (λ no. cc)
    ]
  ];
  inside = λ whole p a cursor le_len h. elim (Bool-cases (leb (2 ^ 64) (p + n))) [
    | inl e ↦ absurd (cc (rw e at h))
    | inr e ↦ elim (Bool-cases (leb (p + n) (length whole))) [
      | inl f ↦ (p + n, cc (rw (e, f) at h), omega arith, leb→le (p + n) (length whole) f)
      | inr f ↦ absurd (cc (rw (e, f) at h))
    ]
  ];
}

-- A first part that moves by `m` octets, then a second part under the same fuel.
pub step-IsBounded :
    {A B : Type 0} {d : Decoder A} {next : A → Decoder B} (fuel m : ℕ)
    → IsBounded fuel m d
    → ((a : A) → IsBounded fuel 0 (next a))
    → IsBounded fuel m (d >>> next)
step-IsBounded fuel m h k =
    nearer fuel m (m + 0) (omega arith) (then-IsBounded fuel fuel m 0 h k (omega arith))

pub emit-IsBounded :
    {A B : Type 0} {d : Decoder A} (f : A → B) (fuel m : ℕ)
    → IsBounded fuel m d
    → IsBounded fuel m (emit f d)
emit-IsBounded f fuel m h = step-IsBounded fuel m h (λ a. return-IsBounded fuel (f a))

pub byte-IsBounded : (fuel : ℕ) → IsBounded fuel 1 byte
unfolding byte
byte-IsBounded fuel =
    emit-IsBounded (λ octets. get_or octets 0 0) fuel 1 (take_octets-IsBounded fuel 1)

pub u32-IsBounded : (fuel : ℕ) → IsBounded fuel 4 u32
unfolding u32
u32-IsBounded fuel = emit-IsBounded (be_number 0) fuel 4 (take_octets-IsBounded fuel 4)

pub i64-IsBounded : (fuel : ℕ) → IsBounded fuel 0 i64
unfolding i64
i64-IsBounded fuel =
    nearer fuel 0 8 (omega arith)
      (emit-IsBounded (be_number 0) fuel 8 (take_octets-IsBounded fuel 8))

pub octets-IsBounded : (fuel : ℕ) → IsBounded fuel 4 octets_of_length
unfolding octets_of_length
octets-IsBounded fuel =
    step-IsBounded fuel 4 (u32-IsBounded fuel)
      (λ n. nearer fuel 0 n (omega arith) (take_octets-IsBounded fuel n))

pub if-IsBounded :
    {A : Type 0} {d other : Decoder A} {fuel least : ℕ} (test : Bool)
    → IsBounded fuel least d
    → IsBounded fuel least other
    → IsBounded fuel least (if test then d else other)
if-IsBounded true h k = h
if-IsBounded false h k = k

pub text-IsBounded : (fuel : ℕ) → IsBounded fuel 0 text
unfolding text
text-IsBounded fuel =
    step-IsBounded fuel 0 (nearer fuel 0 4 (omega arith) (octets-IsBounded fuel)) (λ octets.
      if-IsBounded (is_utf8 octets) (return-IsBounded fuel octets)
        (fail-IsBounded fuel 0 invalid_utf8 (λ p. cc)))

pub bool_value-IsBounded : (fuel tag : ℕ) → IsBounded fuel 0 (bool_value tag)
bool_value-IsBounded fuel tag = if-IsBounded (tag == 0) (return-IsBounded fuel (bool false)) (
    if-IsBounded (tag == 1) (return-IsBounded fuel (bool true))
      (fail-IsBounded fuel 0 (invalid_bool_tag tag) (λ p. cc)))

pub times-IsBounded :
    {S : Type 0} (body : S → Decoder S) (fuel : ℕ)
    → ((state : S) → IsBounded fuel 0 (body state))
    → (n : ℕ) (state : S) → IsBounded fuel 0 (times body n state)
unfolding times
times-IsBounded body fuel h zero state = return-IsBounded fuel state
times-IsBounded body fuel h (suc n) state =
    step-IsBounded fuel 0 (h state) (times-IsBounded body fuel h n)

pub counted-IsBounded :
    {S : Type 0} (body : S → Decoder S) (fuel : ℕ) (start : S)
    → ((state : S) → IsBounded fuel 0 (body state))
    → IsBounded fuel 0 (counted body start)
counted-IsBounded body fuel start h =
    step-IsBounded fuel 0 (nearer fuel 0 4 (omega arith) (u32-IsBounded fuel))
      (λ count. times-IsBounded body fuel h count start)

pub insert_body-IsBounded :
    (d : Decoder Value) (fuel : ℕ)
    → IsBounded fuel 0 d
    → (fields : Fields) → IsBounded fuel 0 (insert_body d fields)
insert_body-IsBounded d fuel h fields =
    step-IsBounded fuel 0 (text-IsBounded fuel)
      (λ key. emit-IsBounded (λ v. insert key v fields) fuel 0 h)
