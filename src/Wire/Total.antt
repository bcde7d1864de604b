-- ===== src/Wire/Total.antt =====
-- The cursor of src/transport.rs: it stays inside the buffer, and its recursion is bounded by the
-- buffer.
use tcpform_protocol_lab.Base.{ℕ, zero, suc, ◌≤◌, ◌<◌, ◌≡◌, refl, List, length, ◌==◌, arith, ok}
use tcpform_protocol_lab.Wire.Values.{
  Value, map_end, array_end, push, null, number, string, bytes, array, object, invalid_value_tag,
}
use tcpform_protocol_lab.Wire.Cursor.{Cursor, Decoder, at, push_body, insert_body, tagged, value}
use tcpform_protocol_lab.Wire.Bounded.{
  IsBounded, return-IsBounded, fail-IsBounded, then-IsBounded, nearer, step-IsBounded,
  emit-IsBounded, byte-IsBounded, i64-IsBounded, octets-IsBounded, if-IsBounded, text-IsBounded,
  bool_value-IsBounded, counted-IsBounded, insert_body-IsBounded,
}

tagged-IsBounded :
    (d : Decoder Value) (fuel : ℕ)
    → IsBounded fuel 0 d
    → (tag : ℕ) → IsBounded fuel 0 (tagged d tag)
unfolding tagged
tagged-IsBounded d fuel h tag = if-IsBounded (tag == 0) (return-IsBounded fuel null) (
    if-IsBounded (tag == 1)
      (step-IsBounded fuel 0 (nearer fuel 0 1 (omega arith) (byte-IsBounded fuel))
        (bool_value-IsBounded fuel))
      (if-IsBounded (tag == 2) (emit-IsBounded number fuel 0 (i64-IsBounded fuel)) (
        if-IsBounded (tag == 3) (emit-IsBounded string fuel 0 (text-IsBounded fuel)) (
          if-IsBounded (tag == 4)
            (emit-IsBounded bytes fuel 0 (nearer fuel 0 4 (omega arith) (octets-IsBounded fuel)))
            (if-IsBounded (tag == 5)
              (emit-IsBounded array fuel 0 (
                counted-IsBounded (push_body d) fuel array_end
                  (λ values. emit-IsBounded (push values) fuel 0 h)))
              (if-IsBounded (tag == 6)
                (emit-IsBounded object fuel 0
                  (counted-IsBounded (insert_body d) fuel map_end (insert_body-IsBounded d fuel h)))
                (fail-IsBounded fuel 0 (invalid_value_tag tag) (λ p. cc))))))))

value-IsBounded : (fuel : ℕ) → IsBounded fuel 1 (value fuel)
unfolding value
value-IsBounded zero = record {
  ends = λ whole p le_len few. absurd (omega arith);
  inside = λ whole p a cursor le_len e. absurd (cc);
}
value-IsBounded (suc fuel) =
    then-IsBounded (suc fuel) fuel 1 0 (byte-IsBounded (suc fuel))
      (tagged-IsBounded (value fuel) fuel (nearer fuel 0 1 (omega arith) (value-IsBounded fuel)))
      (omega arith)

-- A value that is decoded from inside a buffer takes one octet at least, and the cursor that it
-- leaves stands in the same buffer, at its end at most.
pub value-inside :
    (fuel : ℕ) (whole : List ℕ) (p : ℕ) (v : Value) (cursor : Cursor)
    → p ≤ length whole
    → value fuel (at whole p) ≡ ok (v, cursor)
    → (Cursor.bytes cursor ≡ whole)
      × (p < Cursor.position cursor)
      × (Cursor.position cursor ≤ length whole)
value-inside fuel whole p v cursor le_len e =
    let (q, here, far, low) = IsBounded.inside (value-IsBounded fuel) whole p v cursor le_len e in
    rw here (refl, omega arith, low)
