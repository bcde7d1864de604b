-- ===== src/Wire/RoundTrip.antt =====
-- decode_message of src/transport.rs reads back what encode_message wrote.
use tcpform_protocol_lab.Base.{
  ℕ, zero, suc, ◌+◌, ◌≤◌, ◌<◌, ◌^◌, ◌≡◌, refl, sym, ap, ◌∙◌, subst, List, [], ◌∷◌, ◌++◌, append-nil,
  Option, none, some, Bool, true, false, length, All, arith, ok, append_assoc, ok-injective, ◌==◌,
}
use tcpform_protocol_lab.Wire.Values.{
  Text, Value, Values, Fields, Message, null, bool, number, string, bytes, array, object, array_end,
  value_cons, map_end, field_cons, push,
}
use tcpform_protocol_lab.Wire.Encode.{
  Writer, ◌▷◌, extend, values_len, encode_value, encode_values, entry_writers, put_flags,
  put_stream, put_flag_list, put_fields, put_message, encode_message,
}
use tcpform_protocol_lab.Wire.Cursor.{
  at, times, flag_list, field_map, optional_stream, bool_value, push_body, flag_body, tagged, value,
  stream_value, message_at, decode_message, is_empty,
}
use tcpform_protocol_lab.Wire.Codes.{
  Writes, Decodes, Codes, Codes-then, Codes-emit, Codes-last, Decodes-return, Codes-nothing,
  Decodes-then, Writes-then,
}
use tcpform_protocol_lab.Wire.Atoms.{
  IsText, Codes-byte, Codes-i64, Codes-u32, Codes-octets, Codes-text, Writes-extend, Decodes-byte,
}
use tcpform_protocol_lab.Wire.Canonical.{
  IsValue, IsValues, IsFields, IsMessage, IsStream, fields_len, canonical, canonical_values,
  entries, received_fields, received,
}
use tcpform_protocol_lab.Wire.Entries.{Agree, counted_entries-Codes}

-- A value under its tag.
Codes-tagged :
    {w : Writer} {v : Value} (tag : ℕ)
    → Codes w (λ n. tagged (value n) tag) v
    → Codes (extend (tag ∷ []) ▷ w) value v
unfolding value
Codes-tagged {v} tag h = record {
  octets = tag ∷ Codes.octets h;
  written = Writes-then (Writes-extend (tag ∷ [])) (Codes.written h);
  read = fuelled;
}
  where
    fuelled :
        (fuel : ℕ)
        → suc (length (Codes.octets h)) ≤ fuel
        → Decodes (value fuel) (tag ∷ Codes.octets h) v
    fuelled zero enough = absurd (omega arith)
    fuelled (suc fuel) enough =
        Decodes-then (tagged (value fuel)) (Decodes-byte tag) (Codes.read h fuel (omega arith))

Codes-null : Codes (extend (0 ∷ [])) value null
unfolding ◌▷◌ tagged
Codes-null = Codes-tagged {w = ok} 0 (Codes-nothing null)

Codes-bool : (b : Bool) → Codes (encode_value (bool b)) value (bool b)
unfolding encode_value tagged
Codes-bool true =
    Codes-tagged {v = bool true} 1
      (Codes-last (λ n. bool_value) (Codes-byte 1) (λ n. Decodes-return (bool true)))
Codes-bool false =
    Codes-tagged {v = bool false} 1
      (Codes-last (λ n. bool_value) (Codes-byte 0) (λ n. Decodes-return (bool false)))

append : Values → Values → Values
append array_end rest = rest
append (value_cons w done) rest = value_cons w (append done rest)

append-push :
    (done : Values) (v : Value) (rest : Values)
    → append (push done v) rest ≡ append done (value_cons v rest)
unfolding push append
append-push array_end v rest = refl
append-push (value_cons w done) v rest = ap (value_cons w) (append-push done v rest)

append_end : (done : Values) → append done array_end ≡ done
unfolding append
append_end array_end = refl
append_end (value_cons w done) = ap (value_cons w) (append_end done)

mutual
  unfolding IsValue encode_value tagged canonical append values_len times Agree received_fields

  value-Codes : (v : Value) → IsValue v → Codes (encode_value v) value (canonical v)
  value-Codes null h = Codes-null
  value-Codes (bool b) h = Codes-bool b
  value-Codes (number bits) h =
      Codes-tagged {v = number bits} 2 (Codes-emit number (Codes-i64 bits h))
  value-Codes (string octets) h =
      Codes-tagged {v = string octets} 3 (Codes-emit string (Codes-text octets h))
  value-Codes (bytes octets) h =
      Codes-tagged {v = bytes octets} 4 (Codes-emit bytes (Codes-octets octets h))
  value-Codes (array values) (fits, h) = Codes-tagged {v = array (canonical_values values)} 5 (
      Codes-emit array (
        Codes-then (λ n count. times (push_body (value n)) count array_end)
          (Codes-u32 (values_len values) fits) (values-Codes values array_end h)))
  value-Codes (object fields) (fits, h) =
      Codes-tagged {v = object (received_fields fields)} 6
        (Codes-emit object (counted_entries-Codes fields fits (fields-Agree fields h)))

  values-Codes :
      (values done : Values)
      → IsValues values
      → Codes
          (encode_values values)
          (λ n. times (push_body (value n)) (values_len values) done)
          (append done (canonical_values values))
  values-Codes array_end done h = rw (append_end done) (Codes-nothing done)
  values-Codes (value_cons v rest) done (h, hs) =
      subst
        (λ (all : Values).
          Codes (encode_values (value_cons v rest))
            (λ n. times (push_body (value n)) (values_len (value_cons v rest)) done) all)
        (append-push done (canonical v) (canonical_values rest))
        (Codes-then (λ n. times (push_body (value n)) (values_len rest))
          (Codes-emit (push done) (value-Codes v h))
          (values-Codes rest (push done (canonical v)) hs))

  fields-Agree : (fields : Fields) → IsFields fields → Agree (entry_writers fields) (entries fields)
  fields-Agree map_end h = tt
  fields-Agree (field_cons key v rest) (t, h, hs) = (t, refl, value-Codes v h, fields-Agree rest hs)

flags-Codes :
    (flags done : List Text)
    → All IsText flags
    → Codes (put_flags flags) (λ n. times flag_body (length flags) done) (done ++ flags)
unfolding put_flags times
flags-Codes [] done h = rw (append-nil done) (Codes-nothing done)
flags-Codes (flag ∷ rest) done (h, hs) =
    subst
      (λ (all : List Text).
        Codes (put_flags (flag ∷ rest)) (λ n. times flag_body (length (flag ∷ rest)) done) all)
      (append_assoc done (flag ∷ []) rest)
      (Codes-then (λ n. times flag_body (length rest))
        (Codes-emit (λ name. done ++ name ∷ []) (Codes-text flag h))
        (flags-Codes rest (done ++ flag ∷ []) hs))

flag_list-Codes :
    (flags : List Text)
    → length flags < 2 ^ 32
    → All IsText flags
    → Codes (put_flag_list flags) (λ n. flag_list) flags
unfolding put_flag_list flag_list
flag_list-Codes flags fits h =
    Codes-then (λ n count. times flag_body count []) (Codes-u32 (length flags) fits)
      (flags-Codes flags [] h)

stream-Codes :
    (stream : Option ℕ) → IsStream stream → Codes (put_stream stream) (λ n. optional_stream) stream
unfolding put_stream stream_value optional_stream
stream-Codes none h = Codes-last (λ n. stream_value) (Codes-byte 0) (λ n. Decodes-return none)
stream-Codes (some stream) h =
    Codes-then (λ n. stream_value) (Codes-byte 1) (Codes-emit some (Codes-i64 stream h))

fields-Codes :
    (fields : Fields)
    → fields_len fields < 2 ^ 32
    → IsFields fields
    → Codes (put_fields fields) field_map (received_fields fields)
unfolding put_fields field_map
fields-Codes fields fits h = counted_entries-Codes fields fits (fields-Agree fields h)

message-Codes : (m : Message) → IsMessage m → Codes (put_message m) message_at (received m)
unfolding put_message message_at received
message-Codes m h = Codes-then _ (Codes-text (Message.from m) (IsMessage.from h)) (
    Codes-then _ (flag_list-Codes (Message.flags m) (IsMessage.flags_len h) (IsMessage.flags h)) (
      Codes-then _ (Codes-i64 (Message.seq m) (IsMessage.seq h)) (
        Codes-then _ (Codes-i64 (Message.ack m) (IsMessage.ack h)) (
          Codes-then _ (Codes-text (Message.payload m) (IsMessage.payload h)) (
            Codes-then _ (Codes-octets (Message.raw m) (IsMessage.raw h)) (
              Codes-then _ (Codes-i64 (Message.window m) (IsMessage.window h)) (
                Codes-then _ (stream-Codes (Message.stream m) (IsMessage.stream h)) (
                  Codes-emit _ (
                    fields-Codes (Message.fields m) (IsMessage.fields_len h)
                      (IsMessage.fields h))))))))))

encoded_octets :
    (m : Message) (c : Codes (put_message m) message_at (received m))
    → encode_message m ≡ ok (Codes.octets c)
unfolding encode_message
encoded_octets m c = Writes.appends (Codes.written c) []

-- Every message whose texts are UTF-8, whose numbers have 64 bits and whose lengths a u32 can count is
-- encoded.
pub encode_message_total :
    (m : Message) → IsMessage m → (octets : List ℕ) × (encode_message m ≡ ok octets)
encode_message_total m h =
    let c : Codes (put_message m) message_at (received m) = message-Codes m h in
    (Codes.octets c, encoded_octets m c)

-- Decoding the octets that encode_message made of such a message, fewer than 2 ^ 64, gives the same
-- message, each map in it built anew from its entries in the order of their keys.
pub decode-encode_message :
    (m : Message) (octets : List ℕ)
    → IsMessage m
    → encode_message m ≡ ok octets
    → length octets < 2 ^ 64
    → decode_message octets ≡ ok (received m)
unfolding decode_message is_empty
decode-encode_message m octets h e small =
    let c : Codes (put_message m) message_at (received m) = message-Codes m h in
    let same : Codes.octets c ≡ octets = ok-injective (sym (encoded_octets m c) ∙ e) in
    let whole : octets ≡ Codes.octets c ++ [] = sym (append-nil (Codes.octets c) ∙ same) in
    let len : length (Codes.octets c) ≡ length octets = ap length same in
    let read : message_at (suc (length octets)) (at octets 0)
        ≡ ok (received m, at octets (0 + length (Codes.octets c))) =
      Decodes.reads (Codes.read c (suc (length octets)) (omega (arith, len))) octets 0 [] small
        (omega (arith, len)) whole in
    let all_read : (0 + length (Codes.octets c) == length octets) ≡ true = ground (arith, len) in
    rw (read, all_read) refl
