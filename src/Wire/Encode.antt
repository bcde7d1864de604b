-- ===== src/Wire/Encode.antt =====
-- encode_message of src/transport.rs: put_u32, put_bytes, put_string, encode_value. An encoder passes
-- the buffer that the code extends.
use tcpform_protocol_lab.Base.{
  ℕ, zero, suc, ◌/◌, ◌%◌, List, [], ◌∷◌, ◌++◌, Option, none, some, Bool, true, false, length, ltb,
  Result, err, ok, ◌>>=◌, if◌then◌else◌,
}
use tcpform_protocol_lab.Wire.Values.{
  Text, Value, Values, Fields, Message, WireError, null, bool, number, string, bytes, array, object,
  array_end, value_cons, map_end, field_cons, too_large, sort_by_key,
}

abbrev pub Writer : Type 0
Writer = List ℕ → Result WireError (List ℕ)

infixr 5 ◌▷◌
-- One encoder after another, `first?; second`.
unfoldable pub ◌▷◌ : Writer → Writer → Writer
(first ▷ second) out = first out >>= second

-- `to_be_bytes` of a number of `width` octets.
unfoldable pub be_bytes : ℕ → ℕ → List ℕ
be_bytes zero n = []
be_bytes (suc width) n = be_bytes width (n / 256) ++ ((n % 256) ∷ [])

-- out.extend_from_slice
abbrev pub extend : List ℕ → Writer
extend octets out = ok (out ++ octets)

unfoldable pub put_u32 : ℕ → Writer
put_u32 n out = if ltb n 0x100000000 then extend (be_bytes 4 n) out else err too_large

unfoldable pub put_bytes : List ℕ → Writer
put_bytes value = put_u32 (length value) ▷ extend value

unfoldable pub put_string : Text → Writer
put_string value = put_bytes value

abbrev bool_octet : Bool → ℕ
bool_octet true = 1
bool_octet false = 0

unfoldable pub values_len : Values → ℕ
values_len array_end = 0
values_len (value_cons v rest) = suc (values_len rest)

-- The loop over sorted entries, an entry's value under the encoder that waits to be called.
unfoldable pub put_entries : List (Text × Writer) → Writer
put_entries [] = ok
put_entries ((key, put_value) ∷ rest) = put_string key ▷ put_value ▷ put_entries rest

unfoldable mutual
  pub encode_value : Value → Writer
  encode_value null = extend (0 ∷ [])
  encode_value (bool value) = extend (1 ∷ []) ▷ extend (bool_octet value ∷ [])
  encode_value (number bits) = extend (2 ∷ []) ▷ extend (be_bytes 8 bits)
  encode_value (string value) = extend (3 ∷ []) ▷ put_string value
  encode_value (bytes value) = extend (4 ∷ []) ▷ put_bytes value
  encode_value (array values) = extend (5 ∷ []) ▷ put_u32 (values_len values) ▷ encode_values values
  encode_value (object fields) =
      let entries = sort_by_key (entry_writers fields) in
      extend (6 ∷ []) ▷ put_u32 (length entries) ▷ put_entries entries

  pub encode_values : Values → Writer
  encode_values array_end = ok
  encode_values (value_cons value rest) = encode_value value ▷ encode_values rest

  pub entry_writers : Fields → List (Text × Writer)
  entry_writers map_end = []
  entry_writers (field_cons key value rest) = (key, encode_value value) ∷ entry_writers rest

unfoldable pub put_flags : List Text → Writer
put_flags [] = ok
put_flags (flag ∷ rest) = put_string flag ▷ put_flags rest

unfoldable pub put_stream : Option ℕ → Writer
put_stream (some stream) = extend (1 ∷ []) ▷ extend (be_bytes 8 stream)
put_stream none = extend (0 ∷ [])

-- A number of flags, and the flags; a number of fields, and the fields.
unfoldable pub put_flag_list : List Text → Writer
put_flag_list flags = put_u32 (length flags) ▷ put_flags flags

unfoldable pub put_fields : Fields → Writer
put_fields fields =
    let sorted = sort_by_key (entry_writers fields) in put_u32 (length sorted) ▷ put_entries sorted

unfoldable pub put_message : Message → Writer
put_message message =
    put_string (Message.from message)
    ▷ put_flag_list (Message.flags message)
    ▷ extend (be_bytes 8 (Message.seq message))
    ▷ extend (be_bytes 8 (Message.ack message))
    ▷ put_string (Message.payload message)
    ▷ put_bytes (Message.raw message)
    ▷ extend (be_bytes 8 (Message.window message))
    ▷ put_stream (Message.stream message)
    ▷ put_fields (Message.fields message)

unfoldable pub encode_message : Message → Result WireError (List ℕ)
encode_message message = put_message message []
