-- ===== src/Wire/Cursor.antt =====
-- decode_message of src/transport.rs and its Cursor. A decoder passes the cursor that the code moves.
use tcpform_protocol_lab.Base.{
  ℕ, zero, suc, ◌+◌, ◌*◌, ◌^◌, List, [], ◌∷◌, ◌++◌, Option, none, some, Bool, true, false, length,
  take, drop, get_or, leb, ◌==◌, Result, err, ok, ◌>>=◌, if◌then◌else◌,
}
use tcpform_protocol_lab.Wire.Values.{
  Text, Value, Values, Fields, Message, WireError, null, bool, number, string, bytes, array, object,
  array_end, map_end, length_overflow, truncated, invalid_utf8, invalid_bool_tag, invalid_value_tag,
  invalid_stream_tag, trailing_bytes, out_of_fuel, push, insert, is_utf8,
}

pub record Cursor : Type 0 where
  pub bytes : List ℕ
  pub position : ℕ

abbrev pub Decoder : Type 0 → Type 0
Decoder A = Cursor → Result WireError (A × Cursor)

infixl 5 ◌>>>◌
-- `let value = first?; next`
unfoldable pub ◌>>>◌ : {A B : Type 0} → Decoder A → (A → Decoder B) → Decoder B
(first >>> next) cursor = first cursor >>= λ read. next read.0 read.1

unfoldable pub return : {A : Type 0} → A → Decoder A
return value cursor = ok (value, cursor)

abbrev pub fail : {A : Type 0} → WireError → Decoder A
fail reason cursor = err reason

abbrev pub at : List ℕ → ℕ → Cursor
at whole position = record { bytes = whole; position = position }

-- Cursor::take, where `usize` has 64 bits.
unfoldable pub take_octets : ℕ → Decoder (List ℕ)
take_octets size cursor =
    let whole = Cursor.bytes cursor in
    let start = Cursor.position cursor in
    if leb (2 ^ 64) (start + size)
    then err length_overflow
    else if leb (start + size) (length whole)
    then ok (take size (drop start whole), at whole (start + size))
    else err truncated

unfoldable pub byte : Decoder ℕ
byte = take_octets 1 >>> λ octets. return (get_or octets 0 0)

-- `from_be_bytes`
unfoldable pub be_number : ℕ → List ℕ → ℕ
be_number high [] = high
be_number high (b ∷ bs) = be_number (high * 256 + b) bs

unfoldable pub u32 : Decoder ℕ
u32 = take_octets 4 >>> λ octets. return (be_number 0 octets)

unfoldable pub i64 : Decoder ℕ
i64 = take_octets 8 >>> λ octets. return (be_number 0 octets)

unfoldable pub octets_of_length : Decoder (List ℕ)
octets_of_length = u32 >>> take_octets

unfoldable pub text : Decoder Text
text = octets_of_length >>> λ octets. if is_utf8 octets then return octets else fail invalid_utf8

-- `for _ in 0..count`, on what the loop has collected.
unfoldable pub times : {S : Type 0} → (S → Decoder S) → ℕ → S → Decoder S
times body zero state = return state
times body (suc count) state = body state >>> times body count

abbrev pub bool_value : ℕ → Decoder Value
bool_value tag =
    if tag == 0
    then return (bool false)
    else if tag == 1
    then return (bool true)
    else fail (invalid_bool_tag tag)

-- values.push(self.value()?)
abbrev pub push_body : Decoder Value → Values → Decoder Values
push_body decode_item values = decode_item >>> λ value. return (push values value)

-- values.insert(self.string()?, self.value()?)
abbrev pub insert_body : Decoder Value → Fields → Decoder Fields
insert_body decode_item fields =
    text >>> λ key. decode_item >>> λ value. return (insert key value fields)

-- `Ok(wrap(first?))`
abbrev pub emit : {A B : Type 0} → (A → B) → Decoder A → Decoder B
emit wrap first = first >>> λ value. return (wrap value)

-- A number of items, and the loop over them; the room that `with_capacity` reserves is not modelled.
abbrev pub counted : {S : Type 0} → (S → Decoder S) → S → Decoder S
counted body start = u32 >>> λ count. times body count start

-- Cursor::value by the tag that it reads first; `nested` decodes the values inside.
unfoldable pub tagged : Decoder Value → ℕ → Decoder Value
tagged nested tag =
    if tag == 0
    then return null
    else if tag == 1
    then byte >>> bool_value
    else if tag == 2
    then emit number i64
    else if tag == 3
    then emit string text
    else if tag == 4
    then emit bytes octets_of_length
    else if tag == 5
    then emit array (counted (push_body nested) array_end)
    else if tag == 6
    then emit object (counted (insert_body nested) map_end)
    else fail (invalid_value_tag tag)

-- Cursor::value, which may go `fuel` values deep.
unfoldable pub value : ℕ → Decoder Value
value zero = fail out_of_fuel
value (suc fuel) = byte >>> tagged (value fuel)

unfoldable pub stream_value : ℕ → Decoder (Option ℕ)
stream_value tag =
    if tag == 0
    then return none
    else if tag == 1
    then emit some i64
    else fail (invalid_stream_tag tag)

-- match cursor.byte()?
unfoldable pub optional_stream : Decoder (Option ℕ)
optional_stream = byte >>> stream_value

-- flags.push(cursor.string()?)
abbrev pub flag_body : List Text → Decoder (List Text)
flag_body flags = text >>> λ flag. return (flags ++ flag ∷ [])

unfoldable pub flag_list : Decoder (List Text)
flag_list = counted flag_body []

unfoldable pub field_map : ℕ → Decoder Fields
field_map fuel = counted (insert_body (value fuel)) map_end

unfoldable pub is_empty : Cursor → Bool
is_empty cursor = Cursor.position cursor == length (Cursor.bytes cursor)

-- The message, with what the cursor has not read.
unfoldable pub message_at : ℕ → Decoder Message
message_at fuel = text >>> λ from. flag_list >>> λ flags. i64 >>> λ seq. i64 >>> λ ack.
    text >>> λ payload. octets_of_length >>> λ raw. i64 >>> λ window. optional_stream >>> λ stream.
    field_map fuel >>> λ fields. return (record {
      from = from;
      flags = flags;
      seq = seq;
      ack = ack;
      payload = payload;
      raw = raw;
      window = window;
      stream = stream;
      fields = fields;
    })

-- A value is one octet at least, so a message is not deeper than it is long.
unfoldable pub decode_message : List ℕ → Result WireError Message
decode_message payload = message_at (suc (length payload)) (at payload 0) >>= λ read.
    if is_empty read.1 then ok read.0 else err trailing_bytes
