-- ===== src/Wire/Canonical.antt =====
-- The messages that fit the live format of src/transport.rs, and what a receiver gets of one: the same
-- message, its maps built anew by inserting their entries in the order of the keys.
use tcpform_protocol_lab.Base.{ℕ, suc, ◌<◌, ◌^◌, List, [], ◌∷◌, Option, none, some, length, All}
use tcpform_protocol_lab.Wire.Values.{
  Text, Value, Values, Fields, Message, null, bool, number, string, bytes, array, object, array_end,
  value_cons, map_end, field_cons, insert, sort_by_key,
}
use tcpform_protocol_lab.Wire.Encode.{values_len}
use tcpform_protocol_lab.Wire.Atoms.{IsText}

abbrev pub fields_len : Fields → ℕ
fields_len map_end = 0
fields_len (field_cons key value rest) = suc (fields_len rest)

-- A value whose texts are texts and whose lengths a u32 can count.
unfoldable mutual
  pub IsValue : Value → Type 0
  IsValue null = Unit
  IsValue (bool value) = Unit
  IsValue (number bits) = bits < 2 ^ 64
  IsValue (string value) = IsText value
  IsValue (bytes value) = length value < 2 ^ 32
  IsValue (array values) = (values_len values < 2 ^ 32) × IsValues values
  IsValue (object fields) = (fields_len fields < 2 ^ 32) × IsFields fields

  pub IsValues : Values → Type 0
  IsValues array_end = Unit
  IsValues (value_cons value rest) = IsValue value × IsValues rest

  pub IsFields : Fields → Type 0
  IsFields map_end = Unit
  IsFields (field_cons key value rest) = IsText key × IsValue value × IsFields rest

abbrev pub IsStream : Option ℕ → Type 0
IsStream none = Unit
IsStream (some stream) = stream < 2 ^ 64

pub record IsMessage (m : Message) : Type 0 where
  pub from : IsText (Message.from m)
  pub flags_len : length (Message.flags m) < 2 ^ 32
  pub flags : All IsText (Message.flags m)
  pub seq : Message.seq m < 2 ^ 64
  pub ack : Message.ack m < 2 ^ 64
  pub payload : IsText (Message.payload m)
  pub raw : length (Message.raw m) < 2 ^ 32
  pub window : Message.window m < 2 ^ 64
  pub stream : IsStream (Message.stream m)
  pub fields_len : fields_len (Message.fields m) < 2 ^ 32
  pub fields : IsFields (Message.fields m)

-- The map that inserting the entries, one after another, makes of another.
unfoldable pub insert_all : Fields → List (Text × Value) → Fields
insert_all fields [] = fields
insert_all fields ((key, value) ∷ rest) = insert_all (insert key value fields) rest

unfoldable mutual
  pub canonical : Value → Value
  canonical null = null
  canonical (bool value) = bool value
  canonical (number bits) = number bits
  canonical (string value) = string value
  canonical (bytes value) = bytes value
  canonical (array values) = array (canonical_values values)
  canonical (object fields) = object (insert_all map_end (sort_by_key (entries fields)))

  pub canonical_values : Values → Values
  canonical_values array_end = array_end
  canonical_values (value_cons value rest) = value_cons (canonical value) (canonical_values rest)

  -- The entries of a map, what they hold received.
  pub entries : Fields → List (Text × Value)
  entries map_end = []
  entries (field_cons key value rest) = (key, canonical value) ∷ entries rest

unfoldable pub received_fields : Fields → Fields
received_fields fields = insert_all map_end (sort_by_key (entries fields))

unfoldable pub received : Message → Message
received m = record m { fields = received_fields (Message.fields m) }
