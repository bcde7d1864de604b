-- ===== src/Wire/Values.antt =====
-- The messages of src/primitives.rs, the values of src/value.rs, and the texts and maps in them. A
-- text is its octets, a floating-point number and an i64 are their 64 bits, and a HashMap is a list of
-- entries in the order of its iteration.
use tcpform_protocol_lab.Base.{
  ℕ, Bool, true, false, ◌&&◌, ◌||◌, List, [], ◌∷◌, Option, none, some, leb, ltb, ◌==◌,
  if◌then◌else◌,
}

-- A String's octets.
abbrev pub Text : Type 0
Text = List ℕ

mutual
  pub data Value : Type 0 where
    null : Value
    bool : Bool → Value
    number : ℕ → Value
    string : Text → Value
    bytes : List ℕ → Value
    array : Values → Value
    object : Fields → Value

  pub data Values : Type 0 where
    array_end : Values
    value_cons : Value → Values → Values

  pub data Fields : Type 0 where
    map_end : Fields
    field_cons : Text → Value → Fields → Fields

pub record Message : Type 0 where
  pub from : Text
  pub flags : List Text
  pub seq : ℕ
  pub ack : ℕ
  pub payload : Text
  pub raw : List ℕ
  pub window : ℕ
  pub stream : Option ℕ
  pub fields : Fields

-- The reasons that transport.rs writes out, and `out_of_fuel` for a decoder that has not ended.
pub data WireError : Type 0 where
  too_large : WireError
  length_overflow : WireError
  truncated : WireError
  invalid_utf8 : WireError
  invalid_bool_tag : ℕ → WireError
  invalid_value_tag : ℕ → WireError
  invalid_stream_tag : ℕ → WireError
  trailing_bytes : WireError
  out_of_fuel : WireError

-- Vec::push
unfoldable pub push : Values → Value → Values
push array_end v = value_cons v array_end
push (value_cons w rest) v = value_cons w (push rest v)

-- `==` on texts.
unfoldable pub text_eq : Text → Text → Bool
text_eq [] [] = true
text_eq [] (b ∷ ys) = false
text_eq (a ∷ xs) [] = false
text_eq (a ∷ xs) (b ∷ ys) = (a == b) && text_eq xs ys

-- `<` on texts, octet by octet.
unfoldable pub text_lt : Text → Text → Bool
text_lt [] [] = false
text_lt [] (b ∷ ys) = true
text_lt (a ∷ xs) [] = false
text_lt (a ∷ xs) (b ∷ ys) = ltb a b || ((a == b) && text_lt xs ys)

-- HashMap::insert
unfoldable pub insert : Text → Value → Fields → Fields
insert key v map_end = field_cons key v map_end
insert key v (field_cons k w rest) =
    let later = insert key v rest in
    if text_eq k key then field_cons k v rest else field_cons k w later

-- HashMap::get
unfoldable pub get : Text → Fields → Option Value
get key map_end = none
get key (field_cons k v rest) = if text_eq k key then some v else get key rest

module _ {ℓ} {A : Type ℓ} where
  -- sort_by_key, which is stable.
  unfoldable pub place : Text → A → List (Text × A) → List (Text × A)
  place key a [] = (key, a) ∷ []
  place key a ((k, b) ∷ rest) =
      if text_lt k key then (k, b) ∷ place key a rest else (key, a) ∷ (k, b) ∷ rest

  unfoldable pub sort_by_key : List (Text × A) → List (Text × A)
  sort_by_key [] = []
  sort_by_key ((key, a) ∷ rest) = place key a (sort_by_key rest)

-- The octets that may follow in an UTF-8 sequence after its first one, as ranges.
unfoldable pub utf8_tail : ℕ → Option (List (ℕ × ℕ))
utf8_tail b =
    if ltb b 0x80
    then some []
    else if ltb b 0xC2
    then none
    else if ltb b 0xE0
    then some ((0x80, 0xBF) ∷ [])
    else if b == 0xE0
    then some ((0xA0, 0xBF) ∷ (0x80, 0xBF) ∷ [])
    else if b == 0xED
    then some ((0x80, 0x9F) ∷ (0x80, 0xBF) ∷ [])
    else if ltb b 0xF0
    then some ((0x80, 0xBF) ∷ (0x80, 0xBF) ∷ [])
    else if b == 0xF0
    then some ((0x90, 0xBF) ∷ (0x80, 0xBF) ∷ (0x80, 0xBF) ∷ [])
    else if ltb b 0xF4
    then some ((0x80, 0xBF) ∷ (0x80, 0xBF) ∷ (0x80, 0xBF) ∷ [])
    else if b == 0xF4
    then some ((0x80, 0x8F) ∷ (0x80, 0xBF) ∷ (0x80, 0xBF) ∷ [])
    else none

unfoldable pub utf8_from : List (ℕ × ℕ) → List ℕ → Bool
utf8_from [] [] = true
utf8_from ((low, high) ∷ ranges) [] = false
utf8_from [] (b ∷ ys) = elim (utf8_tail b) [ none ↦ false | some ranges ↦ utf8_from ranges ys ]
utf8_from ((low, high) ∷ ranges) (b ∷ ys) = leb low b && (leb b high && utf8_from ranges ys)

-- String::from_utf8
unfoldable pub is_utf8 : List ℕ → Bool
is_utf8 octets = utf8_from [] octets
