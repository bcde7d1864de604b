-- ===== src/Wire/Lookup.antt =====
-- A received map of src/transport.rs answers every key as the map that was sent.
use mathlib.Core.Option
use tcpform_protocol_lab.Base.{
  ◌≡◌, refl, sym, ◌∙◌, List, [], ◌∷◌, Option, none, some, Bool, true, false, Bool-cases, inl, inr,
  if◌then◌else◌, ℕ, length, ◌<◌, ◌^◌, ok,
}
use tcpform_protocol_lab.Wire.Values.{
  Text, Value, Fields, Message, map_end, field_cons, insert, get, place, sort_by_key, text_lt,
  text_eq,
}
use tcpform_protocol_lab.Wire.Texts.{text_eq_refl, text_eq→≡, text_lt_apart, text_eq_apart}
use tcpform_protocol_lab.Wire.Encode.{encode_message}
use tcpform_protocol_lab.Wire.Cursor.{decode_message}
use tcpform_protocol_lab.Wire.Canonical.{
  IsMessage, insert_all, canonical, entries, received, received_fields,
}
use tcpform_protocol_lab.Wire.RoundTrip.{decode-encode_message}

-- The first entry under a key.
unfoldable find : {A : Type 0} → Text → List (Text × A) → Option A
find key [] = none
find key ((k, a) ∷ rest) = if text_eq k key then some a else find key rest

unfoldable first_of : {A : Type 0} → Option A → Option A → Option A
first_of none later = later
first_of (some a) later = some a

-- No two entries have the same key.
unfoldable pub IsDistinct : Fields → Type 0
IsDistinct map_end = Unit
IsDistinct (field_cons key v rest) = (get key rest ≡ none) × IsDistinct rest

unfoldable Apart : {A : Type 0} → List (Text × A) → Type 0
Apart [] = Unit
Apart ((key, a) ∷ rest) = (find key rest ≡ none) × Apart rest

find-place :
    {A : Type 0} (name key : Text) (a : A) (xs : List (Text × A))
    → find name (place key a xs) ≡ (if text_eq key name then some a else find name xs)
unfolding find place
find-place name key a [] = refl
find-place name key a ((k, b) ∷ xs) = elim (Bool-cases (text_lt k key)) [
  | inr not_less ↦ rw not_less refl
  | inl less ↦
      rw (less, find-place name key a xs)
        (elim (Bool-cases (text_eq k name)) [
          | inr ne ↦ rw ne refl
          | inl e ↦ rw (e, text_lt_apart k key name less e) refl
        ])
]

find-sort_by_key :
    {A : Type 0} (name : Text) (xs : List (Text × A)) → find name (sort_by_key xs) ≡ find name xs
unfolding find sort_by_key
find-sort_by_key name [] = refl
find-sort_by_key name ((key, a) ∷ xs) =
    rw (find-place name key a (sort_by_key xs), find-sort_by_key name xs) refl

place-Apart :
    {A : Type 0} (key : Text) (a : A) (xs : List (Text × A))
    → find key xs ≡ none
    → Apart xs
    → Apart (place key a xs)
unfolding find place Apart
place-Apart key a [] new h = (refl, tt)
place-Apart key a ((k, b) ∷ xs) new (fresh, h) = elim (Bool-cases (text_lt k key)) [
  | inr not_less ↦ rw not_less (new, (fresh, h))
  | inl less ↦ rw less (
    rw (find-place k key a xs, text_lt_apart k key k less (text_eq_refl k)) fresh,
    place-Apart key a xs (later_of (text_eq k key) b (find key xs) new) h,
  )
]
  where
    later_of :
        {A : Type 0} (b : Bool) (a : A) (o : Option A) → (if b then some a else o) ≡ none → o ≡ none
    later_of true a o h = cc
    later_of false a o h = h

sort_by_key-Apart : {A : Type 0} (xs : List (Text × A)) → Apart xs → Apart (sort_by_key xs)
unfolding sort_by_key Apart
sort_by_key-Apart [] h = tt
sort_by_key-Apart ((key, a) ∷ xs) (new, h) =
    place-Apart key a (sort_by_key xs) (find-sort_by_key key xs ∙ new) (sort_by_key-Apart xs h)

get-insert :
    (name key : Text) (v : Value) (fields : Fields)
    → get name (insert key v fields) ≡ (if text_eq key name then some v else get name fields)
unfolding get insert
get-insert name key v map_end = refl
get-insert name key v (field_cons k w rest) = elim (Bool-cases (text_eq k key)) [
  | inl e ↦
      rw (e, text_eq→≡ k key e)
        (elim (Bool-cases (text_eq key name)) [ inl f ↦ rw f refl | inr f ↦ rw f refl ])
  | inr ne ↦
      rw (ne, get-insert name key v rest)
        (elim (Bool-cases (text_eq k name)) [
          | inl e ↦ rw (e, text_eq_apart k key name ne e) refl
          | inr f ↦ rw f refl
        ])
]

get-insert_all :
    (name : Text) (es : List (Text × Value)) (fields : Fields)
    → Apart es
    → get name (insert_all fields es) ≡ first_of (find name es) (get name fields)
unfolding insert_all Apart find first_of
get-insert_all name [] fields h = refl
get-insert_all name ((key, v) ∷ es) fields (new, h) =
    rw (get-insert_all name es (insert key v fields) h, get-insert name key v fields)
      (elim (Bool-cases (text_eq key name)) [
        | inl e ↦
            let absent : find name es ≡ none = rw (sym (text_eq→≡ key name e)) new in
            rw (e, absent) refl
        | inr ne ↦ rw ne refl
      ])

find-entries :
    (name : Text) (fields : Fields)
    → find name (entries fields) ≡ Option.map canonical (get name fields)
unfolding find entries get
find-entries name map_end = refl
find-entries name (field_cons key v rest) = elim (Bool-cases (text_eq key name)) [
  | inl e ↦ rw e refl
  | inr ne ↦ rw ne (find-entries name rest)
]

entries-Apart : (fields : Fields) → IsDistinct fields → Apart (entries fields)
unfolding Apart IsDistinct entries
entries-Apart map_end h = tt
entries-Apart (field_cons key v rest) (new, h) =
    (rw (find-entries key rest, new) refl, entries-Apart rest h)

get-received_fields :
    (name : Text) (fields : Fields)
    → IsDistinct fields
    → get name (received_fields fields) ≡ Option.map canonical (get name fields)
unfolding received_fields get first_of
get-received_fields name fields h =
    get-insert_all name (sort_by_key (entries fields)) map_end
      (sort_by_key-Apart (entries fields) (entries-Apart fields h))
    ∙ (first_of_none (find name (sort_by_key (entries fields)))
        ∙ (find-sort_by_key name (entries fields) ∙ find-entries name fields))
  where
    first_of_none : {A : Type 0} (o : Option A) → first_of o none ≡ o
    first_of_none none = refl
    first_of_none (some a) = refl

-- An encoded message that decodes, its fields with keys that differ from one another: the message
-- that the decoder returns has under each key the value that was sent, with the maps inside it in the
-- order of their keys, and nothing under a key that was not sent.
pub get-decode_message :
    (message : Message) (payload : List ℕ)
    → IsMessage message
    → IsDistinct (Message.fields message)
    → encode_message message ≡ ok payload
    → length payload < 2 ^ 64
    → (back : Message) × (decode_message payload ≡ ok back)
      × ((name : Text)
          → get name (Message.fields back)
            ≡ Option.map canonical (get name (Message.fields message)))
unfolding received
get-decode_message message payload h distinct e short = (
  received message,
  decode-encode_message message payload h e short,
  λ name. get-received_fields name (Message.fields message) distinct,
)
