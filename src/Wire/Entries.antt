-- ===== src/Wire/Entries.antt =====
-- The entries of a map in the live format: sorted by key, written, read back and inserted.
use tcpform_protocol_lab.Base.{
  suc, ◌<◌, ◌^◌, ◌≡◌, refl, ap, ◌∙◌, subst, List, [], ◌∷◌, Bool-cases, inl, inr, length, arith,
}
use tcpform_protocol_lab.Wire.Values.{
  Text, Value, Fields, map_end, field_cons, insert, sort_by_key, place, text_lt,
}
use tcpform_protocol_lab.Wire.Encode.{Writer, ◌▷◌, put_u32, put_string, put_entries, entry_writers}
use tcpform_protocol_lab.Wire.Cursor.{◌>>>◌, return, times, counted, insert_body, value}
use tcpform_protocol_lab.Wire.Codes.{Codes, Codes-then, Codes-emit, Codes-regroup, Codes-nothing}
use tcpform_protocol_lab.Wire.Atoms.{IsText, Codes-u32, Codes-text}
use tcpform_protocol_lab.Wire.Canonical.{fields_len, insert_all, entries, received_fields}

-- The encoders of the entries, and what their receiver gets, key by key.
unfoldable pub Agree : List (Text × Writer) → List (Text × Value) → Type 0
Agree [] [] = Unit
Agree [] (e ∷ es) = ⊥
Agree (w ∷ ws) [] = ⊥
Agree ((key, w) ∷ ws) ((k, v) ∷ es) = IsText key × (key ≡ k) × Codes w value v × Agree ws es

place-Agree :
    (key : Text) (w : Writer) (v : Value) (ws : List (Text × Writer)) (es : List (Text × Value))
    → IsText key
    → Codes w value v
    → Agree ws es
    → Agree (place key w ws) (place key v es)
unfolding place Agree
place-Agree key w v [] [] t c h = (t, refl, c, tt)
place-Agree key w v [] (e ∷ es) t c h = absurd h
place-Agree key w v (x ∷ ws) [] t c h = absurd h
place-Agree key w v ((k, x) ∷ ws) ((k', y) ∷ es) t c (t', e, c', h) =
    subst (λ (name : Text). Agree (place key w ((k, x) ∷ ws)) (place key v ((name, y) ∷ es))) e
      (elim (Bool-cases (text_lt k key)) [
        | inl less ↦ rw less (t', refl, c', place-Agree key w v ws es t c h)
        | inr not_less ↦ rw not_less (t, refl, c, (t', refl, c', h))
      ])

pub sort-Agree :
    (ws : List (Text × Writer)) (es : List (Text × Value))
    → Agree ws es
    → Agree (sort_by_key ws) (sort_by_key es)
unfolding sort_by_key Agree
sort-Agree [] [] h = tt
sort-Agree [] (e ∷ es) h = absurd h
sort-Agree (w ∷ ws) [] h = absurd h
sort-Agree ((key, w) ∷ ws) ((k, v) ∷ es) (t, e, c, h) =
    subst (λ (name : Text). Agree (place key w (sort_by_key ws)) (place name v (sort_by_key es))) e
      (place-Agree key w v (sort_by_key ws) (sort_by_key es) t c (sort-Agree ws es h))

pub put_entries-Codes :
    (ws : List (Text × Writer)) (es : List (Text × Value)) (fields : Fields)
    → Agree ws es
    → Codes
        (put_entries ws)
        (λ n. times (insert_body (value n)) (length ws) fields)
        (insert_all fields es)
unfolding put_entries Agree insert_all times
put_entries-Codes [] [] fields h = Codes-nothing fields
put_entries-Codes [] (e ∷ es) fields h = absurd h
put_entries-Codes (w ∷ ws) [] fields h = absurd h
put_entries-Codes ((key, w) ∷ ws) ((k, v) ∷ es) fields (t, e, c, h) =
    Codes-regroup (put_string key) w (put_entries ws) (
      Codes-then (λ n. times (insert_body (value n)) (length ws))
        (Codes-then (λ n name. value n >>> λ v. return (insert name v fields)) (Codes-text key t)
          (Codes-emit (λ v. insert key v fields) c))
        (rw e (put_entries-Codes ws es (insert k v fields) h)))

length-place :
    {A : Type 0} (key : Text) (a : A) (xs : List (Text × A))
    → length (place key a xs) ≡ suc (length xs)
unfolding place
length-place key a [] = refl
length-place key a ((k, b) ∷ xs) = elim (Bool-cases (text_lt k key)) [
  | inl less ↦ rw less (ap suc (length-place key a xs))
  | inr not_less ↦ rw not_less refl
]

length-sort_by_key : {A : Type 0} (xs : List (Text × A)) → length (sort_by_key xs) ≡ length xs
unfolding sort_by_key
length-sort_by_key [] = refl
length-sort_by_key ((key, a) ∷ xs) =
    length-place key a (sort_by_key xs) ∙ ap suc (length-sort_by_key xs)

length-entry_writers : (fields : Fields) → length (entry_writers fields) ≡ fields_len fields
unfolding entry_writers
length-entry_writers map_end = refl
length-entry_writers (field_cons key v rest) = ap suc (length-entry_writers rest)

-- A map, under its number of entries.
pub counted_entries-Codes :
    (fields : Fields)
    → fields_len fields < 2 ^ 32
    → Agree (entry_writers fields) (entries fields)
    → Codes
        (put_u32 (length (sort_by_key (entry_writers fields)))
          ▷ put_entries (sort_by_key (entry_writers fields)))
        (λ n. counted (insert_body (value n)) map_end)
        (received_fields fields)
unfolding received_fields
counted_entries-Codes fields fits h =
    let ws : List (Text × Writer) = sort_by_key (entry_writers fields) in
    let len : length ws ≡ fields_len fields =
      length-sort_by_key (entry_writers fields) ∙ length-entry_writers fields in
    Codes-then (λ n count. times (insert_body (value n)) count map_end)
      (Codes-u32 (length ws) (omega (arith, len)))
      (put_entries-Codes ws (sort_by_key (entries fields)) map_end
        (sort-Agree (entry_writers fields) (entries fields) h))
