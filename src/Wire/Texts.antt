-- ===== src/Wire/Texts.antt =====
-- The comparisons of texts that src/transport.rs makes: equality and order, octet by octet.
use tcpform_protocol_lab.Base.{
  ◌≡◌, refl, sym, ◌∙◌, [], ◌∷◌, true, false, Bool-cases, inl, inr, ◌==◌, ltb, arith,
}
use tcpform_protocol_lab.Wire.Values.{Text, text_eq, text_lt}

pub text_eq_refl : (s : Text) → text_eq s s ≡ true
unfolding text_eq
text_eq_refl [] = refl
text_eq_refl (x ∷ xs) = let e : (x == x) ≡ true = ground arith in rw (e, text_eq_refl xs) refl

pub text_eq→≡ : (s t : Text) → text_eq s t ≡ true → s ≡ t
unfolding text_eq
text_eq→≡ [] [] h = refl
text_eq→≡ [] (y ∷ ys) h = cc
text_eq→≡ (x ∷ xs) [] h = cc
text_eq→≡ (x ∷ xs) (y ∷ ys) h = elim (Bool-cases (x == y)) [
  | inl e ↦ let head : x ≡ y = ground arith in rw (head, text_eq→≡ xs ys (rw e at h)) refl
  | inr ne ↦ absurd (cc (rw ne at h))
]

text_lt_irrefl : (s : Text) → text_lt s s ≡ false
unfolding text_lt
text_lt_irrefl [] = refl
text_lt_irrefl (x ∷ xs) =
    let e : (x == x) ≡ true = ground arith in
    let l : ltb x x ≡ false = ground arith in rw (e, l, text_lt_irrefl xs) refl

-- A key below another is not the one that the other is.
pub text_lt_apart :
    (k key name : Text) → text_lt k key ≡ true → text_eq k name ≡ true → text_eq key name ≡ false
text_lt_apart k key name less e = elim (Bool-cases (text_eq key name)) [
  | inr ne ↦ ne
  | inl e' ↦
      let both : k ≡ key = text_eq→≡ k name e ∙ sym (text_eq→≡ key name e') in
      absurd (cc (both, less, text_lt_irrefl k))
]

pub text_eq_apart :
    (k key name : Text) → text_eq k key ≡ false → text_eq k name ≡ true → text_eq key name ≡ false
text_eq_apart k key name ne e = elim (Bool-cases (text_eq key name)) [
  | inr f ↦ f
  | inl e' ↦
      let both : k ≡ key = text_eq→≡ k name e ∙ sym (text_eq→≡ key name e') in
      absurd (cc (both, ne, text_eq_refl k))
]
