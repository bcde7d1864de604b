-- ===== src/Base/Names.antt =====
-- Texts as names: their equality, membership, and maps keyed by them.
use Prim.Native.String.{String}
use mathlib.Core.Path.{◌≡◌, refl}
use mathlib.Core.Logic.{◌↔◌, ◌⊎◌, inl, inr}
use mathlib.Core.Bool.{Bool, true, false, ◌||◌}
use mathlib.Core.List.{List, [], ◌∷◌, ◌++◌}
use mathlib.Core.Option.{Option, none, some}
use text.Mathlib.Text
use text.Mathlib.TextEquality.{eq_iff}
use tcpform_protocol_lab.Base.Lists.{All}
use tcpform_protocol_lab.Base.Tests.{if◌then◌else◌}

-- Rust's `==` on texts.
abbrev pub same : String → String → Bool
same s t = Text.◌==◌ s t

pub same_iff : (s t : String) → (same s t ≡ true) ↔ (s ≡ t)
same_iff s t = eq_iff s t

abbrev pub contains : List String → String → Bool
contains [] name = false
contains (x ∷ xs) name = same x name || contains xs name

module _ {ℓ} {V : Type ℓ} where
  -- HashMap::get of a map that `insert` built.
  abbrev pub lookup : String → List (String × V) → Option V
  lookup name [] = none
  lookup name ((key, value) ∷ rest) = if same key name then some value else lookup name rest

-- Membership, position included.
abbrev pub Member : {V : Type 0} → V → List V → Type 0
Member x [] = ⊥
Member x (y ∷ ys) = (x ≡ y) ⊎ Member x ys

module _ {V : Type 0} where
  pub Member-append_left : (x : V) (xs ys : List V) → Member x xs → Member x (xs ++ ys)
  Member-append_left x [] ys m = elim m [ ]
  Member-append_left x (y ∷ xs) ys (inl e) = inl e
  Member-append_left x (y ∷ xs) ys (inr m) = inr (Member-append_left x xs ys m)

  pub Member-append_right : (x : V) (xs ys : List V) → Member x ys → Member x (xs ++ ys)
  Member-append_right x [] ys m = m
  Member-append_right x (y ∷ xs) ys m = inr (Member-append_right x xs ys m)

  -- A predicate that every member satisfies.
  pub All-Member : (P : V → Type 0) (xs : List V) → ((x : V) → Member x xs → P x) → All P xs
  All-Member P [] h = tt
  All-Member P (x ∷ xs) h = (h x (inl refl), All-Member P xs (λ y m. h y (inr m)))
