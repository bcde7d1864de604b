-- ===== src/Base/Outcome.antt =====
-- Rust's `Result<A, E>` and its `?`, as a sum with a bind.
use mathlib.Core.Path.{◌≡◌, refl}
use mathlib.Core.Logic.{◌≢◌}
use mathlib.Core.Bool.{Bool, true, false}

pub data Result {ℓ κ} (E : Type ℓ) (A : Type κ) : Type (ℓ ⊔ κ) where
  err : E → Result E A
  ok : A → Result E A

infixl 5 ◌>>=◌ ◌>>◌
-- The error of the first computation, or the second one on its value.
abbrev pub ◌>>=◌ {ℓ κ ν} :
    {E : Type ℓ} {A : Type κ} {B : Type ν} → Result E A → (A → Result E B) → Result E B
err reason >>= next = err reason
ok value >>= next = next value

abbrev pub ◌>>◌ {ℓ κ} : {E : Type ℓ} {B : Type κ} → Result E (Unit {0}) → Result E B → Result E B
first >> second = first >>= λ done. second

-- `if test { return Err(e) }`
abbrev pub refuse_if {ℓ} : {E : Type ℓ} → Bool → E → Result E (Unit {0})
refuse_if true e = err e
refuse_if false e = ok tt

-- Inversion of a bind that succeeded.
pub >>=-eq-ok {ℓ κ ν} :
    {E : Type ℓ} {A : Type κ} {B : Type ν} (first : Result E A) (next : A → Result E B) {b : B}
    → (first >>= next) ≡ ok b
    → (value : A) × (first ≡ ok value) × (next value ≡ ok b)
>>=-eq-ok (err reason) next h = cc
>>=-eq-ok (ok value) next h = (value, refl, h)

pub >>=_assoc {ℓ κ ν μ} :
    {E : Type ℓ} {A : Type κ} {B : Type ν} {C : Type μ} (first : Result E A) (next : A → Result E B)
    (last : B → Result E C)
    → ((first >>= next) >>= last) ≡ (first >>= λ value. next value >>= last)
>>=_assoc (err reason) next last = refl
>>=_assoc (ok value) next last = refl

pub ok-injective {ℓ κ} :
    {E : Type ℓ} {A : Type κ} {a b : A} → ◌≡◌ {A = Result E A} (ok a) (ok b) → a ≡ b
ok-injective e = cc

pub refuse_if-eq-ok {ℓ} :
    {E : Type ℓ} (test : Bool) (e : E) {u : Unit {0}} → refuse_if test e ≡ ok u → test ≡ false
refuse_if-eq-ok true e h = cc
refuse_if-eq-ok false e h = refl

-- An error that neither part returns.
pub >>=-ne-err {ℓ κ ν} :
    {E : Type ℓ} {A : Type κ} {B : Type ν} (first : Result E A) (next : A → Result E B) (e : E)
    → first ≢ err e
    → ((value : A) → next value ≢ err e)
    → (first >>= next) ≢ err e
>>=-ne-err (err reason) next e h k = λ p. h (cc)
>>=-ne-err (ok value) next e h k = k value

-- The second part only after a first one that succeeded.
pub >>=-ne-err_after {ℓ κ ν} :
    {E : Type ℓ} {A : Type κ} {B : Type ν} (first : Result E A) (next : A → Result E B) (e : E)
    → first ≢ err e
    → ((value : A) → first ≡ ok value → next value ≢ err e)
    → (first >>= next) ≢ err e
>>=-ne-err_after (err reason) next e h k = λ p. h (cc)
>>=-ne-err_after (ok value) next e h k = k value refl

pub refuse_if-ne-err {ℓ} :
    {E : Type ℓ} (test : Bool) (reason e : E) → reason ≢ e → refuse_if test reason ≢ err e
refuse_if-ne-err true reason e h = λ p. h (cc)
refuse_if-ne-err false reason e h = λ p. cc
