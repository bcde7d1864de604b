-- ===== src/Schedule/Search/Blame.antt =====
-- What the checks of src/model_check.rs find in a state is wrong after the schedule that leads there.
use Prim.Native.String.{String}
use tcpform_protocol_lab.Base.{
  ℕ, zero, suc, ◌<◌, ◌≡◌, ◌≢◌, refl, sym, ap, ◌∙◌, inl, inr, Bool, true, false, Option, none, some,
  List, [], ◌∷◌, length, get_or, get_elem?, map, same, same_iff, Member, Bool-cases, arith,
}
use tcpform_protocol_lab.Schedule.Protocol.{
  InvariantKind, never_state, eventually_state, state_implies, Invariant,
}
use tcpform_protocol_lab.Schedule.Plan.{PlannedStep}
use tcpform_protocol_lab.Schedule.Checker.{
  State, ViolationKind, Setting, position, is_eventually, eventual, all_completed, state_of,
  enabled,
}
use tcpform_protocol_lab.Schedule.Search.{
  step_name, zip, violation_at, other_fails, fails_as, fails,
}
use tcpform_protocol_lab.Schedule.Search.Meaning.{
  has_taken, state_after, IsReady, IsBrokenAs, Blamed, step_label, Justified,
}
use tcpform_protocol_lab.Schedule.Search.Follows.{Follows, states_after-length}
use tcpform_protocol_lab.Schedule.Search.Ready.{indices, IsReady-enabled}

labels :
    (order : List PlannedStep) (path : List ℕ)
    → map (λ (i : ℕ). step_name (get_elem? order i)) path
      ≡ map (λ (i : ℕ). step_label (get_elem? order i)) path
labels order [] = refl
labels order (i ∷ path) = rw (labels order path, one (get_elem? order i)) refl
  where
    one : (p : Option PlannedStep) → step_name p ≡ step_label p
    one none = refl
    one (some p) = refl

zip-roles :
    (roles states : List String)
    → length states ≡ length roles
    → map (λ (p : String × String). p.0) (zip roles states) ≡ roles
unfolding zip
zip-roles [] states h = refl
zip-roles (r ∷ roles) [] h = absurd (omega (arith, h))
zip-roles (r ∷ roles) (s ∷ states) h = rw (zip-roles roles states (omega arith)) refl

zip-states :
    (roles states : List String)
    → length states ≡ length roles
    → map (λ (p : String × String). p.1) (zip roles states) ≡ states
unfolding zip
zip-states [] [] h = refl
zip-states [] (s ∷ states) h = absurd (omega (arith, h))
zip-states (r ∷ roles) [] h = refl
zip-states (r ∷ roles) (s ∷ states) h = rw (zip-states roles states (omega arith)) refl

all_completed-get_or :
    (bits : List Bool) (k : ℕ)
    → all_completed bits ≡ true
    → k < length bits
    → get_or bits k false ≡ true
unfolding all_completed
all_completed-get_or [] k e h = absurd (omega arith)
all_completed-get_or (true ∷ bits) zero e h = refl
all_completed-get_or (true ∷ bits) (suc k) e h = all_completed-get_or bits k e (omega arith)
all_completed-get_or (false ∷ bits) k e h = absurd (cc)

some_left :
    (bits : List Bool)
    → all_completed bits ≡ false
    → (k : ℕ) × (k < length bits) × (get_or bits k false ≡ false)
unfolding all_completed
some_left [] e = absurd (cc)
some_left (true ∷ bits) e = let (k, h, left) = some_left bits e in (suc k, omega arith, left)
some_left (false ∷ bits) e = (zero, omega arith, refl)

pub eventual-Member :
    (i : Invariant) (invariants : List Invariant)
    → Member i (eventual invariants)
    → Member i invariants × (i.kind ≡ eventually_state)
unfolding eventual
eventual-Member i [] m = absurd m
eventual-Member i (j ∷ invariants) m = elim (Bool-cases (is_eventually j.kind)) [
  | inl e ↦ elim (rw e at m) [
    | inl here ↦ (inl here, ap (λ (x : Invariant). x.kind) here ∙ only j.kind e)
    | inr later ↦ let (there, kind) = eventual-Member i invariants later in (inr there, kind)
  ]
  | inr e ↦ let (there, kind) = eventual-Member i invariants (rw e at m) in (inr there, kind)
]
  where
    only : (kind : InvariantKind) → is_eventually kind ≡ true → kind ≡ eventually_state
    only never_state e = absurd (cc)
    only eventually_state e = refl
    only state_implies e = absurd (cc)

module _ (setting : Setting) (state : State) (f : Follows setting state) where
  state_of-after :
      (role : String) → state_of setting state role ≡ state_after setting (Follows.history f) role
  state_of-after role =
      ap (λ (states : List String). get_or states (position setting.roles role) "")
        (Follows.places f)

  other_fails-differs :
      (role expected : Option String)
      → other_fails setting state role expected ≡ true
      → (r : String) × (s : String) × (role ≡ some r)
        × (expected ≡ some s)
        × (state_after setting (Follows.history f) r ≢ s)
  other_fails-differs none expected e = absurd (cc)
  other_fails-differs (some role) none e = absurd (cc)
  other_fails-differs (some role) (some expected) e = (
    role,
    expected,
    refl,
    refl,
    λ p.
        let equal : same (state_of setting state role) expected ≡ true =
          (same_iff (state_of setting state role) expected).1 (state_of-after role ∙ p) in
        cc,
  )

  here-state :
      (i : Invariant)
      → same (state_of setting state i.role) i.state ≡ true
      → state_after setting (Follows.history f) i.role ≡ i.state
  here-state i e =
      sym (state_of-after i.role) ∙ (same_iff (state_of setting state i.role) i.state).0 e

  fails_as-IsBrokenAs :
      (kind : InvariantKind) (i : Invariant)
      → fails_as kind
          (same (state_of setting state i.role) i.state)
          (other_fails setting state i.implies_role i.implies_state)
        ≡ true
      → IsBrokenAs kind setting (Follows.history f) i
  fails_as-IsBrokenAs never_state i e = here-state i e
  fails_as-IsBrokenAs state_implies i e =
      let here : same (state_of setting state i.role) i.state ≡ true = ground (arith, e) in
      let other : other_fails setting state i.implies_role i.implies_state ≡ true =
        ground (arith, e) in
      let (r, s, is_role, is_state, differs) =
        other_fails-differs i.implies_role i.implies_state other in
      (here-state i here, r, s, is_role, is_state, differs)
  fails_as-IsBrokenAs eventually_state i e = absurd (cc)

  pub fails-IsBrokenAs :
      (i : Invariant)
      → fails setting state i ≡ true
      → IsBrokenAs i.kind setting (Follows.history f) i
  unfolding fails
  fails-IsBrokenAs i e = fails_as-IsBrokenAs i.kind i e

  pub violation_at-Justified :
      (kind : ViolationKind) (name : Option String)
      → Blamed setting (Follows.history f) kind name
      → Justified setting (violation_at setting state kind name)
  unfolding violation_at
  violation_at-Justified kind name blamed =
      let sizes : length state.role_states ≡ length setting.roles =
        ap length (Follows.places f) ∙ states_after-length setting (Follows.history f) in
      record {
        history = Follows.history f;
        schedule = Follows.schedule f;
        counterexample =
            labels setting.order state.path
            ∙ ap (map (λ (i : ℕ). step_label (get_elem? setting.order i))) (Follows.told f);
        roles = zip-roles setting.roles state.role_states sizes;
        states = zip-states setting.roles state.role_states sizes ∙ Follows.places f;
        blamed = blamed;
      }

  pub all_taken :
      all_completed state.completed ≡ true
      → (k : ℕ) → k < length setting.order
      → has_taken k (Follows.history f) ≡ true
  all_taken e k h =
      sym (Follows.taken f k)
      ∙ all_completed-get_or state.completed k e (omega (arith, Follows.size f))

  pub one_left :
      all_completed state.completed ≡ false
      → (k : ℕ) × (k < length setting.order) × (has_taken k (Follows.history f) ≡ false)
  one_left e =
      let (k, h, left) = some_left state.completed e in
      (k, omega (arith, Follows.size f), sym (Follows.taken f k) ∙ left)

  pub nothing-IsReady :
      setting.deps ≡ map (indices setting) setting.order
      → enabled setting state ≡ []
      → (option : ℕ × Bool) → ¬ IsReady setting (Follows.history f) option
  nothing-IsReady linked e option r = rw e at (IsReady-enabled setting state f linked option r)
