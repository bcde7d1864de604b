-- ===== src/Schedule/Search/Ready.antt =====
-- The options that `enabled` of src/model_check.rs returns are the steps that are ready, all of them.
use Prim.Native.String.{String}
use tcpform_protocol_lab.Base.{
  ℕ, zero, suc, ◌+◌, ◌≡◌, refl, sym, ap, ◌∙◌, ◌⊎◌, inl, inr, Bool, true, false, not, ◌||◌, Option,
  none, some, List, [], ◌∷◌, ◌++◌, get_or, get_elem?, map, same, same_iff, All, Member,
  Member-append_left, Member-append_right, Bool-cases, arith,
}
use tcpform_protocol_lab.Schedule.Protocol.{Value, boolean, computed, Step}
use tcpform_protocol_lab.Schedule.Plan.{PlannedStep, name_of}
use tcpform_protocol_lab.Schedule.Checker.{
  State, Setting, position, deps_completed, outcomes, state_of, from_allows, allowed, enabled_from,
  enabled,
}
use tcpform_protocol_lab.Schedule.Search.Meaning.{
  History, has_taken, state_after, MayTurnOut, MayStart, IsReady,
}
use tcpform_protocol_lab.Schedule.Search.Follows.{Follows}

Member-append :
    {V : Type 0} (x : V) (xs ys : List V) → Member x (xs ++ ys) → Member x xs ⊎ Member x ys
Member-append x [] ys m = inr m
Member-append x (y ∷ xs) ys (inl e) = inl (inl e)
Member-append x (y ∷ xs) ys (inr m) = elim (Member-append x xs ys m) [
  | inl l ↦ inl (inr l)
  | inr r ↦ inr r
]

outcomes→MayTurnOut : (c : Option Value) (run : Bool) → Member run (outcomes c) → MayTurnOut c run
outcomes→MayTurnOut none run (inl e) = e
outcomes→MayTurnOut (some (boolean true)) run (inl e) = e
outcomes→MayTurnOut (some (boolean false)) run (inl e) = e
outcomes→MayTurnOut none run (inr m) = absurd m
outcomes→MayTurnOut (some (boolean true)) run (inr m) = absurd m
outcomes→MayTurnOut (some (boolean false)) run (inr m) = absurd m
outcomes→MayTurnOut (some computed) run m = tt

MayTurnOut→outcomes : (c : Option Value) (run : Bool) → MayTurnOut c run → Member run (outcomes c)
MayTurnOut→outcomes none run e = inl e
MayTurnOut→outcomes (some (boolean true)) run e = inl e
MayTurnOut→outcomes (some (boolean false)) run e = inl e
MayTurnOut→outcomes (some computed) true m = inr (inl refl)
MayTurnOut→outcomes (some computed) false m = inl refl

from_allows→MayStart :
    (required : Option String) (current : String)
    → from_allows required current ≡ true
    → MayStart required current
from_allows→MayStart none current e = tt
from_allows→MayStart (some required) current e = elim (Bool-cases (same required "*")) [
  | inl any ↦ inl ((same_iff required "*").0 any)
  | inr other ↦ inr ((same_iff required current).0 (ground (arith, e, other)))
]

MayStart→from_allows :
    (required : Option String) (current : String)
    → MayStart required current
    → from_allows required current ≡ true
MayStart→from_allows none current m = refl
MayStart→from_allows (some required) current (inl e) =
    let any = (same_iff required "*").1 e in rw any refl
MayStart→from_allows (some required) current (inr e) =
    let here = (same_iff required current).1 e in ground (arith, here)

-- Whether the guard on the state of the role lets the option through.
abbrev passes : Setting → State → Step → Bool → Bool
passes setting state step run =
    not run || from_allows step.from_state (state_of setting state step.role)

allowed→passes :
    (setting : Setting) (state : State) (step : Step) (index : ℕ) (outs : List Bool)
    (option : ℕ × Bool)
    → Member option (allowed setting state step index outs)
    → (option.0 ≡ index) × Member option.1 outs × (passes setting state step option.1 ≡ true)
unfolding allowed
allowed→passes setting state step index [] option m = absurd m
allowed→passes setting state step index (run ∷ outs) option m =
    elim (Bool-cases (passes setting state step run)) [
      | inl e ↦ elim (rw e at m) [
        | inl here ↦
            let same_run = ap (λ (o : ℕ × Bool). o.1) here in
            (ap (λ (o : ℕ × Bool). o.0) here, inl same_run, rw same_run e)
        | inr later ↦
            let (a, b, c) = allowed→passes setting state step index outs option later in
            (a, inr b, c)
      ]
      | inr e ↦
          let (a, b, c) = allowed→passes setting state step index outs option (rw e at m) in
          (a, inr b, c)
    ]

passes→allowed :
    (setting : Setting) (state : State) (step : Step) (index : ℕ) (outs : List Bool) (run : Bool)
    → Member run outs
    → passes setting state step run ≡ true
    → Member (index, run) (allowed setting state step index outs)
unfolding allowed
passes→allowed setting state step index [] run m h = absurd m
passes→allowed setting state step index (first ∷ outs) run (inl e) h =
    let pass : passes setting state step first ≡ true = rw (sym e) h in rw pass (inl (rw e refl))
passes→allowed setting state step index (first ∷ outs) run (inr m) h =
    let later = passes→allowed setting state step index outs run m h in
    elim (Bool-cases (passes setting state step first)) [
      | inl e ↦ rw e (inr later)
      | inr e ↦ rw e later
    ]

deps_completed→All :
    (bits : List Bool) (history : History) (at : String → ℕ) (deps : List String)
    → ((k : ℕ) → get_or bits k false ≡ has_taken k history)
    → deps_completed bits (map at deps) ≡ true
    → All (λ (d : String). has_taken (at d) history ≡ true) deps
unfolding deps_completed
deps_completed→All bits history at [] taken e = tt
deps_completed→All bits history at (d ∷ deps) taken e =
    let first : get_or bits (at d) false ≡ true = ground (arith, e) in
    let rest : deps_completed bits (map at deps) ≡ true = ground (arith, e) in
    (sym (taken (at d)) ∙ first, deps_completed→All bits history at deps taken rest)

All→deps_completed :
    (bits : List Bool) (history : History) (at : String → ℕ) (deps : List String)
    → ((k : ℕ) → get_or bits k false ≡ has_taken k history)
    → All (λ (d : String). has_taken (at d) history ≡ true) deps
    → deps_completed bits (map at deps) ≡ true
unfolding deps_completed
All→deps_completed bits history at [] taken h = refl
All→deps_completed bits history at (d ∷ deps) taken (h, hs) =
    rw (taken (at d), h) (All→deps_completed bits history at deps taken hs)

-- The indices of the steps that a step depends on.
abbrev pub indices : Setting → PlannedStep → List ℕ
indices setting p = map (position (map name_of setting.order)) p.deps

module _ (setting : Setting) (state : State) (f : Follows setting state) where
  -- The options of a step that the checker has come to.
  from_state-starts :
      (step : Step) (run : Bool)
      → passes setting state step run ≡ true
      → (run ≡ false) ⊎ MayStart step.from_state (state_after setting (Follows.history f) step.role)
  from_state-starts step false e = inl refl
  from_state-starts step true e =
      inr (from_allows→MayStart step.from_state _ (rw (sym (Follows.places f)) e))

  starts-passes :
      (step : Step) (run : Bool)
      → (run ≡ false) ⊎ MayStart step.from_state (state_after setting (Follows.history f) step.role)
      → passes setting state step run ≡ true
  starts-passes step false h = refl
  starts-passes step true (inl e) = absurd (cc)
  starts-passes step true (inr m) = rw (Follows.places f) (MayStart→from_allows step.from_state _ m)

  option-IsReady :
      (k : ℕ) (p : PlannedStep) (option : ℕ × Bool)
      → get_elem? setting.order k ≡ some p
      → get_or state.completed k false ≡ false
      → deps_completed state.completed (indices setting p) ≡ true
      → Member option (allowed setting state p.step k (outcomes p.step.condition))
      → IsReady setting (Follows.history f) option
  option-IsReady k p option e new behind m =
      let (at_k, turns, pass) =
        allowed→passes setting state p.step k (outcomes p.step.condition) option m in
      record {
        planned = p;
        is_step = rw at_k e;
        new = rw at_k (sym (Follows.taken f k) ∙ new);
        behind =
            deps_completed→All state.completed (Follows.history f)
              (position (map name_of setting.order)) p.deps (Follows.taken f) behind;
        turns_out = outcomes→MayTurnOut p.step.condition option.1 turns;
        starts = from_state-starts p.step option.1 pass;
      }

  -- From a step on, where `rest` is what the order has behind it.
  enabled_from-IsReady :
      (k : ℕ) (rest : List PlannedStep) (option : ℕ × Bool)
      → ((j : ℕ) → get_elem? rest j ≡ get_elem? setting.order (k + j))
      → Member option (enabled_from setting state k rest (map (indices setting) rest))
      → IsReady setting (Follows.history f) option
  unfolding enabled_from
  enabled_from-IsReady k [] option at m = absurd m
  enabled_from-IsReady k (p ∷ rest) option at m =
      let later = enabled_from-IsReady (suc k) rest option (λ j.
        let step : k + suc j ≡ suc k + j = omega arith in
        at (suc j) ∙ ap (get_elem? setting.order) step) in
      let here : k + 0 ≡ k = omega arith in
      let found : get_elem? setting.order k ≡ some p =
        ap (get_elem? setting.order) (sym here) ∙ sym (at 0) in
      elim (Bool-cases (
        get_or state.completed k false
        || not (deps_completed state.completed (indices setting p)))) [
          | inl e ↦ later (rw e at m)
          | inr e ↦
              let new : get_or state.completed k false ≡ false = ground (arith, e) in
              let behind : deps_completed state.completed (indices setting p) ≡ true =
                ground (arith, e) in
              elim (Member-append option
                (allowed setting state p.step k (outcomes p.step.condition))
                (enabled_from setting state (suc k) rest (map (indices setting) rest))
                (rw e at m)) [
                  | inl l ↦ option-IsReady k p option found new behind l
                  | inr r ↦ later r
                ]
        ]

  IsReady-enabled_from :
      (k j : ℕ) (rest : List PlannedStep) (p : PlannedStep) (run : Bool)
      → get_elem? rest j ≡ some p
      → get_or state.completed (k + j) false ≡ false
      → deps_completed state.completed (indices setting p) ≡ true
      → Member run (outcomes p.step.condition)
      → passes setting state p.step run ≡ true
      → Member (k + j, run) (enabled_from setting state k rest (map (indices setting) rest))
  unfolding enabled_from
  IsReady-enabled_from k j [] p run e new behind turns pass = absurd (cc)
  IsReady-enabled_from k zero (q ∷ rest) p run e new behind turns pass =
      let here : k + 0 ≡ k = omega arith in
      let is_q : q ≡ p = cc in
      let new_k : get_or state.completed k false ≡ false = rw (sym here) new in
      rw (is_q, here, new_k, behind)
        (Member-append_left (k, run) (allowed setting state p.step k (outcomes p.step.condition)) _
          (passes→allowed setting state p.step k (outcomes p.step.condition) run turns pass))
  IsReady-enabled_from k (suc j) (q ∷ rest) p run e new behind turns pass =
      let step : k + suc j ≡ suc k + j = omega arith in
      let later : Member (suc k + j, run)
          (enabled_from setting state (suc k) rest (map (indices setting) rest)) =
        IsReady-enabled_from (suc k) j rest p run e (rw (sym step) new) behind turns pass in
      rw step
        (elim (Bool-cases (
          get_or state.completed k false
          || not (deps_completed state.completed (indices setting q)))) [
            | inl e ↦ rw e later
            | inr e ↦ rw e (
                Member-append_right (suc k + j, run)
                  (allowed setting state q.step k (outcomes q.step.condition)) _ later)
          ])

  module _ (linked : setting.deps ≡ map (indices setting) setting.order) where
    pub enabled-IsReady :
        (option : ℕ × Bool)
        → Member option (enabled setting state)
        → IsReady setting (Follows.history f) option
    unfolding enabled
    enabled-IsReady option m =
        enabled_from-IsReady 0 setting.order option
          (λ j. let same_index : j ≡ 0 + j = omega arith in ap (get_elem? setting.order) same_index)
          (rw linked at m)

    pub IsReady-enabled :
        (option : ℕ × Bool)
        → IsReady setting (Follows.history f) option
        → Member option (enabled setting state)
    unfolding enabled
    IsReady-enabled (i, run) r =
        let p = IsReady.planned r in
        let same_index : 0 + i ≡ i = omega arith in
        let new : get_or state.completed i false ≡ false = Follows.taken f i ∙ IsReady.new r in
        rw (linked, sym same_index)
          (IsReady-enabled_from 0 i setting.order p run (IsReady.is_step r) (rw same_index new)
            (All→deps_completed state.completed (Follows.history f)
              (position (map name_of setting.order)) p.deps (Follows.taken f) (IsReady.behind r))
            (MayTurnOut→outcomes p.step.condition run (IsReady.turns_out r))
            (starts-passes p.step run (IsReady.starts r)))
