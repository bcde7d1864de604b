-- ===== src/Schedule/Search/Total.antt =====
-- The exploration of src/model_check.rs ends: its rounds are bounded by the states that it may visit.
use tcpform_protocol_lab.Base.{
  ℕ, zero, suc, ◌+◌, ◌*◌, ◌≤◌, ◌≡◌, ◌≢◌, refl, ap, arith, Bool, true, false, not, ◌||◌, Option,
  none, some, List, [], ◌∷◌, length, length-append, map, get_or, ltb, Result, ok, err, refuse_if,
  >>=-ne-err, refuse_if-ne-err, ◌==◌, Bool-cases, inl, inr, ◌⊎◌,
}
use Prim.Native.String.{String}
use tcpform_protocol_lab.Schedule.Protocol.{Invariant, Step, Protocol, Value, boolean, computed}
use tcpform_protocol_lab.Schedule.Plan.{PlanError, PlannedStep, Plan, plan}
use tcpform_protocol_lab.Schedule.Checker
use tcpform_protocol_lab.Schedule.Checker.{
  CheckError, State, Setting, allowed, enabled_from, enabled, outcomes, advance, deps_completed,
  check_invariants, check_role, initial_state,
}
use tcpform_protocol_lab.Schedule.Search.{
  Search, onward, finished, visit, round, explore, rounds, nothing_found, is_visited, search_plan,
  run_plan, check, setting_of,
}

length-map : {A B : Type 0} (f : A → B) (xs : List A) → length (map f xs) ≡ length xs
length-map f [] = refl
length-map f (x ∷ xs) = ap suc (length-map f xs)

outcomes-le : (condition : Option Value) → length (outcomes condition) ≤ 2
outcomes-le none = omega arith
outcomes-le (some (boolean true)) = omega arith
outcomes-le (some (boolean false)) = omega arith
outcomes-le (some computed) = omega arith

allowed-le :
    (setting : Setting) (state : State) (step : Step) (index : ℕ) (choices : List Bool)
    → length (allowed setting state step index choices) ≤ length choices
unfolding allowed
allowed-le setting state step index [] = omega arith
allowed-le setting state step index (execute ∷ rest) =
    let h = allowed-le setting state step index rest in ground arith

enabled_from-le :
    (setting : Setting) (state : State) (index : ℕ) (order : List PlannedStep)
    (deps : List (List ℕ))
    → length (enabled_from setting state index order deps) ≤ 2 * length order
unfolding enabled_from
enabled_from-le setting state index [] deps = omega arith
enabled_from-le setting state index (p ∷ order) [] = omega arith
enabled_from-le setting state index (p ∷ order) (d ∷ deps) =
    let h = enabled_from-le setting state (suc index) order deps in
    elim (Bool-cases
      (get_or state.completed index false || not (deps_completed state.completed d))) [
        | inl e ↦ rw e (omega (arith, h))
        | inr e ↦ rw e (
            omega (
              arith,
              h,
              length-append (allowed setting state p.step index (outcomes p.step.condition))
                  (enabled_from setting state (suc index) order deps),
              allowed-le setting state p.step index (outcomes p.step.condition),
              outcomes-le p.step.condition,
            ))
      ]

enabled-le :
    (setting : Setting) (state : State) → length (enabled setting state) ≤ 2 * length setting.order
unfolding enabled
enabled-le setting state = enabled_from-le setting state 0 setting.order setting.deps

visit-le :
    (setting : Setting) (search : Search) (state : State) (rest : List State)
    → length (visit setting search state rest).queue ≤ length rest + 2 * length setting.order
unfolding visit
visit-le setting search state rest = omega (
  arith,
  length-append rest (map (advance setting state) (enabled setting state)),
  length-map (advance setting state) (enabled setting state),
  enabled-le setting state,
)

-- A round that goes on has fewer rounds ahead of it; `more` states may still be visited.
record GoesOn (setting : Setting) (max_states more : ℕ) (search : Search) (state : State)
    (rest : List State) : Type 0 where
  after : Search
  eq : round setting max_states search state rest ≡ onward after
  left : ℕ
  within : length after.visited + left ≡ max_states
  less :
      length after.queue + left * (2 * length setting.order)
      ≤ length rest + more * (2 * length setting.order)

at_limit :
    (setting : Setting) (max_states more : ℕ) (search : Search) (state : State) (rest : List State)
    → length search.visited + more ≡ max_states
    → is_visited state search.visited ≡ false
    → ltb max_states (suc (length search.visited)) ≡ false
    → GoesOn setting max_states more search state rest
unfolding round visit
at_limit setting max_states zero search state rest h new room = absurd (ground arith)
at_limit setting max_states (suc more) search state rest h new room =
    let unrolled : suc more * (2 * length setting.order)
        ≡ 2 * length setting.order + more * (2 * length setting.order) =
      omega arith in
    record {
      after = visit setting search state rest;
      eq = rw (new, room);
      left = more;
      within = omega (arith, h);
      less = omega (arith, visit-le setting search state rest, unrolled);
    }

round_cases :
    (setting : Setting) (max_states more : ℕ) (search : Search) (state : State) (rest : List State)
    → length search.visited + more ≡ max_states
    → ((after : Search) × (round setting max_states search state rest ≡ finished after))
      ⊎ GoesOn setting max_states more search state rest
unfolding round
round_cases setting max_states more search state rest h =
    elim (Bool-cases (is_visited state search.visited)) [
      | inl e ↦ inr (record {
        after = record search { queue = rest };
        eq = rw e;
        left = more;
        within = h;
        less = omega arith;
      })
      | inr e ↦ elim (Bool-cases (ltb max_states (suc (length search.visited)))) [
        | inl f ↦ inl (
          record search { queue = rest; visited = state ∷ search.visited; complete = false },
          rw (e, f),
        )
        | inr f ↦ inr (at_limit setting max_states more search state rest h e f)
      ]
    ]

explore-ne-out_of_fuel :
    (setting : Setting) (max_states fuel more : ℕ) (search : Search) (queue : List State)
    → length search.visited + more ≡ max_states
    → length queue + more * (2 * length setting.order) ≤ fuel
    → explore setting max_states fuel search queue ≢ err Checker.out_of_fuel
unfolding explore
explore-ne-out_of_fuel setting max_states fuel more search [] h k = λ e. cc
explore-ne-out_of_fuel setting max_states zero more search (state ∷ rest) h k = absurd (omega arith)
explore-ne-out_of_fuel setting max_states (suc fuel) more search (state ∷ rest) h k =
    elim (round_cases setting max_states more search state rest h) [
      | inl (after, e) ↦ rw (e, explore) (λ p. cc)
      | inr on ↦
          rw (on.eq, explore)
            (explore-ne-out_of_fuel setting max_states fuel on.left on.after on.after.queue
              on.within (omega (arith, on.less)))
    ]

role-ne-out_of_fuel :
    (roles : List String) (name : String) (role : Option String)
    → check_role roles name role ≢ err Checker.out_of_fuel
unfolding check_role
role-ne-out_of_fuel roles name none = λ e. cc
role-ne-out_of_fuel roles name (some role) = refuse_if-ne-err _ _ _ (λ e. cc)

roles-ne-out_of_fuel :
    (roles : List String) (invariants : List Invariant)
    → check_invariants roles invariants ≢ err Checker.out_of_fuel
unfolding check_invariants check_role
roles-ne-out_of_fuel roles [] = λ e. cc
roles-ne-out_of_fuel roles (i ∷ invariants) =
    >>=-ne-err (check_role roles i.name (some i.role)) _ _
      (role-ne-out_of_fuel roles i.name (some i.role))
      (λ _.
        >>=-ne-err (check_role roles i.name i.implies_role) _ _
          (role-ne-out_of_fuel roles i.name i.implies_role)
          (λ _. roles-ne-out_of_fuel roles invariants))

run_plan-ne-out_of_fuel : (m : Result PlanError Plan) → run_plan m ≢ err Checker.out_of_fuel
unfolding run_plan
run_plan-ne-out_of_fuel (ok plan) = λ e. cc
run_plan-ne-out_of_fuel (err e) = λ e. cc

search_plan-ne-out_of_fuel :
    (protocol : String) (invariants : List Invariant) (max_states : ℕ) (plan : Plan)
    → search_plan protocol invariants max_states plan ≢ err Checker.out_of_fuel
unfolding search_plan
search_plan-ne-out_of_fuel protocol invariants max_states plan =
    let setting = setting_of invariants plan in
    >>=-ne-err
      (explore setting max_states (rounds setting max_states) nothing_found
        (initial_state setting ∷ []))
      _ _
      (explore-ne-out_of_fuel setting max_states (rounds setting max_states) max_states
        nothing_found (initial_state setting ∷ []) (omega arith) (omega arith))
      (λ search. λ e. cc)

-- On every protocol and every limit the exploration ends by itself: the rounds that the limit and the
-- number of steps allow are enough.
pub check-ne-out_of_fuel :
    (protocol : Protocol) (max_states : ℕ) → check protocol max_states ≢ err Checker.out_of_fuel
unfolding check
check-ne-out_of_fuel protocol max_states =
    >>=-ne-err (refuse_if (max_states == 0) Checker.no_states) _ _
      (refuse_if-ne-err (max_states == 0) Checker.no_states Checker.out_of_fuel (λ e. cc))
      (λ _.
        >>=-ne-err (run_plan (plan protocol)) _ _ (run_plan-ne-out_of_fuel (plan protocol)) (λ plan.
          >>=-ne-err (check_invariants plan.roles protocol.invariants) _ _
            (roles-ne-out_of_fuel plan.roles protocol.invariants)
            (λ _. search_plan-ne-out_of_fuel protocol.name protocol.invariants max_states plan)))
