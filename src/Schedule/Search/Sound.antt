-- ===== src/Schedule/Search/Sound.antt =====
-- What src/model_check.rs reports can happen: the counterexamples are schedules of the plan.
use Prim.Native.String.{String}
use tcpform_protocol_lab.Base.{
  ℕ, zero, suc, ◌≡◌, refl, subst, Bool, true, false, Option, none, some, List, [], ◌∷◌, length, map,
  Result, ok, err, ok-injective, >>=-eq-ok, refuse_if, All, All-append, Member, All-Member,
  Bool-cases, inl, inr, ltb, if◌then◌else◌, ◌==◌,
}
use tcpform_protocol_lab.Schedule.Protocol.{eventually_state, Invariant, Protocol}
use tcpform_protocol_lab.Schedule.Plan.{Plan, plan, PlanError}
use tcpform_protocol_lab.Schedule.Checker
use tcpform_protocol_lab.Schedule.Checker.{
  CheckError, State, ViolationKind, invariant, liveness, deadlock, Violation, Setting, eventual,
  initial_state, all_completed, enabled, advance, check_invariants,
}
use tcpform_protocol_lab.Schedule.Search.Meaning.{has_entered, Blamed, Justified}
use tcpform_protocol_lab.Schedule.Search.Follows.{Follows, initial_state-Follows, advance-Follows}
use tcpform_protocol_lab.Schedule.Search.Ready.{indices, enabled-IsReady}
use tcpform_protocol_lab.Schedule.Search.Blame.{
  eventual-Member, fails-IsBrokenAs, violation_at-Justified, all_taken, one_left, nothing-IsReady,
}
use tcpform_protocol_lab.Schedule.Search.{
  Findings, Search, ModelCheckReport, Round, onward, finished, has_key, violation_at, add_violation,
  fails, check_safety, check_liveness, check_end, check_state, is_visited, visit, round, explore,
  rounds, nothing_found, setting_of, report, run_plan, search_plan, check,
}

module _ (setting : Setting) (state : State) (f : Follows setting state)
    (linked : setting.deps ≡ map (indices setting) setting.order) where
  add_violation-Justified :
      (kind : ViolationKind) (name : Option String) (found : Findings)
      → Blamed setting (Follows.history f) kind name
      → All (Justified setting) found.violations
      → All (Justified setting) (add_violation setting state kind name found).violations
  unfolding add_violation
  add_violation-Justified kind name found b h = elim (Bool-cases (has_key kind name found.keys)) [
    | inl e ↦ rw e h
    | inr e ↦ rw e (
        All-append (Justified setting) found.violations (violation_at setting state kind name ∷ [])
          h (violation_at-Justified setting state f kind name b, tt))
  ]

  tested :
      (i : Invariant) (found : Findings) (failed : Bool)
      → Member i setting.invariants
      → fails setting state i ≡ failed
      → All (Justified setting) found.violations
      → All
          (Justified setting)
          (if failed
            then add_violation setting state invariant (some i.name) found
            else found).violations
  tested i found true m e h =
      add_violation-Justified invariant (some i.name) found
        (i, m, refl, fails-IsBrokenAs setting state f i e) h
  tested i found false m e h = h

  check_safety-Justified :
      (invariants : List Invariant) (found : Findings)
      → ((i : Invariant) → Member i invariants → Member i setting.invariants)
      → All (Justified setting) found.violations
      → All (Justified setting) (check_safety setting state invariants found).violations
  unfolding check_safety
  check_safety-Justified [] found sub h = h
  check_safety-Justified (i ∷ invariants) found sub h =
      check_safety-Justified invariants
        (if fails setting state i
          then add_violation setting state invariant (some i.name) found
          else found)
        (λ j m. sub j (inr m)) (tested i found (fails setting state i) (sub i (inl refl)) refl h)

  abbrev reached_bits : List Invariant → List Bool
  reached_bits = map (λ (i : Invariant). has_entered setting i (Follows.history f))

  check_liveness-Justified :
      (invariants : List Invariant) (found : Findings)
      → all_completed state.completed ≡ true
      → ((i : Invariant)
          → Member i invariants
          → Member i setting.invariants × (i.kind ≡ eventually_state))
      → All (Justified setting) found.violations
      → All
          (Justified setting)
          (check_liveness setting state invariants (reached_bits invariants) found).violations
  unfolding check_liveness
  check_liveness-Justified [] found q sub h = h
  check_liveness-Justified (i ∷ invariants) found q sub h =
      elim (Bool-cases (has_entered setting i (Follows.history f))) [
        | inl e ↦ rw e (check_liveness-Justified invariants found q (λ j m. sub j (inr m)) h)
        | inr e ↦
            let (there, kind) = sub i (inl refl) in
            rw e (
              check_liveness-Justified invariants
                (add_violation setting state liveness (some i.name) found) q (λ j m. sub j (inr m))
                (add_violation-Justified liveness (some i.name) found
                  (all_taken setting state f q, i, there, kind, refl, e) h))
      ]

  check_end-Justified :
      (found : Findings)
      → enabled setting state ≡ []
      → All (Justified setting) found.violations
      → All (Justified setting) (check_end setting state found).violations
  unfolding check_end
  check_end-Justified found p h = elim (Bool-cases (all_completed state.completed)) [
    | inl e ↦
        rw (e, Follows.reached f)
          (check_liveness-Justified (eventual setting.invariants) found e
            (λ i m. eventual-Member i setting.invariants m) h)
    | inr e ↦ rw e (
        add_violation-Justified deadlock none found
          (one_left setting state f e, refl, nothing-IsReady setting state f linked p) h)
  ]

  check_state-Justified :
      (options : List (ℕ × Bool)) (found : Findings)
      → enabled setting state ≡ options
      → All (Justified setting) found.violations
      → All (Justified setting) (check_state setting state options found).violations
  unfolding check_state
  check_state-Justified [] found p h =
      check_end-Justified _ p (check_safety-Justified setting.invariants found (λ i m. m) h)
  check_state-Justified (o ∷ options) found p h =
      check_safety-Justified setting.invariants found (λ i m. m) h

All-map :
    {A B : Type 0} (P : B → Type 0) (f : A → B) (xs : List A)
    → All (λ x. P (f x)) xs
    → All P (map f xs)
All-map P f [] h = tt
All-map P f (x ∷ xs) h = (h.0, All-map P f xs h.1)

-- Every state that is queued follows a schedule, and every violation found so far is justified.
pub record IsSound (setting : Setting) (search : Search) : Type 0 where
  pub queued : All (Follows setting) search.queue
  pub justified : All (Justified setting) search.findings.violations

visit-IsSound :
    (setting : Setting) (search : Search) (state : State) (rest : List State)
    → setting.deps ≡ map (indices setting) setting.order
    → Follows setting state
    → All (Follows setting) rest
    → All (Justified setting) search.findings.violations
    → IsSound setting (visit setting search state rest)
unfolding visit
visit-IsSound setting search state rest linked r q j = record {
  queued = All-append (Follows setting) rest _ q (
      All-map (Follows setting) (advance setting state) (enabled setting state) (
        All-Member (λ o. Follows setting (advance setting state o)) (enabled setting state)
          (λ o m. advance-Follows setting state o r (enabled-IsReady setting state r linked o m))));
  justified =
      check_state-Justified setting state r linked (enabled setting state) search.findings refl j;
}

abbrev after_round : Round → Search
after_round (onward search) = search
after_round (finished search) = search

round-IsSound :
    (setting : Setting) (max_states : ℕ) (search : Search) (state : State) (rest : List State)
    → setting.deps ≡ map (indices setting) setting.order
    → Follows setting state
    → All (Follows setting) rest
    → All (Justified setting) search.findings.violations
    → IsSound setting (after_round (round setting max_states search state rest))
unfolding round
round-IsSound setting max_states search state rest linked r q j =
    elim (Bool-cases (is_visited state search.visited)) [
      | inl e ↦ rw e (record { queued = q; justified = j })
      | inr e ↦ rw e (elim (Bool-cases (ltb max_states (suc (length search.visited)))) [
        | inl f ↦ rw f (record { queued = q; justified = j })
        | inr f ↦ rw f (visit-IsSound setting search state rest linked r q j)
      ])
    ]

explore-Justified :
    (setting : Setting) (max_states fuel : ℕ) (search : Search) (queue : List State) (last : Search)
    → setting.deps ≡ map (indices setting) setting.order
    → All (Follows setting) queue
    → All (Justified setting) search.findings.violations
    → explore setting max_states fuel search queue ≡ ok last
    → All (Justified setting) last.findings.violations
unfolding explore
explore-Justified setting max_states fuel search [] last linked q j e =
    subst (λ (s : Search). All (Justified setting) s.findings.violations) (ok-injective e) j
explore-Justified setting max_states zero search (state ∷ rest) last linked q j e = cc
explore-Justified setting max_states (suc fuel) search (state ∷ rest) last linked (r, q) j e =
    proceeds (round setting max_states search state rest)
      (round-IsSound setting max_states search state rest linked r q j)
      (λ after h p.
        explore-Justified setting max_states fuel after after.queue last linked h.queued h.justified
          p)
      e
  where
    proceeds :
        (next : Round)
        → IsSound setting (after_round next)
        → ((after : Search)
            → IsSound setting after
            → explore setting max_states fuel after after.queue ≡ ok last
            → All (Justified setting) last.findings.violations)
        → (elim next as (λ _. Result CheckError Search) [
          | finished after ↦ ok after
          | onward after ↦ explore setting max_states fuel after after.queue
        ])
          ≡ ok last
        → All (Justified setting) last.findings.violations
    proceeds (finished after) h again p =
        subst (λ (s : Search). All (Justified setting) s.findings.violations) (ok-injective p)
          h.justified
    proceeds (onward after) h again p = again after h p

-- Each violation of a report is one that can happen: there is a schedule of the plan, in which every
-- step is new when it is taken, has the steps that it depends on behind it, may turn out as it does and
-- starts from the state of its role; the counterexample names its steps in their order, and the report
-- has the states that the steps moved the roles to; and after it the state of a never invariant is
-- there, or that of an implication without what it implies, or every step is taken and the state of an
-- eventual invariant was never entered, or a step is left and no step is ready (a deadlock).
pub check-Justified :
    (protocol : Protocol) (max_states : ℕ) (result : ModelCheckReport)
    → check protocol max_states ≡ ok result
    → (p : Plan) × (plan protocol ≡ ok p)
      × All (Justified (setting_of protocol.invariants p)) result.violations
unfolding check run_plan search_plan report setting_of
check-Justified protocol max_states result e =
    let (_, _, e1) = >>=-eq-ok (refuse_if (max_states == 0) Checker.no_states) _ e in
    let (p, planned, e2) = >>=-eq-ok (run_plan (plan protocol)) _ e1 in
    let (_, _, e3) = >>=-eq-ok (check_invariants p.roles protocol.invariants) _ e2 in
    let setting = setting_of protocol.invariants p in
    let (last, explored, e4) =
      >>=-eq-ok
        (explore setting max_states (rounds setting max_states) nothing_found
          (initial_state setting ∷ []))
        _ e3 in
    (
      p,
      ran (plan protocol) planned,
      subst (λ (r : ModelCheckReport). All (Justified setting) r.violations) (ok-injective e4)
          (explore-Justified setting max_states (rounds setting max_states) nothing_found
            (initial_state setting ∷ []) last refl (initial_state-Follows setting, tt) tt explored),
    )
  where
    ran : {p : Plan} (m : Result PlanError Plan) → run_plan m ≡ ok p → m ≡ ok p
    ran (ok p) h = cc
    ran (err reason) h = cc
