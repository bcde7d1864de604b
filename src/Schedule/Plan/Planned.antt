-- ===== src/Schedule/Plan/Planned.antt =====
-- Where the sort of `plan` (src/graph.rs) starts, and what it returns.
use Prim.Native.String.{String}
use tcpform_protocol_lab.Base.{
  ℕ, suc, ◌+◌, ◌≤◌, ◌<◌, ◌≡◌, refl, sym, ap, subst, arith, true, false, not, some, List, [], ◌∷◌,
  length, get_elem?, ok, ok-injective, >>=-eq-ok, refuse_if, refuse_if-eq-ok, same, same_iff,
  contains, Member, All, Bool-cases, inl, inr, ◌==◌, ==_iff, map,
}
use tcpform_protocol_lab.Schedule.Protocol.{Step, Protocol}
use tcpform_protocol_lab.Schedule.Plan.{
  PlannedStep, Plan, name_of, check_names, resolve_deps, check_steps, Kahn, initial_indegree,
  initial_ready, kahn_loop, remaining, cycle, duplicate_step, plan,
}
use tcpform_protocol_lab.Schedule.Plan.Names.{names, count-Member}
use tcpform_protocol_lab.Schedule.Plan.Order.{
  IsOrdered, Sorting, kahn_loop-Sorting, count-behind, missing-le,
}
use tcpform_protocol_lab.Schedule.Plan.Counts.{count, standing, same_refl}

-- The indices of the steps in `qs` count from `i` in the whole list.
abbrev FromIndex : List PlannedStep → List PlannedStep → ℕ → Type 0
FromIndex planned qs i = (j : ℕ) → get_elem? planned (i + j) ≡ get_elem? qs j

FromIndex-tail :
    (planned : List PlannedStep) (q : PlannedStep) (qs : List PlannedStep) (i : ℕ)
    → FromIndex planned (q ∷ qs) i
    → FromIndex planned qs (suc i)
FromIndex-tail planned q qs i h j = let e : suc i + j ≡ i + suc j = omega arith in rw e (h (suc j))

FromIndex-head :
    (planned : List PlannedStep) (q : PlannedStep) (qs : List PlannedStep) (i : ℕ)
    → FromIndex planned (q ∷ qs) i
    → get_elem? planned i ≡ some q
FromIndex-head planned q qs i h = let e : i + 0 ≡ i = omega arith in rw e at (h 0)

-- A step that is ready at the start is there, and has no dependency.
ready-le :
    (planned : List PlannedStep) (n : String) (qs : List PlannedStep) (i : ℕ)
    → FromIndex planned qs i
    → standing planned n (initial_ready qs i) ≤ count n (names qs)
unfolding standing count initial_ready
ready-le planned n [] i h = omega arith
ready-le planned n (q ∷ qs) i h =
    let at = FromIndex-head planned q qs i h in
    let ih = ready-le planned n qs (suc i) (FromIndex-tail planned q qs i h) in
    elim (Bool-cases (length q.deps == 0)) [
      | inl z ↦ elim (Bool-cases (same (name_of q) n)) [
        | inl e ↦ rw (z, at, e) (omega arith)
        | inr e ↦ rw (z, at, e) ih
      ]
      | inr z ↦ elim (Bool-cases (same (name_of q) n)) [
        | inl e ↦ rw (z, e) (omega arith)
        | inr e ↦ rw (z, e) ih
      ]
    ]

ready-settled :
    (planned : List PlannedStep) (n : String) (qs : List PlannedStep) (i : ℕ)
    → FromIndex planned qs i
    → count n (names qs) ≤ 1
    → 0 < standing planned n (initial_ready qs i)
    → initial_indegree qs n ≡ 0
unfolding standing count initial_ready initial_indegree
ready-settled planned n [] i h u pos = refl
ready-settled planned n (q ∷ qs) i h u pos =
    let at = FromIndex-head planned q qs i h in
    let later = FromIndex-tail planned q qs i h in
    let le = ready-le planned n qs (suc i) later in
    elim (Bool-cases (same (name_of q) n)) [
      | inl e ↦ elim (Bool-cases (length q.deps == 0)) [
        | inl z ↦ rw e ((==_iff _ 0).0 z)
        | inr z ↦ absurd (omega (arith, le, rw e at u, rw z at pos))
      ]
      | inr e ↦ elim (Bool-cases (length q.deps == 0)) [
        | inl z ↦ rw e (ready-settled planned n qs (suc i) later (rw e at u) (rw (z, at, e) at pos))
        | inr z ↦ rw e (ready-settled planned n qs (suc i) later (rw e at u) (rw z at pos))
      ]
    ]

indegree-Member :
    (p : PlannedStep) (qs : List PlannedStep)
    → Member p qs
    → count (name_of p) (names qs) ≤ 1
    → initial_indegree qs (name_of p) ≡ length p.deps
unfolding initial_indegree count
indegree-Member p [] m u = elim m [ ]
indegree-Member p (q ∷ qs) (inl e) u =
    let here : same (name_of q) (name_of p) ≡ true = rw e (same_refl (name_of q)) in
    rw here (ap (λ (x : PlannedStep). length x.deps) (sym e))
indegree-Member p (q ∷ qs) (inr m) u =
    let there = count-Member p qs m in
    elim (Bool-cases (same (name_of q) (name_of p))) [
      | inl e ↦ absurd (omega (arith, there, rw e at u))
      | inr e ↦ rw e (indegree-Member p qs m (rw e at u))
    ]

abbrev start : List PlannedStep → Kahn
start planned = record {
  indegree = initial_indegree planned;
  ready = initial_ready planned 0;
  order = [];
  done = [];
}

start-Sorting :
    (planned : List PlannedStep) (unique : (n : String) → count n (names planned) ≤ 1)
    → Sorting planned unique (start planned) (initial_ready planned 0)
unfolding count IsOrdered
start-Sorting planned unique =
    let whole : FromIndex planned planned 0 = λ j. let e : 0 + j ≡ j = omega arith in rw e in
    record {
      counted = record {
        bounds = λ p m.
            omega (arith, missing-le [] p.deps, indegree-Member p planned m (unique (name_of p)));
        settled = λ n pos. ready-settled planned n planned 0 whole (unique n) (omega (arith, pos));
        once = λ n. omega (arith, ready-le planned n planned 0 whole, unique n);
      };
      ordered = tt;
      done_eq = refl;
      planned_steps = tt;
    }

-- The names that `check_names` accepts are unique.
contains-count : (n : String) (xs : List String) → contains xs n ≡ false → count n xs ≡ 0
unfolding count
contains-count n [] h = refl
contains-count n (x ∷ xs) h = elim (Bool-cases (same x n)) [
  | inl e ↦ absurd (cc)
  | inr e ↦ rw e (contains-count n xs (rw e at h))
]

check_names_unique :
    (prev : List (String × String)) (seen : List String) (steps : List Step)
    → check_names seen steps ≡ ok tt
    → ((n : String) → count n seen ≤ 1)
    → (n : String) → count n (names (resolve_deps prev steps)) + count n seen ≤ 1
unfolding check_names resolve_deps count
check_names_unique prev seen [] e u n = omega (arith, u n)
check_names_unique prev seen (s ∷ steps) e u n =
    let (_, fresh, e1) = >>=-eq-ok (refuse_if (contains seen s.name) (duplicate_step s.name)) _ e in
    let absent = contains-count s.name seen (refuse_if-eq-ok _ _ fresh) in
    let grown : (m : String) → count m (s.name ∷ seen) ≤ 1 = λ m.
      elim (Bool-cases (same s.name m)) [
        | inl t ↦
            let zero_times : count m seen ≡ 0 =
              subst (λ (x : String). count x seen ≡ 0) ((same_iff s.name m).0 t) absent in
            rw t (omega (arith, zero_times))
        | inr t ↦ rw t (u m)
      ] in
    let ih = check_names_unique ((s.role, s.name) ∷ prev) (s.name ∷ seen) steps e1 grown n in
    elim (Bool-cases (same s.name n)) [
      | inl t ↦ rw t (omega (arith, rw t at ih))
      | inr t ↦ rw t (rw t at ih)
    ]

not-differ : (a b : ℕ) → not (a == b) ≡ false → a ≡ b
not-differ a b h = ground arith

-- A protocol that is planned has an order in which every step stands behind all that it depends on,
-- that holds as many steps as the protocol, none of them twice, each with the dependencies that were
-- resolved for it.
pub plan-IsOrdered :
    (protocol : Protocol) (p : Plan)
    → plan protocol ≡ ok p
    → IsOrdered [] p.order
      × (length p.order ≡ length protocol.steps)
      × ((n : String) → count n (names p.order) ≤ 1)
      × All (λ q. Member q (resolve_deps [] protocol.steps)) p.order
unfolding plan count
plan-IsOrdered protocol p e =
    let planned = resolve_deps [] protocol.steps in
    let (_, unique_names, e1) = >>=-eq-ok (check_names [] protocol.steps) _ e in
    let (_, _, e2) =
      >>=-eq-ok (check_steps (map (λ (s : Step). s.name) protocol.steps) protocol.steps) _ e1 in
    let (last, looped, e3) =
      >>=-eq-ok (kahn_loop planned (length planned) (start planned) (initial_ready planned 0)) _
        e2 in
    let (_, complete, e4) =
      >>=-eq-ok
        (refuse_if (not (length last.order == length protocol.steps))
          (cycle (remaining last.done planned)))
        _ e3 in
    let unique : (n : String) → count n (names planned) ≤ 1 = λ n.
      omega (arith, check_names_unique [] [] protocol.steps unique_names (λ m. omega arith) n) in
    let sorted =
      kahn_loop-Sorting planned unique (length planned) (start planned) (initial_ready planned 0)
        last (start-Sorting planned unique) looped in
    let full : length last.order ≡ length protocol.steps =
      not-differ _ _ (refuse_if-eq-ok _ _ complete) in
    subst
      (λ (r : Plan).
        IsOrdered [] r.order
        × (length r.order ≡ length protocol.steps)
        × ((n : String) → count n (names r.order) ≤ 1)
        × All (λ q. Member q planned) r.order)
      (ok-injective e4)
      (
        sorted.ordered,
        full,
        λ n. omega (
          arith,
          sorted.counted.once n,
          count-behind n [] last.order,
          ap (count n) sorted.done_eq,
        ),
        sorted.planned_steps,
      )
