-- ===== src/Schedule/Plan/Order.antt =====
-- The order of a plan (`plan` of src/graph.rs): each step once, behind all that it depends on.
use Prim.Native.String.{String}
use tcpform_protocol_lab.Base.{
  ℕ, zero, suc, ◌+◌, ◌≤◌, ◌<◌, ◌≡◌, refl, sym, ap, subst, ◌∙◌, arith, true, Option, none, some,
  List, [], ◌∷◌, ◌++◌, length, get_elem?, ok, ok-injective, same, contains, Member, All, All-append,
  Bool-cases, inl, inr,
}
use tcpform_protocol_lab.Schedule.Plan.{
  PlannedStep, name_of, Kahn, dependents, release, place, place_at, kahn_loop,
}
use tcpform_protocol_lab.Schedule.Plan.Names.{
  names, count-dependents, dependents-Found, get_elem-Member,
}
use tcpform_protocol_lab.Schedule.Plan.Release.{Counted, releases-Counted}
use tcpform_protocol_lab.Schedule.Plan.Counts.{
  count, missing, standing, same_refl, standing-sort, missing-done, missing-zero,
}

-- Each step stands behind all that it depends on; `done` are the names in front of the list.
unfoldable pub IsOrdered : List String → List PlannedStep → Type 0
IsOrdered done [] = Unit
IsOrdered done (p ∷ order) =
    All (λ d. contains done d ≡ true) p.deps × IsOrdered (name_of p ∷ done) order

abbrev pub behind : List String → List PlannedStep → List String
behind done [] = done
behind done (p ∷ order) = behind (name_of p ∷ done) order

IsOrdered-append :
    (done : List String) (order : List PlannedStep) (p : PlannedStep)
    → IsOrdered done order
    → All (λ d. contains (behind done order) d ≡ true) p.deps
    → IsOrdered done (order ++ (p ∷ []))
      × (behind done (order ++ (p ∷ [])) ≡ name_of p ∷ behind done order)
unfolding IsOrdered
IsOrdered-append done [] p h k = ((k, tt), refl)
IsOrdered-append done (q ∷ order) p (hq, h) k =
    let (a, b) = IsOrdered-append (name_of q ∷ done) order p h k in ((hq, a), b)

pub missing-le : (done deps : List String) → missing done deps ≤ length deps
unfolding missing
missing-le done [] = omega arith
missing-le done (d ∷ deps) =
    let h = missing-le done deps in
    elim (Bool-cases (contains done d)) [ inl c ↦ rw c (omega arith) | inr c ↦ rw c (omega arith) ]

module _ (planned : List PlannedStep) (unique : (n : String) → count n (names planned) ≤ 1) where
  -- The state of the sort between two rounds.
  pub record Sorting (kahn : Kahn) (ready : List ℕ) : Type 0 where
    pub counted : Counted planned kahn.indegree ready kahn.done []
    pub ordered : IsOrdered [] kahn.order
    pub done_eq : behind [] kahn.order ≡ kahn.done
    pub planned_steps : All (λ p. Member p planned) kahn.order

  -- The step at the front of `ready` moves to `done`.
  module _ (kahn : Kahn) (i : ℕ) (rest : List ℕ) (p : PlannedStep)
      (at : get_elem? planned i ≡ some p) (h : Sorting kahn (i ∷ rest)) where
    moved :
        (n : String)
        → standing planned n rest + count n (name_of p ∷ kahn.done)
          ≡ standing planned n (i ∷ rest) + count n kahn.done
    unfolding standing count
    moved n = elim (Bool-cases (same (name_of p) n)) [
      | inl e ↦ rw (at, e) (omega arith)
      | inr e ↦ rw (at, e)
    ]

    stands_front : 0 < standing planned (name_of p) (i ∷ rest)
    unfolding standing
    stands_front = rw (at, same_refl (name_of p)) (omega arith)

    new_name : count (name_of p) kahn.done ≡ 0
    new_name = omega (arith, stands_front, h.counted.once (name_of p))

    deps_done : All (λ d. contains kahn.done d ≡ true) p.deps
    deps_done =
        let bound = h.counted.bounds p (get_elem-Member planned i p at) in
        let zero_degree = h.counted.settled (name_of p) (omega (arith, stands_front)) in
        missing-zero kahn.done p.deps (omega (arith, bound, zero_degree))

    bounds_moved :
        (q : PlannedStep)
        → Member q planned
        → missing (name_of p ∷ kahn.done) q.deps
            + count (name_of q) (dependents planned (name_of p))
          ≤ kahn.indegree (name_of q)
    unfolding count
    bounds_moved q m = omega (
      arith,
      h.counted.bounds q m,
      missing-done (name_of p) kahn.done q.deps new_name,
      count-dependents (name_of p) q planned m (unique (name_of q)),
    )

    moved-Counted :
        Counted planned kahn.indegree rest (name_of p ∷ kahn.done) (dependents planned (name_of p))
    moved-Counted = record {
      bounds = bounds_moved;
      settled = λ n pos. h.counted.settled n (omega (arith, pos, moved n));
      once = λ n. omega (arith, moved n, h.counted.once n);
    }

    place-Sorting : Sorting (place planned kahn p rest) (place planned kahn p rest).ready
    unfolding place
    place-Sorting =
        let released =
          releases-Counted planned (dependents planned (name_of p)) kahn.indegree rest
            (name_of p ∷ kahn.done) (dependents-Found planned (name_of p)) moved-Counted in
        let ready = (release planned (dependents planned (name_of p)) kahn.indegree rest).1 in
        let placed = IsOrdered-append [] kahn.order p h.ordered (
          subst (λ (done : List String). All (λ d. contains done d ≡ true) p.deps) (sym h.done_eq)
            deps_done) in
        record {
          counted = record {
            bounds = released.bounds;
            settled =
                λ n pos. released.settled n (omega (arith, pos, standing-sort planned n ready));
            once = λ n. omega (arith, released.once n, standing-sort planned n ready);
          };
          ordered = placed.0;
          done_eq = placed.1 ∙ ap (λ (done : List String). name_of p ∷ done) h.done_eq;
          planned_steps =
              All-append (λ q. Member q planned) kahn.order (p ∷ []) h.planned_steps
                (get_elem-Member planned i p at, tt);
        }

  no_step :
      (kahn : Kahn) (i : ℕ) (rest : List ℕ)
      → get_elem? planned i ≡ none
      → Sorting kahn (i ∷ rest)
      → Sorting (record kahn { ready = rest }) rest
  no_step kahn i rest at h =
      let skips : (n : String) → standing planned n (i ∷ rest) ≡ standing planned n rest =
        λ n. unfold standing in rw at in
      record {
        counted = record {
          bounds = h.counted.bounds;
          settled = λ n pos. h.counted.settled n (omega (arith, pos, skips n));
          once = λ n. omega (arith, skips n, h.counted.once n);
        };
        ordered = h.ordered;
        done_eq = h.done_eq;
        planned_steps = h.planned_steps;
      }

  place_at-Sorting :
      (kahn : Kahn) (i : ℕ) (rest : List ℕ) (found : Option PlannedStep)
      → get_elem? planned i ≡ found
      → Sorting kahn (i ∷ rest)
      → Sorting (place_at planned kahn found rest) (place_at planned kahn found rest).ready
  unfolding place_at
  place_at-Sorting kahn i rest none at h = no_step kahn i rest at h
  place_at-Sorting kahn i rest (some p) at h = place-Sorting kahn i rest p at h

  pub kahn_loop-Sorting :
      (fuel : ℕ) (kahn : Kahn) (ready : List ℕ) (last : Kahn)
      → Sorting kahn ready
      → kahn_loop planned fuel kahn ready ≡ ok last
      → Sorting last []
  unfolding kahn_loop
  kahn_loop-Sorting fuel kahn [] last h e = subst (λ (k : Kahn). Sorting k []) (ok-injective e) h
  kahn_loop-Sorting zero kahn (i ∷ rest) last h e = cc
  kahn_loop-Sorting (suc fuel) kahn (i ∷ rest) last h e =
      let next = place_at planned kahn (get_elem? planned i) rest in
      kahn_loop-Sorting fuel next next.ready last
        (place_at-Sorting kahn i rest (get_elem? planned i) refl h) e

pub count-behind :
    (n : String) (done : List String) (order : List PlannedStep)
    → count n (behind done order) ≡ count n done + count n (names order)
unfolding count
count-behind n done [] = omega arith
count-behind n done (p ∷ order) =
    let h = count-behind n (name_of p ∷ done) order in
    elim (Bool-cases (same (name_of p) n)) [
      | inl e ↦ rw e (omega (arith, rw e at h))
      | inr e ↦ rw e (omega (arith, rw e at h))
    ]
