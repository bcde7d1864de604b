-- ===== src/Schedule/Plan/Names.antt =====
-- The names of the steps in `plan` (src/graph.rs) are unique, and the maps keyed by them are right.
use Prim.Native.String.{String}
use tcpform_protocol_lab.Base.{
  ℕ, zero, suc, ◌+◌, ◌≤◌, ◌<◌, ◌≡◌, refl, ap, ◌∙◌, arith, true, false, some, List, [], ◌∷◌,
  get_elem?, same, same_iff, Member, All, All-append, Bool-cases, inl, inr, map,
}
use tcpform_protocol_lab.Schedule.Plan.{PlannedStep, name_of, dependents, edges_from, index_of}
use tcpform_protocol_lab.Schedule.Plan.Release.{Found}
use tcpform_protocol_lab.Schedule.Plan.Counts.{count, same_refl, count-append, count-edges_from}

abbrev pub names : List PlannedStep → List String
names qs = map name_of qs

pub count-Member :
    (q : PlannedStep) (qs : List PlannedStep) → Member q qs → 0 < count (name_of q) (names qs)
unfolding count
count-Member q [] m = elim m [ ]
count-Member q (p ∷ qs) (inl e) =
    let here : same (name_of p) (name_of q) ≡ true = rw e (same_refl (name_of p)) in
    rw here (omega arith)
count-Member q (p ∷ qs) (inr m) =
    let h = count-Member q qs m in
    elim (Bool-cases (same (name_of p) (name_of q))) [ inl e ↦ rw e (omega arith) | inr e ↦ rw e h ]

-- `dependents` holds a step as often as the step has the name among its dependencies.
dependents-absent :
    (s n : String) (qs : List PlannedStep) → count n (names qs) ≡ 0 → count n (dependents qs s) ≡ 0
unfolding count dependents
dependents-absent s n [] h = refl
dependents-absent s n (q ∷ qs) h = elim (Bool-cases (same (name_of q) n)) [
  | inl e ↦ absurd (omega (arith, rw e at h))
  | inr e ↦
      count-append n (edges_from s (name_of q) q.deps) (dependents qs s)
      ∙ rw (count-edges_from s (name_of q) n q.deps, e)
          (omega (arith, dependents-absent s n qs (rw e at h)))
]

pub count-dependents :
    (s : String) (p : PlannedStep) (qs : List PlannedStep)
    → Member p qs
    → count (name_of p) (names qs) ≤ 1
    → count (name_of p) (dependents qs s) ≡ count s p.deps
unfolding count dependents
count-dependents s p [] m u = elim m [ ]
count-dependents s p (q ∷ qs) (inl e) u =
    let here : same (name_of q) (name_of p) ≡ true = rw e (same_refl (name_of q)) in
    let none_behind : count (name_of p) (names qs) ≡ 0 = omega (arith, rw here at u) in
    count-append (name_of p) (edges_from s (name_of q) q.deps) (dependents qs s)
    ∙ rw
        (
          count-edges_from s (name_of q) (name_of p) q.deps,
          here,
          dependents-absent s (name_of p) qs none_behind,
        )
        (omega (arith, ap (λ (x : PlannedStep). count s x.deps) e))
count-dependents s p (q ∷ qs) (inr m) u =
    let there = count-Member p qs m in
    elim (Bool-cases (same (name_of q) (name_of p))) [
      | inl e ↦ absurd (omega (arith, there, rw e at u))
      | inr e ↦
          count-append (name_of p) (edges_from s (name_of q) q.deps) (dependents qs s)
          ∙ rw (count-edges_from s (name_of q) (name_of p) q.deps, e)
              (omega (arith, count-dependents s p qs m (rw e at u)))
    ]

-- The index of a name that is there.
record Index (qs : List PlannedStep) (n : String) (i : ℕ) : Type 0 where
  offset : ℕ
  index_eq : index_of qs n i ≡ i + offset
  step : PlannedStep
  member : Member step qs
  named : name_of step ≡ n
  stands : get_elem? qs offset ≡ some step

index : (qs : List PlannedStep) (q : PlannedStep) (i : ℕ) → Member q qs → Index qs (name_of q) i
unfolding index_of
index [] q i m = elim m [ ]
index (p ∷ qs) q i m = elim (Bool-cases (same (name_of p) (name_of q))) [
  | inl e ↦ record {
    offset = 0;
    index_eq = rw e (omega arith);
    step = p;
    member = inl refl;
    named = (same_iff _ _).0 e;
    stands = refl;
  }
  | inr e ↦ elim m [
    | inl same_step ↦ absurd (differ same_step e)
    | inr later ↦
        let at_tail = index qs q (suc i) later in
        record {
          offset = suc at_tail.offset;
          index_eq = rw e (omega (arith, at_tail.index_eq));
          step = at_tail.step;
          member = inr at_tail.member;
          named = at_tail.named;
          stands = at_tail.stands;
        }
  ]
]
  where
    differ : q ≡ p → same (name_of p) (name_of q) ≡ false → ⊥
    differ e f = let t : same (name_of p) (name_of q) ≡ true = rw e (same_refl (name_of p)) in cc

found :
    (planned : List PlannedStep) (q : PlannedStep) → Member q planned → Found planned (name_of q)
found planned q m =
    let i = index planned q 0 m in
    let at : index_of planned (name_of q) 0 ≡ i.offset = omega (arith, i.index_eq) in
    record { step = i.step; member = i.member; named = i.named; stands = rw at i.stands }

edges-Found :
    (planned : List PlannedStep) (s n : String) (deps : List String)
    → Found planned n
    → All (Found planned) (edges_from s n deps)
unfolding edges_from
edges-Found planned s n [] f = tt
edges-Found planned s n (d ∷ deps) f = elim (Bool-cases (same d s)) [
  | inl e ↦ rw e (f, edges-Found planned s n deps f)
  | inr e ↦ rw e (edges-Found planned s n deps f)
]

dependents-Found_in :
    (planned : List PlannedStep) (s : String) (qs : List PlannedStep)
    → ((q : PlannedStep) → Member q qs → Member q planned)
    → All (Found planned) (dependents qs s)
unfolding dependents
dependents-Found_in planned s [] sub = tt
dependents-Found_in planned s (q ∷ qs) sub =
    All-append (Found planned) (edges_from s (name_of q) q.deps) (dependents qs s)
      (edges-Found planned s (name_of q) q.deps (found planned q (sub q (inl refl))))
      (dependents-Found_in planned s qs (λ p m. sub p (inr m)))

pub dependents-Found :
    (planned : List PlannedStep) (s : String) → All (Found planned) (dependents planned s)
dependents-Found planned s = dependents-Found_in planned s planned (λ q m. m)

pub get_elem-Member :
    (qs : List PlannedStep) (i : ℕ) (p : PlannedStep) → get_elem? qs i ≡ some p → Member p qs
get_elem-Member [] i p e = cc
get_elem-Member (q ∷ qs) zero p e = inl (cc)
get_elem-Member (q ∷ qs) (suc i) p e = inr (get_elem-Member qs i p e)
