-- ===== src/Schedule/Plan/Release.antt =====
-- The loop over the dependents of a step in `plan` (src/graph.rs) keeps the counts right.
use Prim.Native.String.{String}
use tcpform_protocol_lab.Base.{
  ℕ, suc, ◌+◌, ◌-◌, ◌≤◌, ◌<◌, ◌≡◌, ap, subst, ◌∙◌, arith, true, some, List, [], ◌∷◌, ◌++◌,
  get_elem?, if◌then◌else◌, ltb, ltb→lt, ltb-false→le, ◌⊎◌, same, same_iff, Member, All, Bool-cases,
  inl, inr, ◌==◌, ==_iff,
}
use tcpform_protocol_lab.Schedule.Plan.{PlannedStep, name_of, index_of, set_indegree, release}
use tcpform_protocol_lab.Schedule.Plan.Counts.{count, missing, standing, same_refl, standing-append}

module _ (planned : List PlannedStep) where
  -- The counts of Kahn's algorithm, with `pending` the dependents that are still to be released.
  pub record Counted (indegree : String → ℕ) (ready : List ℕ) (done pending : List String)
      : Type 0 where
    pub bounds :
        (p : PlannedStep)
        → Member p planned
        → missing done p.deps + count (name_of p) pending ≤ indegree (name_of p)
    pub settled : (n : String) → 0 < standing planned n ready + count n done → indegree n ≡ 0
    pub once : (n : String) → standing planned n ready + count n done ≤ 1

  -- The step of a name that is there stands at the index of the name.
  pub record Found (n : String) : Type 0 where
    pub step : PlannedStep
    pub member : Member step planned
    pub named : name_of step ≡ n
    pub stands : get_elem? planned (index_of planned n 0) ≡ some step

  -- What one release does to the count of a name among the ready steps.
  abbrev pushed : String → (String → ℕ) → List ℕ → List ℕ
  pushed dependent indegree ready =
      if indegree dependent - 1 == 0 then ready ++ (index_of planned dependent 0 ∷ []) else ready

  standing-pushed :
      (dependent n : String) (indegree : String → ℕ) (ready : List ℕ)
      → Found dependent
      → (standing planned n (pushed dependent indegree ready) ≡ standing planned n ready)
        ⊎ (indegree dependent - 1 ≡ 0)
          × (same dependent n ≡ true)
          × (standing planned n (pushed dependent indegree ready) ≡ suc (standing planned n ready))
  unfolding standing
  standing-pushed dependent n indegree ready f =
      let at_end = standing-append planned n ready (index_of planned dependent 0) in
      elim (Bool-cases (indegree dependent - 1 == 0)) [
        | inl z ↦ elim (Bool-cases (same dependent n)) [
          | inl e ↦ inr ((==_iff _ 0).0 z, e, rw z (at_end ∙ rw (f.stands, f.named, e)))
          | inr e ↦ inl (rw z (at_end ∙ rw (f.stands, f.named, e)))
        ]
        | inr z ↦ inl (rw z)
      ]

  module _ (dependent : String) (rest : List String) (indegree : String → ℕ) (ready : List ℕ)
      (done : List String) (f : Found dependent)
      (h : Counted indegree ready done (dependent ∷ rest)) where
    waits : 0 < indegree dependent
    unfolding count
    waits =
        let bound = rw (f.named, same_refl dependent) at (h.bounds f.step f.member) in
        omega (arith, bound)

    not_placed : standing planned dependent ready + count dependent done ≡ 0
    not_placed =
        elim (Bool-cases (ltb 0 (standing planned dependent ready + count dependent done))) [
          | inl p ↦ absurd (omega (arith, waits, h.settled dependent (ltb→lt _ _ p)))
          | inr p ↦ omega (arith, ltb-false→le _ _ p)
        ]

    same_counts :
        (n : String) → same dependent n ≡ true → (standing planned n ready + count n done ≡ 0)
    same_counts n e =
        subst (λ (t : String). standing planned t ready + count t done ≡ 0)
          ((same_iff dependent n).0 e) not_placed

    bounds_after :
        (p : PlannedStep)
        → Member p planned
        → missing done p.deps + count (name_of p) rest
          ≤ set_indegree indegree dependent (indegree dependent - 1) (name_of p)
    unfolding count
    bounds_after p m =
        let bound = h.bounds p m in
        elim (Bool-cases (same dependent (name_of p))) [
          | inl e ↦
              let equal : indegree dependent ≡ indegree (name_of p) =
                ap indegree ((same_iff _ _).0 e) in
              let bound_same = rw e at bound in rw e (omega (arith, bound_same, equal))
          | inr e ↦ let bound_other = rw e at bound in rw e bound_other
        ]

    settled_after :
        (n : String)
        → 0 < standing planned n (pushed dependent indegree ready) + count n done
        → set_indegree indegree dependent (indegree dependent - 1) n ≡ 0
    settled_after n pos = elim (standing-pushed dependent n indegree ready f) [
      | inr (z, e, grows) ↦ rw (e, z)
      | inl stays ↦ elim (Bool-cases (same dependent n)) [
        | inl e ↦ absurd (omega (arith, pos, stays, same_counts n e))
        | inr e ↦ rw e (h.settled n (omega (arith, pos, stays)))
      ]
    ]

    once_after :
        (n : String) → standing planned n (pushed dependent indegree ready) + count n done ≤ 1
    once_after n = elim (standing-pushed dependent n indegree ready f) [
      | inr (z, e, grows) ↦ omega (arith, grows, same_counts n e)
      | inl stays ↦ omega (arith, stays, h.once n)
    ]

    release-Counted :
        Counted
          (set_indegree indegree dependent (indegree dependent - 1))
          (pushed dependent indegree ready)
          done
          rest
    release-Counted = record { bounds = bounds_after; settled = settled_after; once = once_after }

  pub releases-Counted :
      (pending : List String) (indegree : String → ℕ) (ready : List ℕ) (done : List String)
      → All Found pending
      → Counted indegree ready done pending
      → Counted
          (release planned pending indegree ready).0
          (release planned pending indegree ready).1
          done
          []
  unfolding release
  releases-Counted [] indegree ready done f h = h
  releases-Counted (dependent ∷ rest) indegree ready done (f, fs) h =
      releases-Counted rest (set_indegree indegree dependent (indegree dependent - 1))
        (pushed dependent indegree ready) done fs
        (release-Counted dependent rest indegree ready done f h)
