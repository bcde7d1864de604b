-- ===== src/Schedule/Plan/Counts.antt =====
-- Counting names in the lists of `plan` (src/graph.rs): what is ready, what is done, what is missing.
use Prim.Native.String.{String}
use tcpform_protocol_lab.Base.{
  ℕ, suc, ◌+◌, ◌≡◌, refl, sym, ap, ◌∙◌, arith, Bool, true, false, Option, none, some, List, [], ◌∷◌,
  ◌++◌, get_elem?, ltb, if◌then◌else◌, same, same_iff, contains, All, Bool-cases, inl, inr,
}
use tcpform_protocol_lab.Schedule.Plan.{PlannedStep, name_of, edges_from, insert, sort}

-- How often a name stands in a list.
unfoldable pub count : String → List String → ℕ
count n [] = 0
count n (x ∷ xs) = if same x n then suc (count n xs) else count n xs

-- How many dependencies are not done.
unfoldable pub missing : List String → List String → ℕ
missing done [] = 0
missing done (d ∷ deps) = if contains done d then missing done deps else suc (missing done deps)

abbrev pub has_name : Option PlannedStep → String → Bool
has_name none n = false
has_name (some p) n = same (name_of p) n

-- How often the step of a name stands among indices.
unfoldable pub standing : List PlannedStep → String → List ℕ → ℕ
standing planned n [] = 0
standing planned n (i ∷ rest) =
    if has_name (get_elem? planned i) n
    then suc (standing planned n rest)
    else standing planned n rest

pub same_refl : (s : String) → same s s ≡ true
same_refl s = (same_iff s s).1 refl

pub count-append : (n : String) (xs ys : List String) → count n (xs ++ ys) ≡ count n xs + count n ys
unfolding count
count-append n [] ys = omega arith
count-append n (x ∷ xs) ys =
    let h = count-append n xs ys in
    elim (Bool-cases (same x n)) [
      | inl e ↦ rw e (omega (arith, h))
      | inr e ↦ rw e (omega (arith, h))
    ]

pub standing-append :
    (planned : List PlannedStep) (n : String) (xs : List ℕ) (i : ℕ)
    → standing planned n (xs ++ (i ∷ [])) ≡ standing planned n (i ∷ xs)
unfolding standing
standing-append planned n [] i = refl
standing-append planned n (x ∷ xs) i =
    let h = standing-append planned n xs i in
    elim (Bool-cases (has_name (get_elem? planned x) n)) [
      | inl e ↦ elim (Bool-cases (has_name (get_elem? planned i) n)) [
        | inl f ↦ rw (e, f) (omega (arith, rw f at h))
        | inr f ↦ rw (e, f) (omega (arith, rw f at h))
      ]
      | inr e ↦ rw e (h)
    ]

standing-insert :
    (planned : List PlannedStep) (n : String) (i : ℕ) (xs : List ℕ)
    → standing planned n (insert i xs) ≡ standing planned n (i ∷ xs)
unfolding standing insert
standing-insert planned n i [] = refl
standing-insert planned n i (j ∷ xs) =
    let h = standing-insert planned n i xs in
    elim (Bool-cases (ltb j i)) [
      | inl l ↦ elim (Bool-cases (has_name (get_elem? planned j) n)) [
        | inl e ↦ elim (Bool-cases (has_name (get_elem? planned i) n)) [
          | inl f ↦ rw (l, e, f) (omega (arith, rw f at h))
          | inr f ↦ rw (l, e, f) (omega (arith, rw f at h))
        ]
        | inr e ↦ rw (l, e) h
      ]
      | inr l ↦ rw l
    ]

pub standing-sort :
    (planned : List PlannedStep) (n : String) (xs : List ℕ)
    → standing planned n (sort xs) ≡ standing planned n xs
unfolding standing sort
standing-sort planned n [] = refl
standing-sort planned n (i ∷ xs) =
    let h = standing-sort planned n xs in
    standing-insert planned n i (sort xs) ∙ elim (Bool-cases (has_name (get_elem? planned i) n)) [
      | inl e ↦ rw e (ap suc h)
      | inr e ↦ rw e h
    ]

count-contains : (n : String) (xs : List String) → count n xs ≡ 0 → contains xs n ≡ false
unfolding count
count-contains n [] h = refl
count-contains n (x ∷ xs) h = elim (Bool-cases (same x n)) [
  | inl e ↦ absurd (omega (arith, rw e at h))
  | inr e ↦ rw e (count-contains n xs (rw e at h))
]

-- A name that becomes done is missing no longer.
pub missing-done :
    (s : String) (done deps : List String)
    → count s done ≡ 0
    → missing (s ∷ done) deps + count s deps ≡ missing done deps
unfolding missing count
missing-done s done [] h = refl
missing-done s done (d ∷ deps) h =
    let ih = missing-done s done deps h in
    elim (Bool-cases (same d s)) [
      | inl e ↦
          let equal : d ≡ s = (same_iff d s).0 e in
          let turned : same s d ≡ true = rw equal (same_refl s) in
          let absent : contains done d ≡ false = rw equal (count-contains s done h) in
          rw (e, turned, absent) (omega (arith, ih))
      | inr e ↦
          let other : same s d ≡ false = elim (Bool-cases (same s d)) [
            | inl f ↦
                let equal : s ≡ d = (same_iff s d).0 f in
                let turn : same d s ≡ true = (same_iff d s).1 (sym equal) in cc
            | inr f ↦ f
          ] in
          elim (Bool-cases (contains done d)) [
            | inl c ↦ rw (e, other, c) ih
            | inr c ↦ rw (e, other, c) (omega (arith, ih))
          ]
    ]

pub missing-zero :
    (done deps : List String) → missing done deps ≡ 0 → All (λ d. contains done d ≡ true) deps
unfolding missing
missing-zero done [] h = tt
missing-zero done (d ∷ deps) h = elim (Bool-cases (contains done d)) [
  | inl c ↦ (c, missing-zero done deps (rw c at h))
  | inr c ↦ absurd (omega (arith, rw c at h))
]

-- The edges of a step to its dependents, counted.
pub count-edges_from :
    (s dependent n : String) (deps : List String)
    → count n (edges_from s dependent deps) ≡ (if same dependent n then count s deps else 0)
unfolding count edges_from
count-edges_from s dependent n [] = elim (Bool-cases (same dependent n)) [
  | inl e ↦ rw e
  | inr e ↦ rw e
]
count-edges_from s dependent n (d ∷ deps) =
    let h = count-edges_from s dependent n deps in
    elim (Bool-cases (same d s)) [
      | inl f ↦ elim (Bool-cases (same dependent n)) [
        | inl e ↦ rw (f, e) (ap suc (rw e at h))
        | inr e ↦ rw (f, e) (rw e at h)
      ]
      | inr f ↦ rw f h
    ]
