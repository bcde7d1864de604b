-- ===== src/Schedule/Search.antt =====
-- `check`, `check_safety`, `check_liveness` and `add_violation` of src/model_check.rs: the loop of the
-- exploration and what it reports.
pub mod Meaning
pub mod Follows
pub mod Ready
pub mod Blame
pub mod Sound
pub mod Total
use Prim.Native.String.{String}
use tcpform_protocol_lab.Base.{
  ℕ, zero, suc, ◌+◌, ◌*◌, Bool, true, false, not, ◌&&◌, ◌||◌, Option, none, some, List, [], ◌∷◌,
  ◌++◌, length, get_or, get_elem?, map, min, ltb, ◌==◌, if◌then◌else◌, Result, ok, err, ◌>>=◌, ◌>>◌,
  refuse_if, same, contains,
}
use tcpform_protocol_lab.Schedule.Protocol.{
  InvariantKind, never_state, eventually_state, state_implies, Invariant, Protocol, Step,
}
use tcpform_protocol_lab.Schedule.Plan.{PlanError, PlannedStep, Plan, plan, name_of}
use tcpform_protocol_lab.Schedule.Checker.{
  CheckError, no_states, plan_failed, out_of_fuel, State, ViolationKind, invariant, liveness,
  deadlock, Violation, Setting, position, check_invariants, eventual, initial_state, all_completed,
  enabled, state_of, advance,
}

-- `violations` and `violation_keys`.
pub record Findings : Type 0 where
  pub violations : List Violation
  pub keys : List (ViolationKind × Option String)

pub record Search : Type 0 where
  pub queue : List State
  pub visited : List State
  pub reached_steps : List ℕ
  pub findings : Findings
  pub transitions_explored : ℕ
  pub complete : Bool

pub record ModelCheckReport : Type 0 where
  pub protocol : String
  pub complete : Bool
  pub states_explored : ℕ
  pub transitions_explored : ℕ
  pub violations : List Violation
  pub unreachable_steps : List String

abbrev pub kind_eq : ViolationKind → ViolationKind → Bool
kind_eq invariant invariant = true
kind_eq liveness liveness = true
kind_eq deadlock deadlock = true
kind_eq _ _ = false

abbrev pub option_eq : Option String → Option String → Bool
option_eq none none = true
option_eq (some a) (some b) = same a b
option_eq _ _ = false

unfoldable pub has_key : ViolationKind → Option String → List (ViolationKind × Option String) → Bool
has_key kind name [] = false
has_key kind name ((k, n) ∷ keys) = (kind_eq k kind && option_eq n name) || has_key kind name keys

abbrev pub step_name : Option PlannedStep → String
step_name none = ""
step_name (some p) = name_of p

-- The keys and the values of a map; the roles of a plan are unique.
unfoldable pub zip : List String → List String → List (String × String)
zip [] states = []
zip (r ∷ roles) [] = []
zip (r ∷ roles) (s ∷ states) = (r, s) ∷ zip roles states

-- The report on a state.
unfoldable pub violation_at : Setting → State → ViolationKind → Option String → Violation
unfolding zip
violation_at setting state kind name = record {
  kind = kind;
  invariant_name = name;
  counterexample = map (λ (i : ℕ). step_name (get_elem? setting.order i)) state.path;
  role_states = zip setting.roles state.role_states;
}

unfoldable pub add_violation : Setting → State → ViolationKind → Option String → Findings → Findings
unfolding has_key violation_at
add_violation setting state kind name found =
    if has_key kind name found.keys then found else record {
      violations = found.violations ++ (violation_at setting state kind name ∷ []);
      keys = (kind, name) ∷ found.keys;
    }

-- The second half of an implication: the interpreter gives both names to each of them, and the code
-- panics where one is missing.
abbrev pub other_fails : Setting → State → Option String → Option String → Bool
other_fails setting state (some role) (some expected) =
    not (same (state_of setting state role) expected)
other_fails setting state _ _ = false

abbrev pub fails_as : InvariantKind → Bool → Bool → Bool
fails_as never_state here other = here
fails_as state_implies here other = here && other
fails_as eventually_state here other = false

unfoldable pub fails : Setting → State → Invariant → Bool
unfolding position
fails setting state i =
    fails_as i.kind (same (state_of setting state i.role) i.state)
      (other_fails setting state i.implies_role i.implies_state)

unfoldable pub check_safety : Setting → State → List Invariant → Findings → Findings
unfolding fails add_violation
check_safety setting state [] found = found
check_safety setting state (i ∷ invariants) found = check_safety setting state invariants (
    if fails setting state i
    then add_violation setting state invariant (some i.name) found
    else found)

-- The eventual invariants beside their bits.
unfoldable pub check_liveness : Setting → State → List Invariant → List Bool → Findings → Findings
unfolding add_violation
check_liveness setting state [] bits found = found
check_liveness setting state (i ∷ invariants) [] found = found
check_liveness setting state (i ∷ invariants) (reached ∷ bits) found =
    check_liveness setting state invariants bits
      (if reached then found else add_violation setting state liveness (some i.name) found)

unfoldable pub bits_eq : List Bool → List Bool → Bool
bits_eq [] [] = true
bits_eq (true ∷ xs) (true ∷ ys) = bits_eq xs ys
bits_eq (false ∷ xs) (false ∷ ys) = bits_eq xs ys
bits_eq _ _ = false

unfoldable pub names_eq : List String → List String → Bool
names_eq [] [] = true
names_eq (x ∷ xs) (y ∷ ys) = same x y && names_eq xs ys
names_eq _ _ = false

-- The key of `visited`: everything but the path.
unfoldable pub same_state : State → State → Bool
unfolding bits_eq names_eq
same_state a b =
    bits_eq a.completed b.completed
    && (names_eq a.role_states b.role_states && bits_eq a.reached_liveness b.reached_liveness)

unfoldable pub is_visited : State → List State → Bool
unfolding same_state
is_visited state [] = false
is_visited state (s ∷ visited) = same_state s state || is_visited state visited

-- What is found where no step is enabled.
unfoldable pub check_end : Setting → State → Findings → Findings
unfolding check_liveness add_violation eventual
check_end setting state found =
    if all_completed state.completed
    then check_liveness setting state (eventual setting.invariants) state.reached_liveness found
    else add_violation setting state deadlock none found

unfoldable pub check_state : Setting → State → List (ℕ × Bool) → Findings → Findings
unfolding check_safety check_end
check_state setting state [] found =
    check_end setting state (check_safety setting state setting.invariants found)
check_state setting state (o ∷ options) found = check_safety setting state setting.invariants found

-- A state that is new and within the limit: it is checked, and its successors are queued.
unfoldable pub visit : Setting → Search → State → List State → Search
unfolding check_state
visit setting search state rest =
    let options = enabled setting state in
    record {
      queue = rest ++ map (advance setting state) options;
      visited = state ∷ search.visited;
      reached_steps = map (λ (o : ℕ × Bool). o.0) options ++ search.reached_steps;
      findings = check_state setting state options search.findings;
      transitions_explored = search.transitions_explored + length options;
      complete = search.complete;
    }

-- What one round of the loop does: it goes on, or it breaks.
pub data Round : Type 0 where
  onward finished : Search → Round

unfoldable pub round : Setting → ℕ → Search → State → List State → Round
unfolding is_visited visit
round setting max_states search state rest =
    if is_visited state search.visited
    then onward (record search { queue = rest })
    else if ltb max_states (suc (length search.visited))
    then finished
        (record search { queue = rest; visited = state ∷ search.visited; complete = false })
    else onward (visit setting search state rest)

unfoldable pub explore : Setting → ℕ → ℕ → Search → List State → Result CheckError Search
unfolding round
explore setting max_states fuel search [] = ok search
explore setting max_states zero search (state ∷ rest) = err out_of_fuel
explore setting max_states (suc fuel) search (state ∷ rest) =
    elim (round setting max_states search state rest) [
      | finished after ↦ ok after
      | onward after ↦ explore setting max_states fuel after after.queue
    ]

unfoldable pub has_index : List ℕ → ℕ → Bool
has_index [] i = false
has_index (j ∷ rest) i = j == i || has_index rest i

unfoldable pub unreached : List PlannedStep → ℕ → List ℕ → List String
unfolding has_index
unreached [] i reached = []
unreached (p ∷ order) i reached =
    if has_index reached i
    then unreached order (suc i) reached
    else name_of p ∷ unreached order (suc i) reached

unfoldable pub setting_of : List Invariant → Plan → Setting
setting_of invariants plan = record {
  invariants = invariants;
  roles = plan.roles;
  order = plan.order;
  deps = map (λ (p : PlannedStep). map (position (map name_of plan.order)) p.deps) plan.order;
}

unfoldable pub report : String → ℕ → Setting → Search → ModelCheckReport
unfolding unreached
report protocol max_states setting search = record {
  protocol = protocol;
  complete = search.complete;
  states_explored = min (length search.visited) max_states;
  transitions_explored = search.transitions_explored;
  violations = search.findings.violations;
  unreachable_steps = unreached setting.order 0 search.reached_steps;
}

abbrev pub nothing_found : Search
nothing_found = record {
  queue = [];
  visited = [];
  reached_steps = [];
  findings = record { violations = []; keys = [] };
  transitions_explored = 0;
  complete = true;
}

-- A state has two successors for each step at most, and each round takes one state off the queue.
abbrev pub rounds : Setting → ℕ → ℕ
rounds setting max_states = suc (max_states * (2 * length setting.order))

unfoldable pub run_plan : Result PlanError Plan → Result CheckError Plan
run_plan (ok plan) = ok plan
run_plan (err e) = err (plan_failed e)

unfoldable pub search_plan : String → List Invariant → ℕ → Plan → Result CheckError ModelCheckReport
unfolding setting_of explore report initial_state
search_plan protocol invariants max_states plan = do
  let setting = setting_of invariants plan
  search ←
      explore setting max_states (rounds setting max_states) nothing_found
        (initial_state setting ∷ [])
  ok (report protocol max_states setting search)

unfoldable pub check : Protocol → ℕ → Result CheckError ModelCheckReport
unfolding plan run_plan check_invariants search_plan
check protocol max_states = do
  refuse_if (max_states == 0) no_states
  plan ← run_plan (plan protocol)
  check_invariants plan.roles protocol.invariants
  search_plan protocol.name protocol.invariants max_states plan
