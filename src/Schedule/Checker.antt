-- ===== src/Schedule/Checker.antt =====
-- `check` of src/model_check.rs: breadth-first exploration of the schedules of a plan. The sets of
-- the code are lists without repetitions.
use Prim.Native.String.{String}
use tcpform_protocol_lab.Base.{
  ℕ, suc, Bool, true, false, not, ◌&&◌, ◌||◌, Option, none, some, List, [], ◌∷◌, ◌++◌, length,
  get_or, get_elem?, set, replicate, map, if◌then◌else◌, Result, ok, ◌>>◌, refuse_if, same,
  contains,
}
use tcpform_protocol_lab.Schedule.Protocol.{
  Value, boolean, computed, InvariantKind, never_state, eventually_state, state_implies, Invariant,
  Step,
}
use tcpform_protocol_lab.Schedule.Plan.{PlanError, PlannedStep}

pub data CheckError : Type 0 where
  no_states : CheckError
  plan_failed : PlanError → CheckError
  unknown_role : String → String → CheckError
  -- no message of the code: the loop of the model has used up its fuel
  out_of_fuel : CheckError

pub record State : Type 0 where
  pub completed : List Bool
  pub role_states : List String
  pub reached_liveness : List Bool
  pub path : List ℕ

-- The kinds of a violation: "invariant", "liveness" and "deadlock".
pub data ViolationKind : Type 0 where
  invariant liveness deadlock : ViolationKind

-- The message is left out: it follows from the other fields.
pub record Violation : Type 0 where
  pub kind : ViolationKind
  pub invariant_name : Option String
  pub counterexample : List String
  pub role_states : List (String × String)

-- What the code looks up: the plan, its invariants, and `deps` as indices into the order.
pub record Setting : Type 0 where
  pub invariants : List Invariant
  pub roles : List String
  pub order : List PlannedStep
  pub deps : List (List ℕ)

-- The position of a name that is in the list; the code looks up no other.
unfoldable pub position : List String → String → ℕ
position [] name = 0
position (x ∷ xs) name = if same x name then 0 else suc (position xs name)

unfoldable pub check_role : List String → String → Option String → Result CheckError (Unit {0})
check_role roles name none = ok tt
check_role roles name (some role) = refuse_if (not (contains roles role)) (unknown_role name role)

unfoldable pub check_invariants : List String → List Invariant → Result CheckError (Unit {0})
unfolding check_role
check_invariants roles [] = ok tt
check_invariants roles (i ∷ invariants) = do
  check_role roles i.name (some i.role)
  check_role roles i.name i.implies_role
  check_invariants roles invariants

abbrev pub is_eventually : InvariantKind → Bool
is_eventually never_state = false
is_eventually eventually_state = true
is_eventually state_implies = false

-- The invariants that have a bit in `reached_liveness`.
unfoldable pub eventual : List Invariant → List Invariant
eventual [] = []
eventual (i ∷ invariants) =
    if is_eventually i.kind then i ∷ eventual invariants else eventual invariants

unfoldable pub initial_state : Setting → State
unfolding eventual
initial_state setting = record {
  completed = replicate (length setting.order) false;
  role_states = replicate (length setting.roles) "initial";
  reached_liveness = map (λ (i : Invariant). same i.state "initial") (eventual setting.invariants);
  path = [];
}

unfoldable pub all_completed : List Bool → Bool
all_completed [] = true
all_completed (b ∷ bits) = b && all_completed bits

unfoldable pub deps_completed : List Bool → List ℕ → Bool
deps_completed completed [] = true
deps_completed completed (d ∷ deps) = get_or completed d false && deps_completed completed deps

-- Whether the step is run, skipped, or either.
abbrev pub outcomes : Option Value → List Bool
outcomes none = true ∷ []
outcomes (some (boolean true)) = true ∷ []
outcomes (some (boolean false)) = false ∷ []
outcomes (some computed) = false ∷ true ∷ []

abbrev pub state_of : Setting → State → String → String
state_of setting state role = get_or state.role_states (position setting.roles role) ""

abbrev pub from_allows : Option String → String → Bool
from_allows none current = true
from_allows (some required) current = same required "*" || same required current

unfoldable pub allowed : Setting → State → Step → ℕ → List Bool → List (ℕ × Bool)
unfolding position
allowed setting state step index [] = []
allowed setting state step index (execute ∷ rest) =
    if not execute || from_allows step.from_state (state_of setting state step.role)
    then (index, execute) ∷ allowed setting state step index rest
    else allowed setting state step index rest

-- The loop over the order, from `index`.
unfoldable pub enabled_from :
    Setting → State → ℕ → List PlannedStep → List (List ℕ) → List (ℕ × Bool)
unfolding deps_completed allowed
enabled_from setting state index [] deps = []
enabled_from setting state index (p ∷ order) [] = []
enabled_from setting state index (p ∷ order) (d ∷ deps) =
    let later = enabled_from setting state (suc index) order deps in
    if get_or state.completed index false || not (deps_completed state.completed d)
    then later
    else allowed setting state p.step index (outcomes p.step.condition) ++ later

unfoldable pub enabled : Setting → State → List (ℕ × Bool)
unfolding enabled_from
enabled setting state = enabled_from setting state 0 setting.order setting.deps

abbrev pub enters : Option String → String → Bool
enters none target = false
enters (some state) target = same state target

unfoldable pub mark : Step → Bool → List Invariant → List Bool → List Bool
mark step execute [] bits = bits
mark step execute (i ∷ invariants) [] = []
mark step execute (i ∷ invariants) (b ∷ bits) =
    ((execute && (same step.role i.role && enters step.to_state i.state)) || b)
    ∷ mark step execute invariants bits

abbrev pub enter : Setting → List String → Step → Bool → Option String → List String
enter setting states step execute none = states
enter setting states step false (some target) = states
enter setting states step true (some target) = set states (position setting.roles step.role) target

abbrev pub run_step : Setting → State → ℕ → Bool → Step → State
run_step setting state index execute step = record {
  completed = set state.completed index true;
  role_states = enter setting state.role_states step execute step.to_state;
  reached_liveness = mark step execute (eventual setting.invariants) state.reached_liveness;
  path = state.path ++ (index ∷ []);
}

-- The state behind one enabled step; `index` is that of a step.
unfoldable pub advance : Setting → State → ℕ × Bool → State
unfolding mark
advance setting state (index, execute) = elim (get_elem? setting.order index) [
  | none ↦ state
  | some p ↦ run_step setting state index execute p.step
]
