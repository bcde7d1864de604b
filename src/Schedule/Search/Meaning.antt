-- ===== src/Schedule/Search/Meaning.antt =====
-- What the words of a report of src/model_check.rs mean, told from the steps of the plan alone: which
-- schedules the plan has, the states that they lead to, and what breaks an invariant.
use Prim.Native.String.{String}
use tcpform_protocol_lab.Base.{
  ℕ, ◌<◌, ◌≡◌, ◌≢◌, ◌⊎◌, Bool, true, false, ◌&&◌, ◌||◌, Option, none, some, List, [], ◌∷◌, ◌++◌,
  length, get_or, get_elem?, set, replicate, map, ◌==◌, same, All, Member,
}
use tcpform_protocol_lab.Schedule.Protocol.{
  Value, boolean, computed, InvariantKind, never_state, eventually_state, state_implies, Invariant,
}
use tcpform_protocol_lab.Schedule.Plan.{PlannedStep, name_of}
use tcpform_protocol_lab.Schedule.Checker.{
  ViolationKind, invariant, liveness, deadlock, Violation, Setting, position,
}

-- The steps taken so far, the last one first: which step, and whether it was run or skipped.
abbrev pub History : Type 0
History = List (ℕ × Bool)

unfoldable pub has_taken : ℕ → History → Bool
has_taken k [] = false
has_taken k ((i, run) ∷ history) = i == k || has_taken k history

-- The steps in the order in which they were taken.
unfoldable pub in_order : History → List ℕ
in_order [] = []
in_order ((i, run) ∷ history) = in_order history ++ (i ∷ [])

-- A step that is run moves its role to the state that it names.
abbrev pub moved_to : List String → List String → String → Option String → Bool → List String
moved_to roles states role none run = states
moved_to roles states role (some target) false = states
moved_to roles states role (some target) true = set states (position roles role) target

abbrev pub moved : List String → List String → Option PlannedStep → Bool → List String
moved roles states none run = states
moved roles states (some p) run = moved_to roles states p.step.role p.step.to_state run

-- The state of each role.
unfoldable pub states_after : Setting → History → List String
states_after setting [] = replicate (length setting.roles) "initial"
states_after setting ((i, run) ∷ history) =
    moved setting.roles (states_after setting history) (get_elem? setting.order i) run

abbrev pub state_after : Setting → History → String → String
state_after setting history role =
    get_or (states_after setting history) (position setting.roles role) ""

abbrev pub brought : Invariant → String → Option String → Bool → Bool
brought i role none run = false
brought i role (some target) run = run && (same role i.role && same target i.state)

abbrev pub brings : Invariant → Option PlannedStep → Bool → Bool
brings i none run = false
brings i (some p) run = brought i p.step.role p.step.to_state run

-- Whether the role of the invariant has ever been in its state.
unfoldable pub has_entered : Setting → Invariant → History → Bool
has_entered setting i [] = same i.state "initial"
has_entered setting i ((k, run) ∷ history) =
    brings i (get_elem? setting.order k) run || has_entered setting i history

-- Whether a condition lets a step be run (true) or skipped (false).
abbrev pub MayTurnOut : Option Value → Bool → Type 0
MayTurnOut none run = run ≡ true
MayTurnOut (some (boolean b)) run = run ≡ b
MayTurnOut (some computed) run = Unit

abbrev pub MayStart : Option String → String → Type 0
MayStart none current = Unit
MayStart (some required) current = (required ≡ "*") ⊎ (required ≡ current)

-- The step can be taken next, to be run or skipped: it is new, the steps that it depends on have been
-- taken, its condition may turn out so, and where it is run, its role is in the state that it starts
-- from.
pub record IsReady (setting : Setting) (history : History) (option : ℕ × Bool) : Type 0 where
  pub planned : PlannedStep
  pub is_step : get_elem? setting.order option.0 ≡ some planned
  pub new : has_taken option.0 history ≡ false
  pub behind :
      All
        (λ (d : String). has_taken (position (map name_of setting.order) d) history ≡ true)
        planned.deps
  pub turns_out : MayTurnOut planned.step.condition option.1
  pub starts :
      (option.1 ≡ false)
      ⊎ MayStart planned.step.from_state (state_after setting history planned.step.role)

-- Each step was ready when it was taken.
abbrev pub IsSchedule : Setting → History → Type 0
IsSchedule setting [] = Unit
IsSchedule setting (option ∷ history) = IsReady setting history option × IsSchedule setting history

-- What breaks an invariant in a state.
abbrev pub IsBrokenAs : InvariantKind → Setting → History → Invariant → Type 0
IsBrokenAs never_state setting history i = state_after setting history i.role ≡ i.state
IsBrokenAs state_implies setting history i =
    (state_after setting history i.role ≡ i.state)
    × (role : String) × (state : String) × (i.implies_role ≡ some role)
    × (i.implies_state ≡ some state)
    × (state_after setting history role ≢ state)
IsBrokenAs eventually_state setting history i = ⊥

-- What is wrong after a schedule, for each kind of violation.
abbrev pub Blamed : Setting → History → ViolationKind → Option String → Type 0
Blamed setting history invariant name =
    (i : Invariant) × Member i setting.invariants
    × (name ≡ some i.name)
    × IsBrokenAs i.kind setting history i
Blamed setting history liveness name =
    ((k : ℕ) → k < length setting.order → has_taken k history ≡ true)
    × (i : Invariant) × Member i setting.invariants
    × (i.kind ≡ eventually_state)
    × (name ≡ some i.name)
    × (has_entered setting i history ≡ false)
Blamed setting history deadlock name =
    ((k : ℕ) × (k < length setting.order) × (has_taken k history ≡ false))
    × (name ≡ none)
    × ((option : ℕ × Bool) → ¬ IsReady setting history option)

abbrev pub step_label : Option PlannedStep → String
step_label none = ""
step_label (some p) = name_of p

-- A violation that a schedule of the plan commits: the counterexample names its steps in their order,
-- and the roles are reported in the states that it leads to.
pub record Justified (setting : Setting) (v : Violation) : Type 0 where
  pub history : History
  pub schedule : IsSchedule setting history
  pub counterexample :
      v.counterexample ≡ map (λ (i : ℕ). step_label (get_elem? setting.order i)) (in_order history)
  pub roles : map (λ (p : String × String). p.0) v.role_states ≡ setting.roles
  pub states : map (λ (p : String × String). p.1) v.role_states ≡ states_after setting history
  pub blamed : Blamed setting history v.kind v.invariant_name
