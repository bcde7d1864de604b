-- ===== src/Examples/Schedules.antt =====
-- The theorems on the planner and the model checker, at the protocol of a test of
-- src/model_check.rs.
use Prim.Native.String.{String}
use tcpform_protocol_lab.Base.{
  length, Member, ◌≤◌, ◌≡◌, ◌≢◌, refl, [], ◌∷◌, none, some, true, ok, err, All,
}
use tcpform_protocol_lab.Schedule.Protocol
use tcpform_protocol_lab.Schedule.Protocol.{Step, Invariant, Protocol}
use tcpform_protocol_lab.Schedule.Plan.{Plan, plan, resolve_deps}
use tcpform_protocol_lab.Schedule.Plan.Counts.{count}
use tcpform_protocol_lab.Schedule.Plan.Names.{names}
use tcpform_protocol_lab.Schedule.Plan.Order.{IsOrdered}
use tcpform_protocol_lab.Schedule.Plan.Planned.{plan-IsOrdered}
use tcpform_protocol_lab.Schedule.Checker
use tcpform_protocol_lab.Schedule.Checker.{CheckError}
use tcpform_protocol_lab.Schedule.Search.{ModelCheckReport, check, setting_of}
use tcpform_protocol_lab.Schedule.Search.Meaning.{Justified}
use tcpform_protocol_lab.Schedule.Search.Sound.{check-Justified}
use tcpform_protocol_lab.Schedule.Search.Total.{check-ne-out_of_fuel}

abbrev bad : Step
bad = record {
  name = "bad";
  role = "client";
  depends_on = [];
  from_state = some "initial";
  to_state = some "error";
  condition = none;
}

abbrev blocked : Step
blocked = record {
  name = "blocked";
  role = "client";
  depends_on = [];
  from_state = some "ready";
  to_state = none;
  condition = none;
}

abbrev safe : Invariant
safe = record {
  name = "safe";
  kind = Protocol.never_state;
  role = "client";
  state = "error";
  implies_role = none;
  implies_state = none;
}

abbrev lab : Protocol
lab = record { name = "p"; steps = bad ∷ blocked ∷ []; invariants = safe ∷ [] }

abbrev found : ModelCheckReport
found = record {
  protocol = "p";
  complete = true;
  states_explored = 2;
  transitions_explored = 1;
  violations =
      record {
        kind = Checker.invariant;
        invariant_name = some "safe";
        counterexample = "bad" ∷ [];
        role_states = ("client", "error") ∷ [];
      }
      ∷ record {
        kind = Checker.deadlock;
        invariant_name = none;
        counterexample = "bad" ∷ [];
        role_states = ("client", "error") ∷ [];
      }
      ∷ [];
  unreachable_steps = "blocked" ∷ [];
}

-- The report that the test of src/model_check.rs expects.
lab_checked : check lab 100 ≡ ok found
unfolding check Checker.enabled Checker.advance Checker.all_completed
lab_checked = refl

check-Justified_example :
    (p : Plan) × (plan lab ≡ ok p) × All (Justified (setting_of (safe ∷ []) p)) found.violations
check-Justified_example = check-Justified lab 100 found lab_checked

check-ne-out_of_fuel_example : check lab 100 ≢ err Checker.out_of_fuel
check-ne-out_of_fuel_example = check-ne-out_of_fuel lab 100

-- The answer is declared before the question that it depends on.
abbrev answer : Step
answer = record bad { name = "answer"; role = "server"; depends_on = "ask" ∷ [] }

abbrev ask : Step
ask = record bad { name = "ask" }

abbrev dialogue : Protocol
dialogue = record { name = "d"; steps = answer ∷ ask ∷ []; invariants = [] }

abbrev dialogue_plan : Plan
dialogue_plan = record {
  protocol_name = "d";
  roles = "server" ∷ "client" ∷ [];
  order = record { step = ask; deps = [] } ∷ record { step = answer; deps = "ask" ∷ [] } ∷ [];
}

dialogue_planned : plan dialogue ≡ ok dialogue_plan
unfolding plan
dialogue_planned = refl

plan-IsOrdered_example :
    IsOrdered [] dialogue_plan.order
    × (length dialogue_plan.order ≡ 2)
    × ((n : String) → count n (names dialogue_plan.order) ≤ 1)
    × All (λ q. Member q (resolve_deps [] (answer ∷ ask ∷ []))) dialogue_plan.order
plan-IsOrdered_example = plan-IsOrdered dialogue dialogue_plan dialogue_planned
