-- ===== src/Schedule/Protocol.antt =====
-- `Protocol`, `Step` and `Invariant` of src/model.rs, with the fields that the planner and the model
-- checker read.
use Prim.Native.String.{String}
use tcpform_protocol_lab.Base.{Bool, List, Option}

-- `Value` of src/value.rs as the condition of a step: a constant, or anything else.
pub data Value : Type 0 where
  boolean : Bool → Value
  computed : Value

pub record Step : Type 0 where
  pub name : String
  pub role : String
  pub depends_on : List String
  pub from_state : Option String
  pub to_state : Option String
  pub condition : Option Value

pub data InvariantKind : Type 0 where
  never_state eventually_state state_implies : InvariantKind

pub record Invariant : Type 0 where
  pub name : String
  pub kind : InvariantKind
  pub role : String
  pub state : String
  pub implies_role : Option String
  pub implies_state : Option String

pub record Protocol : Type 0 where
  pub name : String
  pub steps : List Step
  pub invariants : List Invariant
