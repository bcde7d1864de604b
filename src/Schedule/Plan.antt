-- ===== src/Schedule/Plan.antt =====
-- `plan` of src/graph.rs. A map from step names is the list of planned steps in the order of their
-- declaration, whose names are unique by then, or a function.
pub mod Counts
pub mod Release
pub mod Names
pub mod Order
pub mod Planned
use Prim.Native.String.{String}
use tcpform_protocol_lab.Base.{
  ℕ, zero, suc, ◌-◌, not, Option, none, some, List, [], ◌∷◌, ◌++◌, length, get_elem?, ltb, ◌==◌,
  if◌then◌else◌, Result, ok, err, ◌>>=◌, ◌>>◌, refuse_if, same, contains, lookup, map,
}
use tcpform_protocol_lab.Schedule.Protocol.{Step, Protocol}

-- The messages; where the error stands in the source file is left out.
pub data PlanError : Type 0 where
  duplicate_step : String → PlanError
  unknown_step : String → String → PlanError
  cycle : List String → PlanError
  -- no message of the code: the loop of the model has used up its fuel
  out_of_fuel : PlanError

pub record PlannedStep : Type 0 where
  pub step : Step
  pub deps : List String

pub record Plan : Type 0 where
  pub protocol_name : String
  pub roles : List String
  pub order : List PlannedStep

abbrev pub name_of : PlannedStep → String
name_of planned = planned.step.name

-- 1. Every name is new.
unfoldable pub check_names : List String → List Step → Result PlanError (Unit {0})
check_names seen [] = ok tt
check_names seen (s ∷ steps) = do
  refuse_if (contains seen s.name) (duplicate_step s.name)
  check_names (s.name ∷ seen) steps

-- 2. for e in &s.depends_on { if !d.contains(e) { d.push(e.clone()) } }
unfoldable pub add_deps : List String → List String → List String
add_deps d [] = d
add_deps d (e ∷ rest) = if contains d e then add_deps d rest else add_deps (d ++ (e ∷ [])) rest

abbrev pub previous : Option String → List String
previous none = []
previous (some name) = name ∷ []

unfoldable pub resolve_deps : List (String × String) → List Step → List PlannedStep
unfolding add_deps
resolve_deps prev_in_role [] = []
resolve_deps prev_in_role (s ∷ steps) =
    record { step = s; deps = add_deps (previous (lookup s.role prev_in_role)) s.depends_on }
    ∷ resolve_deps ((s.role, s.name) ∷ prev_in_role) steps

-- `roles_seen`, from the roles that have been seen.
unfoldable pub roles_of : List String → List Step → List String
roles_of seen [] = []
roles_of seen (s ∷ steps) =
    if contains seen s.role then roles_of seen steps else s.role ∷ roles_of (s.role ∷ seen) steps

-- 3. Every explicit dependency is a step.
unfoldable pub check_references : List String → String → List String → Result PlanError (Unit {0})
check_references names step [] = ok tt
check_references names step (e ∷ rest) = do
  refuse_if (not (contains names e)) (unknown_step step e)
  check_references names step rest

unfoldable pub check_steps : List String → List Step → Result PlanError (Unit {0})
unfolding check_references
check_steps names [] = ok tt
check_steps names (s ∷ steps) = do
  check_references names s.name s.depends_on
  check_steps names steps

-- 4. The state of Kahn's algorithm. `indegree` is the map `indeg`.
pub record Kahn : Type 0 where
  pub indegree : String → ℕ
  pub ready : List ℕ
  pub order : List PlannedStep
  pub done : List String

-- `deps[name].len()`, zero for a name that is not there.
unfoldable pub initial_indegree : List PlannedStep → String → ℕ
initial_indegree [] name = 0
initial_indegree (p ∷ planned) name =
    if same (name_of p) name then length p.deps else initial_indegree planned name

unfoldable pub edges_from : String → String → List String → List String
edges_from name dependent [] = []
edges_from name dependent (d ∷ deps) =
    if same d name
    then dependent ∷ edges_from name dependent deps
    else edges_from name dependent deps

-- `adj[name]`.
unfoldable pub dependents : List PlannedStep → String → List String
unfolding edges_from
dependents [] name = []
dependents (p ∷ planned) name = edges_from name (name_of p) p.deps ++ dependents planned name

-- `by_name[name]`, counted from `i`; the code looks up the names of steps only.
unfoldable pub index_of : List PlannedStep → String → ℕ → ℕ
index_of [] name i = i
index_of (p ∷ planned) name i = if same (name_of p) name then i else index_of planned name (suc i)

-- The indices of the steps without a dependency, from `i`.
unfoldable pub initial_ready : List PlannedStep → ℕ → List ℕ
initial_ready [] i = []
initial_ready (p ∷ planned) i =
    if length p.deps == 0 then i ∷ initial_ready planned (suc i) else initial_ready planned (suc i)

unfoldable pub insert : ℕ → List ℕ → List ℕ
insert i [] = i ∷ []
insert i (j ∷ rest) = if ltb j i then j ∷ insert i rest else i ∷ j ∷ rest

unfoldable pub sort : List ℕ → List ℕ
unfolding insert
sort [] = []
sort (i ∷ rest) = insert i (sort rest)

-- indeg.insert(name, n)
abbrev pub set_indegree : (String → ℕ) → String → ℕ → String → ℕ
set_indegree indegree name n other = if same name other then n else indegree other

-- for dependent in adj[&s.name].clone() { .. }
unfoldable pub release :
    List PlannedStep → List String → (String → ℕ) → List ℕ → (String → ℕ) × List ℕ
unfolding index_of
release planned [] indegree ready = (indegree, ready)
release planned (dependent ∷ rest) indegree ready =
    let e = indegree dependent - 1 in
    release planned rest (set_indegree indegree dependent e)
      (if e == 0 then ready ++ (index_of planned dependent 0 ∷ []) else ready)

-- One round, behind `pop_front`.
unfoldable pub place : List PlannedStep → Kahn → PlannedStep → List ℕ → Kahn
unfolding release dependents sort
place planned kahn p rest =
    let released = release planned (dependents planned (name_of p)) kahn.indegree rest in
    record {
      indegree = released.0;
      ready = sort released.1;
      order = kahn.order ++ (p ∷ []);
      done = name_of p ∷ kahn.done;
    }

-- `ready` holds indices of steps only.
unfoldable pub place_at : List PlannedStep → Kahn → Option PlannedStep → List ℕ → Kahn
unfolding place
place_at planned kahn none rest = record kahn { ready = rest }
place_at planned kahn (some p) rest = place planned kahn p rest

-- while let Some(i) = ready.pop_front()
unfoldable pub kahn_loop : List PlannedStep → ℕ → Kahn → List ℕ → Result PlanError Kahn
unfolding place_at
kahn_loop planned fuel kahn [] = ok kahn
kahn_loop planned zero kahn (i ∷ rest) = err out_of_fuel
kahn_loop planned (suc fuel) kahn (i ∷ rest) =
    let next = place_at planned kahn (get_elem? planned i) rest in
    kahn_loop planned fuel next next.ready

unfoldable pub remaining : List String → List PlannedStep → List String
remaining done [] = []
remaining done (p ∷ planned) =
    if contains done (name_of p) then remaining done planned else name_of p ∷ remaining done planned

-- A step is placed at most once: as many rounds as steps are enough.
unfoldable pub plan : Protocol → Result PlanError Plan
unfolding check_names resolve_deps roles_of check_steps initial_indegree initial_ready kahn_loop
    remaining
plan protocol = do
  check_names [] protocol.steps
  let planned = resolve_deps [] protocol.steps
  check_steps (map (λ (s : Step). s.name) protocol.steps) protocol.steps
  let start : Kahn = record {
    indegree = initial_indegree planned;
    ready = initial_ready planned 0;
    order = [];
    done = [];
  }
  kahn ← kahn_loop planned (length planned) start (initial_ready planned 0)
  refuse_if (not (length kahn.order == length protocol.steps)) (cycle (remaining kahn.done planned))
  ok (record {
    protocol_name = protocol.name;
    roles = roles_of [] protocol.steps;
    order = kahn.order;
  })
