-- ===== src/Schedule/Search/Follows.antt =====
-- The states of src/model_check.rs follow the schedules: what a state keeps is what its path means, and
-- the options that it has are the steps that are ready.
use Prim.Native.String.{String}
use mathlib.Core.Path.{ap₂}
use tcpform_protocol_lab.Base.{
  ℕ, zero, suc, ◌<◌, ◌≡◌, refl, ap, ◌∙◌, Bool, true, false, ◌&&◌, ◌||◌, Option, none, some, List,
  [], ◌∷◌, ◌++◌, length, get_or, get_elem?, set, replicate, map, ◌==◌, same, arith,
  length-replicate,
}
use tcpform_protocol_lab.Schedule.Protocol.{Invariant, Step}
use tcpform_protocol_lab.Schedule.Plan.{PlannedStep}
use tcpform_protocol_lab.Schedule.Checker.{
  State, Setting, position, eventual, initial_state, enters, mark, enter, advance,
}
use tcpform_protocol_lab.Schedule.Search.Meaning.{
  History, has_taken, in_order, moved_to, moved, brought, states_after, has_entered, IsReady,
  IsSchedule,
}

module _ {A : Type 0} where
  length-set : (xs : List A) (i : ℕ) (v : A) → length (set xs i v) ≡ length xs
  length-set [] i v = refl
  length-set (x ∷ xs) zero v = refl
  length-set (x ∷ xs) (suc i) v = ap suc (length-set xs i v)

  get_elem?-lt : (xs : List A) (i : ℕ) (a : A) → get_elem? xs i ≡ some a → i < length xs
  get_elem?-lt [] i a h = absurd (cc)
  get_elem?-lt (x ∷ xs) zero a h = omega arith
  get_elem?-lt (x ∷ xs) (suc i) a h = omega (arith, get_elem?-lt xs i a h)

get_or-set :
    (bits : List Bool) (i k : ℕ)
    → i < length bits
    → get_or (set bits i true) k false ≡ (i == k || get_or bits k false)
get_or-set [] i k h = absurd (omega arith)
get_or-set (b ∷ bits) zero zero h = refl
get_or-set (b ∷ bits) zero (suc k) h = ground arith
get_or-set (b ∷ bits) (suc i) zero h = ground arith
get_or-set (b ∷ bits) (suc i) (suc k) h = get_or-set bits i k (omega arith) ∙ ground arith

get_or-replicate : (n k : ℕ) → get_or (replicate n false) k false ≡ false
get_or-replicate zero k = refl
get_or-replicate (suc n) zero = refl
get_or-replicate (suc n) (suc k) = get_or-replicate n k

-- A state and the history that its path tells.
pub record Follows (setting : Setting) (state : State) : Type 0 where
  pub history : History
  pub schedule : IsSchedule setting history
  pub size : length state.completed ≡ length setting.order
  pub taken : (k : ℕ) → get_or state.completed k false ≡ has_taken k history
  pub places : state.role_states ≡ states_after setting history
  pub reached :
      state.reached_liveness
      ≡ map (λ (i : Invariant). has_entered setting i history) (eventual setting.invariants)
  pub told : state.path ≡ in_order history

pub initial_state-Follows : (setting : Setting) → Follows setting (initial_state setting)
unfolding initial_state has_taken in_order states_after has_entered
initial_state-Follows setting = record {
  history = [];
  schedule = tt;
  size = length-replicate (length setting.order) false;
  taken = λ k. get_or-replicate (length setting.order) k;
  places = refl;
  reached = refl;
  told = refl;
}

pub states_after-length :
    (setting : Setting) (history : History)
    → length (states_after setting history) ≡ length setting.roles
unfolding states_after
states_after-length setting [] = length-replicate (length setting.roles) "initial"
states_after-length setting ((i, run) ∷ history) =
    moved_length (get_elem? setting.order i) run (states_after setting history)
    ∙ states_after-length setting history
  where
    moved_to_length :
        (role : String) (target : Option String) (run : Bool) (states : List String)
        → length (moved_to setting.roles states role target run) ≡ length states
    moved_to_length role none run states = refl
    moved_to_length role (some target) true states =
        length-set states (position setting.roles role) target
    moved_to_length role (some target) false states = refl

    moved_length :
        (p : Option PlannedStep) (run : Bool) (states : List String)
        → length (moved setting.roles states p run) ≡ length states
    moved_length none run states = refl
    moved_length (some p) run states = moved_to_length p.step.role p.step.to_state run states

enter-moved_to :
    (setting : Setting) (states : List String) (step : Step) (run : Bool) (target : Option String)
    → enter setting states step run target ≡ moved_to setting.roles states step.role target run
enter-moved_to setting states step run none = refl
enter-moved_to setting states step true (some target) = refl
enter-moved_to setting states step false (some target) = refl

enters-brought :
    (i : Invariant) (role : String) (target : Option String) (run : Bool)
    → (run && (same role i.role && enters target i.state)) ≡ brought i role target run
enters-brought i role none run = ground arith
enters-brought i role (some target) run = refl

mark-has_entered :
    (setting : Setting) (i : ℕ) (run : Bool) (p : PlannedStep) (history : History)
    (invariants : List Invariant)
    → get_elem? setting.order i ≡ some p
    → mark p.step run invariants (map (λ (j : Invariant). has_entered setting j history) invariants)
      ≡ map (λ (j : Invariant). has_entered setting j ((i, run) ∷ history)) invariants
unfolding mark has_entered
mark-has_entered setting i run p history [] e = refl
mark-has_entered setting i run p history (j ∷ invariants) e =
    ap₂ (λ (b : Bool) (bits : List Bool). b ∷ bits)
      (rw (e, enters-brought j p.step.role p.step.to_state run) refl)
      (mark-has_entered setting i run p history invariants e)

-- A step that is ready, taken by the checker.
pub advance-Follows :
    (setting : Setting) (state : State) (option : ℕ × Bool) (f : Follows setting state)
    → IsReady setting (Follows.history f) option
    → Follows setting (advance setting state option)
unfolding advance has_taken in_order states_after
advance-Follows setting state (i, run) f r =
    let p = IsReady.planned r in
    let e : get_elem? setting.order i ≡ some p = IsReady.is_step r in
    let inside : i < length state.completed =
      omega (arith, get_elem?-lt setting.order i p e, Follows.size f) in
    rw (advance, e)
      (record {
        history = (i, run) ∷ Follows.history f;
        schedule = (r, Follows.schedule f);
        size = length-set state.completed i true ∙ Follows.size f;
        taken = λ k.
            get_or-set state.completed i k inside
            ∙ ap (λ (b : Bool). i == k || b) (Follows.taken f k);
        places =
            enter-moved_to setting state.role_states p.step run p.step.to_state
            ∙ rw (e, Follows.places f) refl;
        reached =
            rw (Follows.reached f) (
              mark-has_entered setting i run p (Follows.history f) (eventual setting.invariants) e);
        told = ap (λ (path : List ℕ). path ++ (i ∷ [])) (Follows.told f);
      })
