-- ===== src/Governance/Freeze.antt =====
-- backend/governance/freeze.py: freezes and kill switches, kept as events of the governance log.
-- The proofs are in the modules below this one.
pub mod Laws
pub mod Meaning
pub mod Runs
use the_dashboard.Common.{
  ℕ, String, Bool, true, false, not, ◌&&◌, Option, none, some, List, Exec, Outcome, returned,
  raised, pure, raise, gets, raise_if, or_raise, ◌>>=◌, ◌>>◌, str_eq, str_elem, any_of, collect,
  find_last, if◌then◌else◌,
}
use the_dashboard.Governance.Events.{
  EventBody, freeze_activated, freeze_deactivated, kill_switch_triggered, GovernanceEvent, Log,
  append,
}

-- governance/contracts.py
pub record FreezeSpec : Type 0 where
  pub freeze_key : String
  pub scope : String
  pub reason : String
  pub is_kill_switch : Bool
  pub activated_by : Option ℕ
  pub activated_at : ℕ

pub data FreezeError : Type 0 where
  cannot_deactivate : (freeze_key : String) → FreezeError
  no_active_freeze : (scope : String) → FreezeError

-- A kill switch on the scope.
abbrev pub kills : String → GovernanceEvent → Bool
kills scope e = elim e.body [
  | kill_switch_triggered key at reason time ↦ str_eq at scope
  | _ ↦ false
]

-- The key of a freeze on the scope.
abbrev pub freezes : String → GovernanceEvent → Option String
freezes scope e = elim e.body [
  | freeze_activated key at reason kill time ↦ if str_eq at scope then some key else none
  | _ ↦ none
]

abbrev pub lifts : GovernanceEvent → Option String
lifts e = elim e.body [ freeze_deactivated key ↦ some key | _ ↦ none ]

-- The keys of the dictionary `activated` of `is_frozen`.
unfoldable pub activated_keys : String → Log → List String
activated_keys scope = collect (freezes scope)

-- The set `deactivated` of `is_frozen` and `_get_spec`.
unfoldable pub deactivated_keys : Log → List String
deactivated_keys = collect lifts

-- `FreezeRuntime.is_frozen`
unfoldable pub is_frozen : String → Log → Bool
unfolding activated_keys deactivated_keys
is_frozen scope log =
    if any_of (kills scope) log
    then true
    else any_of (λ key. not (str_elem key (deactivated_keys log))) (activated_keys scope log)

abbrev key_is_active : List String → Option String → Bool
key_is_active lifted none = false
key_is_active lifted (some key) = not (str_elem key lifted)

abbrev spec_of : GovernanceEvent → Option FreezeSpec
spec_of e = elim e.body [
  | freeze_activated key scope reason kill time ↦ some (record {
    freeze_key = key;
    scope = scope;
    reason = reason;
    is_kill_switch = kill;
    activated_by = e.actor_id;
    activated_at = time;
  })
  | _ ↦ none
]

abbrev and_then : {A B : Type 0} → (A → Option B) → Option A → Option B
and_then f none = none
and_then f (some a) = f a

-- `FreezeRuntime._get_spec`: the latest freeze on the scope whose key was never deactivated.
unfoldable pub get_spec : String → Exec Log FreezeError FreezeSpec
unfolding deactivated_keys
get_spec scope log =
    or_raise
      (and_then spec_of
        (find_last (λ e. key_is_active (deactivated_keys log) (freezes scope e)) log))
      (no_active_freeze scope) log

-- The `except FreezeError` of `activate`.
abbrev fall_back :
    FreezeSpec → Outcome FreezeError FreezeSpec × Log → Outcome FreezeError FreezeSpec × Log
fall_back minimal (returned spec, log) = (returned spec, log)
fall_back minimal (raised e, log) = (returned minimal, log)

-- `FreezeRuntime.activate`
unfoldable pub activate :
    (freeze_key scope reason : String) (actor_id : Option ℕ) (now : ℕ)
    → Exec Log FreezeError FreezeSpec
unfolding is_frozen get_spec
activate freeze_key scope reason actor_id now = do
  frozen ← gets (is_frozen scope)
  if frozen
      then (λ log. fall_back (spec true) (get_spec scope log))
      else (append (freeze_activated freeze_key scope reason false now) none actor_id
          >> pure (spec false))
  where
    spec : Bool → FreezeSpec
    spec kill = record {
      freeze_key = freeze_key;
      scope = scope;
      reason = reason;
      is_kill_switch = kill;
      activated_by = actor_id;
      activated_at = now;
    }

-- A freeze event under the key that is marked as a kill switch.
abbrev pub marks_kill : String → GovernanceEvent → Bool
marks_kill freeze_key e = elim e.body [
  | freeze_activated key scope reason kill time ↦ str_eq key freeze_key && kill
  | _ ↦ false
]

-- `FreezeRuntime.deactivate`
unfoldable pub deactivate :
    (freeze_key : String) (actor_id : Option ℕ) → Exec Log FreezeError (Unit {0})
deactivate freeze_key actor_id = do
  marked ← gets (any_of (marks_kill freeze_key))
  raise_if marked (cannot_deactivate freeze_key)
  append (freeze_deactivated freeze_key) none actor_id

-- `FreezeRuntime.kill_switch`
unfoldable pub kill_switch :
    (freeze_key scope reason : String) (actor_id : Option ℕ) (now : ℕ)
    → Exec Log FreezeError FreezeSpec
kill_switch freeze_key scope reason actor_id now = do
  append (kill_switch_triggered freeze_key scope reason now) none actor_id
  pure (record {
    freeze_key = freeze_key;
    scope = scope;
    reason = reason;
    is_kill_switch = true;
    activated_by = actor_id;
    activated_at = now;
  })
