-- ===== src/Workflow/Database.antt =====
-- The state that the workflow runtimes share and the repositories over it (repositories/base.py,
-- workflows/persistence.py). Identifiers are numbers and timestamps are microseconds.
mod Tables
pub mod Dicts
pub mod Rows
use the_dashboard.Common.{
  ℕ, String, Bool, true, false, not, ◌||◌, Option, none, some, List, [], ◌∷◌, ◌++◌, ◌==◌, Exec,
  Outcome, returned, raised, pure, raise, gets, modify, raise_if, or_raise, ◌>>=◌, ◌>>◌, str_eq,
  any_of, get_row, put_row, select, if◌then◌else◌,
}
pub use Tables.*
use the_dashboard.Governance.Events.{Log}
use the_dashboard.Governance.Engine.{GovernanceError}
use the_dashboard.Workflow.Status.{WorkflowStatus, Refusal}

pub record Db : Type 0 where
  pub workflows : List Workflow
  pub events : List WorkflowEvent
  pub checkpoints : List WorkflowCheckpoint
  pub leases : List WorkflowLease
  pub approvals : List Approval
  pub snapshots : List WorkflowSnapshot
  pub domain_events : List DomainEvent
  pub log : Log

abbrev pub empty_db : Db
empty_db = record {
  workflows = [];
  events = [];
  checkpoints = [];
  leases = [];
  approvals = [];
  snapshots = [];
  domain_events = [];
  log = [];
}

pub data WorkflowError : Type 0 where
  not_found : (workflow_id : ℕ) → WorkflowError
  transition_error :
      (workflow_id : ℕ) (from_status to_status : WorkflowStatus) (why : Refusal) → WorkflowError
  not_active : (workflow_id : ℕ) (status : WorkflowStatus) → WorkflowError
  not_failed : (workflow_id : ℕ) (status : WorkflowStatus) → WorkflowError
  no_checkpoint : (workflow_id : ℕ) → WorkflowError
  rollback_error : (workflow_id : ℕ) (status : WorkflowStatus) → WorkflowError
  integrity_error : WorkflowError
  governance : GovernanceError → WorkflowError
  lease_acquire_error : (workflow_id : ℕ) (holder : String) (expires_at : ℕ) → WorkflowError
  lease_conflict : (workflow_id lease_id : ℕ) → WorkflowError
  retry_exhausted_error : (attempt max_retries : ℕ) → WorkflowError
  assertion_error : WorkflowError
  approval_not_found : (approval_id : ℕ) → WorkflowError
  already_pending : (workflow_id : ℕ) → ApprovalType → WorkflowError
  not_resolvable : (approval_id : ℕ) → ApprovalStatus → WorkflowError
  approval_expired no_longer_paused workflow_expired : WorkflowError
  not_escalatable : (workflow_id : ℕ) → WorkflowStatus → WorkflowError
  snapshot_not_found : (snapshot_id : ℕ) → WorkflowError
  restore_terminal : WorkflowStatus → WorkflowError
  unknown_status : String → WorkflowError

abbrev pub Session : Type 0 → Type 0
Session = Exec Db WorkflowError

abbrev pub unless_deleted : Option Workflow → Option Workflow
unless_deleted none = none
unless_deleted (some w) = if w.is_deleted then none else some w

-- `get_by_id`, and `get_for_update` with its row lock
unfoldable pub get_by_id : ℕ → Db → Option Workflow
get_by_id id db = unless_deleted (get_row (λ w. w.id) id db.workflows)

-- `get_by_id_or_raise`, `get_for_update_or_raise`
unfoldable pub get_by_id_or_raise : ℕ → Session Workflow
unfolding get_by_id
get_by_id_or_raise id = do found ← gets (get_by_id id); or_raise found (not_found id)

-- The flush of a changed workflow.
unfoldable pub save : Workflow → Session (Unit {0})
save w = modify (λ db. record db { workflows = put_row (λ v. v.id) w db.workflows })

-- `WorkflowEventRepository.append_event`
unfoldable pub append_event :
    (workflow_id : ℕ)
    → Happening
    → ActorType
    → (actor_id : Option ℕ) (correlation_id : ℕ) → Session (Unit {0})
append_event workflow_id body actor_type actor_id correlation_id = modify (λ db. record db {
  events =
      db.events
      ++ record {
        workflow_id = workflow_id;
        body = body;
        actor_type = actor_type;
        actor_id = actor_id;
        correlation_id = correlation_id;
      }
        ∷ [];
})

-- `WorkflowEventRepository.get_by_workflow`
unfoldable pub get_by_workflow : ℕ → Db → List WorkflowEvent
get_by_workflow id db = select (λ e. e.workflow_id == id) db.events

-- `event_emitter.emit`
unfoldable pub emit : Notice → (correlation_id : Option ℕ) → Session (Unit {0})
emit body correlation_id = modify (λ db. record db {
  domain_events = db.domain_events ++ record { body = body; correlation_id = correlation_id } ∷ [];
})

abbrev pub run_governed : Outcome GovernanceError (Unit {0}) × Log → Session (Unit {0})
run_governed (returned u, log) db = (returned u, record db { log = log })
run_governed (raised e, log) db = (raised (governance e), record db { log = log })

-- A call of the governance engine on the same session.
abbrev pub governed : Exec Log GovernanceError (Unit {0}) → Session (Unit {0})
governed m db = run_governed (m db.log) db
