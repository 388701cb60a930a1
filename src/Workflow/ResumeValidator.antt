-- ===== src/Workflow/ResumeValidator.antt =====
-- backend/workflows/resume_validator.py: whether a workflow can be resumed, and how. The texts of
-- blockers and warnings are constructors. `now` is the time at which the lease is looked up. The
-- proof is in the module below this one.
pub mod Advice
use the_dashboard.Common.{
  ℕ, String, Bool, true, false, Option, none, some, List, [], ◌∷◌, ◌++◌, ◌==◌, pure, gets, ◌>>=◌,
  select, length, if◌then◌else◌,
}
use the_dashboard.Workflow.Status.{WorkflowStatus, active, failed, same_status}
use the_dashboard.Workflow.Database.{Workflow, WorkflowCheckpoint, Db, Session, get_by_id_or_raise}
use the_dashboard.Workflow.Recovery.{get_latest, is_beyond_recovery}
use the_dashboard.Workflow.Approvals.{approvals_of, is_resolvable}
use the_dashboard.Workflow.Lease.{LeaseResult, get_active}

pub data Blocker : Type 0 where
  terminal : WorkflowStatus → Blocker
  already_active no_checkpoint : Blocker
  pending_approvals : (count : ℕ) → Blocker

pub data Warning : Type 0 where
  lease_held : (holder : String) → Warning

pub data Strategy : Type 0 where
  checkpoint_restore direct_resume no_strategy : Strategy

pub record ResumeValidation : Type 0 where
  pub workflow_id : ℕ
  pub can_resume : Bool
  pub recommended_strategy : Strategy
  pub blockers : List Blocker
  pub warnings : List Warning

abbrev pub is_empty : List Blocker → Bool
is_empty [] = true
is_empty (b ∷ bs) = false

-- The early returns.
abbrev pub refusal : (workflow_id : ℕ) → Blocker → ResumeValidation
refusal workflow_id blocker = record {
  workflow_id = workflow_id;
  can_resume = false;
  recommended_strategy = no_strategy;
  blockers = blocker ∷ [];
  warnings = [];
}

abbrev pub approval_blockers : (pending : ℕ) → List Blocker
approval_blockers pending = if pending == 0 then [] else pending_approvals pending ∷ []

abbrev pub lease_warnings : Option LeaseResult → List Warning
lease_warnings none = []
lease_warnings (some lease) = lease_held lease.holder ∷ []

abbrev pub checkpoint_blockers : Option WorkflowCheckpoint → List Blocker
checkpoint_blockers none = no_checkpoint ∷ []
checkpoint_blockers (some c) = []

abbrev pub checkpoint_strategy : Option WorkflowCheckpoint → Strategy
checkpoint_strategy none = no_strategy
checkpoint_strategy (some c) = checkpoint_restore

abbrev pub answer : (workflow_id : ℕ) → Strategy → List Blocker → List Warning → ResumeValidation
answer workflow_id strategy blockers warnings = record {
  workflow_id = workflow_id;
  can_resume = is_empty blockers;
  recommended_strategy = strategy;
  blockers = blockers;
  warnings = warnings;
}

-- What follows the early returns.
unfoldable pub examine : (workflow_id now : ℕ) → WorkflowStatus → Db → ResumeValidation
examine workflow_id now status db =
    let approvals =
      approval_blockers
        (length (select (λ a. is_resolvable a.approval_status) (approvals_of workflow_id db))) in
    let warnings = lease_warnings (get_active workflow_id now db) in
    let checkpoint = get_latest workflow_id db in
    if same_status status failed
    then answer workflow_id (checkpoint_strategy checkpoint)
        (approvals ++ checkpoint_blockers checkpoint) warnings
    else answer workflow_id (if is_empty approvals then direct_resume else no_strategy) approvals
        warnings

-- `ResumeValidator.validate`; `is_beyond_recovery` has the statuses of `_TRULY_TERMINAL`.
unfoldable pub validate : (workflow_id now : ℕ) → Session ResumeValidation
unfolding get_by_id_or_raise
validate workflow_id now = do
  wf ← get_by_id_or_raise workflow_id
  if is_beyond_recovery wf.workflow_status
      then pure (refusal workflow_id (terminal wf.workflow_status))
      else if same_status wf.workflow_status active
      then pure (refusal workflow_id already_active)
      else gets (examine workflow_id now wf.workflow_status)
