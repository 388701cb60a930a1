-- ===== src/Workflow/Snapshots.antt =====
-- backend/workflows/snapshot.py: capturing the state of a workflow and restoring its status and
-- step. `captured_at` is the time that the database writes into the row. The proofs are in
-- Workflow.Orchestrator.
use the_dashboard.Common.{
  ℕ, String, Option, none, some, List, [], ◌∷◌, ◌++◌, ◌==◌, leb, pure, gets, modify, raise_if,
  or_raise, ◌>>=◌, ◌>>◌, str_eq, any_of, select, map, get_row, find_by, sorted,
}
use the_dashboard.Workflow.Status.{
  WorkflowStatus, pending, active, paused, completed, failed, cancelled,
}
use the_dashboard.Workflow.Database.{
  system, Workflow, Approval, WorkflowCheckpoint, PendingApproval, LatestCheckpoint, ActiveLease,
  SnapshotState, WorkflowSnapshot, snapshot_restored, snapshot_taken, snapshot_restored_to, Db,
  integrity_error, snapshot_not_found, restore_terminal, unknown_status, Session,
  get_by_id_or_raise, save, append_event, emit,
}
use the_dashboard.Workflow.Recovery.{get_latest, is_beyond_recovery}
use the_dashboard.Workflow.Approvals.{approvals_of, is_resolvable}
use the_dashboard.Workflow.Lease.{LeaseResult, get_active}

-- The text of a status.
abbrev pub text_of : WorkflowStatus → String
text_of pending = "pending"
text_of active = "active"
text_of paused = "paused"
text_of completed = "completed"
text_of failed = "failed"
text_of cancelled = "cancelled"

-- `WorkflowStatus(text)`
unfoldable pub parse_status : String → Option WorkflowStatus
parse_status text =
    find_by (λ status. str_eq (text_of status) text)
      (pending ∷ active ∷ paused ∷ completed ∷ failed ∷ cancelled ∷ [])

pub record SnapshotResult : Type 0 where
  pub snapshot_id : ℕ
  pub workflow_id : ℕ
  pub workflow_status : String
  pub current_step : Option String
  pub captured_at : ℕ
  pub trigger : Option String

abbrev pub to_pending : Approval → PendingApproval
to_pending a = record {
  approval_id = a.id;
  approval_type = a.approval_type;
  approval_status = a.approval_status;
}

abbrev pub to_checkpoint : Option WorkflowCheckpoint → Option LatestCheckpoint
to_checkpoint none = none
to_checkpoint (some c) =
    some (record { step = c.step; status = c.status_at_checkpoint; payload = c.payload })

abbrev pub to_lease : Option LeaseResult → Option ActiveLease
to_lease none = none
to_lease (some l) = some (record { holder = l.holder; expires_at = l.expires_at })

-- The dict `state` of `take`.
unfoldable pub capture : Workflow → (now : ℕ) → Db → SnapshotState
capture wf now db = record {
  workflow_id = wf.id;
  workflow_type = wf.workflow_type;
  workflow_status = wf.workflow_status;
  current_step = wf.current_step;
  correlation_id = wf.correlation_id;
  lead_id = wf.lead_id;
  initiated_by = wf.initiated_by;
  pending_approvals =
      map to_pending (select (λ a. is_resolvable a.approval_status) (approvals_of wf.id db));
  latest_checkpoint = to_checkpoint (get_latest wf.id db);
  active_lease = to_lease (get_active wf.id now db);
}

abbrev pub to_result : WorkflowSnapshot → SnapshotResult
to_result snap = record {
  snapshot_id = snap.id;
  workflow_id = snap.workflow_id;
  workflow_status = snap.workflow_status;
  current_step = snap.current_step;
  captured_at = snap.captured_at;
  trigger = snap.trigger;
}

-- The insertion of a row. Its foreign key is not checked: `take` has found the
-- workflow.
unfoldable pub insert_snapshot : WorkflowSnapshot → Session (Unit {0})
insert_snapshot snap = do
  clash ← gets (λ db. any_of (λ s. s.id == snap.id) db.snapshots)
  raise_if clash integrity_error
  modify (λ db. record db { snapshots = db.snapshots ++ snap ∷ [] })

abbrev pub new_snapshot :
    (snapshot_id captured_at : ℕ)
    → Workflow
    → SnapshotState
    → (trigger : Option String) → WorkflowSnapshot
new_snapshot snapshot_id captured_at wf state trigger = record {
  id = snapshot_id;
  workflow_id = wf.id;
  workflow_status = text_of wf.workflow_status;
  current_step = wf.current_step;
  state = state;
  captured_at = captured_at;
  trigger = trigger;
}

-- `SnapshotRuntime.take`; `snapshot_id` is the identifier that it draws, and `now` the time at which
-- the lease is looked up.
unfoldable pub take :
    (snapshot_id captured_at now workflow_id : ℕ) (trigger : Option String) → Session SnapshotResult
unfolding get_by_id_or_raise insert_snapshot emit
take snapshot_id captured_at now workflow_id trigger = do
  wf ← get_by_id_or_raise workflow_id
  state ← gets (capture wf now)
  let snap : WorkflowSnapshot = new_snapshot snapshot_id captured_at wf state trigger
  insert_snapshot snap
  emit (snapshot_taken workflow_id snapshot_id snap.workflow_status trigger)
      (some wf.correlation_id)
  pure (to_result snap)

-- The row that `restore` writes.
abbrev pub put_back : WorkflowStatus → Option String → Workflow → Workflow
put_back status step wf = record wf { workflow_status = status; current_step = step }

-- `SnapshotRuntime.restore`; the statuses that it refuses are those of `is_beyond_recovery`.
unfoldable pub restore : (snapshot_id : ℕ) (actor_id : Option ℕ) → Session SnapshotResult
unfolding get_by_id_or_raise save append_event emit
restore snapshot_id actor_id = do
  found ← gets (λ db. get_row (λ s. s.id) snapshot_id db.snapshots)
  snap ← or_raise found (snapshot_not_found snapshot_id)
  wf ← get_by_id_or_raise snap.workflow_id
  raise_if (is_beyond_recovery wf.workflow_status) (restore_terminal wf.workflow_status)
  snap_status ← or_raise (parse_status snap.workflow_status) (unknown_status snap.workflow_status)
  save (put_back snap_status snap.current_step wf)
  append_event wf.id (snapshot_restored snapshot_id snap.workflow_status snap.current_step) system
      actor_id wf.correlation_id
  emit (snapshot_restored_to wf.id snapshot_id snap.workflow_status) (some wf.correlation_id)
  pure (to_result snap)

abbrev pub first : List WorkflowSnapshot → Option SnapshotResult
first [] = none
first (snap ∷ snaps) = some (to_result snap)

-- `SnapshotRuntime.get_latest`
unfoldable pub get_latest_snapshot : (workflow_id : ℕ) → Db → Option SnapshotResult
get_latest_snapshot workflow_id db = first (
    sorted (λ a b. leb b.captured_at a.captured_at)
      (select (λ s. s.workflow_id == workflow_id) db.snapshots))

-- `SnapshotRuntime.get_all`
unfoldable pub get_all_snapshots : (workflow_id : ℕ) → Db → List SnapshotResult
get_all_snapshots workflow_id db = map to_result (
    sorted (λ a b. leb a.captured_at b.captured_at)
      (select (λ s. s.workflow_id == workflow_id) db.snapshots))
