-- ===== src/Tests/Approvals.antt =====
-- Runs of the approval gate (backend/workflows/approvals.py) on concrete tables.
use the_dashboard.Common.{false, none, some, List, [], ◌∷◌, ◌≡◌, ◌≤◌, refl, returned, length}
use the_dashboard.Governance.Engine.{check_freeze}
use the_dashboard.Governance.Freeze.{is_frozen}
use the_dashboard.Workflow.Status.{active, paused, validate_transition}
use the_dashboard.Workflow.Database.{ApprovalType, RiskLevel, Db, empty_db, get_by_id}
use the_dashboard.Workflow.Runtime
use the_dashboard.Workflow.Calls.{perform, serve}
use the_dashboard.Workflow.Recovery.{consistency_check}
use the_dashboard.Workflow.Recovery.Replay.{as_value}
use the_dashboard.Workflow.Approvals.{new_approval, approvals_of, request_approval}
use the_dashboard.Workflow.Approvals.Single
use the_dashboard.Workflow.Approvals.Single.{GateCall, open_of, serve-one_open}
use the_dashboard.Workflow.Approvals.Resolved.{IsResolvableAt}
use the_dashboard.Workflow.Approvals.Drift.{consistency_check-requested}
use the_dashboard.Tests.Workflow.{str, calls, row, row_after_calls}

abbrev waiting_db : Db
waiting_db = record empty_db {
  workflows = row paused ∷ [];
  approvals = new_approval 5 1 ApprovalType.offer (some 7) RiskLevel.low none ∷ [];
}

abbrev waiting :
    IsResolvableAt 30 5 waiting_db
      (new_approval 5 1 ApprovalType.offer (some 7) RiskLevel.low none)
      (row paused)
waiting =
    unfold get_by_id in
    record { found = refl; waits = refl; fresh = refl; here = refl; stopped = refl; in_time = refl }

abbrev gate_calls : List GateCall
gate_calls =
    GateCall.request_approval 5 1 ApprovalType.offer (some 7) RiskLevel.low none
    ∷ GateCall.elsewhere (row active ∷ [])
    ∷ GateCall.request_approval 6 1 ApprovalType.offer (some 7) RiskLevel.low none
    ∷ []

serve-one_open_example :
    length (
      open_of 1 ApprovalType.offer
        (Single.serve gate_calls (record empty_db { workflows = row active ∷ [] })).approvals)
    ≤ 1
serve-one_open_example =
    serve-one_open gate_calls (record empty_db { workflows = row active ∷ [] }) 1 ApprovalType.offer
      refl

no_approvals : (serve str calls empty_db).approvals ≡ []
unfolding serve perform Runtime.start Runtime.advance Runtime.pause Runtime.resume get_by_id
    check_freeze is_frozen validate_transition
no_approvals = refl

consistency_check-requested_example :
    (consistency_check 1
      (request_approval 5 1 ApprovalType.offer
        (some 7)
        RiskLevel.low
        none
        (serve str calls empty_db)).1).0
    ≡ returned (record {
      persisted_status = paused;
      derived_status = active;
      persisted_step = some "contacted";
      derived_step = as_value (some "contacted");
      is_consistent = false;
    })
unfolding approvals_of
consistency_check-requested_example =
    consistency_check-requested str calls 5 1 ApprovalType.offer (some 7) RiskLevel.low none
      (row active) (tt, ((refl, refl), (tt, (tt, tt)))) row_after_calls refl (rw no_approvals refl)
      (rw no_approvals refl)
