-- ===== src/Tests/Workflow.antt =====
-- Runs of the workflow models (backend/workflows) on concrete tables.
use the_dashboard.Common.{
  eq_iff, true, false, ℕ, String, true, false, none, some, List, [], ◌∷◌, ◌≡◌, refl, arith, inr,
  returned,
}
use the_dashboard.Governance.Engine.{check_freeze}
use the_dashboard.Governance.Freeze.{is_frozen}
use the_dashboard.Workflow.Status.{
  WorkflowStatus, active, cancelled, completed, is_terminal, validate_transition,
}
use the_dashboard.Workflow.Database.{
  outreach, user, Workflow, WorkflowLease, LeaseStatus, CompensatingAction, Db, empty_db, get_by_id,
}
use the_dashboard.Workflow.Runtime
use the_dashboard.Workflow.Recovery.{consistency_check}
use the_dashboard.Workflow.Recovery.Replay.{as_value}
use the_dashboard.Workflow.Rollback.{rollback}
use the_dashboard.Workflow.Rollback.Drift.{consistency_check-rolled_back}
use the_dashboard.Workflow.Calls.{Call, perform, serve}
use the_dashboard.Workflow.Calls.Replayed.{agreement, consistency_check-serve}
use the_dashboard.Workflow.Calls.Keeps.{stored}
use the_dashboard.Workflow.Calls.Final.{stored-serve}
use the_dashboard.Workflow.Lease
use the_dashboard.Workflow.Lease.{lease_of, is_stale, expire_stale}
use the_dashboard.Workflow.Lease.Held
use the_dashboard.Workflow.Lease.Held.{LeaseCall, AllForeign, serve-held}

abbrev pub str : ℕ → String
str n = "w"

abbrev pub calls : List Call
calls =
    Call.start 1 9 outreach none none user
    ∷ Call.advance 1 "contacted" [] user none
    ∷ Call.pause 1 "lunch" user none
    ∷ Call.resume 1 user none
    ∷ []

abbrev closed : List Call
closed =
    Call.complete 1 [] user none ∷ Call.resume_failed 1 none ∷ Call.cancel 1 "late" user none ∷ []

abbrev pub row : WorkflowStatus → Workflow
row status = record {
  id = 1;
  workflow_type = outreach;
  workflow_status = status;
  current_step = some "contacted";
  correlation_id = 9;
  lead_id = none;
  initiated_by = none;
  expires_at = none;
  is_deleted = false;
}

pub row_after_calls : get_by_id 1 (serve str calls empty_db) ≡ some (row active)
unfolding serve perform Runtime.start Runtime.advance Runtime.pause Runtime.resume get_by_id
    check_freeze is_frozen validate_transition
row_after_calls = refl

consistency_check-serve_example :
    consistency_check 1 (serve str calls empty_db)
    ≡ (returned (agreement (row active)), serve str calls empty_db)
consistency_check-serve_example =
    consistency_check-serve str calls 1 (row active) (tt, ((refl, refl), (tt, (tt, tt))))
      row_after_calls

consistency_check-rolled_back_example :
    (consistency_check 1 (rollback 1 "bad lead" user none (serve str calls empty_db)).1).0
    ≡ returned (record {
      persisted_status = cancelled;
      derived_status = active;
      persisted_step = some "contacted";
      derived_step = as_value (some "contacted");
      is_consistent = false;
    })
unfolding is_terminal
consistency_check-rolled_back_example =
    consistency_check-rolled_back str calls 1 (row active) "bad lead" user none
      (tt, ((refl, refl), (tt, (tt, tt)))) row_after_calls refl

abbrev done_db : Db
done_db = record empty_db { workflows = row completed ∷ [] }

stored-serve_example : stored 1 (serve str closed done_db).workflows ≡ some (row completed)
stored-serve_example = stored-serve str closed done_db 1 (row completed) refl refl

abbrev call_back : CompensatingAction
call_back = record { action_type = "notify"; target_id = 1; triggered_by = "expiry"; payload = [] }

abbrev lease : WorkflowLease
lease = record {
  workflow_id = 1;
  lease_id = 40;
  holder = "worker-a";
  acquired_at = 0;
  expires_at = 60000000;
  renewed_at = none;
  released_at = none;
  status = LeaseStatus.active;
}

abbrev leased_db : Db
leased_db = record empty_db { workflows = row active ∷ []; leases = lease ∷ [] }

acquired : (Lease.acquire 1 "worker-a" 60 40 0 done_db).1.leases ≡ lease ∷ []
unfolding Lease.acquire get_by_id
acquired = refl

serve-held_example :
    lease_of 1 (
      Held.serve
        (LeaseCall.acquire 1 "worker-b" 60 41 500
          ∷ LeaseCall.release 1 41 600
          ∷ LeaseCall.expire_stale 700
          ∷ [])
        leased_db)
    ≡ some lease
serve-held_example =
    serve-held
      (LeaseCall.acquire 1 "worker-b" 60 41 500
        ∷ LeaseCall.release 1 41 600
        ∷ LeaseCall.expire_stale 700
        ∷ [])
      lease leased_db refl
      (
        inr ((λ p. let b : false ≡ true = (eq_iff "worker-a" "worker-b").1 p in cc), omega arith),
        (inr (omega arith), (omega arith, tt)),
      )
      refl
