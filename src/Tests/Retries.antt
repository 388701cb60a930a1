-- ===== src/Tests/Retries.antt =====
-- Runs of the retry models (backend/workflows) on concrete tables.
use mathlib.Core.List.{Memᴰ}
use the_dashboard.Common.{
  ℕ, String, false, none, some, List, [], ◌∷◌, ◌≡◌, ◌+◌, ◌-◌, ◌↔◌, refl, min, length,
}
use the_dashboard.Workflow.Status.{failed}
use the_dashboard.Workflow.Database.{
  outreach, system, Workflow, WorkflowEvent, retry_scheduled, Db, empty_db, get_by_id,
}
use the_dashboard.Workflow.Retries.{default_policy}
use the_dashboard.Workflow.RetryCoordinator.{
  RetryRow, ScheduledRetry, latest_row, get_current_state, get_due,
}
use the_dashboard.Workflow.RetryCoordinator.Limit.{
  schedule_all, dead_letters_of, schedule_all-limit,
}
use the_dashboard.Workflow.RetryCoordinator.Due.{IsDue, mem-get_due}

abbrev failed_row : Workflow
failed_row = record {
  id = 1;
  workflow_type = outreach;
  workflow_status = failed;
  current_step = none;
  correlation_id = 9;
  lead_id = none;
  initiated_by = none;
  expires_at = none;
  is_deleted = false;
}

abbrev failed_db : Db
failed_db = record empty_db { workflows = failed_row ∷ [] }

abbrev failures : List (String × ℕ)
failures =
    ("timeout", 0) ∷ ("timeout", 50) ∷ ("refused", 90) ∷ ("timeout", 99) ∷ ("timeout", 120) ∷ []

schedule_all-limit_example :
    let db' = schedule_all 1 default_policy failures failed_db in
    ((get_current_state 1 db').attempt ≡ min (length failures) 3)
    × (length (dead_letters_of 1 db')
        ≡ length (dead_letters_of 1 failed_db) + (length failures - 3))
unfolding get_by_id
schedule_all-limit_example =
    schedule_all-limit 1 failed_row default_policy failures failed_db refl refl

abbrev retry_event : (workflow_id attempt at : ℕ) → WorkflowEvent
retry_event workflow_id attempt at = record {
  workflow_id = workflow_id;
  body = retry_scheduled attempt (some at) "timeout";
  actor_type = system;
  actor_id = none;
  correlation_id = 9;
}

abbrev retried_db : Db
retried_db = record failed_db { events = retry_event 1 1 30 ∷ retry_event 1 2 90 ∷ [] }

abbrev second_retry : ScheduledRetry
second_retry = record { workflow_id = 1; attempt = 2; next_retry_at = 90; last_error = "timeout" }

due_later : (get_due 60 retried_db ≡ []) × (get_due 90 retried_db ≡ second_retry ∷ [])
unfolding get_due get_by_id
due_later = (refl, refl)

mem-get_due_example :
    Memᴰ second_retry (get_due 90 retried_db)
    ↔ ((q : RetryRow) × (latest_row 1 retried_db ≡ some q) × IsDue 90 retried_db q second_retry)
mem-get_due_example = mem-get_due 90 retried_db second_retry
