-- ===== src/Workflow/RetryCoordinator/Attempts.antt =====
-- The states of a workflow between failures (backend/workflows/retry_coordinator.py).
use the_dashboard.Common.{
  ℕ, String, none, some, [], ◌∷◌, ◌++◌, ◌≡◌, ◌≤◌, ◌<◌, ◌+◌, refl, ◌∙◌, returned, raised,
  after_seconds,
}
use the_dashboard.Workflow.Database.{
  system, Workflow, WorkflowEvent, Happening, retry_scheduled, retry_exhausted, dead_letter,
  retry_announced, dead_letter_announced, Db, retry_exhausted_error, get_by_id, get_by_id_or_raise,
  append_event, emit,
}
use the_dashboard.Workflow.Database.Rows.{get_by_id-same}
use the_dashboard.Workflow.Retries.{RetryPolicy, backoff}
use the_dashboard.Workflow.Retries.Backoff.{record_failure-planned, record_failure-exhausted}
use the_dashboard.Workflow.DeadLetter.{mark}
use the_dashboard.Workflow.RetryCoordinator.{
  get_current_state, after_failure, handle_exhausted, record_retry, schedule,
}

abbrev pub event_of : ℕ → ℕ → Happening → WorkflowEvent
event_of id correlation_id body = record {
  workflow_id = id;
  body = body;
  actor_type = system;
  actor_id = none;
  correlation_id = correlation_id;
}

module _ (id : ℕ) (w : Workflow) (policy : RetryPolicy) (error : String) (now : ℕ) (db : Db) where
  -- The rows after a retry was planned, and after the retries were used up.
  abbrev pub planned : ℕ → Db
  planned attempt =
      let at = after_seconds now (backoff policy attempt) in
      record db {
        events =
            db.events
            ++ event_of id w.correlation_id (retry_scheduled (attempt + 1) (some at) error) ∷ [];
        domain_events =
            db.domain_events
            ++ record {
              body = retry_announced id (attempt + 1) (some at);
              correlation_id = some w.correlation_id;
            }
              ∷ [];
      }

  abbrev pub exhausted : ℕ → Db
  exhausted attempt = record db {
    events =
        (db.events ++ event_of id w.correlation_id (retry_exhausted attempt error) ∷ [])
        ++ event_of id w.correlation_id (dead_letter "retry_exhausted" attempt error now) ∷ [];
    domain_events =
        db.domain_events
        ++ record {
          body = dead_letter_announced id "retry_exhausted" attempt;
          correlation_id = some w.correlation_id;
        }
          ∷ [];
  }

module _ (id : ℕ) (w : Workflow) (policy : RetryPolicy) (error : String) (now : ℕ) (db : Db)
    (found : get_by_id id db ≡ some w) where
  pub schedule-planned :
      (attempt : ℕ)
      → (get_current_state id db).attempt ≡ attempt
      → attempt < policy.max_retries
      → schedule id error (some policy) now db ≡ (
        returned (record {
          workflow_id = id;
          attempt = attempt + 1;
          next_retry_at = after_seconds now (backoff policy attempt);
          last_error = error;
        }),
        planned id w policy error now db attempt,
      )
  unfolding schedule after_failure record_retry get_by_id_or_raise append_event emit
  schedule-planned attempt h k =
      rw (record_failure-planned (get_current_state id db) policy error now attempt h k) (rw found)

  mark-found :
      (db' : Db) (reason : String) (count : ℕ)
      → db'.workflows ≡ db.workflows
      → mark id reason count error now db' ≡ (
        returned (record {
          workflow_id = id;
          reason = reason;
          retry_count = count;
          last_error = error;
          recorded_at = now;
        }),
        record db' {
          events =
              db'.events ++ event_of id w.correlation_id (dead_letter reason count error now) ∷ [];
          domain_events =
              db'.domain_events
              ++ record {
                body = dead_letter_announced id reason count;
                correlation_id = some w.correlation_id;
              }
                ∷ [];
        },
      )
  unfolding mark get_by_id_or_raise append_event emit
  mark-found db' reason count same = rw (get_by_id-same id db' db same ∙ found)

  pub schedule-exhausted :
      (attempt : ℕ)
      → (get_current_state id db).attempt ≡ attempt
      → policy.max_retries ≤ attempt
      → schedule id error (some policy) now db ≡ (
        raised (retry_exhausted_error (attempt + 1) policy.max_retries),
        exhausted id w policy error now db (attempt + 1),
      )
  unfolding schedule after_failure handle_exhausted get_by_id_or_raise append_event emit
  schedule-exhausted attempt h k =
      let db' : Db = record db {
        events =
            db.events ++ event_of id w.correlation_id (retry_exhausted (attempt + 1) error) ∷ [];
      } in
      let m = mark-found db' "retry_exhausted" (attempt + 1) refl in
      rw (record_failure-exhausted (get_current_state id db) policy error now attempt h k)
        (rw found (rw h (rw m)))
