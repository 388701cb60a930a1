-- ===== src/Workflow/DeadLetter.antt =====
-- backend/workflows/deadletter.py: dead letters, which are kept as workflow events.
use the_dashboard.Common.{
  ℕ, String, Option, none, some, List, [], ◌∷◌, ◌++◌, pure, ◌>>=◌, ◌>>◌, collect,
}
use the_dashboard.Workflow.Database.{
  system, WorkflowEvent, dead_letter, dead_letter_announced, Db, Session, get_by_id_or_raise,
  append_event, emit,
}

pub record DeadLetterRecord : Type 0 where
  pub workflow_id : ℕ
  pub reason : String
  pub retry_count : ℕ
  pub last_error : String
  pub recorded_at : ℕ

-- `DeadLetterRuntime.mark`
unfoldable pub mark :
    (workflow_id : ℕ) (reason : String) (retry_count : ℕ) (last_error : String) (now : ℕ)
    → Session DeadLetterRecord
unfolding append_event emit
mark workflow_id reason retry_count last_error now = do
  wf ← get_by_id_or_raise workflow_id
  append_event workflow_id (dead_letter reason retry_count last_error now) system none
      wf.correlation_id
  emit (dead_letter_announced workflow_id reason retry_count) (some wf.correlation_id)
  pure (record {
    workflow_id = workflow_id;
    reason = reason;
    retry_count = retry_count;
    last_error = last_error;
    recorded_at = now;
  })

-- The record of an event. Its time is the one that `push` puts into the event; the source reads the
-- time at which the row was created instead.
abbrev pub letter_of : WorkflowEvent → Option DeadLetterRecord
letter_of e = elim e.body [
  | dead_letter reason retry_count last_error at ↦ some (record {
    workflow_id = e.workflow_id;
    reason = reason;
    retry_count = retry_count;
    last_error = last_error;
    recorded_at = at;
  })
  | _ ↦ none
]

abbrev pub newest_first {ℓ} : {A : Type ℓ} → List A → List A
newest_first [] = []
newest_first (x ∷ xs) = newest_first xs ++ x ∷ []

-- `DeadLetterRuntime.get_dead_letters`
unfoldable pub get_dead_letters : Db → List DeadLetterRecord
get_dead_letters db = collect letter_of (newest_first db.events)
