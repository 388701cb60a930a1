-- ===== src/Workflow/RetryCoordinator/Limit.antt =====
-- A workflow whose failures are all reported to backend/workflows/retry_coordinator.py.
use the_dashboard.Common.{
  ℕ, String, Bool, true, none, some, List, [], ◌∷◌, ◌++◌, ◌≡◌, ◌≤◌, ◌<◌, ◌+◌, ◌-◌, ◌==◌, refl, ap,
  subst, ◌∙◌, sym, arith, leb, min, Bool-cases, inl, inr, length, after_seconds, select, collect,
  collect-append, find_last-snoc_hit, length-append, select-append, append-nil,
}
use the_dashboard.Workflow.Database.{Workflow, WorkflowEvent, Db, get_by_id}
use the_dashboard.Workflow.Database.Rows.{get_by_id-same}
use the_dashboard.Workflow.Retries.{RetryPolicy, backoff}
use the_dashboard.Workflow.DeadLetter.{DeadLetterRecord, letter_of, newest_first, get_dead_letters}
use the_dashboard.Workflow.RetryCoordinator.{
  RetryRow, retry_rows, row_of_event, latest_row, get_current_state, schedule,
}
use the_dashboard.Workflow.RetryCoordinator.Attempts.{
  planned, exhausted, schedule-planned, schedule-exhausted,
}

abbrev is_for : ℕ → DeadLetterRecord → Bool
is_for id l = l.workflow_id == id

abbrev letters : ℕ → List WorkflowEvent → ℕ
letters id events = length (select (is_for id) (collect letter_of events))

-- The dead letters of a workflow.
abbrev pub dead_letters_of : ℕ → Db → List DeadLetterRecord
dead_letters_of id db = select (is_for id) (get_dead_letters db)

letters-append :
    (id : ℕ) (xs ys : List WorkflowEvent) → letters id (xs ++ ys) ≡ letters id xs + letters id ys
letters-append id xs ys = rw (collect-append letter_of xs ys) (
    rw (select-append (is_for id) (collect letter_of xs) (collect letter_of ys)) (
      length-append (select (is_for id) (collect letter_of xs))
        (select (is_for id) (collect letter_of ys))))

letters-newest_first :
    (id : ℕ) (events : List WorkflowEvent) → letters id (newest_first events) ≡ letters id events
letters-newest_first id [] = refl
letters-newest_first id (e ∷ es) =
    let p = letters-append id (newest_first es) (e ∷ []) in
    let q = letters-append id (e ∷ []) es in
    let r = letters-newest_first id es in p ∙ rw r (ground arith)

length-dead_letters_of : (id : ℕ) (db : Db) → length (dead_letters_of id db) ≡ letters id db.events
unfolding get_dead_letters
length-dead_letters_of id db = letters-newest_first id db.events

module _ (id : ℕ) (w : Workflow) (policy : RetryPolicy) (error : String) (now : ℕ) (db : Db) where
  attempt-planned :
      (attempt : ℕ)
      → (get_current_state id (planned id w policy error now db attempt)).attempt ≡ attempt + 1
  unfolding get_current_state
  attempt-planned attempt =
      let row : RetryRow = record {
        workflow_id = id;
        attempt = attempt + 1;
        next_retry_at = some (after_seconds now (backoff policy attempt));
        last_error = error;
      } in
      let own : (id == id) ≡ true = ground arith in
      rw (collect-append row_of_event db.events _)
        (rw (find_last-snoc_hit (λ r. r.workflow_id == id) (retry_rows db.events) row own) refl)

  attempt-exhausted :
      (attempt : ℕ)
      → get_current_state id (exhausted id w policy error now db attempt) ≡ get_current_state id db
  unfolding get_current_state
  attempt-exhausted attempt = rw (collect-append row_of_event (db.events ++ _) _) (
      rw (collect-append row_of_event db.events _)
        (rw (append-nil (retry_rows db.events)) (rw (append-nil (retry_rows db.events)) refl)))

  letters-planned :
      (attempt : ℕ)
      → letters id (planned id w policy error now db attempt).events ≡ letters id db.events
  letters-planned attempt = letters-append id db.events _ ∙ omega arith

  letters-exhausted :
      (attempt : ℕ)
      → letters id (exhausted id w policy error now db attempt).events ≡ letters id db.events + 1
  letters-exhausted attempt =
      letters-append id (db.events ++ _) _ ∙ rw (letters-append id db.events _) (ground arith)

-- Every failure of the list, with its error and its time, is reported.
unfoldable pub schedule_all : ℕ → RetryPolicy → List (String × ℕ) → Db → Db
schedule_all id policy [] db = db
schedule_all id policy ((error, now) ∷ failures) db =
    schedule_all id policy failures (schedule id error (some policy) now db).1

module _ (id : ℕ) (w : Workflow) (policy : RetryPolicy) where
  -- What is known after `reported` more failures than the `attempt` of the start.
  abbrev IsAfter : (reported sent : ℕ) → Db → Type 0
  IsAfter reported sent db =
      ((get_current_state id db).attempt ≡ min reported policy.max_retries)
      × (letters id db.events ≡ sent + (reported - policy.max_retries))

  schedule_all-letters :
      (failures : List (String × ℕ)) (db : Db) (attempt : ℕ)
      → get_by_id id db ≡ some w
      → (get_current_state id db).attempt ≡ attempt
      → attempt ≤ policy.max_retries
      → IsAfter
          (attempt + length failures)
          (letters id db.events)
          (schedule_all id policy failures db)
  unfolding schedule_all
  schedule_all-letters [] db attempt found a k = (a ∙ ground arith, ground arith)
  schedule_all-letters ((error, now) ∷ failures) db attempt found a k =
      elim (Bool-cases (leb policy.max_retries attempt)) [
        | inl full ↦
            let m : policy.max_retries ≤ attempt = ground arith in
            let ended : Db = exhausted id w policy error now db (attempt + 1) in
            let again : get_by_id id ended ≡ some w = get_by_id-same id ended db refl ∙ found in
            let a' : (get_current_state id ended).attempt ≡ attempt =
              ap (λ s. s.attempt) (attempt-exhausted id w policy error now db (attempt + 1)) ∙ a in
            let (p, q) = schedule_all-letters failures ended attempt again a' k in
            let one = letters-exhausted id w policy error now db (attempt + 1) in
            let step =
              ap (λ r. r.1) (schedule-exhausted id w policy error now db found attempt a m) in
            subst
              (λ d.
                IsAfter (attempt + length ((error, now) ∷ failures)) (letters id db.events)
                  (schedule_all id policy failures d))
              (sym step) (p ∙ ground arith, q ∙ ground arith)
        | inr left ↦
            let m : attempt < policy.max_retries = ground arith in
            let next : Db = planned id w policy error now db attempt in
            let again : get_by_id id next ≡ some w = get_by_id-same id next db refl ∙ found in
            let a' = attempt-planned id w policy error now db attempt in
            let k' : attempt + 1 ≤ policy.max_retries = ground arith in
            let (p, q) = schedule_all-letters failures next (attempt + 1) again a' k' in
            let same = letters-planned id w policy error now db attempt in
            let step =
              ap (λ r. r.1) (schedule-planned id w policy error now db found attempt a m) in
            subst
              (λ d.
                IsAfter (attempt + length ((error, now) ∷ failures)) (letters id db.events)
                  (schedule_all id policy failures d))
              (sym step) (p ∙ ground arith, q ∙ ground arith)
      ]

-- When `n` failures are reported of a workflow that had no retry before, then the last planned retry
-- has the number min(n, max_retries), and there is a dead letter for each failure beyond
-- `max_retries`, beside those that were there.
pub schedule_all-limit :
    (id : ℕ) (w : Workflow) (policy : RetryPolicy) (failures : List (String × ℕ)) (db : Db)
    → get_by_id id db ≡ some w
    → latest_row id db ≡ none
    → let db' = schedule_all id policy failures db in
      ((get_current_state id db').attempt ≡ min (length failures) policy.max_retries)
      × (length (dead_letters_of id db')
          ≡ length (dead_letters_of id db) + (length failures - policy.max_retries))
unfolding get_current_state
schedule_all-limit id w policy failures db found none_yet =
    let zero_yet : (get_current_state id db).attempt ≡ 0 = rw none_yet refl in
    let (p, q) = schedule_all-letters id w policy failures db 0 found zero_yet (omega arith) in
    let l = length-dead_letters_of id db in
    let l' = length-dead_letters_of id (schedule_all id policy failures db) in
    (p ∙ ground arith, l' ∙ q ∙ ground arith)
