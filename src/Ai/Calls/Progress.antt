-- ===== src/Ai/Calls/Progress.antt =====
-- How an execution comes to its end (backend/ai/lifecycle.py).
use the_dashboard.Common.{
  ℕ, zero, suc, String, Bool, true, false, none, some, List, [], ◌∷◌, ◌+◌, ◌≤◌, length, ◌≡◌, refl,
  sym, subst, ◌∙◌, ◌>>=◌, Outcome, arith, ltb, put_row, get_row-key, get_row-put_row_self,
}
use the_dashboard.Workflow.Database.{Dict}
use the_dashboard.Ai.Execution
use the_dashboard.Ai.Execution.{
  ExecutionStatus, pending, running, completed, failed, cancelled, awaiting_approval, same_status,
  AiExecution, Notice, AiError, Store, Session, get_for_update_or_raise, write, require, limit,
}
use the_dashboard.Ai.Calls.{AiCall, perform, serve}
use the_dashboard.Ai.Calls.Counted.{stored}

write-stored :
    (k : ℕ) (s : Store) (row row' : AiExecution) (body : Notice)
    → stored k s.executions ≡ some row
    → row'.id ≡ row.id
    → stored k (write row' body s).1.executions ≡ some row'
unfolding write
write-stored k s row row' body found same =
    let p : row'.id ≡ k = same ∙ get_row-key (λ e. e.id) k s.executions row found in
    let at : stored row'.id s.executions ≡ some row =
      subst (λ i. stored i s.executions ≡ some row) (sym p) found in
    subst (λ i. stored i (put_row (λ e. e.id) row' s.executions) ≡ some row') p
      (get_row-put_row_self (λ e. e.id) row' s.executions row at)

-- What holds of a method with the row that it asked for.
require-rule :
    {A : Type 0} (P : Outcome AiError A × Store → Type 0) (k : ℕ) (s : Store) (row : AiExecution)
    (status : ExecutionStatus) (f : AiExecution → Session A)
    → stored k s.executions ≡ some row
    → same_status row.status status ≡ true
    → P (f row s)
    → P ((require k status >>= f) s)
unfolding require get_for_update_or_raise
require-rule P k s row status f found fits h = rw (found, fits) h

-- One failing attempt after the other.
unfoldable pub failing : (rounds execution_id now : ℕ) (error : String) → List AiCall
failing zero k now error = []
failing (suc n) k now error = AiCall.start k now ∷ AiCall.fail k error ∷ failing n k now error

module _ (k now : ℕ) (error : String) where
  abbrev started_row : AiExecution → AiExecution
  started_row row = record row {
    status = running;
    started_at = some now;
    attempt = suc row.attempt;
  }

  after_start :
      (s : Store) (row : AiExecution)
      → stored k s.executions ≡ some row
      → same_status row.status pending ≡ true
      → stored k (perform (AiCall.start k now) s).executions ≡ some (started_row row)
  unfolding perform Execution.start
  after_start s row found fits =
      require-rule (λ r. stored k r.1.executions ≡ some (started_row row)) k s row pending _ found
        fits (write-stored k s row _ _ found refl)

  after_retry :
      (s : Store) (row : AiExecution)
      → stored k s.executions ≡ some row
      → same_status row.status running ≡ true
      → ltb row.attempt (limit row.max_attempts) ≡ true
      → stored k (perform (AiCall.fail k error) s).executions
        ≡ some (record row { status = pending; error = some error; started_at = none })
  unfolding perform Execution.fail
  after_retry s row found fits more =
      require-rule
        (λ r.
          stored k r.1.executions
          ≡ some (record row { status = pending; error = some error; started_at = none }))
        k s row running _ found fits (rw more (write-stored k s row _ _ found refl))

  after_failure :
      (s : Store) (row : AiExecution)
      → stored k s.executions ≡ some row
      → same_status row.status running ≡ true
      → ltb row.attempt (limit row.max_attempts) ≡ false
      → stored k (perform (AiCall.fail k error) s).executions
        ≡ some (record row { status = failed; error = some error })
  unfolding perform Execution.fail
  after_failure s row found fits over =
      require-rule
        (λ r. stored k r.1.executions ≡ some (record row { status = failed; error = some error })) k
        s row running _ found fits (rw over (write-stored k s row _ _ found refl))

  -- An execution that waits for a start fails for good after as many failing attempts as its limit
  -- leaves, and not before.
  pub serve-failing :
      (n : ℕ) (s : Store) (row : AiExecution)
      → stored k s.executions ≡ some row
      → same_status row.status pending ≡ true
      → row.attempt + suc n ≡ limit row.max_attempts
      → (v : AiExecution) × (stored k (serve (failing (suc n) k now error) s).executions ≡ some v)
        × (v.status ≡ failed)
        × (v.attempt ≡ limit row.max_attempts)
  unfolding serve failing
  serve-failing zero s row found fits last =
      let f = after_start s row found fits in
      (_, after_failure _ _ f refl (ground arith), refl, omega arith)
  serve-failing (suc n) s row found fits more =
      let f = after_start s row found fits in
      let g = after_retry _ _ f refl (ground arith) in serve-failing n _ _ g refl (omega arith)

-- The calls that bring an execution to its completion, by its status.
unfoldable pub finishing :
    ExecutionStatus → (execution_id now tokens_used : ℕ) (output : Dict) → List AiCall
finishing pending k now tokens output =
    AiCall.start k now ∷ AiCall.complete k output tokens now ∷ []
finishing awaiting_approval k now tokens output =
    AiCall.resume_from_approval k ∷ AiCall.complete k output tokens now ∷ []
finishing _ k now tokens output = AiCall.complete k output tokens now ∷ []

-- Neither final nor failed.
abbrev pub is_live : ExecutionStatus → Bool
is_live pending = true
is_live running = true
is_live awaiting_approval = true
is_live _ = false

module _ (k now tokens : ℕ) (output : Dict) where
  abbrev completed_row : AiExecution → AiExecution
  completed_row row = record row {
    status = completed;
    output_payload = some output;
    tokens_used = some tokens;
    completed_at = some now;
  }

  after_complete :
      (s : Store) (row : AiExecution)
      → stored k s.executions ≡ some row
      → same_status row.status running ≡ true
      → stored k (perform (AiCall.complete k output tokens now) s).executions
        ≡ some (completed_row row)
  unfolding perform Execution.complete
  after_complete s row found fits =
      require-rule (λ r. stored k r.1.executions ≡ some (completed_row row)) k s row running _ found
        fits (write-stored k s row _ _ found refl)

  after_resume :
      (s : Store) (row : AiExecution)
      → stored k s.executions ≡ some row
      → same_status row.status awaiting_approval ≡ true
      → stored k (perform (AiCall.resume_from_approval k) s).executions
        ≡ some (record row { status = running })
  unfolding perform Execution.resume_from_approval
  after_resume s row found fits =
      require-rule (λ r. stored k r.1.executions ≡ some (record row { status = running })) k s row
        awaiting_approval _ found fits (write-stored k s row _ _ found refl)

  -- The execution is there, completed with the output.
  abbrev pub IsFinished : List AiExecution → Type 0
  IsFinished rows =
      (v : AiExecution) × (stored k rows ≡ some v)
      × (v.status ≡ completed)
      × (v.output_payload ≡ some output)
      × (v.tokens_used ≡ some tokens)

  length-finishing : (status : ExecutionStatus) → length (finishing status k now tokens output) ≤ 2
  unfolding finishing
  length-finishing status = ground arith

  finish :
      (s : Store) (row : AiExecution)
      → stored k s.executions ≡ some row
      → same_status row.status running ≡ true
      → IsFinished (perform (AiCall.complete k output tokens now) s).executions
  finish s row found fits = (_, after_complete s row found fits, refl, refl, refl)

  finish_from :
      (status : ExecutionStatus) (s : Store) (row : AiExecution)
      → stored k s.executions ≡ some row
      → row.status ≡ status
      → is_live status ≡ true
      → IsFinished (serve (finishing status k now tokens output) s).executions
  unfolding serve finishing
  finish_from pending s row found e live = finish _ _ (after_start k now "" s row found (rw e)) refl
  finish_from running s row found e live = finish s row found (rw e)
  finish_from awaiting_approval s row found e live =
      finish _ _ (after_resume s row found (rw e)) refl
  finish_from completed s row found e live = cc
  finish_from failed s row found e live = cc
  finish_from cancelled s row found e live = cc

  -- An execution that waits for a start, runs or waits for an approval can be completed by at most
  -- two further calls.
  pub serve-finishing :
      (s : Store) (row : AiExecution)
      → stored k s.executions ≡ some row
      → is_live row.status ≡ true
      → IsFinished (serve (finishing row.status k now tokens output) s).executions
        × (length (finishing row.status k now tokens output) ≤ 2)
  serve-finishing s row found live =
      (finish_from row.status s row found refl live, length-finishing row.status)
