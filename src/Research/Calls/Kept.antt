-- ===== src/Research/Calls/Kept.antt =====
-- The balance through the operations of backend/research/job.py and task.py.
use the_dashboard.Common.{
  ℕ, String, Bool, true, false, ◌||◌, Option, none, some, List, [], ◌∷◌, ◌≤◌, ◌≡◌, refl, sym, subst,
  arith, ◌==◌, leb, ◌>>=◌, str_eq, any_of, find_by, get_row-key, Option-cases, Bool-cases, inl, inr,
}
use the_dashboard.Workflow.Database.{Dict}
use the_dashboard.Research.Tables.{JobStatus, ResearchJob, TaskStatus, ResearchTask, Store, Session}
use the_dashboard.Research.Job
use the_dashboard.Research.Job.{ResearchJobSpec, new_job}
use the_dashboard.Research.Job.Reach
use the_dashboard.Research.Job.Reach.{JobCall}
use the_dashboard.Research.Task
use the_dashboard.Research.Task.{ResearchTaskSpec, is_allowed, new_task, find_key, same_key}
use the_dashboard.Research.Calls.Balance.{
  job_row, task_row, AreBalanced, job-AreBalanced, new_job-AreBalanced, task-AreBalanced,
  new_task-AreBalanced, done-AreBalanced,
}

abbrev pub BalancedStore : Store → Type 0
BalancedStore s = AreBalanced s.jobs s.tasks

free_of_clash :
    (id : ℕ) (test : ResearchJob → Bool) (jobs : List ResearchJob)
    → any_of (λ j. j.id == id || test j) jobs ≡ false
    → job_row id jobs ≡ none
free_of_clash id test [] h = refl
free_of_clash id test (j ∷ jobs) h = ground (arith, free_of_clash id test jobs)

-- A task that may move is not completed.
allowed-open :
    (from to : TaskStatus)
    → is_allowed from to ≡ true
    → Task.same_status from TaskStatus.completed ≡ false
unfolding is_allowed
allowed-open from to h = ground arith

module _ (s : Store) (inv : BalancedStore s) where
  -- The jobs.
  require_job :
      (id : ℕ) (target : JobStatus) (f : ResearchJob → Session ResearchJob)
      → ((row : ResearchJob) → job_row row.id s.jobs ≡ some row → BalancedStore (f row s).1)
      → BalancedStore ((Job.require id target >>= f) s).1
  unfolding Job.require Job.get_for_update_or_raise
  require_job id target f h = elim (Option-cases (job_row id s.jobs)) [
    | inl missing ↦ rw missing inv
    | inr (row, found) ↦ rw found (elim (Bool-cases (Job.is_allowed row.status target)) [
      | inl fits ↦
          let own = get_row-key (λ j. j.id) id s.jobs row found in
          rw fits (h row (subst (λ i. job_row i s.jobs ≡ some row) (sym own) found))
      | inr off ↦ rw off inv
    ])
  ]

  create_job : (id now : ℕ) (spec : ResearchJobSpec) → BalancedStore (Job.create id now spec s).1
  unfolding Job.create
  create_job id now spec =
      elim (Option-cases (find_by (λ j. str_eq j.job_key spec.job_key) s.jobs)) [
        | inr (row, found) ↦ rw found inv
        | inl free ↦ rw free (elim (Bool-cases (Job.clashes (new_job id now spec) s)) [
          | inl clash ↦ rw clash inv
          | inr fine ↦ rw fine (
              new_job-AreBalanced s.jobs s.tasks inv (new_job id now spec)
                (free_of_clash id _ s.jobs fine) refl refl)
        ])
      ]

  checkpoint_job :
      (id : ℕ) (state : Dict) (actor : Option ℕ) → BalancedStore (Job.checkpoint id state actor s).1
  unfolding Job.checkpoint Job.get_for_update_or_raise Job.write
  checkpoint_job id state actor = elim (Option-cases (job_row id s.jobs)) [
    | inl missing ↦ rw missing inv
    | inr (row, found) ↦
        let own = get_row-key (λ j. j.id) id s.jobs row found in
        rw found (
          job-AreBalanced s.jobs s.tasks inv row _
            (subst (λ i. job_row i s.jobs ≡ some row) (sym own) found) refl refl)
  ]

  pub of_job-AreBalanced : (c : JobCall) → BalancedStore (Reach.perform c s)
  unfolding Reach.perform Job.start Job.pause Job.resume Job.complete Job.fail Job.cancel Job.write
  of_job-AreBalanced (JobCall.create id now spec) = create_job id now spec
  of_job-AreBalanced (JobCall.checkpoint id state actor) = checkpoint_job id state actor
  of_job-AreBalanced (JobCall.start id actor now) =
      require_job id _ _ (λ row found. job-AreBalanced s.jobs s.tasks inv row _ found refl refl)
  of_job-AreBalanced (JobCall.resume id actor) =
      require_job id _ _ (λ row found. job-AreBalanced s.jobs s.tasks inv row _ found refl refl)
  of_job-AreBalanced (JobCall.pause id state actor now) =
      require_job id _ _ (λ row found. job-AreBalanced s.jobs s.tasks inv row _ found refl refl)
  of_job-AreBalanced (JobCall.complete id actor now) =
      require_job id _ _ (λ row found. job-AreBalanced s.jobs s.tasks inv row _ found refl refl)
  of_job-AreBalanced (JobCall.fail id error actor) =
      require_job id _ _ (λ row found. job-AreBalanced s.jobs s.tasks inv row _ found refl refl)
  of_job-AreBalanced (JobCall.cancel id reason actor now) =
      require_job id _ _ (λ row found. job-AreBalanced s.jobs s.tasks inv row _ found refl refl)

  -- The tasks.
  require_task :
      (id : ℕ) (target : TaskStatus) (f : ResearchTask → Session ResearchTask)
      → ((row : ResearchTask)
          → task_row row.id s.tasks ≡ some row
          → is_allowed row.status target ≡ true
          → row.retry_count ≤ row.max_retries
          → BalancedStore (f row s).1)
      → BalancedStore ((Task.require id target >>= f) s).1
  unfolding Task.require Task.get_for_update_or_raise
  require_task id target f h = elim (Option-cases (task_row id s.tasks)) [
    | inl missing ↦ rw missing inv
    | inr (row, found) ↦ rw found (elim (Bool-cases (is_allowed row.status target)) [
      | inl fits ↦
          let own = get_row-key (λ t. t.id) id s.tasks row found in
          rw fits (
            h row (subst (λ i. task_row i s.tasks ≡ some row) (sym own) found) fits
              (inv.retried id row found))
      | inr off ↦ rw off inv
    ])
  ]

  -- A change that completes nothing.
  pub start-AreBalanced :
      (id : ℕ) (actor : Option ℕ) (now : ℕ) → BalancedStore (Task.start id actor now s).1
  unfolding Task.start Task.write
  start-AreBalanced id actor now = require_task id _ _ (λ row found fits bound.
      task-AreBalanced s.jobs s.tasks inv row _ found refl (allowed-open _ _ fits) refl bound)

  pub fail-AreBalanced :
      (id : ℕ) (error : String) (actor : Option ℕ) → BalancedStore (Task.fail id error actor s).1
  unfolding Task.fail Task.write
  fail-AreBalanced id error actor = require_task id _ _ (λ row found fits bound.
      task-AreBalanced s.jobs s.tasks inv row _ found refl (allowed-open _ _ fits) refl bound)

  pub cancel-AreBalanced : (id : ℕ) (actor : Option ℕ) → BalancedStore (Task.cancel id actor s).1
  unfolding Task.cancel Task.write
  cancel-AreBalanced id actor = require_task id _ _ (λ row found fits bound.
      task-AreBalanced s.jobs s.tasks inv row _ found refl (allowed-open _ _ fits) refl bound)

  pub skip-AreBalanced : (id : ℕ) (actor : Option ℕ) → BalancedStore (Task.skip id actor s).1
  unfolding Task.skip Task.write
  skip-AreBalanced id actor = require_task id _ _ (λ row found fits bound.
      task-AreBalanced s.jobs s.tasks inv row _ found refl (allowed-open _ _ fits) refl bound)

  pub complete-AreBalanced :
      (id : ℕ) (output : Dict) (tokens_in tokens_out : ℕ) (actor : Option ℕ) (now : ℕ)
      → BalancedStore (Task.complete id output tokens_in tokens_out actor now s).1
  unfolding Task.complete
  complete-AreBalanced id output tokens_in tokens_out actor now =
      require_task id _ _ (λ row found fits bound.
        done-AreBalanced s.jobs s.tasks inv row
          (record row {
            status = TaskStatus.completed;
            output_payload = some output;
            tokens_input = tokens_in;
            tokens_output = tokens_out;
            completed_at = some now;
          })
          found refl (allowed-open _ _ fits) refl bound)

  pub retry-AreBalanced :
      (id : ℕ) (actor : Option ℕ) (now : ℕ) → BalancedStore (Task.retry id actor now s).1
  unfolding Task.retry Task.write
  retry-AreBalanced id actor now = elim (Option-cases (task_row id s.tasks)) [
    | inl missing ↦ rw missing inv
    | inr (row, found) ↦ rw found (elim (Bool-cases (leb row.max_retries row.retry_count)) [
      | inl spent ↦ rw spent inv
      | inr left ↦ rw left (elim (Bool-cases (is_allowed row.status TaskStatus.running)) [
        | inr off ↦ rw off inv
        | inl fits ↦
            let own = get_row-key (λ t. t.id) id s.tasks row found in
            rw fits (
              task-AreBalanced s.jobs s.tasks inv row _
                (subst (λ i. task_row i s.tasks ≡ some row) (sym own) found) refl
                (allowed-open _ _ fits) refl (ground arith))
      ])
    ])
  ]

  insert-AreBalanced :
      (id now : ℕ) (spec : ResearchTaskSpec)
      → BalancedStore (Task.insert_task (new_task id now spec) s).1
  unfolding Task.insert_task
  insert-AreBalanced id now spec = elim (Bool-cases (Task.clashes (new_task id now spec) s)) [
    | inl clash ↦ rw clash inv
    | inr fine ↦ rw fine (
        new_task-AreBalanced s.jobs s.tasks inv (new_task id now spec) (ground arith) refl
          (omega arith))
  ]

  pub create-AreBalanced :
      (id now : ℕ) (spec : ResearchTaskSpec) → BalancedStore (Task.create id now spec s).1
  unfolding Task.create
  create-AreBalanced id now spec = elim (Option-cases (find_key spec.task_key s.tasks)) [
    | inr (old, found) ↦ rw found inv
    | inl free ↦ rw free (insert-AreBalanced id now spec)
  ]
