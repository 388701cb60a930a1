-- ===== src/Research/Calls/Retried.antt =====
-- The count of the retries through the operations of backend/research/job.py and task.py.
use the_dashboard.Common.{
  ℕ, String, false, Option, none, some, ◌≡◌, refl, sym, subst, arith, ◌>>=◌, leb, str_eq, find_by,
  get_row, get_row-key, Option-cases, Bool-cases, inl, inr,
}
use the_dashboard.Workflow.Database.{Dict}
use the_dashboard.Research.Tables.{
  JobStatus, ResearchJob, TaskStatus, ResearchTask, ResearchEventBody, Store, Session,
}
use the_dashboard.Research.Job
use the_dashboard.Research.Job.{ResearchJobSpec, new_job}
use the_dashboard.Research.Job.Reach
use the_dashboard.Research.Job.Reach.{JobCall}
use the_dashboard.Research.Task
use the_dashboard.Research.Task.{ResearchTaskSpec, is_allowed, new_task, find_key}
use the_dashboard.Research.Calls.Balance.{task_row}
use the_dashboard.Research.Calls.Retries.{
  is_retry_body, AreRetried, task_row-fresh, quiet-AreRetried, kept-AreRetried, counted-AreRetried,
  new-AreRetried,
}

abbrev pub RetriedStore : Store → Type 0
RetriedStore s = AreRetried s.tasks s.events

module _ (s : Store) (inv : RetriedStore s) where
  -- The jobs.
  require_job :
      (id : ℕ) (target : JobStatus) (change : ResearchJob → ResearchJob)
      (body : ResearchJob → ResearchEventBody) (actor : Option ℕ)
      → ((row : ResearchJob) → is_retry_body (body row) ≡ false)
      → RetriedStore
          ((Job.require id target >>= λ row. Job.write (change row) (body row) actor) s).1
  unfolding Job.require Job.get_for_update_or_raise Job.write
  require_job id target change body actor q = elim (Option-cases (get_row (λ j. j.id) id s.jobs)) [
    | inl missing ↦ rw missing inv
    | inr (row, found) ↦ rw found (elim (Bool-cases (Job.is_allowed row.status target)) [
      | inl fits ↦ rw fits (quiet-AreRetried s.tasks s.events inv _ (q row))
      | inr off ↦ rw off inv
    ])
  ]

  create_job : (id now : ℕ) (spec : ResearchJobSpec) → RetriedStore (Job.create id now spec s).1
  unfolding Job.create
  create_job id now spec =
      elim (Option-cases (find_by (λ j. str_eq j.job_key spec.job_key) s.jobs)) [
        | inr (row, found) ↦ rw found inv
        | inl free ↦ rw free (elim (Bool-cases (Job.clashes (new_job id now spec) s)) [
          | inl clash ↦ rw clash inv
          | inr fine ↦ rw fine (quiet-AreRetried s.tasks s.events inv _ refl)
        ])
      ]

  checkpoint_job :
      (id : ℕ) (state : Dict) (actor : Option ℕ) → RetriedStore (Job.checkpoint id state actor s).1
  unfolding Job.checkpoint Job.get_for_update_or_raise Job.write
  checkpoint_job id state actor = elim (Option-cases (get_row (λ j. j.id) id s.jobs)) [
    | inl missing ↦ rw missing inv
    | inr (row, found) ↦ rw found (quiet-AreRetried s.tasks s.events inv _ refl)
  ]

  pub of_job-AreRetried : (c : JobCall) → RetriedStore (Reach.perform c s)
  unfolding Reach.perform Job.start Job.pause Job.resume Job.complete Job.fail Job.cancel
  of_job-AreRetried (JobCall.create id now spec) = create_job id now spec
  of_job-AreRetried (JobCall.checkpoint id state actor) = checkpoint_job id state actor
  of_job-AreRetried (JobCall.start id actor now) = require_job id _ _ _ actor (λ row. refl)
  of_job-AreRetried (JobCall.resume id actor) = require_job id _ _ _ actor (λ row. refl)
  of_job-AreRetried (JobCall.pause id state actor now) = require_job id _ _ _ actor (λ row. refl)
  of_job-AreRetried (JobCall.complete id actor now) = require_job id _ _ _ actor (λ row. refl)
  of_job-AreRetried (JobCall.fail id error actor) = require_job id _ _ _ actor (λ row. refl)
  of_job-AreRetried (JobCall.cancel id reason actor now) = require_job id _ _ _ actor (λ row. refl)

  -- The tasks.
  require_task :
      (id : ℕ) (target : TaskStatus) (f : ResearchTask → Session ResearchTask)
      → ((row : ResearchTask) → task_row row.id s.tasks ≡ some row → RetriedStore (f row s).1)
      → RetriedStore ((Task.require id target >>= f) s).1
  unfolding Task.require Task.get_for_update_or_raise
  require_task id target f h = elim (Option-cases (task_row id s.tasks)) [
    | inl missing ↦ rw missing inv
    | inr (row, found) ↦ rw found (elim (Bool-cases (is_allowed row.status target)) [
      | inl fits ↦
          let own = get_row-key (λ t. t.id) id s.tasks row found in
          rw fits (h row (subst (λ i. task_row i s.tasks ≡ some row) (sym own) found))
      | inr off ↦ rw off inv
    ])
  ]

  pub start-AreRetried :
      (id : ℕ) (actor : Option ℕ) (now : ℕ) → RetriedStore (Task.start id actor now s).1
  unfolding Task.start Task.write
  start-AreRetried id actor now =
      require_task id _ _
        (λ row found. kept-AreRetried s.tasks s.events inv row _ _ found refl refl)

  pub fail-AreRetried :
      (id : ℕ) (error : String) (actor : Option ℕ) → RetriedStore (Task.fail id error actor s).1
  unfolding Task.fail Task.write
  fail-AreRetried id error actor =
      require_task id _ _
        (λ row found. kept-AreRetried s.tasks s.events inv row _ _ found refl refl)

  pub cancel-AreRetried : (id : ℕ) (actor : Option ℕ) → RetriedStore (Task.cancel id actor s).1
  unfolding Task.cancel Task.write
  cancel-AreRetried id actor =
      require_task id _ _
        (λ row found. kept-AreRetried s.tasks s.events inv row _ _ found refl refl)

  pub skip-AreRetried : (id : ℕ) (actor : Option ℕ) → RetriedStore (Task.skip id actor s).1
  unfolding Task.skip Task.write
  skip-AreRetried id actor =
      require_task id _ _
        (λ row found. kept-AreRetried s.tasks s.events inv row _ _ found refl refl)

  pub complete-AreRetried :
      (id : ℕ) (output : Dict) (tokens_in tokens_out : ℕ) (actor : Option ℕ) (now : ℕ)
      → RetriedStore (Task.complete id output tokens_in tokens_out actor now s).1
  unfolding Task.complete
  complete-AreRetried id output tokens_in tokens_out actor now =
      require_task id _ _
        (λ row found. kept-AreRetried s.tasks s.events inv row _ _ found refl refl)

  pub retry-AreRetried :
      (id : ℕ) (actor : Option ℕ) (now : ℕ) → RetriedStore (Task.retry id actor now s).1
  unfolding Task.retry Task.write
  retry-AreRetried id actor now = elim (Option-cases (task_row id s.tasks)) [
    | inl missing ↦ rw missing inv
    | inr (row, found) ↦ rw found (elim (Bool-cases (leb row.max_retries row.retry_count)) [
      | inl spent ↦ rw spent inv
      | inr left ↦ rw left (elim (Bool-cases (is_allowed row.status TaskStatus.running)) [
        | inr off ↦ rw off inv
        | inl fits ↦
            let own = get_row-key (λ t. t.id) id s.tasks row found in
            rw fits (
              counted-AreRetried s.tasks s.events inv row _ _
                (subst (λ i. task_row i s.tasks ≡ some row) (sym own) found) refl refl refl)
      ])
    ])
  ]

  free_of_clash :
      (id now : ℕ) (spec : ResearchTaskSpec)
      → Task.clashes (new_task id now spec) s ≡ false
      → task_row id s.tasks ≡ none
  free_of_clash id now spec fine =
      task_row-fresh id (λ t. Task.same_key t.task_key spec.task_key) s.tasks (ground arith)

  insert-AreRetried :
      (id now : ℕ) (spec : ResearchTaskSpec)
      → RetriedStore (Task.insert_task (new_task id now spec) s).1
  unfolding Task.insert_task
  insert-AreRetried id now spec = elim (Bool-cases (Task.clashes (new_task id now spec) s)) [
    | inl clash ↦ rw clash inv
    | inr fine ↦ rw fine (
        new-AreRetried s.tasks s.events inv (new_task id now spec) _
          (free_of_clash id now spec fine) refl refl)
  ]

  pub create-AreRetried :
      (id now : ℕ) (spec : ResearchTaskSpec) → RetriedStore (Task.create id now spec s).1
  unfolding Task.create
  create-AreRetried id now spec = elim (Option-cases (find_key spec.task_key s.tasks)) [
    | inr (old, found) ↦ rw found inv
    | inl free ↦ rw free (insert-AreRetried id now spec)
  ]
