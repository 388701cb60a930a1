-- ===== src/Research/Calls/Accounts.antt =====
-- The accounts of the research jobs (backend/research) over sequences of calls.
use the_dashboard.Common.{ℕ, Option, some, List, [], ◌∷◌, ◌≤◌, ◌≡◌, refl, arith, returned, raised}
use the_dashboard.Research.Tables.{ResearchJob, TaskStatus, ResearchTask, Store, retries_exhausted}
use the_dashboard.Research.Task
use the_dashboard.Research.Calls.{ResearchCall, perform, serve}
use the_dashboard.Research.Calls.Balance.{job_row, task_row, IsBalanced}
use the_dashboard.Research.Calls.Kept.{
  BalancedStore, of_job-AreBalanced, create-AreBalanced, start-AreBalanced, retry-AreBalanced,
  complete-AreBalanced, fail-AreBalanced, cancel-AreBalanced, skip-AreBalanced,
}
use the_dashboard.Research.Calls.Retries.{retries}
use the_dashboard.Research.Calls.Retried.{
  RetriedStore, of_job-AreRetried, create-AreRetried, start-AreRetried, retry-AreRetried,
  complete-AreRetried, fail-AreRetried, cancel-AreRetried, skip-AreRetried,
}

perform-AreBalanced : (c : ResearchCall) (s : Store) → BalancedStore s → BalancedStore (perform c s)
unfolding perform
perform-AreBalanced (ResearchCall.of_job c) s inv = of_job-AreBalanced s inv c
perform-AreBalanced (ResearchCall.create id now spec) s inv = create-AreBalanced s inv id now spec
perform-AreBalanced (ResearchCall.start id actor now) s inv = start-AreBalanced s inv id actor now
perform-AreBalanced (ResearchCall.retry id actor now) s inv = retry-AreBalanced s inv id actor now
perform-AreBalanced (ResearchCall.complete id output tokens_in tokens_out actor now) s inv =
    complete-AreBalanced s inv id output tokens_in tokens_out actor now
perform-AreBalanced (ResearchCall.fail id error actor) s inv = fail-AreBalanced s inv id error actor
perform-AreBalanced (ResearchCall.cancel id actor) s inv = cancel-AreBalanced s inv id actor
perform-AreBalanced (ResearchCall.skip id actor) s inv = skip-AreBalanced s inv id actor

serve-AreBalanced :
    (cs : List ResearchCall) (s : Store) → BalancedStore s → BalancedStore (serve cs s)
unfolding serve
serve-AreBalanced [] s inv = inv
serve-AreBalanced (c ∷ cs) s inv = serve-AreBalanced cs (perform c s) (perform-AreBalanced c s inv)

perform-AreRetried : (c : ResearchCall) (s : Store) → RetriedStore s → RetriedStore (perform c s)
unfolding perform
perform-AreRetried (ResearchCall.of_job c) s inv = of_job-AreRetried s inv c
perform-AreRetried (ResearchCall.create id now spec) s inv = create-AreRetried s inv id now spec
perform-AreRetried (ResearchCall.start id actor now) s inv = start-AreRetried s inv id actor now
perform-AreRetried (ResearchCall.retry id actor now) s inv = retry-AreRetried s inv id actor now
perform-AreRetried (ResearchCall.complete id output tokens_in tokens_out actor now) s inv =
    complete-AreRetried s inv id output tokens_in tokens_out actor now
perform-AreRetried (ResearchCall.fail id error actor) s inv = fail-AreRetried s inv id error actor
perform-AreRetried (ResearchCall.cancel id actor) s inv = cancel-AreRetried s inv id actor
perform-AreRetried (ResearchCall.skip id actor) s inv = skip-AreRetried s inv id actor

serve-AreRetried : (cs : List ResearchCall) (s : Store) → RetriedStore s → RetriedStore (serve cs s)
unfolding serve
serve-AreRetried [] s inv = inv
serve-AreRetried (c ∷ cs) s inv = serve-AreRetried cs (perform c s) (perform-AreRetried c s inv)

abbrev pub no_tables : Store
no_tables = record { jobs = []; tasks = []; dependencies = []; events = [] }

-- After every sequence of calls of the job and the task runtime, from empty tables: a job is charged
-- exactly the tokens of its completed tasks and counts them, and the `retry_count` of a task is the
-- number of the `task_retried` events of it, which is at most its `max_retries`.
pub serve-IsBalanced :
    (cs : List ResearchCall)
    → ((k : ℕ) (j : ResearchJob)
        → job_row k (serve cs no_tables).jobs ≡ some j
        → IsBalanced j (serve cs no_tables).tasks)
      × ((k : ℕ) (t : ResearchTask)
          → task_row k (serve cs no_tables).tasks ≡ some t
          → (retries k (serve cs no_tables).events ≡ t.retry_count)
            × (retries k (serve cs no_tables).events ≤ t.max_retries))
serve-IsBalanced cs =
    let inv = serve-AreBalanced cs no_tables (record {
      present = λ k j f. absurd (ground arith);
      absent = λ k f. refl;
      retried = λ k t f. absurd (ground arith);
    }) in
    let counts =
      serve-AreRetried cs no_tables
        (record { present = λ k t f. absurd (ground arith); absent = λ k f. refl }) in
    (
      inv.present,
      λ k t f.
          let same = counts.present k t f in let bound = inv.retried k t f in (same, omega arith),
    )

-- A failed task can be started as well as retried: the start runs it again however often it was
-- retried, and counts no retry.
pub start-failed :
    (s : Store) (k : ℕ) (t : ResearchTask) (actor : Option ℕ) (now : ℕ)
    → task_row k s.tasks ≡ some t
    → t.status ≡ TaskStatus.failed
    → t.max_retries ≤ t.retry_count
    → ((Task.start k actor now s).0
        ≡ returned (record t { status = TaskStatus.running; started_at = some now }))
      × (Task.retry k actor now s ≡ (raised (retries_exhausted k t.max_retries), s))
unfolding Task.start Task.retry Task.write Task.require Task.get_for_update_or_raise Task.is_allowed
start-failed s k t actor now found failed spent =
    (rw found (rw failed refl), rw found (ground arith))
