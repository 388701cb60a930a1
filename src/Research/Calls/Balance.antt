-- ===== src/Research/Calls/Balance.antt =====
-- What a research job is charged and what its tasks used (backend/research).
use the_dashboard.Common.{
  ℕ, Bool, true, false, ◌&&◌, Option, none, some, List, [], ◌∷◌, ◌++◌, ◌+◌, ◌≤◌, ◌≡◌, refl, sym, ap,
  ◌∙◌, arith, ◌==◌, any_of, any_of-append, get_row, put_row, map, total, total-snoc, total-put_row,
  any_of-put_row, get_row-key, get_row-put_row_cases, get_row-put_row-none, get_row-snoc_cases,
  get_row-snoc-none, get_row-map, get_row-map-none, inl, inr, if◌then◌else◌,
}
use the_dashboard.Research.Tables.{ResearchJob, TaskStatus, ResearchTask}
use the_dashboard.Research.Task.{same_status, count_up}

abbrev pub job_row : ℕ → List ResearchJob → Option ResearchJob
job_row = get_row (λ j. j.id)

abbrev pub task_row : ℕ → List ResearchTask → Option ResearchTask
task_row = get_row (λ t. t.id)

abbrev pub is_done : ResearchTask → Bool
is_done t = same_status t.status TaskStatus.completed

abbrev pub is_of : ℕ → ResearchTask → Bool
is_of k t = t.job_id == k

-- The tokens of a completed task of the job.
abbrev pub spent : ℕ → ResearchTask → ℕ
spent k t = if is_of k t && is_done t then t.tokens_input + t.tokens_output else 0

-- Whether it is a completed task of the job, as a number.
abbrev pub finished : ℕ → ResearchTask → ℕ
finished k t = if is_of k t && is_done t then 1 else 0

-- The job is charged the tokens of its completed tasks, and counts them.
pub record IsBalanced (j : ResearchJob) (tasks : List ResearchTask) : Type 0 where
  pub tokens : j.tokens_used ≡ total (spent j.id) tasks
  pub tasks_done : j.completed_task_count ≡ total (finished j.id) tasks

-- Every job is balanced, a task belongs to a job, and it was retried at most as often as it may be.
pub record AreBalanced (jobs : List ResearchJob) (tasks : List ResearchTask) : Type 0 where
  pub present : (k : ℕ) (j : ResearchJob) → job_row k jobs ≡ some j → IsBalanced j tasks
  pub absent : (k : ℕ) → job_row k jobs ≡ none → any_of (is_of k) tasks ≡ false
  pub retried :
      (k : ℕ) (t : ResearchTask) → task_row k tasks ≡ some t → t.retry_count ≤ t.max_retries

total-spent :
    (k : ℕ) (ts : List ResearchTask) → any_of (is_of k) ts ≡ false → total (spent k) ts ≡ 0
total-spent k [] h = refl
total-spent k (t ∷ ts) h = ground (arith, total-spent k ts)

total-finished :
    (k : ℕ) (ts : List ResearchTask) → any_of (is_of k) ts ≡ false → total (finished k) ts ≡ 0
total-finished k [] h = refl
total-finished k (t ∷ ts) h = ground (arith, total-finished k ts)

eq-false_of_owner :
    (i k : ℕ) (jobs : List ResearchJob)
    → any_of (λ j. j.id == i) jobs ≡ true
    → job_row k jobs ≡ none
    → (i == k) ≡ false
eq-false_of_owner i k [] h n = ground arith
eq-false_of_owner i k (j ∷ jobs) h n = ground (arith, eq-false_of_owner i k jobs)

same_id : (i d : ℕ) (j : ResearchJob) → (count_up i d j).id ≡ j.id
same_id i d j = ground arith

module _ (jobs : List ResearchJob) (tasks : List ResearchTask) (inv : AreBalanced jobs tasks) where
  -- A job row that is charged what it was charged.
  pub job-AreBalanced :
      (row row' : ResearchJob)
      → job_row row'.id jobs ≡ some row
      → row'.tokens_used ≡ row.tokens_used
      → row'.completed_task_count ≡ row.completed_task_count
      → AreBalanced (put_row (λ j. j.id) row' jobs) tasks
  job-AreBalanced row row' old used count = record {
    present = λ k j f. elim (get_row-put_row_cases (λ j. j.id) k row' jobs row j old f) [
      | inl (e, p) ↦
          let own : row.id ≡ row'.id = get_row-key (λ j. j.id) row'.id jobs row old in
          let b = inv.present row'.id row old in
          rw e (record {
            tokens = used ∙ b.tokens ∙ ap (λ i. total (spent i) tasks) own;
            tasks_done = count ∙ b.tasks_done ∙ ap (λ i. total (finished i) tasks) own;
          })
      | inr (f', n) ↦ inv.present k j f'
    ];
    absent = λ k f. inv.absent k (get_row-put_row-none (λ j. j.id) k row' jobs f);
    retried = inv.retried;
  }

  -- A new job has no tasks.
  pub new_job-AreBalanced :
      (row : ResearchJob)
      → job_row row.id jobs ≡ none
      → row.tokens_used ≡ 0
      → row.completed_task_count ≡ 0
      → AreBalanced (jobs ++ row ∷ []) tasks
  new_job-AreBalanced row free used count = record {
    present = λ k j f. elim (get_row-snoc_cases (λ j. j.id) k row jobs j f) [
      | inl old ↦ inv.present k j old
      | inr (gone, p, e) ↦
          let no_tasks = inv.absent row.id free in
          rw e (record {
            tokens = used ∙ sym (total-spent row.id tasks no_tasks);
            tasks_done = count ∙ sym (total-finished row.id tasks no_tasks);
          })
    ];
    absent = λ k f. inv.absent k (get_row-snoc-none (λ j. j.id) k row jobs f).0;
    retried = inv.retried;
  }

  -- A task row that is not completed before or after its change.
  pub task-AreBalanced :
      (row row' : ResearchTask)
      → task_row row'.id tasks ≡ some row
      → row'.job_id ≡ row.job_id
      → is_done row ≡ false
      → is_done row' ≡ false
      → row'.retry_count ≤ row'.max_retries
      → AreBalanced jobs (put_row (λ t. t.id) row' tasks)
  task-AreBalanced row row' old same open_still open_after bound = record {
    present = λ k j f.
        let b = inv.present k j f in
        let sums = total-put_row (spent j.id) (λ t. t.id) row' tasks row old in
        let counts = total-put_row (finished j.id) (λ t. t.id) row' tasks row old in
        record {
          tokens = ground (arith, b.tokens, sums);
          tasks_done = ground (arith, b.tasks_done, counts);
        };
    absent = λ k f.
        any_of-put_row (λ t. t.id) (is_of k) row' tasks row old (ap (λ i. i == k) same)
        ∙ inv.absent k f;
    retried = λ k t f. elim (get_row-put_row_cases (λ t. t.id) k row' tasks row t old f) [
      | inl (e, p) ↦ rw e bound
      | inr (f', n) ↦ inv.retried k t f'
    ];
  }

  -- A new task is not completed.
  pub new_task-AreBalanced :
      (row : ResearchTask)
      → any_of (λ j. j.id == row.job_id) jobs ≡ true
      → is_done row ≡ false
      → row.retry_count ≤ row.max_retries
      → AreBalanced jobs (tasks ++ row ∷ [])
  new_task-AreBalanced row owned open_still bound = record {
    present = λ k j f.
        let b = inv.present k j f in
        record {
          tokens = ground (arith, b.tokens, total-snoc (spent j.id) tasks row);
          tasks_done = ground (arith, b.tasks_done, total-snoc (finished j.id) tasks row);
        };
    absent = λ k f.
        any_of-append (is_of k) tasks (row ∷ [])
        ∙ ground (arith, inv.absent k f, eq-false_of_owner row.job_id k jobs);
    retried = λ k t f. elim (get_row-snoc_cases (λ t. t.id) k row tasks t f) [
      | inl old ↦ inv.retried k t old
      | inr (gone, p, e) ↦ rw e bound
    ];
  }

  -- The completion of a task, which is charged to its job.
  pub done-AreBalanced :
      (row row' : ResearchTask)
      → task_row row'.id tasks ≡ some row
      → row'.job_id ≡ row.job_id
      → is_done row ≡ false
      → is_done row' ≡ true
      → row'.retry_count ≤ row'.max_retries
      → AreBalanced
          (map (count_up row.job_id (row'.tokens_input + row'.tokens_output)) jobs)
          (put_row (λ t. t.id) row' tasks)
  done-AreBalanced row row' old same open_still over bound = record {
    present = λ k j f.
        let delta = row'.tokens_input + row'.tokens_output in
        let (x, at, e) =
          get_row-map (λ j. j.id) (count_up row.job_id delta) k jobs j (same_id row.job_id delta)
            f in
        let b = inv.present k x at in
        let sums = total-put_row (spent x.id) (λ t. t.id) row' tasks row old in
        let counts = total-put_row (finished x.id) (λ t. t.id) row' tasks row old in
        rw e (record {
          tokens = ground (arith, b.tokens, sums);
          tasks_done = ground (arith, b.tasks_done, counts);
        });
    absent = λ k f.
        let delta = row'.tokens_input + row'.tokens_output in
        any_of-put_row (λ t. t.id) (is_of k) row' tasks row old (ap (λ i. i == k) same)
        ∙ inv.absent k (
            get_row-map-none (λ j. j.id) (count_up row.job_id delta) k jobs
              (same_id row.job_id delta) f);
    retried = λ k t f. elim (get_row-put_row_cases (λ t. t.id) k row' tasks row t old f) [
      | inl (e, p) ↦ rw e bound
      | inr (f', n) ↦ inv.retried k t f'
    ];
  }
