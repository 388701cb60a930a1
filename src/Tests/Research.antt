-- ===== src/Tests/Research.antt =====
-- Runs of the research jobs (backend/research/job.py) on concrete tables.
use the_dashboard.Common.{ℕ, ◌≤◌, none, some, List, [], ◌∷◌, ◌≡◌, refl}
use the_dashboard.Research.Tables.{failed, ResearchJob, ResearchTask, Store}
use the_dashboard.Research.Job.{ResearchJobSpec, new_job}
use the_dashboard.Research.Job.Reach.{JobCall, Goes, serve, serve-Goes}
use the_dashboard.Research.Task.{ResearchTaskSpec}
use the_dashboard.Research.Calls.{ResearchCall}
use the_dashboard.Research.Calls
use the_dashboard.Research.Calls.Balance.{job_row, task_row, IsBalanced}
use the_dashboard.Research.Calls.Retries.{retries}
use the_dashboard.Research.Calls.Accounts.{no_tables, serve-IsBalanced}

abbrev spec : ResearchJobSpec
spec = record {
  job_key = "market";
  token_budget = 16384;
  max_depth = 10;
  sophia_session_id = none;
  workflow_id = none;
  initiated_by = some 7;
  plan_id = none;
  job_metadata = [];
}

abbrev pub one_job : Store
one_job = record { jobs = new_job 1 5 spec ∷ []; tasks = []; dependencies = []; events = [] }

abbrev run : List JobCall
run =
    JobCall.create 2 6 spec
    ∷ JobCall.start 1 none 10
    ∷ JobCall.pause 1 none none 20
    ∷ JobCall.complete 1 none 25
    ∷ JobCall.resume 1 none
    ∷ JobCall.fail 1 "timeout" none
    ∷ []

serve-Goes_example : Goes 1 (new_job 1 5 spec) failed (serve run one_job)
serve-Goes_example = serve-Goes run 1 (new_job 1 5 spec) one_job refl

abbrev task_spec : ResearchTaskSpec
task_spec = record {
  job_id = 1;
  task_index = 0;
  task_type = "search";
  input_payload = [];
  depth = 0;
  max_retries = 1;
  task_key = none;
}

abbrev working : List ResearchCall
working =
    ResearchCall.of_job (JobCall.create 1 5 spec)
    ∷ ResearchCall.create 10 6 task_spec
    ∷ ResearchCall.start 10 none 7
    ∷ ResearchCall.fail 10 "timeout" none
    ∷ ResearchCall.retry 10 none 8
    ∷ ResearchCall.complete 10 [] 300 40 none 9
    ∷ []

serve-IsBalanced_example :
    ((k : ℕ) (j : ResearchJob)
      → job_row k (Calls.serve working no_tables).jobs ≡ some j
      → IsBalanced j (Calls.serve working no_tables).tasks)
    × ((k : ℕ) (t : ResearchTask)
        → task_row k (Calls.serve working no_tables).tasks ≡ some t
        → (retries k (Calls.serve working no_tables).events ≡ t.retry_count)
          × (retries k (Calls.serve working no_tables).events ≤ t.max_retries))
serve-IsBalanced_example = serve-IsBalanced working
