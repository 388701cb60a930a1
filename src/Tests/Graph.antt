-- ===== src/Tests/Graph.antt =====
-- Runs of the task graph (backend/research/graph.py) on concrete tables.
use the_dashboard.Common.{
  ℕ, true, false, none, List, [], ◌∷◌, ◌≡◌, ◌≤◌, ◌⊎◌, refl, arith, returned, raised, map, occurs,
}
use the_dashboard.Research.Tables.{TaskStatus, ResearchTask, TaskDependency, Store, cycle}
use the_dashboard.Research.Graph.{
  ResearchGraphOrder, list_by_job, get_dependencies, topological_order, loop, visit_level, visit,
  index_of, sort_ids, with_indices, adjacency, in_degree, release_all, start_search, sources,
  is_unblocked,
}
use the_dashboard.Research.Graph.Counts.{edges}
use the_dashboard.Research.Graph.Verdict.{IsOrder, AreRanked, topological_order-Answer}

abbrev task : (id index : ℕ) → TaskStatus → ResearchTask
task id index status = record {
  id = id;
  job_id = 1;
  task_index = index;
  status = status;
  task_key = none;
  task_type = "search";
  depth = 0;
  retry_count = 0;
  max_retries = 3;
  input_payload = [];
  output_payload = none;
  error = none;
  tokens_input = 0;
  tokens_output = 0;
  started_at = none;
  completed_at = none;
  created_at = 5;
}

abbrev edge : (up down : ℕ) → TaskDependency
edge up down = record { job_id = 1; upstream_task_id = up; downstream_task_id = down }

abbrev with_edges : List TaskDependency → Store
with_edges deps = record {
  jobs = [];
  tasks =
      task 10 0 TaskStatus.pending
      ∷ task 11 1 TaskStatus.completed
      ∷ task 12 2 TaskStatus.pending
      ∷ [];
  dependencies = deps;
  events = [];
}

-- The task of index 2 comes before that of index 0.
abbrev diamond : Store
diamond = with_edges (edge 12 10 ∷ edge 11 10 ∷ edge 11 12 ∷ [])

topological_order-diamond : topological_order 1 diamond ≡ (
  returned (record {
    job_id = 1;
    task_indices = 1 ∷ 2 ∷ 0 ∷ [];
    levels = (1 ∷ []) ∷ (2 ∷ []) ∷ (0 ∷ []) ∷ [];
  }),
  diamond,
)
unfolding topological_order loop visit_level visit index_of sort_ids with_indices adjacency
    in_degree release_all start_search sources
topological_order-diamond = refl

topological_order-loop :
    topological_order 1 (with_edges (edge 10 12 ∷ edge 12 10 ∷ []))
    ≡ (raised (cycle 1), with_edges (edge 10 12 ∷ edge 12 10 ∷ []))
unfolding topological_order loop visit_level visit index_of sort_ids with_indices adjacency
    in_degree release_all start_search sources
topological_order-loop = refl

is_unblocked-diamond : (is_unblocked 12 diamond ≡ true) × (is_unblocked 10 diamond ≡ false)
unfolding is_unblocked
is_unblocked-diamond = (refl, refl)

ids_once : (v : ℕ) → occurs v (map (λ t. t.id) diamond.tasks) ≤ 1
ids_once v = ground arith

edges_once : (u v : ℕ) → edges u v diamond.dependencies ≤ 1
edges_once u v = ground arith

topological_order-Answer_example :
    ((order : ResearchGraphOrder) × (topological_order 1 diamond ≡ (returned order, diamond))
      × IsOrder (list_by_job 1 diamond) (get_dependencies 1 diamond) order)
    ⊎ ((topological_order 1 diamond ≡ (raised (cycle 1), diamond))
        × ((rank : ℕ → ℕ) → ¬ AreRanked rank (get_dependencies 1 diamond)))
topological_order-Answer_example =
    topological_order-Answer 1 diamond ids_once edges_once
      (refl, refl, (refl, refl, (refl, refl, tt)))
