-- ===== src/Tests/Spec.antt =====
-- Runs of the construction of a task graph (backend/research/graph.py) on concrete specifications.
use the_dashboard.Common.{
  ℕ, none, List, [], ◌∷◌, ◌≡◌, ◌+◌, refl, arith, returned, raised, ◌==◌, Bool-cases, inl, inr,
}
use the_dashboard.Research.Tables.{TaskDependency, cycle_in_spec}
use the_dashboard.Research.Task.{ResearchTaskSpec, create, insert_task}
use the_dashboard.Research.Graph.{adjacency, in_degree}
use the_dashboard.Research.Spec.{
  ResearchGraphSpec, all_ids, start_sweep, leave, free_all, sweep, validate_spec, add_dependency,
  add_each, create_each, build,
}
use the_dashboard.Research.Spec.Cycles.{IsKnot, build-knot}
use the_dashboard.Research.Spec.Acyclic.{IsRank, IsSimple, validate_spec-acyclic}
use the_dashboard.Tests.Research.{one_job}

abbrev edge : (up down : ℕ) → TaskDependency
edge up down = record { job_id = 1; upstream_task_id = up; downstream_task_id = down }

abbrev task : (index : ℕ) → ResearchTaskSpec
task index = record {
  job_id = 1;
  task_index = index;
  task_type = "search";
  input_payload = [];
  depth = 0;
  max_retries = 3;
  task_key = none;
}

abbrev spec_with : List TaskDependency → ResearchGraphSpec
spec_with deps = record { job_id = 1; tasks = task 1 ∷ task 0 ∷ []; dependencies = deps }

abbrev draw : ResearchTaskSpec → ℕ × ℕ
draw t = (10 + t.task_index, 5)

abbrev chain : List TaskDependency
chain = edge 10 11 ∷ []

built : (build draw (spec_with chain) one_job).1.dependencies ≡ chain
unfolding build validate_spec sweep start_sweep all_ids leave free_all adjacency in_degree
    create_each create insert_task add_each add_dependency
built = refl

-- An edge that is listed twice is counted twice and freed once.
edge_twice :
    validate_spec (spec_with (edge 10 11 ∷ edge 10 11 ∷ [])) one_job
    ≡ (raised cycle_in_spec, one_job)
unfolding validate_spec sweep start_sweep all_ids leave free_all adjacency in_degree
edge_twice = refl

abbrev ring : List TaskDependency
ring = edge 10 11 ∷ edge 11 12 ∷ edge 12 11 ∷ []

ring-IsKnot : IsKnot (11 ∷ 12 ∷ []) ring
ring-IsKnot v h = elim (Bool-cases (v == 11)) [
  | inl e ↦ (12, refl, ground arith)
  | inr n ↦ (11, refl, ground arith)
]

build-knot_example : build draw (spec_with ring) one_job ≡ (raised cycle_in_spec, one_job)
build-knot_example = build-knot draw (spec_with ring) one_job (11 ∷ 12 ∷ []) 11 ring-IsKnot refl

chain-IsSimple : IsSimple chain
chain-IsSimple u v = ground arith

chain-IsRank : IsRank (λ v. v) chain
chain-IsRank u v h = ground arith

validate_spec-acyclic_example : validate_spec (spec_with chain) one_job ≡ (returned tt, one_job)
validate_spec-acyclic_example =
    validate_spec-acyclic (spec_with chain) one_job (λ v. v) refl chain-IsSimple chain-IsRank
