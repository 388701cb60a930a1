-- ===== src/Research/Spec.antt =====
-- backend/research/graph.py: the construction of a task graph from its specification. The dict
-- `in_deg_uuid` is a function, and the sets of identifiers are lists without repetition, whose order
-- plays no part in what is counted. The proofs are in the modules below this one.
pub mod Counts
pub mod Loop
pub mod Cycles
pub mod Acyclic
use the_dashboard.Common.{
  ℕ, zero, suc, Bool, not, ◌||◌, ◌&&◌, List, [], ◌∷◌, ◌++◌, ◌==◌, ltb, leb, Outcome, returned,
  raised, pure, gets, modify, raise_if, ◌>>=◌, ◌>>◌, any_of, select, length, map, sorted,
  if◌then◌else◌,
}
use the_dashboard.Research.Tables.{
  ResearchTask, TaskDependency, Store, Session, ResearchError, duplicate_index, cycle_in_spec,
  out_of_fuel, integrity_error,
}
use the_dashboard.Research.Task.{ResearchTaskSpec, create}
use the_dashboard.Research.Graph.{distinct, lower, adjacency, in_degree}

-- research/contracts.py; an edge has the columns of its table.
pub record ResearchGraphSpec : Type 0 where
  pub job_id : ℕ
  pub tasks : List ResearchTaskSpec
  pub dependencies : List TaskDependency

-- The variables of the check: `in_deg_uuid`, the queue and the nodes that were visited.
pub record Sweep : Type 0 where
  pub degree : ℕ → ℕ
  pub queue : List ℕ
  pub visited : List ℕ

-- The body of the loop over the downstream tasks: a node is queued when its degree falls to 0, which
-- it does only from 1.
abbrev pub free : ℕ → Sweep → Sweep
free d st = record st {
  degree = lower d st.degree;
  queue = if st.degree d == 1 then st.queue ++ d ∷ [] else st.queue;
}

unfoldable pub free_all : List ℕ → Sweep → Sweep
free_all [] st = st
free_all (d ∷ ds) st = free_all ds (free d st)

module _ (deps : List TaskDependency) where
  -- `all_uuids`
  unfoldable pub all_ids : List ℕ
  all_ids = distinct (map (λ d. d.upstream_task_id) deps ++ map (λ d. d.downstream_task_id) deps)

  unfoldable pub start_sweep : Sweep
  unfolding in_degree all_ids
  start_sweep = record {
    degree = in_degree [] deps;
    queue = select (λ v. in_degree [] deps v == 0) all_ids;
    visited = [];
  }

  -- A node leaves the queue.
  unfoldable pub leave : ℕ → List ℕ → Sweep → Sweep
  unfolding free_all adjacency
  leave q qs st =
      free_all (adjacency [] deps q) (record st { queue = qs; visited = st.visited ++ q ∷ [] })

  -- `while queue`, with fuel
  unfoldable pub sweep : ℕ → Sweep → Outcome ResearchError Sweep
  unfolding leave
  sweep zero st = elim st.queue [ [] ↦ returned st | q ∷ qs ↦ raised out_of_fuel ]
  sweep (suc fuel) st = elim st.queue [ [] ↦ returned st | q ∷ qs ↦ sweep fuel (leave q qs st) ]

  abbrev pub all_visited : Outcome ResearchError Sweep → Outcome ResearchError (Unit {0})
  all_visited (raised e) = raised e
  all_visited (returned st) =
      if ltb (length st.visited) (length all_ids) then raised cycle_in_spec else returned tt

abbrev pub has_duplicates : List ResearchTaskSpec → Bool
has_duplicates tasks = not (length (distinct (map (λ t. t.task_index) tasks)) == length tasks)

-- `_validate_spec`; every round of the loop visits a node, so that their number is enough fuel.
unfoldable pub validate_spec : ResearchGraphSpec → Session (Unit {0})
unfolding sweep start_sweep all_ids
validate_spec spec = do
  raise_if (has_duplicates spec.tasks) duplicate_index
  λ s. (
    all_visited spec.dependencies (
        sweep spec.dependencies (length (all_ids spec.dependencies))
          (start_sweep spec.dependencies)),
    s,
  )

-- What the database refuses: two tasks are linked at most once, and both and the job have to exist.
abbrev pub is_refused : TaskDependency → Store → Bool
is_refused d s =
    any_of
      (λ e.
        e.upstream_task_id == d.upstream_task_id && e.downstream_task_id == d.downstream_task_id)
      s.dependencies
    || not (any_of (λ j. j.id == d.job_id) s.jobs)
    || not (any_of (λ t. t.id == d.upstream_task_id) s.tasks)
    || not (any_of (λ t. t.id == d.downstream_task_id) s.tasks)

-- `ResearchTaskRepository.add_dependency`
unfoldable pub add_dependency : TaskDependency → Session (Unit {0})
add_dependency d = do
  refused ← gets (is_refused d)
  raise_if refused integrity_error
  modify (λ s. record s { dependencies = s.dependencies ++ d ∷ [] })

unfoldable pub add_each : List TaskDependency → Session (Unit {0})
unfolding add_dependency
add_each [] = pure tt
add_each (d ∷ deps) = do add_dependency d; add_each deps

-- The tasks are created as `ResearchTaskRuntime.create` does it; `draw` gives the identifier and the
-- time of each.
unfoldable pub create_each :
    (draw : ResearchTaskSpec → ℕ × ℕ) → List ResearchTaskSpec → Session (List ResearchTask)
unfolding create
create_each draw [] = pure []
create_each draw (t ∷ ts) = do
  row ← create (draw t).0 (draw t).1 t
  records ← create_each draw ts
  pure (row ∷ records)

-- `ResearchTaskGraph.build`
unfoldable pub build :
    (draw : ResearchTaskSpec → ℕ × ℕ) → ResearchGraphSpec → Session (List ResearchTask)
unfolding validate_spec create_each add_each
build draw spec = do
  validate_spec spec
  records ← create_each draw spec.tasks
  add_each spec.dependencies
  pure (sorted (λ a b. leb a.task_index b.task_index) records)
