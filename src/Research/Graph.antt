-- ===== src/Research/Graph.antt =====
-- backend/research/graph.py: the dependencies between the tasks of a research job. The dicts
-- `in_degree` and `id_to_index` are functions, and `ResearchError.missing_index` is the `KeyError`
-- of the second. The proofs are in the modules below this one.
pub mod Counts
pub mod Visit
pub mod Order
pub mod Verdict
use the_dashboard.Common.{
  ℕ, zero, suc, Bool, true, false, not, ◌||◌, ◌&&◌, Option, none, some, List, [], ◌∷◌, ◌++◌, ◌+◌,
  ◌-◌, ◌==◌, leb, Exec, Outcome, returned, raised, pure, raise, gets, modify, raise_if, or_raise,
  ◌>>=◌, ◌>>◌, any_of, select, collect, nat_elem, length, get_row, map, sorted, if◌then◌else◌,
}
use the_dashboard.Research.Tables.{
  TaskStatus, ResearchTask, TaskDependency, Store, Session, ResearchError, missing_index,
  out_of_fuel, cycle,
}
use the_dashboard.Research.Task.{same_status}

-- research/contracts.py
pub record ResearchGraphOrder : Type 0 where
  pub job_id : ℕ
  pub task_indices : List ℕ
  pub levels : List (List ℕ)

-- `ResearchTaskRepository.list_by_job`
abbrev pub list_by_job : (job_id : ℕ) → Store → List ResearchTask
list_by_job job_id s =
    sorted (λ a b. leb a.task_index b.task_index) (select (λ t. t.job_id == job_id) s.tasks)

-- `ResearchTaskRepository.get_dependencies`
abbrev pub get_dependencies : (job_id : ℕ) → Store → List TaskDependency
get_dependencies job_id s = select (λ d. d.job_id == job_id) s.dependencies

-- The variables of the search: `in_degree`, the part of the queue that the level appends, the tasks
-- that were visited and their indices.
pub record Search : Type 0 where
  pub degree : ℕ → ℕ
  pub queue : List ℕ
  pub order : List ℕ
  pub indices : List ℕ

-- A set of numbers, in the order in which they were added.
abbrev pub distinct : List ℕ → List ℕ
distinct [] = []
distinct (x ∷ xs) = if nat_elem x xs then distinct xs else x ∷ distinct xs

-- `in_degree[d] -= 1`; the number is never 0 then, since a task is visited once.
abbrev pub lower : ℕ → (ℕ → ℕ) → ℕ → ℕ
lower d degree v = if v == d then degree v - 1 else degree v

-- The body of the loop over the downstream tasks.
abbrev pub release : ℕ → Search → Search
release d st = record st {
  degree = lower d st.degree;
  queue = if lower d st.degree d == 0 then st.queue ++ d ∷ [] else st.queue;
}

unfoldable pub release_all : List ℕ → Search → Search
release_all [] st = st
release_all (d ∷ ds) st = release_all ds (release d st)

module _ (tasks : List ResearchTask) (deps : List TaskDependency) where
  abbrev pub index_of_row : Option ResearchTask → Option ℕ
  index_of_row none = none
  index_of_row (some t) = some t.task_index

  -- `id_to_index[id]`
  unfoldable pub index_of : ℕ → Option ℕ
  index_of id = index_of_row (get_row (λ t. t.id) id tasks)

  abbrev pub keyed : ℕ → Option ℕ → Option (List (ℕ × ℕ)) → Option (List (ℕ × ℕ))
  keyed id none rest = none
  keyed id (some i) none = none
  keyed id (some i) (some rest) = some ((i, id) ∷ rest)

  -- The ids with their indices.
  unfoldable pub with_indices : List ℕ → Option (List (ℕ × ℕ))
  with_indices [] = some []
  with_indices (id ∷ ids) = keyed id (index_of id) (with_indices ids)

  abbrev pub in_order : Option (List (ℕ × ℕ)) → Option (List ℕ)
  in_order none = none
  in_order (some pairs) = some (map (λ p. p.1) (sorted (λ p q. leb p.0 q.0) pairs))

  -- `sorted(ids, key=lambda tid: id_to_index[tid])`
  unfoldable pub sort_ids : List ℕ → Option (List ℕ)
  unfolding with_indices
  sort_ids ids = in_order (with_indices ids)

  -- `adjacency[id]`
  unfoldable pub adjacency : ℕ → List ℕ
  adjacency id =
      distinct (map (λ d. d.downstream_task_id) (select (λ d. d.upstream_task_id == id) deps))

  -- `in_degree` before the search: the number of the edges to a task.
  unfoldable pub in_degree : ℕ → ℕ
  in_degree id = length (select (λ d. d.downstream_task_id == id) deps)

  -- A task leaves the queue.
  unfoldable pub visit : ℕ → Exec Search ResearchError ℕ
  unfolding index_of sort_ids adjacency release_all
  visit id = do
    index ← or_raise (index_of id) missing_index
    modify (λ st. record st { order = st.order ++ id ∷ []; indices = st.indices ++ index ∷ [] })
    downstream ← or_raise (sort_ids (adjacency id)) missing_index
    modify (release_all downstream)
    pure index

  -- `for _ in range(level_size)`
  unfoldable pub visit_level : List ℕ → Exec Search ResearchError (List ℕ)
  visit_level [] = pure []
  visit_level (id ∷ ids) = do
    index ← visit id
    level_indices ← visit_level ids
    pure (index ∷ level_indices)

  -- `while queue`, with fuel
  unfoldable pub loop : ℕ → Exec Search ResearchError (List (List ℕ))
  loop zero st = elim st.queue [ [] ↦ (returned [], st) | q ∷ qs ↦ (raised out_of_fuel, st) ]
  loop (suc fuel) st = elim st.queue [
    | [] ↦ (returned [], st)
    | q ∷ qs ↦
        (do
          level_indices ← visit_level (q ∷ qs)
          levels ← loop fuel
          pure (sorted leb level_indices ∷ levels))
          (record st { queue = [] })
  ]

  -- The tasks without upstream tasks, in the order of their indices: every other key of `in_degree`
  -- has an edge.
  unfoldable pub start_search : List ℕ → Search
  unfolding in_degree
  start_search queue = record { degree = in_degree; queue = queue; order = []; indices = [] }

  unfoldable pub sources : List ℕ
  unfolding in_degree
  sources = select (λ id. in_degree id == 0) (map (λ t. t.id) tasks)

  abbrev pub finish :
      (job_id : ℕ)
      → Outcome ResearchError (List (List ℕ)) × Search
      → Outcome ResearchError ResearchGraphOrder
  finish job_id (raised e, st) = raised e
  finish job_id (returned levels, st) =
      if length st.order == length tasks
      then returned (record { job_id = job_id; task_indices = st.indices; levels = levels })
      else raised (cycle job_id)

  abbrev pub run : (job_id : ℕ) → Option (List ℕ) → Outcome ResearchError ResearchGraphOrder
  run job_id none = raised missing_index
  run job_id (some queue) = finish job_id (loop (length tasks) (start_search queue))

-- `ResearchTaskGraph.topological_order`; every round of the loop visits a task, so that the number of
-- the tasks is enough fuel.
unfoldable pub topological_order : (job_id : ℕ) → Session ResearchGraphOrder
unfolding sort_ids sources loop start_search
topological_order job_id s =
    let tasks = list_by_job job_id s in
    let deps = get_dependencies job_id s in
    (run tasks deps job_id (sort_ids tasks deps (sources tasks deps)), s)

abbrev is_completed : Option ResearchTask → Bool
is_completed none = false
is_completed (some t) = same_status t.status TaskStatus.completed

-- `ResearchTaskGraph.is_unblocked`
unfoldable pub is_unblocked : (task_id : ℕ) → Store → Bool
is_unblocked task_id s = not (
    any_of (λ d. not (is_completed (get_row (λ t. t.id) d.upstream_task_id s.tasks)))
      (select (λ d. d.downstream_task_id == task_id) s.dependencies))
