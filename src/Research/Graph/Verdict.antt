-- ===== src/Research/Graph/Verdict.antt =====
-- What `topological_order` of backend/research/graph.py says of the dependencies of a job.
use the_dashboard.Common.{
  ℕ, zero, suc, true, none, some, List, [], ◌∷◌, ◌+◌, ◌≤◌, ◌<◌, ◌≡◌, ◌⊎◌, refl, ap, subst, arith,
  ◌==◌, leb, any_of, select, length, length-map, map, Outcome, returned, raised, total-sorted,
  total-map, occurs, occurs-rest, occurs-nat_elem, Option-cases, Bool-cases, inl, inr,
  if◌then◌else◌,
}
use native.Mathlib.Nat.{le_trans}
use the_dashboard.Research.Tables.{ResearchTask, TaskDependency, Store, ResearchError, cycle}
use the_dashboard.Research.Graph.{
  Search, ResearchGraphOrder, index_of, sort_ids, adjacency, in_degree, sources, finish, run,
  list_by_job, get_dependencies, topological_order,
}
use the_dashboard.Research.Graph.Counts.{
  edges, waiting, occurs-adjacency, is_task, occurs-ids, occurs-select, occurs_no_task,
  sort_ids_missing, none_occurs, total-select-le,
}
use the_dashboard.Research.Graph.Visit.{Respects, After, index_missing}
use the_dashboard.Research.Graph.Order.{IsDone, search-IsDone}

-- Every edge leads to a task of higher rank: there is no cycle.
abbrev pub AreRanked : (ℕ → ℕ) → List TaskDependency → Type 0
AreRanked rank [] = Unit
AreRanked rank (d ∷ deps) =
    (rank d.upstream_task_id < rank d.downstream_task_id) × AreRanked rank deps

-- Every edge is between two of the tasks.
abbrev pub AreBetween : List ResearchTask → List TaskDependency → Type 0
AreBetween tasks [] = Unit
AreBetween tasks (d ∷ deps) =
    (any_of (λ t. t.id == d.upstream_task_id) tasks ≡ true)
    × (any_of (λ t. t.id == d.downstream_task_id) tasks ≡ true)
    × AreBetween tasks deps

-- The indices are those of the tasks in an order that has each task once, every one behind the tasks
-- that it depends on.
pub record IsOrder (tasks : List ResearchTask) (deps : List TaskDependency)
    (order : ResearchGraphOrder) : Type 0 where
  pub visited : List ℕ
  pub each : (v : ℕ) → occurs v visited ≡ occurs v (map (λ t. t.id) tasks)
  pub respects : Respects visited deps
  pub indexed : map (index_of tasks deps) visited ≡ map some order.task_indices

task_of_edge :
    (tasks : List ResearchTask) (u v : ℕ) (deps : List TaskDependency)
    → AreBetween tasks deps
    → 1 ≤ edges u v deps
    → any_of (λ t. t.id == v) tasks ≡ true
task_of_edge tasks u v [] b n = absurd (omega arith)
task_of_edge tasks u v (d ∷ deps) b n = elim (Bool-cases (d.downstream_task_id == v)) [
  | inl here ↦ let p : d.downstream_task_id ≡ v = ground arith in rw p at b.1
  | inr other ↦ task_of_edge tasks u v deps b.2 (ground arith)
]

-- No edge waits for a task whose upstream tasks were all visited.
waiting-none :
    (tasks : List ResearchTask) (rank : ℕ → ℕ) (v : ℕ) (order : List ℕ) (deps : List TaskDependency)
    → ((u : ℕ) → rank u < rank v → any_of (λ t. t.id == u) tasks ≡ true → 1 ≤ occurs u order)
    → AreRanked rank deps
    → AreBetween tasks deps
    → waiting v order deps ≡ 0
waiting-none tasks rank v order [] h r b = refl
waiting-none tasks rank v order (d ∷ deps) h r b =
    let rest = waiting-none tasks rank v order deps h r.1 b.2 in
    elim (Bool-cases (d.downstream_task_id == v)) [
      | inr other ↦ ground arith
      | inl here ↦
          let p : d.downstream_task_id ≡ v = ground arith in
          let n = h d.upstream_task_id (subst (λ i. rank d.upstream_task_id < rank i) p r.0) b.0 in
          ground (arith, occurs-nat_elem d.upstream_task_id order)
    ]

module _ (tasks : List ResearchTask) (deps : List TaskDependency)
    (once : (v : ℕ) → occurs v (map (λ t. t.id) tasks) ≤ 1)
    (unique : (u v : ℕ) → edges u v deps ≤ 1) (between : AreBetween tasks deps) where
  abbrev ids : List ℕ
  ids = map (λ t. t.id) tasks

  -- Every downstream task has an index.
  sorted_downstream : (id : ℕ) → sort_ids tasks deps (adjacency tasks deps id) ≡ none → ⊥
  sorted_downstream id h =
      let (v, n, missing) = sort_ids_missing tasks deps (adjacency tasks deps id) h in
      let e = occurs-adjacency tasks deps id v (unique id v) in
      let t = task_of_edge tasks id v deps between (omega arith) in
      let f = index_missing tasks deps unique v missing in cc

  sorted_sources : sort_ids tasks deps (sources tasks deps) ≡ none → ⊥
  unfolding sources in_degree
  sorted_sources h =
      let (v, n, missing) = sort_ids_missing tasks deps (sources tasks deps) h in
      let f = index_missing tasks deps unique v missing in
      absurd (
        ground
          (arith, occurs-select (λ id. in_degree tasks deps id == 0) v ids, occurs_no_task v tasks))

  abbrev IsEnd : Search → Type 0
  IsEnd = IsDone tasks deps unique ⊥ sorted_downstream

  -- Without a cycle every task is visited.
  all_visited :
      (rank : ℕ → ℕ) (t : Search)
      → AreRanked rank deps
      → IsEnd t
      → (n v : ℕ) → rank v < n
      → is_task tasks deps v ≡ true
      → 1 ≤ occurs v t.order
  all_visited rank t r end zero v lt task = absurd (omega arith)
  all_visited rank t r end (suc n) v lt task =
      let ready =
        waiting-none tasks rank v t.order deps
          (λ u less is. all_visited rank t r end n u (omega arith) is) r between in
      let c = end.kept.counts v in
      let d = end.kept.degrees v in let q = ap (occurs v) end.empty in ground arith

  -- The tasks that were not visited.
  unvisited :
      (t : Search)
      → IsEnd t
      → (rest : List ℕ) × ((v : ℕ) → occurs v ids ≡ occurs v t.order + occurs v rest)
        × (length ids ≡ length t.order + length rest)
  unvisited t end =
      occurs-rest t.order ids (λ v. ground (arith, end.kept.counts v, occurs-ids tasks deps v))

  -- Without a cycle the search visits as many tasks as there are.
  length-order_ranked :
      (rank : ℕ → ℕ) (t : Search) → AreRanked rank deps → IsEnd t → length t.order ≡ length tasks
  length-order_ranked rank t r end =
      let (rest, counts, lengths) = unvisited t end in
      let e : rest ≡ [] = none_occurs rest (λ v. elim (Bool-cases (is_task tasks deps v)) [
        | inl task ↦
            let n = all_visited rank t r end (suc (rank v)) v (omega arith) task in
            omega (arith, counts v, once v)
        | inr other ↦ omega (arith, counts v, occurs_no_task v tasks other)
      ]) in
      omega (arith, ap length e, length-map (λ (x : ResearchTask). x.id) tasks)

  -- A search that visited as many tasks as there are visited each once.
  end-IsOrder :
      (t : Search) (job_id : ℕ) (levels : List (List ℕ))
      → IsEnd t
      → length t.order ≡ length tasks
      → IsOrder tasks deps (record { job_id = job_id; task_indices = t.indices; levels = levels })
  end-IsOrder t job_id levels end all =
      let (rest, counts, lengths) = unvisited t end in
      let l = length-map (λ (x : ResearchTask). x.id) tasks in
      record {
        visited = t.order;
        each = λ v. none_left rest (omega arith) v (counts v);
        respects = end.kept.respects;
        indexed = end.indexed;
      }
    where
      none_left :
          (rest : List ℕ)
          → length rest ≡ 0
          → (v : ℕ) → occurs v ids ≡ occurs v t.order + occurs v rest
          → occurs v t.order ≡ occurs v ids
      none_left [] h v e = omega arith
      none_left (x ∷ xs) h v e = absurd (omega arith)

  abbrev Answer : (job_id : ℕ) → Outcome ResearchError ResearchGraphOrder → Type 0
  Answer job_id r =
      ((order : ResearchGraphOrder) × (r ≡ returned order) × IsOrder tasks deps order)
      ⊎ ((r ≡ raised (cycle job_id)) × ((rank : ℕ → ℕ) → ¬ AreRanked rank deps))

  finish-Answer :
      (job_id : ℕ) (r : Outcome ResearchError (List (List ℕ)) × Search)
      → After ⊥ (λ levels t. IsEnd t) r
      → Answer job_id (finish tasks deps job_id r)
  finish-Answer job_id (raised e, t) (p, b) = absurd b
  finish-Answer job_id (returned levels, t) end =
      elim (Bool-cases (length t.order == length tasks)) [
        | inl all ↦ inl (
          record { job_id = job_id; task_indices = t.indices; levels = levels },
          rw all refl,
          end-IsOrder t job_id levels end (ground arith),
        )
        | inr some_left ↦ inr (
          rw some_left refl,
          λ rank r. let n = length-order_ranked rank t r end in absurd (ground arith),
        )
      ]

  pub run-Answer :
      (job_id : ℕ)
      → Answer job_id (run tasks deps job_id (sort_ids tasks deps (sources tasks deps)))
  run-Answer job_id = elim (Option-cases (sort_ids tasks deps (sources tasks deps))) [
    | inl stuck ↦ absurd (sorted_sources stuck)
    | inr (queue, e) ↦
        rw e (
          finish-Answer job_id _ (search-IsDone tasks deps unique ⊥ sorted_downstream queue once e))
  ]

-- Where the ids of the tasks and the edges are unique, as the tables require, and every dependency of
-- the job is between two of its tasks: `topological_order` changes nothing, and it either returns the
-- indices of the tasks in an order that has each task once, behind all that it depends on, or raises
-- the error of a cycle, and then no ranking of the tasks puts every task above those it depends on.
pub topological_order-Answer :
    (job_id : ℕ) (s : Store)
    → ((v : ℕ) → occurs v (map (λ t. t.id) s.tasks) ≤ 1)
    → ((u v : ℕ) → edges u v s.dependencies ≤ 1)
    → AreBetween (list_by_job job_id s) (get_dependencies job_id s)
    → ((order : ResearchGraphOrder) × (topological_order job_id s ≡ (returned order, s))
        × IsOrder (list_by_job job_id s) (get_dependencies job_id s) order)
      ⊎ ((topological_order job_id s ≡ (raised (cycle job_id), s))
          × ((rank : ℕ → ℕ) → ¬ AreRanked rank (get_dependencies job_id s)))
unfolding topological_order
topological_order-Answer job_id s ids_once edges_once between =
    let tasks = list_by_job job_id s in
    let deps = get_dependencies job_id s in
    let once : (v : ℕ) → occurs v (map (λ t. t.id) tasks) ≤ 1 = λ v. once_in_job v in
    let unique : (u v : ℕ) → edges u v deps ≤ 1 = λ u v.
      le_trans (total-select-le _ (λ d. d.job_id == job_id) s.dependencies) (edges_once u v) in
    elim (run-Answer tasks deps once unique between job_id) [
      | inl (order, e, o) ↦ inl (order, rw e refl, o)
      | inr (e, c) ↦ inr (rw e refl, c)
    ]
  where
    once_in_job : (v : ℕ) → occurs v (map (λ t. t.id) (list_by_job job_id s)) ≤ 1
    once_in_job v =
        let f : ResearchTask → ℕ = λ t. if t.id == v then 1 else 0 in
        let picked = select (λ t. t.job_id == job_id) s.tasks in
        let a =
          total-map (λ x. if x == v then 1 else 0) (λ (t : ResearchTask). t.id)
            (list_by_job job_id s) in
        let b = total-sorted f (λ a b. leb a.task_index b.task_index) picked in
        let c = total-select-le f (λ t. t.job_id == job_id) s.tasks in
        let d = total-map (λ x. if x == v then 1 else 0) (λ (t : ResearchTask). t.id) s.tasks in
        omega (arith, ids_once v)
