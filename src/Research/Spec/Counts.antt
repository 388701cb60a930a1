-- ===== src/Research/Spec/Counts.antt =====
-- The numbers behind the check of a specification (backend/research/graph.py).
use the_dashboard.Common.{
  ℕ, false, Bool, List, [], ◌∷◌, ◌++◌, ◌+◌, ◌-◌, ◌≤◌, ◌≡◌, refl, ◌∙◌, arith, ◌==◌, length,
  length-append, map, select, total, total-append, occurs, nat_elem, if◌then◌else◌, Bool-cases, inl,
  inr,
}
use the_dashboard.Research.Tables.{TaskDependency}
use the_dashboard.Research.Graph.{adjacency, in_degree}
use the_dashboard.Research.Graph.Counts.{
  edges, waiting, occurs-distinct, occurs-downstream, occurs-select,
}
use the_dashboard.Research.Spec.{Sweep, free, free_all, all_ids, start_sweep}

-- Whether a node still waits.
abbrev pub waits : Sweep → ℕ → ℕ
waits st v = if st.degree v == 0 then 0 else 1

-- How often a node is waiting, queued or visited.
abbrev pub seen : ℕ → Sweep → ℕ
seen v st = occurs v st.queue + occurs v st.visited + waits st v

pub free_all-degree :
    (v : ℕ) (ds : List ℕ) (st : Sweep) → (free_all ds st).degree v ≡ st.degree v - occurs v ds
unfolding free_all
free_all-degree v [] st = omega arith
free_all-degree v (d ∷ ds) st = ground (arith, free_all-degree v ds (free d st))

pub free_all-visited : (ds : List ℕ) (st : Sweep) → (free_all ds st).visited ≡ st.visited
unfolding free_all
free_all-visited [] st = refl
free_all-visited (d ∷ ds) st = free_all-visited ds (free d st)

-- A node that is freed moves from those that wait to the queue, or stays where it is.
seen-free : (v d : ℕ) (st : Sweep) → seen v (free d st) ≡ seen v st
seen-free v d st = ground (arith, total-append (λ x. if x == v then 1 else 0) st.queue (d ∷ []))

pub seen-free_all : (v : ℕ) (ds : List ℕ) (st : Sweep) → seen v (free_all ds st) ≡ seen v st
unfolding free_all
seen-free_all v [] st = refl
seen-free_all v (d ∷ ds) st = seen-free_all v ds (free d st) ∙ seen-free v d st

-- The nodes that are queued or wait.
abbrev pub left_over : List ℕ → Sweep → ℕ
left_over all st = length st.queue + total (waits st) all

total-free :
    (d : ℕ) (st : Sweep) (all : List ℕ)
    → total (waits (free d st)) all + (if st.degree d == 1 then occurs d all else 0)
      ≡ total (waits st) all
total-free d st [] = ground arith
total-free d st (x ∷ all) = ground (arith, total-free d st all)

left_over-free :
    (d : ℕ) (st : Sweep) (all : List ℕ)
    → 1 ≤ occurs d all
    → left_over all (free d st) ≤ left_over all st
left_over-free d st all h = ground (arith, total-free d st all, length-append st.queue (d ∷ []))

pub left_over-free_all :
    (ds all : List ℕ) (st : Sweep)
    → ((x : ℕ) → 1 ≤ occurs x ds → 1 ≤ occurs x all)
    → left_over all (free_all ds st) ≤ left_over all st
unfolding free_all
left_over-free_all [] all st h = omega arith
left_over-free_all (d ∷ ds) all st h = omega (
  arith,
  left_over-free_all ds all (free d st) (λ x k. h x (ground arith)),
  left_over-free d st all (h d (ground arith)),
)

-- The nodes that an edge leads to.
edges_up :
    (u v : ℕ) (deps : List TaskDependency)
    → edges u v deps ≤ occurs u (map (λ d. d.upstream_task_id) deps)
edges_up u v [] = omega arith
edges_up u v (d ∷ deps) = ground (arith, edges_up u v deps)

edges_down :
    (u v : ℕ) (deps : List TaskDependency)
    → edges u v deps ≤ occurs v (map (λ d. d.downstream_task_id) deps)
edges_down u v [] = omega arith
edges_down u v (d ∷ deps) = ground (arith, edges_down u v deps)

pub edges-waiting :
    (u v : ℕ) (order : List ℕ) (deps : List TaskDependency)
    → nat_elem u order ≡ false
    → edges u v deps ≤ waiting v order deps
edges-waiting u v order [] h = omega arith
edges-waiting u v order (d ∷ deps) h = ground (arith, edges-waiting u v order deps)

pub total_at : (f : ℕ → ℕ) (v : ℕ) (xs : List ℕ) → 1 ≤ occurs v xs → f v ≤ total f xs
total_at f v [] h = absurd (omega arith)
total_at f v (x ∷ xs) h = elim (Bool-cases (x == v)) [
  | inl e ↦ let p : x ≡ v = ground arith in rw p (omega arith)
  | inr n ↦ ground (arith, total_at f v xs)
]

length-select :
    (test : ℕ → Bool) (xs : List ℕ)
    → length (select test xs) + total (λ v. if test v then 0 else 1) xs ≡ length xs
length-select test [] = refl
length-select test (x ∷ xs) = ground (arith, length-select test xs)

module _ (deps : List TaskDependency) where
  pub occurs-all_ids_le : (v : ℕ) → occurs v (all_ids deps) ≤ 1
  unfolding all_ids
  occurs-all_ids_le v = ground (
    arith,
    occurs-distinct v (map (λ d. d.upstream_task_id) deps ++ map (λ d. d.downstream_task_id) deps),
  )

  pub occurs-all_ids :
      (u v : ℕ) → 1 ≤ edges u v deps → (1 ≤ occurs u (all_ids deps)) × (1 ≤ occurs v (all_ids deps))
  unfolding all_ids
  occurs-all_ids u v h =
      let ups = map (λ d. d.upstream_task_id) deps in
      let downs = map (λ d. d.downstream_task_id) deps in
      (
        ground (
          arith,
          occurs-distinct u (ups ++ downs),
          edges_up u v deps,
          total-append (λ x. if x == u then 1 else 0) ups downs,
        ),
        ground (
          arith,
          occurs-distinct v (ups ++ downs),
          edges_down u v deps,
          total-append (λ x. if x == v then 1 else 0) ups downs,
        ),
      )

  -- A node is freed at most once by each other, and only over an edge.
  pub occurs-adjacency_le : (q v : ℕ) → occurs v (adjacency [] deps q) ≤ edges q v deps
  unfolding adjacency
  occurs-adjacency_le q v = ground (
    arith,
    occurs-distinct v
        (map (λ d. d.downstream_task_id) (select (λ d. d.upstream_task_id == q) deps)),
    occurs-downstream q v deps,
  )

  pub left_over-start : left_over (all_ids deps) (start_sweep deps) ≡ length (all_ids deps)
  unfolding start_sweep
  left_over-start = length-select (λ v. in_degree [] deps v == 0) (all_ids deps)

  pub seen-start :
      (v : ℕ)
      → (seen v (start_sweep deps) ≤ 1)
        × (1 ≤ occurs v (all_ids deps) → seen v (start_sweep deps) ≡ 1)
  unfolding start_sweep
  seen-start v =
      let one = occurs-all_ids_le v in
      let chosen = occurs-select (λ v. in_degree [] deps v == 0) v (all_ids deps) in
      (ground (arith, chosen, one), λ h. ground (arith, chosen, one))
