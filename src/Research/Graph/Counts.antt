-- ===== src/Research/Graph/Counts.antt =====
-- The numbers behind the search of backend/research/graph.py: edges, degrees and occurrences.
use the_dashboard.Common.{
  ℕ, Bool, true, false, not, ◌&&◌, none, some, List, [], ◌∷◌, ◌++◌, ◌+◌, ◌-◌, ◌≤◌, ◌≡◌, refl, sym,
  ap, ◌∙◌, arith, ◌==◌, leb, any_of, any_of-append, select, nat_elem, length, get_row, map, sorted,
  total, total-sorted, total-map, total-append, some_inj, occurs, occurs-nat_elem, nat_elem-occurs,
  Option-cases, Bool-cases, inl, inr, if◌then◌else◌,
}
use the_dashboard.Research.Tables.{ResearchTask, TaskDependency}
use the_dashboard.Research.Graph.{
  Search, distinct, release, release_all, index_of, with_indices, sort_ids, adjacency,
}

-- The edges between two tasks.
abbrev pub edges : (up down : ℕ) → List TaskDependency → ℕ
edges up down =
    total (λ d. if d.upstream_task_id == up && d.downstream_task_id == down then 1 else 0)

-- The edges to a task from tasks that were not visited.
abbrev pub waiting : ℕ → List ℕ → List TaskDependency → ℕ
waiting v order =
    total
      (λ d. if d.downstream_task_id == v && not (nat_elem d.upstream_task_id order) then 1 else 0)

pub waiting-snoc :
    (u v : ℕ) (order : List ℕ) (deps : List TaskDependency)
    → nat_elem u order ≡ false
    → waiting v (order ++ u ∷ []) deps + edges u v deps ≡ waiting v order deps
waiting-snoc u v order [] h = omega arith
waiting-snoc u v order (d ∷ deps) h = ground (
  arith,
  waiting-snoc u v order deps h,
  any_of-append (λ y. d.upstream_task_id == y) order (u ∷ []),
)

pub in_degree-waiting :
    (v : ℕ) (deps : List TaskDependency)
    → length (select (λ d. d.downstream_task_id == v) deps) ≡ waiting v [] deps
in_degree-waiting v [] = refl
in_degree-waiting v (d ∷ deps) = ground (arith, in_degree-waiting v deps)

pub occurs-distinct :
    (v : ℕ) (xs : List ℕ) → occurs v (distinct xs) ≡ (if occurs v xs == 0 then 0 else 1)
occurs-distinct v [] = refl
occurs-distinct v (x ∷ xs) =
    ground (arith, occurs-distinct v xs, occurs-nat_elem x xs, nat_elem-occurs x xs)

pub occurs-downstream :
    (u v : ℕ) (deps : List TaskDependency)
    → occurs v (map (λ d. d.downstream_task_id) (select (λ d. d.upstream_task_id == u) deps))
      ≡ edges u v deps
occurs-downstream u v [] = refl
occurs-downstream u v (d ∷ deps) = ground (arith, occurs-downstream u v deps)

any_of_row :
    (v : ℕ) (ts : List ResearchTask) (t : ResearchTask)
    → get_row (λ t. t.id) v ts ≡ some t
    → any_of (λ t. t.id == v) ts ≡ true
any_of_row v [] t h = absurd (ground arith)
any_of_row v (x ∷ ts) t h = ground (arith, any_of_row v ts t)

occurs_row :
    (v : ℕ) (ts : List ResearchTask)
    → any_of (λ t. t.id == v) ts ≡ true
    → 1 ≤ occurs v (map (λ t. t.id) ts)
occurs_row v [] h = absurd (ground arith)
occurs_row v (t ∷ ts) h = ground (arith, occurs_row v ts)

module _ (tasks : List ResearchTask) (deps : List TaskDependency) where
  pub occurs-adjacency :
      (u v : ℕ) → edges u v deps ≤ 1 → occurs v (adjacency tasks deps u) ≡ edges u v deps
  unfolding adjacency
  occurs-adjacency u v h =
      occurs-distinct v
        (map (λ d. d.downstream_task_id) (select (λ d. d.upstream_task_id == u) deps))
      ∙ ground (arith, occurs-downstream u v deps)

  abbrev pub is_task : ℕ → Bool
  is_task v = any_of (λ t. t.id == v) tasks

  pub is_task_of_index : (v i : ℕ) → index_of tasks deps v ≡ some i → is_task v ≡ true
  unfolding index_of
  is_task_of_index v i h = elim (Option-cases (get_row (λ t. t.id) v tasks)) [
    | inl missing ↦ absurd (ground arith)
    | inr (t, found) ↦ any_of_row v tasks t found
  ]

  abbrev count_ids : ℕ → List (ℕ × ℕ) → ℕ
  count_ids v = total (λ p. if p.1 == v then 1 else 0)

  occurs-with_indices :
      (v : ℕ) (ids : List ℕ) (pairs : List (ℕ × ℕ))
      → with_indices tasks deps ids ≡ some pairs
      → count_ids v pairs ≡ occurs v ids
  unfolding with_indices
  occurs-with_indices v [] pairs h = ground arith
  occurs-with_indices v (id ∷ ids) pairs h = elim (Option-cases (index_of tasks deps id)) [
    | inl missing ↦ absurd (ground arith)
    | inr (i, at) ↦ elim (Option-cases (with_indices tasks deps ids)) [
      | inl stuck ↦ absurd (ground arith)
      | inr (rest, e) ↦ ground (arith, occurs-with_indices v ids rest e)
    ]
  ]

  pub occurs-sort_ids :
      (v : ℕ) (ids out : List ℕ) → sort_ids tasks deps ids ≡ some out → occurs v out ≡ occurs v ids
  unfolding sort_ids
  occurs-sort_ids v ids out h = elim (Option-cases (with_indices tasks deps ids)) [
    | inl stuck ↦ absurd (ground arith)
    | inr (pairs, e) ↦
        let o : map (λ p. p.1) (sorted (λ p q. leb p.0 q.0) pairs) ≡ out = some_inj (rw e at h) in
        ap (occurs v) (sym o)
        ∙ total-map _ (λ p. p.1) (sorted (λ p q. leb p.0 q.0) pairs)
        ∙ total-sorted _ (λ p q. leb p.0 q.0) pairs
        ∙ occurs-with_indices v ids pairs e
  ]

  is_task_of_pairs :
      (v : ℕ) (ids : List ℕ) (pairs : List (ℕ × ℕ))
      → with_indices tasks deps ids ≡ some pairs
      → 1 ≤ occurs v ids
      → is_task v ≡ true
  unfolding with_indices
  is_task_of_pairs v [] pairs h n = absurd (omega arith)
  is_task_of_pairs v (id ∷ ids) pairs h n = elim (Option-cases (index_of tasks deps id)) [
    | inl missing ↦ absurd (ground arith)
    | inr (i, at) ↦ elim (Option-cases (with_indices tasks deps ids)) [
      | inl stuck ↦ absurd (ground arith)
      | inr (rest, e) ↦ elim (Bool-cases (id == v)) [
        | inl here ↦ ground (arith, is_task_of_index id i at)
        | inr other ↦ is_task_of_pairs v ids rest e (ground arith)
      ]
    ]
  ]

  -- What is sorted by its index is a task of the job.
  pub is_task_of_sorted :
      (v : ℕ) (ids out : List ℕ)
      → sort_ids tasks deps ids ≡ some out
      → 1 ≤ occurs v ids
      → is_task v ≡ true
  unfolding sort_ids
  is_task_of_sorted v ids out h n = elim (Option-cases (with_indices tasks deps ids)) [
    | inl stuck ↦ absurd (ground arith)
    | inr (pairs, e) ↦ is_task_of_pairs v ids pairs e n
  ]

  pairs_missing :
      (ids : List ℕ)
      → with_indices tasks deps ids ≡ none
      → (v : ℕ) × (1 ≤ occurs v ids) × (index_of tasks deps v ≡ none)
  unfolding with_indices
  pairs_missing [] h = absurd (ground arith)
  pairs_missing (id ∷ ids) h = elim (Option-cases (index_of tasks deps id)) [
    | inl missing ↦ (id, ground arith, missing)
    | inr (i, at) ↦ elim (Option-cases (with_indices tasks deps ids)) [
      | inl stuck ↦ let (v, n, missing) = pairs_missing ids stuck in (v, ground arith, missing)
      | inr (rest, e) ↦ absurd (ground arith)
    ]
  ]

  -- What cannot be sorted holds a number without an index.
  pub sort_ids_missing :
      (ids : List ℕ)
      → sort_ids tasks deps ids ≡ none
      → (v : ℕ) × (1 ≤ occurs v ids) × (index_of tasks deps v ≡ none)
  unfolding sort_ids
  sort_ids_missing ids h = elim (Option-cases (with_indices tasks deps ids)) [
    | inl stuck ↦ pairs_missing ids stuck
    | inr (pairs, e) ↦ absurd (ground arith)
  ]

  pub occurs-ids : (v : ℕ) → is_task v ≡ true → 1 ≤ occurs v (map (λ t. t.id) tasks)
  occurs-ids v h = occurs_row v tasks h

-- The releases of a list that holds no task twice, each of which still waits for an edge.
pub release_all_degree :
    (v : ℕ) (ds : List ℕ) (st : Search) → (release_all ds st).degree v ≡ st.degree v - occurs v ds
unfolding release_all
release_all_degree v [] st = omega arith
release_all_degree v (d ∷ ds) st = ground (arith, release_all_degree v ds (release d st))

pub release_all_queue :
    (v : ℕ) (ds : List ℕ) (st : Search)
    → occurs v ds ≤ 1
    → occurs v ds ≤ st.degree v
    → occurs v (release_all ds st).queue
      ≡ occurs v st.queue + (if occurs v ds == 1 && st.degree v == 1 then 1 else 0)
unfolding release_all
release_all_queue v [] st h k = ground arith
release_all_queue v (d ∷ ds) st h k = ground (
  arith,
  release_all_queue v ds (release d st),
  total-append (λ x. if x == v then 1 else 0) st.queue (d ∷ []),
)

pub release_all_order :
    (ds : List ℕ) (st : Search)
    → ((release_all ds st).order ≡ st.order) × ((release_all ds st).indices ≡ st.indices)
unfolding release_all
release_all_order [] st = (refl, refl)
release_all_order (d ∷ ds) st = release_all_order ds (release d st)

pub occurs-select :
    (test : ℕ → Bool) (v : ℕ) (xs : List ℕ)
    → occurs v (select test xs) ≡ (if test v then occurs v xs else 0)
occurs-select test v [] = ground arith
occurs-select test v (x ∷ xs) = elim (Bool-cases (x == v)) [
  | inl e ↦ let p : x ≡ v = ground arith in rw p (ground (arith, occurs-select test v xs))
  | inr n ↦ ground (arith, occurs-select test v xs)
]

pub total-select-le {ℓ} :
    {A : Type ℓ} (f : A → ℕ) (test : A → Bool) (xs : List A) → total f (select test xs) ≤ total f xs
total-select-le f test [] = omega arith
total-select-le f test (x ∷ xs) = ground (arith, total-select-le f test xs)

pub none_occurs : (xs : List ℕ) → ((v : ℕ) → occurs v xs ≡ 0) → xs ≡ []
none_occurs [] h = refl
none_occurs (x ∷ xs) h = absurd (ground (arith, h x))

-- A number that is no id of a task.
pub occurs_no_task :
    (v : ℕ) (ts : List ResearchTask)
    → any_of (λ t. t.id == v) ts ≡ false
    → occurs v (map (λ t. t.id) ts) ≡ 0
occurs_no_task v [] h = refl
occurs_no_task v (t ∷ ts) h = ground (arith, occurs_no_task v ts)
