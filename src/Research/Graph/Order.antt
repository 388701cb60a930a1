-- ===== src/Research/Graph/Order.antt =====
-- The order in which the search of backend/research/graph.py visits the tasks.
use the_dashboard.Common.{
  ℕ, zero, suc, none, some, List, [], ◌∷◌, ◌++◌, ◌+◌, ◌≤◌, ◌≡◌, refl, sym, ap, ◌∙◌, arith, ◌==◌,
  length, length-append, length-map, sorted, leb, map, append_assoc, append-nil, pure, ◌>>=◌,
  total-append, occurs, occurs-rest, if◌then◌else◌,
}
use the_dashboard.Research.Tables.{ResearchTask, TaskDependency}
use the_dashboard.Research.Graph.{
  Search, sort_ids, adjacency, in_degree, visit, visit_level, loop, start_search, sources,
}
use the_dashboard.Research.Graph.Counts.{
  edges, in_degree-waiting, occurs-ids, occurs-sort_ids, occurs-select, occurs_no_task,
}
use the_dashboard.Research.Graph.Visit.{
  Respects-empty, After, After->>=, IsSearch, IsIndexed, IsNext, visit-IsNext,
}

module _ (tasks : List ResearchTask) (deps : List TaskDependency)
    (unique : (u v : ℕ) → edges u v deps ≤ 1) (Missing : Type 0)
    (unsorted : (id : ℕ) → sort_ids tasks deps (adjacency tasks deps id) ≡ none → Missing) where
  abbrev ids : List ℕ
  ids = map (λ t. t.id) tasks

  -- What the visit of a level makes of the search.
  record IsLevel (level : List ℕ) (st t : Search) : Type 0 where
    kept : IsSearch tasks deps unique [] t
    order : t.order ≡ st.order ++ level
    indexed : IsIndexed tasks deps unique t

  visit_level-IsLevel :
      (level : List ℕ) (st : Search)
      → IsSearch tasks deps unique level st
      → IsIndexed tasks deps unique st
      → After Missing (λ indices t. IsLevel level st t) (visit_level tasks deps level st)
  unfolding visit_level
  visit_level-IsLevel [] st inv indexed = record {
    kept = inv;
    order = sym (append-nil st.order);
    indexed = indexed;
  }
  visit_level-IsLevel (id ∷ level) st inv indexed =
      After->>= Missing (λ index t. IsNext tasks deps unique id level st t)
        (λ indices u. IsLevel (id ∷ level) st u) (visit tasks deps id)
        (λ index. visit_level tasks deps level >>= (λ is. pure (index ∷ is))) st
        (visit-IsNext tasks deps unique Missing id level st (unsorted id) inv indexed)
        (λ index t next.
          After->>= Missing (λ is u. IsLevel level t u) (λ indices u. IsLevel (id ∷ level) st u)
            (visit_level tasks deps level) (λ is. pure (index ∷ is)) t
            (visit_level-IsLevel level t next.kept next.indexed)
            (λ is u l. record {
              kept = l.kept;
              order =
                  l.order ∙ ap (λ o. o ++ level) next.order ∙ append_assoc st.order (id ∷ []) level;
              indexed = l.indexed;
            }))

  -- The visited and the queued tasks are at most the tasks.
  length-order :
      (st : Search)
      → IsSearch tasks deps unique [] st
      → length st.order + length st.queue ≤ length tasks
  length-order st inv =
      let (rest, counts, lengths) = occurs-rest (st.order ++ st.queue) ids (λ v. ground (
        arith,
        inv.counts v,
        occurs-ids tasks deps v,
        total-append (λ x. if x == v then 1 else 0) st.order st.queue,
      )) in
      omega (arith, length-append st.order st.queue, length-map (λ (t : ResearchTask). t.id) tasks)

  -- What the search has at its end.
  pub record IsDone (t : Search) : Type 0 where
    pub kept : IsSearch tasks deps unique [] t
    pub empty : t.queue ≡ []
    pub indexed : IsIndexed tasks deps unique t

  -- The search before a level is visited.
  level-IsSearch :
      (level : List ℕ) (st : Search)
      → IsSearch tasks deps unique [] (record st { queue = level })
      → IsSearch tasks deps unique level (record st { queue = [] })
  level-IsSearch level st inv = record {
    counts = λ v. omega (arith, inv.counts v);
    degrees = inv.degrees;
    respects = inv.respects;
  }

  loop-IsDone :
      (fuel : ℕ) (queue : List ℕ) (st : Search)
      → IsSearch tasks deps unique [] (record st { queue = queue })
      → IsIndexed tasks deps unique st
      → length tasks ≤ length st.order + fuel
      → After Missing (λ levels t. IsDone t) (loop tasks deps fuel (record st { queue = queue }))
  unfolding loop
  loop-IsDone zero [] st inv indexed enough = record { kept = inv; empty = refl; indexed = indexed }
  loop-IsDone (suc fuel) [] st inv indexed enough = record {
    kept = inv;
    empty = refl;
    indexed = indexed;
  }
  loop-IsDone zero (q ∷ qs) st inv indexed enough =
      absurd (omega (arith, length-order (record st { queue = q ∷ qs }) inv))
  loop-IsDone (suc fuel) (q ∷ qs) st inv indexed enough =
      let before = record st { queue = [] } in
      After->>= Missing (λ is t. IsLevel (q ∷ qs) before t) (λ levels t. IsDone t)
        (visit_level tasks deps (q ∷ qs))
        (λ is. loop tasks deps fuel >>= (λ ls. pure (sorted leb is ∷ ls))) before
        (visit_level-IsLevel (q ∷ qs) before (level-IsSearch (q ∷ qs) st inv) indexed)
        (λ is t level.
          After->>= Missing (λ ls u. IsDone u) (λ ls u. IsDone u) (loop tasks deps fuel)
            (λ ls. pure (sorted leb is ∷ ls)) t
            (loop-IsDone fuel t.queue t level.kept level.indexed
              (omega (arith, ap length level.order, length-append st.order (q ∷ qs))))
            (λ ls u done. done))

  start-IsSearch :
      (queue : List ℕ)
      → ((v : ℕ) → occurs v ids ≤ 1)
      → sort_ids tasks deps (sources tasks deps) ≡ some queue
      → IsSearch tasks deps unique [] (start_search tasks deps queue)
  unfolding start_search in_degree sources
  start-IsSearch queue once e = record {
    counts = λ v. ground (
      arith,
      occurs-sort_ids tasks deps v (sources tasks deps) queue e,
      occurs-select (λ id. in_degree tasks deps id == 0) v ids,
      occurs-ids tasks deps v,
      occurs_no_task v tasks,
      once v,
    );
    degrees = λ v. in_degree-waiting v deps;
    respects = Respects-empty deps;
  }

  -- The search from the sources.
  pub search-IsDone :
      (queue : List ℕ)
      → ((v : ℕ) → occurs v ids ≤ 1)
      → sort_ids tasks deps (sources tasks deps) ≡ some queue
      → After Missing
          (λ levels t. IsDone t)
          (loop tasks deps (length tasks) (start_search tasks deps queue))
  unfolding start_search
  search-IsDone queue once e =
      loop-IsDone (length tasks) queue (start_search tasks deps queue) (start-IsSearch queue once e)
        refl (omega arith)
