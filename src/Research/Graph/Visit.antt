-- ===== src/Research/Graph/Visit.antt =====
-- One step of the search of backend/research/graph.py: a task leaves the queue.
use the_dashboard.Common.{
  ℕ, Bool, true, false, not, ◌||◌, ◌&&◌, none, some, List, [], ◌∷◌, ◌++◌, ◌+◌, ◌≤◌, ◌≡◌, refl, sym,
  ap, ◌∙◌, arith, ◌==◌, any_of, any_of-append, nat_elem, Outcome, returned, raised, Exec, ◌>>=◌,
  resume_with, get_row, map, total-append, occurs, nat_elem-occurs, Option-cases, Bool-cases, inl,
  inr, if◌then◌else◌,
}
use mathlib.Core.List.{map-append}
use the_dashboard.Research.Tables.{ResearchTask, TaskDependency, ResearchError, missing_index}
use the_dashboard.Research.Graph.{Search, release_all, index_of, sort_ids, adjacency, visit}
use the_dashboard.Research.Graph.Counts.{
  edges, waiting, waiting-snoc, occurs-adjacency, is_task, occurs-sort_ids, is_task_of_sorted,
  release_all_degree, release_all_queue, release_all_order,
}

-- The first number stands before the second one in the list.
abbrev pub precedes : ℕ → ℕ → List ℕ → Bool
precedes u v [] = false
precedes u v (x ∷ xs) = (x == u && nat_elem v xs) || precedes u v xs

precedes-snoc :
    (u v w : ℕ) (xs : List ℕ) → precedes u v xs ≡ true → precedes u v (xs ++ w ∷ []) ≡ true
precedes-snoc u v w [] h = absurd (ground arith)
precedes-snoc u v w (x ∷ xs) h =
    ground (arith, precedes-snoc u v w xs, any_of-append (λ y. v == y) xs (w ∷ []))

precedes-last : (u v : ℕ) (xs : List ℕ) → nat_elem u xs ≡ true → precedes u v (xs ++ v ∷ []) ≡ true
precedes-last u v [] h = absurd (ground arith)
precedes-last u v (x ∷ xs) h =
    ground (arith, precedes-last u v xs, any_of-append (λ y. v == y) xs (v ∷ []))

-- Every edge to a number of the list comes from one that stands before it.
abbrev pub Respects : List ℕ → List TaskDependency → Type 0
Respects order [] = Unit
Respects order (d ∷ deps) =
    (nat_elem d.downstream_task_id order ≡ true
      → precedes d.upstream_task_id d.downstream_task_id order ≡ true)
    × Respects order deps

pub Respects-empty : (deps : List TaskDependency) → Respects [] deps
Respects-empty [] = tt
Respects-empty (d ∷ deps) = (λ h. absurd (ground arith), Respects-empty deps)

precedes-new :
    (u w v : ℕ) (order : List ℕ)
    → (nat_elem w order ≡ true → precedes u w order ≡ true)
    → (w == v && not (nat_elem u order)) ≡ false
    → nat_elem w (order ++ v ∷ []) ≡ true
    → precedes u w (order ++ v ∷ []) ≡ true
precedes-new u w v order old ready h = elim (Bool-cases (nat_elem w order)) [
  | inl before ↦ precedes-snoc u w v order (old before)
  | inr new ↦ ground (arith, precedes-last u v order, any_of-append (λ y. w == y) order (v ∷ []))
]

-- A task for which no edge waits may come next.
Respects-snoc :
    (v : ℕ) (order : List ℕ) (deps : List TaskDependency)
    → waiting v order deps ≡ 0
    → Respects order deps
    → Respects (order ++ v ∷ []) deps
Respects-snoc v order [] w r = tt
Respects-snoc v order (d ∷ deps) w r = (
  precedes-new d.upstream_task_id d.downstream_task_id v order r.0 (ground arith),
  Respects-snoc v order deps (ground arith) r.1,
)

-- What holds after a call that returns; one that raises misses an index, if that can happen.
abbrev pub After :
    {A : Type 0} → Type 0 → (A → Search → Type 0) → Outcome ResearchError A × Search → Type 0
After Missing P (returned a, st) = P a st
After Missing P (raised e, st) = (e ≡ missing_index) × Missing

pub After->>= :
    {A B : Type 0} (Missing : Type 0) (P : A → Search → Type 0) (Q : B → Search → Type 0)
    (m : Exec Search ResearchError A) (f : A → Exec Search ResearchError B) (st : Search)
    → After Missing P (m st)
    → ((a : A) (t : Search) → P a t → After Missing Q (f a t))
    → After Missing Q ((m >>= f) st)
After->>= {A} {B} Missing P Q m f st h k = resumed (m st) h
  where
    resumed :
        (r : Outcome ResearchError A × Search)
        → After Missing P r
        → After Missing Q (resume_with r.0 f r.1)
    resumed (returned a, t) h = k a t h
    resumed (raised e, t) h = h

none_has :
    (v : ℕ) (ts : List ResearchTask)
    → get_row (λ t. t.id) v ts ≡ none
    → any_of (λ t. t.id == v) ts ≡ false
none_has v [] h = refl
none_has v (t ∷ ts) h = ground (arith, none_has v ts)

module _ (tasks : List ResearchTask) (deps : List TaskDependency)
    (unique : (u v : ℕ) → edges u v deps ≤ 1) where
  -- The tasks that were visited and those that are queued are the tasks of which no edge waits, each
  -- once; `rest` is the part of the queue that the level has still to visit.
  pub record IsSearch (rest : List ℕ) (st : Search) : Type 0 where
    pub counts :
        (v : ℕ)
        → occurs v st.order + occurs v rest + occurs v st.queue
          ≡ (if is_task tasks deps v && st.degree v == 0 then 1 else 0)
    pub degrees : (v : ℕ) → st.degree v ≡ waiting v st.order deps
    pub respects : Respects st.order deps

  visited :
      (id : ℕ) (rest ds : List ℕ) (st : Search) (index : ℕ)
      → IsSearch (id ∷ rest) st
      → sort_ids tasks deps (adjacency tasks deps id) ≡ some ds
      → IsSearch rest (
          release_all ds
            (record st { order = st.order ++ id ∷ []; indices = st.indices ++ index ∷ [] }))
  visited id rest ds st index inv sorted_ds = record {
    counts = λ v.
        let q = release_all_queue v ds moved (once v) (covered v) in
        let d = release_all_degree v ds moved in
        let t = total-append (λ x. if x == v then 1 else 0) st.order (id ∷ []) in
        let c = inv.counts v in
        let o : occurs v (release_all ds moved).order ≡ occurs v (st.order ++ id ∷ []) =
          ap (occurs v) kept.0 in
        ground (arith, task_of v, once v, covered v);
    degrees = λ v.
        release_all_degree v ds moved
        ∙ omega (arith, left v, inv.degrees v, count v)
        ∙ ap (λ o. waiting v o deps) (sym kept.0);
    respects = rw kept.0 (Respects-snoc id st.order deps none_waits inv.respects);
  }
    where
      moved : Search
      moved = record st { order = st.order ++ id ∷ []; indices = st.indices ++ index ∷ [] }

      kept :
          ((release_all ds moved).order ≡ moved.order)
          × ((release_all ds moved).indices ≡ moved.indices)
      kept = release_all_order ds moved

      fresh : nat_elem id st.order ≡ false
      fresh = nat_elem-occurs id st.order (ground (arith, inv.counts id))

      none_waits : waiting id st.order deps ≡ 0
      none_waits = sym (inv.degrees id) ∙ ground (arith, inv.counts id)

      count : (v : ℕ) → occurs v ds ≡ edges id v deps
      count v =
          occurs-sort_ids tasks deps v (adjacency tasks deps id) ds sorted_ds
          ∙ occurs-adjacency tasks deps id v (unique id v)

      once : (v : ℕ) → occurs v ds ≤ 1
      once v = omega (arith, count v, unique id v)

      left :
          (v : ℕ) → waiting v (st.order ++ id ∷ []) deps + edges id v deps ≡ waiting v st.order deps
      left v = waiting-snoc id v st.order deps fresh

      task_of : (v : ℕ) → 1 ≤ occurs v ds → is_task tasks deps v ≡ true
      task_of v n =
          is_task_of_sorted tasks deps v (adjacency tasks deps id) ds sorted_ds
            (omega (arith, occurs-sort_ids tasks deps v (adjacency tasks deps id) ds sorted_ds))

      covered : (v : ℕ) → occurs v ds ≤ st.degree v
      covered v = omega (arith, left v, inv.degrees v, count v)

  pub index_missing : (id : ℕ) → index_of tasks deps id ≡ none → is_task tasks deps id ≡ false
  unfolding index_of
  index_missing id h = elim (Option-cases (get_row (λ t. t.id) id tasks)) [
    | inl missing ↦ none_has id tasks missing
    | inr (t, found) ↦ absurd (ground arith)
  ]

  -- The indices are those of the visited tasks.
  abbrev pub IsIndexed : Search → Type 0
  IsIndexed st = map (index_of tasks deps) st.order ≡ map some st.indices

  -- What one visit makes of the search.
  pub record IsNext (id : ℕ) (rest : List ℕ) (st t : Search) : Type 0 where
    pub kept : IsSearch rest t
    pub order : t.order ≡ st.order ++ id ∷ []
    pub indexed : IsIndexed t

  -- A visit keeps the invariant; it raises only if a downstream task has no index.
  pub visit-IsNext :
      (Missing : Type 0) (id : ℕ) (rest : List ℕ) (st : Search)
      → (sort_ids tasks deps (adjacency tasks deps id) ≡ none → Missing)
      → IsSearch (id ∷ rest) st
      → IsIndexed st
      → After Missing (λ index t. IsNext id rest st t) (visit tasks deps id st)
  unfolding visit
  visit-IsNext Missing id rest st unsorted inv indexed =
      elim (Option-cases (index_of tasks deps id)) [
        | inl missing ↦
            let b : ⊥ = ground (arith, inv.counts id, index_missing id missing) in absurd b
        | inr (index, at) ↦ elim (Option-cases (sort_ids tasks deps (adjacency tasks deps id))) [
          | inl missing ↦ rw (at, missing) (refl, unsorted missing)
          | inr (ds, e) ↦
              let moved = record st {
                order = st.order ++ id ∷ [];
                indices = st.indices ++ index ∷ [];
              } in
              let kept = release_all_order ds moved in
              rw (at, e)
                (record {
                  kept = visited id rest ds st index inv e;
                  order = kept.0;
                  indexed =
                      rw (kept.0, kept.1)
                        (map-append (index_of tasks deps) st.order (id ∷ [])
                          ∙ ap (λ xs. xs ++ index_of tasks deps id ∷ []) indexed
                          ∙ ap (λ o. map some st.indices ++ o ∷ []) at
                          ∙ sym (map-append some st.indices (index ∷ [])));
                })
        ]
      ]
