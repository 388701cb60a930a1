-- ===== src/Research/Spec/Acyclic.antt =====
-- The check of a specification without a cycle (backend/research/graph.py).
use the_dashboard.Common.{
  ℕ, zero, suc, true, false, not, ◌&&◌, List, [], ◌∷◌, ◌≤◌, ◌<◌, ◌≡◌, arith, ◌==◌, returned, length,
  nat_elem, occurs, occurs-nat_elem, nat_elem-occurs, occurs-rest, Bool-cases, inl, inr,
}
use the_dashboard.Research.Tables.{TaskDependency, Store}
use the_dashboard.Research.Graph.{in_degree}
use the_dashboard.Research.Graph.Counts.{
  edges, waiting, waiting-snoc, in_degree-waiting, occurs-adjacency,
}
use the_dashboard.Research.Spec.{
  ResearchGraphSpec, Sweep, all_ids, start_sweep, leave, has_duplicates, validate_spec,
}
use the_dashboard.Research.Spec.Counts.{
  seen, left_over-start, seen-start, occurs-all_ids, occurs-all_ids_le,
}
use the_dashboard.Research.Spec.Loop.{
  IsSound, seen-leave, visited-leave, degree-leave, not_visited, start-IsSound, sweep-ends,
}

-- Every edge leads to a higher rank.
abbrev pub IsRank : (ℕ → ℕ) → List TaskDependency → Type 0
IsRank rank deps = (u v : ℕ) → 1 ≤ edges u v deps → rank u < rank v

-- No edge is listed twice.
abbrev pub IsSimple : List TaskDependency → Type 0
IsSimple deps = (u v : ℕ) → edges u v deps ≤ 1

some_waiting :
    (v : ℕ) (order : List ℕ) (deps : List TaskDependency)
    → 1 ≤ waiting v order deps
    → (u : ℕ) × (1 ≤ edges u v deps) × (nat_elem u order ≡ false)
some_waiting v order [] h = absurd (omega arith)
some_waiting v order (d ∷ deps) h =
    elim (Bool-cases (d.downstream_task_id == v && not (nat_elem d.upstream_task_id order))) [
      | inl here ↦ (d.upstream_task_id, ground arith, ground arith)
      | inr other ↦
          let (u, e, n) = some_waiting v order deps (ground arith) in (u, ground (arith, e), n)
    ]

module _ (deps : List TaskDependency) (simple : IsSimple deps) where
  -- The degrees count exactly the edges that are waited for, and every node is accounted for.
  abbrev Exact : Sweep → Type 0
  Exact st =
      ((v : ℕ) → st.degree v ≤ waiting v st.visited deps)
      × ((v : ℕ) → 1 ≤ occurs v (all_ids deps) → seen v st ≡ 1)

  leave-Exact :
      (q : ℕ) (qs : List ℕ) (st : Sweep)
      → st.queue ≡ q ∷ qs
      → IsSound deps st
      → Exact st
      → Exact (leave deps q qs st)
  leave-Exact q qs st e s (exact, all) = (
    λ v. rw (visited-leave deps q qs st e) (
        omega (
          arith,
          degree-leave deps q qs st e v,
          waiting-snoc q v st.visited deps (not_visited deps q qs st e s),
          exact v,
          occurs-adjacency [] deps q v (simple q v),
        )),
    λ v h. omega (arith, seen-leave deps q qs st e v, all v h),
  )

  start-Exact : Exact (start_sweep deps)
  unfolding start_sweep in_degree
  start-Exact = (λ v. omega (arith, in_degree-waiting v deps), λ v h. (seen-start deps v).1 h)

  module _ (rank : ℕ → ℕ) (up : IsRank rank deps) (end : Sweep) (empty : end.queue ≡ [])
      (x : Exact end) where
    all_reached :
        (n v : ℕ) → rank v < n → 1 ≤ occurs v (all_ids deps) → nat_elem v end.visited ≡ true
    all_reached zero v h k = absurd (omega arith)
    all_reached (suc n) v h k = elim (Bool-cases (nat_elem v end.visited)) [
      | inl t ↦ t
      | inr f ↦
          let o = rw empty at (x.1 v k) in
          let w : 1 ≤ waiting v end.visited deps =
            ground (arith, x.0 v, o, occurs-nat_elem v end.visited f) in
          let (u, e, g) = some_waiting v end.visited deps w in
          let r = all_reached n u (omega (arith, h, up u v e)) (occurs-all_ids deps u v e).0 in
          absurd cc
    ]

    all_counted : length (all_ids deps) ≤ length end.visited
    all_counted =
        let (rest, counts, lengths) = occurs-rest (all_ids deps) end.visited (λ v. ground (
          arith,
          occurs-all_ids_le deps v,
          all_reached (suc (rank v)) v (omega arith),
          nat_elem-occurs v end.visited,
        )) in
        omega (arith, lengths)

-- A specification whose indices differ, which lists no edge twice and whose edges all lead to a
-- higher rank, in some ranking of the nodes, passes the check, and nothing is written.
pub validate_spec-acyclic :
    (spec : ResearchGraphSpec) (s : Store) (rank : ℕ → ℕ)
    → has_duplicates spec.tasks ≡ false
    → IsSimple spec.dependencies
    → IsRank rank spec.dependencies
    → validate_spec spec s ≡ (returned tt, s)
unfolding validate_spec
validate_spec-acyclic spec s rank distinct simple up =
    let deps = spec.dependencies in
    let (end, r, empty, sound, x) =
      sweep-ends deps (Exact deps simple) (leave-Exact deps simple) (length (all_ids deps))
        (start_sweep deps) (omega (arith, left_over-start deps)) (start-IsSound deps)
        (start-Exact deps simple) in
    rw distinct (rw r (ground (arith, all_counted deps simple rank up end empty x)))
