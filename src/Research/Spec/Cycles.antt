-- ===== src/Research/Spec/Cycles.antt =====
-- The check of a specification with a cycle (backend/research/graph.py).
use the_dashboard.Common.{
  ℕ, true, false, List, [], ◌∷◌, ◌≤◌, ◌≡◌, refl, arith, ◌==◌, raised, length, any_of-append,
  nat_elem, if◌then◌else◌, Bool-cases, inl, inr,
}
use the_dashboard.Research.Tables.{TaskDependency, Store, duplicate_index, cycle_in_spec}
use the_dashboard.Research.Task.{ResearchTaskSpec}
use the_dashboard.Research.Graph.Counts.{edges}
use the_dashboard.Research.Spec.{
  ResearchGraphSpec, Sweep, all_ids, start_sweep, leave, sweep, all_visited, has_duplicates,
  validate_spec, build,
}
use the_dashboard.Research.Spec.Counts.{
  waits, edges-waiting, total_at, occurs-all_ids, left_over-start,
}
use the_dashboard.Research.Spec.Loop.{IsSound, visited-leave, start-IsSound, sweep-ends}

-- Nodes each of which has an edge from another of them, or from itself: what a cycle leaves behind.
abbrev pub IsKnot : List ℕ → List TaskDependency → Type 0
IsKnot knot deps =
    (v : ℕ) → nat_elem v knot ≡ true → (u : ℕ) × (nat_elem u knot ≡ true) × (1 ≤ edges u v deps)

module _ (deps : List TaskDependency) (knot : List ℕ) (tied : IsKnot knot deps) where
  abbrev Untouched : Sweep → Type 0
  Untouched st = (v : ℕ) → nat_elem v knot ≡ true → nat_elem v st.visited ≡ false

  -- A node of the knot waits as long as none of it was visited.
  knot_waits :
      (v : ℕ) (st : Sweep)
      → IsSound deps st
      → Untouched st
      → nat_elem v knot ≡ true
      → waits st v ≡ 1
  knot_waits v st s free k =
      let (u, k', e) = tied v k in
      ground (arith, s.enough v, edges-waiting u v st.visited deps (free u k'))

  leave-Untouched :
      (q : ℕ) (qs : List ℕ) (st : Sweep)
      → st.queue ≡ q ∷ qs
      → IsSound deps st
      → Untouched st
      → Untouched (leave deps q qs st)
  leave-Untouched q qs st e s free v k = elim (Bool-cases (v == q)) [
    | inl same ↦
        let p : v ≡ q = ground arith in
        let w : waits st q ≡ 1 = rw p at (knot_waits v st s free k) in
        let o = rw e at (s.once q) in absurd (ground (arith, w))
    | inr other ↦
        rw (visited-leave deps q qs st e)
          (ground (arith, any_of-append (λ y. v == y) st.visited (q ∷ []), free v))
  ]

  -- A knot that is not empty keeps the loop from visiting every node.
  not_all_visited :
      (v : ℕ)
      → nat_elem v knot ≡ true
      → all_visited deps (sweep deps (length (all_ids deps)) (start_sweep deps))
        ≡ raised cycle_in_spec
  unfolding start_sweep
  not_all_visited v k =
      let (end, r, empty, s, free) =
        sweep-ends deps Untouched leave-Untouched (length (all_ids deps)) (start_sweep deps)
          (omega (arith, left_over-start deps)) (start-IsSound deps) (λ x h. refl) in
      let (u, k', e) = tied v k in
      let w = knot_waits v end s free k in
      let t = total_at (waits end) v (all_ids deps) (occurs-all_ids deps u v e).1 in
      rw r (ground (arith, s.bounded, w, t))

-- A specification with a cycle is refused and nothing is written: where some nodes each have an edge
-- from one of them, build raises the error of a cycle, or that of a repeated index, which is
-- looked for first.
pub build-knot :
    (draw : ResearchTaskSpec → ℕ × ℕ) (spec : ResearchGraphSpec) (s : Store) (knot : List ℕ) (v : ℕ)
    → IsKnot knot spec.dependencies
    → nat_elem v knot ≡ true
    → build draw spec s
      ≡ (raised (if has_duplicates spec.tasks then duplicate_index else cycle_in_spec), s)
unfolding build validate_spec
build-knot draw spec s knot v tied k = elim (Bool-cases (has_duplicates spec.tasks)) [
  | inl d ↦ rw d refl
  | inr d ↦ rw d (rw (not_all_visited spec.dependencies knot tied v k) refl)
]
