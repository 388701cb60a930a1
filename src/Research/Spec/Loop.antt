-- ===== src/Research/Spec/Loop.antt =====
-- The loop of `_validate_spec` (backend/research/graph.py): its invariant and its end.
use the_dashboard.Common.{
  ℕ, false, List, [], ◌∷◌, ◌++◌, ◌+◌, ◌-◌, ◌≤◌, ◌≡◌, refl, ◌∙◌, arith, ◌==◌, returned, length,
  length-append, nat_elem, occurs, nat_elem-occurs, total-append, List-cases, inl, inr,
  if◌then◌else◌, zero, suc,
}
use the_dashboard.Research.Tables.{TaskDependency}
use the_dashboard.Research.Graph.{adjacency, in_degree}
use the_dashboard.Research.Graph.Counts.{waiting, waiting-snoc, in_degree-waiting}
use the_dashboard.Research.Spec.{Sweep, all_ids, start_sweep, leave, sweep}
use the_dashboard.Research.Spec.Counts.{
  seen, free_all-degree, free_all-visited, seen-free_all, left_over, left_over-free_all,
  occurs-all_ids, occurs-adjacency_le, left_over-start, seen-start,
}

module _ (deps : List TaskDependency) where
  -- What holds throughout the check.
  pub record IsSound (st : Sweep) : Type 0 where
    pub once : (v : ℕ) → seen v st ≤ 1
    pub enough : (v : ℕ) → waiting v st.visited deps ≤ st.degree v
    pub bounded : length st.visited + left_over (all_ids deps) st ≤ length (all_ids deps)

  -- A node leaves the queue before the others are freed.
  abbrev moved : ℕ → List ℕ → Sweep → Sweep
  moved q qs st = record st { queue = qs; visited = st.visited ++ q ∷ [] }

  module _ (q : ℕ) (qs : List ℕ) (st : Sweep) (e : st.queue ≡ q ∷ qs) where
    pub seen-leave : (v : ℕ) → seen v (leave deps q qs st) ≡ seen v st
    unfolding leave
    seen-leave v =
        seen-free_all v (adjacency [] deps q) (moved q qs st)
        ∙ rw e (omega (arith, total-append (λ x. if x == v then 1 else 0) st.visited (q ∷ [])))

    pub visited-leave : (leave deps q qs st).visited ≡ st.visited ++ q ∷ []
    unfolding leave
    visited-leave = free_all-visited (adjacency [] deps q) (moved q qs st)

    pub degree-leave :
        (v : ℕ) → (leave deps q qs st).degree v ≡ st.degree v - occurs v (adjacency [] deps q)
    unfolding leave
    degree-leave v = free_all-degree v (adjacency [] deps q) (moved q qs st)

    left_over-leave :
        left_over (all_ids deps) (leave deps q qs st) + 1 ≤ left_over (all_ids deps) st
    unfolding leave
    left_over-leave =
        let f =
          left_over-free_all (adjacency [] deps q) (all_ids deps) (moved q qs st)
            (λ x h. (occurs-all_ids deps q x (omega (arith, h, occurs-adjacency_le deps q x))).1) in
        rw e (omega (arith, f))

    module _ (s : IsSound st) where
      pub not_visited : nat_elem q st.visited ≡ false
      not_visited = nat_elem-occurs q st.visited (let o = rw e at (s.once q) in ground arith)

      enough-leave :
          (v : ℕ) → waiting v (leave deps q qs st).visited deps ≤ (leave deps q qs st).degree v
      enough-leave v = rw visited-leave (
          omega (
            arith,
            degree-leave v,
            waiting-snoc q v st.visited deps not_visited,
            s.enough v,
            occurs-adjacency_le deps q v,
          ))

      pub leave-IsSound : IsSound (leave deps q qs st)
      leave-IsSound = record {
        once = λ v. omega (arith, s.once v, seen-leave v);
        enough = enough-leave;
        bounded =
            rw visited-leave
              (omega (arith, length-append st.visited (q ∷ []), left_over-leave, s.bounded));
      }

  pub start-IsSound : IsSound (start_sweep deps)
  unfolding start_sweep in_degree
  start-IsSound = record {
    once = λ v. (seen-start deps v).0;
    enough = λ v. omega (arith, in_degree-waiting v deps);
    bounded = omega (arith, left_over-start deps);
  }

  -- The loop ends with an empty queue, and keeps what every round keeps.
  pub sweep-ends :
      (P : Sweep → Type 0)
      → ((q : ℕ) (qs : List ℕ) (st : Sweep)
          → st.queue ≡ q ∷ qs
          → IsSound st
          → P st
          → P (leave deps q qs st))
      → (fuel : ℕ) (st : Sweep) → left_over (all_ids deps) st ≤ fuel
      → IsSound st
      → P st
      → (end : Sweep) × (sweep deps fuel st ≡ returned end) × (end.queue ≡ []) × IsSound end × P end
  unfolding sweep
  sweep-ends P step zero st h s p = elim (List-cases st.queue) [
    | inl e ↦ (st, rw e refl, e, s, p)
    | inr (q, qs, e) ↦ absurd (let h' = rw e at h in omega arith)
  ]
  sweep-ends P step (suc fuel) st h s p = elim (List-cases st.queue) [
    | inl e ↦ (st, rw e refl, e, s, p)
    | inr (q, qs, e) ↦
        let (end, r, o, s', p') =
          sweep-ends P step fuel (leave deps q qs st) (omega (arith, h, left_over-leave q qs st e))
            (leave-IsSound q qs st e s) (step q qs st e s p) in
        (end, rw e r, o, s', p')
  ]
