-- ===== src/Workflow/RetryCoordinator/Due.antt =====
-- The retries that backend/workflows/retry_coordinator.py finds due.
use mathlib.Core.List.{Memᴰ}
use native.Mathlib.Decide.{ℕ_discrete}
use the_dashboard.Common.{
  ℕ, Bool, true, false, not, ◌||◌, none, some, List, [], ◌∷◌, ◌≡◌, ◌≤◌, ◌↔◌, ◌==◌, refl, subst, ◌∙◌,
  sym, arith, ltb, Bool-cases, Option-cases, inl, inr, nat_elem, mem-collect, mem-collect_of_mem,
  find_by, find_last, find_by-snoc_hit, find_by-snoc_miss, find_by-snoc_old,
}
use the_dashboard.Workflow.Database.{Db, get_by_id}
use the_dashboard.Workflow.DeadLetter.{newest_first}
use the_dashboard.Workflow.RetryCoordinator.{
  RetryRow, retry_rows, ScheduledRetry, latest_row, insert_row, sort_rows, keep_latest, has_failed,
  due_at, due_of, get_due,
}

abbrev is_of : ℕ → RetryRow → Bool
is_of id r = r.workflow_id == id

find_by-newest_first :
    (id : ℕ) (rows : List RetryRow)
    → find_by (is_of id) (newest_first rows) ≡ find_last (is_of id) rows
find_by-newest_first id [] = refl
find_by-newest_first id (r ∷ rows) =
    let ih = find_by-newest_first id rows in
    elim (Option-cases (find_last (is_of id) rows)) [
      | inl n ↦ rw n (elim (Bool-cases (is_of id r)) [
        | inl t ↦ find_by-snoc_hit (is_of id) (newest_first rows) r (ih ∙ n) t ∙ rw t refl
        | inr f ↦ find_by-snoc_miss (is_of id) (newest_first rows) r f ∙ ih ∙ n ∙ rw f refl
      ])
      | inr (x, p) ↦ find_by-snoc_old (is_of id) (newest_first rows) r x (ih ∙ p) ∙ rw p refl
    ]

find_by-insert_row :
    (id : ℕ) (r : RetryRow) (rows : List RetryRow)
    → find_by (is_of id) (insert_row r rows) ≡ find_by (is_of id) (r ∷ rows)
find_by-insert_row id r [] = refl
find_by-insert_row id r (q ∷ rows) = ground (arith, find_by-insert_row id r rows)

find_by-sort_rows :
    (id : ℕ) (rows : List RetryRow) → find_by (is_of id) (sort_rows rows) ≡ find_by (is_of id) rows
find_by-sort_rows id [] = refl
find_by-sort_rows id (r ∷ rows) =
    find_by-insert_row id r (sort_rows rows) ∙ rw (find_by-sort_rows id rows) refl

not_seen :
    (j k : ℕ) (seen : List ℕ) → nat_elem j seen ≡ true → nat_elem k seen ≡ false → (j == k) ≡ false
not_seen j k seen old new = elim (ℕ_discrete j k) [
  | no n ↦ ground arith
  | yes p ↦
      let t : nat_elem k seen ≡ true = subst (λ i. nat_elem i seen ≡ true) p old in
      let b : true ≡ false = sym t ∙ new in cc
]

-- The loop keeps the first row of each workflow that it has not seen.
find_by-keep_latest :
    (seen : List ℕ) (rows : List RetryRow) (r : RetryRow)
    → Memᴰ r (keep_latest seen rows)
    → (nat_elem r.workflow_id seen ≡ false) × (find_by (is_of r.workflow_id) rows ≡ some r)
unfolding keep_latest
find_by-keep_latest seen [] r m = elim m [ ]
find_by-keep_latest seen (q ∷ rows) r m = elim (Bool-cases (nat_elem q.workflow_id seen)) [
  | inl old ↦
      let m' : Memᴰ r (keep_latest seen rows) = rw old at m in
      let (new, found) = find_by-keep_latest seen rows r m' in
      let ne : (q.workflow_id == r.workflow_id) ≡ false =
        not_seen q.workflow_id r.workflow_id seen old new in
      (new, rw ne found)
  | inr fresh ↦
      let m' : Memᴰ r (q ∷ keep_latest (q.workflow_id ∷ seen) rows) = rw fresh at m in
      elim m' [
        | Memᴰ.head p ↦
            let own : (q.workflow_id == q.workflow_id) ≡ true = ground arith in
            subst
              (λ z.
                (nat_elem z.workflow_id seen ≡ false)
                × (find_by (is_of z.workflow_id) (q ∷ rows) ≡ some z))
              (sym p) (fresh, rw own refl)
        | Memᴰ.tail t ↦
            let (new, found) = find_by-keep_latest (q.workflow_id ∷ seen) rows r t in
            let ne : (q.workflow_id == r.workflow_id) ≡ false = ground arith in
            (ground arith, rw ne found)
      ]
]

mem-keep_latest :
    (seen : List ℕ) (rows : List RetryRow) (r : RetryRow)
    → nat_elem r.workflow_id seen ≡ false
    → find_by (is_of r.workflow_id) rows ≡ some r
    → Memᴰ r (keep_latest seen rows)
unfolding keep_latest
mem-keep_latest seen [] r new found = cc
mem-keep_latest seen (q ∷ rows) r new found = elim (Bool-cases (nat_elem q.workflow_id seen)) [
  | inl old ↦
      let ne : (q.workflow_id == r.workflow_id) ≡ false =
        not_seen q.workflow_id r.workflow_id seen old new in
      rw old (mem-keep_latest seen rows r new (rw ne at found))
  | inr fresh ↦ rw fresh (elim (Bool-cases (q.workflow_id == r.workflow_id)) [
    | inl same ↦ let p : some q ≡ some r = rw same at found in Memᴰ.head cc
    | inr ne ↦
        let new' : nat_elem r.workflow_id (q.workflow_id ∷ seen) ≡ false = ground arith in
        Memᴰ.tail (mem-keep_latest (q.workflow_id ∷ seen) rows r new' (rw ne at found))
  ])
]

find_by-rows :
    (id : ℕ) (db : Db)
    → find_by (is_of id) (sort_rows (newest_first (retry_rows db.events))) ≡ latest_row id db
find_by-rows id db =
    find_by-sort_rows id (newest_first (retry_rows db.events))
    ∙ find_by-newest_first id (retry_rows db.events)

-- A retry that the row plans, whose time has come, of a workflow that has failed.
pub record IsDue (cutoff : ℕ) (db : Db) (q : RetryRow) (r : ScheduledRetry) : Type 0 where
  pub same_workflow : q.workflow_id ≡ r.workflow_id
  pub same_attempt : q.attempt ≡ r.attempt
  pub same_error : q.last_error ≡ r.last_error
  pub planned : q.next_retry_at ≡ some r.next_retry_at
  pub in_time : r.next_retry_at ≤ cutoff
  pub workflow_failed : has_failed (get_by_id r.workflow_id db) ≡ true

module _ (cutoff : ℕ) (db : Db) (q : RetryRow) (r : ScheduledRetry) where
  due_of-IsDue : due_of cutoff db q ≡ some r → IsDue cutoff db q r
  due_of-IsDue h = elim (Option-cases q.next_retry_at) [
    | inl n ↦ let b : none ≡ some r = rw n at h in cc
    | inr (at, p) ↦
        let h' : due_at cutoff (has_failed (get_by_id q.workflow_id db)) q (some at) ≡ some r =
          rw p at h in
        elim (Bool-cases (ltb cutoff at || not (has_failed (get_by_id q.workflow_id db)))) [
          | inl t ↦ let b : none ≡ some r = rw t at h' in cc
          | inr f ↦
              let due : ScheduledRetry = record {
                workflow_id = q.workflow_id;
                attempt = q.attempt;
                next_retry_at = at;
                last_error = q.last_error;
              } in
              let g : some due ≡ some r = rw f at h' in
              let e : due ≡ r = cc in
              let own : IsDue cutoff db q due = record {
                same_workflow = refl;
                same_attempt = refl;
                same_error = refl;
                planned = p;
                in_time = ground arith;
                workflow_failed = ground arith;
              } in
              subst (IsDue cutoff db q) e own
        ]
  ]

  IsDue-due_of : IsDue cutoff db q r → due_of cutoff db q ≡ some r
  IsDue-due_of d =
      let a : ltb cutoff r.next_retry_at ≡ false = let t = d.in_time in ground arith in
      rw d.planned (
        rw d.same_workflow (rw d.workflow_failed (rw a (rw d.same_attempt (rw d.same_error refl)))))

-- `get_due` returns exactly the retries that the latest scheduling event of their workflow plans,
-- whose time has come and whose workflow has failed: an earlier scheduling event never counts.
pub mem-get_due :
    (cutoff : ℕ) (db : Db) (r : ScheduledRetry)
    → Memᴰ r (get_due cutoff db)
      ↔ ((q : RetryRow) × (latest_row r.workflow_id db ≡ some q) × IsDue cutoff db q r)
unfolding get_due
mem-get_due cutoff db r =
    let rows = sort_rows (newest_first (retry_rows db.events)) in
    (
      (λ m.
          let (q, k, h) = mem-collect (due_of cutoff db) r (keep_latest [] rows) m in
          let d = due_of-IsDue cutoff db q r h in
          let found : latest_row q.workflow_id db ≡ some q =
            sym (find_by-rows q.workflow_id db) ∙ (find_by-keep_latest [] rows q k).1 in
          (q, subst (λ id. latest_row id db ≡ some q) d.same_workflow found, d)),
      λ (q, latest, d).
          let found : find_by (is_of q.workflow_id) rows ≡ some q =
            find_by-rows q.workflow_id db
            ∙ subst (λ id. latest_row id db ≡ some q) (sym d.same_workflow) latest in
          mem-collect_of_mem (due_of cutoff db) r q (keep_latest [] rows)
            (mem-keep_latest [] rows q refl found) (IsDue-due_of cutoff db q r d),
    )
