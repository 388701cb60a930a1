-- ===== src/Workflow/Database/Rows.antt =====
-- The row that `get_by_id` (backend/repositories/base.py) finds, before and after a change of it.
use the_dashboard.Common.{
  ℕ, false, Option, some, ◌≡◌, sym, ◌∙◌, subst, arith, put_row, get_row, get_row-key,
  get_row-put_row_self,
}
use the_dashboard.Workflow.Database.{Workflow, Db, get_by_id}

abbrev pub row_of : ℕ → Db → Option Workflow
row_of id db = get_row (λ w. w.id) id db.workflows

pub get_by_id-row_of :
    (id : ℕ) (db : Db) (w : Workflow) → get_by_id id db ≡ some w → row_of id db ≡ some w
unfolding get_by_id
get_by_id-row_of id db w h = ground arith

pub get_by_id-same :
    (id : ℕ) (db' db : Db) → db'.workflows ≡ db.workflows → get_by_id id db' ≡ get_by_id id db
unfolding get_by_id
get_by_id-same id db' db same = rw same

module _ (db : Db) (id : ℕ) (w : Workflow) (found : get_by_id id db ≡ some w) where
  pub get_by_id-id : w.id ≡ id
  get_by_id-id = get_row-key (λ v. v.id) id db.workflows w (get_by_id-row_of id db w found)

  pub row_of-id : row_of w.id db ≡ some w
  row_of-id = subst (λ k. row_of k db ≡ some w) (sym get_by_id-id) (get_by_id-row_of id db w found)

  pub get_by_id-not_deleted : w.is_deleted ≡ false
  unfolding get_by_id
  get_by_id-not_deleted = ground (arith, get_by_id-row_of id db w found)

  -- The changed row is the one that is found afterwards.
  pub get_by_id-put_row :
      (db' : Db) (w' : Workflow)
      → w'.id ≡ w.id
      → w'.is_deleted ≡ w.is_deleted
      → db'.workflows ≡ put_row (λ v. v.id) w' db.workflows
      → get_by_id id db' ≡ some w'
  unfolding get_by_id
  get_by_id-put_row db' w' i d rows =
      let stored : row_of w'.id db ≡ some w = subst (λ k. row_of k db ≡ some w) (sym i) row_of-id in
      let own : row_of w'.id db' ≡ some w' =
        rw rows (get_row-put_row_self (λ v. v.id) w' db.workflows w stored) in
      let here : row_of id db' ≡ some w' =
        subst (λ k. row_of k db' ≡ some w') (i ∙ get_by_id-id) own in
      let kept : w'.is_deleted ≡ false = d ∙ get_by_id-not_deleted in rw here (ground arith)
