-- ===== src/Workflow/Approvals/Resolved.antt =====
-- The resolution of an approval by backend/workflows/approvals.py.
use the_dashboard.Common.{
  ℕ, String, Bool, true, false, Option, some, [], ◌∷◌, ◌++◌, ◌≡◌, refl, ap, ◌∙◌, arith, get_row,
  put_row, returned,
}
use the_dashboard.Workflow.Status.{paused, failed, same_status, is_valid_transition}
use the_dashboard.Workflow.Database.{
  user, Workflow, Approval, approval_resolved, Db, get_by_id, get_by_id_or_raise, save,
  append_event,
}
use the_dashboard.Workflow.Database.Rows.{get_by_id-put_row}
use the_dashboard.Workflow.Approvals.{
  is_resolvable, unless_deleted, get_approval_or_raise, has_expired, save_approval, resolution,
  after_resolution, resolve,
}

abbrev pub approval_of : ℕ → Db → Option Approval
approval_of id db = unless_deleted (get_row (λ a. a.id) id db.approvals)

-- What a resolution needs.
pub record IsResolvableAt (now id : ℕ) (db : Db) (a : Approval) (w : Workflow) : Type 0 where
  pub found : approval_of id db ≡ some a
  pub waits : is_resolvable a.approval_status ≡ true
  pub fresh : has_expired a.expires_at now ≡ false
  pub here : get_by_id a.workflow_id db ≡ some w
  pub stopped : same_status w.workflow_status paused ≡ true
  pub in_time : has_expired w.expires_at now ≡ false

module _ (id by : ℕ) (verdict : Bool) (notes : String) (now : ℕ) (db : Db) where
  -- The tables after a resolution.
  abbrev pub resolved_db : Approval → Workflow → Db
  resolved_db a w = record db {
    approvals = put_row (λ b. b.id) (resolution by verdict notes a) db.approvals;
    workflows = put_row (λ v. v.id) (after_resolution verdict w) db.workflows;
    events =
        db.events
        ++ record {
          workflow_id = w.id;
          body = approval_resolved id a.approval_type verdict notes;
          actor_type = user;
          actor_id = some by;
          correlation_id = w.correlation_id;
        }
          ∷ [];
  }

  pub resolve-resolved :
      (a : Approval) (w : Workflow)
      → IsResolvableAt now id db a w
      → resolve id by verdict notes now db
        ≡ (returned (resolution by verdict notes a), resolved_db a w)
  unfolding resolve get_approval_or_raise get_by_id_or_raise save_approval save append_event
  resolve-resolved a w r =
      rw r.found (rw r.waits (rw r.fresh (rw r.here (rw r.stopped (rw r.in_time refl)))))

-- A rejection makes the paused workflow failed, although the status machine has no transition from
-- paused to failed.
pub resolve-rejected :
    (id by : ℕ) (notes : String) (now : ℕ) (db : Db) (a : Approval) (w : Workflow)
    → IsResolvableAt now id db a w
    → (get_by_id a.workflow_id (resolve id by false notes now db).1
        ≡ some (record w { workflow_status = failed }))
      × (is_valid_transition w.workflow_status failed ≡ false)
unfolding is_valid_transition
resolve-rejected id by notes now db a w r =
    let at_pause : is_valid_transition w.workflow_status failed ≡ false =
      let s = r.stopped in ground arith in
    let kept =
      get_by_id-put_row db a.workflow_id w r.here (resolved_db id by false notes now db a w)
        (after_resolution false w) refl refl refl in
    (
      ap (λ x. get_by_id a.workflow_id x.1) (resolve-resolved id by false notes now db a w r)
          ∙ kept,
      at_pause,
    )
