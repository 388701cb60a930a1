-- ===== src/Workflow/Approvals/Single.antt =====
-- The open approvals of a workflow over sequences of calls of backend/workflows/approvals.py.
use the_dashboard.Common.{
  ℕ, String, Bool, true, false, not, ◌||◌, ◌&&◌, Option, List, [], ◌∷◌, ◌++◌, ◌==◌, ◌≡◌, ◌≤◌, refl,
  sym, ap, ◌∙◌, arith, Bool-cases, Option-cases, inl, inr, any_of, select, select-append, length,
  length-append, get_row, put_row, subst,
}
use the_dashboard.Workflow.Status.{active, paused, same_status}
use the_dashboard.Workflow.Database.{
  ActorType, Workflow, Approval, ApprovalType, RiskLevel, Db, get_by_id, get_by_id_or_raise, save,
  append_event,
}
use the_dashboard.Workflow.Approvals
use the_dashboard.Workflow.Approvals.{
  same_type, blocks, is_resolvable, approvals_of, clashes, new_approval, insert_approval,
  unless_deleted, get_approval_or_raise, has_expired, save_approval, resolution, is_escalatable,
}

pub data GateCall : Type 0 where
  request_approval :
      (approval_id workflow_id : ℕ)
      → ApprovalType
      → (requested_by : Option ℕ) → RiskLevel
      → (expires_at : Option ℕ) → GateCall
  resolve : (approval_id resolved_by : ℕ) (is_approved : Bool) (notes : String) (now : ℕ) → GateCall
  escalate :
      (workflow_id : ℕ) (reason : String) (escalated_to : Option ℕ)
      → ActorType
      → Option ℕ
      → GateCall
  -- the other runtimes change the workflows
  elsewhere : (rows : List Workflow) → GateCall

unfoldable pub perform : GateCall → Db → Db
perform (GateCall.request_approval a w t by risk until) db =
    (Approvals.request_approval a w t by risk until db).1
perform (GateCall.resolve a by verdict notes now) db =
    (Approvals.resolve a by verdict notes now db).1
perform (GateCall.escalate w reason to type actor) db =
    (Approvals.escalate w reason to type actor db).1
perform (GateCall.elsewhere rows) db = record db { workflows = rows }

unfoldable pub serve : List GateCall → Db → Db
serve [] db = db
serve (c ∷ cs) db = serve cs (perform c db)

abbrev is_of : ℕ → Approval → Bool
is_of w a = a.workflow_id == w && not a.is_deleted

-- The approvals of a type that a workflow waits for.
abbrev pub open_of : (workflow_id : ℕ) → ApprovalType → List Approval → List Approval
open_of w t = select (λ a. is_of w a && blocks t a)

abbrev pub OneOpen : List Approval → Type 0
OneOpen approvals = (w : ℕ) (t : ApprovalType) → length (open_of w t approvals) ≤ 1

same_type-eq : (a b : ApprovalType) → same_type a b ≡ true → a ≡ b
same_type-eq a b h = ground arith

open_of-unblocked :
    (w : ℕ) (t : ApprovalType) (xs : List Approval)
    → any_of (blocks t) (select (is_of w) xs) ≡ false
    → open_of w t xs ≡ []
open_of-unblocked w t [] h = refl
open_of-unblocked w t (x ∷ xs) h = elim (Bool-cases (is_of w x)) [
  | inr f ↦
      let h' : any_of (blocks t) (select (is_of w) xs) ≡ false = rw f at h in
      rw f (open_of-unblocked w t xs h')
  | inl own ↦ elim (Bool-cases (blocks t x)) [
    | inl b ↦
        let g : (blocks t x || any_of (blocks t) (select (is_of w) xs)) ≡ false = rw own at h in
        let c : true ≡ false = rw b at g in cc
    | inr b ↦
        let g : (blocks t x || any_of (blocks t) (select (is_of w) xs)) ≡ false = rw own at h in
        let h' : any_of (blocks t) (select (is_of w) xs) ≡ false = rw b at g in
        rw own (rw b (open_of-unblocked w t xs h'))
  ]
]

length-select-put_row :
    (test : Approval → Bool) (v : Approval) (xs : List Approval)
    → test v ≡ false
    → length (select test (put_row (λ a. a.id) v xs)) ≤ length (select test xs)
length-select-put_row test v [] f = omega arith
length-select-put_row test v (x ∷ xs) f = ground (arith, length-select-put_row test v xs f)

put_row-OneOpen :
    (v : Approval) (xs : List Approval)
    → is_resolvable v.approval_status ≡ false
    → OneOpen xs
    → OneOpen (put_row (λ a. a.id) v xs)
put_row-OneOpen v xs f one w t =
    let shut : (is_of w v && blocks t v) ≡ false = rw f (ground arith) in
    let le = length-select-put_row (λ a. is_of w a && blocks t a) v xs shut in
    omega (arith, one w t)

snoc-OneOpen :
    (v : Approval) (xs : List Approval)
    → (t : ApprovalType) → v.approval_type ≡ t
    → open_of v.workflow_id t xs ≡ []
    → OneOpen xs
    → OneOpen (xs ++ v ∷ [])
snoc-OneOpen v xs t p none_open one w u =
    let l = length-append (open_of w u xs) (open_of w u (v ∷ [])) in
    let e = ap length (select-append (λ a. is_of w a && blocks u a) xs (v ∷ [])) ∙ l in
    elim (Bool-cases (is_of w v && blocks u v)) [
      | inr other ↦
          let z : length (open_of w u (v ∷ [])) ≡ 0 = rw other refl in omega (arith, one w u)
      | inl own ↦
          let k : v.workflow_id ≡ w = ground arith in
          let m : same_type v.approval_type u ≡ true = ground arith in
          let q : t ≡ u = sym p ∙ same_type-eq v.approval_type u m in
          let empty : open_of w u xs ≡ [] =
            subst (λ i. open_of i u xs ≡ []) k
              (subst (λ i. open_of v.workflow_id i xs ≡ []) q none_open) in
          let z : length (open_of w u xs) ≡ 0 = rw empty refl in
          let z1 : length (open_of w u (v ∷ [])) ≡ 1 = rw own refl in omega arith
    ]

unblocked :
    (w : ℕ) (t : ApprovalType) (db : Db)
    → any_of (blocks t) (approvals_of w db) ≡ false
    → any_of (blocks t) (select (is_of w) db.approvals) ≡ false
unfolding approvals_of
unblocked w t db h = h

module _ (db : Db) (one : OneOpen db.approvals) where
  request_approval-OneOpen :
      (id w : ℕ) (t : ApprovalType) (by : Option ℕ) (risk : RiskLevel) (until : Option ℕ)
      → OneOpen (Approvals.request_approval id w t by risk until db).1.approvals
  unfolding Approvals.request_approval get_by_id_or_raise insert_approval save append_event
  request_approval-OneOpen id w t by risk until = elim (Option-cases (get_by_id w db)) [
    | inl missing ↦ rw missing one
    | inr (wf, found) ↦ rw found (elim (Bool-cases (same_status wf.workflow_status active)) [
      | inr off ↦ rw off one
      | inl on ↦ rw on (elim (Bool-cases (any_of (blocks t) (approvals_of w db))) [
        | inl blocked ↦ rw blocked one
        | inr free ↦ rw free (elim (Bool-cases (clashes (new_approval id w t by risk until) db)) [
          | inl clash ↦ rw clash one
          | inr fine ↦ rw fine (
              snoc-OneOpen (new_approval id w t by risk until) db.approvals t refl
                (open_of-unblocked w t db.approvals (unblocked w t db free)) one)
        ])
      ])
    ])
  ]

  resolve-OneOpen :
      (id by : ℕ) (verdict : Bool) (notes : String) (now : ℕ)
      → OneOpen (Approvals.resolve id by verdict notes now db).1.approvals
  unfolding Approvals.resolve get_approval_or_raise get_by_id_or_raise save_approval save
      append_event
  resolve-OneOpen id by verdict notes now =
      elim (Option-cases (unless_deleted (get_row (λ a. a.id) id db.approvals))) [
        | inl missing ↦ rw missing one
        | inr (a, found) ↦ rw found (elim (Bool-cases (is_resolvable a.approval_status)) [
          | inr shut ↦ rw shut one
          | inl waits ↦ rw waits (elim (Bool-cases (has_expired a.expires_at now)) [
            | inl late ↦ rw late one
            | inr fresh ↦ rw fresh (elim (Option-cases (get_by_id a.workflow_id db)) [
              | inl gone ↦ rw gone one
              | inr (wf, here) ↦
                  rw here (elim (Bool-cases (same_status wf.workflow_status paused)) [
                    | inr off ↦ rw off one
                    | inl on ↦ rw on (elim (Bool-cases (has_expired wf.expires_at now)) [
                      | inl over ↦ rw over one
                      | inr time ↦ rw time (
                          put_row-OneOpen (resolution by verdict notes a) db.approvals
                            (elim (Bool-cases verdict) [ inl y ↦ rw y refl | inr n ↦ rw n refl ])
                            one)
                    ])
                  ])
            ])
          ])
        ])
      ]

  escalate-OneOpen :
      (w : ℕ) (reason : String) (to : Option ℕ) (type : ActorType) (actor : Option ℕ)
      → OneOpen (Approvals.escalate w reason to type actor db).1.approvals
  unfolding Approvals.escalate get_by_id_or_raise append_event
  escalate-OneOpen w reason to type actor = elim (Option-cases (get_by_id w db)) [
    | inl missing ↦ rw missing one
    | inr (wf, found) ↦ rw found (elim (Bool-cases (is_escalatable wf.workflow_status)) [
      | inr off ↦ rw off one
      | inl on ↦ rw on one
    ])
  ]

  perform-OneOpen : (c : GateCall) → OneOpen (perform c db).approvals
  unfolding perform
  perform-OneOpen (GateCall.request_approval id w t by risk until) =
      request_approval-OneOpen id w t by risk until
  perform-OneOpen (GateCall.resolve id by verdict notes now) =
      resolve-OneOpen id by verdict notes now
  perform-OneOpen (GateCall.escalate w reason to type actor) =
      escalate-OneOpen w reason to type actor
  perform-OneOpen (GateCall.elsewhere rows) = one

serve-OneOpen :
    (cs : List GateCall) (db : Db) → OneOpen db.approvals → OneOpen (serve cs db).approvals
unfolding serve
serve-OneOpen [] db one = one
serve-OneOpen (c ∷ cs) db one = serve-OneOpen cs (perform c db) (perform-OneOpen db one c)

-- Whatever calls of the gate are made, with any changes of the workflows by other runtimes between
-- them, on tables without approvals: a workflow waits for at most one approval of each type.
pub serve-one_open :
    (cs : List GateCall) (db : Db) (w : ℕ) (t : ApprovalType)
    → db.approvals ≡ []
    → length (open_of w t (serve cs db).approvals) ≤ 1
serve-one_open cs db w t fresh =
    let none_yet : OneOpen db.approvals = λ i u. rw fresh (omega arith) in
    serve-OneOpen cs db none_yet w t
