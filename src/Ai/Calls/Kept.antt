-- ===== src/Ai/Calls/Kept.antt =====
-- The count of the attempts through the operations of backend/ai/lifecycle.py.
use the_dashboard.Common.{
  ℕ, suc, String, Bool, true, false, none, some, [], ◌∷◌, ◌++◌, ◌<◌, ◌≡◌, ◌≢◌, refl, sym, subst, ap,
  ◌∙◌, ◌>>=◌, arith, ltb, str_eq, Bool-cases, Option-cases, inl, inr, find_by, get_row-key,
  get_row-put_row_cases, get_row-put_row-none,
}
use the_dashboard.Workflow.Database.{Dict}
use the_dashboard.Ai.Execution
use the_dashboard.Ai.Execution.{
  ExecutionStatus, pending, running, completed, failed, cancelled, awaiting_approval, same_status,
  is_terminal, AiExecutionContext, AiExecution, Notice, started, AiEvent, Store, Session,
  get_for_update_or_raise, AiError, write, require, new_execution, clashes, limit,
}
use the_dashboard.Ai.Calls.Counted.{
  stored, starts, IsCounted, AreCounted, is_start_body, starts-other, starts-quiet, starts-own,
  IsCounted-other, stored-fresh, insert-AreCounted,
}

module _ (s : Store) (inv : AreCounted s.executions s.events) where
  write-AreCounted :
      (row row' : AiExecution) (body : Notice)
      → stored row'.id s.executions ≡ some row
      → IsCounted row' (
          s.events
          ++ record { execution_id = row'.id; body = body; correlation_id = row'.correlation_id }
            ∷ [])
      → AreCounted (write row' body s).1.executions (write row' body s).1.events
  unfolding write
  write-AreCounted row row' body old c = record {
    present = λ k v f. elim (get_row-put_row_cases (λ e. e.id) k row' s.executions row v old f) [
      | inl (e, p) ↦ rw e c
      | inr (f', n) ↦
          let own : v.id ≡ k = get_row-key (λ e. e.id) k s.executions v f' in
          IsCounted-other v s.events _ (λ p. n (p ∙ own)) (inv.present k v f')
    ];
    absent = λ k f.
        let gone = get_row-put_row-none (λ e. e.id) k row' s.executions f in
        let n : row'.id ≢ k = λ p. ne_of_gone k p gone in
        starts-other k s.events _ n ∙ inv.absent k gone;
  }
    where
      ne_of_gone : (k : ℕ) → row'.id ≡ k → stored k s.executions ≡ none → ⊥
      ne_of_gone k p gone =
          let here : stored k s.executions ≡ some row =
            subst (λ i. stored i s.executions ≡ some row) p old in
          cc

  -- What a method does with the row that it asked for.
  require-AreCounted :
      {A : Type 0} (id : ℕ) (status : ExecutionStatus) (f : AiExecution → Session A)
      → ((row : AiExecution)
          → stored id s.executions ≡ some row
          → same_status row.status status ≡ true
          → AreCounted (f row s).1.executions (f row s).1.events)
      → AreCounted ((require id status >>= f) s).1.executions ((require id status >>= f) s).1.events
  unfolding require get_for_update_or_raise
  require-AreCounted id status f h = elim (Option-cases (stored id s.executions)) [
    | inl missing ↦ rw missing inv
    | inr (row, found) ↦ rw found (elim (Bool-cases (same_status row.status status)) [
      | inl fits ↦ rw fits (h row found fits)
      | inr off ↦ rw off inv
    ])
  ]

  -- A change that is no start.
  change-AreCounted :
      (id : ℕ) (row row' : AiExecution) (body : Notice)
      → stored id s.executions ≡ some row
      → row'.id ≡ row.id
      → row'.attempt ≡ row.attempt
      → row'.max_attempts ≡ row.max_attempts
      → is_start_body body ≡ false
      → (same_status row'.status pending ≡ true → row.attempt < limit row.max_attempts)
      → (same_status row'.status failed ≡ true → row.attempt ≡ limit row.max_attempts)
      → AreCounted (write row' body s).1.executions (write row' body s).1.events
  change-AreCounted id row row' body found same attempt max quiet left spent =
      let own : row.id ≡ id = get_row-key (λ e. e.id) id s.executions row found in
      let c = inv.present id row found in
      let at : stored row'.id s.executions ≡ some row =
        subst (λ i. stored i s.executions ≡ some row) (sym (same ∙ own)) found in
      write-AreCounted row row' body at (record {
        counted =
            starts-quiet row'.id s.events _ quiet
            ∙ ap (λ i. starts i s.events) same
            ∙ c.counted
            ∙ sym attempt;
        bounded = rw (attempt, max) c.bounded;
        left = λ h. rw (attempt, max) (left h);
        spent = λ h. rw (attempt, max) (spent h);
      })

  pub start-AreCounted :
      (id now : ℕ)
      → AreCounted (Execution.start id now s).1.executions (Execution.start id now s).1.events
  unfolding Execution.start
  start-AreCounted id now = require-AreCounted id pending _ (λ row found fits.
      let own : row.id ≡ id = get_row-key (λ e. e.id) id s.executions row found in
      let c = inv.present id row found in
      let at : stored row.id s.executions ≡ some row =
        subst (λ i. stored i s.executions ≡ some row) (sym own) found in
      let more = c.left fits in
      write-AreCounted row _ _ at (record {
        counted = starts-own row.id s.events _ refl refl ∙ ap suc c.counted;
        bounded = omega arith;
        left = λ h. cc;
        spent = λ h. cc;
      }))

  pub fail-AreCounted :
      (id : ℕ) (error : String)
      → AreCounted (Execution.fail id error s).1.executions (Execution.fail id error s).1.events
  unfolding Execution.fail
  fail-AreCounted id error = require-AreCounted id running _ (λ row found fits.
      elim (Bool-cases (ltb row.attempt (limit row.max_attempts))) [
        | inl more ↦
            rw more
              (change-AreCounted id row _ _ found refl refl refl refl (λ h. ground arith) (λ h. cc))
        | inr over ↦
            let c = inv.present id row found in
            let bounded = c.bounded in
            rw over
              (change-AreCounted id row _ _ found refl refl refl refl (λ h. cc) (λ h. ground arith))
      ])

  pub cancel-AreCounted :
      (id : ℕ) (reason : String) (now : ℕ)
      → AreCounted
          (Execution.cancel id reason now s).1.executions
          (Execution.cancel id reason now s).1.events
  unfolding Execution.cancel get_for_update_or_raise
  cancel-AreCounted id reason now = elim (Option-cases (stored id s.executions)) [
    | inl missing ↦ rw missing inv
    | inr (row, found) ↦ rw found (elim (Bool-cases (is_terminal row.status)) [
      | inl over ↦ rw over inv
      | inr live ↦
          rw live (change-AreCounted id row _ _ found refl refl refl refl (λ h. cc) (λ h. cc))
    ])
  ]

  pub complete-AreCounted :
      (id : ℕ) (output : Dict) (tokens now : ℕ)
      → AreCounted
          (Execution.complete id output tokens now s).1.executions
          (Execution.complete id output tokens now s).1.events
  unfolding Execution.complete
  complete-AreCounted id output tokens now =
      require-AreCounted id running _ (λ row found fits.
        change-AreCounted id row _ _ found refl refl refl refl (λ h. cc) (λ h. cc))

  pub checkpoint-AreCounted :
      (id : ℕ) (state : Dict)
      → AreCounted
          (Execution.checkpoint id state s).1.executions
          (Execution.checkpoint id state s).1.events
  unfolding Execution.checkpoint write
  checkpoint-AreCounted id state = require-AreCounted id running _ (λ row found fits.
      let c = inv.present id row found in
      change-AreCounted id row _ _ found refl refl refl refl c.left c.spent)

  pub mark_awaiting_approval-AreCounted :
      (id approval : ℕ)
      → AreCounted
          (Execution.mark_awaiting_approval id approval s).1.executions
          (Execution.mark_awaiting_approval id approval s).1.events
  unfolding Execution.mark_awaiting_approval
  mark_awaiting_approval-AreCounted id approval =
      require-AreCounted id running _ (λ row found fits.
        change-AreCounted id row _ _ found refl refl refl refl (λ h. cc) (λ h. cc))

  pub resume_from_approval-AreCounted :
      (id : ℕ)
      → AreCounted
          (Execution.resume_from_approval id s).1.executions
          (Execution.resume_from_approval id s).1.events
  unfolding Execution.resume_from_approval
  resume_from_approval-AreCounted id =
      require-AreCounted id awaiting_approval _ (λ row found fits.
        change-AreCounted id row _ _ found refl refl refl refl (λ h. cc) (λ h. cc))

  pub create-AreCounted :
      (id : ℕ) (context : AiExecutionContext) (asks : Bool)
      → AreCounted
          (Execution.create id context asks s).1.executions
          (Execution.create id context asks s).1.events
  unfolding Execution.create
  create-AreCounted id context asks =
      elim (Option-cases
        (find_by (λ e. str_eq e.execution_key context.execution_key) s.executions)) [
          | inr (row, found) ↦ rw found inv
          | inl free ↦ rw free (elim (Bool-cases (clashes (new_execution id context asks) s)) [
            | inl clash ↦ rw clash inv
            | inr fine ↦ rw fine (
                insert-AreCounted s.executions s.events id context asks _ inv
                  (stored-fresh id _ s.executions fine) refl)
          ])
        ]
