-- ===== src/Ai/Calls/Attempts.antt =====
-- The attempts of an execution (backend/ai/lifecycle.py) against its limit, over sequences of
-- calls.
use the_dashboard.Common.{
  ℕ, String, Bool, true, false, Option, none, some, List, [], ◌∷◌, ◌++◌, ◌≡◌, refl, sym, subst,
  state->>=-pure, arith, Bool-cases, Option-cases, inl, inr, get_row,
}
use the_dashboard.Workflow.Database.{RiskLevel, Approval}
use the_dashboard.Workflow.Approvals.{is_resolvable, unless_deleted}
use the_dashboard.Ai.Registry.{AiToolDefinition}
use the_dashboard.Ai.Execution
use the_dashboard.Ai.Execution.{
  ExecutionStatus, pending, running, completed, failed, cancelled, awaiting_approval, same_status,
  is_terminal, AiExecutionContext, AiExecution, Notice, started, AiEvent, Store, Session,
  get_for_update_or_raise, AiError, write, require, new_execution, clashes, limit,
}
use the_dashboard.Ai.Gate
use the_dashboard.Ai.Gate.{ask, check, ask_for, get_approval_or_raise}
use the_dashboard.Ai.Calls.{AiCall, perform, serve}
use the_dashboard.Ai.Calls.Counted.{stored, IsCounted, AreCounted}
use the_dashboard.Ai.Calls.Kept.{
  start-AreCounted, fail-AreCounted, cancel-AreCounted, complete-AreCounted, checkpoint-AreCounted,
  mark_awaiting_approval-AreCounted, resume_from_approval-AreCounted, create-AreCounted,
}

-- What the gate writes are approvals, beside what the lifecycle writes.
abbrev CountedStore : Store → Type 0
CountedStore s = AreCounted s.executions s.events

ask-AreCounted : (a : Approval) (id : ℕ) (s : Store) → CountedStore s → CountedStore (ask a id s).1
unfolding ask
ask-AreCounted a id s inv = elim (Bool-cases (Gate.clashes a s)) [
  | inl clash ↦ rw clash inv
  | inr fine ↦
      let s' = record s { approvals = s.approvals ++ a ∷ [] } in
      rw fine (
        subst CountedStore
          (sym (state->>=-pure (Execution.mark_awaiting_approval id a.id) (λ w. false) s'))
          (mark_awaiting_approval-AreCounted s' inv id a.id))
]

check-AreCounted :
    (tool : Option AiToolDefinition) (approval id : ℕ) (workflow actor : Option ℕ)
    (risk : RiskLevel) (s : Store)
    → CountedStore s
    → CountedStore (check tool approval id workflow actor risk s).1
check-AreCounted none approval id workflow actor risk s inv = inv
check-AreCounted (some tool) approval id none actor risk s inv =
    elim (Bool-cases tool.requires_approval) [ inl y ↦ rw y inv | inr n ↦ rw n inv ]
check-AreCounted (some tool) approval id (some workflow) actor risk s inv =
    elim (Bool-cases tool.requires_approval) [
      | inl y ↦ rw y (ask-AreCounted _ id s inv)
      | inr n ↦ rw n inv
    ]

settle-AreCounted :
    (is_approved : Bool) (id now : ℕ) (s : Store)
    → CountedStore s
    → CountedStore (Gate.settle is_approved id now s).1
settle-AreCounted true id now s inv =
    subst CountedStore (sym (state->>=-pure (Execution.resume_from_approval id) (λ r. tt) s))
      (resume_from_approval-AreCounted s inv id)
settle-AreCounted false id now s inv =
    subst CountedStore
      (sym (state->>=-pure (Execution.cancel id "approval_rejected" now) (λ r. tt) s))
      (cancel-AreCounted s inv id "approval_rejected" now)

resolve-AreCounted :
    (id approval : ℕ) (is_approved : Bool) (by : Option ℕ) (notes : String) (now : ℕ) (s : Store)
    → CountedStore s
    → CountedStore (Gate.resolve id approval is_approved by notes now s).1
unfolding Gate.resolve get_approval_or_raise
resolve-AreCounted id approval is_approved by notes now s inv =
    elim (Option-cases (unless_deleted (get_row (λ a. a.id) approval s.approvals))) [
      | inl missing ↦ rw missing inv
      | inr (a, found) ↦ rw found (elim (Bool-cases (is_resolvable a.approval_status)) [
        | inr no_more ↦ rw no_more inv
        | inl open_still ↦ rw open_still (settle-AreCounted is_approved id now _ inv)
      ])
    ]

perform-AreCounted : (c : AiCall) (s : Store) → CountedStore s → CountedStore (perform c s)
unfolding perform Gate.check_tool
perform-AreCounted (AiCall.create id context asks) s inv = create-AreCounted s inv id context asks
perform-AreCounted (AiCall.start id now) s inv = start-AreCounted s inv id now
perform-AreCounted (AiCall.complete id output tokens now) s inv =
    complete-AreCounted s inv id output tokens now
perform-AreCounted (AiCall.fail id error) s inv = fail-AreCounted s inv id error
perform-AreCounted (AiCall.cancel id reason now) s inv = cancel-AreCounted s inv id reason now
perform-AreCounted (AiCall.checkpoint id state) s inv = checkpoint-AreCounted s inv id state
perform-AreCounted (AiCall.mark_awaiting_approval id approval) s inv =
    mark_awaiting_approval-AreCounted s inv id approval
perform-AreCounted (AiCall.resume_from_approval id) s inv = resume_from_approval-AreCounted s inv id
perform-AreCounted (AiCall.check_tool tools approval id tool workflow actor risk) s inv =
    check-AreCounted (tools tool) approval id workflow actor risk s inv
perform-AreCounted (AiCall.resolve id approval is_approved by notes now) s inv =
    resolve-AreCounted id approval is_approved by notes now s inv

serve-AreCounted : (cs : List AiCall) (s : Store) → CountedStore s → CountedStore (serve cs s)
unfolding serve
serve-AreCounted [] s inv = inv
serve-AreCounted (c ∷ cs) s inv = serve-AreCounted cs (perform c s) (perform-AreCounted c s inv)

abbrev pub no_tables : Store
no_tables = record { executions = []; approvals = []; events = [] }

-- After every sequence of calls of the lifecycle and the approval gate, from empty tables: an
-- execution was started as often as its row says, and never more often than its limit allows; one
-- that waits for a start has an attempt left, and one that failed has used them all.
pub serve-IsCounted :
    (cs : List AiCall) (k : ℕ) (row : AiExecution)
    → stored k (serve cs no_tables).executions ≡ some row
    → IsCounted row (serve cs no_tables).events
serve-IsCounted cs k row found =
    let inv =
      serve-AreCounted cs no_tables
        (record { present = λ k v f. absurd (ground arith); absent = λ k f. refl }) in
    inv.present k row found
