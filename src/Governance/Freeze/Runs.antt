-- ===== src/Governance/Freeze/Runs.antt =====
-- Sequences of calls of backend/governance/freeze.py on one log.
use the_dashboard.Common.{
  ℕ, String, Bool, true, false, ◌||◌, Option, none, List, [], ◌∷◌, ◌++◌, ◌≡◌, refl, ◌∙◌, returned,
  inl, inr, arith, eq_iff, any_of, any_of-append, str_elem, Bool-cases,
}
use the_dashboard.Governance.Events.{GovernanceEvent, Log, event, freeze_deactivated}
use the_dashboard.Governance.Freeze
use the_dashboard.Governance.Freeze.{kills, lifts, deactivated_keys, is_frozen, marks_kill}
use the_dashboard.Governance.Freeze.Laws.{
  activate-log_frozen, activate-log_free, deactivate-log, kill_switch-log, is_frozen-eq,
  is_frozen-activate,
}

-- A call of one of the methods that write to the log.
pub data Request : Type 0 where
  activate : (freeze_key scope reason : String) (actor_id : Option ℕ) (now : ℕ) → Request
  deactivate : (freeze_key : String) (actor_id : Option ℕ) → Request
  kill_switch : (freeze_key scope reason : String) (actor_id : Option ℕ) (now : ℕ) → Request

-- The log after the calls; a call that raises leaves what it wrote before.
unfoldable pub serve : List Request → Log → Log
serve [] log = log
serve (Request.activate key scope reason actor now ∷ rs) log =
    serve rs (Freeze.activate key scope reason actor now log).1
serve (Request.deactivate key actor ∷ rs) log = serve rs (Freeze.deactivate key actor log).1
serve (Request.kill_switch key scope reason actor now ∷ rs) log =
    serve rs (Freeze.kill_switch key scope reason actor now log).1

any_of-snoc :
    (test : GovernanceEvent → Bool) (log : Log) (e : GovernanceEvent)
    → any_of test (log ++ e ∷ []) ≡ (any_of test log || test e)
any_of-snoc test log e = any_of-append test log (e ∷ []) ∙ ground arith

module _ (t : String) where
  kills-activate :
      (key scope reason : String) (actor : Option ℕ) (now : ℕ) (log : Log)
      → any_of (kills t) (Freeze.activate key scope reason actor now log).1 ≡ any_of (kills t) log
  kills-activate key scope reason actor now log = elim (Bool-cases (is_frozen scope log)) [
    | inl f ↦ rw (activate-log_frozen key scope reason actor now log f)
    | inr f ↦
        rw (activate-log_free key scope reason actor now log f)
          (any_of-snoc (kills t) log _ ∙ ground arith)
  ]

  kills-deactivate :
      (key : String) (actor : Option ℕ) (log : Log)
      → any_of (kills t) (Freeze.deactivate key actor log).1 ≡ any_of (kills t) log
  kills-deactivate key actor log =
      rw (deactivate-log key actor log)
        (ground (arith, any_of-snoc (kills t) log (event (freeze_deactivated key) none actor)))

  kills-kill_switch :
      (key scope reason : String) (actor : Option ℕ) (now : ℕ) (log : Log)
      → any_of (kills t) log ≡ true
      → any_of (kills t) (Freeze.kill_switch key scope reason actor now log).1 ≡ true
  kills-kill_switch key scope reason actor now log h =
      rw (kill_switch-log key scope reason actor now log)
        (any_of-snoc (kills t) log _ ∙ ground arith)

  kills-serve :
      (rs : List Request) (log : Log)
      → any_of (kills t) log ≡ true
      → any_of (kills t) (serve rs log) ≡ true
  unfolding serve
  kills-serve [] log h = h
  kills-serve (Request.activate key scope reason actor now ∷ rs) log h =
      kills-serve rs _ (kills-activate key scope reason actor now log ∙ h)
  kills-serve (Request.deactivate key actor ∷ rs) log h =
      kills-serve rs _ (kills-deactivate key actor log ∙ h)
  kills-serve (Request.kill_switch key scope reason actor now ∷ rs) log h =
      kills-serve rs _ (kills-kill_switch key scope reason actor now log h)

-- A scope stays frozen through every sequence of calls that follows a kill switch on it.
pub is_frozen-serve-kill_switch :
    (key scope reason : String) (actor : Option ℕ) (now : ℕ) (log : Log) (rs : List Request)
    → is_frozen scope (serve rs (Freeze.kill_switch key scope reason actor now log).1) ≡ true
is_frozen-serve-kill_switch key scope reason actor now log rs =
    let k : any_of (kills scope) (Freeze.kill_switch key scope reason actor now log).1 ≡ true =
      rw (kill_switch-log key scope reason actor now log)
        (any_of-snoc (kills scope) log _ ∙ ground (arith, eq_iff scope scope)) in
    rw (is_frozen-eq scope _, kills-serve scope rs _ k)

-- No call writes a freeze that is marked as a kill switch.
module _ (k : String) where
  marks_kill-activate :
      (key scope reason : String) (actor : Option ℕ) (now : ℕ) (log : Log)
      → any_of (marks_kill k) log ≡ false
      → any_of (marks_kill k) (Freeze.activate key scope reason actor now log).1 ≡ false
  marks_kill-activate key scope reason actor now log h = elim (Bool-cases (is_frozen scope log)) [
    | inl f ↦ rw (activate-log_frozen key scope reason actor now log f) h
    | inr f ↦
        rw (activate-log_free key scope reason actor now log f)
          (any_of-snoc (marks_kill k) log _ ∙ ground arith)
  ]

  marks_kill-deactivate :
      (key : String) (actor : Option ℕ) (log : Log)
      → any_of (marks_kill k) log ≡ false
      → any_of (marks_kill k) (Freeze.deactivate key actor log).1 ≡ false
  marks_kill-deactivate key actor log h =
      rw (deactivate-log key actor log)
        (ground (arith, any_of-snoc (marks_kill k) log (event (freeze_deactivated key) none actor)))

  marks_kill-kill_switch :
      (key scope reason : String) (actor : Option ℕ) (now : ℕ) (log : Log)
      → any_of (marks_kill k) log ≡ false
      → any_of (marks_kill k) (Freeze.kill_switch key scope reason actor now log).1 ≡ false
  marks_kill-kill_switch key scope reason actor now log h =
      rw (kill_switch-log key scope reason actor now log)
        (any_of-snoc (marks_kill k) log _ ∙ ground arith)

  marks_kill-serve :
      (rs : List Request) (log : Log)
      → any_of (marks_kill k) log ≡ false
      → any_of (marks_kill k) (serve rs log) ≡ false
  unfolding serve
  marks_kill-serve [] log h = h
  marks_kill-serve (Request.activate key scope reason actor now ∷ rs) log h =
      marks_kill-serve rs _ (marks_kill-activate key scope reason actor now log h)
  marks_kill-serve (Request.deactivate key actor ∷ rs) log h =
      marks_kill-serve rs _ (marks_kill-deactivate key actor log h)
  marks_kill-serve (Request.kill_switch key scope reason actor now ∷ rs) log h =
      marks_kill-serve rs _ (marks_kill-kill_switch key scope reason actor now log h)

-- Whatever calls were made on an empty log before, kill switches under the same key among them,
-- `deactivate` returns without an error and records a deactivation of the key.
pub deactivate-serve :
    (rs : List Request) (key : String) (actor : Option ℕ)
    → Freeze.deactivate key actor (serve rs [])
      ≡ (returned tt, serve rs [] ++ event (freeze_deactivated key) none actor ∷ [])
unfolding Freeze.deactivate
deactivate-serve rs key actor = rw (marks_kill-serve key rs [] refl)

-- Once a key was deactivated, activating a freeze under it again on any scope that is not frozen
-- returns a specification as if it froze the scope, and leaves that scope unfrozen.
pub activate_after_deactivate :
    (key scope reason : String) (actor : Option ℕ) (now : ℕ) (log : Log)
    → str_elem key (deactivated_keys log) ≡ true
    → is_frozen scope log ≡ false
    → ((Freeze.activate key scope reason actor now log).0
        ≡ returned (record {
          freeze_key = key;
          scope = scope;
          reason = reason;
          is_kill_switch = false;
          activated_by = actor;
          activated_at = now;
        }))
      × (is_frozen scope (Freeze.activate key scope reason actor now log).1 ≡ false)
unfolding Freeze.activate
activate_after_deactivate key scope reason actor now log d f =
    (rw f, is_frozen-activate key scope reason actor now log scope ∙ ground arith)
