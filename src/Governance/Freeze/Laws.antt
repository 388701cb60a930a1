-- ===== src/Governance/Freeze/Laws.antt =====
-- The operations of backend/governance/freeze.py and the frozen scopes.
use the_dashboard.Common.{
  ℕ, String, Bool, true, false, not, ◌&&◌, ◌||◌, Option, none, some, List, [], ◌∷◌, ◌++◌, ◌≡◌, refl,
  ◌∙◌, or_raise, inl, inr, arith, str_eq, eq_iff, str_elem, any_of, any_of-append, collect-append,
  append-nil, Bool-cases, cons_some, if◌then◌else◌,
}
use the_dashboard.Governance.Events.{
  freeze_activated, freeze_deactivated, GovernanceEvent, Log, event, kill_switch_triggered,
}
use the_dashboard.Governance.Freeze.{
  FreezeSpec, FreezeError, kills, freezes, lifts, activated_keys, deactivated_keys, is_frozen,
  activate, deactivate, kill_switch, marks_kill, fall_back,
}

-- The test of the last loop of `is_frozen`.
abbrev pub live : List String → String → Bool
live lifted key = not (str_elem key lifted)

pub is_frozen-eq :
    (scope : String) (log : Log)
    → is_frozen scope log ≡ (
        if any_of (kills scope) log
        then true
        else any_of (live (deactivated_keys log)) (activated_keys scope log))
unfolding is_frozen
is_frozen-eq scope log = refl

activated_keys-snoc :
    (scope : String) (log : Log) (e : GovernanceEvent)
    → activated_keys scope (log ++ e ∷ [])
      ≡ activated_keys scope log ++ cons_some (freezes scope e) []
unfolding activated_keys
activated_keys-snoc scope log e = collect-append (freezes scope) log (e ∷ [])

deactivated_keys-snoc :
    (log : Log) (e : GovernanceEvent)
    → deactivated_keys (log ++ e ∷ []) ≡ deactivated_keys log ++ cons_some (lifts e) []
unfolding deactivated_keys
deactivated_keys-snoc log e = collect-append lifts log (e ∷ [])

-- How one more event changes what `is_frozen` reads.
is_frozen-snoc :
    (scope : String) (log : Log) (e : GovernanceEvent)
    → is_frozen scope (log ++ e ∷ []) ≡ (
        if any_of (kills scope) log || (kills scope e || false)
        then true
        else (any_of
              (live (deactivated_keys log ++ cons_some (lifts e) []))
              (activated_keys scope log)
            || any_of
                (live (deactivated_keys log ++ cons_some (lifts e) []))
                (cons_some (freezes scope e) [])))
is_frozen-snoc scope log e =
    is_frozen-eq scope (log ++ e ∷ [])
    ∙ rw (any_of-append (kills scope) log (e ∷ []), activated_keys-snoc, deactivated_keys-snoc)
        (rw
          (any_of-append (live (deactivated_keys log ++ cons_some (lifts e) []))
            (activated_keys scope log) (cons_some (freezes scope e) []))
          refl)

-- Activating
module _ (key scope reason : String) (actor_id : Option ℕ) (now : ℕ) (log : Log) where
  is_frozen-freeze_event :
      (t : String)
      → is_frozen t (log ++ event (freeze_activated key scope reason false now) none actor_id ∷ [])
        ≡ (is_frozen t log || (str_eq scope t && not (str_elem key (deactivated_keys log))))
  is_frozen-freeze_event t =
      is_frozen-snoc t log _
      ∙ rw (append-nil (deactivated_keys log), is_frozen-eq t log) (ground arith)

  fall_back_keeps_log :
      (minimal : FreezeSpec) (o : Option FreezeSpec) (e : FreezeError)
      → (fall_back minimal (or_raise o e log)).1 ≡ log
  fall_back_keeps_log minimal none e = refl
  fall_back_keeps_log minimal (some s) e = refl

  pub activate-log_frozen :
      is_frozen scope log ≡ true → (activate key scope reason actor_id now log).1 ≡ log
  unfolding activate
  activate-log_frozen f = rw f (fall_back_keeps_log _ _ _)

  pub activate-log_free :
      is_frozen scope log ≡ false
      → (activate key scope reason actor_id now log).1
        ≡ log ++ event (freeze_activated key scope reason false now) none actor_id ∷ []
  unfolding activate
  activate-log_free f = rw f

  -- After an activation exactly these scopes are frozen: those frozen before and, if its key was
  -- never deactivated, the scope that it names.
  pub is_frozen-activate :
      (t : String)
      → is_frozen t (activate key scope reason actor_id now log).1
        ≡ (is_frozen t log || (str_eq scope t && not (str_elem key (deactivated_keys log))))
  is_frozen-activate t = elim (Bool-cases (is_frozen scope log)) [
    | inl f ↦ rw (activate-log_frozen f) (elim (Bool-cases (str_eq scope t)) [
      | inl e ↦
          let p : scope ≡ t = (eq_iff scope t).0 e in
          let g : is_frozen t log ≡ true = rw (← p) f in rw g
      | inr n ↦ rw n (ground arith)
    ])
    | inr f ↦ rw (activate-log_free f) (is_frozen-freeze_event t)
  ]

-- Deactivating adds an event, unless a freeze under the key is marked as a kill switch.
module _ (key : String) (actor_id : Option ℕ) (log : Log) where
  pub deactivate-log : (deactivate key actor_id log).1 ≡ (
      if any_of (marks_kill key) log
      then log
      else log ++ event (freeze_deactivated key) none actor_id ∷ [])
  unfolding deactivate
  deactivate-log = ground arith

-- The kill switch adds an event.
module _ (key scope reason : String) (actor_id : Option ℕ) (now : ℕ) (log : Log) where
  -- After a kill switch exactly the scopes frozen before and its own scope are frozen.
  pub is_frozen-kill_switch :
      (t : String)
      → is_frozen t (kill_switch key scope reason actor_id now log).1
        ≡ (is_frozen t log || str_eq scope t)
  unfolding kill_switch
  is_frozen-kill_switch t =
      is_frozen-snoc t log _
      ∙ rw (append-nil (deactivated_keys log), is_frozen-eq t log) (ground arith)

  pub kill_switch-log :
      (kill_switch key scope reason actor_id now log).1
      ≡ log ++ event (kill_switch_triggered key scope reason now) none actor_id ∷ []
  unfolding kill_switch
  kill_switch-log = refl
