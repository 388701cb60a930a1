-- ===== src/Governance/Freeze/Meaning.antt =====
-- What `is_frozen` of backend/governance/freeze.py reads from the log.
use mathlib.Core.List.{Memᴰ}
use the_dashboard.Common.{
  ℕ, String, Bool, true, some, ap, refl, str_eq, eq_iff, ◌≡◌, ◌↔◌, ◌⊎◌, inl, inr, arith, any_of,
  str_elem, Bool-cases, any_of-mem, any_of_mem, mem-collect, mem-collect_of_mem, str_elem-mem,
  str_elem_of_mem,
}
use the_dashboard.Governance.Events.{
  EventBody, freeze_activated, freeze_deactivated, kill_switch_triggered, GovernanceEvent, Log,
}
use the_dashboard.Governance.Freeze.{
  kills, freezes, lifts, activated_keys, deactivated_keys, is_frozen,
}
use the_dashboard.Governance.Freeze.Laws.{live, is_frozen-eq}

-- The log has the event of a kill switch on the scope.
abbrev pub HasKill : String → Log → Type 0
HasKill scope log =
    (e : GovernanceEvent) × Memᴰ e log
    × ((key : String) × (reason : String) × (at : ℕ) × (e.body
          ≡ kill_switch_triggered key scope reason at))

-- The log has the event of a deactivation of the key, at any place.
abbrev pub WasLifted : String → Log → Type 0
WasLifted key log = (e : GovernanceEvent) × Memᴰ e log × (e.body ≡ freeze_deactivated key)

-- The log has the event of a freeze on the scope under a key of which it has no deactivation.
abbrev pub HasFreeze : String → Log → Type 0
HasFreeze scope log =
    (key : String) × (e : GovernanceEvent) × Memᴰ e log
    × ((reason : String) × (kill : Bool) × (at : ℕ) × (e.body
          ≡ freeze_activated key scope reason kill at))
    × ¬ WasLifted key log

-- The tests of the code against the events that they look for.
kills_body :
    (scope : String) (e : GovernanceEvent) (b : EventBody)
    → e.body ≡ b
    → kills scope e ≡ true
    → (key : String) × (reason : String) × (at : ℕ) × (b
        ≡ kill_switch_triggered key scope reason at)
kills_body scope e (kill_switch_triggered key to reason at) p h =
    let h' = rw p at h in
    let q : to ≡ scope = (eq_iff to scope).0 h' in
    (key, reason, at, ap (λ x. kill_switch_triggered key x reason at) q)
kills_body scope e _ p h = absurd (let h' = rw p at h in cc)

freezes_body :
    (scope key : String) (e : GovernanceEvent) (b : EventBody)
    → e.body ≡ b
    → freezes scope e ≡ some key
    → (reason : String) × (kill : Bool) × (at : ℕ) × (b ≡ freeze_activated key scope reason kill at)
freezes_body scope key e (freeze_activated k to reason kill at) p h =
    let h' = rw p at h in
    elim (Bool-cases (str_eq to scope)) [
      | inl same ↦
          let q : to ≡ scope = (eq_iff to scope).0 same in
          let r : some k ≡ some key = rw same at h' in (reason, kill, at, cc)
      | inr other ↦ absurd (let r = rw other at h' in cc)
    ]
freezes_body scope key e _ p h = absurd (let h' = rw p at h in cc)

lifts_body :
    (key : String) (e : GovernanceEvent) (b : EventBody)
    → e.body ≡ b
    → lifts e ≡ some key
    → b ≡ freeze_deactivated key
lifts_body key e (freeze_deactivated k) p h = let h' = rw p at h in cc
lifts_body key e _ p h = absurd (let h' = rw p at h in cc)

mem-deactivated_keys :
    (key : String) (log : Log) → (str_elem key (deactivated_keys log) ≡ true) ↔ WasLifted key log
unfolding deactivated_keys
mem-deactivated_keys key log = (
  λ h.
      let (e, m, p) = mem-collect lifts key log (str_elem-mem key _ h) in
      (e, m, lifts_body key e e.body refl p),
  λ (e, m, p). str_elem_of_mem key _ (mem-collect_of_mem lifts key e log m (rw p refl)),
)

module _ (scope : String) (log : Log) where
  live-HasFreeze :
      any_of (live (deactivated_keys log)) (activated_keys scope log) ≡ true → HasFreeze scope log
  unfolding activated_keys
  live-HasFreeze h =
      let (key, m, l) = any_of-mem (live (deactivated_keys log)) _ h in
      let (e, k, p) = mem-collect (freezes scope) key log m in
      (
        key,
        e,
        k,
        freezes_body scope key e e.body refl p,
        λ w.
            let s : str_elem key (deactivated_keys log) ≡ true =
              (mem-deactivated_keys key log).1 w in
            cc,
      )

  HasFreeze-live :
      HasFreeze scope log → any_of (live (deactivated_keys log)) (activated_keys scope log) ≡ true
  unfolding activated_keys
  HasFreeze-live (key, e, m, (reason, kill, at, b), fresh) =
      let p : freezes scope e ≡ some key = rw b (ground (arith, eq_iff scope scope)) in
      any_of_mem (live (deactivated_keys log)) key _
        (mem-collect_of_mem (freezes scope) key e log m p)
        (elim (Bool-cases (str_elem key (deactivated_keys log))) [
          | inl s ↦ absurd (fresh ((mem-deactivated_keys key log).0 s))
          | inr n ↦ rw n
        ])

  -- A scope is frozen exactly when the log has the event of a kill switch on it, or the event of a
  -- freeze on it under a key of which it has no deactivation, whether before or after the freeze.
  pub is_frozen_iff : (is_frozen scope log ≡ true) ↔ (HasKill scope log ⊎ HasFreeze scope log)
  is_frozen_iff = (to, from)
    where
      to : is_frozen scope log ≡ true → HasKill scope log ⊎ HasFreeze scope log
      to h = elim (Bool-cases (any_of (kills scope) log)) [
        | inl k ↦
            let (e, m, t) = any_of-mem (kills scope) log k in
            inl (e, m, kills_body scope e e.body refl t)
        | inr n ↦ inr (live-HasFreeze (rw (is_frozen-eq scope log, n) at h))
      ]

      from : HasKill scope log ⊎ HasFreeze scope log → is_frozen scope log ≡ true
      from (inl (e, m, (key, reason, at, b))) =
          let k : kills scope e ≡ true = rw b ((eq_iff scope scope).1 refl) in
          let a : any_of (kills scope) log ≡ true = any_of_mem (kills scope) e log m k in
          rw (is_frozen-eq scope log, a)
      from (inr f) = let a = HasFreeze-live f in ground (arith, is_frozen-eq scope log)
