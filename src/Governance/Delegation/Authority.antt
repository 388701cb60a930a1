-- ===== src/Governance/Delegation/Authority.antt =====
-- What a new delegation allows (backend/governance/delegation.py).
use mathlib.Core.List.{Memᴰ}
use the_dashboard.Common.{
  ℕ, String, Bool, true, false, ◌||◌, ◌&&◌, Option, none, some, List, [], ◌∷◌, ◌++◌, ◌<◌, ◌≡◌, ◌⊎◌,
  ◌↔◌, inl, inr, refl, arith, ◌==◌, any_of, any_of-append, select, select-append, any_of-mem,
  any_of_mem, str_elem-mem, str_elem_of_mem, Bool-cases,
}
use the_dashboard.Governance.Delegation.{
  DelegationStatus, active, revoked, expired, is_active, ApprovalDelegation, Delegations,
  get_by_key, grant, is_authorized, is_unexpired, get_active_for_delegate, covers,
}

any_of-select_one :
    (test keep : ApprovalDelegation → Bool) (d : ApprovalDelegation)
    → any_of test (select keep (d ∷ [])) ≡ (keep d && test d)
any_of-select_one test keep d = ground arith

any_of-select_snoc :
    (test keep : ApprovalDelegation → Bool) (ds : List ApprovalDelegation) (d : ApprovalDelegation)
    → any_of test (select keep (ds ++ d ∷ []))
      ≡ (any_of test (select keep ds) || (keep d && test d))
any_of-select_snoc test keep ds d =
    rw (select-append keep ds (d ∷ []), any_of-append test (select keep ds) (select keep (d ∷ [])))
      (rw (any_of-select_one test keep d))

-- The delegation has no end, or it lies in the future.
abbrev pub IsOpenAt : ℕ → Option ℕ → Type 0
IsOpenAt now none = Unit
IsOpenAt now (some end) = now < end

-- A list names a value, and an empty one every value.
abbrev pub Names : List String → String → Type 0
Names values value = (values ≡ []) ⊎ Memᴰ value values

is_unexpired-IsOpenAt :
    (now : ℕ) (expires_at : Option ℕ)
    → (is_unexpired now expires_at ≡ true) ↔ IsOpenAt now expires_at
is_unexpired-IsOpenAt now none = (λ h. tt, λ h. refl)
is_unexpired-IsOpenAt now (some end) = ground arith

covers-Names :
    (values : List String) (value : String) → (covers values value ≡ true) ↔ Names values value
covers-Names [] value = (λ h. inl refl, λ h. refl)
covers-Names (v ∷ vs) value = (
  λ h. inr (str_elem-mem value (v ∷ vs) h),
  λ h. elim h [ inl e ↦ absurd cc | inr m ↦ str_elem_of_mem value (v ∷ vs) m ],
)

is_authorized-granted :
    (s : Delegations) (id : ℕ) (key : String) (delegator delegate : ℕ) (types tiers : List String)
    (expires_at actor : Option ℕ) (worker : ℕ) (type tier : String) (now : ℕ)
    → get_by_key key s ≡ none
    → any_of (λ d. d.id == id) s.rows ≡ false
    → is_authorized worker type tier now
        (grant id key delegator delegate types tiers expires_at actor s).1
      ≡ (is_authorized worker type tier now s
          || ((delegate == worker && is_unexpired now expires_at)
              && (covers types type && covers tiers tier)))
unfolding grant is_authorized get_active_for_delegate
is_authorized-granted s id key delegator delegate types tiers expires_at actor worker type tier now
      n c =
    rw (n, c) (any_of-select_snoc _ _ s.rows _)

-- The delegation lets its delegate resolve approvals of the type and the tier.
pub record Allows (d : ApprovalDelegation) (worker : ℕ) (type tier : String) (now : ℕ)
    : Type 0 where
  pub delegate : d.delegate_id ≡ worker
  pub in_force : d.status ≡ active
  pub in_time : IsOpenAt now d.expires_at
  pub type_named : Names d.approval_types type
  pub tier_named : Names d.risk_tiers tier

any_of-select :
    (test keep : ApprovalDelegation → Bool) (ds : List ApprovalDelegation)
    → any_of test (select keep ds) ≡ any_of (λ d. keep d && test d) ds
any_of-select test keep [] = refl
any_of-select test keep (d ∷ ds) = ground (arith, any_of-select test keep ds)

is_active_iff : (status : DelegationStatus) → (is_active status ≡ true) ↔ (status ≡ active)
is_active_iff active = (λ h. refl, λ h. refl)
is_active_iff revoked = (λ h. cc, λ h. cc)
is_active_iff expired = (λ h. cc, λ h. cc)

module _ (worker : ℕ) (type tier : String) (now : ℕ) where
  abbrev tests : ApprovalDelegation → Bool
  tests d =
      (d.delegate_id == worker && (is_active d.status && is_unexpired now d.expires_at))
      && (covers d.approval_types type && covers d.risk_tiers tier)

  tests-Allows : (d : ApprovalDelegation) → (tests d ≡ true) ↔ Allows d worker type tier now
  tests-Allows d =
      let act = is_active_iff d.status in
      let end = is_unexpired-IsOpenAt now d.expires_at in
      let ty = covers-Names d.approval_types type in
      let ti = covers-Names d.risk_tiers tier in
      (
        λ h. record {
          delegate = ground arith;
          in_force = act.0 (ground arith);
          in_time = end.0 (ground arith);
          type_named = ty.0 (ground arith);
          tier_named = ti.0 (ground arith);
        },
        λ a.
            let a' = act.1 a.in_force in
            let e' = end.1 a.in_time in
            let x' = ty.1 a.type_named in
            let y' = ti.1 a.tier_named in let w = a.delegate in ground arith,
      )

  is_authorized-Allows :
      (s : Delegations)
      → (is_authorized worker type tier now s ≡ true)
        ↔ ((d : ApprovalDelegation) × Memᴰ d s.rows × Allows d worker type tier now)
  unfolding is_authorized get_active_for_delegate
  is_authorized-Allows s = rw (any_of-select _ _ s.rows) (
    λ h. let (d, m, t) = any_of-mem tests s.rows h in (d, m, (tests-Allows d).0 t),
    λ (d, m, a). any_of_mem tests d s.rows m ((tests-Allows d).1 a),
  )

-- After a grant with a new key and a new identifier someone is authorized for an approval type and a
-- risk tier exactly if an active delegation to him was there that has not expired and whose types and
-- tiers each contain the value asked for or are empty, or if he is the new delegate and the same
-- holds of the expiry, the types and the tiers that were granted.
pub is_authorized-grant :
    (s : Delegations) (id : ℕ) (key : String) (delegator delegate : ℕ) (types tiers : List String)
    (expires_at actor : Option ℕ) (worker : ℕ) (type tier : String) (now : ℕ)
    → get_by_key key s ≡ none
    → any_of (λ d. d.id == id) s.rows ≡ false
    → (is_authorized worker type tier now
          (grant id key delegator delegate types tiers expires_at actor s).1
        ≡ true)
      ↔ (((d : ApprovalDelegation) × Memᴰ d s.rows × Allows d worker type tier now)
          ⊎ ((delegate ≡ worker) × IsOpenAt now expires_at × Names types type × Names tiers tier))
is_authorized-grant s id key delegator delegate types tiers expires_at actor worker type tier now n
      c =
    let g =
      is_authorized-granted s id key delegator delegate types tiers expires_at actor worker type
        tier now n c in
    let old = is_authorized-Allows worker type tier now s in
    let end = is_unexpired-IsOpenAt now expires_at in
    let ty = covers-Names types type in
    let ti = covers-Names tiers tier in
    rw g (
      λ h. elim (Bool-cases (is_authorized worker type tier now s)) [
        | inl before ↦ inl (old.0 before)
        | inr new ↦
            inr (ground arith, end.0 (ground arith), ty.0 (ground arith), ti.0 (ground arith))
      ],
      λ h. elim h [
        | inl before ↦ let b = old.1 before in rw b refl
        | inr (who, o, x, y) ↦
            let o' = end.1 o in let x' = ty.1 x in let y' = ti.1 y in ground arith
      ],
    )
