-- ===== src/Governance/Delegation.antt =====
-- backend/governance/delegation.py, with models/approval_delegation.py and its repository: who may
-- resolve approvals for whom. Approval types and risk tiers are the texts of the enumerations, as
-- the columns hold them. The proofs are in the modules below this one.
pub mod Revoked
pub mod Authority
use the_dashboard.Common.{
  ℕ, String, Bool, true, false, not, ◌||◌, ◌&&◌, Option, none, some, List, [], ◌∷◌, ◌++◌, Exec,
  pure, raise, gets, modify, raise_if, or_raise, ◌>>=◌, ◌>>◌, ◌==◌, ltb, str_eq, str_elem, any_of,
  find_by, select, if◌then◌else◌, is_some,
}
use the_dashboard.Governance.Events.{Log, EventBody, delegation_granted, delegation_revoked, event}

pub data DelegationStatus : Type 0 where
  active revoked expired : DelegationStatus

abbrev pub is_active : DelegationStatus → Bool
is_active active = true
is_active _ = false

pub record ApprovalDelegation : Type 0 where
  pub id : ℕ
  pub delegation_key : String
  pub delegator_id : ℕ
  pub delegate_id : ℕ
  pub approval_types : List String
  pub risk_tiers : List String
  pub status : DelegationStatus
  pub expires_at : Option ℕ
  pub revoked_at : Option ℕ
  pub revoke_reason : Option String

-- The table, whose keys are unique, and the governance log.
pub record Delegations : Type 0 where
  pub rows : List ApprovalDelegation
  pub log : Log

pub record DelegationGrant : Type 0 where
  pub delegation_id : ℕ
  pub delegation_key : String
  pub delegator_id : ℕ
  pub delegate_id : ℕ
  pub approval_types : List String
  pub risk_tiers : List String
  pub expires_at : Option ℕ

pub data DelegationError : Type 0 where
  not_found : (delegation_key : String) → DelegationError
  not_active : (delegation_key : String) (status : DelegationStatus) → DelegationError
  same_id : (id : ℕ) → DelegationError  -- of the database

abbrev pub has_key : String → ApprovalDelegation → Bool
has_key key d = str_eq d.delegation_key key

-- `ApprovalDelegationRepository.get_by_key`
abbrev pub get_by_key : String → Delegations → Option ApprovalDelegation
get_by_key key s = find_by (has_key key) s.rows

-- The flush of a changed delegation, whose key stays.
abbrev pub put_delegation : ApprovalDelegation → List ApprovalDelegation → List ApprovalDelegation
put_delegation d [] = []
put_delegation d (r ∷ rs) = if has_key d.delegation_key r then d ∷ rs else r ∷ put_delegation d rs

abbrev pub to_grant : ApprovalDelegation → DelegationGrant
to_grant d = record {
  delegation_id = d.id;
  delegation_key = d.delegation_key;
  delegator_id = d.delegator_id;
  delegate_id = d.delegate_id;
  approval_types = d.approval_types;
  risk_tiers = d.risk_tiers;
  expires_at = d.expires_at;
}

-- `actor_id or delegator_id`
abbrev or_else : Option ℕ → ℕ → ℕ
or_else none b = b
or_else (some a) b = a

-- The row is inserted and its event appended.
abbrev pub insert_delegation : ApprovalDelegation → (actor : ℕ) → Delegations → Delegations
insert_delegation d actor s = record {
  rows = s.rows ++ d ∷ [];
  log =
      s.log
      ++ event
          (delegation_granted d.delegation_key d.delegator_id d.delegate_id d.approval_types
            d.risk_tiers d.expires_at)
          none (some actor)
        ∷ [];
}

-- `DelegationRuntime.grant`; `id` is the identifier that a new row draws.
unfoldable pub grant :
    (id : ℕ) (delegation_key : String) (delegator_id delegate_id : ℕ)
    (approval_types risk_tiers : List String) (expires_at actor_id : Option ℕ)
    → Exec Delegations DelegationError DelegationGrant
grant id key delegator delegate types tiers expires_at actor_id = do
  existing ← gets (get_by_key key)
  elim existing [
    | some d ↦ pure (to_grant d)
    | none ↦ do
      clash ← gets (λ s. any_of (λ d. d.id == id) s.rows)
      raise_if clash (same_id id)
      modify (insert_delegation delegation (or_else actor_id delegator))
      pure (to_grant delegation)
  ]
  where
    delegation : ApprovalDelegation
    delegation = record {
      id = id;
      delegation_key = key;
      delegator_id = delegator;
      delegate_id = delegate;
      approval_types = types;
      risk_tiers = tiers;
      status = active;
      expires_at = expires_at;
      revoked_at = none;
      revoke_reason = none;
    }

-- `DelegationRuntime.revoke`
unfoldable pub revoke :
    (delegation_key : String) (revoke_reason : Option String) (actor_id : Option ℕ) (now : ℕ)
    → Exec Delegations DelegationError ApprovalDelegation
revoke key reason actor_id now = do
  found ← gets (get_by_key key)
  d ← or_raise found (not_found key)
  raise_if (not (is_active d.status)) (not_active key d.status)
  modify (λ s. record {
    rows = put_delegation (ended d) s.rows;
    log =
        s.log
        ++ event (delegation_revoked key d.delegator_id d.delegate_id reason) none actor_id ∷ [];
  })
  pure (ended d)
  where
    ended : ApprovalDelegation → ApprovalDelegation
    ended d = record d { status = revoked; revoked_at = some now; revoke_reason = reason }

-- `expires_at IS NULL OR expires_at > now`
abbrev pub is_unexpired : ℕ → Option ℕ → Bool
is_unexpired now none = true
is_unexpired now (some at) = ltb now at

-- `ApprovalDelegationRepository.get_active_for_delegate`
unfoldable pub get_active_for_delegate :
    (delegate_id now : ℕ) → Delegations → List ApprovalDelegation
get_active_for_delegate delegate_id now s =
    select
      (λ d. d.delegate_id == delegate_id && (is_active d.status && is_unexpired now d.expires_at))
      s.rows

-- `not values or value in values`
abbrev pub covers : List String → String → Bool
covers [] value = true
covers (v ∷ vs) value = str_elem value (v ∷ vs)

-- `DelegationRuntime.is_authorized`
unfoldable pub is_authorized :
    (delegate_id : ℕ) (approval_type risk_tier : String) (now : ℕ) → Delegations → Bool
unfolding get_active_for_delegate
is_authorized delegate_id type tier now s =
    any_of (λ d. covers d.approval_types type && covers d.risk_tiers tier)
      (get_active_for_delegate delegate_id now s)
