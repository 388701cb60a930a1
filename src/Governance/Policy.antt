-- ===== src/Governance/Policy.antt =====
-- backend/governance/policy.py, with models/governance_policy.py and its repository: the versions of
-- the governance policies. A step of an escalation chain has the fields that the column documents;
-- `id` is the identifier that a new row draws. The proofs are in the modules below this one.
mod Tables
pub mod Versions
pub mod Life
use the_dashboard.Common.{
  ℕ, zero, suc, String, Bool, true, false, ◌||◌, ◌&&◌, Option, none, some, List, [], ◌∷◌, ◌++◌,
  Exec, pure, raise, gets, modify, raise_if, or_raise, ◌>>=◌, ◌>>◌, ◌==◌, leb, str_eq,
  any_of as any_row, select, map, sorted, is_some, if◌then◌else◌,
}
use the_dashboard.Governance.Events.{
  Log, EventBody, policy_snapshot_captured, policy_superseded, policy_archived, event,
}
use the_dashboard.Workflow.Database.{Dict}
pub use Tables.*

abbrev pub Session : Type 0 → Type 0
Session = Exec Policies PolicyError

abbrev pub has_key : String → GovernancePolicy → Bool
has_key key p = str_eq p.policy_key key

-- The rows of a key.
abbrev pub of_key : String → List GovernancePolicy → List GovernancePolicy
of_key key = select (has_key key)

abbrev pub active_of : List GovernancePolicy → List GovernancePolicy
active_of = select (λ p. is_active p.status)

-- `scalar_one_or_none`
abbrev pub one_or_none : List GovernancePolicy → Session (Option GovernancePolicy)
one_or_none [] = pure none
one_or_none (p ∷ []) = pure (some p)
one_or_none (p ∷ q ∷ ps) = raise multiple_results

-- `GovernancePolicyRepository.get_active`
unfoldable pub get_active : Policies → List GovernancePolicy
get_active s = active_of s.rows

-- `GovernancePolicyRepository.get_by_key`
unfoldable pub get_by_key : (policy_key : String) → Policies → List GovernancePolicy
get_by_key key s = sorted (λ a b. leb b.version a.version) (of_key key s.rows)

-- `GovernancePolicyRepository.get_active_version`
unfoldable pub get_active_version : (policy_key : String) → Session (Option GovernancePolicy)
get_active_version key = do found ← gets (λ s. active_of (of_key key s.rows)); one_or_none found

abbrev pub first_version : List GovernancePolicy → ℕ
first_version [] = 0
first_version (p ∷ ps) = p.version

-- `GovernancePolicyRepository.get_latest_version_number`
unfoldable pub get_latest_version_number : (policy_key : String) → Policies → ℕ
unfolding get_by_key
get_latest_version_number key s = first_version (get_by_key key s)

-- `BaseRepository.create`: the identifier is a primary key, and a key has each version once.
unfoldable pub insert_policy : GovernancePolicy → Session (Unit {0})
insert_policy p = do
  clash ← gets (λ s.
      any_row (λ q. q.id == p.id || (has_key p.policy_key q && q.version == p.version)) s.rows)
  raise_if clash integrity_error
  modify (λ s. record s { rows = s.rows ++ p ∷ [] })

abbrev pub append : EventBody → (actor_id : Option ℕ) → Session (Unit {0})
append body actor_id = modify (λ s. record s { log = s.log ++ event body none actor_id ∷ [] })

-- The insertion of a version, and its event.
unfoldable pub add_version :
    (id : ℕ) (policy_key : String) (version : ℕ) (action : String)
    → PolicyFields
    → (created_by : Option ℕ) → Session GovernancePolicy
unfolding insert_policy
add_version id key version action fields created_by = do
  insert_policy policy
  append (policy_snapshot_captured id key version action) created_by
  pure policy
  where
    policy : GovernancePolicy
    policy = record {
      id = id;
      policy_key = key;
      version = version;
      status = active;
      fields = fields;
      created_by = created_by;
    }

abbrev pub refuse : (policy_key : String) → Option GovernancePolicy → Session (Unit {0})
refuse key none = pure tt
refuse key (some p) = raise (already_active key p.version)

-- `GovernancePolicyRuntime.create`
unfoldable pub create :
    (id : ℕ) (policy_key : String)
    → PolicyFields
    → (created_by : Option ℕ) → Session GovernancePolicy
create id key fields created_by = do
  existing ← get_active_version key
  refuse key existing
  latest_version ← gets (get_latest_version_number key)
  add_version id key (suc latest_version) "created" fields created_by

-- The flush of a changed status.
abbrev pub set_status : (id : ℕ) → GovernancePolicyStatus → GovernancePolicy → GovernancePolicy
set_status id status p = if p.id == id then record p { status = status } else p

abbrev pub put_status : (id : ℕ) → GovernancePolicyStatus → Session (Unit {0})
put_status id status = modify (λ s. record s { rows = map (set_status id status) s.rows })

-- `GovernancePolicyRuntime.supersede`
unfoldable pub supersede :
    (id : ℕ) (policy_key : String)
    → PolicyFields
    → (created_by : Option ℕ) → Session GovernancePolicy
supersede id key fields created_by = do
  found ← get_active_version key
  current ← or_raise found (no_active key)
  put_status current.id superseded
  append (policy_superseded current.id key current.version) none
  add_version id key (suc current.version) "superseded" fields created_by

-- `GovernancePolicyRuntime.archive`
unfoldable pub archive : (policy_key : String) (actor_id : Option ℕ) → Session GovernancePolicy
archive key actor_id = do
  found ← get_active_version key
  current ← or_raise found (no_active key)
  put_status current.id archived
  append (policy_archived current.id key) actor_id
  pure (record current { status = archived })

-- governance/contracts.py
pub record GovernancePolicySnapshot : Type 0 where
  pub snapshot_id : ℕ
  pub policy_key : String
  pub version : ℕ
  pub status : GovernancePolicyStatus
  pub classification : ActionClassification
  pub risk_tier : RiskTier
  pub action_patterns : List String
  pub routing_strategy : ApprovalRoutingStrategy
  pub approver_ids : List ℕ
  pub escalation_chain : List EscalationStep
  pub quorum_required : ℕ
  pub timeout_seconds : ℕ
  pub rules : Dict
  pub inherited_from : Option String
  pub captured_at : ℕ

-- `GovernancePolicyRuntime.to_snapshot`
abbrev pub to_snapshot : (snapshot_id now : ℕ) → GovernancePolicy → GovernancePolicySnapshot
to_snapshot snapshot_id now p = record {
  snapshot_id = snapshot_id;
  policy_key = p.policy_key;
  version = p.version;
  status = p.status;
  classification = p.fields.classification;
  risk_tier = p.fields.risk_tier;
  action_patterns = p.fields.action_patterns;
  routing_strategy = p.fields.routing_strategy;
  approver_ids = p.fields.approver_ids;
  escalation_chain = p.fields.escalation_chain;
  quorum_required = p.fields.quorum_required;
  timeout_seconds = p.fields.timeout_seconds;
  rules = p.fields.rules;
  inherited_from = p.fields.inherited_from;
  captured_at = now;
}

-- `GovernancePolicyRuntime.get_all_snapshots`; `draw` gives the identifier and the time of each.
unfoldable pub get_all_snapshots :
    (draw : GovernancePolicy → ℕ × ℕ) → Policies → List GovernancePolicySnapshot
unfolding get_active
get_all_snapshots draw s = map (λ p. to_snapshot (draw p).0 (draw p).1 p) (get_active s)

abbrev pub snapshot_of :
    (snapshot_id now : ℕ) → Option GovernancePolicy → Option GovernancePolicySnapshot
snapshot_of snapshot_id now none = none
snapshot_of snapshot_id now (some p) = some (to_snapshot snapshot_id now p)

-- `GovernancePolicyRuntime.get_snapshot`
unfoldable pub get_snapshot :
    (snapshot_id now : ℕ) (policy_key : String) → Session (Option GovernancePolicySnapshot)
get_snapshot snapshot_id now key = do
  policy ← get_active_version key
  pure (snapshot_of snapshot_id now policy)
