-- ===== src/Workflow/Lease.antt =====
-- backend/workflows/lease.py: the execution lease of a workflow. `now` is the time that a method
-- reads, and `lease_id` of `acquire` the identifier that it draws. The proofs are in the modules
-- below this one.
pub mod Held
pub mod Expiry
use the_dashboard.Common.{
  ℕ, String, Bool, true, false, not, ◌&&◌, Option, none, some, List, [], ◌∷◌, ◌++◌, ◌==◌, leb, ltb,
  pure, raise, gets, modify, raise_if, or_raise, ◌>>=◌, ◌>>◌, str_eq, select, map, get_row, put_row,
  after_seconds, is_some, if◌then◌else◌,
}
use the_dashboard.Workflow.Database.{
  LeaseStatus, WorkflowLease, Db, Session, lease_acquired, lease_renewed, lease_released,
  lease_expired, lease_acquire_error, lease_conflict, integrity_error, get_by_id_or_raise, emit,
}

-- `==` of the enumeration
abbrev pub same_lease_status : LeaseStatus → LeaseStatus → Bool
same_lease_status LeaseStatus.active LeaseStatus.active = true
same_lease_status LeaseStatus.released LeaseStatus.released = true
same_lease_status LeaseStatus.expired LeaseStatus.expired = true
same_lease_status _ _ = false

-- The lease row of a workflow; its `workflow_id` is unique.
abbrev pub lease_of : ℕ → Db → Option WorkflowLease
lease_of workflow_id db = get_row (λ l. l.workflow_id) workflow_id db.leases

pub record LeaseResult : Type 0 where
  pub workflow_id : ℕ
  pub lease_id : ℕ
  pub holder : String
  pub expires_at : ℕ
  pub was_renewed : Bool

abbrev pub put_lease : WorkflowLease → Session (Unit {0})
put_lease lease = modify (λ db. record db { leases = put_row (λ l. l.workflow_id) lease db.leases })

-- Whether `acquire` may not take the lease over.
abbrev pub is_held_against : (holder : String) (now : ℕ) → WorkflowLease → Bool
is_held_against holder now lease =
    same_lease_status lease.status LeaseStatus.active
    && ltb now lease.expires_at
    && not (str_eq lease.holder holder)

-- The write of `acquire`, with the foreign key of an inserted row.
unfoldable pub claim :
    Option WorkflowLease → (holder : String) (now : ℕ) → WorkflowLease → Session (Unit {0})
claim (some existing) holder now lease =
    raise_if (is_held_against holder now existing)
      (lease_acquire_error existing.workflow_id existing.holder existing.expires_at)
    >> put_lease lease
claim none holder now lease = do
  known ← gets (λ db. is_some (get_row (λ w. w.id) lease.workflow_id db.workflows))
  raise_if (not known) integrity_error
  modify (λ db. record db { leases = db.leases ++ lease ∷ [] })

-- The row that `acquire` writes.
abbrev pub new_lease :
    (workflow_id : ℕ) (holder : String) (ttl_seconds lease_id now : ℕ) → WorkflowLease
new_lease workflow_id holder ttl_seconds lease_id now = record {
  workflow_id = workflow_id;
  lease_id = lease_id;
  holder = holder;
  acquired_at = now;
  expires_at = after_seconds now ttl_seconds;
  renewed_at = none;
  released_at = none;
  status = LeaseStatus.active;
}

-- `LeaseRuntime.acquire`
unfoldable pub acquire :
    (workflow_id : ℕ) (holder : String) (ttl_seconds lease_id now : ℕ) → Session LeaseResult
unfolding claim get_by_id_or_raise emit
acquire workflow_id holder ttl_seconds lease_id now = do
  existing ← gets (lease_of workflow_id)
  let lease : WorkflowLease = new_lease workflow_id holder ttl_seconds lease_id now
  claim existing holder now lease
  wf ← get_by_id_or_raise workflow_id
  emit (lease_acquired workflow_id lease_id holder lease.expires_at) (some wf.correlation_id)
  pure (record {
    workflow_id = workflow_id;
    lease_id = lease_id;
    holder = holder;
    expires_at = lease.expires_at;
    was_renewed = false;
  })

-- `LeaseRuntime.renew`
unfoldable pub renew : (workflow_id lease_id ttl_seconds now : ℕ) → Session LeaseResult
unfolding emit
renew workflow_id lease_id ttl_seconds now = do
  existing ← gets (lease_of workflow_id)
  lease ← or_raise existing (lease_conflict workflow_id lease_id)
  raise_if (not (lease.lease_id == lease_id)) (lease_conflict workflow_id lease_id)
  let new_expires : ℕ = after_seconds now ttl_seconds
  put_lease (record lease {
    expires_at = new_expires;
    renewed_at = some now;
    status = LeaseStatus.active;
  })
  emit (lease_renewed workflow_id lease_id lease.holder new_expires) none
  pure (record {
    workflow_id = workflow_id;
    lease_id = lease_id;
    holder = lease.holder;
    expires_at = new_expires;
    was_renewed = true;
  })

-- `LeaseRuntime.release`
unfoldable pub release : (workflow_id lease_id now : ℕ) → Session (Unit {0})
unfolding emit
release workflow_id lease_id now = do
  existing ← gets (lease_of workflow_id)
  elim existing [
    | none ↦ pure tt
    | some lease ↦
        raise_if (not (lease.lease_id == lease_id)) (lease_conflict workflow_id lease_id)
        >> (if same_lease_status lease.status LeaseStatus.released then pure tt else do
          put_lease (record lease { status = LeaseStatus.released; released_at = some now })
          emit (lease_released workflow_id lease_id lease.holder) none)
  ]

abbrev pub is_live : ℕ → WorkflowLease → Bool
is_live now lease = same_lease_status lease.status LeaseStatus.active && ltb now lease.expires_at

abbrev live_result : ℕ → ℕ → Option WorkflowLease → Option LeaseResult
live_result workflow_id now none = none
live_result workflow_id now (some lease) =
    if is_live now lease
    then some (record {
      workflow_id = workflow_id;
      lease_id = lease.lease_id;
      holder = lease.holder;
      expires_at = lease.expires_at;
      was_renewed = false;
    })
    else none

-- `LeaseRuntime.get_active`
unfoldable pub get_active : (workflow_id now : ℕ) → Db → Option LeaseResult
get_active workflow_id now db = live_result workflow_id now (lease_of workflow_id db)

-- The `WHERE` of `expire_stale`.
abbrev pub is_stale : ℕ → WorkflowLease → Bool
is_stale cutoff lease =
    same_lease_status lease.status LeaseStatus.active && leb lease.expires_at cutoff

abbrev pub expire : ℕ → WorkflowLease → WorkflowLease
expire cutoff lease =
    if is_stale cutoff lease then record lease { status = LeaseStatus.expired } else lease

unfoldable pub emit_expired : List ℕ → Session (Unit {0})
unfolding emit
emit_expired [] = pure tt
emit_expired (id ∷ ids) = emit (lease_expired id) none >> emit_expired ids

-- `LeaseRuntime.expire_stale`, when no other transaction holds a lock on a stale row
unfoldable pub expire_stale : (cutoff : ℕ) → Session (List ℕ)
unfolding emit_expired
expire_stale cutoff = do
  stale ← gets (λ db. select (is_stale cutoff) db.leases)
  let expired_ids : List ℕ = map (λ l. l.workflow_id) stale
  modify (λ db. record db { leases = map (expire cutoff) db.leases })
  emit_expired expired_ids
  pure expired_ids
