-- ===== src/Workflow/Lease/Held.antt =====
-- A lease (backend/workflows/lease.py) through the calls of other holders.
use native.Mathlib.Decide.{ℕ_discrete}
use the_dashboard.Common.{
  ℕ, String, true, Option, none, some, List, [], ◌∷◌, ◌≡◌, ◌≢◌, ◌<◌, ◌⊎◌, refl, sym, ap, ◌∙◌, arith,
  ◌==◌, eq_iff, Bool-cases, Option-cases, inl, inr, get_row, get_row-key, put_row,
  get_row-put_row_ne, get_row-snoc_ne, raised, is_some, subst,
}
use the_dashboard.Workflow.Database.{
  LeaseStatus, WorkflowLease, Db, get_by_id, lease_acquire_error, lease_conflict,
}
use the_dashboard.Workflow.Lease
use the_dashboard.Workflow.Lease.{
  lease_of, LeaseResult, is_held_against, is_live, new_lease, claim, get_active, same_lease_status,
}
use the_dashboard.Workflow.Lease.Expiry.{map_lease, map_lease-kept, lease_of-expire_stale}

module _ (id : ℕ) (l : WorkflowLease) (db : Db) (stored : lease_of id db ≡ some l) where
  -- Another holder's attempt on a live lease is refused, and writes nothing.
  pub acquire-held :
      (holder : String) (ttl lease_id now : ℕ)
      → is_held_against holder now l ≡ true
      → Lease.acquire id holder ttl lease_id now db
        ≡ (raised (lease_acquire_error id l.holder l.expires_at), db)
  unfolding Lease.acquire
  acquire-held holder ttl lease_id now h =
      let k : l.workflow_id ≡ id = get_row-key (λ x. x.workflow_id) id db.leases l stored in
      rw stored (rw h (rw k))

  -- A stranger's lease identifier neither renews nor releases the lease.
  pub renew-stranger :
      (lease_id ttl now : ℕ)
      → l.lease_id ≢ lease_id
      → Lease.renew id lease_id ttl now db ≡ (raised (lease_conflict id lease_id), db)
  unfolding Lease.renew
  renew-stranger lease_id ttl now n = rw stored (ground arith)

  pub release-stranger :
      (lease_id now : ℕ)
      → l.lease_id ≢ lease_id
      → Lease.release id lease_id now db ≡ (raised (lease_conflict id lease_id), db)
  unfolding Lease.release
  release-stranger lease_id now n = rw stored (ground arith)

pub data LeaseCall : Type 0 where
  acquire : (id : ℕ) (holder : String) (ttl lease_id now : ℕ) → LeaseCall
  renew : (id lease_id ttl now : ℕ) → LeaseCall
  release : (id lease_id now : ℕ) → LeaseCall
  expire_stale : (cutoff : ℕ) → LeaseCall

unfoldable pub perform : LeaseCall → Db → Db
perform (LeaseCall.acquire id holder ttl lease_id now) db =
    (Lease.acquire id holder ttl lease_id now db).1
perform (LeaseCall.renew id lease_id ttl now) db = (Lease.renew id lease_id ttl now db).1
perform (LeaseCall.release id lease_id now) db = (Lease.release id lease_id now db).1
perform (LeaseCall.expire_stale cutoff) db = (Lease.expire_stale cutoff db).1

unfoldable pub serve : List LeaseCall → Db → Db
serve [] db = db
serve (c ∷ cs) db = serve cs (perform c db)

-- A call that is about another workflow, or that is made before the lease expires and not by its
-- holder: it comes with another holder's name, or without the lease's identifier.
abbrev pub IsForeign : WorkflowLease → LeaseCall → Type 0
IsForeign l (LeaseCall.acquire id holder ttl lease_id now) =
    (id ≢ l.workflow_id) ⊎ ((l.holder ≢ holder) × (now < l.expires_at))
IsForeign l (LeaseCall.renew id lease_id ttl now) = (id ≢ l.workflow_id) ⊎ (l.lease_id ≢ lease_id)
IsForeign l (LeaseCall.release id lease_id now) = (id ≢ l.workflow_id) ⊎ (l.lease_id ≢ lease_id)
IsForeign l (LeaseCall.expire_stale cutoff) = cutoff < l.expires_at

abbrev pub AllForeign : WorkflowLease → List LeaseCall → Type 0
AllForeign l [] = Unit
AllForeign l (c ∷ cs) = IsForeign l c × AllForeign l cs

-- The lease rows after `acquire`: what follows the claim writes none.
acquire-leases :
    (id : ℕ) (holder : String) (ttl lease_id now : ℕ) (db : Db)
    → (Lease.acquire id holder ttl lease_id now db).1.leases
      ≡ (claim (lease_of id db) holder now (new_lease id holder ttl lease_id now) db).1.leases
unfolding Lease.acquire
acquire-leases id holder ttl lease_id now db = elim (Option-cases (lease_of id db)) [
  | inl free ↦ rw free (elim (Bool-cases (is_some (get_row (λ w. w.id) id db.workflows))) [
    | inl k ↦ rw k (elim (Option-cases (get_by_id id db)) [ inl m ↦ rw m | inr (w, p) ↦ rw p ])
    | inr m ↦ rw m
  ])
  | inr (l, p) ↦ rw p (elim (Bool-cases (is_held_against holder now l)) [
    | inl h ↦ rw h
    | inr f ↦ rw f (elim (Option-cases (get_by_id id db)) [ inl m ↦ rw m | inr (w, q) ↦ rw q ])
  ])
]

-- Calls about another workflow.
module _ (other id : ℕ) (n : id ≢ other) (db : Db) where
  put-other :
      (lease : WorkflowLease)
      → lease.workflow_id ≡ id
      → get_row (λ l. l.workflow_id) other (put_row (λ l. l.workflow_id) lease db.leases)
        ≡ lease_of other db
  put-other lease k =
      get_row-put_row_ne (λ l. l.workflow_id) other lease db.leases (λ q. n (sym k ∙ q))

  claim-other :
      (existing : Option WorkflowLease) (holder : String) (now : ℕ) (lease : WorkflowLease)
      → lease.workflow_id ≡ id
      → lease_of other (claim existing holder now lease db).1 ≡ lease_of other db
  unfolding claim
  claim-other (some old) holder now lease k = elim (Bool-cases (is_held_against holder now old)) [
    | inl h ↦ rw h
    | inr f ↦ rw f (put-other lease k)
  ]
  claim-other none holder now lease k =
      elim (Bool-cases (is_some (get_row (λ w. w.id) lease.workflow_id db.workflows))) [
        | inl h ↦
            rw h (get_row-snoc_ne (λ l. l.workflow_id) other db.leases lease (λ q. n (sym k ∙ q)))
        | inr f ↦ rw f
      ]

  acquire-other :
      (holder : String) (ttl lease_id now : ℕ)
      → lease_of other (Lease.acquire id holder ttl lease_id now db).1 ≡ lease_of other db
  acquire-other holder ttl lease_id now =
      rw (acquire-leases id holder ttl lease_id now db)
        (claim-other (lease_of id db) holder now (new_lease id holder ttl lease_id now) refl)

  same_workflow : (l : WorkflowLease) → lease_of id db ≡ some l → l.workflow_id ≡ id
  same_workflow l p = get_row-key (λ x. x.workflow_id) id db.leases l p

  renew-other :
      (lease_id ttl now : ℕ)
      → lease_of other (Lease.renew id lease_id ttl now db).1 ≡ lease_of other db
  unfolding Lease.renew
  renew-other lease_id ttl now = elim (Option-cases (lease_of id db)) [
    | inl free ↦ rw free
    | inr (l, p) ↦ rw p (elim (Bool-cases (l.lease_id == lease_id)) [
      | inl h ↦ rw h (put-other _ (same_workflow l p))
      | inr f ↦ rw f
    ])
  ]

  release-other :
      (lease_id now : ℕ) → lease_of other (Lease.release id lease_id now db).1 ≡ lease_of other db
  unfolding Lease.release
  release-other lease_id now = elim (Option-cases (lease_of id db)) [
    | inl free ↦ rw free
    | inr (l, p) ↦ rw p (elim (Bool-cases (l.lease_id == lease_id)) [
      | inl h ↦ rw h (elim (Bool-cases (same_lease_status l.status LeaseStatus.released)) [
        | inl done ↦ rw done
        | inr on ↦ rw on (put-other _ (same_workflow l p))
      ])
      | inr f ↦ rw f
    ])
  ]

-- One foreign call leaves a live lease as it is.
perform-held :
    (c : LeaseCall) (l : WorkflowLease) (db : Db)
    → l.status ≡ LeaseStatus.active
    → IsForeign l c
    → lease_of l.workflow_id db ≡ some l
    → lease_of l.workflow_id (perform c db) ≡ some l
unfolding perform
perform-held (LeaseCall.acquire id holder ttl lease_id now) l db active (inl n) h =
    acquire-other l.workflow_id id n db holder ttl lease_id now ∙ h
perform-held (LeaseCall.acquire id holder ttl lease_id now) l db active (inr (n, before)) h =
    elim (ℕ_discrete id l.workflow_id) [
      | no m ↦ acquire-other l.workflow_id id m db holder ttl lease_id now ∙ h
      | yes p ↦
          let g : lease_of id db ≡ some l = subst (λ k. lease_of k db ≡ some l) (sym p) h in
          let held : is_held_against holder now l ≡ true = ground (arith, eq_iff l.holder holder) in
          ap (λ r. lease_of l.workflow_id r.1) (acquire-held id l db g holder ttl lease_id now held)
          ∙ h
    ]
perform-held (LeaseCall.renew id lease_id ttl now) l db active (inl n) h =
    renew-other l.workflow_id id n db lease_id ttl now ∙ h
perform-held (LeaseCall.renew id lease_id ttl now) l db active (inr n) h =
    elim (ℕ_discrete id l.workflow_id) [
      | no m ↦ renew-other l.workflow_id id m db lease_id ttl now ∙ h
      | yes p ↦
          let g : lease_of id db ≡ some l = subst (λ k. lease_of k db ≡ some l) (sym p) h in
          ap (λ r. lease_of l.workflow_id r.1) (renew-stranger id l db g lease_id ttl now n) ∙ h
    ]
perform-held (LeaseCall.release id lease_id now) l db active (inl n) h =
    release-other l.workflow_id id n db lease_id now ∙ h
perform-held (LeaseCall.release id lease_id now) l db active (inr n) h =
    elim (ℕ_discrete id l.workflow_id) [
      | no m ↦ release-other l.workflow_id id m db lease_id now ∙ h
      | yes p ↦
          let g : lease_of id db ≡ some l = subst (λ k. lease_of k db ≡ some l) (sym p) h in
          ap (λ r. lease_of l.workflow_id r.1) (release-stranger id l db g lease_id now n) ∙ h
    ]
perform-held (LeaseCall.expire_stale cutoff) l db active before h =
    lease_of-expire_stale l.workflow_id cutoff db
    ∙ ap (map_lease cutoff) h
    ∙ map_lease-kept cutoff l before

-- An active lease survives every sequence of calls that are foreign to it: until it expires, no
-- other holder takes it over, and nobody without its identifier renews or releases it.
pub serve-held :
    (cs : List LeaseCall) (l : WorkflowLease) (db : Db)
    → l.status ≡ LeaseStatus.active
    → AllForeign l cs
    → lease_of l.workflow_id db ≡ some l
    → lease_of l.workflow_id (serve cs db) ≡ some l
unfolding serve
serve-held [] l db active foreign h = h
serve-held (c ∷ cs) l db active foreign h =
    serve-held cs l (perform c db) active foreign.1 (perform-held c l db active foreign.0 h)
