-- ===== src/Workflow/Lease/Expiry.antt =====
-- The sweep of stale leases (backend/workflows/lease.py).
use the_dashboard.Common.{
  ◌<◌, ℕ, false, Option, none, some, List, [], ◌∷◌, ◌≡◌, refl, ◌∙◌, arith, leb, map, select,
  get_row, returned,
}
use the_dashboard.Workflow.Database.{WorkflowLease, Db}
use the_dashboard.Workflow.Lease.{is_stale, expire, expire_stale, emit_expired, lease_of}

pub map_lease : ℕ → Option WorkflowLease → Option WorkflowLease
map_lease cutoff none = none
map_lease cutoff (some l) = some (expire cutoff l)

emit_expired-leases : (ids : List ℕ) (db : Db) → (emit_expired ids db).1.leases ≡ db.leases
unfolding emit_expired
emit_expired-leases [] db = refl
emit_expired-leases (id ∷ ids) db = emit_expired-leases ids _

emit_expired-returned : (ids : List ℕ) (db : Db) → (emit_expired ids db).0 ≡ returned tt
unfolding emit_expired
emit_expired-returned [] db = refl
emit_expired-returned (id ∷ ids) db = emit_expired-returned ids _

pub expire_stale-leases :
    (cutoff : ℕ) (db : Db) → (expire_stale cutoff db).1.leases ≡ map (expire cutoff) db.leases
unfolding expire_stale
expire_stale-leases cutoff db =
    rw (emit_expired-returned (map (λ l. l.workflow_id) (select (is_stale cutoff) db.leases)) _) (
      emit_expired-leases (map (λ l. l.workflow_id) (select (is_stale cutoff) db.leases))
        (record db { leases = map (expire cutoff) db.leases }))

expire_stale-returned :
    (cutoff : ℕ) (db : Db)
    → (expire_stale cutoff db).0
      ≡ returned (map (λ l. l.workflow_id) (select (is_stale cutoff) db.leases))
unfolding expire_stale
expire_stale-returned cutoff db =
    rw (emit_expired-returned (map (λ l. l.workflow_id) (select (is_stale cutoff) db.leases)) _)

select-map-expire :
    (cutoff : ℕ) (ls : List WorkflowLease) → select (is_stale cutoff) (map (expire cutoff) ls) ≡ []
select-map-expire cutoff [] = refl
select-map-expire cutoff (l ∷ ls) = ground (arith, select-map-expire cutoff ls)

map-expire_twice :
    (cutoff : ℕ) (ls : List WorkflowLease)
    → map (expire cutoff) (map (expire cutoff) ls) ≡ map (expire cutoff) ls
map-expire_twice cutoff [] = refl
map-expire_twice cutoff (l ∷ ls) = ground (arith, map-expire_twice cutoff ls)

-- The sweep returns the workflows of exactly the stale leases; after it no lease is stale at the
-- cutoff, and a second sweep with the same cutoff returns no workflow and changes no lease.
pub expire_stale_idem :
    (cutoff : ℕ) (db : Db)
    → let db' = (expire_stale cutoff db).1 in
      ((expire_stale cutoff db).0
        ≡ returned (map (λ l. l.workflow_id) (select (is_stale cutoff) db.leases)))
      × (select (is_stale cutoff) db'.leases ≡ [])
      × ((expire_stale cutoff db').0 ≡ returned [])
      × ((expire_stale cutoff db').1.leases ≡ db'.leases)
expire_stale_idem cutoff db =
    let db' = (expire_stale cutoff db).1 in
    let gone : select (is_stale cutoff) db'.leases ≡ [] =
      rw (expire_stale-leases cutoff db) (select-map-expire cutoff db.leases) in
    (
      expire_stale-returned cutoff db,
      gone,
      expire_stale-returned cutoff db' ∙ rw gone,
      expire_stale-leases cutoff db'
          ∙ rw (expire_stale-leases cutoff db) (map-expire_twice cutoff db.leases),
    )

get_row-expire :
    (id cutoff : ℕ) (ls : List WorkflowLease)
    → get_row (λ l. l.workflow_id) id (map (expire cutoff) ls)
      ≡ map_lease cutoff (get_row (λ l. l.workflow_id) id ls)
unfolding map_lease
get_row-expire id cutoff [] = refl
get_row-expire id cutoff (l ∷ ls) = ground (arith, get_row-expire id cutoff ls)

pub lease_of-expire_stale :
    (id cutoff : ℕ) (db : Db)
    → lease_of id (expire_stale cutoff db).1 ≡ map_lease cutoff (lease_of id db)
lease_of-expire_stale id cutoff db =
    rw (expire_stale-leases cutoff db) (get_row-expire id cutoff db.leases)

-- `expire_stale` keeps a lease that ends after the cutoff.
pub map_lease-kept :
    (cutoff : ℕ) (l : WorkflowLease) → cutoff < l.expires_at → map_lease cutoff (some l) ≡ some l
unfolding map_lease
map_lease-kept cutoff l before =
    let f : leb l.expires_at cutoff ≡ false = ground arith in rw f (ground arith)
