-- ===== src/Governance/Delegation/Revoked.antt =====
-- A revoked delegation over any further calls (backend/governance/delegation.py).
use the_dashboard.Common.{
  ℕ, String, true, false, Option, some, List, [], ◌∷◌, ◌≡◌, refl, ◌∙◌, sym, subst, ap, arith,
  str_eq, eq_iff, any_of, find_by, find_by-snoc_old, some_inj, Bool-cases, Option-cases, inl, inr,
  ◌==◌, returned,
}
use the_dashboard.Governance.Delegation.{
  is_active, ApprovalDelegation, Delegations, has_key, get_by_key, put_delegation, grant, revoke,
  to_grant,
}

pub data DelegationCall : Type 0 where
  call_grant :
      (id : ℕ) (delegation_key : String) (delegator_id delegate_id : ℕ)
      (approval_types risk_tiers : List String) (expires_at actor_id : Option ℕ)
      → DelegationCall
  call_revoke :
      (delegation_key : String) (revoke_reason : Option String) (actor_id : Option ℕ) (now : ℕ)
      → DelegationCall

unfoldable pub perform : DelegationCall → Delegations → Delegations
perform (call_grant id key from to types tiers expires actor) s =
    (grant id key from to types tiers expires actor s).1
perform (call_revoke key reason actor now) s = (revoke key reason actor now s).1

-- Calls one after the other; a call that raises leaves what it wrote before.
unfoldable pub serve : List DelegationCall → Delegations → Delegations
serve [] s = s
serve (c ∷ cs) s = serve cs (perform c s)

find_by-put_other :
    (k : String) (v : ApprovalDelegation) (rs : List ApprovalDelegation)
    → str_eq v.delegation_key k ≡ false
    → find_by (has_key k) (put_delegation v rs) ≡ find_by (has_key k) rs
find_by-put_other k v [] h = refl
find_by-put_other k v (r ∷ rs) h =
    ground (arith, eq_iff r.delegation_key v.delegation_key, find_by-put_other k v rs)

find_by-key :
    (k : String) (rs : List ApprovalDelegation) (d : ApprovalDelegation)
    → find_by (has_key k) rs ≡ some d
    → str_eq d.delegation_key k ≡ true
find_by-key k [] d h = ground arith
find_by-key k (r ∷ rs) d h = ground (arith, find_by-key k rs d)

module _ (k : String) (s : Delegations) (d : ApprovalDelegation) (found : get_by_key k s ≡ some d)
    (over : is_active d.status ≡ false) where
  get_by_key-grant :
      (id : ℕ) (key : String) (from to : ℕ) (types tiers : List String) (expires actor : Option ℕ)
      → get_by_key k (grant id key from to types tiers expires actor s).1 ≡ some d
  unfolding grant
  get_by_key-grant id key from to types tiers expires actor =
      elim (Option-cases (get_by_key key s)) [
        | inr (x, p) ↦ rw p found
        | inl n ↦ rw n (elim (Bool-cases (any_of (λ x. x.id == id) s.rows)) [
          | inl c ↦ rw c found
          | inr c ↦ rw c (find_by-snoc_old (has_key k) s.rows _ d found)
        ])
      ]

  other_key :
      (key : String) (x : ApprovalDelegation)
      → get_by_key key s ≡ some x
      → is_active x.status ≡ true
      → str_eq x.delegation_key k ≡ false
  other_key key x p a = elim (Bool-cases (str_eq x.delegation_key k)) [
    | inr n ↦ n
    | inl e ↦
        let at_k : x.delegation_key ≡ k = (eq_iff x.delegation_key k).0 e in
        let at_key : x.delegation_key ≡ key =
          (eq_iff x.delegation_key key).0 (find_by-key key s.rows x p) in
        let same : key ≡ k = sym at_key ∙ at_k in
        let here : get_by_key k s ≡ some x = subst (λ y. get_by_key y s ≡ some x) same p in
        let eq : x ≡ d = some_inj (sym here ∙ found) in
        let b : true ≡ false = sym a ∙ ap (λ y. is_active y.status) eq ∙ over in
        absurd (ground (arith, b))
  ]

  get_by_key-revoke :
      (key : String) (reason : Option String) (actor : Option ℕ) (now : ℕ)
      → get_by_key k (revoke key reason actor now s).1 ≡ some d
  unfolding revoke
  get_by_key-revoke key reason actor now = elim (Option-cases (get_by_key key s)) [
    | inl n ↦ rw n found
    | inr (x, p) ↦ rw p (elim (Bool-cases (is_active x.status)) [
      | inr n ↦ rw n found
      | inl a ↦ rw a (find_by-put_other k _ s.rows (other_key key x p a) ∙ found)
    ])
  ]

module _ (k : String) (d : ApprovalDelegation) (over : is_active d.status ≡ false) where
  get_by_key-perform :
      (c : DelegationCall) (s : Delegations)
      → get_by_key k s ≡ some d
      → get_by_key k (perform c s) ≡ some d
  unfolding perform
  get_by_key-perform (call_grant id key from to types tiers expires actor) s f =
      get_by_key-grant k s d f over id key from to types tiers expires actor
  get_by_key-perform (call_revoke key reason actor now) s f =
      get_by_key-revoke k s d f over key reason actor now

  get_by_key-serve :
      (cs : List DelegationCall) (s : Delegations)
      → get_by_key k s ≡ some d
      → get_by_key k (serve cs s) ≡ some d
  unfolding serve
  get_by_key-serve [] s f = f
  get_by_key-serve (c ∷ cs) s f = get_by_key-serve cs (perform c s) (get_by_key-perform c s f)

-- After a delegation is revoked it stays as it is over every sequence of calls, and a grant with its
-- key returns it as if it were in force and writes nothing.
pub grant-serve :
    (s : Delegations) (k : String) (d : ApprovalDelegation) (cs : List DelegationCall)
    → get_by_key k s ≡ some d
    → is_active d.status ≡ false
    → let later = serve cs s in
      (get_by_key k later ≡ some d)
      × ((id from to : ℕ) (types tiers : List String) (expires actor : Option ℕ)
          → grant id k from to types tiers expires actor later ≡ (returned (to_grant d), later))
unfolding grant
grant-serve s k d cs f over =
    let kept = get_by_key-serve k d over cs s f in
    (kept, λ id from to types tiers expires actor. rw kept)
