-- ===== src/Governance/Policy/Life.antt =====
-- The versions of the policies (backend/governance/policy.py) over sequences of calls.
use the_dashboard.Common.{
  ℕ, suc, String, false, ◌||◌, ◌&&◌, Option, none, some, List, [], ◌∷◌, ◌++◌, ◌≡◌, ◌⊎◌, refl, ap,
  ◌∙◌, arith, ◌==◌, length, length-map, select-append, append-nil, map, Bool-cases, inl, inr,
  eq_iff, any_of as any_row, returned, subst,
}
use the_dashboard.Governance.Policy
use the_dashboard.Governance.Policy.{
  GovernancePolicyStatus, superseded, archived, is_active, PolicyFields, GovernancePolicy, Policies,
  has_key, of_key, active_of, get_active_version, get_latest_version_number, insert_policy,
  add_version, set_status,
}
use the_dashboard.Governance.Policy.Versions.{
  AreNumbered, AreNumbered-snoc, active_of_cases, latest_number, of_key-set_status,
  AreNumbered-set_status, active_of-set_status,
}

pub data PolicyCall : Type 0 where
  create supersede :
      (id : ℕ) (policy_key : String) → PolicyFields → (created_by : Option ℕ) → PolicyCall
  archive : (policy_key : String) (actor_id : Option ℕ) → PolicyCall

unfoldable pub perform : PolicyCall → Policies → Policies
perform (PolicyCall.create id key fields by) s = (Policy.create id key fields by s).1
perform (PolicyCall.supersede id key fields by) s = (Policy.supersede id key fields by s).1
perform (PolicyCall.archive key actor) s = (Policy.archive key actor s).1

unfoldable pub serve : List PolicyCall → Policies → Policies
serve [] s = s
serve (c ∷ cs) s = serve cs (perform c s)

abbrev IsVersioned : List GovernancePolicy → Type 0
IsVersioned rows = (key : String) → AreNumbered 0 (of_key key rows)

-- A row with the next version is added to a key without an active row.
snoc-IsVersioned :
    (rows : List GovernancePolicy) (p : GovernancePolicy)
    → IsVersioned rows
    → active_of (of_key p.policy_key rows) ≡ []
    → p.version ≡ suc (length (of_key p.policy_key rows))
    → IsVersioned (rows ++ p ∷ [])
snoc-IsVersioned rows p versioned quiet v key =
    let split = select-append (has_key key) rows (p ∷ []) in
    elim (Bool-cases (has_key key p)) [
      | inr other ↦
          let same : of_key key (rows ++ p ∷ []) ≡ of_key key rows =
            split ∙ rw other (append-nil (of_key key rows)) in
          rw same (versioned key)
      | inl own ↦
          let k : p.policy_key ≡ key = (eq_iff p.policy_key key).0 own in
          let more : of_key key (rows ++ p ∷ []) ≡ of_key key rows ++ p ∷ [] =
            split ∙ rw own refl in
          let quiet' : active_of (of_key key rows) ≡ [] =
            subst (λ x. active_of (of_key x rows) ≡ []) k quiet in
          let v' : p.version ≡ suc (length (of_key key rows)) =
            subst (λ x. p.version ≡ suc (length (of_key x rows))) k v in
          rw more (AreNumbered-snoc 0 (of_key key rows) p (versioned key) quiet' (omega arith))
    ]

set_status-IsVersioned :
    (id : ℕ) (status : GovernancePolicyStatus) (rows : List GovernancePolicy)
    → is_active status ≡ false
    → IsVersioned rows
    → IsVersioned (map (set_status id status) rows)
set_status-IsVersioned id status rows off versioned key =
    rw (of_key-set_status id status off key rows)
      (AreNumbered-set_status id status off 0 (of_key key rows) (versioned key))

add_version-IsVersioned :
    (id : ℕ) (key : String) (version : ℕ) (action : String) (fields : PolicyFields) (by : Option ℕ)
    (s : Policies)
    → IsVersioned s.rows
    → active_of (of_key key s.rows) ≡ []
    → version ≡ suc (length (of_key key s.rows))
    → IsVersioned (add_version id key version action fields by s).1.rows
unfolding add_version
add_version-IsVersioned id key version action fields by s versioned quiet v =
    elim (Bool-cases
      (any_row (λ q. q.id == id || (has_key key q && q.version == version)) s.rows)) [
        | inl clash ↦ rw clash versioned
        | inr fine ↦ rw fine (snoc-IsVersioned s.rows _ versioned quiet v)
      ]

module _ (s : Policies) (versioned : IsVersioned s.rows) where
  create-IsVersioned :
      (id : ℕ) (key : String) (fields : PolicyFields) (by : Option ℕ)
      → IsVersioned (Policy.create id key fields by s).1.rows
  unfolding Policy.create get_active_version
  create-IsVersioned id key fields by =
      elim (active_of_cases 0 (of_key key s.rows) (versioned key)) [
        | inr (p, e, v) ↦ rw e versioned
        | inl quiet ↦ rw quiet (
            add_version-IsVersioned id key (suc (get_latest_version_number key s)) "created" fields
              by s versioned quiet (ap suc (latest_number key s (versioned key))))
      ]

  supersede-IsVersioned :
      (id : ℕ) (key : String) (fields : PolicyFields) (by : Option ℕ)
      → IsVersioned (Policy.supersede id key fields by s).1.rows
  unfolding Policy.supersede get_active_version
  supersede-IsVersioned id key fields by =
      elim (active_of_cases 0 (of_key key s.rows) (versioned key)) [
        | inl quiet ↦ rw quiet versioned
        | inr (p, e, v) ↦
            let same = of_key-set_status p.id superseded refl key s.rows in
            let quiet = active_of-set_status p.id superseded refl (of_key key s.rows) p e refl in
            rw e (
              add_version-IsVersioned id key (suc p.version) "superseded" fields by _
                (set_status-IsVersioned p.id superseded s.rows refl versioned) (rw same quiet)
                (rw same (
                  let l = length-map (set_status p.id superseded) (of_key key s.rows) in
                  omega arith)))
      ]

  archive-IsVersioned :
      (key : String) (actor : Option ℕ) → IsVersioned (Policy.archive key actor s).1.rows
  unfolding Policy.archive get_active_version
  archive-IsVersioned key actor = elim (active_of_cases 0 (of_key key s.rows) (versioned key)) [
    | inl quiet ↦ rw quiet versioned
    | inr (p, e, v) ↦ rw e (set_status-IsVersioned p.id archived s.rows refl versioned)
  ]

  perform-IsVersioned : (c : PolicyCall) → IsVersioned (perform c s).rows
  unfolding perform
  perform-IsVersioned (PolicyCall.create id key fields by) = create-IsVersioned id key fields by
  perform-IsVersioned (PolicyCall.supersede id key fields by) =
      supersede-IsVersioned id key fields by
  perform-IsVersioned (PolicyCall.archive key actor) = archive-IsVersioned key actor

serve-IsVersioned :
    (cs : List PolicyCall) (s : Policies) → IsVersioned s.rows → IsVersioned (serve cs s).rows
unfolding serve
serve-IsVersioned [] s versioned = versioned
serve-IsVersioned (c ∷ cs) s versioned =
    serve-IsVersioned cs (perform c s) (perform-IsVersioned s versioned c)

-- The calls on a table without policies number the versions of every key from 1 on in the order of
-- their creation, and no row but the last of its key is active. The query for the active version
-- therefore never finds two rows: it changes nothing and returns none or the row with the highest
-- number of its key.
pub serve-versions :
    (cs : List PolicyCall) (s : Policies) (key : String)
    → s.rows ≡ []
    → let s' = serve cs s in
      AreNumbered 0 (of_key key s'.rows)
      × ((get_active_version key s' ≡ (returned none, s'))
          ⊎ ((p : GovernancePolicy) × (get_active_version key s' ≡ (returned (some p), s'))
              × (p.version ≡ get_latest_version_number key s')))
unfolding get_active_version
serve-versions cs s key fresh =
    let versioned = serve-IsVersioned cs s (λ k. rw fresh tt) key in
    (
      versioned,
      elim (active_of_cases 0 (of_key key (serve cs s).rows) versioned) [
        | inl quiet ↦ inl (rw quiet refl)
        | inr (p, e, v) ↦
            inr (p, rw e refl, let l = latest_number key (serve cs s) versioned in omega arith)
      ],
    )
