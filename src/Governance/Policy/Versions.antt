-- ===== src/Governance/Policy/Versions.antt =====
-- The numbers of the versions of a policy key (backend/governance/policy.py) and the active one.
use the_dashboard.Common.{
  ℕ, suc, String, true, false, List, [], ◌∷◌, ◌++◌, ◌+◌, ◌≤◌, ◌≡◌, refl, ap, ◌∙◌, arith, leb,
  length, map, sorted, insert, Bool-cases, inl, inr, ◌⊎◌,
}
use the_dashboard.Governance.Policy.{
  GovernancePolicyStatus, is_active, GovernancePolicy, Policies, of_key, active_of, first_version,
  get_latest_version_number, set_status,
}

-- The versions of the rows follow on `n`, and a row is active only if it is the last.
abbrev pub AreNumbered : ℕ → List GovernancePolicy → Type 0
AreNumbered n [] = Unit
AreNumbered n (p ∷ ps) =
    (p.version ≡ suc n) × (is_active p.status ≡ true → ps ≡ []) × AreNumbered (suc n) ps

pub AreNumbered-snoc :
    (n : ℕ) (ps : List GovernancePolicy) (p : GovernancePolicy)
    → AreNumbered n ps
    → active_of ps ≡ []
    → p.version ≡ suc (n + length ps)
    → AreNumbered n (ps ++ p ∷ [])
AreNumbered-snoc n [] p a quiet v = (omega arith, λ h. refl, tt)
AreNumbered-snoc n (q ∷ ps) p (v', last, rest) quiet v = elim (Bool-cases (is_active q.status)) [
  | inl on ↦ absurd (ground arith)
  | inr off ↦
      let quiet' : active_of ps ≡ [] = ground arith in
      (v', λ h. absurd (ground arith), AreNumbered-snoc (suc n) ps p rest quiet' (omega arith))
]

-- The active rows are none or the last one.
pub active_of_cases :
    (n : ℕ) (ps : List GovernancePolicy)
    → AreNumbered n ps
    → (active_of ps ≡ [])
      ⊎ ((p : GovernancePolicy) × (active_of ps ≡ p ∷ []) × (p.version ≡ n + length ps))
active_of_cases n [] a = inl refl
active_of_cases n (q ∷ ps) (v, last, rest) = elim (Bool-cases (is_active q.status)) [
  | inl on ↦ let e = last on in inr (q, rw e (rw on refl), rw e (omega arith))
  | inr off ↦ elim (active_of_cases (suc n) ps rest) [
    | inl quiet ↦ inl (rw off quiet)
    | inr (p, e, w) ↦ inr (p, rw off e, omega arith)
  ]
]

-- The latest version number.
first_version-insert :
    (p : GovernancePolicy) (ps : List GovernancePolicy) (m : ℕ)
    → first_version ps ≤ m
    → p.version ≤ m
    → first_version (insert (λ a b. leb b.version a.version) p ps) ≤ m
first_version-insert p [] m h k = k
first_version-insert p (q ∷ ps) m h k = ground arith

first_version-insert-kept :
    (p : GovernancePolicy) (ps : List GovernancePolicy)
    → first_version ps ≤ first_version (insert (λ a b. leb b.version a.version) p ps)
first_version-insert-kept p [] = omega arith
first_version-insert-kept p (q ∷ ps) = ground arith

latest_version :
    (n : ℕ) (ps : List GovernancePolicy)
    → AreNumbered n ps
    → (first_version (sorted (λ a b. leb b.version a.version) ps) ≤ n + length ps)
      × (1 ≤ length ps → n + length ps ≤ first_version (sorted (λ a b. leb b.version a.version) ps))
latest_version n [] a = (omega arith, λ h. absurd (omega arith))
latest_version n (p ∷ []) (v, last, rest) = (omega arith, λ h. omega arith)
latest_version n (p ∷ q ∷ ps) (v, last, rest) =
    let (below, above) = latest_version (suc n) (q ∷ ps) rest in
    let sorted_rest = sorted (λ a b. leb b.version a.version) (q ∷ ps) in
    let b =
      first_version-insert p sorted_rest (n + length (p ∷ q ∷ ps)) (omega arith) (omega arith) in
    let k = first_version-insert-kept p sorted_rest in
    let above' = above (omega arith) in (b, λ h. omega arith)

pub latest_number :
    (key : String) (s : Policies)
    → AreNumbered 0 (of_key key s.rows)
    → get_latest_version_number key s ≡ length (of_key key s.rows)
unfolding get_latest_version_number
latest_number key s a =
    let (below, above) = latest_version 0 (of_key key s.rows) a in
    elim (Bool-cases (leb 1 (length (of_key key s.rows)))) [
      | inl some_rows ↦ let h = above (ground arith) in omega arith
      | inr no_rows ↦ ground arith
    ]

module _ (id : ℕ) (status : GovernancePolicyStatus) (off : is_active status ≡ false) where
  pub of_key-set_status :
      (key : String) (ps : List GovernancePolicy)
      → of_key key (map (set_status id status) ps) ≡ map (set_status id status) (of_key key ps)
  of_key-set_status key [] = refl
  of_key-set_status key (p ∷ ps) = ground (arith, of_key-set_status key ps)

  pub AreNumbered-set_status :
      (n : ℕ) (ps : List GovernancePolicy)
      → AreNumbered n ps
      → AreNumbered n (map (set_status id status) ps)
  AreNumbered-set_status n [] a = tt
  AreNumbered-set_status n (p ∷ ps) (v, last, rest) =
      (ground arith, λ on. rw (last (was_active p on)) refl, AreNumbered-set_status (suc n) ps rest)
    where
      was_active :
          (q : GovernancePolicy)
          → is_active (set_status id status q).status ≡ true
          → is_active q.status ≡ true
      was_active q on = ground arith

  active_of-set_status-none :
      (ps : List GovernancePolicy)
      → active_of ps ≡ []
      → active_of (map (set_status id status) ps) ≡ []
  active_of-set_status-none [] h = refl
  active_of-set_status-none (p ∷ ps) h = elim (Bool-cases (is_active p.status)) [
    | inl on ↦ absurd (ground arith)
    | inr quiet ↦
        let rest : active_of ps ≡ [] = ground arith in
        let ih = active_of-set_status-none ps rest in ground arith
  ]

  -- The only active row loses its status.
  pub active_of-set_status :
      (ps : List GovernancePolicy) (c : GovernancePolicy)
      → active_of ps ≡ c ∷ []
      → c.id ≡ id
      → active_of (map (set_status id status) ps) ≡ []
  active_of-set_status [] c h k = absurd (ground arith)
  active_of-set_status (p ∷ ps) c h k = elim (Bool-cases (is_active p.status)) [
    | inl on ↦
        let g : p ∷ active_of ps ≡ c ∷ [] = rw on at h in
        let rest : active_of ps ≡ [] = ground arith in
        let own : p.id ≡ id = ap first_id g ∙ k in
        let ih = active_of-set_status-none ps rest in ground arith
    | inr quiet ↦
        let g : active_of ps ≡ c ∷ [] = rw quiet at h in
        let ih = active_of-set_status ps c g k in ground arith
  ]
    where
      first_id : List GovernancePolicy → ℕ
      first_id [] = 0
      first_id (q ∷ qs) = q.id
