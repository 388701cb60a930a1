-- ===== src/Tests/Delegations.antt =====
-- Runs of the delegations (backend/governance/delegation.py) on concrete inputs.
use mathlib.Core.List.{Memᴰ}
use the_dashboard.Common.{
  ℕ, String, true, false, Option, none, some, List, [], ◌∷◌, ◌≡◌, ◌↔◌, ◌⊎◌, refl, returned,
}
use the_dashboard.Governance.Delegation.{
  DelegationStatus, active, revoked, ApprovalDelegation, Delegations, get_by_key, grant, to_grant,
  is_authorized, get_active_for_delegate,
}
use the_dashboard.Governance.Delegation.Revoked.{
  DelegationCall, call_grant, call_revoke, serve, grant-serve,
}
use the_dashboard.Governance.Delegation.Authority.{Allows, IsOpenAt, Names, is_authorized-grant}

-- A delegation of user 1 to user 2 of the offers.
abbrev row : DelegationStatus → ApprovalDelegation
row status = record {
  id = 10;
  delegation_key = "vacation";
  delegator_id = 1;
  delegate_id = 2;
  approval_types = "offer" ∷ [];
  risk_tiers = [];
  status = status;
  expires_at = none;
  revoked_at = none;
  revoke_reason = none;
}

abbrev table : DelegationStatus → Delegations
table status = record { rows = row status ∷ []; log = [] }

abbrev calls : List DelegationCall
calls =
    call_grant 11 "vacation" 1 3 [] [] none none
    ∷ call_revoke "vacation" none none 50
    ∷ call_grant 12 "leave" 1 3 [] [] none none
    ∷ []

is_authorized-table :
    (is_authorized 2 "offer" "high" 5 (table active) ≡ true)
    × (is_authorized 2 "outreach" "high" 5 (table active) ≡ false)
    × (is_authorized 2 "offer" "high" 5 (table revoked) ≡ false)
unfolding is_authorized get_active_for_delegate
is_authorized-table = (refl, refl, refl)

grant-serve_example :
    (get_by_key "vacation" (serve calls (table revoked)) ≡ some (row revoked))
    × ((id from to : ℕ) (types tiers : List String) (expires actor : Option ℕ)
        → grant id "vacation" from to types tiers expires actor (serve calls (table revoked))
          ≡ (returned (to_grant (row revoked)), serve calls (table revoked)))
grant-serve_example = grant-serve (table revoked) "vacation" (row revoked) calls refl refl

is_authorized-grant_example :
    (is_authorized 3 "outreach" "high" 5
        (grant 11 "leave" 1 3 ("outreach" ∷ []) [] (some 9) none (table active)).1
      ≡ true)
    ↔ (((d : ApprovalDelegation) × Memᴰ d (table active).rows × Allows d 3 "outreach" "high" 5)
        ⊎ ((◌≡◌ {A = ℕ} 3 3)
            × IsOpenAt 5 (some 9)
            × Names ("outreach" ∷ []) "outreach"
            × Names [] "high"))
is_authorized-grant_example =
    is_authorized-grant (table active) 11 "leave" 1 3 ("outreach" ∷ []) [] (some 9) none 3
      "outreach" "high" 5 refl refl
