-- ===== src/Tests/Governance.antt =====
-- Runs of the governance models (backend/governance) on concrete logs.
use the_dashboard.Common.{
  true, false, none, some, List, [], ◌∷◌, ◌++◌, ◌≡◌, ◌≤◌, ◌+◌, ◌↔◌, ◌⊎◌, refl, arith, returned,
  any_of, length,
}
use the_dashboard.Governance.Events.{
  Log, event, freeze_activated, freeze_deactivated, get_for_approval,
}
use the_dashboard.Governance.Freeze.{is_frozen, activate, deactivate}
use the_dashboard.Governance.Freeze.Meaning.{HasKill, HasFreeze, is_frozen_iff}
use the_dashboard.Governance.Freeze.Runs.{Request, serve, deactivate-serve}
use the_dashboard.Governance.Quorum.{is_met, get_result, cast_vote}
use the_dashboard.Governance.Quorum.Ballots.{voters, Distinct}
use the_dashboard.Governance.Quorum.Life.{Ballot, cast_all, get_result-cast_all}

abbrev reopened : List Request
reopened = Request.activate "f1" "calls" "noise" (some 7) 10 ∷ Request.deactivate "f1" (some 7) ∷ []

abbrev lifted_log : Log
lifted_log =
    event (freeze_activated "f1" "calls" "noise" false 10) none (some 7)
    ∷ event (freeze_deactivated "f1") none (some 7)
    ∷ []

serve-reopened : serve reopened [] ≡ lifted_log
unfolding serve activate deactivate
serve-reopened = refl

abbrev ballots : List Ballot
ballots =
    record { voter = 1; vote = true; notes = none; now = 10 }
    ∷ record { voter = 2; vote = false; notes = none; now = 11 }
    ∷ record { voter = 1; vote = true; notes = none; now = 12 }
    ∷ record { voter = 3; vote = true; notes = none; now = 13 }
    ∷ record { voter = 4; vote = true; notes = none; now = 14 }
    ∷ []

voters-ballots : voters (get_for_approval 5 (cast_all 5 2 ballots [])) ≡ 1 ∷ 2 ∷ 3 ∷ []
unfolding cast_all cast_vote
voters-ballots = refl

is_frozen_iff_example :
    (is_frozen "calls" lifted_log ≡ true)
    ↔ (HasKill "calls" lifted_log ⊎ HasFreeze "calls" lifted_log)
is_frozen_iff_example = is_frozen_iff "calls" lifted_log

deactivate-serve_example :
    deactivate "k" (some 7) (serve (Request.kill_switch "k" "calls" "breach" (some 7) 5 ∷ []) [])
    ≡ (
      returned tt,
      serve (Request.kill_switch "k" "calls" "breach" (some 7) 5 ∷ []) []
          ++ event (freeze_deactivated "k") none (some 7) ∷ [],
    )
deactivate-serve_example =
    deactivate-serve (Request.kill_switch "k" "calls" "breach" (some 7) 5 ∷ []) "k" (some 7)

get_result-cast_all_example :
    let log = cast_all 5 2 ballots [] in
    let r = get_result 5 2 log in
    (r.met ≡ any_of is_met (get_for_approval 5 log))
    × (r.votes_for ≤ 2)
    × Distinct (voters (get_for_approval 5 log))
    × (r.votes_for + r.votes_against ≡ length (voters (get_for_approval 5 log)))
get_result-cast_all_example = get_result-cast_all 5 2 ballots (omega arith)
