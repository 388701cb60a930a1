-- ===== src/Governance/Quorum.antt =====
-- backend/governance/quorum.py: votes on an approval, counted from the governance log. The proofs
-- are in the modules below this one.
pub mod Tally
pub mod Votes
pub mod Ballots
pub mod Life
use the_dashboard.Common.{
  ℕ, String, Bool, true, false, not, ◌&&◌, Option, none, some, List, [], ◌∷◌, ◌+◌, Exec, pure, gets,
  raise_if, ◌>>=◌, ◌>>◌, ◌==◌, leb, any_of, if◌then◌else◌,
}
use the_dashboard.Governance.Events.{
  EventBody, quorum_vote_cast, GovernanceEvent, Log, append, get_for_approval,
}

-- governance/contracts.py
pub record QuorumResult : Type 0 where
  pub approval_id : ℕ
  pub required : ℕ
  pub votes_for : ℕ
  pub votes_against : ℕ
  pub met : Bool
  pub resolved : Bool

pub data QuorumError : Type 0 where
  already_met : (approval_id : ℕ) → QuorumError
  already_voted : (voter_id approval_id : ℕ) → QuorumError

abbrev pub is_met : GovernanceEvent → Bool
is_met e = elim e.body [ EventBody.quorum_met for_count against_count required ↦ true | _ ↦ false ]

abbrev pub is_vote_of : ℕ → GovernanceEvent → Bool
is_vote_of voter_id e = elim e.body [
  | quorum_vote_cast voter vote notes time ↦ voter == voter_id
  | _ ↦ false
]

-- The variables of the loop of `get_result`.
pub record Counts : Type 0 where
  pub votes_for : ℕ
  pub votes_against : ℕ
  pub resolved : Bool

abbrev pub no_counts : Counts
no_counts = record { votes_for = 0; votes_against = 0; resolved = false }

abbrev pub count_event : Counts → GovernanceEvent → Counts
count_event c e = elim e.body [
  | quorum_vote_cast voter vote notes time ↦
      if vote
      then record c { votes_for = c.votes_for + 1 }
      else record c { votes_against = c.votes_against + 1 }
  | EventBody.quorum_met for_count against_count required ↦ record c { resolved = true }
  | _ ↦ c
]

unfoldable pub count_events : Counts → Log → Counts
count_events c [] = c
count_events c (e ∷ es) = count_events (count_event c e) es

abbrev pub result_of : ℕ → ℕ → Counts → QuorumResult
result_of approval_id required c = record {
  approval_id = approval_id;
  required = required;
  votes_for = c.votes_for;
  votes_against = c.votes_against;
  met = leb required c.votes_for;
  resolved = c.resolved;
}

-- `QuorumRuntime.get_result`
unfoldable pub get_result : ℕ → ℕ → Log → QuorumResult
unfolding count_events
get_result approval_id required log =
    result_of approval_id required (count_events no_counts (get_for_approval approval_id log))

-- The end of `cast_vote`, once the vote is in the log.
unfoldable pub settle : (approval_id voter_id required : ℕ) → Exec Log QuorumError QuorumResult
unfolding get_result
settle approval_id voter_id required = do
  result ← gets (get_result approval_id required)
  if result.met && not result.resolved
      then (append (EventBody.quorum_met result.votes_for result.votes_against required)
            (some approval_id) (some voter_id)
          >> pure (record result { met = true; resolved = true }))
      else pure result

-- `QuorumRuntime.cast_vote`
unfoldable pub cast_vote :
    (approval_id voter_id : ℕ) (vote : Bool) (required : ℕ) (notes : Option String) (now : ℕ)
    → Exec Log QuorumError QuorumResult
unfolding settle
cast_vote approval_id voter_id vote required notes now = do
  events ← gets (get_for_approval approval_id)
  raise_if (any_of is_met events) (already_met approval_id)
  raise_if (any_of (is_vote_of voter_id) events) (already_voted voter_id approval_id)
  append (quorum_vote_cast voter_id vote notes now) (some approval_id) (some voter_id)
  settle approval_id voter_id required
