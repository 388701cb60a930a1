-- ===== src/Governance/Quorum/Votes.antt =====
-- The voters of one approval (backend/governance/quorum.py) and the number required.
use the_dashboard.Common.{
  ℕ, String, Bool, true, false, Option, some, [], ◌∷◌, ◌++◌, ◌≡◌, returned, arith, leb, any_of,
  if◌then◌else◌,
}
use the_dashboard.Governance.Events.{
  EventBody, quorum_vote_cast, GovernanceEvent, Log, event, get_for_approval,
}
use the_dashboard.Governance.Quorum.{
  is_met, is_vote_of, Counts, no_counts, count_event, count_events, result_of, cast_vote,
}
use the_dashboard.Governance.Quorum.Tally.{
  count_events-snoc, count_events-resolved, get_for_approval-snoc_own,
}

-- The counts of an approval.
abbrev pub counts : ℕ → Log → Counts
counts a log = count_events no_counts (get_for_approval a log)

-- A vote on the approval that is counted, on an approval that is not yet met.
module _ (a voter : ℕ) (vote : Bool) (required : ℕ) (notes : Option String) (now : ℕ) (log : Log)
    (unmet : any_of is_met (get_for_approval a log) ≡ false) where
  abbrev vote_event : GovernanceEvent
  vote_event = event (quorum_vote_cast voter vote notes now) (some a) (some voter)

  abbrev voted : Counts
  voted = count_event (counts a log) vote_event

  abbrev met_event : GovernanceEvent
  met_event =
      event (EventBody.quorum_met voted.votes_for voted.votes_against required) (some a)
        (some voter)

  voted-unresolved : voted.resolved ≡ false
  voted-unresolved = ground (arith, count_events-resolved no_counts (get_for_approval a log))

  counts-vote : counts a (log ++ vote_event ∷ []) ≡ voted
  counts-vote =
      rw (get_for_approval-snoc_own a log (quorum_vote_cast voter vote notes now) voter)
        (count_events-snoc no_counts (get_for_approval a log) vote_event)

  pub cast_vote-counted :
      any_of (is_vote_of voter) (get_for_approval a log) ≡ false
      → cast_vote a voter vote required notes now log ≡ (
          if leb required voted.votes_for
          then (
            returned (record (result_of a required voted) { met = true; resolved = true }),
            (log ++ vote_event ∷ []) ++ met_event ∷ [],
          )
          else (returned (result_of a required voted), log ++ vote_event ∷ []))
  unfolding cast_vote
  cast_vote-counted new = rw (unmet, new) (rw counts-vote (rw voted-unresolved (ground arith)))
