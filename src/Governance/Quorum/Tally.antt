-- ===== src/Governance/Quorum/Tally.antt =====
-- The counts of backend/governance/quorum.py, event by event.
use the_dashboard.Common.{
  ℕ, some, [], ◌∷◌, ◌++◌, ◌≡◌, ◌≢◌, refl, ◌∙◌, ◌||◌, arith, select-append, append-nil, any_of,
}
use the_dashboard.Governance.Events.{GovernanceEvent, Log, event, get_for_approval, EventBody}
use the_dashboard.Governance.Quorum.{Counts, is_met, count_event, count_events}

pub count_events-snoc :
    (c : Counts) (log : Log) (e : GovernanceEvent)
    → count_events c (log ++ e ∷ []) ≡ count_event (count_events c log) e
unfolding count_events
count_events-snoc c [] e = refl
count_events-snoc c (x ∷ log) e = count_events-snoc (count_event c x) log e

-- `resolved` is set exactly by a `quorum_met` event.
pub count_events-resolved :
    (c : Counts) (log : Log) → (count_events c log).resolved ≡ (c.resolved || any_of is_met log)
unfolding count_events
count_events-resolved c [] = ground arith
count_events-resolved c (x ∷ log) = count_events-resolved (count_event c x) log ∙ ground arith

pub get_for_approval-snoc_own :
    (a : ℕ) (log : Log) (body : EventBody) (actor : ℕ)
    → get_for_approval a (log ++ event body (some a) (some actor) ∷ [])
      ≡ get_for_approval a log ++ event body (some a) (some actor) ∷ []
get_for_approval-snoc_own a log body actor = select-append _ log _ ∙ ground arith

pub get_for_approval-snoc_other :
    (a b : ℕ) (log : Log) (body : EventBody) (actor : ℕ)
    → b ≢ a
    → get_for_approval a (log ++ event body (some b) (some actor) ∷ []) ≡ get_for_approval a log
get_for_approval-snoc_other a b log body actor h =
    select-append _ log _ ∙ ground (arith, append-nil (get_for_approval a log))
