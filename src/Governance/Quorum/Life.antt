-- ===== src/Governance/Quorum/Life.antt =====
-- The votes on one approval (backend/governance/quorum.py) over sequences of calls.
use the_dashboard.Common.{
  ℕ, String, Bool, true, false, Option, some, List, [], ◌∷◌, ◌++◌, ◌+◌, ◌≤◌, ◌≡◌, ◌≢◌, ◌∙◌, raised,
  arith, leb, any_of, length, Bool-cases, inl, inr,
}
use the_dashboard.Governance.Events.{EventBody, quorum_vote_cast, Log, event, get_for_approval}
use the_dashboard.Governance.Quorum.{
  already_met, already_voted, is_met, is_vote_of, count_event, count_events, get_result, cast_vote,
}
use the_dashboard.Governance.Quorum.Tally.{get_for_approval-snoc_own, get_for_approval-snoc_other}
use the_dashboard.Governance.Quorum.Votes.{counts, cast_vote-counted}
use the_dashboard.Governance.Quorum.Ballots.{
  voters, Distinct, IsTally, IsTally-ballot, IsTally-ballot_met,
}

module _ (a voter : ℕ) (vote : Bool) (required : ℕ) (notes : Option String) (now : ℕ)
    (log : Log) where
  -- A vote on an approval that is met is refused, and so is a second vote of one voter; nothing is
  -- written then.
  pub cast_vote-refused :
      (any_of is_met (get_for_approval a log) ≡ true
        → cast_vote a voter vote required notes now log ≡ (raised (already_met a), log))
      × (any_of is_met (get_for_approval a log) ≡ false
          → any_of (is_vote_of voter) (get_for_approval a log) ≡ true
          → cast_vote a voter vote required notes now log ≡ (raised (already_voted voter a), log))
  unfolding cast_vote
  cast_vote-refused = (λ m. rw m, λ u v. rw (u, v))

  -- Every call keeps the tally of its approval.
  pub cast_vote-IsTally :
      IsTally required (get_for_approval a log)
      → IsTally required (get_for_approval a (cast_vote a voter vote required notes now log).1)
  cast_vote-IsTally t = elim (Bool-cases (any_of is_met (get_for_approval a log))) [
    | inl m ↦ rw (cast_vote-refused.0 m) t
    | inr u ↦ elim (Bool-cases (any_of (is_vote_of voter) (get_for_approval a log))) [
      | inl v ↦ rw (cast_vote-refused.1 u v) t
      | inr new ↦
          let body = quorum_vote_cast voter vote notes now in
          let ballot = event body (some a) (some voter) in
          let own = get_for_approval-snoc_own a log body voter in
          let c = count_event (counts a log) ballot in
          rw (cast_vote-counted a voter vote required notes now log u new)
            (elim (Bool-cases (leb required c.votes_for)) [
              | inl enough ↦ rw enough (
                  rw
                    (get_for_approval-snoc_own a (log ++ ballot ∷ [])
                      (EventBody.quorum_met c.votes_for c.votes_against required) voter)
                    (rw own (
                      IsTally-ballot_met _ t u voter vote notes now (some a) (some voter)
                        c.votes_for c.votes_against required (some a) (some voter) new enough)))
              | inr few ↦
                  rw few (
                    rw own
                      (IsTally-ballot _ t u voter vote notes now (some a) (some voter) new few))
            ])
    ]
  ]

  -- A vote on one approval leaves the events of every other one as they were.
  pub cast_vote-other :
      (b : ℕ)
      → a ≢ b
      → get_for_approval b (cast_vote a voter vote required notes now log).1
        ≡ get_for_approval b log
  cast_vote-other b h = elim (Bool-cases (any_of is_met (get_for_approval a log))) [
    | inl m ↦ rw (cast_vote-refused.0 m)
    | inr u ↦ elim (Bool-cases (any_of (is_vote_of voter) (get_for_approval a log))) [
      | inl v ↦ rw (cast_vote-refused.1 u v)
      | inr new ↦
          let body = quorum_vote_cast voter vote notes now in
          let ballot = event body (some a) (some voter) in
          let c = count_event (counts a log) ballot in
          let old = get_for_approval-snoc_other b a log body voter h in
          rw (cast_vote-counted a voter vote required notes now log u new)
            (elim (Bool-cases (leb required c.votes_for)) [
              | inl enough ↦ rw enough (
                  get_for_approval-snoc_other b a (log ++ ballot ∷ [])
                    (EventBody.quorum_met c.votes_for c.votes_against required) voter h
                  ∙ old)
              | inr few ↦ rw few old
            ])
    ]
  ]

pub record Ballot : Type 0 where
  pub voter : ℕ
  pub vote : Bool
  pub notes : Option String
  pub now : ℕ

-- Votes cast one after the other.
unfoldable pub cast_all : (a required : ℕ) → List Ballot → Log → Log
cast_all a required [] log = log
cast_all a required (b ∷ bs) log =
    cast_all a required bs (cast_vote a b.voter b.vote required b.notes b.now log).1

cast_all_from :
    (a required : ℕ) (bs : List Ballot) (log : Log)
    → IsTally required (get_for_approval a log)
    → IsTally required (get_for_approval a (cast_all a required bs log))
unfolding cast_all
cast_all_from a required [] log t = t
cast_all_from a required (b ∷ bs) log t =
    cast_all_from a required bs _ (cast_vote-IsTally a b.voter b.vote required b.notes b.now log t)

-- The tally of the votes cast on a new approval.
pub cast_all-IsTally :
    (a required : ℕ) (bs : List Ballot)
    → 1 ≤ required
    → IsTally required (get_for_approval a (cast_all a required bs []))
unfolding count_events
cast_all-IsTally a required bs h = cast_all_from a required bs [] (record {
  pending = λ _. h;
  settled = λ m. absurd (ground arith);
  once = tt;
  total = omega arith;
})

-- Whatever votes are cast on a new approval that requires at least one: the result is met exactly
-- when the log has the event `quorum_met`, the votes for it never pass the number required, each
-- voter is counted once, and the votes for and against add up to the voters.
pub get_result-cast_all :
    (a required : ℕ) (bs : List Ballot)
    → 1 ≤ required
    → let log = cast_all a required bs [] in
      let r = get_result a required log in
      (r.met ≡ any_of is_met (get_for_approval a log))
      × (r.votes_for ≤ required)
      × Distinct (voters (get_for_approval a log))
      × (r.votes_for + r.votes_against ≡ length (voters (get_for_approval a log)))
unfolding get_result
get_result-cast_all a required bs h =
    let es = get_for_approval a (cast_all a required bs []) in
    let t = cast_all-IsTally a required bs h in
    elim (Bool-cases (any_of is_met es)) [
      | inl m ↦ let e = t.settled m in (rw m (ground arith), ground arith, t.once, t.total)
      | inr n ↦ let e = t.pending n in (rw n (ground arith), ground arith, t.once, t.total)
    ]
