-- ===== src/Governance/Quorum/Ballots.antt =====
-- The events of one approval (backend/governance/quorum.py) as a tally.
use the_dashboard.Common.{
  ℕ, String, Bool, true, false, Option, none, some, List, [], ◌∷◌, ◌++◌, ◌+◌, ◌<◌, ◌≡◌, refl, ◌∙◌,
  arith, ◌==◌, leb, any_of, any_of-append, collect, collect-append, length, length-append,
  append-nil, nat_elem,
}
use the_dashboard.Governance.Events.{EventBody, quorum_vote_cast, GovernanceEvent, Log, event}
use the_dashboard.Governance.Quorum.{is_met, is_vote_of, no_counts, count_event, count_events}
use the_dashboard.Governance.Quorum.Tally.{count_events-snoc}

abbrev pub voter_of : GovernanceEvent → Option ℕ
voter_of e = elim e.body [ quorum_vote_cast voter vote notes time ↦ some voter | _ ↦ none ]

abbrev pub voters : Log → List ℕ
voters = collect voter_of

-- No number stands twice in the list.
abbrev pub Distinct : List ℕ → Type 0
Distinct [] = Unit
Distinct (x ∷ xs) = (nat_elem x xs ≡ false) × Distinct xs

-- The events of an approval that needs so many votes.
pub record IsTally (required : ℕ) (es : Log) : Type 0 where
  pub pending : any_of is_met es ≡ false → (count_events no_counts es).votes_for < required
  pub settled : any_of is_met es ≡ true → (count_events no_counts es).votes_for ≡ required
  pub once : Distinct (voters es)
  pub total :
      (count_events no_counts es).votes_for + (count_events no_counts es).votes_against
      ≡ length (voters es)

Distinct-snoc :
    (x : ℕ) (xs : List ℕ) → Distinct xs → nat_elem x xs ≡ false → Distinct (xs ++ x ∷ [])
Distinct-snoc x [] d n = (refl, tt)
Distinct-snoc x (y ∷ ys) d n =
    (any_of-append (λ z. y == z) ys (x ∷ []) ∙ ground arith, Distinct-snoc x ys d.1 (ground arith))

nat_elem-voters : (v : ℕ) (es : Log) → nat_elem v (voters es) ≡ any_of (is_vote_of v) es
nat_elem-voters v [] = refl
nat_elem-voters v (e ∷ es) = ground (arith, nat_elem-voters v es)

-- A counted vote.
module _ {required : ℕ} (es : Log) (t : IsTally required es) (unmet : any_of is_met es ≡ false)
    (voter : ℕ) (vote : Bool) (notes : Option String) (now : ℕ) (a actor : Option ℕ) where
  abbrev ballot : GovernanceEvent
  ballot = event (quorum_vote_cast voter vote notes now) a actor

  voters-ballot : voters (es ++ ballot ∷ []) ≡ voters es ++ voter ∷ []
  voters-ballot = collect-append voter_of es (ballot ∷ [])

  Distinct-ballot : any_of (is_vote_of voter) es ≡ false → Distinct (voters (es ++ ballot ∷ []))
  Distinct-ballot new =
      rw voters-ballot (Distinct-snoc voter (voters es) t.once (nat_elem-voters voter es ∙ new))

  length-ballot : length (voters (es ++ ballot ∷ [])) ≡ length (voters es) + 1
  length-ballot = rw voters-ballot (length-append (voters es) (voter ∷ []))

  is_met-ballot : any_of is_met (es ++ ballot ∷ []) ≡ false
  is_met-ballot = any_of-append is_met es (ballot ∷ []) ∙ ground arith

  -- The vote leaves the approval open.
  pub IsTally-ballot :
      any_of (is_vote_of voter) es ≡ false
      → leb required (count_event (count_events no_counts es) ballot).votes_for ≡ false
      → IsTally required (es ++ ballot ∷ [])
  IsTally-ballot new few =
      let c = count_events-snoc no_counts es ballot in
      record {
        pending = λ _. rw c (ground arith);
        settled = λ m. absurd (let f = is_met-ballot in cc);
        once = Distinct-ballot new;
        total = rw c (ground (arith, t.total, length-ballot));
      }

  -- The vote meets the number required, and a `quorum_met` event follows.
  pub IsTally-ballot_met :
      (x y z : ℕ) (b other : Option ℕ)
      → any_of (is_vote_of voter) es ≡ false
      → leb required (count_event (count_events no_counts es) ballot).votes_for ≡ true
      → IsTally required ((es ++ ballot ∷ []) ++ event (EventBody.quorum_met x y z) b other ∷ [])
  IsTally-ballot_met x y z b other new enough =
      let met_event = event (EventBody.quorum_met x y z) b other in
      let c = count_events-snoc no_counts es ballot in
      let d = count_events-snoc no_counts (es ++ ballot ∷ []) met_event in
      let v : voters ((es ++ ballot ∷ []) ++ met_event ∷ []) ≡ voters (es ++ ballot ∷ []) =
        collect-append voter_of (es ++ ballot ∷ []) (met_event ∷ []) ∙ append-nil _ in
      let p = t.pending unmet in
      record {
        pending = λ o. absurd (
            let f = any_of-append is_met (es ++ ballot ∷ []) (met_event ∷ []) in ground (arith, f));
        settled = λ m. rw d (rw c (ground arith));
        once = rw v (Distinct-ballot new);
        total = rw v (rw d (rw c (ground (arith, t.total, length-ballot))));
      }
