-- ===== src/Governance/Evaluator/Patterns.antt =====
-- The patterns that the docstring of backend/governance/evaluator.py describes: plain text, and plain
-- text before a star.
use the_dashboard.Common.{
  ℕ, String, Bool, true, List, [], ◌∷◌, ◌++◌, ◌≡◌, ◌↔◌, ◌⊎◌, inl, inr, refl, codes, Bool-cases,
}
use the_dashboard.Governance.Glob.{fnmatch}
use the_dashboard.Governance.Glob.Plain.{is_plain, star_if, fnmatch-plain}
use the_dashboard.Governance.Evaluator.{matches_any}

-- What such a pattern matches: its own text, and with a star what begins with it.
abbrev pub Begins : (action text : List ℕ) (is_open : Bool) → Type 0
Begins action text is_open =
    (rest : List ℕ) × (action ≡ text ++ rest) × ((is_open ≡ true) ⊎ (rest ≡ []))

-- An action matches a list that begins with a pattern of plain text, without `*`, `?` and `[`, if it
-- is that text or matches one of the other patterns; with a star after the text, if it begins with
-- the text or matches another pattern; and in no other case.
pub matches_any-plain :
    (action pat : String) (text : List ℕ) (is_open : Bool) (patterns : List String)
    → codes pat ≡ text ++ star_if is_open
    → is_plain text ≡ true
    → (matches_any action (pat ∷ patterns) ≡ true)
      ↔ (Begins (codes action) text is_open ⊎ (matches_any action patterns ≡ true))
matches_any-plain action pat text is_open patterns e plain =
    let m = fnmatch-plain action pat text is_open e plain in
    elim (Bool-cases (fnmatch action pat)) [
      | inl t ↦ (λ h. inl (m.0 t), λ h. rw t refl)
      | inr f ↦ (
        λ h. inr (rw f at h),
        λ h. elim h [ inl b ↦ (let t = m.1 b in rw t refl) | inr r ↦ rw f r ],
      )
    ]
