-- ===== src/Context/Window/Counts.antt =====
-- Sums and counts over the sorted, selected and truncated items of backend/context/window.py.
use the_dashboard.Common.{
  ℕ, suc, Bool, not, List, [], ◌∷◌, ◌++◌, ◌+◌, ◌-◌, ◌≡◌, ◌≤◌, refl, ap, ◌∙◌, arith, ltb, Bool-cases,
  inl, inr, select, length, insert, sorted,
}
use the_dashboard.Context.Window.{ContextItem, total_of, drop_until}

pub total_of-insert :
    (le : ContextItem → ContextItem → Bool) (x : ContextItem) (ys : List ContextItem)
    → total_of (insert le x ys) ≡ x.token_count + total_of ys
total_of-insert le x [] = refl
total_of-insert le x (y ∷ ys) = ground (arith, total_of-insert le x ys)

pub total_of-sorted :
    (le : ContextItem → ContextItem → Bool) (xs : List ContextItem)
    → total_of (sorted le xs) ≡ total_of xs
total_of-sorted le [] = refl
total_of-sorted le (x ∷ xs) =
    total_of-insert le x (sorted le xs) ∙ omega (arith, total_of-sorted le xs)

pub total_of-append : (xs ys : List ContextItem) → total_of (xs ++ ys) ≡ total_of xs + total_of ys
total_of-append [] ys = omega arith
total_of-append (x ∷ xs) ys = omega (arith, total_of-append xs ys)

module _ (le : ContextItem → ContextItem → Bool) (test : ContextItem → Bool) where
  total_of-select-insert :
      (x : ContextItem) (ys : List ContextItem)
      → total_of (select test (insert le x ys)) ≡ total_of (select test (x ∷ ys))
  total_of-select-insert x [] = refl
  total_of-select-insert x (y ∷ ys) = ground (arith, total_of-select-insert x ys)

  pub total_of-select-sorted :
      (xs : List ContextItem) → total_of (select test (sorted le xs)) ≡ total_of (select test xs)
  total_of-select-sorted [] = refl
  total_of-select-sorted (x ∷ xs) =
      total_of-select-insert x (sorted le xs) ∙ ground (arith, total_of-select-sorted xs)

module _ {ℓ} {A : Type ℓ} (le : A → A → Bool) (test : A → Bool) where
  pub count-insert :
      (x : A) (ys : List A) → length (select test (insert le x ys)) ≡ length (select test (x ∷ ys))
  count-insert x [] = refl
  count-insert x (y ∷ ys) = ground (arith, count-insert x ys)

  pub count-sorted : (xs : List A) → length (select test (sorted le xs)) ≡ length (select test xs)
  count-sorted [] = refl
  count-sorted (x ∷ xs) = count-insert x (sorted le xs) ∙ ground (arith, count-sorted xs)

module _ {ℓ} {A : Type ℓ} (le : A → A → Bool) where
  pub length-insert : (x : A) (ys : List A) → length (insert le x ys) ≡ suc (length ys)
  length-insert x [] = refl
  length-insert x (y ∷ ys) = ground (arith, length-insert x ys)

  pub length-sorted : (xs : List A) → length (sorted le xs) ≡ length xs
  length-sorted [] = refl
  length-sorted (x ∷ xs) = length-insert x (sorted le xs) ∙ ap suc (length-sorted xs)

module _ (test : ContextItem → Bool) where
  pub total_of-split :
      (xs : List ContextItem)
      → total_of (select test xs) + total_of (select (λ x. not (test x)) xs) ≡ total_of xs
  total_of-split [] = omega arith
  total_of-split (x ∷ xs) = ground (arith, total_of-split xs)

  pub length-split :
      (xs : List ContextItem)
      → length (select test xs) + length (select (λ x. not (test x)) xs) ≡ length xs
  length-split [] = omega arith
  length-split (x ∷ xs) = ground (arith, length-split xs)

  pub none_left : (xs : List ContextItem) → length (select test (select (λ x. not (test x)) xs)) ≡ 0
  none_left [] = refl
  none_left (x ∷ xs) = ground (arith, none_left xs)

  pub select-twice : (xs : List ContextItem) → select test (select test xs) ≡ select test xs
  select-twice [] = refl
  select-twice (x ∷ xs) = ground (arith, select-twice xs)

-- The loop stops within the budget, or without an item.
pub drop_until-total :
    (budget fixed total : ℕ) (xs : List ContextItem)
    → total ≡ fixed + total_of xs
    → fixed ≤ budget
    → fixed + total_of (drop_until budget total xs).0 ≤ budget
unfolding drop_until
drop_until-total budget fixed total [] e h = omega arith
drop_until-total budget fixed total (x ∷ xs) e h =
    let ih = drop_until-total budget fixed (total - x.token_count) xs (omega arith) h in
    elim (Bool-cases (ltb budget total)) [
      | inl over ↦ rw over ih
      | inr fits ↦ let le : total ≤ budget = ground arith in rw fits (omega arith)
    ]

pub drop_until-length :
    (budget total : ℕ) (xs : List ContextItem)
    → let kept = drop_until budget total xs in length kept.0 + kept.1 ≡ length xs
unfolding drop_until
drop_until-length budget total [] = omega arith
drop_until-length budget total (x ∷ xs) =
    let ih = drop_until-length budget (total - x.token_count) xs in
    elim (Bool-cases (ltb budget total)) [
      | inl over ↦ rw over (omega arith)
      | inr fits ↦ rw fits (omega arith)
    ]

pub drop_until-count :
    (test : ContextItem → Bool) (budget total : ℕ) (xs : List ContextItem)
    → length (select test (drop_until budget total xs).0) ≤ length (select test xs)
unfolding drop_until
drop_until-count test budget total [] = omega arith
drop_until-count test budget total (x ∷ xs) =
    let ih = drop_until-count test budget (total - x.token_count) xs in
    elim (Bool-cases (ltb budget total)) [
      | inl over ↦ rw over (ground (arith, ih))
      | inr fits ↦ rw fits (omega arith)
    ]
