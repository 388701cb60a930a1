-- ===== src/Common/Sorting.antt =====
-- `sorted(xs, key=…)`, which is stable, and how often a value stands in a list.
use Prim.Native.Nat.{ℕ, suc, ◌+◌, ◌≤◌}
use mathlib.Core.Path.{◌≡◌, refl, ◌∙◌}
use mathlib.Core.Bool.{Bool, false}
use mathlib.Core.List.{List, [], ◌∷◌, ◌++◌, map}
use native.Mathlib.Omega.{arith}
use the_dashboard.Common.Tests.{◌==◌, if◌then◌else◌}
use the_dashboard.Common.Lists.{length, nat_elem}
use the_dashboard.Common.Tables.{total}

-- `le x y` says that the key of `x` is at most that of `y`.
abbrev pub insert {ℓ} : {A : Type ℓ} → (A → A → Bool) → A → List A → List A
insert le x [] = x ∷ []
insert le x (y ∷ ys) = if le x y then x ∷ y ∷ ys else y ∷ insert le x ys

abbrev pub sorted {ℓ} : {A : Type ℓ} → (A → A → Bool) → List A → List A
sorted le [] = []
sorted le (x ∷ xs) = insert le x (sorted le xs)

module _ {ℓ} {A : Type ℓ} (f : A → ℕ) where
  total-insert :
      (le : A → A → Bool) (x : A) (ys : List A) → total f (insert le x ys) ≡ f x + total f ys
  total-insert le x [] = refl
  total-insert le x (y ∷ ys) = ground (arith, total-insert le x ys)

  pub total-sorted : (le : A → A → Bool) (xs : List A) → total f (sorted le xs) ≡ total f xs
  total-sorted le [] = refl
  total-sorted le (x ∷ xs) = total-insert le x (sorted le xs) ∙ omega (arith, total-sorted le xs)

  pub total-append : (xs ys : List A) → total f (xs ++ ys) ≡ total f xs + total f ys
  total-append [] ys = omega arith
  total-append (x ∷ xs) ys = omega (arith, total-append xs ys)

pub total-map {ℓ κ} :
    {A : Type ℓ} {B : Type κ} (f : B → ℕ) (g : A → B) (xs : List A)
    → total f (map g xs) ≡ total (λ x. f (g x)) xs
total-map f g [] = refl
total-map f g (x ∷ xs) = omega (arith, total-map f g xs)

-- How often a number stands in the list.
abbrev pub occurs : ℕ → List ℕ → ℕ
occurs v = total (λ x. if x == v then 1 else 0)

pub occurs-nat_elem : (v : ℕ) (xs : List ℕ) → nat_elem v xs ≡ false → occurs v xs ≡ 0
occurs-nat_elem v [] h = refl
occurs-nat_elem v (x ∷ xs) h = ground (arith, occurs-nat_elem v xs)

pub nat_elem-occurs : (v : ℕ) (xs : List ℕ) → occurs v xs ≡ 0 → nat_elem v xs ≡ false
nat_elem-occurs v [] h = refl
nat_elem-occurs v (x ∷ xs) h = ground (arith, nat_elem-occurs v xs)

-- The list without the first occurrence of a number.
abbrev pub without : ℕ → List ℕ → List ℕ
without v [] = []
without v (x ∷ xs) = if x == v then xs else x ∷ without v xs

occurs-without :
    (x v : ℕ) (ys : List ℕ)
    → 1 ≤ occurs x ys
    → occurs v ys ≡ occurs v (without x ys) + (if x == v then 1 else 0)
occurs-without x v [] h = absurd (omega arith)
occurs-without x v (y ∷ ys) h = ground (arith, occurs-without x v ys)

length-without : (x : ℕ) (ys : List ℕ) → 1 ≤ occurs x ys → length ys ≡ suc (length (without x ys))
length-without x [] h = absurd (omega arith)
length-without x (y ∷ ys) h = ground (arith, length-without x ys)

-- What is left of a list that holds every number at least as often.
pub occurs-rest :
    (xs ys : List ℕ)
    → ((v : ℕ) → occurs v xs ≤ occurs v ys)
    → (rest : List ℕ) × ((v : ℕ) → occurs v ys ≡ occurs v xs + occurs v rest)
      × (length ys ≡ length xs + length rest)
occurs-rest [] ys h = (ys, λ v. omega arith, omega arith)
occurs-rest (x ∷ xs) ys h =
    let here : 1 ≤ occurs x ys = ground (arith, h x) in
    let (rest, counts, lengths) =
      occurs-rest xs (without x ys) (λ v. ground (arith, h v, occurs-without x v ys here)) in
    (
      rest,
      λ v. ground (arith, counts v, occurs-without x v ys here),
      omega (arith, length-without x ys here),
    )
