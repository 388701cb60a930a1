-- ===== src/Governance/Evaluator/Highest.antt =====
-- `max` with a key that may raise (backend/governance/evaluator.py).
use mathlib.Core.List.{Memᴰ}
use the_dashboard.Common.{
  ℕ, List, [], ◌∷◌, map, ◌≡◌, ◌≤◌, ◌⊎◌, inl, inr, refl, sym, subst, ◌∙◌, arith, returned, raised,
  ltb, Bool-cases,
}
use the_dashboard.Governance.Evaluator.{Attempt, max_from, max_by}

abbrev pub mapped : {A B : Type 0} → (A → B) → Attempt A → Attempt B
mapped f (returned a) = returned (f a)
mapped f (raised e) = raised e

pub Attempt-cases :
    {A : Type 0} (r : Attempt A) → ((a : A) × (r ≡ returned a)) ⊎ ((e : _) × (r ≡ raised e))
Attempt-cases (returned a) = inl (a, refl)
Attempt-cases (raised e) = inr (e, refl)

module _ {A : Type 0} (key : A → Attempt ℕ) where
  -- The element has a key, and it is at most `k`.
  abbrev pub HasAtMost : ℕ → A → Type 0
  HasAtMost k x = (j : ℕ) × (key x ≡ returned j) × (j ≤ k)

  abbrev pub IsHighest : List A → Attempt A → Type 0
  IsHighest xs (returned w) =
      Memᴰ w xs × ((k : ℕ) × (key w ≡ returned k) × ((x : A) → Memᴰ x xs → HasAtMost k x))
  IsHighest xs (raised e) = (x : A) × Memᴰ x xs × (key x ≡ raised e)

  abbrev Covered : List A → A → Type 0
  Covered xs y =
      Memᴰ y xs ⊎ ((c : A) × Memᴰ c xs × ((i : ℕ) × (key c ≡ returned i) × HasAtMost i y))

  -- What is left out has a key that is at most that of something that stays.
  widen :
      (xs ys : List A) (r : Attempt A)
      → ((x : A) → Memᴰ x xs → Memᴰ x ys)
      → ((y : A) → Memᴰ y ys → Covered xs y)
      → IsHighest xs r
      → IsHighest ys r
  widen xs ys (raised e) sub cover (x, m, h) = (x, sub x m, h)
  widen xs ys (returned w) sub cover (m, (k, h, all)) = (
    sub w m,
    (
      k,
      h,
      λ y n. elim (cover y n) [
        | inl here ↦ all y here
        | inr (c, mc, (i, e, (j, f, le))) ↦
            let (i', e', le') = all c mc in (j, f, omega (arith, le, le', same i i' (sym e ∙ e')))
      ],
    ),
  )
    where
      same : (i j : ℕ) → ◌≡◌ {A = Attempt ℕ} (returned i) (returned j) → i ≡ j
      same i j p = cc

  at_head :
      (P : A → Type 0) (a : A) (bs : List A)
      → P a
      → ((x : A) → Memᴰ x bs → P x)
      → (x : A) → Memᴰ x (a ∷ bs)
      → P x
  at_head P a bs here rest x (Memᴰ.head p) = subst P (sym p) here
  at_head P a bs here rest x (Memᴰ.tail m) = rest x m

  pub max_from-IsHighest :
      (a : A) (best : ℕ) (bs : List A)
      → key a ≡ returned best
      → IsHighest (a ∷ bs) (max_from key a best bs)
  max_from-IsHighest a best [] h =
      let here : HasAtMost best a = (best, h, omega arith) in
      (Memᴰ.head refl, (best, h, at_head (HasAtMost best) a [] here (λ x n. elim n [ ])))
  max_from-IsHighest a best (b ∷ bs) h = elim (Attempt-cases (key b)) [
    | inr (e, f) ↦ rw f (b, Memᴰ.tail (Memᴰ.head refl), f)
    | inl (k, f) ↦ rw f (elim (Bool-cases (ltb best k)) [
      | inl up ↦ rw up (
          widen (b ∷ bs) (a ∷ b ∷ bs) (max_from key b k bs) (λ x m. Memᴰ.tail m)
            (at_head (Covered (b ∷ bs)) a (b ∷ bs)
              (inr (b, Memᴰ.head refl, (k, f, (best, h, ground arith)))) (λ x m. inl m))
            (max_from-IsHighest b k bs f))
      | inr down ↦ rw down (
          widen (a ∷ bs) (a ∷ b ∷ bs) (max_from key a best bs)
            (at_head (λ x. Memᴰ x (a ∷ b ∷ bs)) a bs (Memᴰ.head refl)
              (λ x m. Memᴰ.tail (Memᴰ.tail m)))
            (at_head (Covered (a ∷ bs)) a (b ∷ bs) (inl (Memᴰ.head refl)) (
              at_head (Covered (a ∷ bs)) b bs
                (inr (a, Memᴰ.head refl, (best, h, (k, f, ground arith))))
                (λ x m. inl (Memᴰ.tail m))))
            (max_from-IsHighest a best bs h))
    ])
  ]

  pub max_by-IsHighest : (a : A) (bs : List A) → IsHighest (a ∷ bs) (max_by key a bs)
  max_by-IsHighest a bs = elim (Attempt-cases (key a)) [
    | inr (e, f) ↦ rw f (a, Memᴰ.head refl, f)
    | inl (k, f) ↦ rw f (max_from-IsHighest a k bs f)
  ]

-- The maximum of the keys' arguments is the argument of the maximum.
module _ {A B : Type 0} (key : B → Attempt ℕ) (f : A → B) where
  max_from-map :
      (a : A) (best : ℕ) (bs : List A)
      → max_from key (f a) best (map f bs) ≡ mapped f (max_from (λ x. key (f x)) a best bs)
  max_from-map a best [] = refl
  max_from-map a best (b ∷ bs) = elim (Attempt-cases (key (f b))) [
    | inr (e, h) ↦ rw h refl
    | inl (k, h) ↦ rw h (elim (Bool-cases (ltb best k)) [
      | inl up ↦ rw up (max_from-map b k bs)
      | inr down ↦ rw down (max_from-map a best bs)
    ])
  ]

  pub max_by-map :
      (a : A) (bs : List A) → max_by key (f a) (map f bs) ≡ mapped f (max_by (λ x. key (f x)) a bs)
  max_by-map a bs = elim (Attempt-cases (key (f a))) [
    | inr (e, h) ↦ rw h refl
    | inl (k, h) ↦ rw h (max_from-map a k bs)
  ]
