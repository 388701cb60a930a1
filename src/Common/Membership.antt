-- ===== src/Common/Membership.antt =====
-- Membership in a list against the Boolean searches.
use Prim.Native.String.{String}
use mathlib.Core.Path.{◌≡◌, refl, sym, ap, subst}
use mathlib.Core.Logic.{◌⊎◌, inl, inr}
use mathlib.Core.Bool.{Bool, true}
use mathlib.Core.Option.{Option, none, some}
use mathlib.Core.List.{List, [], ◌∷◌, Memᴰ}
use native.Mathlib.Omega.{arith}
use the_dashboard.Common.Tests.{Bool-cases, str_eq, eq_iff}
use the_dashboard.Common.Lists.{any_of, cons_some, collect, str_elem}

module _ {ℓ} {A : Type ℓ} where
  -- A search finds an element exactly when there is one.
  pub any_of-mem :
      (test : A → Bool) (xs : List A)
      → any_of test xs ≡ true
      → (x : A) × Memᴰ x xs × (test x ≡ true)
  any_of-mem test [] h = cc
  any_of-mem test (x ∷ xs) h = elim (Bool-cases (test x)) [
    | inl t ↦ (x, Memᴰ.head refl, t)
    | inr f ↦ let (y, m, t) = any_of-mem test xs (rw f at h) in (y, Memᴰ.tail m, t)
  ]

  pub any_of_mem :
      (test : A → Bool) (x : A) (xs : List A) → Memᴰ x xs → test x ≡ true → any_of test xs ≡ true
  any_of_mem test x [] m t = elim m [ ]
  any_of_mem test x (y ∷ ys) (Memᴰ.head p) t = let e : test y ≡ true = rw (← p) t in rw e
  any_of_mem test x (y ∷ ys) (Memᴰ.tail m) t = ground (arith, any_of_mem test x ys m t)

mem-cons_some {ℓ} :
    {A : Type ℓ} (y : A) (o : Option A) (ys : List A)
    → Memᴰ y (cons_some o ys)
    → (o ≡ some y) ⊎ Memᴰ y ys
mem-cons_some y none ys m = inr m
mem-cons_some y (some z) ys (Memᴰ.head p) = inl (ap some (sym p))
mem-cons_some y (some z) ys (Memᴰ.tail m) = inr m

mem-cons_some_tail {ℓ} :
    {A : Type ℓ} (y : A) (o : Option A) (ys : List A) → Memᴰ y ys → Memᴰ y (cons_some o ys)
mem-cons_some_tail y none ys m = m
mem-cons_some_tail y (some z) ys m = Memᴰ.tail m

module _ {ℓ κ} {A : Type ℓ} {B : Type κ} (f : A → Option B) (y : B) where
  pub mem-collect : (xs : List A) → Memᴰ y (collect f xs) → (x : A) × Memᴰ x xs × (f x ≡ some y)
  mem-collect [] m = elim m [ ]
  mem-collect (x ∷ xs) m = elim (mem-cons_some y (f x) (collect f xs) m) [
    | inl e ↦ (x, Memᴰ.head refl, e)
    | inr t ↦ let (z, k, e) = mem-collect xs t in (z, Memᴰ.tail k, e)
  ]

  pub mem-collect_of_mem : (x : A) (xs : List A) → Memᴰ x xs → f x ≡ some y → Memᴰ y (collect f xs)
  mem-collect_of_mem x [] m e = elim m [ ]
  mem-collect_of_mem x (z ∷ xs) (Memᴰ.head p) e =
      let q : f z ≡ some y = rw (← p) e in rw q (Memᴰ.head refl)
  mem-collect_of_mem x (z ∷ xs) (Memᴰ.tail m) e =
      mem-cons_some_tail y (f z) (collect f xs) (mem-collect_of_mem x xs m e)

-- `x in xs`, for texts.
pub str_elem-mem : (x : String) (xs : List String) → str_elem x xs ≡ true → Memᴰ x xs
str_elem-mem x xs h =
    let (y, m, e) = any_of-mem (str_eq x) xs h in
    let p : x ≡ y = (eq_iff x y).0 e in subst (λ z. Memᴰ z xs) (sym p) m

pub str_elem_of_mem : (x : String) (xs : List String) → Memᴰ x xs → str_elem x xs ≡ true
str_elem_of_mem x xs m = any_of_mem (str_eq x) x xs m ((eq_iff x x).1 refl)
