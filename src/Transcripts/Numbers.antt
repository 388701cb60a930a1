-- ===== src/Transcripts/Numbers.antt =====
-- The numbers that backend/transcripts gives to the rows under a key.
use the_dashboard.Common.{
  ℕ, zero, suc, false, List, [], ◌∷◌, ◌++◌, ◌==◌, ◌≡◌, ◌≤◌, refl, ap, ◌∙◌, arith, Bool-cases, inl,
  inr, any_of-append, select, select-append, length, length-append, append-nil, nat_elem, map,
  if◌then◌else◌,
}
use the_dashboard.Transcripts.Tables.{next_number}

-- 0, 1, …, n - 1
abbrev pub upto : ℕ → List ℕ
upto zero = []
upto (suc n) = upto n ++ n ∷ []

next_number-snoc : (xs : List ℕ) (y : ℕ) → next_number xs ≤ y → next_number (xs ++ y ∷ []) ≡ suc y
next_number-snoc [] y h = ground arith
next_number-snoc (x ∷ xs) y h = ground (arith, next_number-snoc xs y)

pub next_number-upto : (n : ℕ) → next_number (upto n) ≡ n
next_number-upto zero = refl
next_number-upto (suc n) = let ih = next_number-upto n in next_number-snoc (upto n) n (omega arith)

pub nat_elem-upto : (k n : ℕ) → n ≤ k → nat_elem k (upto n) ≡ false
nat_elem-upto k zero h = refl
nat_elem-upto k (suc n) h =
    let ih = nat_elem-upto k n (omega arith) in
    any_of-append (λ y. k == y) (upto n) (n ∷ []) ∙ ground arith

length-upto : (n : ℕ) → length (upto n) ≡ n
length-upto zero = refl
length-upto (suc n) = length-append (upto n) (n ∷ []) ∙ ground (arith, length-upto n)

pub map-append {ℓ κ} :
    {A : Type ℓ} {B : Type κ} (f : A → B) (xs ys : List A) → map f (xs ++ ys) ≡ map f xs ++ map f ys
map-append f [] ys = refl
map-append f (x ∷ xs) ys = ap (λ zs. f x ∷ zs) (map-append f xs ys)

pub upto-snoc :
    (ns : List ℕ)
    → ns ≡ upto (length ns)
    → ns ++ length ns ∷ [] ≡ upto (length (ns ++ length ns ∷ []))
upto-snoc ns h =
    let l : length (ns ++ length ns ∷ []) ≡ suc (length ns) =
      length-append ns (length ns ∷ []) ∙ omega arith in
    rw l (ap (λ zs. zs ++ length ns ∷ []) h)

module _ {A : Type 0} (key number : A → ℕ) where
  abbrev numbers : ℕ → List A → List ℕ
  numbers t xs = map number (select (λ x. key x == t) xs)

  -- Under each key the rows are numbered from 0 on, in their order.
  abbrev pub AllNumbered : List A → Type 0
  AllNumbered xs = (t : ℕ) → numbers t xs ≡ upto (length (numbers t xs))

  numbers-snoc :
      (t : ℕ) (xs : List A) (x : A)
      → numbers t (xs ++ x ∷ []) ≡ numbers t xs ++ (if key x == t then number x ∷ [] else [])
  numbers-snoc t xs x =
      rw (select-append (λ y. key y == t) xs (x ∷ []))
        (map-append number (select (λ y. key y == t) xs) _ ∙ ground arith)

  next_number-numbers :
      (xs : List A) (t : ℕ) → AllNumbered xs → next_number (numbers t xs) ≡ length (numbers t xs)
  next_number-numbers xs t h = ap next_number (h t) ∙ next_number-upto (length (numbers t xs))

  pub snoc-AllNumbered :
      (xs : List A) (x : A)
      → AllNumbered xs
      → number x ≡ next_number (numbers (key x) xs)
      → AllNumbered (xs ++ x ∷ [])
  snoc-AllNumbered xs x h e t = elim (Bool-cases (key x == t)) [
    | inr other ↦ rw (numbers-snoc t xs x) (rw other (rw (append-nil (numbers t xs)) (h t)))
    | inl own ↦
        let k : key x ≡ t = ground arith in
        let n : number x ≡ length (numbers t xs) =
          e ∙ ap (λ i. next_number (numbers i xs)) k ∙ next_number-numbers xs t h in
        rw (numbers-snoc t xs x) (rw own (rw n (upto-snoc (numbers t xs) (h t))))
  ]
