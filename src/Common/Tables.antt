-- ===== src/Common/Tables.antt =====
-- Tables of rows with a primary key. A table lists its rows in the order of their creation, which
-- is the order that `ORDER BY created_at` gives: a row is stamped when it is inserted.
use Prim.Native.Nat.{ℕ, ◌+◌}
use mathlib.Core.Path.{◌≡◌, refl, sym, subst, ◌∙◌}
use mathlib.Core.Logic.{◌≢◌, ◌⊎◌, inl, inr}
use native.Mathlib.Decide.{ℕ_discrete}
use mathlib.Core.Bool.{Bool, true, false, ◌||◌}
use mathlib.Core.Option.{Option, none, some}
use mathlib.Core.List.{List, [], ◌∷◌, ◌++◌, map}
use native.Mathlib.Omega.{arith}
use the_dashboard.Common.Tests.{◌==◌, if◌then◌else◌}
use the_dashboard.Common.Lists.{any_of}

module _ {ℓ} {A : Type ℓ} where
  -- `SELECT … WHERE test`, where at most one row fits
  abbrev pub find_by : (A → Bool) → List A → Option A
  find_by test [] = none
  find_by test (r ∷ rs) = if test r then some r else find_by test rs

  -- the last row that fits: `ORDER BY created_at DESC … first()`
  abbrev pub find_last : (A → Bool) → List A → Option A
  find_last test [] = none
  find_last test (r ∷ rs) = elim (find_last test rs) [
    | some x ↦ some x
    | none ↦ if test r then some r else none
  ]

  pub find_by-snoc_hit :
      (test : A → Bool) (rs : List A) (r : A)
      → find_by test rs ≡ none
      → test r ≡ true
      → find_by test (rs ++ r ∷ []) ≡ some r
  find_by-snoc_hit test [] r h t = ground arith
  find_by-snoc_hit test (x ∷ rs) r h t = ground (arith, find_by-snoc_hit test rs r)

  pub find_by-snoc_old :
      (test : A → Bool) (rs : List A) (r x : A)
      → find_by test rs ≡ some x
      → find_by test (rs ++ r ∷ []) ≡ some x
  find_by-snoc_old test [] r x h = ground arith
  find_by-snoc_old test (y ∷ rs) r x h = ground (arith, find_by-snoc_old test rs r x)

  pub find_by-snoc_miss :
      (test : A → Bool) (rs : List A) (r : A)
      → test r ≡ false
      → find_by test (rs ++ r ∷ []) ≡ find_by test rs
  find_by-snoc_miss test [] r t = ground arith
  find_by-snoc_miss test (x ∷ rs) r t = ground (arith, find_by-snoc_miss test rs r t)

  pub find_last-snoc_hit :
      (test : A → Bool) (rs : List A) (r : A)
      → test r ≡ true
      → find_last test (rs ++ r ∷ []) ≡ some r
  find_last-snoc_hit test [] r t = ground arith
  find_last-snoc_hit test (x ∷ rs) r t = ground (arith, find_last-snoc_hit test rs r t)

  pub find_last-snoc_miss :
      (test : A → Bool) (rs : List A) (r : A)
      → test r ≡ false
      → find_last test (rs ++ r ∷ []) ≡ find_last test rs
  find_last-snoc_miss test [] r t = ground arith
  find_last-snoc_miss test (x ∷ rs) r t = ground (arith, find_last-snoc_miss test rs r t)

pub some_inj {ℓ} : {A : Type ℓ} {a b : A} → some a ≡ some b → a ≡ b
some_inj p = cc

module _ {ℓ} {A : Type ℓ} (key : A → ℕ) where
  -- `SELECT … WHERE id = k`
  abbrev pub get_row : ℕ → List A → Option A
  get_row k [] = none
  get_row k (r ∷ rs) = if key r == k then some r else get_row k rs

  -- The flush of a changed row.
  abbrev pub put_row : A → List A → List A
  put_row v [] = []
  put_row v (r ∷ rs) = if key r == key v then v ∷ rs else r ∷ put_row v rs

  pub get_row-key : (k : ℕ) (rs : List A) (r : A) → get_row k rs ≡ some r → key r ≡ k
  get_row-key k [] r h = ground arith
  get_row-key k (x ∷ rs) r h = ground (arith, get_row-key k rs r)

  pub get_row-put_row_self :
      (v : A) (rs : List A) (r : A)
      → get_row (key v) rs ≡ some r
      → get_row (key v) (put_row v rs) ≡ some v
  get_row-put_row_self v [] r h = ground arith
  get_row-put_row_self v (x ∷ rs) r h = ground (arith, get_row-put_row_self v rs r)

  pub get_row-put_row_ne :
      (k : ℕ) (v : A) (rs : List A) → key v ≢ k → get_row k (put_row v rs) ≡ get_row k rs
  get_row-put_row_ne k v [] h = refl
  get_row-put_row_ne k v (x ∷ rs) h = ground (arith, get_row-put_row_ne k v rs h)

  pub get_row-snoc_ne :
      (k : ℕ) (rs : List A) (v : A) → key v ≢ k → get_row k (rs ++ v ∷ []) ≡ get_row k rs
  get_row-snoc_ne k [] v h = ground arith
  get_row-snoc_ne k (x ∷ rs) v h = ground (arith, get_row-snoc_ne k rs v h)

  pub get_row-snoc_old :
      (k : ℕ) (rs : List A) (v r : A) → get_row k rs ≡ some r → get_row k (rs ++ v ∷ []) ≡ some r
  get_row-snoc_old k [] v r h = ground arith
  get_row-snoc_old k (x ∷ rs) v r h = ground (arith, get_row-snoc_old k rs v r)

  pub get_row-snoc_self :
      (rs : List A) (v : A) → get_row (key v) rs ≡ none → get_row (key v) (rs ++ v ∷ []) ≡ some v
  get_row-snoc_self [] v h = ground arith
  get_row-snoc_self (x ∷ rs) v h = ground (arith, get_row-snoc_self rs v)

  -- A table in which no row has the key, whatever else is asked of the rows.
  pub get_row-unkeyed :
      (k : ℕ) (rs : List A) → any_of (λ r. key r == k) rs ≡ false → get_row k rs ≡ none
  get_row-unkeyed k [] h = refl
  get_row-unkeyed k (x ∷ rs) h = ground (arith, get_row-unkeyed k rs)

  pub get_row-unkeyed_or :
      (k : ℕ) (other : A → Bool) (rs : List A)
      → any_of (λ r. key r == k || other r) rs ≡ false
      → get_row k rs ≡ none
  get_row-unkeyed_or k other [] h = refl
  get_row-unkeyed_or k other (x ∷ rs) h = ground (arith, get_row-unkeyed_or k other rs)

  -- Where a row of a changed table comes from.
  pub get_row-put_row_cases :
      (k : ℕ) (v : A) (rs : List A) (old x : A)
      → get_row (key v) rs ≡ some old
      → get_row k (put_row v rs) ≡ some x
      → ((x ≡ v) × (key v ≡ k)) ⊎ ((get_row k rs ≡ some x) × (key v ≢ k))
  get_row-put_row_cases k v rs old x o h = elim (ℕ_discrete (key v) k) [
    | yes p ↦
        let w = get_row-put_row_self v rs old o in
        let w' : get_row k (put_row v rs) ≡ some v =
          subst (λ i. get_row i (put_row v rs) ≡ some v) p w in
        inl (some_inj (sym h ∙ w'), p)
    | no n ↦ inr (sym (get_row-put_row_ne k v rs n) ∙ h, n)
  ]

  pub get_row-put_row-none :
      (k : ℕ) (v : A) (rs : List A) → get_row k (put_row v rs) ≡ none → get_row k rs ≡ none
  get_row-put_row-none k v [] h = refl
  get_row-put_row-none k v (x ∷ rs) h = ground (arith, get_row-put_row-none k v rs)

  pub get_row-snoc_cases :
      (k : ℕ) (v : A) (rs : List A) (x : A)
      → get_row k (rs ++ v ∷ []) ≡ some x
      → (get_row k rs ≡ some x) ⊎ ((get_row k rs ≡ none) × (key v ≡ k) × (x ≡ v))
  get_row-snoc_cases k v [] x h = inr (ground arith)
  get_row-snoc_cases k v (y ∷ rs) x h = elim (ℕ_discrete (key y) k) [
    | yes p ↦ inl (ground arith)
    | no n ↦ ground (arith, get_row-snoc_cases k v rs x)
  ]

  pub get_row-snoc-none :
      (k : ℕ) (v : A) (rs : List A)
      → get_row k (rs ++ v ∷ []) ≡ none
      → (get_row k rs ≡ none) × (key v ≢ k)
  get_row-snoc-none k v [] h = (refl, λ p. ground arith)
  get_row-snoc-none k v (y ∷ rs) h = ground (arith, get_row-snoc-none k v rs)

-- The sum of a quantity over the rows.
module _ {ℓ} {A : Type ℓ} (f : A → ℕ) where
  abbrev pub total : List A → ℕ
  total [] = 0
  total (r ∷ rs) = f r + total rs

  pub total-snoc : (rs : List A) (v : A) → total (rs ++ v ∷ []) ≡ total rs + f v
  total-snoc [] v = omega arith
  total-snoc (r ∷ rs) v = omega (arith, total-snoc rs v)

  pub total-put_row :
      (key : A → ℕ) (v : A) (rs : List A) (old : A)
      → get_row key (key v) rs ≡ some old
      → total (put_row key v rs) + f old ≡ total rs + f v
  total-put_row key v [] old h = ground arith
  total-put_row key v (r ∷ rs) old h = ground (arith, total-put_row key v rs old)

module _ {ℓ} {A : Type ℓ} (key : A → ℕ) where
  pub any_of-put_row :
      (test : A → Bool) (v : A) (rs : List A) (old : A)
      → get_row key (key v) rs ≡ some old
      → test v ≡ test old
      → any_of test (put_row key v rs) ≡ any_of test rs
  any_of-put_row test v [] old h e = refl
  any_of-put_row test v (r ∷ rs) old h e = ground (arith, any_of-put_row test v rs old)

  -- A change of every row that keeps its key.
  pub get_row-map :
      (g : A → A) (k : ℕ) (rs : List A) (y : A)
      → ((x : A) → key (g x) ≡ key x)
      → get_row key k (map g rs) ≡ some y
      → (x : A) × (get_row key k rs ≡ some x) × (y ≡ g x)
  get_row-map g k [] y same h = absurd (ground arith)
  get_row-map g k (x ∷ rs) y same h = elim (ℕ_discrete (key x) k) [
    | yes p ↦ (x, ground arith, ground (arith, same x))
    | no n ↦
        let (z, at, e) = get_row-map g k rs y same (ground (arith, same x)) in (z, ground arith, e)
  ]

  pub get_row-map-none :
      (g : A → A) (k : ℕ) (rs : List A)
      → ((x : A) → key (g x) ≡ key x)
      → get_row key k (map g rs) ≡ none
      → get_row key k rs ≡ none
  get_row-map-none g k [] same h = refl
  get_row-map-none g k (x ∷ rs) same h = ground (arith, same x, get_row-map-none g k rs same)
