-- ===== src/Governance/Glob/Plain.antt =====
-- Patterns of plain text, with a star at the end or without one.
use the_dashboard.Common.{
  ℕ, String, Bool, true, false, not, ◌||◌, ◌&&◌, List, [], ◌∷◌, ◌++◌, map, ◌≡◌, ◌↔◌, ◌⊎◌, inl, inr,
  refl, arith, ◌==◌, codes, ap,
}
use the_dashboard.Governance.Glob.{
  literal, Item, one, accepts, at_some_suffix, matches, item_at, compile, fnmatch,
}

abbrev is_special : ℕ → Bool
is_special c = c == b'*' || c == b'?' || c == b'['

abbrev pub is_plain : List ℕ → Bool
is_plain [] = true
is_plain (c ∷ p) = not (is_special c) && is_plain p

abbrev letters : List ℕ → List Item
letters = map (λ c. one (literal c))

compile-append : (p q : List ℕ) → is_plain p ≡ true → compile 0 (p ++ q) ≡ letters p ++ compile 0 q
unfolding compile
compile-append [] q h = refl
compile-append (c ∷ p) q h =
    let i : item_at c (p ++ q) ≡ (one (literal c), 0) = ground arith in
    rw i (ap (λ t. one (literal c) ∷ t) (compile-append p q (ground arith)))

-- Plain text is matched character by character.
matches-letters :
    (p : List ℕ) (items : List Item) (s : List ℕ)
    → (matches (letters p ++ items) s ≡ true)
      ↔ ((rest : List ℕ) × (s ≡ p ++ rest) × (matches items rest ≡ true))
unfolding matches accepts
matches-letters [] items s = (λ h. (s, refl, h), λ (rest, e, m). rw e m)
matches-letters (c ∷ p) items [] = (λ h. cc, λ (rest, e, m). cc)
matches-letters (c ∷ p) items (d ∷ s) = (
  λ h. let (rest, e, m) = (matches-letters p items s).0 (ground arith) in (rest, ground arith, m),
  λ (rest, e, m).
      let t : s ≡ p ++ rest = cc in
      let k = (matches-letters p items s).1 (rest, t, m) in ground arith,
)

abbrev pub star_if : Bool → List ℕ
star_if true = b'*' ∷ []
star_if false = []

at_some_suffix-empty : (s : List ℕ) → at_some_suffix (matches []) s ≡ true
unfolding matches
at_some_suffix-empty [] = refl
at_some_suffix-empty (c ∷ s) = at_some_suffix-empty s

matches-end :
    (is_open : Bool) (rest : List ℕ)
    → (matches (compile 0 (star_if is_open)) rest ≡ true) ↔ ((is_open ≡ true) ⊎ (rest ≡ []))
unfolding matches compile
matches-end true rest = (λ h. inl refl, λ h. at_some_suffix-empty rest)
matches-end false [] = (λ h. inr refl, λ h. refl)
matches-end false (c ∷ rest) = (λ h. cc, λ h. elim h [ inl t ↦ cc | inr e ↦ cc ])

-- A pattern of plain text, without `*`, `?` and `[`, matches exactly its own text; with a star
-- after the text it matches exactly the names that begin with it.
pub fnmatch-plain :
    (name pat : String) (text : List ℕ) (is_open : Bool)
    → codes pat ≡ text ++ star_if is_open
    → is_plain text ≡ true
    → (fnmatch name pat ≡ true)
      ↔ ((rest : List ℕ) × (codes name ≡ text ++ rest) × ((is_open ≡ true) ⊎ (rest ≡ [])))
unfolding fnmatch
fnmatch-plain name pat text is_open e plain =
    let c = compile-append text (star_if is_open) plain in
    let m = matches-letters text (compile 0 (star_if is_open)) (codes name) in
    rw e (
      rw c (
        λ h. let (rest, s, k) = m.0 h in (rest, s, (matches-end is_open rest).0 k),
        λ (rest, s, k). m.1 (rest, s, (matches-end is_open rest).1 k),
      ))
