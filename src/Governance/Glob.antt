-- ===== src/Governance/Glob.antt =====
-- `fnmatch.fnmatch` of Python's standard library on a POSIX system, where `os.path.normcase` leaves
-- a name as it is: the patterns of the governance policies (backend/governance/evaluator.py). A text
-- is the list of its code points.
pub mod Plain
use the_dashboard.Common.{
  ℕ, zero, suc, String, Bool, true, false, not, ◌||◌, ◌&&◌, Option, none, some, List, [], ◌∷◌, map,
  ◌==◌, leb, any_of, length, codes, if◌then◌else◌,
}

-- A part of the text between brackets: one character, or the characters of a range.
pub data Span : Type 0 where
  single : ℕ → Span
  range : (low high : ℕ) → Span

pub data Test : Type 0 where
  literal : ℕ → Test
  any_char : Test
  class : (negated : Bool) → List Span → Test

pub data Item : Type 0 where
  star : Item
  one : Test → Item

abbrev pub in_span : ℕ → Span → Bool
in_span c (single d) = c == d
in_span c (range low high) = leb low c && leb c high

unfoldable pub accepts : Test → ℕ → Bool
accepts (literal d) c = c == d
accepts any_char c = true
accepts (class negated spans) c =
    if negated then not (any_of (in_span c) spans) else any_of (in_span c) spans

-- The text after a star may begin at any of the places that are left.
abbrev pub at_some_suffix : (List ℕ → Bool) → List ℕ → Bool
at_some_suffix test [] = test []
at_some_suffix test (c ∷ s) = test (c ∷ s) || at_some_suffix test s

abbrev pub after_one : Test → (List ℕ → Bool) → List ℕ → Bool
after_one t test [] = false
after_one t test (c ∷ s) = accepts t c && test s

unfoldable pub matches : List Item → List ℕ → Bool
matches [] [] = true
matches [] (c ∷ s) = false
matches (star ∷ p) s = at_some_suffix (matches p) s
matches (one t ∷ p) s = after_one t (matches p) s

abbrev pub onto : ℕ → Option (List ℕ) → Option (List ℕ)
onto c none = none
onto c (some text) = some (c ∷ text)

-- The text up to the first `]`.
abbrev pub up_to_close : List ℕ → Option (List ℕ)
up_to_close [] = none
up_to_close (c ∷ p) = if c == b']' then some [] else onto c (up_to_close p)

-- A `]` at the start does not close the brackets.
abbrev pub close_after_first : List ℕ → Option (List ℕ)
close_after_first [] = none
close_after_first (c ∷ p) = if c == b']' then onto c (up_to_close p) else up_to_close (c ∷ p)

-- The text between the brackets, where the pattern goes on with `p` after a `[`.
abbrev pub bracket : List ℕ → Option (List ℕ)
bracket [] = none
bracket (c ∷ p) = if c == b'!' then onto c (close_after_first p) else close_after_first (c ∷ p)

-- What begins with a character, and how many more it takes.
abbrev pub span_at : ℕ → List ℕ → Span × ℕ
span_at low (dash ∷ high ∷ p) = if dash == b'-' then (range low high, 2) else (single low, 0)
span_at low _ = (single low, 0)

abbrev pub spans_of : (skipped : ℕ) → List ℕ → List Span
spans_of skipped [] = []
spans_of (suc skipped) (c ∷ p) = spans_of skipped p
spans_of zero (c ∷ p) = let (span, taken) = span_at c p in span ∷ spans_of taken p

-- A `!` at the start is no bound of a range.
abbrev pub split : List ℕ → List Span
split [] = []
split (c ∷ p) = if c == b'!' then single c ∷ spans_of 0 p else spans_of 0 (c ∷ p)

-- A range whose bounds are in the wrong order vanishes.
abbrev pub without_empty : List Span → List Span
without_empty [] = []
without_empty (single c ∷ spans) = single c ∷ without_empty spans
without_empty (range low high ∷ spans) =
    if leb low high then range low high ∷ without_empty spans else without_empty spans

-- A `!` that comes first then negates the class, even if it was the lower bound of a range.
abbrev pub class_of : List Span → Test
class_of [] = class false []
class_of (single c ∷ spans) = if c == b'!' then class true spans else class false (single c ∷ spans)
class_of (range low high ∷ spans) =
    if low == b'!'
    then class true (single b'-' ∷ single high ∷ spans)
    else class false (range low high ∷ spans)

abbrev pub class_item : Option (List ℕ) → Item × ℕ
class_item none = (one (literal b'['), 0)
class_item (some text) = (one (class_of (without_empty (split text))), suc (length text))

-- The item that begins with a character, and how many more it takes.
abbrev pub item_at : ℕ → List ℕ → Item × ℕ
item_at c p =
    if c == b'*'
    then (star, 0)
    else if c == b'?'
    then (one any_char, 0)
    else if c == b'['
    then class_item (bracket p)
    else (one (literal c), 0)

unfoldable pub compile : (skipped : ℕ) → List ℕ → List Item
compile skipped [] = []
compile (suc skipped) (c ∷ p) = compile skipped p
compile zero (c ∷ p) = let (item, taken) = item_at c p in item ∷ compile taken p

-- `fnmatch.fnmatch`
unfoldable pub fnmatch : (name pat : String) → Bool
unfolding matches compile
fnmatch name pat = matches (compile 0 (codes pat)) (codes name)
