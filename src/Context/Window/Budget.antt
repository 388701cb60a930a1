-- ===== src/Context/Window/Budget.antt =====
-- The truncated window of backend/context/window.py: its budget, its layers and its items.
use the_dashboard.Common.{ℕ, Bool, true, false, List, ◌+◌, ◌≡◌, ◌≤◌, refl, select, length}
use the_dashboard.Context.Window.{
  Strategy, truncate_oldest, truncate_lowest_priority, truncate_largest, fail_on_overflow,
  ContextItem, TruncationPolicy, ContextWindow, total_of, is_protected, is_mutable, candidates,
  drop_until, truncate,
}
use the_dashboard.Context.Window.Counts.{total_of-sorted}

total_of-candidates :
    (s : Strategy) (xs : List ContextItem) → total_of (candidates s xs) ≡ total_of xs
total_of-candidates truncate_oldest xs = refl
total_of-candidates truncate_lowest_priority xs = total_of-sorted _ xs
total_of-candidates truncate_largest xs = total_of-sorted _ xs
total_of-candidates fail_on_overflow xs = refl

module _ (items : List ContextItem) (budget : ℕ) (policy : TruncationPolicy) where
  abbrev fixed : List ContextItem
  fixed = select (is_protected policy.protect_layers) items

  abbrev mutable : List ContextItem
  mutable = candidates policy.strategy (select (is_mutable policy.protect_layers) items)

  abbrev kept : List ContextItem × ℕ
  kept = drop_until budget (total_of fixed + total_of mutable) mutable

abbrev pub is_lossy : Strategy → Bool
is_lossy fail_on_overflow = false
is_lossy _ = true

-- A window that was built is right for the items.
pub record IsFitting (items : List ContextItem) (policy : TruncationPolicy) (budget : ℕ)
    (w : ContextWindow) : Type 0 where
  pub sum : w.total_tokens ≡ total_of w.items
  pub bounded : w.total_tokens ≤ budget
  pub accounted : length w.items + w.truncated_count ≡ length items
  pub kept_protected :
      length (select (is_protected policy.protect_layers) w.items)
      ≡ length (select (is_protected policy.protect_layers) items)

module _ (items : List ContextItem) (budget : ℕ) (policy : TruncationPolicy)
    (h : total_of (select (is_protected policy.protect_layers) items) ≤ budget) where
  abbrev cut_window : ContextWindow
  cut_window = record {
    items = (truncate items budget policy).0;
    total_tokens = total_of (truncate items budget policy).0;
    token_budget = budget;
    truncated = true;
    truncated_count = (truncate items budget policy).1;
    strategy = policy.strategy;
  }
