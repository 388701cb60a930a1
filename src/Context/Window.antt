-- ===== src/Context/Window.antt =====
-- backend/context/window.py, with the contracts of context/contracts.py: a window of context items
-- within a token budget. Token counts, priorities and budgets are natural numbers. The proofs are in
-- the modules below this one.
pub mod Counts
pub mod Budget
pub mod Importance
use the_dashboard.Common.{
  ℕ, zero, suc, String, Bool, true, false, not, ◌||◌, ◌&&◌, Option, none, some, List, [], ◌∷◌, ◌++◌,
  ◌+◌, ◌-◌, ◌==◌, leb, ltb, any_of, select, take, length, sorted, Outcome, returned, raised,
  if◌then◌else◌,
}

pub data LayerType : Type 0 where
  system workflow transcript ai_execution user : LayerType

-- `==` of the enumeration
abbrev pub same_layer : LayerType → LayerType → Bool
same_layer system system = true
same_layer workflow workflow = true
same_layer transcript transcript = true
same_layer ai_execution ai_execution = true
same_layer user user = true
same_layer _ _ = false

pub data Strategy : Type 0 where
  truncate_oldest truncate_lowest_priority truncate_largest fail_on_overflow : Strategy

pub record ContextItem : Type 0 where
  pub layer : LayerType
  pub source_id : ℕ
  pub source_type : String
  pub content : String
  pub token_count : ℕ
  pub priority : ℕ
  pub created_at : Option ℕ

pub record TruncationPolicy : Type 0 where
  pub strategy : Strategy
  pub protect_layers : List LayerType
  pub max_items : Option ℕ

pub record ContextWindow : Type 0 where
  pub items : List ContextItem
  pub total_tokens : ℕ
  pub token_budget : ℕ
  pub truncated : Bool
  pub truncated_count : ℕ
  pub strategy : Strategy

-- `ContextWindowOverflowError`
pub record Overflow : Type 0 where
  pub total_tokens : ℕ
  pub budget : ℕ

abbrev pub timestamp : Option ℕ → ℕ
timestamp none = 0
timestamp (some at) = at

-- The order of `sort_key`: the priority, then the time.
abbrev pub comes_before : ContextItem → ContextItem → Bool
comes_before x y =
    ltb x.priority y.priority
    || (x.priority == y.priority && leb (timestamp x.created_at) (timestamp y.created_at))

abbrev pub total_of : List ContextItem → ℕ
total_of [] = 0
total_of (x ∷ xs) = x.token_count + total_of xs

abbrev pub is_protected : List LayerType → ContextItem → Bool
is_protected layers item = any_of (same_layer item.layer) layers

abbrev pub is_mutable : List LayerType → ContextItem → Bool
is_mutable layers item = not (is_protected layers item)

-- The items that may be dropped, in the order in which they are.
abbrev pub candidates : Strategy → List ContextItem → List ContextItem
candidates truncate_lowest_priority items = sorted (λ x y. leb y.priority x.priority) items
candidates truncate_largest items = sorted (λ x y. leb y.token_count x.token_count) items
candidates _ items = items

-- The loop of `_truncate`: what it keeps, and how many items it drops.
unfoldable pub drop_until : (budget current_total : ℕ) → List ContextItem → List ContextItem × ℕ
drop_until budget current_total [] = ([], 0)
drop_until budget current_total (x ∷ xs) =
    let rest = drop_until budget (current_total - x.token_count) xs in
    if ltb budget current_total then (rest.0, suc rest.1) else (x ∷ xs, 0)

-- `ContextWindowRuntime._truncate`
unfoldable pub truncate : List ContextItem → (budget : ℕ) → TruncationPolicy → List ContextItem × ℕ
truncate items budget policy =
    let fixed = select (is_protected policy.protect_layers) items in
    let mutable = candidates policy.strategy (select (is_mutable policy.protect_layers) items) in
    let kept = drop_until budget (total_of fixed + total_of mutable) mutable in
    (sorted comes_before (fixed ++ kept.0), kept.1)

abbrev pub capped : Option ℕ → List ContextItem → List ContextItem
capped none items = items
capped (some n) items = take n items

abbrev pub truncated_window :
    (budget : ℕ) → TruncationPolicy → List ContextItem × ℕ → Outcome Overflow ContextWindow
truncated_window budget policy (kept, dropped) = returned (record {
  items = kept;
  total_tokens = total_of kept;
  token_budget = budget;
  truncated = true;
  truncated_count = dropped;
  strategy = policy.strategy;
})

-- What `build` does with sorted items that are over the budget.
unfoldable pub overflow :
    List ContextItem → (budget : ℕ) → TruncationPolicy → Strategy → Outcome Overflow ContextWindow
overflow items budget policy fail_on_overflow =
    raised (record { total_tokens = total_of items; budget = budget })
overflow items budget policy _ = truncated_window budget policy (truncate items budget policy)

-- `ContextWindowRuntime.build`
unfoldable pub build :
    List ContextItem → (budget : ℕ) → TruncationPolicy → Outcome Overflow ContextWindow
build items budget policy =
    let sorted_items = sorted comes_before (capped policy.max_items items) in
    if leb (total_of sorted_items) budget
    then returned (record {
      items = sorted_items;
      total_tokens = total_of sorted_items;
      token_budget = budget;
      truncated = false;
      truncated_count = 0;
      strategy = policy.strategy;
    })
    else overflow sorted_items budget policy policy.strategy
