-- ===== src/Tests/Context.antt =====
-- Runs of the context window (backend/context/window.py) and of the step graph
-- (backend/workflows/graph.py) on concrete inputs.
use the_dashboard.Common.{ℕ, true, none, some, List, [], ◌∷◌, ◌≡◌, refl, arith, returned}
use the_dashboard.Context.Window.{
  system, transcript, truncate_oldest, truncate_largest, LayerType, ContextItem, TruncationPolicy,
  build,
}
use the_dashboard.Context.Window.Importance.{build-truncate_oldest}

abbrev item : LayerType → (tokens priority at : ℕ) → ContextItem
item layer tokens priority at = record {
  layer = layer;
  source_id = 1;
  source_type = "transcripts";
  content = "text";
  token_count = tokens;
  priority = priority;
  created_at = some at;
}

abbrev items : List ContextItem
items = item system 10 0 5 ∷ item transcript 50 1 9 ∷ item transcript 40 2 3 ∷ []

abbrev policy : TruncationPolicy
policy = record { strategy = truncate_largest; protect_layers = system ∷ []; max_items = none }

build-truncate_oldest_example :
    build
      (item transcript 50 1 9 ∷ item transcript 40 2 3 ∷ [])
      60
      (record { strategy = truncate_oldest; protect_layers = system ∷ []; max_items = none })
    ≡ returned (record {
      items = item transcript 40 2 3 ∷ [];
      total_tokens = 40;
      token_budget = 60;
      truncated = true;
      truncated_count = 1;
      strategy = truncate_oldest;
    })
build-truncate_oldest_example =
    build-truncate_oldest (item transcript 50 1 9) (item transcript 40 2 3) (system ∷ []) 60 refl
      refl (omega arith) (omega arith) (omega arith)
