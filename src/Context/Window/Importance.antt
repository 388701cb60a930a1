-- ===== src/Context/Window/Importance.antt =====
-- Which of two items backend/context/window.py drops.
use the_dashboard.Common.{
  ℕ, true, false, none, List, [], ◌∷◌, ◌+◌, ◌-◌, ◌≡◌, ◌≤◌, ◌<◌, refl, arith, leb, ltb, returned,
}
use the_dashboard.Context.Window.{
  LayerType, truncate_oldest, ContextItem, total_of, is_protected, drop_until, truncate, overflow,
  build,
}

-- Two items of layers that are not protected, with different priorities.
module _ (a b : ContextItem) (layers : List LayerType) (budget : ℕ)
    (free_a : is_protected layers a ≡ false) (free_b : is_protected layers b ≡ false)
    (important : a.priority < b.priority) (over : budget < a.token_count + b.token_count)
    (fits : b.token_count ≤ budget) where
  -- Under `truncate_oldest` the item with the smaller priority number, the more important one, is
  -- dropped, whichever of the two is older, when both together are over the budget and the other
  -- one fits.
  pub build-truncate_oldest :
      build
        (a ∷ b ∷ [])
        budget
        (record { strategy = truncate_oldest; protect_layers = layers; max_items = none })
      ≡ returned (record {
        items = b ∷ [];
        total_tokens = total_of (b ∷ []);
        token_budget = budget;
        truncated = true;
        truncated_count = 1;
        strategy = truncate_oldest;
      })
  unfolding build overflow truncate drop_until
  build-truncate_oldest =
      let first : ltb a.priority b.priority ≡ true = ground arith in
      let more : leb (a.token_count + (b.token_count + 0)) budget ≡ false = ground arith in
      let more2 : ltb budget (0 + (a.token_count + (b.token_count + 0))) ≡ true = ground arith in
      let enough : ltb budget (0 + (a.token_count + (b.token_count + 0)) - a.token_count) ≡ false =
        ground arith in
      rw first (rw more (rw free_a (rw free_b (rw more2 (rw enough refl)))))
