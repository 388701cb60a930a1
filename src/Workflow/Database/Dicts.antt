-- ===== src/Workflow/Database/Dicts.antt =====
-- What a merged dictionary of backend/workflows holds under a key.
use the_dashboard.Common.{
  String, none, some, [], ◌∷◌, ◌≡◌, refl, arith, str_eq, eq_iff, if◌then◌else◌,
}
use the_dashboard.Workflow.Database.{Value, Dict, get, set, merge}

pub get-set :
    (j k : String) (v : Value) (d : Dict)
    → get j (set k v d) ≡ (if str_eq k j then some v else get j d)
get-set j k v [] = refl
get-set j k v ((i, w) ∷ d) = ground (arith, eq_iff k j, eq_iff i k, eq_iff i j, get-set j k v d)

-- A key that the second dictionary lacks keeps its value.
pub get-merge-none : (k : String) (d e : Dict) → get k e ≡ none → get k (merge d e) ≡ get k d
get-merge-none k d [] h = refl
get-merge-none k d ((j, v) ∷ e) h = ground (arith, get-set k j v d, get-merge-none k (set j v d) e)
