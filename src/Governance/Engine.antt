-- ===== src/Governance/Engine.antt =====
-- backend/governance/engine.py and events.py: the freeze gate that the other runtimes call. The
-- proofs are in the module below this one.
pub mod Gate
use the_dashboard.Common.{
  String, Bool, not, Option, none, Exec, pure, raise, gets, ◌>>=◌, ◌>>◌, str_eq, if◌then◌else◌,
}
use the_dashboard.Governance.Events.{freeze_propagated, Log, append}
use the_dashboard.Governance.Freeze.{is_frozen}
use Prim.Native.Nat.{ℕ}

pub data GovernanceError : Type 0 where
  frozen : (scope : String) → GovernanceError

abbrev pub global_scope : String
global_scope = "global"

-- `emit_freeze_propagated`, and the exception that follows it
unfoldable pub block :
    (scope : String) (actor_id : Option ℕ) (source_runtime : String)
    → Exec Log GovernanceError (Unit {0})
block scope actor_id source_runtime = do
  append (freeze_propagated scope source_runtime) none actor_id
  raise (frozen scope)

-- The check of one scope.
unfoldable pub check_scope :
    (scope : String) (actor_id : Option ℕ) (source_runtime : String)
    → Exec Log GovernanceError (Unit {0})
unfolding block
check_scope scope actor_id source_runtime = do
  stopped ← gets (is_frozen scope)
  if stopped then block scope actor_id source_runtime else pure tt

-- `GovernanceEngine.check_freeze`
unfoldable pub check_freeze :
    (scope : String) (actor_id : Option ℕ) (source_runtime : String)
    → Exec Log GovernanceError (Unit {0})
unfolding check_scope
check_freeze scope actor_id source_runtime = do
  if str_eq scope global_scope then pure tt else check_scope global_scope actor_id source_runtime
  check_scope scope actor_id source_runtime
