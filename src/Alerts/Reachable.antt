-- ===== src/Alerts/Reachable.antt =====
-- The states that an AlertChecker of backend/app/services/alerts.py can reach.
use Prim.Native.String.{String}
use kanfei.Prelude.{Bool, ◌||◌, List}
use kanfei.Alerts.{
  Reading, Operator, Threshold, AlertChecker, has, ids, fresh, load_thresholds, check,
}

-- Any sequence of loads and checks, from the empty checker on.
pub data Reachable {V : Type 0} (holds : Operator → V → V → Bool) : AlertChecker V → Type 0 where
  start : Reachable holds fresh
  loaded :
      (thresholds : List (Threshold V)) (c : AlertChecker V)
      → Reachable holds c
      → Reachable holds (load_thresholds thresholds c)
  checked :
      (reading : Reading V) (c : AlertChecker V)
      → Reachable holds c
      → Reachable holds (check holds reading c).1

-- `k` is among the ids or in the set.
abbrev within : {V : Type 0} → String → List (Threshold V) → List String → Bool
within k ts s = has k (ids ts) || has k s
