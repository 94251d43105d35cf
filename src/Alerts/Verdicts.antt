-- ===== src/Alerts/Verdicts.antt =====
-- What `check` of backend/app/services/alerts.py leaves in the set of triggered ids.
use Prim.Native.String.{String}
use text.Mathlib.Text.{◌==◌}
use kanfei.Prelude.{◌≡◌, Bool, false, Option, none, some}
use kanfei.Alerts.{Threshold}

-- A threshold that is passed over leaves what was there.
abbrev pub settled : Option Bool → Bool → Bool
settled none old = old
settled (some exceeds) old = exceeds

abbrev pub IsOther : {V : Type 0} → String → Threshold V → Type 0
IsOther k u = (k == u.id) ≡ false
