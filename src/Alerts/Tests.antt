-- ===== src/Alerts/Tests.antt =====
-- The alert checker at concrete thresholds and readings.
use kanfei.Prelude.{ℕ, Bool, true, none, some, [], ◌∷◌, ltb, leb}
use kanfei.Alerts.{
  Reading, number, dict, no_entries, entry, Operator, ge, le, gt, lt, Threshold, AlertChecker,
  fresh, load_thresholds, check,
}

abbrev holds : Operator → ℕ → ℕ → Bool
holds ge a b = leb b a
holds le a b = leb a b
holds gt a b = ltb b a
holds lt a b = ltb a b

abbrev gale : Threshold ℕ
gale = record {
  id = "gale";
  label = some "Gale";
  sensor = "wind_speed";
  operator = some ge;
  value = some 39;
  enabled = true;
}

abbrev frost : Threshold ℕ
frost = record {
  id = "frost";
  label = none;
  sensor = "outside_temp";
  operator = some lt;
  value = some 32;
  enabled = true;
}

-- {"wind": {"speed": {"value": speed}}}
abbrev windy : ℕ → Reading ℕ
windy speed = dict (
    entry "wind" (dict (entry "speed" (dict (entry "value" (number speed) no_entries)) no_entries))
      no_entries)

abbrev watching : AlertChecker ℕ
watching = (check holds (windy 45) (load_thresholds (gale ∷ frost ∷ []) fresh)).1
