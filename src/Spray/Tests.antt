-- ===== src/Spray/Tests.antt =====
-- Spraying with a concrete forecast.
use kanfei.Prelude.{
  ℕ, ◌≡◌, refl, Bool, true, false, not, leb, none, some, [], ◌∷◌, min, length, ℤ, pos, ltb_ℤ, ◌+ℤ◌,
  arith,
}
use mathlib.Core.List.{foldl}
use kanfei.Floats.{Comparable}
use kanfei.Vantage.Sample.{whole}
use kanfei.Spray.{ProductConstraints, Hourly, hour_ok, find_optimal_window, evaluate_conditions}
use kanfei.Spray.Window.{Outcome, find_optimal_window-Outcome}
use kanfei.Spray.Verdict.{IsTotal, is_favorable, evaluate_conditions-go}

instance abbrev whole_order : Comparable ℤ
whole_order = record {
  lt = ltb_ℤ;
  le = λ a b. not (ltb_ℤ b a);
  truncate = λ a. a;
  sum = foldl (λ total a. total +ℤ a) (pos 0);
}

whole_total : (a b : ℤ) → not (ltb_ℤ b a) ≡ false → not (ltb_ℤ a b) ≡ true
whole_total a b h = ground arith

whole_trans : (a b x : ℤ) → not (ltb_ℤ b a) ≡ true → not (ltb_ℤ x b) ≡ true → not (ltb_ℤ x a) ≡ true
whole_trans a b x h k = ground arith

not-not : (b : Bool) → b ≡ not (not b)
not-not true = refl
not-not false = refl

whole-IsTotal : IsTotal ℤ
whole-IsTotal = record {
  lt_not_le = λ a b. not-not (ltb_ℤ a b);
  le_total = whole_total;
  le_trans = whole_trans;
}

abbrev herbicide : ProductConstraints ℤ
herbicide = record {
  rain_free_hours = pos 2;
  max_wind_mph = pos 10;
  min_temp_f = pos 45;
  max_temp_f = pos 85;
  min_humidity_pct = none;
  max_humidity_pct = none;
}

-- Five hours: rain in the first, a gust in the third.
abbrev forecast : Hourly ℤ ℕ
forecast = record {
  time = 6 ∷ 7 ∷ 8 ∷ 9 ∷ 10 ∷ [];
  temperature_2m = some (pos 60) ∷ some (pos 62) ∷ none ∷ some (pos 70) ∷ some (pos 71) ∷ [];
  relative_humidity_2m = [];
  precipitation = some (pos 1) ∷ some (pos 0) ∷ none ∷ some (pos 0) ∷ [];
  wind_speed_10m = some (pos 4) ∷ some (pos 5) ∷ some (pos 5) ∷ some (pos 6) ∷ some (pos 5) ∷ [];
  wind_gusts_10m = some (pos 8) ∷ some (pos 9) ∷ some (pos 14) ∷ none ∷ some (pos 9) ∷ [];
}

found :
    find_optimal_window (λ p. p) herbicide forecast 24
    ≡ some (record { start = 9; end = 10; duration_hours = 2 })
unfolding find_optimal_window
found = refl

find_optimal_window-Outcome_example :
    Outcome
      (hour_ok herbicide forecast)
      (λ p. p)
      forecast.time
      (min 24 (length forecast.time))
      (find_optimal_window (λ p. p) herbicide forecast 24)
find_optimal_window-Outcome_example = find_optimal_window-Outcome (λ p. p) herbicide forecast 24

evaluate_conditions-go_example :
    (evaluate_conditions (λ t target. leb target t) herbicide forecast 9 10).go
    ≡ is_favorable (λ t target. leb target t) herbicide forecast 9 10
evaluate_conditions-go_example =
    evaluate_conditions-go (λ t target. leb target t) herbicide forecast whole-IsTotal 9 10 6
      (7 ∷ 8 ∷ 9 ∷ 10 ∷ []) refl
