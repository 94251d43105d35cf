-- ===== src/Spray.antt =====
-- The verdicts on spraying: backend/app/services/spray_engine.py. The texts that are made for a reader,
-- the value, the threshold and the detail of a check, are left out; a missing list of the forecast is
-- empty, as `get` makes it.
pub mod Scan
pub mod Window
pub mod Verdict
mod Tests
use kanfei.Prelude.{
  ℕ, zero, suc, ◌+◌, ◌-◌, min, Bool, true, false, not, ◌&&◌, Option, none, some, List, [], ◌∷◌,
  ◌++◌, length, take, drop, get_elem?, get_or, ltb, leb, ◌==◌, ℤ, pos, negsuc, if◌then◌else◌,
}
use mathlib.Core.List.{filter_map}
use kanfei.Floats.{Float, of_nat, decimal, ◌⊕◌, ◌⊘◌, Comparable, ◌⊏◌, ◌⊑◌, truncate}

pub data Constraint : Type 0 where
  wind temperature humidity rain_free : Constraint

pub data Confidence : Type 0 where
  high medium low : Confidence

pub record ConstraintCheck : Type 0 where
  pub name : Constraint
  pub passed : Bool

pub record SprayEvaluation : Type 0 where
  pub go : Bool
  pub constraints : List ConstraintCheck
  pub confidence : Confidence

pub record ProductConstraints (F : Type 0) : Type 0 where
  pub rain_free_hours : F
  pub max_wind_mph : F
  pub min_temp_f : F
  pub max_temp_f : F
  pub min_humidity_pct : Option F
  pub max_humidity_pct : Option F

-- The forecast, hour by hour, with its times as texts of type `T`.
pub record Hourly (F T : Type 0) : Type 0 where
  pub time : List T
  pub temperature_2m : List (Option F)
  pub relative_humidity_2m : List (Option F)
  pub precipitation : List (Option F)
  pub wind_speed_10m : List (Option F)
  pub wind_gusts_10m : List (Option F)

abbrev pub constraint_check : Constraint → Bool → ConstraintCheck
constraint_check name passed = record { name = name; passed = passed }

-- `x if x is not None else y`
abbrev pub or_else : {A : Type 0} → Option A → Option A → Option A
or_else none other = other
or_else (some a) other = some a

-- `values[i] if i < len(values) else None`
abbrev pub at_hour : {A : Type 0} → List (Option A) → ℕ → Option A
at_hour values i = get_or values i none

-- What a test says of a value, and True where there is none.
abbrev pub passes : {A : Type 0} → (A → Bool) → Option A → Bool
passes test none = true
passes test (some a) = test a

abbrev pub known : {A : Type 0} → List (Option A) → List A
known [] = []
known (none ∷ values) = known values
known (some a ∷ values) = a ∷ known values

-- `values[first:last]` for an end that may be negative, which counts from the end of the list.
abbrev pub rain_end : ℕ → ℤ → ℕ → ℕ
rain_end start (pos h) len = min (start + h) len
rain_end start (negsuc h) len =
    if ltb start (h + 1) then len - (h + 1 - start) else min (start - (h + 1)) len

abbrev pub slice : {A : Type 0} → ℕ → ℕ → List A → List A
slice first last values = take (last - first) (drop first values)

abbrev pub all_passed : List ConstraintCheck → Bool
all_passed [] = true
all_passed (c ∷ cs) = c.passed && all_passed cs

abbrev pub failed : List ConstraintCheck → ℕ
failed [] = 0
failed (c ∷ cs) = if c.passed then failed cs else suc (failed cs)

abbrev pub confidence_of : List ConstraintCheck → Confidence
confidence_of checks =
    if all_passed checks then high else if failed checks == 1 then medium else low

abbrev pub rain_rounds : ℕ → ℤ → ℕ → ℕ
rain_rounds i (pos h) len = min (i + h) len - i
rain_rounds i (negsuc h) len = 0

-- Without a forecast the overall is no, whatever the checks.
abbrev pub overall : {T : Type 0} → List T → List ConstraintCheck → SprayEvaluation
overall [] checks = record { go = false; constraints = []; confidence = low }
overall (t ∷ times) checks = record {
  go = all_passed checks;
  constraints = checks;
  confidence = confidence_of checks;
}

module _ {T : Type 0} (at_or_after : T → T → Bool) where
  -- The index of the first time that is not before the target, or of the last time. The target is what
  -- strftime makes of the datetime, its text to the hour: a caller here gives it in that form.
  abbrev pub hour_from : List T → T → ℕ → ℕ → ℕ
  hour_from [] target i last = last
  hour_from (t ∷ times) target i last =
      let later = hour_from times target (suc i) last in if at_or_after t target then i else later

  unfoldable pub find_hour_index : List T → T → ℕ
  find_hour_index times target = hour_from times target 0 (length times - 1)

module _ {F : Type 0} ⦃fl : Float F⦄ ⦃c : Comparable F⦄ where
  unfoldable pub check_wind : Option F → Option F → F → ConstraintCheck
  check_wind forecast_wind forecast_gust max_wind =
      constraint_check wind (passes (λ w. w ⊑ max_wind) (or_else forecast_gust forecast_wind))

  abbrev pub in_range : F → F → F → Bool
  in_range lo hi t = (lo ⊑ t) && (t ⊑ hi)

  unfoldable pub check_temperature : Option F → F → F → ConstraintCheck
  check_temperature forecast_temp min_temp max_temp =
      constraint_check temperature (passes (in_range min_temp max_temp) forecast_temp)

  abbrev pub humidity_ok : Option F → Option F → F → Bool
  humidity_ok min_hum max_hum h = passes (λ lo. lo ⊑ h) min_hum && passes (λ hi. h ⊑ hi) max_hum

  -- The list is that of the check, or empty when no limit is set.
  unfoldable pub check_humidity : Option F → Option F → Option F → List ConstraintCheck
  check_humidity forecast_humidity none none = []
  check_humidity forecast_humidity (some lo) max_hum =
      constraint_check humidity (passes (humidity_ok (some lo) max_hum) forecast_humidity) ∷ []
  check_humidity forecast_humidity none (some hi) =
      constraint_check humidity (passes (humidity_ok none (some hi)) forecast_humidity) ∷ []

  -- int(rain_free_hours + 0.99)
  abbrev pub hours_needed : F → ℤ
  hours_needed rain_free_hours = truncate (rain_free_hours ⊕ decimal 99 2)

  abbrev pub rain_free_window : List (Option F) → ℕ → F → List (Option F)
  rain_free_window hourly_precip start rain_free_hours =
      slice start (rain_end start (hours_needed rain_free_hours) (length hourly_precip))
        hourly_precip

  abbrev pub is_dry : List (Option F) → Bool
  is_dry [] = true
  is_dry (p ∷ window) = c.sum (known (p ∷ window)) ⊏ decimal 1 2

  unfoldable pub check_rain_free : List (Option F) → ℕ → F → ConstraintCheck
  check_rain_free hourly_precip start rain_free_hours =
      constraint_check rain_free (is_dry (rain_free_window hourly_precip start rain_free_hours))

  -- The built-in max and min, which keep the first of equal values.
  abbrev pub greatest : F → List F → F
  greatest m [] = m
  greatest m (v ∷ vs) = greatest (if m ⊏ v then v else m) vs

  abbrev pub least : F → List F → F
  least m [] = m
  least m (v ∷ vs) = least (if v ⊏ m then v else m) vs

  abbrev pub average : F → List F → F
  average v vs = c.sum (v ∷ vs) ⊘ of_nat (length (v ∷ vs))

  abbrev pub over : (F → List F → F) → List F → Option F
  over fn [] = none
  over fn (v ∷ vs) = some (fn v vs)

  unfoldable pub worst : ℕ → ℕ → (F → List F → F) → List (Option F) → Option F
  worst start_idx end_idx fn values = over fn (known (slice start_idx (end_idx + 1) values))

  module _ {T : Type 0} (at_or_after : T → T → Bool) where
    unfoldable pub evaluate_window :
        ProductConstraints F → Hourly F T → ℕ → ℕ → List ConstraintCheck
    unfolding worst check_wind check_humidity check_rain_free
    evaluate_window constraints hourly start_idx end_idx =
        let low_ok =
          passes (λ t. not (t ⊏ constraints.min_temp_f))
            (worst start_idx end_idx least hourly.temperature_2m) in
        let high_ok =
          passes (λ t. not (constraints.max_temp_f ⊏ t))
            (worst start_idx end_idx greatest hourly.temperature_2m) in
        check_wind (worst start_idx end_idx greatest hourly.wind_speed_10m)
          (worst start_idx end_idx greatest hourly.wind_gusts_10m) constraints.max_wind_mph
        ∷ constraint_check temperature (low_ok && high_ok)
        ∷ (check_humidity (worst start_idx end_idx average hourly.relative_humidity_2m)
              constraints.min_humidity_pct constraints.max_humidity_pct
            ++ check_rain_free hourly.precipitation start_idx constraints.rain_free_hours ∷ [])

    unfoldable pub evaluate_conditions : ProductConstraints F → Hourly F T → T → T → SprayEvaluation
    unfolding evaluate_window find_hour_index
    evaluate_conditions constraints hourly planned_start planned_end = overall hourly.time (
        evaluate_window constraints hourly (find_hour_index at_or_after hourly.time planned_start)
          (find_hour_index at_or_after hourly.time planned_end))

  -- `current_obs`, each value of which may be missing.
  unfoldable pub evaluate_current :
      ProductConstraints F → Option F → Option F → Option F → Option F → Option F → SprayEvaluation
  unfolding check_wind check_temperature check_humidity
  evaluate_current constraints wind_speed_mph wind_gust_mph outside_temp_f outside_humidity_pct
        rain_rate_in_hr =
      let checks =
        check_wind wind_speed_mph wind_gust_mph constraints.max_wind_mph
        ∷ check_temperature outside_temp_f constraints.min_temp_f constraints.max_temp_f
        ∷ (check_humidity outside_humidity_pct constraints.min_humidity_pct
              constraints.max_humidity_pct
            ++ constraint_check rain_free (passes (λ r. not (of_nat 0 ⊏ r)) rain_rate_in_hr)
              ∷ []) in
      record { go = all_passed checks; constraints = checks; confidence = medium }

  -- The loop over the hours after `j`, which stops at the first rain.
  unfoldable pub no_rain_from : List (Option F) → ℕ → ℕ → Bool
  no_rain_from precips j zero = true
  no_rain_from precips j (suc n) =
      passes (λ p. not (of_nat 0 ⊏ p)) (at_hour precips j) && no_rain_from precips (j + 1) n

  unfoldable pub hour_ok : {T : Type 0} → ProductConstraints F → Hourly F T → ℕ → Bool
  unfolding no_rain_from
  hour_ok constraints hourly i =
      passes (λ w. w ⊑ constraints.max_wind_mph)
        (or_else (at_hour hourly.wind_gusts_10m i) (at_hour hourly.wind_speed_10m i))
      && passes (in_range constraints.min_temp_f constraints.max_temp_f)
          (at_hour hourly.temperature_2m i)
      && passes (humidity_ok constraints.min_humidity_pct constraints.max_humidity_pct)
          (at_hour hourly.relative_humidity_2m i)
      && no_rain_from hourly.precipitation i
          (rain_rounds i (hours_needed constraints.rain_free_hours) (length hourly.precipitation))

-- The hours `i`, `i + 1`, … of the scan.
abbrev pub ok_hours : (ℕ → Bool) → ℕ → ℕ → List Bool
ok_hours ok i zero = []
ok_hours ok i (suc n) = ok i ∷ ok_hours ok (i + 1) n

-- A start of −1 is `none`.
pub record Runs : Type 0 where
  pub best_start : Option ℕ
  pub best_len : ℕ
  pub run_start : Option ℕ
  pub run_len : ℕ

abbrev pub extended : ℕ → Option ℕ → ℕ → ℕ × ℕ
extended i none len = (i, 1)
extended i (some start) len = (start, len + 1)

abbrev pub after_hour : ℕ → Bool → Runs → Runs
after_hour i true runs =
    let (start, len) = extended i runs.run_start runs.run_len in
    if ltb runs.best_len len
    then record { best_start = some start; best_len = len; run_start = some start; run_len = len }
    else record runs { run_start = some start; run_len = len }
after_hour i false runs = record runs { run_start = none; run_len = 0 }

unfoldable pub longest_run : ℕ → List Bool → Runs → Runs
longest_run i [] runs = runs
longest_run i (ok ∷ oks) runs = longest_run (i + 1) oks (after_hour i ok runs)

abbrev pub no_run : Runs
no_run = record { best_start = none; best_len = 0; run_start = none; run_len = 0 }

pub record Found (T : Type 0) : Type 0 where
  pub start : T
  pub end : T
  pub duration_hours : ℕ

-- Both times in the zone of the station, or as they are where that fails.
abbrev pub resolved : {T : Type 0} → (T × T → T × T) → List T → Option ℕ → ℕ → Option (Found T)
resolved to_local [] best_start best_len = none
resolved to_local (t ∷ times) none best_len = none
resolved to_local (t ∷ times) (some start) best_len =
    let (first, last) = to_local (
      get_or (t ∷ times) start t,
      get_or (t ∷ times) (min (start + best_len - 1) (length (t ∷ times) - 1)) t,
    ) in
    if ltb best_len 1
    then none
    else some (record { start = first; end = last; duration_hours = best_len })

module _ {F T : Type 0} ⦃fl : Float F⦄ ⦃c : Comparable F⦄ where
  unfoldable pub find_optimal_window :
      (T × T → T × T) → ProductConstraints F → Hourly F T → ℕ → Option (Found T)
  unfolding hour_ok longest_run
  find_optimal_window to_local constraints hourly search_hours =
      let limit = min search_hours (length hourly.time) in
      let runs = longest_run 0 (ok_hours (hour_ok constraints hourly) 0 limit) no_run in
      resolved to_local hourly.time runs.best_start runs.best_len
