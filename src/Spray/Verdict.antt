-- ===== src/Spray/Verdict.antt =====
-- What makes `evaluate_conditions` of backend/app/services/spray_engine.py say go.
use kanfei.Prelude.{
  ◌≡◌, refl, sym, ap, ap₂, ◌∙◌, Bool, true, false, not, ◌&&◌, Bool-cases, inl, inr, Option, none,
  some, List, [], ◌∷◌, ◌++◌, if◌then◌else◌, ◌+◌,
}
use kanfei.Floats.{Float, Comparable, ◌⊏◌, ◌⊑◌}
use kanfei.Spray.{
  ConstraintCheck, ProductConstraints, Hourly, known, slice, over, greatest, least, average, passes,
  or_else, in_range, humidity_ok, is_dry, rain_free_window, find_hour_index, all_passed, overall,
  check_humidity, check_rain_free, evaluate_window, evaluate_conditions,
}

-- What the comparisons of floats other than NaN satisfy.
pub record IsTotal (F : Type 0) ⦃c : Comparable F⦄ : Type 0 where
  pub lt_not_le : (a b : F) → (a ⊏ b) ≡ not (b ⊑ a)
  pub le_total : (a b : F) → (a ⊑ b) ≡ false → (b ⊑ a) ≡ true
  pub le_trans : (a b x : F) → (a ⊑ b) ≡ true → (b ⊑ x) ≡ true → (a ⊑ x) ≡ true

abbrev pub every : {A : Type 0} → (A → Bool) → List A → Bool
every test [] = true
every test (x ∷ xs) = test x && every test xs

-- The gusts of a window, or its winds where it has no gust.
abbrev pub gusts_or_winds : {F : Type 0} → List F → List F → List F
gusts_or_winds [] winds = winds
gusts_or_winds (g ∷ gs) winds = g ∷ gs

below_both : (a b : Bool) → (b ≡ true → a ≡ true) → b ≡ (a && b)
below_both a true h = rw (h refl) refl
below_both true false h = refl
below_both false false h = refl

and_swap : (a b : Bool) → (a && b) ≡ (b && a)
and_swap true true = refl
and_swap true false = refl
and_swap false true = refl
and_swap false false = refl

and_assoc : (a b c : Bool) → ((a && b) && c) ≡ (a && (b && c))
and_assoc true b c = refl
and_assoc false b c = refl

not-not : (a : Bool) → not (not a) ≡ a
not-not true = refl
not-not false = refl

module _ {F : Type 0} ⦃fl : Float F⦄ ⦃c : Comparable F⦄ (total : IsTotal F) where
  le_of_not_lt : (a b : F) → (a ⊏ b) ≡ false → (b ⊑ a) ≡ true
  le_of_not_lt a b h = sym (not-not (b ⊑ a)) ∙ ap not (sym (total.lt_not_le a b)) ∙ ap not h

  le_of_lt : (a b : F) → (a ⊏ b) ≡ true → (a ⊑ b) ≡ true
  le_of_lt a b h =
      total.le_total b a (sym (not-not (b ⊑ a)) ∙ ap not (sym (total.lt_not_le a b)) ∙ ap not h)

  greater-le : (m v x : F) → ((if m ⊏ v then v else m) ⊑ x) ≡ ((m ⊑ x) && (v ⊑ x))
  greater-le m v x = elim (Bool-cases (m ⊏ v)) [
    | inl less ↦ rw less (below_both (m ⊑ x) (v ⊑ x) (total.le_trans m v x (le_of_lt m v less)))
    | inr more ↦ rw more (
        below_both (v ⊑ x) (m ⊑ x) (total.le_trans v m x (le_of_not_lt m v more))
        ∙ and_swap (v ⊑ x) (m ⊑ x))
  ]

  lesser-ge : (m v x : F) → (x ⊑ (if v ⊏ m then v else m)) ≡ ((x ⊑ m) && (x ⊑ v))
  lesser-ge m v x = elim (Bool-cases (v ⊏ m)) [
    | inl less ↦
        rw less (below_both (x ⊑ m) (x ⊑ v) (λ h. total.le_trans x v m h (le_of_lt v m less)))
    | inr more ↦ rw more (
        below_both (x ⊑ v) (x ⊑ m) (λ h. total.le_trans x m v h (le_of_not_lt v m more))
        ∙ and_swap (x ⊑ v) (x ⊑ m))
  ]

  greatest-le : (x m : F) (vs : List F) → (greatest m vs ⊑ x) ≡ every (λ v. v ⊑ x) (m ∷ vs)
  greatest-le x m [] = and_swap true (m ⊑ x)
  greatest-le x m (v ∷ vs) =
      greatest-le x (if m ⊏ v then v else m) vs
      ∙ ap (λ (b : Bool). b && every (λ w. w ⊑ x) vs) (greater-le m v x)
      ∙ and_assoc (m ⊑ x) (v ⊑ x) (every (λ w. w ⊑ x) vs)

  least-ge : (x m : F) (vs : List F) → (x ⊑ least m vs) ≡ every (λ v. x ⊑ v) (m ∷ vs)
  least-ge x m [] = and_swap true (x ⊑ m)
  least-ge x m (v ∷ vs) =
      least-ge x (if v ⊏ m then v else m) vs
      ∙ ap (λ (b : Bool). b && every (λ w. x ⊑ w) vs) (lesser-ge m v x)
      ∙ and_assoc (x ⊑ m) (x ⊑ v) (every (λ w. x ⊑ w) vs)

  wind_verdict :
      (x : F) (gusts winds : List F)
      → passes (λ w. w ⊑ x) (or_else (over greatest gusts) (over greatest winds))
        ≡ every (λ w. w ⊑ x) (gusts_or_winds gusts winds)
  wind_verdict x (g ∷ gs) winds = greatest-le x g gs
  wind_verdict x [] (w ∷ ws) = greatest-le x w ws
  wind_verdict x [] [] = refl

  split_range :
      (lo hi : F) (vs : List F)
      → (every (λ v. lo ⊑ v) vs && every (λ v. v ⊑ hi) vs) ≡ every (in_range lo hi) vs
  split_range lo hi [] = refl
  split_range lo hi (v ∷ vs) =
      regroup (lo ⊑ v) (every (λ v. lo ⊑ v) vs) (v ⊑ hi) (every (λ v. v ⊑ hi) vs)
      ∙ ap (λ (b : Bool). in_range lo hi v && b) (split_range lo hi vs)
    where
      regroup : (a b a' b' : Bool) → ((a && b) && (a' && b')) ≡ ((a && a') && (b && b'))
      regroup true true a' b' = refl
      regroup true false true b' = refl
      regroup true false false b' = refl
      regroup false b a' b' = refl

  temperature_verdict :
      (lo hi : F) (vs : List F)
      → (passes (λ t. not (t ⊏ lo)) (over least vs)
          && passes (λ t. not (hi ⊏ t)) (over greatest vs))
        ≡ every (in_range lo hi) vs
  temperature_verdict lo hi [] = refl
  temperature_verdict lo hi (v ∷ vs) =
      ap₂ (λ (a b : Bool). a && b) (not_lt (least v vs) lo ∙ least-ge lo v vs)
        (not_lt hi (greatest v vs) ∙ greatest-le hi v vs)
      ∙ split_range lo hi (v ∷ vs)
    where
      not_lt : (a b : F) → not (a ⊏ b) ≡ (b ⊑ a)
      not_lt a b = ap not (total.lt_not_le a b) ∙ not-not (b ⊑ a)

module _ {F : Type 0} ⦃fl : Float F⦄ ⦃c : Comparable F⦄ where
  humidity_verdict :
      (avg lo hi : Option F) (last : ConstraintCheck)
      → all_passed (check_humidity avg lo hi ++ last ∷ [])
        ≡ (passes (humidity_ok lo hi) avg && last.passed)
  unfolding check_humidity
  humidity_verdict none none none last = and_swap last.passed true
  humidity_verdict (some h) none none last = and_swap last.passed true
  humidity_verdict none (some lo) hi last = and_swap last.passed true
  humidity_verdict none none (some hi) last = and_swap last.passed true
  humidity_verdict (some h) (some lo) hi last =
      ap (λ (b : Bool). humidity_ok (some lo) hi h && b) (and_swap last.passed true)
  humidity_verdict (some h) none (some hi) last =
      ap (λ (b : Bool). humidity_ok none (some hi) h && b) (and_swap last.passed true)

  module _ {T : Type 0} (at_or_after : T → T → Bool) (constraints : ProductConstraints F)
      (hourly : Hourly F T) where
    -- The values that the forecast has for the hours of a window.
    abbrev pub in_window : T → T → List (Option F) → List F
    in_window planned_start planned_end values = known (
        slice (find_hour_index at_or_after hourly.time planned_start)
          (find_hour_index at_or_after hourly.time planned_end + 1) values)

    -- All constraints, read off the hours one by one.
    abbrev pub is_favorable : T → T → Bool
    is_favorable planned_start planned_end =
        every (λ w. w ⊑ constraints.max_wind_mph)
          (gusts_or_winds (in_window planned_start planned_end hourly.wind_gusts_10m)
            (in_window planned_start planned_end hourly.wind_speed_10m))
        && (every (in_range constraints.min_temp_f constraints.max_temp_f)
              (in_window planned_start planned_end hourly.temperature_2m)
            && (passes (humidity_ok constraints.min_humidity_pct constraints.max_humidity_pct)
                  (over average (in_window planned_start planned_end hourly.relative_humidity_2m))
                && is_dry (
                    rain_free_window hourly.precipitation
                      (find_hour_index at_or_after hourly.time planned_start)
                      constraints.rain_free_hours)))

    -- With a forecast that is not empty, and comparisons that are a total order, the verdict is go exactly
    -- if in the hours of the window every gust, or every wind where no gust is known, is at most the
    -- limit, every temperature is in the range, the average humidity is, and the hours to stay dry are.
    pub evaluate_conditions-go :
        IsTotal F
        → (planned_start planned_end : T) (t : T) (ts : List T) → hourly.time ≡ t ∷ ts
        → (evaluate_conditions at_or_after constraints hourly planned_start planned_end).go
          ≡ is_favorable planned_start planned_end
    unfolding evaluate_conditions evaluate_window
    evaluate_conditions-go total planned_start planned_end t ts there =
        ap (λ (times : List T). (overall times checks).go) there
        ∙ ap₂ (λ (a b : Bool). a && b)
            (wind_verdict total constraints.max_wind_mph
              (in_window planned_start planned_end hourly.wind_gusts_10m)
              (in_window planned_start planned_end hourly.wind_speed_10m))
            (ap₂ (λ (a b : Bool). a && b)
              (temperature_verdict total constraints.min_temp_f constraints.max_temp_f
                (in_window planned_start planned_end hourly.temperature_2m))
              (humidity_verdict
                (over average (in_window planned_start planned_end hourly.relative_humidity_2m))
                constraints.min_humidity_pct constraints.max_humidity_pct
                (check_rain_free hourly.precipitation
                  (find_hour_index at_or_after hourly.time planned_start)
                  constraints.rain_free_hours)))
      where
        checks : List ConstraintCheck
        checks =
            evaluate_window at_or_after constraints hourly
              (find_hour_index at_or_after hourly.time planned_start)
              (find_hour_index at_or_after hourly.time planned_end)
