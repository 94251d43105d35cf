-- ===== src/Vantage/Settings/Guards.antt =====
-- What the setters of backend/app/protocol/vantage/driver.py do with an argument that they refuse.
use kanfei.Prelude.{ℕ, ◌<◌, ◌≡◌, ◌⊎◌, refl, false, arith}
use kanfei.Vantage.Link.{Port, raised, value_error}
use kanfei.Vantage.Settings.{
  HwConfig, member, clrvar_variables, clr_periods, is_legal_period, is_month, set_archive_period,
  set_rain_year_start, clear_variable, clear_highs, clear_lows,
}

not_month : (month : ℕ) → (month ≡ 0) ⊎ (12 < month) → is_month month ≡ false
unfolding is_month
not_month month outside = ground arith

not_period : (period : ℕ) → 2 < period → member period clr_periods ≡ false
unfolding member
not_period period outside = ground arith

-- A setter that is given an archive period that Davis does not have, a month outside 1 to 12, a
-- variable that is not in the manual's list or a range of records above 2 raises a ValueError and
-- sends nothing.
refused_send_nothing :
    (minutes month variable period : ℕ) (config : HwConfig) (p : Port)
    → is_legal_period minutes ≡ false
    → (month ≡ 0) ⊎ (12 < month)
    → member variable clrvar_variables ≡ false
    → 2 < period
    → (set_archive_period minutes config p ≡ (raised value_error, p))
      × (set_rain_year_start month p ≡ (raised value_error, p))
      × (clear_variable variable p ≡ (raised value_error, p))
      × (clear_highs period p ≡ (raised value_error, p))
      × (clear_lows period p ≡ (raised value_error, p))
unfolding set_archive_period set_rain_year_start clear_variable clear_highs clear_lows
refused_send_nothing minutes month variable period config p illegal no_month unlisted outside = (
  rw illegal refl,
  rw (not_month month no_month) refl,
  rw unlisted refl,
  rw (not_period period outside) refl,
  rw (not_period period outside) refl,
)
