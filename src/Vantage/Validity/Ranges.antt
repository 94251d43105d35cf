-- ===== src/Vantage/Validity/Ranges.antt =====
-- What the tests of backend/app/protocol/vantage/loop_packet.py let through.
use kanfei.Prelude.{
  ℕ, ◌/◌, ◌%◌, ◌≤◌, ◌<◌, ◌≡◌, ◌≢◌, ◌↔◌, refl, Bool, true, false, ◌||◌, none, some, ◌==◌, ℤ, pos,
  negsuc, eqb_ℤ, ◌≤ℤ◌, Each, arith, Bool-cases, inl, inr, if◌then◌else◌,
}
use kanfei.Vantage.Validity.{
  valid_temp, valid_humidity, valid_barometer, valid_uv, valid_solar, valid_rain_rate,
  valid_wind_dir, valid_wind_speed, valid_derived_temp, valid_clock,
}

-- A value is kept as it is, and the test that it passed holds of it.
guard :
    {A : Type 0} (P : A → Type 0) (refused : Bool) (a : A)
    → (refused ≡ false → P a)
    → Each P (if refused then none else some a)
guard P true a h = tt
guard P false a h = h refl

pub valid_humidity-le : (v : ℕ) → Each (λ p. p ≤ 100) (valid_humidity v)
unfolding valid_humidity
valid_humidity-le v = guard (λ p. p ≤ 100) _ v (λ e. ground (arith, e))

pub valid_wind_dir-le : (v : ℕ) → Each (λ p. p ≤ 360) (valid_wind_dir v)
unfolding valid_wind_dir
valid_wind_dir-le v = guard (λ p. p ≤ 360) _ v (λ e. ground (arith, e))

pub valid_solar-lt : (v : ℕ) → Each (λ p. p < 0x7FFF) (valid_solar v)
unfolding valid_solar
valid_solar-lt v = guard (λ p. p < 0x7FFF) _ v (λ e. ground (arith, e))

pub valid_wind_speed-ne : (v : ℕ) → Each (λ p. p ≢ 0xFF) (valid_wind_speed v)
unfolding valid_wind_speed
valid_wind_speed-ne v = guard (λ p. p ≢ 0xFF) _ v (λ e. ground (arith, e))

pub valid_uv-ne : (v : ℕ) → Each (λ p. p ≢ 0xFF) (valid_uv v)
unfolding valid_uv
valid_uv-ne v = guard (λ p. p ≢ 0xFF) _ v (λ e. ground (arith, e))

pub valid_rain_rate-ne : (v : ℕ) → Each (λ p. p ≢ 0xFFFF) (valid_rain_rate v)
unfolding valid_rain_rate
valid_rain_rate-ne v = guard (λ p. p ≢ 0xFFFF) _ v (λ e. ground (arith, e))

pub valid_barometer-ne : (v : ℕ) → Each (λ p. (p ≢ 0) × (p ≢ 0xFFFF)) (valid_barometer v)
unfolding valid_barometer
valid_barometer-ne v =
    guard (λ p. (p ≢ 0) × (p ≢ 0xFFFF)) _ v (λ e. (ground (arith, e), ground (arith, e)))

abbrev pub IsClock : ℕ → Type 0
IsClock v = (v / 100 < 24) × (v % 100 < 60) × (v ≢ 0)

pub valid_clock-IsClock : (v : ℕ) → Each IsClock (valid_clock v)
unfolding valid_clock
valid_clock-IsClock v = elim (Bool-cases ((v == 0) || (v == 0xFFFF) || (v == 0x7FFF))) [
  | inl dashed ↦ rw dashed tt
  | inr there ↦
      rw there
        (guard IsClock _ v (λ e. (ground (arith, e), ground (arith, e), ground (arith, there))))
]

abbrev pub IsAirTemp : ℤ → Type 0
IsAirTemp t = (negsuc 899 ≤ℤ t) × (t ≤ℤ pos 2500)

pub valid_temp-IsAirTemp : (v : ℤ) → Each IsAirTemp (valid_temp v)
unfolding valid_temp
valid_temp-IsAirTemp v = elim (Bool-cases (eqb_ℤ v (pos 0x7FFF) || eqb_ℤ v (negsuc 32767))) [
  | inl dashed ↦ rw dashed tt
  | inr there ↦ rw there (guard IsAirTemp _ v (λ e. (ground (arith, e), ground (arith, e))))
]

-- `_valid_derived_temp` keeps exactly the temperatures from -150 to 200 °F other than -1 °F, which
-- is a temperature that a console can compute.
pub valid_derived_temp_iff :
    (v : ℤ)
    → (valid_derived_temp v ≡ some v) ↔ ((negsuc 149 ≤ℤ v) × (v ≤ℤ pos 200) × (v ≢ negsuc 0))
unfolding valid_derived_temp
valid_derived_temp_iff v = (forth v, back v)
  where
    forth :
        (v : ℤ)
        → valid_derived_temp v ≡ some v
        → (negsuc 149 ≤ℤ v) × (v ≤ℤ pos 200) × (v ≢ negsuc 0)
    forth (pos n) e = ground (arith, e)
    forth (negsuc n) e = ground (arith, e)

    back :
        (v : ℤ)
        → (negsuc 149 ≤ℤ v) × (v ≤ℤ pos 200) × (v ≢ negsuc 0)
        → valid_derived_temp v ≡ some v
    back (pos n) h = ground (arith, h)
    back (negsuc n) h = ground (arith, h)
