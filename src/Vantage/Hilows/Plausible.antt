-- ===== src/Vantage/Hilows/Plausible.antt =====
-- What `parse_hilows` of backend/app/protocol/vantage/hilows.py gives for any bytes.
use kanfei.Prelude.{
  ℕ, zero, suc, ◌+◌, ◌*◌, ◌/◌, ◌%◌, ◌≤◌, ◌<◌, ◌≡◌, ◌≢◌, refl, ◌||◌, Option, length, take, ltb, ◌==◌,
  All, Each, Bool-cases, inl, inr, arith,
}
use kanfei.Bytes.{Bytes, byte_at, u16_at}
use kanfei.Floats.{Float}
use kanfei.Crc.{crc_validate}
use kanfei.Vantage.Validity.{valid_humidity}
use kanfei.Vantage.Validity.Ranges.{valid_humidity-le}
use kanfei.Vantage.Hilows.{
  hilows_total_size, Time, HiLo, Period, HighsLows, dashed_u16, time_from_raw, soil_moisture,
  leaf_wetness, daily, slots, slot_period, highs_lows, parse_hilows,
}

abbrev pub IsTime : Time → Type 0
IsTime t = (t.hour < 24) × (t.minute < 60)

time_from_raw-IsTime : (raw : ℕ) → Each IsTime (time_from_raw raw)
unfolding time_from_raw
time_from_raw-IsTime raw = elim (Bool-cases (dashed_u16 raw)) [
  | inl e ↦ rw e tt
  | inr e ↦ rw e (elim (Bool-cases (ltb 23 (raw / 100) || ltb 59 (raw % 100))) [
    | inl out ↦ rw out tt
    | inr fits ↦ rw fits (ground (arith, fits), ground (arith, fits))
  ])
]

leaf_wetness-le : (raw : ℕ) → Each (λ w. w ≤ 15) (leaf_wetness raw)
unfolding leaf_wetness
leaf_wetness-le raw = elim (Bool-cases ((raw == 0xFF) || ltb 15 raw)) [
  | inl e ↦ rw e tt
  | inr e ↦ rw e (ground (arith, e))
]

soil_moisture-ne : (raw : ℕ) → Each (λ w. w ≢ 0xFF) (soil_moisture raw)
unfolding soil_moisture
soil_moisture-ne raw = elim (Bool-cases (raw == 0xFF)) [
  | inl e ↦ rw e tt
  | inr e ↦ rw e (ground (arith, e))
]

slots-All :
    {B : Type 0} (Q : B → Type 0) (n i : ℕ) (slot : ℕ → B)
    → ((j : ℕ) → Q (slot j))
    → All Q (slots n i slot)
slots-All Q zero i slot h = tt
slots-All Q (suc n) i slot h = (h i, slots-All Q n (suc i) slot h)

module _ {A : Type 0} (P : A → Type 0) where
  abbrev pub HiLoIs : HiLo A → Type 0
  HiLoIs h = Each P h.low × Each P h.high × Each IsTime h.time_low × Each IsTime h.time_high

  -- Its values satisfy `P`, and its times exist.
  abbrev pub PeriodIs : Period A → Type 0
  PeriodIs p = HiLoIs p.day × HiLoIs p.month × HiLoIs p.year

  slot_period-PeriodIs :
      (b : Bytes) (read : ℕ → Option A)
      → ((raw : ℕ) → Each P (read raw))
      → (low high time_low time_high month_high month_low year_high year_low i : ℕ)
      → PeriodIs
          (slot_period b read low high time_low time_high month_high month_low year_high year_low i)
  unfolding slot_period daily
  slot_period-PeriodIs b read h low high time_low time_high month_high month_low year_high year_low
        i =
      (
        (
          h (byte_at b (low + i)),
          h (byte_at b (high + i)),
          time_from_raw-IsTime (u16_at b (time_low + i * 2)),
          time_from_raw-IsTime (u16_at b (time_high + i * 2)),
        ),
        (h (byte_at b (month_low + i)), h (byte_at b (month_high + i)), tt, tt),
        (h (byte_at b (year_low + i)), h (byte_at b (year_high + i)), tt, tt),
      )

  slot_periods-All :
      (b : Bytes) (read : ℕ → Option A)
      → ((raw : ℕ) → Each P (read raw))
      → (low high time_low time_high month_high month_low year_high year_low n : ℕ)
      → All PeriodIs (
          slots n 0 (
            slot_period b read low high time_low time_high month_high month_low year_high year_low))
  slot_periods-All b read h low high time_low time_high month_high month_low year_high year_low n =
      slots-All PeriodIs n 0
        (slot_period b read low high time_low time_high month_high month_low year_high year_low)
        (slot_period-PeriodIs b read h low high time_low time_high month_high month_low year_high
          year_low)

-- The humidities are at most 100, the leaf wetnesses at most 15, no soil moisture is dashed, their times
-- exist, and each array has a slot for every sensor of its kind.
pub record IsPlausible {F : Type 0} (h : HighsLows F) : Type 0 where
  pub inside : PeriodIs (λ p. p ≤ 100) h.inside_humidity
  pub humidities : All (PeriodIs (λ p. p ≤ 100)) h.humidities
  pub leaves : All (PeriodIs (λ w. w ≤ 15)) h.leaf_wetnesses
  pub soils : All (PeriodIs (λ w. w ≢ 0xFF)) h.soil_moistures
  pub temp_slots :
      (length h.extra_temps ≡ 7) × (length h.soil_temps ≡ 4) × (length h.leaf_temps ≡ 4)
  pub slots :
      (length h.humidities ≡ 8) × (length h.soil_moistures ≡ 4) × (length h.leaf_wetnesses ≡ 4)

module _ {F : Type 0} ⦃fl : Float F⦄ (rain_click_inches : F) where
  highs_lows-IsPlausible : (b : Bytes) → IsPlausible (highs_lows rain_click_inches b)
  unfolding highs_lows daily
  highs_lows-IsPlausible b = record {
    inside = (
      (
        valid_humidity-le (byte_at b 38),
        valid_humidity-le (byte_at b 37),
        time_from_raw-IsTime (u16_at b 41),
        time_from_raw-IsTime (u16_at b 39),
      ),
      (valid_humidity-le (byte_at b 44), valid_humidity-le (byte_at b 43), tt, tt),
      (valid_humidity-le (byte_at b 46), valid_humidity-le (byte_at b 45), tt, tt),
    );
    humidities =
        slot_periods-All (λ (p : ℕ). p ≤ 100) b valid_humidity valid_humidity-le 276 284 292 308 324
          332 340 348 8;
    leaves =
        slot_periods-All (λ (p : ℕ). p ≤ 15) b leaf_wetness leaf_wetness-le 408 396 412 400 424 420
          432 428 4;
    soils =
        slot_periods-All (λ (p : ℕ). p ≢ 0xFF) b soil_moisture soil_moisture-ne 368 356 372 360 384
          380 392 388 4;
    temp_slots = (refl, refl, refl);
    slots = (refl, refl, refl);
  }

  -- Whatever the bytes are, highs and lows that `parse_hilows` gives have humidities of at most 100, leaf
  -- wetnesses of at most 15, no dashed soil moisture, times that exist for these, and every slot of the
  -- arrays.
  pub parse_hilows-IsPlausible :
      (block : Bytes) → Each IsPlausible (parse_hilows rain_click_inches block)
  unfolding parse_hilows
  parse_hilows-IsPlausible block = elim (Bool-cases (ltb (length block) hilows_total_size)) [
    | inl e ↦ rw e tt
    | inr e ↦ rw e (elim (Bool-cases (crc_validate (take hilows_total_size block))) [
      | inl e' ↦ rw e' (highs_lows-IsPlausible block)
      | inr e' ↦ rw e' tt
    ])
  ]
