-- ===== src/Vantage/Loop/Packets.antt =====
-- What the parsers of backend/app/protocol/vantage/loop_packet.py accept and give.
use kanfei.Prelude.{
  ℕ, zero, suc, ◌+◌, ◌<◌, ◌≤◌, ◌≡◌, ◌≢◌, refl, ap, ◌∙◌, Bool, true, Option, none, some, [], ◌∷◌,
  length, length-take, ltb, ltb_ge, take, ◌==◌, ==_iff, not, All, Each, arith, if◌then◌else◌, subst,
}
use kanfei.Bytes.{Bytes, byte_at, u16_at, i8_at, i16_at}
use kanfei.Bytes.Laws.{byte_at-take}
use kanfei.Floats.{Float}
use kanfei.Crc.{crc_validate}
use kanfei.Vantage.Validity.{valid_humidity}
use kanfei.Vantage.Validity.Ranges.{
  valid_humidity-le, valid_wind_dir-le, valid_solar-lt, valid_wind_speed-ne, valid_uv-ne,
  valid_rain_rate-ne, valid_barometer-ne, IsClock, valid_clock-IsClock, IsAirTemp,
  valid_temp-IsAirTemp,
}
use kanfei.Vantage.Loop.{
  LoopData, Loop2Data, has_header, slots, loop_fields, loop2_fields, parse_loop, parse_loop2,
}

-- The conditions on a packet that both parsers share.
pub record IsSealed (raw : Bytes) : Type 0 where
  pub long : 99 ≤ length raw
  pub header : has_header raw ≡ true
  pub checked : crc_validate (take 99 raw) ≡ true

-- Three tests in a row give a value exactly when none of them refuses.
three_tests :
    {A : Type 0} (n : ℕ) (header checked : Bool) (a b : A)
    → (if ltb n 99 then none else if not header then none else if not checked then none else some a)
      ≡ some b
    → (99 ≤ n) × (header ≡ true) × (checked ≡ true) × (a ≡ b)
three_tests n header checked a b e = ground (arith, e)

four_tests :
    {A : Type 0} (n : ℕ) (header typed checked : Bool) (a b : A)
    → (if ltb n 99
        then none
        else if not header
        then none
        else if not typed
        then none
        else if not checked
        then none
        else some a)
      ≡ some b
    → (99 ≤ n) × (header ≡ true) × (typed ≡ true) × (checked ≡ true) × (a ≡ b)
four_tests n header typed checked a b e = ground (arith, e)

take-take : (n : ℕ) (xs : Bytes) → take n (take n xs) ≡ take n xs
take-take zero xs = refl
take-take (suc n) [] = refl
take-take (suc n) (x ∷ xs) = ap (λ (t : Bytes). x ∷ t) (take-take n xs)

module _ {F : Type 0} ⦃fl : Float F⦄ where
  pub parse_loop_inversion :
      (raw : Bytes) (d : LoopData F)
      → parse_loop raw ≡ some d
      → IsSealed raw × (loop_fields raw ≡ d)
  unfolding parse_loop
  parse_loop_inversion raw d parsed =
      let t = three_tests (length raw) (has_header raw) (crc_validate (take 99 raw)) _ d parsed in
      (record { long = t.0; header = t.1; checked = t.2 }, t.3)

  -- `parse_loop` accepts every packet that `parse_loop2` accepts, though those are of type 1 and
  -- laid out otherwise: it gives LOOP fields for a LOOP2 packet.
  parse_loop_of_loop2 :
      (raw : Bytes) (d : Loop2Data)
      → parse_loop2 raw ≡ some d
      → (byte_at raw 4 ≡ 1) × (parse_loop {F = F} raw ≡ some (loop_fields raw))
  unfolding parse_loop parse_loop2
  parse_loop_of_loop2 raw d parsed =
      let t =
        four_tests (length raw) (has_header raw) (byte_at raw 4 == 1) (crc_validate (take 99 raw)) _
          d parsed in
      ((==_iff _ 1).0 t.2, rw (ltb_ge 99 (length raw) t.0, t.1, t.3) refl)

  loop_fields-take : (raw : Bytes) → loop_fields {F = F} (take 99 raw) ≡ loop_fields raw
  unfolding loop_fields slots u16_at i8_at i16_at
  loop_fields-take raw = simp (byte_at-take) refl

loop2_fields-take : (raw : Bytes) → loop2_fields (take 99 raw) ≡ loop2_fields raw
unfolding loop2_fields u16_at i8_at i16_at
loop2_fields-take raw = simp (byte_at-take) refl

slots-All :
    {A : Type 0} (P : A → Type 0) (decode : ℕ → Option A)
    → ((v : ℕ) → Each P (decode v))
    → (n i : ℕ) (raw : Bytes) → All (Each P) (slots decode n i raw)
unfolding slots
slots-All P decode h zero i raw = tt
slots-All P decode h (suc n) i raw = (h (byte_at raw i), slots-All P decode h n (i + 1) raw)

-- The values that a LOOP packet can stand for.
pub record IsPlausible {F : Type 0} (d : LoopData F) : Type 0 where
  pub inside_temp : Each IsAirTemp d.inside_temp
  pub outside_temp : Each IsAirTemp d.outside_temp
  pub inside_humidity : Each (λ p. p ≤ 100) d.inside_humidity
  pub outside_humidity : Each (λ p. p ≤ 100) d.outside_humidity
  pub wind_speed : Each (λ p. p ≢ 0xFF) d.wind_speed
  pub wind_speed_10min : Each (λ p. p ≢ 0xFF) d.wind_speed_10min
  pub wind_direction : Each (λ p. p ≤ 360) d.wind_direction
  pub barometer : Each (λ p. (p ≢ 0) × (p ≢ 0xFFFF)) d.barometer
  pub rain_rate : Each (λ p. p ≢ 0xFFFF) d.rain_rate
  pub uv_index : Each (λ p. p ≢ 0xFF) d.uv_index
  pub solar_radiation : Each (λ p. p < 0x7FFF) d.solar_radiation
  pub sunrise : Each IsClock d.sunrise
  pub sunset : Each IsClock d.sunset
  pub extra_humidities : All (Each (λ p. p ≤ 100)) d.extra_humidities
  pub sizes :
      (length d.extra_temps ≡ 7)
      × (length d.soil_temps ≡ 4)
      × (length d.leaf_temps ≡ 4)
      × (length d.extra_humidities ≡ 7)
      × (length d.soil_moistures ≡ 4)
      × (length d.leaf_wetnesses ≡ 4)

module _ {F : Type 0} ⦃fl : Float F⦄ where
  loop_fields-IsPlausible : (raw : Bytes) → IsPlausible (loop_fields {F = F} raw)
  unfolding loop_fields slots
  loop_fields-IsPlausible raw = record {
    inside_temp = valid_temp-IsAirTemp (i16_at raw 9);
    outside_temp = valid_temp-IsAirTemp (i16_at raw 12);
    inside_humidity = valid_humidity-le (byte_at raw 11);
    outside_humidity = valid_humidity-le (byte_at raw 33);
    wind_speed = valid_wind_speed-ne (byte_at raw 14);
    wind_speed_10min = valid_wind_speed-ne (byte_at raw 15);
    wind_direction = valid_wind_dir-le (u16_at raw 16);
    barometer = valid_barometer-ne (u16_at raw 7);
    rain_rate = valid_rain_rate-ne (u16_at raw 41);
    uv_index = valid_uv-ne (byte_at raw 43);
    solar_radiation = valid_solar-lt (u16_at raw 44);
    sunrise = valid_clock-IsClock (u16_at raw 91);
    sunset = valid_clock-IsClock (u16_at raw 93);
    extra_humidities = slots-All (λ p. p ≤ 100) valid_humidity valid_humidity-le 7 34 raw;
    sizes = (refl, refl, refl, refl, refl, refl);
  }

  -- Whatever bytes come over the line, what `parse_loop` gives has temperatures from -90.0 to 250.0
  -- °F, humidities of at most 100, a wind direction of at most 360, clock times that exist, no
  -- dashed value of wind speed, barometer, rain rate, UV index or solar radiation, and every slot of
  -- its arrays.
  pub parse_loop-IsPlausible :
      (raw : Bytes) (d : LoopData F) → parse_loop raw ≡ some d → IsPlausible d
  parse_loop-IsPlausible raw d parsed =
      subst IsPlausible (parse_loop_inversion raw d parsed).1 (loop_fields-IsPlausible raw)

  -- When the 99 bytes of a packet are there, what follows them changes neither the result of
  -- `parse_loop` nor that of `parse_loop2`.
  pub parse_loop-take :
      (raw : Bytes)
      → 99 ≤ length raw
      → (parse_loop {F = F} (take 99 raw) ≡ parse_loop raw)
        × (parse_loop2 (take 99 raw) ≡ parse_loop2 raw)
  unfolding parse_loop parse_loop2 has_header
  parse_loop-take raw long =
      let exact : length (take 99 raw) ≡ 99 = length-take 99 raw ∙ omega arith in
      (
        rw (exact, ltb_ge 99 (length raw) long, loop_fields-take raw, take-take 99 raw)
            (simp (byte_at-take) refl),
        rw (exact, ltb_ge 99 (length raw) long, loop2_fields-take raw, take-take 99 raw)
            (simp (byte_at-take) refl),
      )

loop2_solar-lt : (raw : Bytes) → Each (λ v. v < 0x7FFF) (loop2_fields raw).solar_radiation
unfolding loop2_fields
loop2_solar-lt raw = valid_solar-lt (u16_at raw 44)

pub solar-lt_loop2 :
    (raw : Bytes) (l : Loop2Data)
    → parse_loop2 raw ≡ some l
    → Each (λ v. v < 0x7FFF) l.solar_radiation
unfolding parse_loop2
solar-lt_loop2 raw l parsed =
    let t =
      four_tests (length raw) (has_header raw) (byte_at raw 4 == 1) (crc_validate (take 99 raw)) _ l
        parsed in
    subst (λ (d : Loop2Data). Each (λ v. v < 0x7FFF) d.solar_radiation) t.4 (loop2_solar-lt raw)
