-- ===== src/Vantage/Archive/Ranges.antt =====
-- What the fields of an accepted archive record can hold.
use kanfei.Prelude.{
  ℕ, ◌≤◌, ◌<◌, ◌≡◌, ◌≢◌, refl, true, none, some, List, [], ◌∷◌, length, arith, All, Each, get_or,
  ltb, leb, leb→le, ltb→lt, ◌==◌, ==_iff, all_below, all_below_sound, Bool-cases, inl, inr, subst,
  if◌then◌else◌,
}
use kanfei.Bytes.{Bytes, byte_at, u16_at}
use kanfei.Floats.{Float}
use kanfei.Calendar.{DateTime}
use kanfei.Vantage.Archive.Exact.{parsed_inversion}
use kanfei.Vantage.Archive.{
  ArchiveRecord, wind_dir_tenths, round_tenths, decode_wind_dir, percent, unless_eq, fill_record,
  parse_archive_record,
}

-- The compass rose in whole degrees.
abbrev pub rose : List ℕ
rose = 0 ∷ 22 ∷ 45 ∷ 68 ∷ 90 ∷ 112 ∷ 135 ∷ 158 ∷ 180 ∷ 202 ∷ 225 ∷ 248 ∷ 270 ∷ 292 ∷ 315 ∷ 338 ∷ []

rose_table :
    all_below 16 (λ code. round_tenths (get_or wind_dir_tenths code 0) == get_or rose code 0) ≡ true
unfolding all_below round_tenths
rose_table = refl

-- `_decode_wind_dir` gives for the codes 0 to 15 the sixteen points in whole degrees, halves rounded
-- to even, and nothing for any other code.
pub decode_wind_dir-eq-rose :
    (code : ℕ) → decode_wind_dir code ≡ (if ltb code 16 then some (get_or rose code 0) else none)
decode_wind_dir-eq-rose code = elim (Bool-cases (ltb 15 code)) [
  | inl above ↦ unfold decode_wind_dir in rw above (ground arith)
  | inr in_table ↦
      let found =
        (==_iff _ _).0 (all_below_sound 16 _ rose_table code (ground (arith, in_table))) in
      unfold decode_wind_dir in rw (in_table, found) (ground arith)
]

rose-lt_table : all_below 16 (λ code. ltb (get_or rose code 0) 360) ≡ true
unfolding all_below
rose-lt_table = refl

decode_wind_dir-lt : (code : ℕ) → Each (λ d. d < 360) (decode_wind_dir code)
decode_wind_dir-lt code = rw decode_wind_dir-eq-rose (elim (Bool-cases (ltb code 16)) [
  | inl inside ↦
      rw inside (ltb→lt _ _ (all_below_sound 16 _ rose-lt_table code (ltb→lt _ _ inside)))
  | inr outside ↦ rw outside tt
])

percent-le : (v : ℕ) → Each (λ p. p ≤ 100) (percent v)
percent-le v = elim (Bool-cases (v == 0xFF)) [
  | inl dashed ↦ unfold percent in rw dashed tt
  | inr there ↦ elim (Bool-cases (leb v 100)) [
    | inl low ↦ unfold percent in rw (there, low) (leb→le v 100 low)
    | inr high ↦ unfold percent in rw (there, high) tt
  ]
]

unless_eq-ne : (sentinel v : ℕ) → Each (λ p. p ≢ sentinel) (unless_eq sentinel v)
unless_eq-ne sentinel v = elim (Bool-cases (v == sentinel)) [
  | inl dashed ↦ unfold unless_eq in rw dashed tt
  | inr there ↦ unfold unless_eq in rw there (ground (arith, there))
]

module _ {F : Type 0} where
  -- What the console can have meant by the fields of a record.
  pub record IsPlausible (rec : ArchiveRecord F) : Type 0 where
    pub inside_humidity : Each (λ p. p ≤ 100) rec.inside_humidity
    pub outside_humidity : Each (λ p. p ≤ 100) rec.outside_humidity
    pub wind_dir_hi : Each (λ d. d < 360) rec.wind_dir_hi
    pub wind_dir_prevailing : Each (λ d. d < 360) rec.wind_dir_prevailing
    pub solar_radiation : Each (λ s. s ≢ 0x7FFF) rec.solar_radiation
    pub solar_radiation_hi : Each (λ s. s ≢ 0x7FFF) rec.solar_radiation_hi
    pub forecast_rule : Each (λ r. r ≢ 0xFF) rec.forecast_rule
    pub extra_humidities : All (Each (λ p. p ≤ 100)) rec.extra_humidities
    pub soil_moistures : All (Each (λ v. v ≢ 0xFF)) rec.soil_moistures
    pub leaf_wetnesses : All (Each (λ v. v ≢ 0xFF)) rec.leaf_wetnesses

  -- A record of revision A has none of the fields that revision B added; one of revision B has
  -- every slot of every array.
  pub record HasRevisionFields (rec : ArchiveRecord F) : Type 0 where
    pub rev_a :
        rec.record_type ≢ 0
        → (rec.solar_radiation_hi ≡ none)
          × (rec.uv_index_hi ≡ none)
          × (rec.forecast_rule ≡ none)
          × (rec.leaf_temps ≡ [])
          × (rec.leaf_wetnesses ≡ [])
          × (rec.soil_temps ≡ [])
          × (rec.extra_humidities ≡ [])
          × (rec.extra_temps ≡ [])
          × (rec.soil_moistures ≡ [])
    pub rev_b :
        rec.record_type ≡ 0
        → (length rec.leaf_temps ≡ 2)
          × (length rec.leaf_wetnesses ≡ 2)
          × (length rec.soil_temps ≡ 4)
          × (length rec.extra_humidities ≡ 2)
          × (length rec.extra_temps ≡ 3)
          × (length rec.soil_moistures ≡ 2)

module _ {F : Type 0} ⦃fl : Float F⦄ (click : F) (bytes : Bytes) (ts : DateTime) where
  fill_record-IsPlausible : IsPlausible (fill_record click bytes ts)
  fill_record-IsPlausible = elim (Bool-cases (byte_at bytes 42 == 0)) [
    | inl b ↦
        unfold parse_archive_record in
        rw b (record {
          inside_humidity = percent-le (byte_at bytes 22);
          outside_humidity = percent-le (byte_at bytes 23);
          wind_dir_hi = decode_wind_dir-lt (byte_at bytes 26);
          wind_dir_prevailing = decode_wind_dir-lt (byte_at bytes 27);
          solar_radiation = unless_eq-ne 0x7FFF (u16_at bytes 16);
          solar_radiation_hi = unless_eq-ne 0x7FFF (u16_at bytes 30);
          forecast_rule = unless_eq-ne 0xFF (byte_at bytes 33);
          extra_humidities = (percent-le (byte_at bytes 43), (percent-le (byte_at bytes 44), tt));
          soil_moistures =
              (unless_eq-ne 0xFF (byte_at bytes 48), (unless_eq-ne 0xFF (byte_at bytes 49), tt));
          leaf_wetnesses =
              (unless_eq-ne 0xFF (byte_at bytes 36), (unless_eq-ne 0xFF (byte_at bytes 37), tt));
        })
    | inr a ↦
        unfold parse_archive_record in
        rw a (record {
          inside_humidity = percent-le (byte_at bytes 22);
          outside_humidity = percent-le (byte_at bytes 23);
          wind_dir_hi = decode_wind_dir-lt (byte_at bytes 26);
          wind_dir_prevailing = decode_wind_dir-lt (byte_at bytes 27);
          solar_radiation = unless_eq-ne 0x7FFF (u16_at bytes 16);
          solar_radiation_hi = tt;
          forecast_rule = tt;
          extra_humidities = tt;
          soil_moistures = tt;
          leaf_wetnesses = tt;
        })
  ]

  fill_record-HasRevisionFields : HasRevisionFields (fill_record click bytes ts)
  fill_record-HasRevisionFields = elim (Bool-cases (byte_at bytes 42 == 0)) [
    | inl b ↦
        unfold parse_archive_record in
        rw b (record {
          rev_a = λ n. absurd (n (ground (arith, b)));
          rev_b = λ e. (refl, refl, refl, refl, refl, refl);
        })
    | inr a ↦
        unfold parse_archive_record in
        rw a (record {
          rev_a = λ n. (refl, refl, refl, refl, refl, refl, refl, refl, refl);
          rev_b = λ e. absurd (ground (arith, a, e));
        })
  ]

module _ {F : Type 0} ⦃fl : Float F⦄ where
  -- Every record that `parse_archive_record` gives has humidities of at most 100, wind directions
  -- below 360 and no dashed value in its other integer fields, in the arrays too. A record of
  -- revision A has none of the fields of revision B, and one of revision B has all their slots.
  parse_archive_record-IsPlausible :
      (bytes : Bytes) (click : F) (rec : ArchiveRecord F)
      → parse_archive_record bytes click ≡ some rec
      → IsPlausible rec × HasRevisionFields rec
  parse_archive_record-IsPlausible bytes click rec parsed =
      let same = (parsed_inversion bytes click rec parsed).2 in
      (
        subst IsPlausible same (fill_record-IsPlausible click bytes rec.timestamp),
        subst HasRevisionFields same (fill_record-HasRevisionFields click bytes rec.timestamp),
      )
