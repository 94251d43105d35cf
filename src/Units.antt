-- ===== src/Units.antt =====
-- The conversions of backend/app/utils/units.py from the units of the Davis stations, over the interface
-- of Floats.
use kanfei.Prelude.{ℤ, pos, ◌-ℤ◌, ◌*ℤ◌}
use kanfei.Floats.{Float, of_int, decimal, ◌⊗◌, ◌⊘◌, round_int}

module _ (F : Type 0) ⦃fl : Float F⦄ where
  unfoldable pub f_tenths_to_c_tenths : ℤ → ℤ
  f_tenths_to_c_tenths f_tenths =
      round_int {F = F} (of_int ((f_tenths -ℤ pos 320) *ℤ pos 5) ⊘ of_int (pos 9))

  unfoldable pub inhg_thousandths_to_hpa_tenths : ℤ → ℤ
  inhg_thousandths_to_hpa_tenths inhg =
      round_int {F = F} (of_int inhg ⊗ decimal 338639 4 ⊘ of_int (pos 100))

  unfoldable pub mph_to_ms_tenths : ℤ → ℤ
  mph_to_ms_tenths mph = round_int {F = F} (of_int mph ⊗ decimal 44704 4)

  unfoldable pub in_hundredths_to_mm_tenths : ℤ → ℤ
  in_hundredths_to_mm_tenths inches = round_int {F = F} (of_int inches ⊗ decimal 254 2)
