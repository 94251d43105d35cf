-- ===== src/Crc/Tests.antt =====
-- The checksum at concrete messages.
use kanfei.Prelude.{ℕ, ◌+◌, ◌*◌, ◌≡◌, ◌↔◌, refl, true, false, List, [], ◌∷◌, ◌++◌, arith, inl}
use kanfei.Crc.{
  crc_calculate, crc_validate, crc_loop, crc_accum, crc_table, generate_crc_table, table_from,
  table_entry, rounds, shift_round,
}
use kanfei.Crc.Append.{crc_validate_iff_trailer}
use kanfei.Crc.Detect.{crc_validate_detects_burst}
use kanfei.Crc.Serial.{register, crc_calculate-eq-register}

-- The check value of this checksum, for the nine digits.
abbrev nine_digits : List ℕ
nine_digits = 0x31 ∷ 0x32 ∷ 0x33 ∷ 0x34 ∷ 0x35 ∷ 0x36 ∷ 0x37 ∷ 0x38 ∷ 0x39 ∷ []

check_value : crc_calculate nine_digits ≡ 0x31C3
unfolding crc_calculate crc_loop crc_accum crc_table generate_crc_table table_from table_entry
    rounds shift_round
check_value = refl

-- The bytes that precede CRC0 are the checksum of `CRC0` and its carriage return.
crc_validate_iff_trailer_example :
    (crc_validate (nine_digits ++ 0x31 ∷ 0xC3 ∷ []) ≡ true)
    ↔ (crc_calculate nine_digits ≡ 0x31 * 256 + 0xC3)
crc_validate_iff_trailer_example =
    crc_validate_iff_trailer nine_digits 0x31 0xC3 (omega arith) (omega arith)

nine_digits_pass : crc_validate (nine_digits ++ 0x31 ∷ 0xC3 ∷ []) ≡ true
nine_digits_pass = crc_validate_iff_trailer_example.1 check_value

-- The fourth and the fifth digit exchanged.
crc_validate_detects_burst_example :
    crc_validate
      ((0x31 ∷ 0x32 ∷ 0x33 ∷ []) ++ 0x35 ∷ 0x34 ∷ (0x36 ∷ 0x37 ∷ 0x38 ∷ 0x39 ∷ 0x31 ∷ 0xC3 ∷ []))
    ≡ false
crc_validate_detects_burst_example =
    crc_validate_detects_burst (0x31 ∷ 0x32 ∷ 0x33 ∷ [])
      (0x36 ∷ 0x37 ∷ 0x38 ∷ 0x39 ∷ 0x31 ∷ 0xC3 ∷ []) 0x34 0x35 0x35 0x34 (omega arith) (omega arith)
      (omega arith) (omega arith) (inl (omega arith)) nine_digits_pass

crc_calculate-eq-register_example : crc_calculate nine_digits ≡ register 0 nine_digits
crc_calculate-eq-register_example = crc_calculate-eq-register nine_digits (omega arith)
