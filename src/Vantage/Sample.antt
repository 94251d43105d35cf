-- ===== src/Vantage/Sample.antt =====
-- Test data that the tests of the Vantage protocol share.
use kanfei.Prelude.{◌/◌, ◌%◌, ◌≡◌, true, [], ◌∷◌, ◌++◌, arith, ℤ, pos}
use kanfei.Bytes.{Bytes}
use kanfei.Floats.{Float}
use kanfei.Crc.{crc_calculate, crc_validate}
use kanfei.Crc.Append.{crc_calculate-lt, crc_validate_iff_trailer}

-- A stand-in for the floats: whole numbers, on which the operations keep their first argument.
instance abbrev pub whole : Float ℤ
whole = record {
  of_int = λ n. n;
  decimal = λ n k. pos n;
  add = λ a b. a;
  sub = λ a b. a;
  mul = λ a b. a;
  div = λ a b. a;
  round_to = λ a n. a;
  round_int = λ a. a;
}

-- A message with its checksum behind it, which stands as a call.
abbrev pub sealed : Bytes → Bytes
sealed message = message ++ crc_calculate message / 256 ∷ crc_calculate message % 256 ∷ []

pub sealed_passes : (message : Bytes) → crc_validate (sealed message) ≡ true
sealed_passes message =
    (crc_validate_iff_trailer message (crc_calculate message / 256) (crc_calculate message % 256)
        (omega (arith, crc_calculate-lt message)) (omega arith)).1
      (omega arith)
