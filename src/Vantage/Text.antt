-- ===== src/Vantage/Text.antt =====
-- Text of commands and replies on the wire: `str` of a number, and the test `needle in buf` of
-- `bytes`.
use kanfei.Prelude.{
  ℕ, zero, suc, ◌+◌, ◌/◌, ◌%◌, Bool, true, false, ◌&&◌, ◌||◌, [], ◌∷◌, ◌==◌, ℤ, pos, negsuc,
  if◌then◌else◌,
}
use kanfei.Bytes.{Bytes}

-- The digits of `v` to base 10 before `digits`; a number has at most as many digits as its value.
unfoldable pub dec_digits : ℕ → ℕ → Bytes → Bytes
dec_digits zero v digits = digits
dec_digits (suc fuel) v digits =
    let rest = dec_digits fuel (v / 10) ((48 + v % 10) ∷ digits) in if v == 0 then digits else rest

unfoldable pub str : ℕ → Bytes
unfolding dec_digits
str v = if v == 0 then 48 ∷ [] else dec_digits v v []

unfoldable pub str_ℤ : ℤ → Bytes
unfolding str
str_ℤ (pos v) = str v
str_ℤ (negsuc v) = b'-' ∷ str (v + 1)

-- buf.startswith(needle)
unfoldable pub starts_with : Bytes → Bytes → Bool
starts_with [] buf = true
starts_with (c ∷ needle) [] = false
starts_with (c ∷ needle) (b ∷ buf) = (c == b) && starts_with needle buf

-- needle in buf
unfoldable pub contains : Bytes → Bytes → Bool
unfolding starts_with
contains needle [] = starts_with needle []
contains needle (b ∷ buf) = starts_with needle (b ∷ buf) || contains needle buf
