-- ===== src/Vantage/Hilows/Tests.antt =====
-- Highs and lows at concrete bytes.
use kanfei.Prelude.{ℤ, pos, Each, replicate}
use kanfei.Bytes.{Bytes}
use kanfei.Vantage.Sample.{whole, sealed}
use kanfei.Vantage.Hilows.{parse_hilows}
use kanfei.Vantage.Hilows.Plausible.{IsPlausible, parse_hilows-IsPlausible}

abbrev block : Bytes
block = sealed (replicate 436 7)

parse_hilows-IsPlausible_example : Each IsPlausible (parse_hilows {F = ℤ} (pos 1) block)
parse_hilows-IsPlausible_example = parse_hilows-IsPlausible (pos 1) block
