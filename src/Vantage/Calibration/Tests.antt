-- ===== src/Vantage/Calibration/Tests.antt =====
-- Calibration at concrete bytes.
use kanfei.Prelude.{◌≡◌, refl, false, List, [], ◌∷◌, ◌++◌, Bool, pos, eqb_ℤ, replicate}
use kanfei.Bytes.{Bytes, byte_at, u16_at, i16_at, signed16}
use kanfei.Vantage.Sample.{sealed}
use kanfei.Vantage.Transfer.{ack}
use kanfei.Vantage.Transfer.Session.{wakeup_response}
use kanfei.Vantage.Calibration.{EeAddr, cal_outside_temp}

-- 70.5 °F at the start of the block, and an offset of -2
abbrev block : Bytes
block = 0xC1 ∷ 2 ∷ replicate 41 0

reading : i16_at block 0 ≡ pos 705
unfolding i16_at signed16 u16_at byte_at
reading = refl

there : eqb_ℤ (i16_at block 0) (pos 0x7FFF) ≡ false
there = rw reading refl

-- The answers to a calibration of the outside temperature: the block, four offsets, the write of the
-- offset, and the block that goes back.
abbrev offset_answers : List (Bytes × Bool)
offset_answers = (wakeup_response, false) ∷ (ack ∷ [], false) ∷ (sealed (0 ∷ []), false) ∷ []

abbrev write_answers : List (Bytes × Bool)
write_answers = (wakeup_response, false) ∷ (ack ∷ [], false) ∷ (ack ∷ [], false) ∷ []

abbrev answers : List (Bytes × Bool)
answers =
    ((wakeup_response, false) ∷ (ack ∷ [], false) ∷ (sealed block, false) ∷ [])
    ++ offset_answers
    ++ offset_answers
    ++ offset_answers
    ++ offset_answers
    ++ write_answers
    ++ write_answers

abbrev outside_temp : EeAddr
outside_temp = record { address = cal_outside_temp; n_bytes = 1 }
