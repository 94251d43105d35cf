-- ===== src/Ecowitt/Tests.antt =====
-- A gateway with concrete frames.
use kanfei.Prelude.{
  ℕ, ◌≡◌, refl, ◌↔◌, Bool, true, false, none, some, [], ◌∷◌, ◌++◌, ◌==◌, ℤ, arith, if◌then◌else◌,
}
use kanfei.Bytes.{Bytes}
use kanfei.Vantage.Sample.{whole}
use kanfei.Ecowitt.Protocol.{
  connection_error, incomplete_read, ok, Gateway, read_response, send_command,
}
use kanfei.Ecowitt.Protocol.Frames.{IsFrame, read_response_iff}
use kanfei.Ecowitt.Sensors.{parse_live_data}
use kanfei.Ecowitt.Sensors.Items.{Parsed, parse_live_data-Parsed}
use kanfei.Ecowitt.Driver.{cmd_livedata, poll}
use kanfei.Ecowitt.Driver.Attempts.{live_data, InVain, held, is_final, outcome, poll_settles}

-- 22.5 °C outside, 55 percent, and a marker that the table does not have.
abbrev payload : Bytes
payload = 0x02 ∷ 0x00 ∷ 225 ∷ 0x07 ∷ 55 ∷ 0xF0 ∷ []

abbrev frame : Bytes
frame = 0xFF ∷ 0xFF ∷ 0x27 ∷ 0 ∷ 10 ∷ (payload ++ 66 ∷ [])

abbrev here : Gateway
here = record { refused = none; answer = λ request. frame; ending = incomplete_read }

abbrev away : Gateway
away = record { refused = some connection_error; answer = λ request. []; ending = incomplete_read }

abbrev hasty : Gateway
hasty = record { refused = none; answer = λ request. 0xFF ∷ []; ending = incomplete_read }

answered : send_command here cmd_livedata [] ≡ ok payload
unfolding send_command
answered = refl

read_response_iff_example :
    (read_response incomplete_read frame ≡ ok (payload, [])) ↔ IsFrame payload [] frame
read_response_iff_example = read_response_iff incomplete_read frame payload []

parse_live_data-Parsed_example : Parsed payload [] (parse_live_data payload)
parse_live_data-Parsed_example = parse_live_data-Parsed payload

-- First it cannot be reached, then it closes the connection after a byte.
abbrev attempt : ℕ → Gateway × Bool
attempt i = if i == 0 then (away, false) else (hasty, false)

first-InVain : InVain attempt 0 1
unfolding send_command
first-InVain = ((connection_error, refl, refl), refl, tt)

second_final : is_final (live_data attempt 1) ≡ true
unfolding send_command
second_final = refl

poll_settles_example : poll {F = ℤ} attempt false true ≡ outcome (held 1 true) (live_data attempt 1)
poll_settles_example = poll_settles attempt 1 true (omega arith) first-InVain second_final
