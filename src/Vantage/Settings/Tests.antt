-- ===== src/Vantage/Settings/Tests.antt =====
-- Settings at concrete arguments.
use kanfei.Prelude.{◌≡◌, refl, none, [], ◌∷◌, true, false}
use kanfei.Bytes.{Bytes}
use kanfei.Vantage.Link.{Port}
use kanfei.Vantage.Transfer.Recovery.{port}
use kanfei.Vantage.Transfer.Session.{wakeup_response}
use kanfei.Vantage.Settings.{HwConfig, is_legal_period, member, clrvar_variables}

-- \n\rOK, with \n\r behind it
abbrev reply : Bytes
reply = 0x0A ∷ 0x0D ∷ b'O' ∷ b'K' ∷ []

abbrev config : HwConfig
config = record { archive_interval = none }

seven : is_legal_period 7 ≡ false
unfolding is_legal_period
seven = refl

fifteen : member 15 clrvar_variables ≡ false
unfolding member
fifteen = refl

ten : is_legal_period 10 ≡ true
unfolding is_legal_period
ten = refl

-- The console wakes, and then says nothing.
abbrev silent : Port
silent = port ((wakeup_response, false) ∷ []) []
