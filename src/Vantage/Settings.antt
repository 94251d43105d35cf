-- ===== src/Vantage/Settings.antt =====
-- The settings of the console in backend/app/protocol/vantage/driver.py: archive period, start of the
-- rain year, and the commands that clear records, with the commands of
-- backend/app/protocol/vantage/commands.py. `hw_config` is passed along by the two methods that read
-- or write its archive interval.
pub mod Guards
mod Tests
use kanfei.Prelude.{
  ℕ, ◌+◌, Bool, true, false, ◌&&◌, ◌||◌, Option, none, some, List, [], ◌∷◌, ◌++◌, leb, not, ◌==◌,
  get_or, if◌then◌else◌,
}
use kanfei.Bytes.{Bytes, byte_at}
use kanfei.Vantage.Link.{Io, pure, raise, ◌>>=◌, ◌>>◌, value_error, name_error}
use kanfei.Vantage.Eeprom.{eeprom_read, eeprom_write}
use kanfei.Vantage.Text.{str}
use kanfei.Vantage.Reply.{status_command}

pub record HwConfig : Type 0 where
  pub archive_interval : Option ℕ

-- `v in xs`
unfoldable pub member : ℕ → List ℕ → Bool
member v [] = false
member v (x ∷ xs) = (v == x) || member v xs

abbrev pub davis_legal_archive_periods : List ℕ
davis_legal_archive_periods = 1 ∷ 5 ∷ 10 ∷ 15 ∷ 30 ∷ 60 ∷ 120 ∷ []

abbrev pub clrvar_variables : List ℕ
clrvar_variables = 13 ∷ 14 ∷ 16 ∷ 17 ∷ 25 ∷ 26 ∷ 27 ∷ []

abbrev pub clr_periods : List ℕ
clr_periods = 0 ∷ 1 ∷ 2 ∷ []

abbrev pub archive_interval_address : ℕ
archive_interval_address = 0x2D

abbrev pub rain_year_start_address : ℕ
rain_year_start_address = 0x2C

abbrev newline : Bytes
newline = 0x0A ∷ []

unfoldable pub cmd_setper : ℕ → Bytes
cmd_setper minutes = (b'S' ∷ b'E' ∷ b'T' ∷ b'P' ∷ b'E' ∷ b'R' ∷ b' ' ∷ []) ++ str minutes ++ newline

unfoldable pub cmd_clrvar : ℕ → Bytes
cmd_clrvar variable =
    (b'C' ∷ b'L' ∷ b'R' ∷ b'V' ∷ b'A' ∷ b'R' ∷ b' ' ∷ []) ++ str variable ++ newline

unfoldable pub cmd_clrhighs : ℕ → Bytes
cmd_clrhighs period =
    (b'C' ∷ b'L' ∷ b'R' ∷ b'H' ∷ b'I' ∷ b'G' ∷ b'H' ∷ b'S' ∷ b' ' ∷ []) ++ str period ++ newline

unfoldable pub cmd_clrlows : ℕ → Bytes
cmd_clrlows period =
    (b'C' ∷ b'L' ∷ b'R' ∷ b'L' ∷ b'O' ∷ b'W' ∷ b'S' ∷ b' ' ∷ []) ++ str period ++ newline

abbrev pub cmd_clrlog : Bytes
cmd_clrlog = b'C' ∷ b'L' ∷ b'R' ∷ b'L' ∷ b'O' ∷ b'G' ∷ 0x0A ∷ []

abbrev pub cmd_rxtest : Bytes
cmd_rxtest = b'R' ∷ b'X' ∷ b'T' ∷ b'E' ∷ b'S' ∷ b'T' ∷ 0x0A ∷ []

abbrev pub cmd_newsetup : Bytes
cmd_newsetup = b'N' ∷ b'E' ∷ b'W' ∷ b'S' ∷ b'E' ∷ b'T' ∷ b'U' ∷ b'P' ∷ 0x0A ∷ []

-- `if not raw: return None`, then `raw[0]` under its test.
abbrev pub register : (ℕ → Bool) → Option Bytes → Option ℕ
register legal none = none
register legal (some []) = none
register legal (some (value ∷ bytes)) = if legal value then some value else none

unfoldable pub is_legal_period : ℕ → Bool
unfolding member
is_legal_period minutes = member minutes davis_legal_archive_periods

-- The interval is cached in `hw_config` when it is legal.
abbrev pub cached : HwConfig → Option ℕ → Option ℕ × HwConfig
cached config none = (none, config)
cached config (some value) = (some value, record config { archive_interval = some value })

unfoldable pub read_archive_period : HwConfig → Io (Option ℕ × HwConfig)
unfolding is_legal_period
read_archive_period config = do
  bytes ← eeprom_read archive_interval_address 1
  pure (cached config (register is_legal_period bytes))

-- The branch without a confirmation formats a variable `response` that the method never binds, so
-- it raises a NameError.
abbrev pub after_setper : ℕ → HwConfig → Bool → Io (Bool × HwConfig)
after_setper minutes config true = pure (true, record config { archive_interval = some minutes })
after_setper minutes config false = raise name_error

unfoldable pub set_archive_period : ℕ → HwConfig → Io (Bool × HwConfig)
unfolding is_legal_period cmd_setper
set_archive_period minutes config =
    if is_legal_period minutes
    then status_command (cmd_setper minutes) >>= after_setper minutes config
    else raise value_error

unfoldable pub is_month : ℕ → Bool
is_month month = leb 1 month && leb month 12

unfoldable pub read_rain_year_start : Io (Option ℕ)
unfolding is_month
read_rain_year_start = do
  bytes ← eeprom_read rain_year_start_address 1
  pure (register is_month bytes)

unfoldable pub set_rain_year_start : ℕ → Io Bool
unfolding is_month
set_rain_year_start month =
    if is_month month then eeprom_write rain_year_start_address (month ∷ []) else raise value_error

unfoldable pub clear_variable : ℕ → Io Bool
unfolding member cmd_clrvar
clear_variable variable =
    if member variable clrvar_variables
    then status_command (cmd_clrvar variable)
    else raise value_error

unfoldable pub clear_rain_daily : Io Bool
clear_rain_daily = clear_variable 13

unfoldable pub clear_rain_yearly : Io Bool
clear_rain_yearly = clear_variable 17

unfoldable pub clear_highs : ℕ → Io Bool
unfolding member cmd_clrhighs
clear_highs period =
    if member period clr_periods then status_command (cmd_clrhighs period) else raise value_error

unfoldable pub clear_lows : ℕ → Io Bool
unfolding member cmd_clrlows
clear_lows period =
    if member period clr_periods then status_command (cmd_clrlows period) else raise value_error

unfoldable pub clear_log : Io Bool
clear_log = status_command cmd_clrlog

unfoldable pub rxtest : Io Bool
rxtest = status_command cmd_rxtest

unfoldable pub newsetup : Io Bool
newsetup = status_command cmd_newsetup
