-- ===== src/WeatherLink/Commands.antt =====
-- The commands of backend/app/protocol/commands.py that the legacy driver sends, and the addresses of
-- backend/app/protocol/memory_map.py that it uses.
use kanfei.Prelude.{
  ℕ, ◌-◌, ◌*◌, Option, none, some, [], ◌∷◌, ◌++◌, bit_and, bit_or, ◌==◌, pos, sub_ℕ, if◌then◌else◌,
}
use kanfei.Bytes.{Bytes, pack_u16_le}

abbrev pub cr : ℕ
cr = 0x0D

unfoldable pub build_wwr_command : ℕ → ℕ → ℕ → Bytes → Bytes
build_wwr_command n_nibbles bank address payload =
    let bank_code = if bank == 0 then 0x01 else 0x03 in
    b'W'
    ∷ b'W'
    ∷ b'R'
    ∷ bit_or (bit_and n_nibbles 0x0F * 16) bank_code
    ∷ bit_and address 0xFF
    ∷ (payload ++ cr ∷ [])

-- (n_nibbles - 1) & 0xFF, for at least one nibble.
unfoldable pub build_rrd_command : ℕ → ℕ → ℕ → Bytes
build_rrd_command bank address n_nibbles =
    b'R'
    ∷ b'R'
    ∷ b'D'
    ∷ bit_and bank 0xFF
    ∷ bit_and address 0xFF
    ∷ bit_and (n_nibbles - 1) 0xFF
    ∷ cr
    ∷ []

abbrev pub srd : Option Bytes → Option Bytes → Option Bytes
srd none n = none
srd (some a) none = none
srd (some a) (some n) = some ((b'S' ∷ b'R' ∷ b'D' ∷ []) ++ a ++ n ++ cr ∷ [])

-- `none` is the `struct.error` of an address or a count that does not fit 16 bits.
unfoldable pub build_srd_command : ℕ → ℕ → Option Bytes
unfolding pack_u16_le
build_srd_command address n_bytes = srd (pack_u16_le (pos address)) (pack_u16_le (sub_ℕ n_bytes 1))

unfoldable pub build_sap_command : ℕ → Bytes
build_sap_command minutes = b'S' ∷ b'A' ∷ b'P' ∷ bit_and minutes 0xFF ∷ cr ∷ []

-- (256 - seconds) & 0xFF, for at most 256 seconds.
unfoldable pub build_ssp_command : ℕ → Bytes
build_ssp_command seconds = b'S' ∷ b'S' ∷ b'P' ∷ bit_and (256 - seconds) 0xFF ∷ cr ∷ []

abbrev pub build_stop_command : Bytes
build_stop_command = b'S' ∷ b'T' ∷ b'O' ∷ b'P' ∷ cr ∷ []

abbrev pub build_start_command : Bytes
build_start_command = b'S' ∷ b'T' ∷ b'A' ∷ b'R' ∷ b'T' ∷ cr ∷ []

abbrev pub build_arc_command : Bytes
build_arc_command = b'A' ∷ b'R' ∷ b'C' ∷ cr ∷ []

pub record MemAddr : Type 0 where
  pub bank : ℕ
  pub address : ℕ
  pub nibbles : ℕ

abbrev pub mem_addr : ℕ → ℕ → ℕ → MemAddr
mem_addr bank address nibbles = record { bank = bank; address = address; nibbles = nibbles }

-- The registers, those of a Monitor, Wizard or Perception and then those of a GroWeather, Energy or Health.
abbrev pub model : MemAddr
model = mem_addr 0 0x4D 1

abbrev pub bar_cal : MemAddr
bar_cal = mem_addr 1 0x2C 4

abbrev pub inside_temp_cal : MemAddr
inside_temp_cal = mem_addr 1 0x52 4

abbrev pub outside_temp_cal : MemAddr
outside_temp_cal = mem_addr 1 0x78 4

abbrev pub outside_humidity_cal : MemAddr
outside_humidity_cal = mem_addr 1 0xDA 4

abbrev pub rain_cal : MemAddr
rain_cal = mem_addr 1 0xD6 4

abbrev pub basic_time : MemAddr
basic_time = mem_addr 1 0xBE 6

abbrev pub basic_date : MemAddr
basic_date = mem_addr 1 0xC8 5

abbrev pub basic_rain_yearly : MemAddr
basic_rain_yearly = mem_addr 1 0xCE 4

abbrev pub basic_rain_daily : MemAddr
basic_rain_daily = mem_addr 1 0xD2 4

abbrev pub gro_time : MemAddr
gro_time = mem_addr 1 0x94 6

abbrev pub gro_date : MemAddr
gro_date = mem_addr 1 0x9E 5

abbrev pub gro_rain_yearly : MemAddr
gro_rain_yearly = mem_addr 1 0xC5 4

abbrev pub gro_rain_daily : MemAddr
gro_rain_daily = mem_addr 1 0xC9 3

abbrev pub new_archive_ptr : MemAddr
new_archive_ptr = mem_addr 1 0x00 4

abbrev pub old_archive_ptr : MemAddr
old_archive_ptr = mem_addr 1 0x04 4

abbrev pub sample_period : MemAddr
sample_period = mem_addr 1 0x13A 2

abbrev pub archive_period : MemAddr
archive_period = mem_addr 1 0x13C 2

abbrev pub gro_old_archive_ptr : MemAddr
gro_old_archive_ptr = mem_addr 1 0x06 4

abbrev pub gro_new_archive_ptr : MemAddr
gro_new_archive_ptr = mem_addr 1 0x0A 4

abbrev pub gro_archive_period : MemAddr
gro_archive_period = mem_addr 1 0x152 2
