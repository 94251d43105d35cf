-- ===== src/WeatherLink/Registers.antt =====
-- What backend/app/protocol/link_driver.py reads from and writes to single registers of a legacy station.
-- The model that was detected is an argument, `none` before `detect_station_type`.
use kanfei.Prelude.{
  ℕ, ◌-◌, Bool, true, false, ◌&&◌, ◌||◌, Option, none, some, [], ◌∷◌, length, ltb, leb, ◌==◌,
  bit_and, if◌then◌else◌,
}
use kanfei.Bytes.{Bytes, byte_at, u16_at}
use kanfei.Vantage.Link.{
  ok, raised, connection_error, value_error, Io, pure, raise, ◌>>=◌, ◌>>◌, send, flush,
}
use kanfei.ArchiveSync.Records.{
  StationModel, wizard_iii, wizard_ii, monitor, perception, groweather, energy, health, old_link,
}
use kanfei.WeatherLink.Commands.{
  build_sap_command, build_ssp_command, build_stop_command, build_start_command, build_arc_command,
  MemAddr, model, basic_rain_yearly, basic_rain_daily, gro_rain_yearly, gro_rain_daily,
  new_archive_ptr, old_archive_ptr, sample_period, archive_period, gro_old_archive_ptr,
  gro_new_archive_ptr, gro_archive_period,
}
use kanfei.WeatherLink.Memory.{
  wait_for_ack, read_station_memory, read_link_memory, write_station_memory,
}

-- The constructor of the enumeration; `none` is its ValueError.
abbrev pub station_model : ℕ → Option StationModel
station_model code =
    if code == 0
    then some wizard_iii
    else if code == 1
    then some wizard_ii
    else if code == 2
    then some monitor
    else if code == 3
    then some perception
    else if code == 4
    then some groweather
    else if code == 5
    then some energy
    else if code == 6
    then some health
    else if code == 0xF
    then some old_link
    else none

abbrev pub or_monitor : Option StationModel → StationModel
or_monitor none = monitor
or_monitor (some m) = m

abbrev pub detected : Option Bytes → Io StationModel
detected none = raise connection_error
detected (some bytes) = pure (or_monitor (station_model (bit_and (byte_at bytes 0) 0x0F)))

abbrev pub read_register : MemAddr → Io (Option Bytes)
read_register addr = read_station_memory addr.bank addr.address addr.nibbles

abbrev pub read_link_register : MemAddr → Io (Option Bytes)
read_link_register addr = read_link_memory addr.bank addr.address addr.nibbles

abbrev pub write_register : MemAddr → Bytes → Io Bool
write_register addr payload = write_station_memory addr.bank addr.address addr.nibbles payload

unfoldable pub detect_station_type : Io StationModel
unfolding read_station_memory
detect_station_type = read_register model >>= detected

abbrev pub is_gro : StationModel → Bool
is_gro groweather = true
is_gro energy = true
is_gro health = true
is_gro _ = false

-- Data of at least `n` bytes.
abbrev pub long_enough : ℕ → Option Bytes → Option Bytes
long_enough n none = none
long_enough n (some bytes) = if ltb (length bytes) n then none else some bytes

abbrev pub when_there : {A : Type 0} → (Bytes → Io (Option A)) → Option Bytes → Io (Option A)
when_there f none = pure none
when_there f (some bytes) = f bytes

abbrev pub pointers_at : MemAddr → MemAddr → Io (Option (ℕ × ℕ))
pointers_at new_addr old_addr = read_link_register new_addr >>= λ new_data.
    when_there
      (λ new. read_link_register old_addr >>= λ old_data.
        when_there (λ old. pure (some (u16_at new 0, u16_at old 0))) (long_enough 2 old_data))
      (long_enough 2 new_data)

unfoldable pub read_archive_pointers : Option StationModel → Io (Option (ℕ × ℕ))
unfolding read_link_memory
read_archive_pointers none = pure none
read_archive_pointers (some m) =
    if is_gro m
    then pointers_at gro_new_archive_ptr gro_old_archive_ptr
    else pointers_at new_archive_ptr old_archive_ptr

-- DAVIS_LEGAL_ARCHIVE_PERIODS
abbrev pub is_davis_period : ℕ → Bool
is_davis_period m =
    (m == 1) || (m == 5) || (m == 10) || (m == 15) || (m == 30) || (m == 60) || (m == 120)

abbrev pub legal_period : Bytes → Option ℕ
legal_period bytes = if is_davis_period (byte_at bytes 0) then some (byte_at bytes 0) else none

unfoldable pub read_archive_period : Option StationModel → Io (Option ℕ)
unfolding read_link_memory
read_archive_period none = pure none
read_archive_period (some m) =
    read_link_register (if is_gro m then gro_archive_period else archive_period) >>= λ found.
    when_there (λ bytes. pure (legal_period bytes)) (long_enough 1 found)

abbrev pub decoded_sample : ℕ → Option ℕ
decoded_sample raw =
    let decoded = if raw == 0 then 256 else 256 - raw in
    if leb 1 decoded && leb decoded 255 then some decoded else none

unfoldable pub read_sample_period : Io (Option ℕ)
unfolding read_link_memory
read_sample_period = read_link_register sample_period >>= λ found.
    when_there (λ bytes. pure (decoded_sample (byte_at bytes 0))) (long_enough 1 found)

unfoldable pub set_archive_period : ℕ → Io Bool
unfolding flush send wait_for_ack build_sap_command
set_archive_period minutes =
    if is_davis_period minutes
    then flush >> send (build_sap_command minutes) >> wait_for_ack
    else raise value_error

unfoldable pub set_sample_period : ℕ → Io Bool
unfolding flush send wait_for_ack build_ssp_command
set_sample_period seconds =
    if leb 1 seconds && leb seconds 255
    then flush >> send (build_ssp_command seconds) >> wait_for_ack
    else raise value_error

unfoldable pub stop_polling : Io Bool
unfolding send wait_for_ack
stop_polling = send build_stop_command >> wait_for_ack

unfoldable pub start_polling : Io Bool
unfolding send wait_for_ack
start_polling = send build_start_command >> wait_for_ack

-- `try: … finally: start_polling()`, after a `stop_polling()`.
abbrev pub finally : {A B : Type 0} → Io A → Io B → Io A
finally m last p =
    let (r, p') = m p in
    let (s, p'') = last p' in elim s [ ok b ↦ (r, p'') | raised e ↦ (raised e, p'') ]

unfoldable pub while_stopped : {A : Type 0} → Io A → Io A
unfolding stop_polling start_polling
while_stopped body = stop_polling >> finally body start_polling

unfoldable pub clear_rain_daily : Io Bool
unfolding while_stopped write_station_memory
clear_rain_daily = while_stopped (write_register basic_rain_daily (0 ∷ 0 ∷ []))

unfoldable pub clear_rain_yearly : Io Bool
unfolding while_stopped write_station_memory
clear_rain_yearly = while_stopped (write_register basic_rain_yearly (0 ∷ 0 ∷ []))

abbrev pub rain_daily_addr : StationModel → MemAddr
rain_daily_addr m = if is_gro m then gro_rain_daily else basic_rain_daily

-- Three nibbles leave four bits of the second byte unused.
abbrev pub daily_clicks : StationModel → Bytes → ℕ
daily_clicks m bytes =
    if (rain_daily_addr m).nibbles == 3 then bit_and (u16_at bytes 0) 0x0FFF else u16_at bytes 0

unfoldable pub read_rain_daily : Option StationModel → Io (Option ℕ)
unfolding read_station_memory
read_rain_daily none = pure none
read_rain_daily (some m) = read_register (rain_daily_addr m) >>= λ found.
    when_there (λ bytes. pure (some (daily_clicks m bytes))) (long_enough 2 found)

unfoldable pub read_rain_yearly : Option StationModel → Io (Option ℕ)
unfolding read_station_memory
read_rain_yearly none = pure none
read_rain_yearly (some m) =
    read_register (if is_gro m then gro_rain_yearly else basic_rain_yearly) >>= λ found.
    when_there (λ bytes. pure (some (u16_at bytes 0))) (long_enough 2 found)

unfoldable pub force_archive : Io Bool
unfolding flush send wait_for_ack
force_archive = flush >> send build_arc_command >> wait_for_ack
