-- ===== src/WeatherLink/Driver.antt =====
-- The methods of LinkDriver in backend/app/protocol/link_driver.py as one type of operations, with what
-- they do to the link. `stop_polling` and `start_polling` are left out: they are called by themselves to
-- stop and to start the polling. `poll` sends what `poll_loop`, `read_rain_daily` and `read_rain_yearly`
-- send, one after the other.
pub mod Keeps
pub mod Polled
use kanfei.Prelude.{ℕ, Option, List, [], ◌∷◌}
use kanfei.Bytes.{Bytes}
use kanfei.Calendar.{DateTime}
use kanfei.Floats.{Float}
use kanfei.Vantage.Link.{Port, Io, pure, ◌>>=◌, ◌>>◌}
use kanfei.ArchiveSync.Records.{StationModel}
use kanfei.WeatherLink.Memory.{
  read_station_memory, read_link_memory, read_archive, write_station_memory,
}
use kanfei.WeatherLink.Registers.{
  detect_station_type, read_archive_pointers, read_archive_period, read_sample_period,
  set_archive_period, set_sample_period, clear_rain_daily, clear_rain_yearly, read_rain_daily,
  read_rain_yearly, force_archive,
}
use kanfei.WeatherLink.Clock.{read_station_time, write_station_time}
use kanfei.WeatherLink.Loop.{poll_loop}
use kanfei.WeatherLink.Calibration.{CalibrationOffsets, read_calibration, write_calibration}

pub data Operation : Type 0 where
  station_memory link_memory : ℕ → ℕ → ℕ → Operation
  archive : ℕ → ℕ → Operation
  store : ℕ → ℕ → ℕ → Bytes → Operation
  detect sample_period clear_daily clear_yearly force : Operation
  pointers period time rain_daily rain_yearly : Option StationModel → Operation
  set_archive set_sample : ℕ → Operation
  set_time : Option StationModel → DateTime → ℕ → Operation
  calibration : CalibrationOffsets → Operation
  loop : Option StationModel → CalibrationOffsets → Operation
  set_calibration : CalibrationOffsets → CalibrationOffsets → Operation

abbrev pub ignoring : {A : Type 0} → Io A → Io (Unit {0})
ignoring m = m >>= λ a. pure tt

module _ (F : Type 0) ⦃fl : Float F⦄ where
  unfoldable pub perform : Operation → Io (Unit {0})
  unfolding poll_loop
  perform (station_memory bank address n) = ignoring (read_station_memory bank address n)
  perform (link_memory bank address n) = ignoring (read_link_memory bank address n)
  perform (archive address n) = ignoring (read_archive address n)
  perform (store bank address n payload) = ignoring (write_station_memory bank address n payload)
  perform detect = ignoring detect_station_type
  perform sample_period = ignoring read_sample_period
  perform clear_daily = ignoring clear_rain_daily
  perform clear_yearly = ignoring clear_rain_yearly
  perform force = ignoring force_archive
  perform (pointers m) = ignoring (read_archive_pointers m)
  perform (period m) = ignoring (read_archive_period m)
  perform (time m) = ignoring (read_station_time m)
  perform (rain_daily m) = ignoring (read_rain_daily m)
  perform (rain_yearly m) = ignoring (read_rain_yearly m)
  perform (set_archive minutes) = ignoring (set_archive_period minutes)
  perform (set_sample seconds) = ignoring (set_sample_period seconds)
  perform (set_time m dt second) = ignoring (write_station_time m dt second)
  perform (calibration held) = ignoring (read_calibration held)
  perform (loop m held) = ignoring (poll_loop F m held)
  perform (set_calibration held offsets) = ignoring (write_calibration held offsets)

  -- Operations one after the other, each whether or not the one before raised.
  unfoldable pub perform_all : List Operation → Port → Port
  perform_all [] p = p
  perform_all (op ∷ ops) p = perform_all ops (perform op p).1
