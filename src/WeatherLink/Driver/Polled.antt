-- ===== src/WeatherLink/Driver/Polled.antt =====
-- No operation of the legacy driver leaves the station stopped.
use kanfei.Prelude.{
  ℕ, Bool, true, false, ◌&&◌, Option, none, some, List, [], ◌∷◌, leb, ◌≡◌, refl, if◌then◌else◌,
}
use mathlib.Core.Option
use kanfei.Bytes.{Bytes, byte_at, u16_at}
use kanfei.Floats.{Float}
use kanfei.Vantage.Link.{Port, value_error, Io, pure, ◌>>=◌, ◌>>◌, send, receive, flush}
use kanfei.ArchiveSync.Records.{StationModel}
use kanfei.WeatherLink.Commands.{
  new_archive_ptr, old_archive_ptr, gro_new_archive_ptr, gro_old_archive_ptr, archive_period,
  gro_archive_period, gro_rain_yearly, basic_rain_yearly, basic_rain_daily, build_arc_command,
  bar_cal, inside_temp_cal, outside_temp_cal, outside_humidity_cal, rain_cal, build_sap_command,
  build_ssp_command, MemAddr,
}
use kanfei.WeatherLink.Memory.{
  attempts, when_acked, retried, wait_for_ack, read_station_memory, read_link_memory, read_archive,
  write_station_memory,
}
use kanfei.WeatherLink.Registers.{
  while_stopped, write_register, detect_station_type, detected, read_archive_pointers, pointers_at,
  read_archive_period, read_sample_period, set_archive_period, set_sample_period, clear_rain_daily,
  clear_rain_yearly, read_rain_daily, read_rain_yearly, force_archive, decoded_sample, legal_period,
  daily_clicks, rain_daily_addr, long_enough, is_gro, is_davis_period,
}
use kanfei.WeatherLink.Clock.{
  StationTime, read_station_time, write_station_time, read_clock, write_clock, time_addr, date_addr,
  date_nibbles, station_time,
}
use kanfei.WeatherLink.Calibration.{
  CalibrationOffsets, refreshed, with_inside, with_outside, with_bar, with_hum, with_rain,
  read_calibration, write_offsets, write_calibration, settled,
}
use kanfei.WeatherLink.Loop.{
  build_loop_command, read_packet, send_loop_once, apply_calibration, poll_loop,
}
use kanfei.WeatherLink.Driver.{
  loop, Operation, station_memory, link_memory, archive, store, detect, sample_period, clear_daily,
  clear_yearly, force, pointers, period, time, rain_daily, rain_yearly, set_archive, set_sample,
  set_time, calibration, set_calibration, ignoring, perform, perform_all,
}
use kanfei.WeatherLink.Driver.Keeps.{
  is_polled, Polled, Keeps, bind-Keeps, then-Keeps, retried-Keeps, pure-Keeps, send-Keeps,
  wait_for_ack-Keeps, flush-Keeps, read_station_memory-Keeps, read_link_memory-Keeps,
  write_station_memory-Keeps, decoded-Keeps, setting-Keeps, while_stopped-Keeps, archive-Keeps,
}

detected-Keeps : (found : Option Bytes) → Keeps (detected found)
detected-Keeps none p on = on
detected-Keeps (some bytes) p on = on

pointers_at-Keeps : (new_addr old_addr : MemAddr) → Keeps (pointers_at new_addr old_addr)
pointers_at-Keeps new_addr old_addr =
    decoded-Keeps (read_link_memory new_addr.bank new_addr.address new_addr.nibbles) 2 _
      (read_link_memory-Keeps new_addr.bank new_addr.address new_addr.nibbles)
      (λ new.
        decoded-Keeps (read_link_memory old_addr.bank old_addr.address old_addr.nibbles) 2 _
          (read_link_memory-Keeps old_addr.bank old_addr.address old_addr.nibbles)
          (λ old. pure-Keeps {A = Option (ℕ × ℕ)} (some (u16_at new 0, u16_at old 0))))

read_clock-Keeps : (gro : Bool) → Keeps (read_clock gro)
read_clock-Keeps gro =
    decoded-Keeps
      (read_station_memory (time_addr gro).bank (time_addr gro).address (time_addr gro).nibbles) 3 _
      (read_station_memory-Keeps (time_addr gro).bank (time_addr gro).address
        (time_addr gro).nibbles)
      (λ time_data.
        decoded-Keeps
          (read_station_memory (date_addr gro).bank (date_addr gro).address (date_nibbles gro)) 2 _
          (read_station_memory-Keeps (date_addr gro).bank (date_addr gro).address
            (date_nibbles gro))
          (λ date_data. pure-Keeps (some (station_time gro time_data date_data))))

refreshed-Keeps :
    (addr : MemAddr) (update : CalibrationOffsets → Option Bytes → CalibrationOffsets)
    (held : CalibrationOffsets)
    → Keeps (refreshed addr update held)
refreshed-Keeps addr update held =
    bind-Keeps (read_station_memory addr.bank addr.address addr.nibbles)
      (λ found. pure (update held (long_enough 2 found)))
      (read_station_memory-Keeps addr.bank addr.address addr.nibbles)
      (λ found. pure-Keeps (update held (long_enough 2 found)))

module _ (held : CalibrationOffsets) where
  abbrev inside : Io CalibrationOffsets
  inside = flush >> refreshed inside_temp_cal with_inside held

  abbrev outside : Io CalibrationOffsets
  outside = inside >>= refreshed outside_temp_cal with_outside

  abbrev bar : Io CalibrationOffsets
  bar = outside >>= refreshed bar_cal with_bar

  abbrev hum : Io CalibrationOffsets
  hum = bar >>= refreshed outside_humidity_cal with_hum

  read_calibration-Keeps : Keeps (read_calibration held)
  unfolding read_calibration
  read_calibration-Keeps =
      bind-Keeps hum (refreshed rain_cal with_rain)
        (bind-Keeps bar (refreshed outside_humidity_cal with_hum)
          (bind-Keeps outside (refreshed bar_cal with_bar)
            (bind-Keeps inside (refreshed outside_temp_cal with_outside)
              (then-Keeps flush (refreshed inside_temp_cal with_inside held) flush-Keeps
                (refreshed-Keeps inside_temp_cal with_inside held))
              (refreshed-Keeps outside_temp_cal with_outside))
            (refreshed-Keeps bar_cal with_bar))
          (refreshed-Keeps outside_humidity_cal with_hum))
        (refreshed-Keeps rain_cal with_rain)

write_calibration-Keeps :
    (held offsets : CalibrationOffsets) → Keeps (write_calibration held offsets)
unfolding write_calibration
write_calibration-Keeps held offsets =
    bind-Keeps (while_stopped (write_offsets offsets)) (settled held offsets)
      (while_stopped-Keeps (write_offsets offsets)) settle
  where
    settle : (written : Bool) → Keeps (settled held offsets written)
    settle true = pure-Keeps {A = Bool × CalibrationOffsets} (true, offsets)
    settle false =
        bind-Keeps (read_calibration held) (λ actual. pure (false, actual))
          (read_calibration-Keeps held)
          (λ actual. pure-Keeps {A = Bool × CalibrationOffsets} (false, actual))

ignoring-Keeps : {A : Type 0} (m : Io A) → Keeps m → Keeps (ignoring m)
ignoring-Keeps m km = bind-Keeps m (λ a. pure tt) km (λ a. pure-Keeps tt)

read_sample_period-Keeps : Keeps read_sample_period
unfolding read_sample_period
read_sample_period-Keeps =
    decoded-Keeps (read_link_memory 1 0x13A 2) 1 (λ bytes. pure (decoded_sample (byte_at bytes 0)))
      (read_link_memory-Keeps 1 0x13A 2) (λ bytes. pure-Keeps (decoded_sample (byte_at bytes 0)))

pointers-Keeps : (m : Option StationModel) → Keeps (read_archive_pointers m)
unfolding read_archive_pointers
pointers-Keeps none p on = on
pointers-Keeps (some m) p on = choose (is_gro m)
  where
    choose :
        (gro : Bool)
        → Polled
            ((if gro
                then pointers_at gro_new_archive_ptr gro_old_archive_ptr
                else pointers_at new_archive_ptr old_archive_ptr)
              p).1
    choose true = pointers_at-Keeps gro_new_archive_ptr gro_old_archive_ptr p on
    choose false = pointers_at-Keeps new_archive_ptr old_archive_ptr p on

module _ (m : StationModel) where
  abbrev period_addr : MemAddr
  period_addr = if is_gro m then gro_archive_period else archive_period

  abbrev yearly_addr : MemAddr
  yearly_addr = if is_gro m then gro_rain_yearly else basic_rain_yearly

  period-Keeps : Keeps (read_archive_period (some m))
  unfolding read_archive_period
  period-Keeps =
      decoded-Keeps (read_link_memory period_addr.bank period_addr.address period_addr.nibbles) 1
        (λ bytes. pure (legal_period bytes))
        (read_link_memory-Keeps period_addr.bank period_addr.address period_addr.nibbles)
        (λ bytes. pure-Keeps (legal_period bytes))

  yearly-Keeps : Keeps (read_rain_yearly (some m))
  unfolding read_rain_yearly
  yearly-Keeps =
      decoded-Keeps (read_station_memory yearly_addr.bank yearly_addr.address yearly_addr.nibbles) 2
        (λ bytes. pure (some (u16_at bytes 0)))
        (read_station_memory-Keeps yearly_addr.bank yearly_addr.address yearly_addr.nibbles)
        (λ bytes. pure-Keeps (some (u16_at bytes 0)))

  daily-Keeps : Keeps (read_rain_daily (some m))
  unfolding read_rain_daily
  daily-Keeps =
      decoded-Keeps
        (read_station_memory (rain_daily_addr m).bank (rain_daily_addr m).address
          (rain_daily_addr m).nibbles)
        2 (λ bytes. pure (some (daily_clicks m bytes)))
        (read_station_memory-Keeps (rain_daily_addr m).bank (rain_daily_addr m).address
          (rain_daily_addr m).nibbles)
        (λ bytes. pure-Keeps (some (daily_clicks m bytes)))

module _ (F : Type 0) ⦃fl : Float F⦄ where
  packet-Keeps : (m : StationModel) (acked : Bool) → Keeps (when_acked (read_packet F m) acked)
  unfolding read_packet receive
  packet-Keeps m false p on = on
  packet-Keeps m true p on = on

  send_loop_once-Keeps : (m : StationModel) → Keeps (send_loop_once F m)
  unfolding send_loop_once build_loop_command
  send_loop_once-Keeps m =
      bind-Keeps (flush >> send (build_loop_command 1) >> wait_for_ack)
        (when_acked (read_packet F m))
        (then-Keeps (flush >> send (build_loop_command 1)) wait_for_ack
          (then-Keeps flush (send (build_loop_command 1)) flush-Keeps
            (send-Keeps (build_loop_command 1) refl))
          wait_for_ack-Keeps)
        (packet-Keeps m)

  poll_loop-Keeps :
      (m : StationModel) (held : CalibrationOffsets) → Keeps (poll_loop F (some m) held)
  unfolding poll_loop
  poll_loop-Keeps m held =
      bind-Keeps (retried (send_loop_once F m) attempts)
        (λ found. pure (Option.map (apply_calibration F held) found))
        (retried-Keeps (send_loop_once F m) attempts (send_loop_once-Keeps m))
        (λ found. pure-Keeps (Option.map (apply_calibration F held) found))

  -- Each operation, whatever the station answers.
  perform-Keeps : (op : Operation) → Keeps (perform F op)
  unfolding perform detect_station_type read_archive_pointers read_archive_period read_sample_period
      set_archive_period set_sample_period clear_rain_daily clear_rain_yearly read_rain_daily
      read_rain_yearly force_archive poll_loop read_station_time write_station_time
      build_sap_command build_ssp_command
  perform-Keeps (station_memory bank address n) =
      ignoring-Keeps (read_station_memory bank address n) (read_station_memory-Keeps bank address n)
  perform-Keeps (link_memory bank address n) =
      ignoring-Keeps (read_link_memory bank address n) (read_link_memory-Keeps bank address n)
  perform-Keeps (archive address n) =
      ignoring-Keeps (read_archive address n) (archive-Keeps address n)
  perform-Keeps (store bank address n payload) =
      ignoring-Keeps (write_station_memory bank address n payload)
        (write_station_memory-Keeps bank address n payload)
  perform-Keeps detect = ignoring-Keeps detect_station_type (
      bind-Keeps (read_station_memory 0 0x4D 1) detected (read_station_memory-Keeps 0 0x4D 1)
        detected-Keeps)
  perform-Keeps sample_period = ignoring-Keeps read_sample_period read_sample_period-Keeps
  perform-Keeps clear_daily =
      ignoring-Keeps clear_rain_daily
        (while_stopped-Keeps (write_register basic_rain_daily (0 ∷ 0 ∷ [])))
  perform-Keeps clear_yearly =
      ignoring-Keeps clear_rain_yearly
        (while_stopped-Keeps (write_register basic_rain_yearly (0 ∷ 0 ∷ [])))
  perform-Keeps force = ignoring-Keeps force_archive (
      then-Keeps (flush >> send build_arc_command) wait_for_ack
        (then-Keeps flush (send build_arc_command) flush-Keeps (send-Keeps build_arc_command refl))
        wait_for_ack-Keeps)
  perform-Keeps (pointers m) = ignoring-Keeps (read_archive_pointers m) (pointers-Keeps m)
  perform-Keeps (period none) =
      ignoring-Keeps (read_archive_period none) (pure-Keeps {A = Option ℕ} none)
  perform-Keeps (period (some m)) = ignoring-Keeps (read_archive_period (some m)) (period-Keeps m)
  perform-Keeps (time none) =
      ignoring-Keeps (read_station_time none) (pure-Keeps {A = Option StationTime} none)
  perform-Keeps (time (some m)) =
      ignoring-Keeps (read_station_time (some m)) (read_clock-Keeps (is_gro m))
  perform-Keeps (rain_daily none) =
      ignoring-Keeps (read_rain_daily none) (pure-Keeps {A = Option ℕ} none)
  perform-Keeps (rain_daily (some m)) = ignoring-Keeps (read_rain_daily (some m)) (daily-Keeps m)
  perform-Keeps (rain_yearly none) =
      ignoring-Keeps (read_rain_yearly none) (pure-Keeps {A = Option ℕ} none)
  perform-Keeps (rain_yearly (some m)) = ignoring-Keeps (read_rain_yearly (some m)) (yearly-Keeps m)
  perform-Keeps (set_archive minutes) =
      ignoring-Keeps (set_archive_period minutes)
        (setting-Keeps (is_davis_period minutes) value_error (build_sap_command minutes) refl)
  perform-Keeps (set_sample seconds) = ignoring-Keeps (set_sample_period seconds) (
      setting-Keeps (leb 1 seconds && leb seconds 255) value_error (build_ssp_command seconds) refl)
  perform-Keeps (set_time none dt second) =
      ignoring-Keeps (write_station_time none dt second) (pure-Keeps false)
  perform-Keeps (set_time (some m) dt second) =
      ignoring-Keeps (write_station_time (some m) dt second)
        (while_stopped-Keeps (write_clock (is_gro m) dt second))
  perform-Keeps (calibration held) =
      ignoring-Keeps (read_calibration held) (read_calibration-Keeps held)
  perform-Keeps (loop none held) = ignoring-Keeps (poll_loop F none held) (λ p on. on)
  perform-Keeps (loop (some m) held) =
      ignoring-Keeps (poll_loop F (some m) held) (poll_loop-Keeps m held)
  perform-Keeps (set_calibration held offsets) =
      ignoring-Keeps (write_calibration held offsets) (write_calibration-Keeps held offsets)

  -- A station that is polled is polled after any operations, those of Operation, whatever it answers,
  -- whenever a stop of the program is requested, and whichever of them raise: each STOP that was sent is
  -- followed by a START. `stop_polling` and `start_polling` by themselves are not among the operations.
  pub perform_all-is_polled :
      (ops : List Operation) (p : Port)
      → is_polled true p.sent ≡ true
      → is_polled true (perform_all F ops p).sent ≡ true
  unfolding perform_all
  perform_all-is_polled [] p on = on
  perform_all-is_polled (op ∷ ops) p on =
      perform_all-is_polled ops (perform F op p).1 (perform-Keeps op p on)
