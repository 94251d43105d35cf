-- ===== src/Lib.antt =====
-- Kanfei: a weather station server, and what of it is verified here.
--
-- A driver polls the station over a serial line, its packets become readings in SI units, and
-- services store, watch and forecast from them. This library is about the Python code under
-- backend/app, from the wire up.
--
-- Which file models what:
--   Crc        backend/app/protocol/crc.py: the table, crc_accum, crc_calculate, crc_validate.
--   Bytes      the fields of a byte string, `struct` and _unpack_* of
--              backend/app/protocol/loop_packet.py.
--   Floats     Python's float as an interface; Calendar: the datetime constructor and its order.
--   Vantage.Stamp     date and time stamps of backend/app/protocol/vantage/archive.py, and
--                     build_dmpaft_timestamp of backend/app/protocol/vantage/commands.py.
--   Vantage.Archive   parse_archive_record and parse_archive_page of archive.py.
--   Vantage.Link      send, receive, receive_byte and flush of
--                     backend/app/protocol/serial_port.py, and _wakeup of
--                     backend/app/protocol/vantage/driver.py.
--   Vantage.Transfer  _read_archive_pages, dmp and dmpaft of driver.py.
--   Vantage.Validity  _valid_* and _decode_extra_temp of
--                     backend/app/protocol/vantage/loop_packet.py.
--   Vantage.Loop      parse_loop and parse_loop2 of loop_packet.py.
--   Vantage.Snapshot  loop_to_snapshot of loop_packet.py and SensorSnapshot of
--                     backend/app/protocol/base.py.
--   Vantage.Poll      _poll_sync, _poll_lps and _poll_loop_only of driver.py.
--   Vantage.Eeprom    _eeprom_read, _eeprom_read_once and _eeprom_write of driver.py.
--   Vantage.Text, Vantage.Reply       text on the wire, and _read_status_reply of driver.py.
--   Vantage.Settings  the archive period, the start of the rain year, the clear commands, rxtest and
--                     newsetup of driver.py.
--   Vantage.Clock     read_station_time and write_station_time of driver.py.
--   Vantage.Calibration  _caled, _calfix, write_calibration and read_calibration of driver.py.
--   Vantage.Diagnostics  _read_station_type_code, receivers, get_eeprom, set_yearly_rain and
--                     set_yearly_et of driver.py.
--   Vantage.Hilows    backend/app/protocol/vantage/hilows.py, and hilows of driver.py.
--   Alerts     backend/app/services/alerts.py: load_thresholds, check and _extract.
--   ArchiveSync.Stamp, .Records, .Ring, .Project, .Sync
--              backend/app/services/archive_sync.py, the synchronisation with the archive of a
--              WeatherLink, from the bytes of a record to the two tables of the database.
--   Catchup    backend/app/services/dmpaft_catchup.py: async_backfill_from_vantage, with its floor and
--              the projection of an archive record.
--   Spray      backend/app/services/spray_engine.py: evaluate_conditions, evaluate_current and
--              find_optimal_window, with their checks.
--   WeatherLink.Commands, .Memory, .Registers, .Clock, .Calibration, .Packet, .Loop, .Driver
--              backend/app/protocol/link_driver.py, the driver of the legacy stations, with commands.py,
--              memory_map.py and loop_packet.py beside it. It shares the serial link of Vantage.Link.
--   Ecowitt.Protocol, .Sensors, .Driver
--              backend/app/protocol/ecowitt: send_command, parse_live_data and poll.
--   LogBuffer  backend/app/services/log_buffer.py: emit and get_entries.
--   RateLimit  backend/app/services/bot_ratelimit.py: is_limited.
-- Prelude holds the shared names, lists, integers and the laws of the bit operations.
--
-- How the state corresponds. A port is the answers of the reads to come, the byte strings sent so
-- far, and whether a stop was requested; a method of the driver is a function from a port to a
-- result or an exception and the port afterwards. A read carries whether another thread requests a
-- stop while it blocks, so every interleaving of `request_stop` with the reads is an inbox.
--
-- The database of a synchronisation is its two tables, as they are committed, and what waits for the
-- next commit; the answers of the driver to its reads are an argument, and any of them may raise.
--
-- Bounds. Python's int is ℕ, or ℤ where the code can go below zero. A loop over a range is a
-- recursion on the rounds that are left, with the source's own number of rounds. The digits of a
-- number in a command have the number itself as fuel, which has no more digits than that, and a
-- loop over the ring of archive addresses has the distance to its end.
--
-- Not modelled: the log, the sleeps, the locks, pyserial behind the port, and the arithmetic of
-- floats, which is a parameter: no theorem here rests on the value of a float. The derived values of
-- backend/app/services/calculations.py and the comparison of stored timestamps are parameters of the
-- synchronisation and of the catch-up. A commit fails on the unique key only, not on a locked database
-- or a full disk. The other services, the other drivers, the web API and the rest of the database are
-- not modelled.
pub mod Prelude
pub mod Crc
pub mod Bytes
pub mod Floats
pub mod Units
pub mod Calendar
pub mod Vantage
pub mod Alerts
pub mod Catchup
pub mod Spray
pub mod WeatherLink
pub mod Ecowitt
pub mod LogBuffer
pub mod RateLimit
pub mod ArchiveSync
