-- ===== src/ArchiveSync/Sync.antt =====
-- The synchronisation: `async_sync_archive` of backend/app/services/archive_sync.py. The session of
-- backend/app/models/database.py does not flush by itself, so a query sees the two tables as they are
-- committed, and what was added waits for the next commit, which raises when two rows of the archive
-- table have one address and time (ArchiveRecordModel). A commit that fails for another reason, as on a
-- locked database or a full disk, is not modelled. What the driver answers is an argument, so any line can
-- be on the other side: the answers to the reads, in their order, and the time at which each is decoded.
pub mod Keys
pub mod Delivered
pub mod Again
use kanfei.Prelude.{
  ℕ, zero, suc, ◌+◌, ◌%◌, Bool, true, false, not, ◌&&◌, ◌||◌, Option, none, some, List, [], ◌∷◌,
  ◌++◌, ◌==◌, if◌then◌else◌,
}
use kanfei.Bytes.{Bytes}
use kanfei.Floats.{Float}
use kanfei.Calendar.{DateTime}
use kanfei.ArchiveSync.Ring.{iter_archive_addresses}
use kanfei.ArchiveSync.Records.{
  StationModel, ArchiveRow, archive_record_size_of, parse_archive_record,
}
use kanfei.ArchiveSync.Project.{Derived, SensorReading, project_to_sensor_reading}

-- The stored timestamps: how a record's time is stored, and the test that a stored time is in the
-- period of a number of minutes that ends with a record's time.
pub record Timestamps (T : Type 0) : Type 0 where
  pub stored : DateTime → T
  pub in_period : DateTime → ℕ → T → Bool

-- A read that failed raised an exception.
pub data Answer : Type 0 where
  answered : Option Bytes → Answer
  failed : Answer

pub record Driver : Type 0 where
  pub station_model : Option StationModel
  -- new_ptr, old_ptr
  pub archive_pointers : Option (ℕ × ℕ)
  pub archive_period : Option ℕ
  pub reads : ℕ → Answer × DateTime

unfoldable pub same_key : ArchiveRow → ArchiveRow → Bool
same_key a b =
    (a.archive_address == b.archive_address)
    && (a.record_time.year == b.record_time.year)
    && (a.record_time.month == b.record_time.month)
    && (a.record_time.day == b.record_time.day)
    && (a.record_time.hour == b.record_time.hour)
    && (a.record_time.minute == b.record_time.minute)

unfoldable pub has_key : ArchiveRow → List ArchiveRow → Bool
unfolding same_key
has_key row [] = false
has_key row (r ∷ rows) = same_key row r || has_key row rows

-- period or 1
abbrev pub period_or_one : Option ℕ → ℕ
period_or_one none = 1
period_or_one (some zero) = 1
period_or_one (some (suc n)) = suc n

pub record Store (T : Type 0) : Type 0 where
  pub archive_records : List ArchiveRow
  pub sensor_readings : List (SensorReading T)

abbrev pub nothing : {T : Type 0} → Store T
nothing = record { archive_records = []; sensor_readings = [] }

pub record Session (T : Type 0) : Type 0 where
  pub committed : Store T
  pub pending : Store T
  pub inserted : ℕ
  pub skipped : ℕ
  pub errors : ℕ

-- Whether a step raised.
pub data Progress (T : Type 0) : Type 0 where
  going : Session T → Progress T
  broken : Session T → Progress T

-- UniqueConstraint("archive_address", "record_time")
unfoldable pub is_unique : List ArchiveRow → Bool
unfolding has_key
is_unique [] = true
is_unique (row ∷ rows) = not (has_key row rows) && is_unique rows

module _ {T : Type 0} where
  -- What is committed, with what waits.
  abbrev pub joined : Session T → Store T
  joined s = record {
    archive_records = s.committed.archive_records ++ s.pending.archive_records;
    sensor_readings = s.committed.sensor_readings ++ s.pending.sensor_readings;
  }

  unfoldable pub commit : Session T → Progress T
  unfolding is_unique
  commit s =
      if is_unique (s.committed.archive_records ++ s.pending.archive_records)
      then going (record s { committed = joined s; pending = nothing })
      else broken s

  abbrev pub rollback : Session T → Session T
  rollback s = record s { pending = nothing }

  -- The rest of the `try` block, or what the `except` clause does.
  abbrev pub proceed : (Session T → Session T) → Progress T → Session T
  proceed rest (going s) = rest s
  proceed rest (broken s) = rollback s

  -- commit after every 100 inserts
  unfoldable pub commit_hundredth : Session T → Progress T
  unfolding commit
  commit_hundredth s = if s.inserted % 100 == 0 then commit s else going s

  abbrev pub count_error : Session T → Session T
  count_error s = record s { errors = s.errors + 1 }

  abbrev pub count_skipped : Session T → Session T
  count_skipped s = record s { skipped = s.skipped + 1 }

  abbrev pub opened : Store T → Session T
  opened store = record {
    committed = store;
    pending = nothing;
    inserted = 0;
    skipped = 0;
    errors = 0;
  }

module _ (F : Type 0) {T : Type 0} ⦃fl : Float F⦄ (calculations : Derived)
    (times : Timestamps T) where
  unfoldable pub has_live_in_period : ArchiveRow → List (SensorReading T) → Bool
  has_live_in_period row [] = false
  has_live_in_period row (r ∷ rs) =
      times.in_period row.record_time (period_or_one row.archive_interval) r.timestamp
      || has_live_in_period row rs

  -- The readings that wait once `row` is added: the query sees the committed ones.
  unfoldable pub bridged : ArchiveRow → Session T → List (SensorReading T)
  unfolding has_live_in_period
  bridged row s =
      if has_live_in_period row s.committed.sensor_readings
      then s.pending.sensor_readings
      else s.pending.sensor_readings
        ++ project_to_sensor_reading F calculations times.stored row ∷ []

  abbrev pub added : ArchiveRow → Session T → Session T
  added row s = record s {
    pending = record {
      archive_records = s.pending.archive_records ++ row ∷ [];
      sensor_readings = bridged row s;
    };
    inserted = s.inserted + 1;
  }

  unfoldable pub sync_row : ArchiveRow → Session T → Progress T
  unfolding has_key commit_hundredth bridged
  sync_row row s =
      if has_key row s.committed.archive_records
      then going (count_skipped s)
      else commit_hundredth (added row s)

  abbrev pub sync_parsed : Option ℕ → Option ArchiveRow → Session T → Progress T
  sync_parsed period none s = going (count_error s)
  sync_parsed period (some row) s = sync_row (record row { archive_interval = period }) s

  abbrev pub sync_raw :
      StationModel → Option ℕ → ℕ → DateTime → Option Bytes → Session T → Progress T
  sync_raw model period addr now none s = going (count_error s)
  sync_raw model period addr now (some raw) s =
      sync_parsed period (parse_archive_record now raw addr model) s

  -- A read that raises ends the loop too; `rest` is the loop over the addresses that are left.
  abbrev pub after_read :
      StationModel
      → Option ℕ
      → ℕ
      → (Session T → Session T)
      → Answer × DateTime
      → Session T
      → Session T
  after_read model period addr rest (failed, now) s = rollback s
  after_read model period addr rest (answered raw, now) s =
      proceed rest (sync_raw model period addr now raw s)

  -- One read for each address, and the commit at the end.
  unfoldable pub sync_loop :
      StationModel → Option ℕ → List ℕ → (ℕ → Answer × DateTime) → ℕ → Session T → Session T
  unfolding sync_row
  sync_loop model period [] reads i s = proceed (λ s'. s') (commit s)
  sync_loop model period (addr ∷ addrs) reads i s =
      after_read model period addr (sync_loop model period addrs reads (suc i)) (reads i) s

  -- The session after the loop, for a station of a known model whose pointers were read.
  unfoldable pub sync_from : Driver → StationModel → ℕ → ℕ → Store T → Session T
  unfolding sync_loop
  sync_from driver model new_ptr old_ptr store =
      sync_loop model driver.archive_period
        (iter_archive_addresses old_ptr new_ptr (archive_record_size_of model)) driver.reads 0
        (opened store)

  abbrev pub with_pointers : Driver → StationModel → Option (ℕ × ℕ) → Store T → Session T
  with_pointers driver model none store = opened store
  with_pointers driver model (some (new_ptr, old_ptr)) store =
      if old_ptr == new_ptr then opened store else sync_from driver model new_ptr old_ptr store

  abbrev pub with_model : Driver → Option StationModel → Store T → Session T
  with_model driver none store = opened store
  with_model driver (some model) store = with_pointers driver model driver.archive_pointers store

  -- The number that is returned, and the database that the session leaves behind.
  unfoldable pub async_sync_archive : Driver → Store T → ℕ × Store T
  unfolding sync_from
  async_sync_archive driver store =
      let s = with_model driver driver.station_model store in (s.inserted, s.committed)
