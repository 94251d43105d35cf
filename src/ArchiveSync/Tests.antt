-- ===== src/ArchiveSync/Tests.antt =====
-- A synchronisation with concrete records.
use kanfei.Prelude.{
  ◌+◌, ◌≡◌, ◌<◌, refl, true, none, some, inr, [], ◌∷◌, ℤ, length, replicate, arith, All, get_elem?,
  ◌++◌,
}
use kanfei.Bytes.{Bytes}
use kanfei.Calendar.{DateTime, is_valid, before_or_at}
use kanfei.Vantage.Sample.{whole}
use kanfei.ArchiveSync.Stamp.{decode_archive_timestamp}
use kanfei.ArchiveSync.Stamp.Laws.{archive_stamp, IsRecent, decode_archive_timestamp-archive_stamp}
use kanfei.ArchiveSync.Ring.{sram_max_addr, walk, sweep, iter_archive_addresses}
use kanfei.ArchiveSync.Ring.Walk.{Distinct, position, sweep_ends, iter_archive_addresses-Distinct}
use kanfei.ArchiveSync.Records.{monitor, archive_record_size_of}
use kanfei.ArchiveSync.Project.{Derived}
use kanfei.ArchiveSync.Sync.{Timestamps, answered, Driver, Store, async_sync_archive}
use kanfei.ArchiveSync.Sync.Delivered.{insert_delivered, async_sync_archive-eq-insert_delivered}
use kanfei.ArchiveSync.Sync.Again.{async_sync_archive_again}

-- New Year's Day, and a record of the evening before.
abbrev now : DateTime
now = record { year = 2026; month = 1; day = 1; hour = 0; minute = 5 }

abbrev evening : DateTime
evening = record { year = 2025; month = 12; day = 31; hour = 23; minute = 45 }

evening_valid : is_valid evening ≡ true
unfolding is_valid
evening_valid = refl

evening_past : before_or_at evening now ≡ true
unfolding before_or_at
evening_past = refl

evening-IsRecent : IsRecent now evening
unfolding is_valid before_or_at
evening-IsRecent = inr (refl, refl, refl)

decode_archive_timestamp-archive_stamp_example :
    decode_archive_timestamp now (archive_stamp evening) 0 ≡ some evening
decode_archive_timestamp-archive_stamp_example =
    decode_archive_timestamp-archive_stamp now evening evening_valid evening_past evening-IsRecent

sweep_ends_example :
    (walk 100 0 42 21 ≡ sweep 0 42 21) × (get_elem? (sweep 0 42 21) 1 ≡ position 21 42 0 1)
sweep_ends_example = sweep_ends 0 42 21 100 1 (omega arith) (omega arith)

iter_archive_addresses-Distinct_example :
    Distinct (iter_archive_addresses 0x7EF0 42 21)
    × All (λ a. a < sram_max_addr) (iter_archive_addresses 0x7EF0 42 21)
iter_archive_addresses-Distinct_example =
    iter_archive_addresses-Distinct 0x7EF0 42 21 (omega arith) (omega arith)

abbrev raw : Bytes
raw = replicate 15 7 ++ archive_stamp evening ++ 7 ∷ 7 ∷ []

-- Stand-ins: no derived value, and times that are stored as they are.
abbrev no_derived : Derived
no_derived = record {
  heat_index = λ t h. none;
  dew_point = λ t h. none;
  equivalent_potential_temperature = λ t h p. none;
  wind_chill = λ t w. none;
  feels_like = λ t h w. t;
}

abbrev times : Timestamps DateTime
times = record { stored = λ t. t; in_period = λ t n s. before_or_at s t }

abbrev driver : Driver
driver = record {
  station_model = some monitor;
  archive_pointers = some (42, 0);
  archive_period = some 5;
  reads = λ i. (answered (some raw), now);
}

abbrev empty : Store DateTime
empty = record { archive_records = []; sensor_readings = [] }

async_sync_archive-eq-insert_delivered_example :
    ((async_sync_archive ℤ no_derived times driver empty).1.archive_records
      ≡ insert_delivered monitor
          (some 5)
          (iter_archive_addresses 0 42 (archive_record_size_of monitor))
          driver.reads
          0
          [])
    × (length (async_sync_archive ℤ no_derived times driver empty).1.archive_records
        ≡ length (empty.archive_records) + (async_sync_archive ℤ no_derived times driver empty).0)
async_sync_archive-eq-insert_delivered_example =
    async_sync_archive-eq-insert_delivered ℤ no_derived times driver monitor 42 0 empty refl refl
      (omega arith) (λ i. tt) tt

async_sync_archive_again_example :
    async_sync_archive ℤ no_derived times driver
      (async_sync_archive ℤ no_derived times driver empty).1
    ≡ (0, (async_sync_archive ℤ no_derived times driver empty).1)
async_sync_archive_again_example =
    async_sync_archive_again ℤ no_derived times driver monitor 42 0 empty refl refl (omega arith)
      (λ i. tt) tt
