-- ===== src/Catchup/Tests.antt =====
-- A catch-up with concrete records.
use kanfei.Prelude.{
  take, ℕ, ◌+◌, ◌*◌, ◌≡◌, refl, true, none, some, Option, List, [], ◌∷◌, ◌++◌, ℤ, pos, length,
  replicate, ◌==◌, leb, arith,
}
use kanfei.Calendar.{DateTime}
use kanfei.Vantage.Sample.{whole}
use kanfei.Vantage.Archive.{ArchiveRecord, rev_a_fields}
use kanfei.ArchiveSync.Project.{Derived}
use kanfei.Catchup.{Zone, async_backfill_from_vantage, max_backfill_records}
use kanfei.Catchup.Inserted.{
  fresh, async_backfill_from_vantage_lem, async_backfill_from_vantage_again,
}

-- Stand-ins: minutes of one day, and no derived value.
abbrev day : Zone ℕ
day = record {
  to_utc_naive = λ t. t.hour * 60 + t.minute;
  to_local = λ m. record { year = 2026; month = 2; day = 28; hour = 0; minute = m };
  horizon = record { year = 2026; month = 2; day = 25; hour = 0; minute = 0 };
  equal = λ a b. a == b;
  later = λ a b. leb b a;
}

abbrev no_derived : Derived
no_derived = record {
  heat_index = λ t h. none;
  dew_point = λ t h. none;
  equivalent_potential_temperature = λ t h p. none;
  wind_chill = λ t w. none;
  feels_like = λ t h w. t;
}

abbrev record_at : ℕ → ArchiveRecord ℤ
record_at m =
    rev_a_fields (pos 1) (record { year = 2026; month = 2; day = 28; hour = 0; minute = m })
      (replicate 52 7)

-- One of them is there twice.
abbrev gap : List (ArchiveRecord ℤ)
gap = record_at 15 ∷ record_at 30 ∷ record_at 30 ∷ []

abbrev driver : DateTime → Option (List (ArchiveRecord ℤ))
driver after = some gap

same_minute : (t : ℕ) → (t == t) ≡ true
same_minute t = ground arith

async_backfill_from_vantage_lem_example :
    async_backfill_from_vantage day no_derived 16 max_backfill_records driver true [] ≡ (
      (
        length (fresh day no_derived 16 [] (take max_backfill_records gap)),
        fresh day no_derived 16 [] (take max_backfill_records gap),
      ),
      [] ++ fresh day no_derived 16 [] (take max_backfill_records gap),
    )
async_backfill_from_vantage_lem_example =
    async_backfill_from_vantage_lem day no_derived 16 max_backfill_records driver [] gap refl

async_backfill_from_vantage_again_example :
    async_backfill_from_vantage day no_derived 16 max_backfill_records driver true
      (async_backfill_from_vantage day no_derived 16 max_backfill_records driver true []).1
    ≡ (
      (0, []),
      (async_backfill_from_vantage day no_derived 16 max_backfill_records driver true []).1,
    )
async_backfill_from_vantage_again_example =
    async_backfill_from_vantage_again day no_derived 16 same_minute max_backfill_records driver []
      gap refl refl
