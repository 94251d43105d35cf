-- ===== src/Catchup/Inserted.antt =====
-- What a catch-up inserts.
use kanfei.Prelude.{
  ℕ, ◌+◌, ◌≡◌, refl, ap, ap₂, sym, ◌∙◌, subst, Bool, true, false, ◌||◌, Option, some, List, [], ◌∷◌,
  ◌++◌, length, take, take_all, ltb, append_assoc, append-nil, All, All-impl, Bool-cases, inl, inr,
  arith, if◌then◌else◌,
}
use kanfei.Floats.{Float}
use kanfei.Calendar.{DateTime}
use kanfei.Vantage.Archive.{ArchiveRecord}
use kanfei.ArchiveSync.Project.{Derived}
use kanfei.Catchup.{
  Zone, Backfilled, Batch, has_time, row_of, insert_loop, capped, on_answer, floor_timestamp,
  async_backfill_from_vantage, project_to_sensor_reading,
}

abbrev Adds : {T : Type 0} → List (Backfilled T) → Batch T → Batch T → Type 0
Adds rows b b' = (b'.row_dicts ≡ b.row_dicts ++ rows) × (b'.inserted ≡ b.inserted + length rows)

module _ {F T : Type 0} ⦃fl : Float F⦄ (zone : Zone T) (calculations : Derived) (code : ℕ) where
  -- The rows of the records whose time no reading has.
  abbrev pub fresh : List (Backfilled T) → List (ArchiveRecord F) → List (Backfilled T)
  fresh readings [] = []
  fresh readings (rec ∷ records) =
      if has_time zone (zone.to_utc_naive rec.timestamp) readings
      then fresh readings records
      else row_of zone calculations code rec ∷ fresh readings records

  insert_loop-Adds :
      (readings : List (Backfilled T)) (records : List (ArchiveRecord F)) (b : Batch T)
      → Adds (fresh readings records) b (insert_loop zone calculations code readings records b)
  unfolding insert_loop
  insert_loop-Adds readings [] b = (sym (append-nil b.row_dicts), omega arith)
  insert_loop-Adds readings (rec ∷ records) b =
      let skip = insert_loop-Adds readings records (record b { skipped = b.skipped + 1 }) in
      let insert = insert_loop-Adds readings records (record b {
        row_dicts = b.row_dicts ++ row_of zone calculations code rec ∷ [];
        inserted = b.inserted + 1;
      }) in
      elim (Bool-cases (has_time zone (zone.to_utc_naive rec.timestamp) readings)) [
        | inl e ↦ rw e skip
        | inr e ↦ rw e (
          insert.0
              ∙ append_assoc b.row_dicts (row_of zone calculations code rec ∷ [])
                  (fresh readings records),
          omega (arith, insert.1),
        )
      ]

  abbrev outcome :
      ℕ
      → List (Backfilled T)
      → List (ArchiveRecord F)
      → (ℕ × List (Backfilled T)) × List (Backfilled T)
  outcome max_records readings records =
      let new = fresh readings (capped max_records records) in ((length new, new), readings ++ new)

  answered :
      (max_records : ℕ) (readings : List (Backfilled T)) (records : List (ArchiveRecord F))
      → on_answer zone calculations code max_records true readings (some records)
        ≡ outcome max_records readings records
  answered max_records readings [] =
      ap (λ (rows : List (Backfilled T)). ((0, []), rows)) (sym (append-nil readings))
      ∙ ap
          (λ (l : List (ArchiveRecord F)).
            ((length (fresh readings l), fresh readings l), readings ++ fresh readings l))
          (sym (nothing max_records))
    where
      nothing : (m : ℕ) → capped {A = ArchiveRecord F} m [] ≡ []
      nothing m = ground arith
  answered max_records readings (rec ∷ records) =
      let adds =
        insert_loop-Adds readings (capped max_records (rec ∷ records))
          (record { row_dicts = []; inserted = 0; skipped = 0 }) in
      let count : (insert_loop zone calculations code readings (capped max_records (rec ∷ records))
            (record { row_dicts = []; inserted = 0; skipped = 0 })).inserted
          ≡ length (fresh readings (capped max_records (rec ∷ records))) =
        omega (arith, adds.1) in
      ap₂ (λ (n : ℕ) (rows : List (Backfilled T)). ((n, rows), readings ++ rows)) count adds.0

  capped-take : (n : ℕ) (records : List (ArchiveRecord F)) → capped n records ≡ take n records
  capped-take n records = elim (Bool-cases (ltb n (length records))) [
    | inl more ↦ rw more refl
    | inr few ↦ rw few (sym (take_all n records (ground (arith, few))))
  ]

  -- When the driver answers with records and the commit does not raise, the readings are then the old
  -- ones followed by the rows of those records, of the first `max_records`, whose time no reading had;
  -- the number and the list that are returned are those of the new rows.
  pub async_backfill_from_vantage_lem :
      (max_records : ℕ) (driver : DateTime → Option (List (ArchiveRecord F)))
      (readings : List (Backfilled T)) (records : List (ArchiveRecord F))
      → driver (floor_timestamp zone readings) ≡ some records
      → async_backfill_from_vantage zone calculations code max_records driver true readings ≡ (
        (
          length (fresh readings (take max_records records)),
          fresh readings (take max_records records),
        ),
        readings ++ fresh readings (take max_records records),
      )
  unfolding async_backfill_from_vantage
  async_backfill_from_vantage_lem max_records driver readings records answer =
      ap (on_answer zone calculations code max_records true readings) answer
      ∙ answered max_records readings records
      ∙ ap
          (λ (l : List (ArchiveRecord F)).
            ((length (fresh readings l), fresh readings l), readings ++ fresh readings l))
          (capped-take max_records records)

or_assoc : (a b c : Bool) → (a || (b || c)) ≡ ((a || b) || c)
or_assoc true b c = refl
or_assoc false b c = refl

or_more : (a b c : Bool) → (a || c) ≡ true → (a || (b || c)) ≡ true
or_more true b c h = refl
or_more false true c h = refl
or_more false false c h = h

or_true : (a : Bool) → (a || true) ≡ true
or_true true = refl
or_true false = refl

has_time-append :
    {T : Type 0} (zone : Zone T) (t : T) (xs ys : List (Backfilled T))
    → has_time zone t (xs ++ ys) ≡ (has_time zone t xs || has_time zone t ys)
unfolding has_time
has_time-append zone t [] ys = refl
has_time-append zone t (x ∷ xs) ys =
    rw (has_time-append zone t xs ys)
      (or_assoc (zone.equal x.timestamp t) (has_time zone t xs) (has_time zone t ys))

module _ {F T : Type 0} ⦃fl : Float F⦄ (zone : Zone T) (calculations : Derived) (code : ℕ)
    (same : (t : T) → zone.equal t t ≡ true) where
  abbrev IsSeen : List (Backfilled T) → ArchiveRecord F → Type 0
  IsSeen readings rec = has_time zone (zone.to_utc_naive rec.timestamp) readings ≡ true

  grown-IsSeen :
      (readings ys : List (Backfilled T)) (y : Backfilled T) (rec : ArchiveRecord F)
      → IsSeen (readings ++ ys) rec
      → IsSeen (readings ++ y ∷ ys) rec
  unfolding has_time
  grown-IsSeen readings ys y rec seen =
      let t = zone.to_utc_naive rec.timestamp in
      has_time-append zone t readings (y ∷ ys)
      ∙ or_more (has_time zone t readings) (zone.equal y.timestamp t) (has_time zone t ys)
          (sym (has_time-append zone t readings ys) ∙ seen)

  fresh-skip :
      (readings : List (Backfilled T)) (rec : ArchiveRecord F) (records : List (ArchiveRecord F))
      → has_time zone (zone.to_utc_naive rec.timestamp) readings ≡ true
      → fresh zone calculations code readings records
        ≡ fresh zone calculations code readings (rec ∷ records)
  fresh-skip readings rec records e = rw e refl

  fresh-insert :
      (readings : List (Backfilled T)) (rec : ArchiveRecord F) (records : List (ArchiveRecord F))
      → has_time zone (zone.to_utc_naive rec.timestamp) readings ≡ false
      → (row_of zone calculations code rec ∷ fresh zone calculations code readings records)
        ≡ fresh zone calculations code readings (rec ∷ records)
  fresh-insert readings rec records e = rw e refl

  old-IsSeen :
      (readings ys : List (Backfilled T)) (rec : ArchiveRecord F)
      → has_time zone (zone.to_utc_naive rec.timestamp) readings ≡ true
      → IsSeen (readings ++ ys) rec
  old-IsSeen readings ys rec e =
      has_time-append zone (zone.to_utc_naive rec.timestamp) readings ys
      ∙ ap (λ (b : Bool). b || has_time zone (zone.to_utc_naive rec.timestamp) ys) e

  own-IsSeen :
      (readings ys : List (Backfilled T)) (rec : ArchiveRecord F)
      → IsSeen (readings ++ row_of zone calculations code rec ∷ ys) rec
  unfolding has_time project_to_sensor_reading
  own-IsSeen readings ys rec =
      let t = zone.to_utc_naive rec.timestamp in
      has_time-append zone t readings (row_of zone calculations code rec ∷ ys)
      ∙ ap (λ (b : Bool). has_time zone t readings || (b || has_time zone t ys)) (same t)
      ∙ or_true (has_time zone t readings)

  fresh-IsSeen :
      (readings : List (Backfilled T)) (records : List (ArchiveRecord F))
      → All (IsSeen (readings ++ fresh zone calculations code readings records)) records
  fresh-IsSeen readings [] = tt
  fresh-IsSeen readings (rec ∷ records) =
      let rest = fresh-IsSeen readings records in
      let new = fresh zone calculations code readings records in
      let row = row_of zone calculations code rec in
      elim (Bool-cases (has_time zone (zone.to_utc_naive rec.timestamp) readings)) [
        | inl e ↦
            subst (λ (rows : List (Backfilled T)). All (IsSeen (readings ++ rows)) (rec ∷ records))
              (fresh-skip readings rec records e) (old-IsSeen readings new rec e, rest)
        | inr e ↦
            subst (λ (rows : List (Backfilled T)). All (IsSeen (readings ++ rows)) (rec ∷ records))
              (fresh-insert readings rec records e)
              (
                own-IsSeen readings new rec,
                All-impl (IsSeen (readings ++ new)) (IsSeen (readings ++ row ∷ new))
                    (grown-IsSeen readings new row) records rest,
              )
      ]

  nothing_fresh :
      (readings : List (Backfilled T)) (records : List (ArchiveRecord F))
      → All (IsSeen readings) records
      → fresh zone calculations code readings records ≡ []
  nothing_fresh readings [] seen = refl
  nothing_fresh readings (rec ∷ records) (here, seen) =
      rw here (nothing_fresh readings records seen)

  -- A second catch-up to which the driver answers with the same records, while the same UTC offset is in
  -- force, inserts nothing and returns none, when a stored time equals itself.
  pub async_backfill_from_vantage_again :
      (max_records : ℕ) (driver : DateTime → Option (List (ArchiveRecord F)))
      (readings : List (Backfilled T)) (records : List (ArchiveRecord F))
      → driver (floor_timestamp zone readings) ≡ some records
      → driver (
          floor_timestamp zone
            (async_backfill_from_vantage zone calculations code max_records driver true readings).1)
        ≡ some records
      → async_backfill_from_vantage zone calculations code max_records driver true
          (async_backfill_from_vantage zone calculations code max_records driver true readings).1
        ≡ (
          (0, []),
          (async_backfill_from_vantage zone calculations code max_records driver true readings).1,
        )
  async_backfill_from_vantage_again max_records driver readings records answer again =
      let first =
        async_backfill_from_vantage_lem zone calculations code max_records driver readings records
          answer in
      let after =
        (async_backfill_from_vantage zone calculations code max_records driver true readings).1 in
      let gone : fresh zone calculations code after (take max_records records) ≡ [] =
        nothing_fresh after (take max_records records) (
          subst (λ (rows : List (Backfilled T)). All (IsSeen rows) (take max_records records))
            (sym (ap (λ (r : (ℕ × List (Backfilled T)) × List (Backfilled T)). r.1) first))
            (fresh-IsSeen readings (take max_records records))) in
      async_backfill_from_vantage_lem zone calculations code max_records driver after records again
      ∙ ap (λ (rows : List (Backfilled T)). ((length rows, rows), after ++ rows)) gone
      ∙ ap (λ (rows : List (Backfilled T)). ((0, []), rows)) (append-nil after)
