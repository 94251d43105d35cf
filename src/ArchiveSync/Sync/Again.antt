-- ===== src/ArchiveSync/Sync/Again.antt =====
-- A second synchronisation against the same archive.
use kanfei.Prelude.{
  ℕ, suc, ◌≡◌, refl, ap₂, sym, ◌∙◌, subst, true, Option, none, some, List, [], ◌∷◌, ◌++◌, ◌==◌,
  append-nil, ◌≤◌, arith, Bool-cases, inl, inr,
}
use mathlib.Core.Option
use kanfei.Bytes.{Bytes}
use kanfei.Floats.{Float}
use kanfei.Calendar.{DateTime}
use kanfei.ArchiveSync.Ring.{sram_max_addr, iter_archive_addresses}
use kanfei.ArchiveSync.Records.{
  StationModel, ArchiveRow, archive_record_size_of, parse_archive_record,
}
use kanfei.ArchiveSync.Project.{Derived}
use kanfei.ArchiveSync.Sync.{
  Timestamps, Answer, answered, failed, Driver, same_key, has_key, Store, Session, Progress, going,
  broken, nothing, proceed, commit, sync_row, sync_parsed, sync_raw, after_read, sync_loop, opened,
  sync_from, async_sync_archive,
}
use kanfei.ArchiveSync.Sync.Keys.{
  IsKeyed, IsKeyed-is_unique, has_key-append, async_sync_archive-Grown,
}
use kanfei.ArchiveSync.Sync.Delivered.{
  dated, delivered_at, insert_new, insert_delivered, IsAnswer, IsAnswered,
  async_sync_archive-eq-insert_delivered,
}

==_refl : (a : ℕ) → (a == a) ≡ true
==_refl a = ground arith

same_key_refl : (row : ArchiveRow) → same_key row row ≡ true
unfolding same_key
same_key_refl row =
    rw
      (
        ==_refl row.archive_address,
        ==_refl row.record_time.year,
        ==_refl row.record_time.month,
        ==_refl row.record_time.day,
        ==_refl row.record_time.hour,
        ==_refl row.record_time.minute,
      )
      refl

-- The address and time of a delivered row are in the table.
abbrev IsKnown : Option ArchiveRow → List ArchiveRow → Type 0
IsKnown none rows = Unit
IsKnown (some row) rows = has_key row rows ≡ true

insert_new-IsKnown :
    (o : Option ArchiveRow) (rows : List ArchiveRow) → IsKnown o (insert_new o rows)
insert_new-IsKnown none rows = tt
insert_new-IsKnown (some row) rows = elim (Bool-cases (has_key row rows)) [
  | inl e ↦ rw e e
  | inr e ↦ rw e (has_key-append row rows row ∙ rw (e, same_key_refl row) refl)
]

append_known :
    (row : ArchiveRow) (rows : List ArchiveRow) (r : ArchiveRow)
    → has_key row rows ≡ true
    → has_key row (rows ++ r ∷ []) ≡ true
append_known row rows r e = has_key-append row rows r ∙ rw e refl

stays-IsKnown :
    (o o' : Option ArchiveRow) (rows : List ArchiveRow)
    → IsKnown o rows
    → IsKnown o (insert_new o' rows)
stays-IsKnown none o' rows h = tt
stays-IsKnown (some row) none rows h = h
stays-IsKnown (some row) (some r) rows h = elim (Bool-cases (has_key r rows)) [
  | inl e ↦ rw e h
  | inr e ↦ rw e (append_known row rows r h)
]

module _ (model : StationModel) (period : Option ℕ) (reads : ℕ → Answer × DateTime) where
  IsKnown-later :
      (o : Option ArchiveRow) (addrs : List ℕ) (i : ℕ) (rows : List ArchiveRow)
      → IsKnown o rows
      → IsKnown o (insert_delivered model period addrs reads i rows)
  IsKnown-later o [] i rows h = h
  IsKnown-later o (addr ∷ addrs) i rows h =
      IsKnown-later o addrs (suc i) _
        (stays-IsKnown o (delivered_at model period addr (reads i)) rows h)

  abbrev AllKnown : List ℕ → ℕ → List ArchiveRow → Type 0
  AllKnown [] i rows = Unit
  AllKnown (addr ∷ addrs) i rows =
      IsKnown (delivered_at model period addr (reads i)) rows × AllKnown addrs (suc i) rows

  insert_delivered-AllKnown :
      (addrs : List ℕ) (i : ℕ) (rows : List ArchiveRow)
      → AllKnown addrs i (insert_delivered model period addrs reads i rows)
  insert_delivered-AllKnown [] i rows = tt
  insert_delivered-AllKnown (addr ∷ addrs) i rows =
      let row = delivered_at model period addr (reads i) in
      (
        IsKnown-later row addrs (suc i) (insert_new row rows) (insert_new-IsKnown row rows),
        insert_delivered-AllKnown addrs (suc i) (insert_new row rows),
      )

  module _ (F : Type 0) {T : Type 0} ⦃fl : Float F⦄ (calculations : Derived)
      (times : Timestamps T) where
    -- Nothing is added, and the same number counts as inserted.
    abbrev IsIdle : Session T → Progress T → Type 0
    IsIdle s (going s') =
        (s'.committed ≡ s.committed) × (s'.pending ≡ s.pending) × (s'.inserted ≡ s.inserted)
    IsIdle s (broken s') = ⊥

    sync_raw-IsIdle :
        (addr : ℕ) (now : DateTime) (raw : Option Bytes) (s : Session T)
        → IsKnown (delivered_at model period addr (answered raw, now)) s.committed.archive_records
        → IsIdle s (sync_raw F calculations times model period addr now raw s)
    sync_raw-IsIdle addr now none s h = (refl, refl, refl)
    sync_raw-IsIdle addr now (some raw) s h = go (parse_archive_record now raw addr model) h
      where
        go :
            (o : Option ArchiveRow)
            → IsKnown (Option.map (dated period) o) s.committed.archive_records
            → IsIdle s (sync_parsed F calculations times period o s)
        go none h = (refl, refl, refl)
        go (some row) h = unfold sync_row in rw h (refl, refl, refl)

    abbrev IsLeft : Session T → Session T → Type 0
    IsLeft s s' = (s'.committed ≡ s.committed) × (s'.inserted ≡ s.inserted)

    commit-nothing :
        (s : Session T)
        → s.pending ≡ nothing
        → IsKeyed s.committed.archive_records
        → IsLeft s (proceed (λ s'. s') (commit s))
    unfolding commit
    commit-nothing s e keyed =
        rw
          (
            e,
            append-nil s.committed.archive_records,
            append-nil s.committed.sensor_readings,
            IsKeyed-is_unique s.committed.archive_records keyed,
          )
          (refl, refl)

    proceed-IsLeft :
        (addrs : List ℕ) (s : Session T) (rest : Session T → Session T)
        → ((s' : Session T)
            → s'.committed ≡ s.committed
            → s'.pending ≡ s.pending
            → IsLeft s' (rest s'))
        → (progress : Progress T) → IsIdle s progress
        → IsLeft s (proceed rest progress)
    proceed-IsLeft addrs s rest later (broken s') h = absurd h
    proceed-IsLeft addrs s rest later (going s') (same, waiting, count) =
        let left = later s' same waiting in (left.0 ∙ same, left.1 ∙ count)

    sync_loop-IsLeft :
        (addrs : List ℕ) (i : ℕ) (s : Session T)
        → IsAnswered reads
        → s.pending ≡ nothing
        → IsKeyed s.committed.archive_records
        → AllKnown addrs i s.committed.archive_records
        → IsLeft s (sync_loop F calculations times model period addrs reads i s)
    unfolding sync_loop
    sync_loop-IsLeft [] i s all none_waits keyed known = commit-nothing s none_waits keyed
    sync_loop-IsLeft (addr ∷ addrs) i s all none_waits keyed known =
        go (reads i) (all i) known.0 (λ s' same waiting.
          sync_loop-IsLeft addrs (suc i) s' all (waiting ∙ none_waits)
            (subst (λ (store : Store T). IsKeyed store.archive_records) (sym same) keyed)
            (subst (λ (store : Store T). AllKnown addrs (suc i) store.archive_records) (sym same)
              known.1))
      where
        go :
            (event : Answer × DateTime)
            → IsAnswer event
            → IsKnown (delivered_at model period addr event) s.committed.archive_records
            → ((s' : Session T)
                → s'.committed ≡ s.committed
                → s'.pending ≡ s.pending
                → IsLeft s' (sync_loop F calculations times model period addrs reads (suc i) s'))
            → IsLeft s (
                after_read F calculations times model period addr
                  (sync_loop F calculations times model period addrs reads (suc i))
                  event
                  s)
        go (failed, now) h there later = absurd h
        go (answered raw, now) h there later =
            proceed-IsLeft addrs s (sync_loop F calculations times model period addrs reads (suc i))
              later (sync_raw F calculations times model period addr now raw s)
              (sync_raw-IsIdle addr now raw s there)

module _ (F : Type 0) {T : Type 0} ⦃fl : Float F⦄ (calculations : Derived) (times : Timestamps T)
    (driver : Driver) (model : StationModel) (new_ptr old_ptr : ℕ) (store : Store T)
    (known : driver.station_model ≡ some model)
    (read : driver.archive_pointers ≡ some (new_ptr, old_ptr)) (all : IsAnswered driver.reads)
    (keyed : IsKeyed store.archive_records) where
  idle :
      AllKnown model driver.archive_period driver.reads
        (iter_archive_addresses old_ptr new_ptr (archive_record_size_of model))
        0
        store.archive_records
      → async_sync_archive F calculations times driver store ≡ (0, store)
  unfolding async_sync_archive sync_from
  idle there =
      rw (known, read)
        (elim (Bool-cases (old_ptr == new_ptr)) [
          | inl e ↦ rw e refl
          | inr e ↦
              let left =
                sync_loop-IsLeft model driver.archive_period driver.reads F calculations times
                  (iter_archive_addresses old_ptr new_ptr (archive_record_size_of model)) 0
                  (opened store) all refl keyed there in
              rw e (ap₂ (λ (n : ℕ) (st : Store T). (n, st)) left.1 left.0)
        ])

-- For a known model whose pointers were read, the newest not in the reserved part of the SRAM, in a
-- table with no two rows of one address and time, when no read raises: a second synchronisation with the
-- same answers, each decoded at the same reading of the clock as in the first, adds nothing to either table
-- and returns 0.
pub async_sync_archive_again :
    (F : Type 0) {T : Type 0} ⦃fl : Float F⦄ (calculations : Derived) (times : Timestamps T)
    (driver : Driver) (model : StationModel) (new_ptr old_ptr : ℕ) (store : Store T)
    → driver.station_model ≡ some model
    → driver.archive_pointers ≡ some (new_ptr, old_ptr)
    → new_ptr ≤ sram_max_addr
    → IsAnswered driver.reads
    → IsKeyed store.archive_records
    → async_sync_archive F calculations times driver
        (async_sync_archive F calculations times driver store).1
      ≡ (0, (async_sync_archive F calculations times driver store).1)
async_sync_archive_again F calculations times driver model new_ptr old_ptr store known read inside
      all keyed =
    idle F calculations times driver model new_ptr old_ptr
      (async_sync_archive F calculations times driver store).1 known read all
      (async_sync_archive-Grown F calculations times driver store keyed).0
      (subst
        (AllKnown model driver.archive_period driver.reads
          (iter_archive_addresses old_ptr new_ptr (archive_record_size_of model)) 0)
        (sym
          (async_sync_archive-eq-insert_delivered F calculations times driver model new_ptr old_ptr
            store known read inside all keyed).0)
        (insert_delivered-AllKnown model driver.archive_period driver.reads
          (iter_archive_addresses old_ptr new_ptr (archive_record_size_of model)) 0
          store.archive_records))
