-- ===== src/ArchiveSync/Sync/Keys.antt =====
-- The archive table over a synchronisation: no two rows with one key, and no row lost.
use kanfei.Prelude.{
  ℕ, suc, ◌%◌, ◌≡◌, refl, ap, sym, ◌∙◌, Bool, true, false, ◌||◌, Option, none, some, List, [], ◌∷◌,
  ◌++◌, ◌==◌, append_assoc, append-nil, arith, Bool-cases, inl, inr,
}
use kanfei.Bytes.{Bytes}
use kanfei.Floats.{Float}
use kanfei.Calendar.{DateTime}
use kanfei.ArchiveSync.Records.{StationModel, ArchiveRow, parse_archive_record}
use kanfei.ArchiveSync.Project.{Derived}
use kanfei.ArchiveSync.Sync.{
  Timestamps, Answer, answered, failed, Driver, same_key, has_key, Store, Session, Progress, going,
  broken, is_unique, proceed, added, commit, commit_hundredth, sync_row, sync_parsed, sync_raw,
  after_read, sync_loop, opened, sync_from, with_pointers, with_model, async_sync_archive,
}

-- UniqueConstraint("archive_address", "record_time")
abbrev pub IsKeyed : List ArchiveRow → Type 0
IsKeyed [] = Unit
IsKeyed (row ∷ rows) = (has_key row rows ≡ false) × IsKeyed rows

==_sym : (a b : ℕ) → (a == b) ≡ (b == a)
==_sym a b = ground arith

same_key-sym : (a b : ArchiveRow) → same_key a b ≡ same_key b a
unfolding same_key
same_key-sym a b =
    rw
      (
        ==_sym a.archive_address b.archive_address,
        ==_sym a.record_time.year b.record_time.year,
        ==_sym a.record_time.month b.record_time.month,
        ==_sym a.record_time.day b.record_time.day,
        ==_sym a.record_time.hour b.record_time.hour,
        ==_sym a.record_time.minute b.record_time.minute,
      )
      refl

or_false : (a b : Bool) → (a || b) ≡ false → (a ≡ false) × (b ≡ false)
or_false false b h = (refl, h)
or_false true b h = ground arith

or_nil : (b : Bool) → (b || false) ≡ b
or_nil true = refl
or_nil false = refl

or_assoc : (a b c : Bool) → (a || (b || c)) ≡ ((a || b) || c)
or_assoc true b c = refl
or_assoc false b c = refl

pub has_key-append :
    (row : ArchiveRow) (xs : List ArchiveRow) (r : ArchiveRow)
    → has_key row (xs ++ r ∷ []) ≡ (has_key row xs || same_key row r)
unfolding has_key
has_key-append row [] r = or_nil (same_key row r)
has_key-append row (x ∷ xs) r =
    rw (has_key-append row xs r) (or_assoc (same_key row x) (has_key row xs) (same_key row r))

pub append-IsKeyed :
    (rows : List ArchiveRow) (row : ArchiveRow)
    → IsKeyed rows
    → has_key row rows ≡ false
    → IsKeyed (rows ++ row ∷ [])
unfolding has_key
append-IsKeyed [] row h new = (refl, tt)
append-IsKeyed (r ∷ rows) row h new =
    let apart = or_false (same_key row r) (has_key row rows) new in
    (
      has_key-append r rows row ∙ rw (h.0, same_key-sym r row, apart.0) refl,
      append-IsKeyed rows row h.1 apart.1,
    )

-- A table that keeps its key and still begins with the rows of `base`.
abbrev pub Grown : List ArchiveRow → List ArchiveRow → Type 0
Grown base rows = IsKeyed rows × ((new : List ArchiveRow) × (rows ≡ base ++ new))

is_unique-IsKeyed : (rows : List ArchiveRow) → is_unique rows ≡ true → IsKeyed rows
unfolding is_unique
is_unique-IsKeyed [] h = tt
is_unique-IsKeyed (row ∷ rows) h = elim (Bool-cases (has_key row rows)) [
  | inl e ↦ absurd (ground (arith, h, e))
  | inr e ↦ (e, is_unique-IsKeyed rows (ground (arith, h, e)))
]

pub IsKeyed-is_unique : (rows : List ArchiveRow) → IsKeyed rows → is_unique rows ≡ true
unfolding is_unique
IsKeyed-is_unique [] h = refl
IsKeyed-is_unique (row ∷ rows) h = rw (h.0, IsKeyed-is_unique rows h.1) refl

abbrev pub session : {T : Type 0} → Progress T → Session T
session (going s) = s
session (broken s) = s

-- A session over a table that keeps its key and begins with `base`.
abbrev pub IsSound : {T : Type 0} → List ArchiveRow → Session T → Type 0
IsSound base s = Grown base s.committed.archive_records

commit-IsSound :
    {T : Type 0} (base : List ArchiveRow) (s : Session T)
    → IsSound base s
    → IsSound base (session (commit s))
unfolding commit
commit-IsSound base s (keyed, (new, e)) =
    elim (Bool-cases (is_unique (s.committed.archive_records ++ s.pending.archive_records))) [
      | inl unique ↦ rw unique (
        is_unique-IsKeyed _ unique,
        (
          new ++ s.pending.archive_records,
          ap (λ (l : List ArchiveRow). l ++ s.pending.archive_records) e
              ∙ append_assoc base new s.pending.archive_records,
        ),
      )
      | inr twice ↦ rw twice (keyed, (new, e))
    ]

commit_hundredth-IsSound :
    {T : Type 0} (base : List ArchiveRow) (s : Session T)
    → IsSound base s
    → IsSound base (session (commit_hundredth s))
unfolding commit_hundredth
commit_hundredth-IsSound base s sound = elim (Bool-cases (s.inserted % 100 == 0)) [
  | inl e ↦ rw e (commit-IsSound base s sound)
  | inr e ↦ rw e sound
]

proceed-IsSound :
    {T : Type 0} (base : List ArchiveRow) (rest : Session T → Session T)
    → ((s : Session T) → IsSound base s → IsSound base (rest s))
    → (progress : Progress T) → IsSound base (session progress)
    → IsSound base (proceed rest progress)
proceed-IsSound base rest kept (going s) sound = kept s sound
proceed-IsSound base rest kept (broken s) sound = sound

module _ (F : Type 0) {T : Type 0} ⦃fl : Float F⦄ (calculations : Derived) (times : Timestamps T)
    (base : List ArchiveRow) where
  sync_row-IsSound :
      (row : ArchiveRow) (s : Session T)
      → IsSound base s
      → IsSound base (session (sync_row F calculations times row s))
  unfolding sync_row
  sync_row-IsSound row s sound = elim (Bool-cases (has_key row s.committed.archive_records)) [
    | inl e ↦ rw e sound
    | inr e ↦ rw e (commit_hundredth-IsSound base (added F calculations times row s) sound)
  ]

  sync_raw-IsSound :
      (model : StationModel) (period : Option ℕ) (addr : ℕ) (now : DateTime) (raw : Option Bytes)
      (s : Session T)
      → IsSound base s
      → IsSound base (session (sync_raw F calculations times model period addr now raw s))
  sync_raw-IsSound model period addr now none s sound = sound
  sync_raw-IsSound model period addr now (some raw) s sound =
      go (parse_archive_record now raw addr model)
    where
      go :
          (o : Option ArchiveRow)
          → IsSound base (session (sync_parsed F calculations times period o s))
      go none = sound
      go (some row) = sync_row-IsSound (record row { archive_interval = period }) s sound

  after_read-IsSound :
      (model : StationModel) (period : Option ℕ) (addr : ℕ) (rest : Session T → Session T)
      → ((s : Session T) → IsSound base s → IsSound base (rest s))
      → (event : Answer × DateTime) (s : Session T) → IsSound base s
      → IsSound base (after_read F calculations times model period addr rest event s)
  after_read-IsSound model period addr rest kept (failed, now) s sound = sound
  after_read-IsSound model period addr rest kept (answered raw, now) s sound =
      proceed-IsSound base rest kept (sync_raw F calculations times model period addr now raw s)
        (sync_raw-IsSound model period addr now raw s sound)

  sync_loop-IsSound :
      (model : StationModel) (period : Option ℕ) (addrs : List ℕ) (reads : ℕ → Answer × DateTime)
      (i : ℕ) (s : Session T)
      → IsSound base s
      → IsSound base (sync_loop F calculations times model period addrs reads i s)
  unfolding sync_loop
  sync_loop-IsSound model period [] reads i s sound =
      proceed-IsSound base (λ s'. s') (λ s' h. h) (commit s) (commit-IsSound base s sound)
  sync_loop-IsSound model period (addr ∷ addrs) reads i s sound =
      after_read-IsSound model period addr
        (sync_loop F calculations times model period addrs reads (suc i))
        (λ s'. sync_loop-IsSound model period addrs reads (suc i) s') (reads i) s sound

module _ (F : Type 0) {T : Type 0} ⦃fl : Float F⦄ (calculations : Derived)
    (times : Timestamps T) where
  -- A table without two rows of one address and time has none after a synchronisation, and still begins
  -- with all the rows it had, whatever the station answers and at whichever read an exception comes; the key
  -- of the table is enforced by the commit.
  pub async_sync_archive-Grown :
      (driver : Driver) (store : Store T)
      → IsKeyed store.archive_records
      → Grown store.archive_records
          (async_sync_archive F calculations times driver store).1.archive_records
  unfolding async_sync_archive sync_from
  async_sync_archive-Grown driver store keyed = model driver.station_model
    where
      start : Grown store.archive_records store.archive_records
      start = (keyed, ([], sym (append-nil store.archive_records)))

      pointers :
          (m : StationModel) (o : Option (ℕ × ℕ))
          → Grown store.archive_records
              (with_pointers F calculations times driver m o store).committed.archive_records
      pointers m none = start
      pointers m (some (new_ptr, old_ptr)) = elim (Bool-cases (old_ptr == new_ptr)) [
        | inl e ↦ rw e start
        | inr e ↦ rw e (
            sync_loop-IsSound F calculations times store.archive_records m driver.archive_period _
              driver.reads 0 (opened store) start)
      ]

      model :
          (o : Option StationModel)
          → Grown store.archive_records
              (with_model F calculations times driver o store).committed.archive_records
      model none = start
      model (some m) = pointers m driver.archive_pointers
