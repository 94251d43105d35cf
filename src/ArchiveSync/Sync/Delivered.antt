-- ===== src/ArchiveSync/Sync/Delivered.antt =====
-- What a synchronisation without an exception makes of the archive table.
use kanfei.Prelude.{
  ℕ, suc, ◌+◌, ◌%◌, ◌≡◌, ◌≢◌, ◌≤◌, refl, ap, sym, ◌∙◌, subst, Bool, true, false, Option, none, some,
  List, [], ◌∷◌, ◌++◌, ◌==◌, ==_false, All, All-impl, All-append, Each, ◌<◌, append_assoc,
  append-nil, length, length-append, arith, Bool-cases, inl, inr, if◌then◌else◌,
}
use mathlib.Core.Option
use kanfei.Bytes.{Bytes}
use kanfei.Floats.{Float}
use kanfei.Calendar.{DateTime}
use kanfei.ArchiveSync.Ring.{sram_max_addr, iter_archive_addresses}
use kanfei.ArchiveSync.Ring.Walk.{Distinct, iter_archive_addresses-Distinct}
use kanfei.ArchiveSync.Records.{
  StationModel, wizard_iii, wizard_ii, monitor, perception, groweather, energy, health, old_link,
  ArchiveRow, archive_record_size_of, basic_row, groweather_row, energy_row, health_row, stamped,
  parse_archive_record,
}
use kanfei.ArchiveSync.Project.{Derived}
use kanfei.ArchiveSync.Sync.{
  Timestamps, Answer, answered, failed, Driver, same_key, has_key, Store, Session, Progress, going,
  broken, proceed, added, commit, commit_hundredth, sync_row, sync_parsed, sync_raw, after_read,
  sync_loop, opened, sync_from, async_sync_archive,
}
use kanfei.ArchiveSync.Sync.Keys.{IsKeyed, append-IsKeyed, IsKeyed-is_unique}

abbrev pub dated : Option ℕ → ArchiveRow → ArchiveRow
dated period row = record row { archive_interval = period }

-- The row that a read delivers.
abbrev pub delivered_at : StationModel → Option ℕ → ℕ → Answer × DateTime → Option ArchiveRow
delivered_at model period addr (failed, now) = none
delivered_at model period addr (answered none, now) = none
delivered_at model period addr (answered (some raw), now) =
    Option.map (dated period) (parse_archive_record now raw addr model)

-- A table of rows by address and time: a row whose key is there is left out.
abbrev pub insert_new : Option ArchiveRow → List ArchiveRow → List ArchiveRow
insert_new none rows = rows
insert_new (some row) rows = if has_key row rows then rows else rows ++ row ∷ []

abbrev pub insert_delivered :
    StationModel
    → Option ℕ
    → List ℕ
    → (ℕ → Answer × DateTime)
    → ℕ
    → List ArchiveRow
    → List ArchiveRow
insert_delivered model period [] reads i rows = rows
insert_delivered model period (addr ∷ addrs) reads i rows =
    insert_delivered model period addrs reads (suc i)
      (insert_new (delivered_at model period addr (reads i)) rows)

abbrev pub IsAnswer : Answer × DateTime → Type 0
IsAnswer (failed, now) = ⊥
IsAnswer (answered raw, now) = Unit

-- No read raises.
abbrev pub IsAnswered : (ℕ → Answer × DateTime) → Type 0
IsAnswered reads = (i : ℕ) → IsAnswer (reads i)

-- A parsed record has the address that it was read at.
stamped_address :
    (row : Bytes → ℕ → ℕ → DateTime → ArchiveRow) (raw : Bytes) (addr type : ℕ)
    (o : Option DateTime)
    → ((ts : DateTime) → (row raw addr type ts).archive_address ≡ addr)
    → (short : Bool)
    → Each (λ r. r.archive_address ≡ addr) (if short then none else stamped row raw addr type o)
stamped_address row raw addr type o h true = tt
stamped_address row raw addr type none h false = tt
stamped_address row raw addr type (some ts) h false = h ts

parsed_address :
    (now : DateTime) (raw : Bytes) (addr : ℕ) (model : StationModel)
    → Each (λ r. r.archive_address ≡ addr) (parse_archive_record now raw addr model)
unfolding parse_archive_record
parsed_address now raw addr wizard_iii = stamped_address basic_row raw addr _ _ (λ ts. refl) _
parsed_address now raw addr wizard_ii = stamped_address basic_row raw addr _ _ (λ ts. refl) _
parsed_address now raw addr monitor = stamped_address basic_row raw addr _ _ (λ ts. refl) _
parsed_address now raw addr perception = stamped_address basic_row raw addr _ _ (λ ts. refl) _
parsed_address now raw addr groweather = stamped_address groweather_row raw addr _ _ (λ ts. refl) _
parsed_address now raw addr energy = stamped_address energy_row raw addr _ _ (λ ts. refl) _
parsed_address now raw addr health = stamped_address health_row raw addr _ _ (λ ts. refl) _
parsed_address now raw addr old_link = stamped_address basic_row raw addr _ _ (λ ts. refl) _

record_size-pos : (model : StationModel) → 0 < archive_record_size_of model
unfolding archive_record_size_of
record_size-pos wizard_iii = omega arith
record_size-pos wizard_ii = omega arith
record_size-pos monitor = omega arith
record_size-pos perception = omega arith
record_size-pos groweather = omega arith
record_size-pos energy = omega arith
record_size-pos health = omega arith
record_size-pos old_link = omega arith

no_addresses :
    (old_ptr new_ptr record_size : ℕ)
    → (old_ptr == new_ptr) ≡ true
    → iter_archive_addresses old_ptr new_ptr record_size ≡ []
unfolding iter_archive_addresses
no_addresses old_ptr new_ptr record_size e = rw e refl

-- The rows of a session, committed or not.
abbrev pub rows_of : {T : Type 0} → Session T → List ArchiveRow
rows_of s = s.committed.archive_records ++ s.pending.archive_records

-- No row waits for one of the addresses.
abbrev Apart : List ℕ → List ArchiveRow → Type 0
Apart addrs = All (λ row. All (λ a. row.archive_address ≢ a) addrs)

-- The session goes on, with the rows, counts what it has more than `s` as inserted, and nothing waits
-- for the addresses that are left.
abbrev GoesOn : {T : Type 0} → List ℕ → List ArchiveRow → Session T → Progress T → Type 0
GoesOn addrs rows s (going s') =
    (rows_of s' ≡ rows)
    × (length (rows_of s') + s.inserted ≡ length (rows_of s) + s'.inserted)
    × IsKeyed (rows_of s')
    × Apart addrs s'.pending.archive_records
GoesOn addrs rows s (broken s') = ⊥

has_key_elsewhere :
    (row : ArchiveRow) (rows : List ArchiveRow)
    → All (λ r. row.archive_address ≢ r.archive_address) rows
    → has_key row rows ≡ false
unfolding has_key same_key
has_key_elsewhere row [] h = refl
has_key_elsewhere row (r ∷ rows) h =
    rw (==_false row.archive_address r.archive_address h.0, has_key_elsewhere row rows h.1) refl

has_key-append_lists :
    (row : ArchiveRow) (xs ys : List ArchiveRow)
    → has_key row ys ≡ false
    → has_key row (xs ++ ys) ≡ has_key row xs
unfolding has_key
has_key-append_lists row [] ys h = h
has_key-append_lists row (x ∷ xs) ys h = rw (has_key-append_lists row xs ys h) refl

heads :
    (addr : ℕ) (addrs : List ℕ) (rows : List ArchiveRow)
    → Apart (addr ∷ addrs) rows
    → All (λ r. addr ≢ r.archive_address) rows
heads addr addrs = All-impl _ _ (λ r h same. h.0 (sym same))

tails :
    (addr : ℕ) (addrs : List ℕ) (rows : List ArchiveRow)
    → Apart (addr ∷ addrs) rows
    → Apart addrs rows
tails addr addrs = All-impl _ _ (λ r h. h.1)

module _ {T : Type 0} (addrs : List ℕ) (rows : List ArchiveRow) (s : Session T) where
  commit-GoesOn :
      (s' : Session T) → GoesOn addrs rows s (going s') → GoesOn addrs rows s (commit s')
  unfolding commit
  commit-GoesOn s' (same, count, keyed, apart) =
      rw (IsKeyed-is_unique (rows_of s') keyed, append-nil (rows_of s')) (same, count, keyed, tt)

  commit_hundredth-GoesOn :
      (s' : Session T) → GoesOn addrs rows s (going s') → GoesOn addrs rows s (commit_hundredth s')
  unfolding commit_hundredth
  commit_hundredth-GoesOn s' h = elim (Bool-cases (s'.inserted % 100 == 0)) [
    | inl e ↦ rw e (commit-GoesOn s' h)
    | inr e ↦ rw e h
  ]

module _ (F : Type 0) {T : Type 0} ⦃fl : Float F⦄ (calculations : Derived)
    (times : Timestamps T) where
  sync_row-GoesOn :
      (row : ArchiveRow) (addrs : List ℕ) (s : Session T)
      → All (λ a. row.archive_address ≢ a) addrs
      → IsKeyed (rows_of s)
      → Apart (row.archive_address ∷ addrs) s.pending.archive_records
      → GoesOn addrs (insert_new (some row) (rows_of s)) s (sync_row F calculations times row s)
  unfolding sync_row
  sync_row-GoesOn row addrs s new keyed apart =
      let seen = has_key-append_lists row s.committed.archive_records s.pending.archive_records (
        has_key_elsewhere row s.pending.archive_records
          (heads row.archive_address addrs s.pending.archive_records apart)) in
      elim (Bool-cases (has_key row s.committed.archive_records)) [
        | inl e ↦
            rw (seen, e)
              (refl, refl, keyed, tails row.archive_address addrs s.pending.archive_records apart)
        | inr e ↦
            rw (seen, e)
              (commit_hundredth-GoesOn addrs (rows_of s ++ row ∷ []) s
                (added F calculations times row s) (grown (seen ∙ e)))
      ]
    where
      grown :
          has_key row (rows_of s) ≡ false
          → GoesOn addrs (rows_of s ++ row ∷ []) s (going (added F calculations times row s))
      grown absent =
          let same =
            sym (append_assoc s.committed.archive_records s.pending.archive_records (row ∷ [])) in
          (
            same,
            ap (λ (l : List ArchiveRow). length l + s.inserted) same
                ∙ omega (arith, length-append (rows_of s) (row ∷ [])),
            subst IsKeyed (sym same) (append-IsKeyed (rows_of s) row keyed absent),
            All-append (λ r. All (λ a. r.archive_address ≢ a) addrs) s.pending.archive_records
                (row ∷ []) (tails row.archive_address addrs s.pending.archive_records apart)
                (new, tt),
          )

  sync_raw-GoesOn :
      (model : StationModel) (period : Option ℕ) (addr : ℕ) (addrs : List ℕ) (now : DateTime)
      (raw : Option Bytes) (s : Session T)
      → All (λ a. addr ≢ a) addrs
      → IsKeyed (rows_of s)
      → Apart (addr ∷ addrs) s.pending.archive_records
      → GoesOn addrs
          (insert_new (delivered_at model period addr (answered raw, now)) (rows_of s))
          s
          (sync_raw F calculations times model period addr now raw s)
  sync_raw-GoesOn model period addr addrs now none s new keyed apart =
      (refl, refl, keyed, tails addr addrs s.pending.archive_records apart)
  sync_raw-GoesOn model period addr addrs now (some raw) s new keyed apart =
      go (parse_archive_record now raw addr model) (parsed_address now raw addr model)
    where
      go :
          (o : Option ArchiveRow)
          → Each (λ row. row.archive_address ≡ addr) o
          → GoesOn addrs
              (insert_new (Option.map (dated period) o) (rows_of s))
              s
              (sync_parsed F calculations times period o s)
      go none e = (refl, refl, keyed, tails addr addrs s.pending.archive_records apart)
      go (some row) e =
          sync_row-GoesOn (dated period row) addrs s
            (subst (λ (n : ℕ). All (λ a. n ≢ a) addrs) (sym e) new) keyed
            (subst (λ (n : ℕ). Apart (n ∷ addrs) s.pending.archive_records) (sym e) apart)

  -- The table at the end, and the number of rows counted as inserted.
  abbrev Ends : List ArchiveRow → Session T → Session T → Type 0
  Ends rows s s' =
      (s'.committed.archive_records ≡ rows)
      × (length s'.committed.archive_records + s.inserted ≡ length (rows_of s) + s'.inserted)

  proceed-Ends :
      (model : StationModel) (period : Option ℕ) (addrs : List ℕ) (reads : ℕ → Answer × DateTime)
      (i : ℕ) (rows : List ArchiveRow) (s : Session T) (rest : Session T → Session T)
      → ((s' : Session T)
          → IsKeyed (rows_of s')
          → Apart addrs s'.pending.archive_records
          → Ends (insert_delivered model period addrs reads i (rows_of s')) s' (rest s'))
      → (progress : Progress T) → GoesOn addrs rows s progress
      → Ends (insert_delivered model period addrs reads i rows) s (proceed rest progress)
  proceed-Ends model period addrs reads i rows s rest later (broken s') h = absurd h
  proceed-Ends model period addrs reads i rows s rest later (going s') (same, count, keyed, apart) =
      let ends = later s' keyed apart in
      (ends.0 ∙ ap (insert_delivered model period addrs reads i) same, omega (arith, count, ends.1))

  sync_loop-Ends :
      (model : StationModel) (period : Option ℕ) (addrs : List ℕ) (reads : ℕ → Answer × DateTime)
      (i : ℕ) (s : Session T)
      → IsAnswered reads
      → Distinct addrs
      → IsKeyed (rows_of s)
      → Apart addrs s.pending.archive_records
      → Ends
          (insert_delivered model period addrs reads i (rows_of s))
          s
          (sync_loop F calculations times model period addrs reads i s)
  unfolding sync_loop commit
  sync_loop-Ends model period [] reads i s all once keyed apart =
      rw (IsKeyed-is_unique (rows_of s) keyed) (refl, refl)
  sync_loop-Ends model period (addr ∷ addrs) reads i s all once keyed apart =
      go (reads i) (all i) (λ s' keyed' apart'.
        sync_loop-Ends model period addrs reads (suc i) s' all once.1 keyed' apart')
    where
      go :
          (event : Answer × DateTime)
          → IsAnswer event
          → ((s' : Session T)
              → IsKeyed (rows_of s')
              → Apart addrs s'.pending.archive_records
              → Ends
                  (insert_delivered model period addrs reads (suc i) (rows_of s'))
                  s'
                  (sync_loop F calculations times model period addrs reads (suc i) s'))
          → Ends
              (insert_delivered model period addrs reads
                (suc i)
                (insert_new (delivered_at model period addr event) (rows_of s)))
              s
              (after_read F calculations times model period addr
                (sync_loop F calculations times model period addrs reads (suc i))
                event
                s)
      go (failed, now) h later = absurd h
      go (answered raw, now) h later =
          proceed-Ends model period addrs reads (suc i) _ s _ later
            (sync_raw F calculations times model period addr now raw s)
            (sync_raw-GoesOn model period addr addrs now raw s once.0 keyed apart)

  -- For a known model whose pointers were read, the newest not in the reserved part of the SRAM, in a
  -- table with no two rows of one address and time, when no read raises: no commit raises, the table is then what inserting each delivered row whose address
  -- and time are not there yet makes of it, in the order of the ring, and the number that is returned is
  -- that of the new rows.
  pub async_sync_archive-eq-insert_delivered :
      (driver : Driver) (model : StationModel) (new_ptr old_ptr : ℕ) (store : Store T)
      → driver.station_model ≡ some model
      → driver.archive_pointers ≡ some (new_ptr, old_ptr)
      → new_ptr ≤ sram_max_addr
      → IsAnswered driver.reads
      → IsKeyed store.archive_records
      → ((async_sync_archive F calculations times driver store).1.archive_records
          ≡ insert_delivered model driver.archive_period
              (iter_archive_addresses old_ptr new_ptr (archive_record_size_of model))
              driver.reads
              0
              store.archive_records)
        × (length (async_sync_archive F calculations times driver store).1.archive_records
            ≡ length store.archive_records
              + (async_sync_archive F calculations times driver store).0)
  unfolding async_sync_archive sync_from
  async_sync_archive-eq-insert_delivered driver model new_ptr old_ptr store known read inside all
        keyed =
      let rows_back = append-nil store.archive_records in
      rw (known, read)
        (elim (Bool-cases (old_ptr == new_ptr)) [
          | inl e ↦ rw e (
            ap
                (λ addrs.
                  insert_delivered model driver.archive_period addrs driver.reads 0
                    store.archive_records)
                (sym (no_addresses old_ptr new_ptr (archive_record_size_of model) e)),
            omega arith,
          )
          | inr e ↦
              let ends =
                sync_loop-Ends model driver.archive_period
                  (iter_archive_addresses old_ptr new_ptr (archive_record_size_of model))
                  driver.reads 0 (opened store) all
                  (iter_archive_addresses-Distinct old_ptr new_ptr (archive_record_size_of model)
                    (record_size-pos model) inside).0
                  (subst IsKeyed (sym rows_back) keyed) tt in
              rw e (
                ends.0
                    ∙ ap
                        (insert_delivered model driver.archive_period
                          (iter_archive_addresses old_ptr new_ptr (archive_record_size_of model))
                          driver.reads 0)
                        rows_back,
                omega (arith, ends.1, ap (λ (l : List ArchiveRow). length l) rows_back),
              )
        ])
