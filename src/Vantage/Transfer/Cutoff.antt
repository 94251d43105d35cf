-- ===== src/Vantage/Transfer/Cutoff.antt =====
-- What a transfer returns, whatever the console sends and whenever a stop is requested.
use kanfei.Prelude.{
  ℕ, zero, suc, ◌+◌, ◌≡◌, false, Option, none, some, List, [], ◌∷◌, ◌++◌, All, ltb, ◌&&◌, ◌==◌,
  Bool-cases, Option-cases, inl, inr,
}
use kanfei.Bytes.{Bytes}
use kanfei.Floats.{Float}
use kanfei.Calendar.{DateTime, before_or_at}
use kanfei.Vantage.Archive.{ArchiveRecord, parse_archive_record, parse_archive_page}
use kanfei.Vantage.Link.{Port, Outcome, ok, raised, send, ◌>>=◌}
use kanfei.Vantage.Transfer.{
  keep_record, keep_records, take_page, read_page, read_pages, max_retries,
}

All-append {ℓ κ} :
    {A : Type ℓ} (P : A → Type κ) (xs ys : List A) → All P xs → All P ys → All P (xs ++ ys)
All-append P [] ys hx hy = hy
All-append P (x ∷ xs) ys hx hy = (hx.0, All-append P xs ys hx.1 hy)

module _ {F : Type 0} ⦃fl : Float F⦄ (click : F) (cutoff : DateTime) where
  abbrev pub IsNewer : ArchiveRecord F → Type 0
  IsNewer rec = before_or_at rec.timestamp cutoff ≡ false

  keep_record-IsNewer :
      (page_num first_offset : ℕ) (r : ℕ × Bytes)
      → All IsNewer (keep_record click page_num first_offset (some cutoff) r)
  unfolding keep_record
  keep_record-IsNewer page_num first_offset (offset, bytes) =
      elim (Bool-cases ((page_num == 0) && ltb offset first_offset)) [
        | inl skipped ↦ rw skipped tt
        | inr looked_at ↦ elim (Option-cases (parse_archive_record bytes click)) [
          | inl e ↦ rw (looked_at, e) tt
          | inr (rec, e) ↦ elim (Bool-cases (before_or_at rec.timestamp cutoff)) [
            | inl old ↦ rw (looked_at, e, old) tt
            | inr new ↦ rw (looked_at, e, new) (new, tt)
          ]
        ]
      ]

  keep_records-IsNewer :
      (page_num first_offset : ℕ) (records : List (ℕ × Bytes))
      → All IsNewer (keep_records click page_num first_offset (some cutoff) records)
  unfolding keep_records
  keep_records-IsNewer page_num first_offset [] = tt
  keep_records-IsNewer page_num first_offset (r ∷ records) =
      All-append IsNewer (keep_record click page_num first_offset (some cutoff) r)
        (keep_records click page_num first_offset (some cutoff) records)
        (keep_record-IsNewer page_num first_offset r)
        (keep_records-IsNewer page_num first_offset records)

  abbrev pub Returned : Outcome (List (ArchiveRecord F)) → Type 0
  Returned (ok records) = All IsNewer records
  Returned (raised e) = Unit

  abbrev Next : Type 0
  Next = List (ArchiveRecord F) → Port → Outcome (List (ArchiveRecord F)) × Port

  take_page_newer :
      (page_num first_offset : ℕ) (records : List (ArchiveRecord F)) (rest : Next)
      → ((kept : List (ArchiveRecord F)) (p : Port) → All IsNewer kept → Returned (rest kept p).0)
      → All IsNewer records
      → (page : Option Bytes) (p : Port)
      → Returned (take_page click page_num first_offset (some cutoff) records rest page p).0
  unfolding send
  take_page_newer page_num first_offset records rest ih h none p =
      elim (Bool-cases p.stop_requested) [ inl e ↦ rw e h | inr e ↦ rw e tt ]
  take_page_newer page_num first_offset records rest ih h (some chunk) p =
      elim (Bool-cases p.stop_requested) [
        | inl e ↦ rw e h
        | inr e ↦ rw e (
            ih _ _ (
              All-append IsNewer records _ h
                (keep_records-IsNewer page_num first_offset (parse_archive_page chunk))))
      ]

  after_page :
      (page_num first_offset : ℕ) (records : List (ArchiveRecord F)) (rest : Next)
      → ((kept : List (ArchiveRecord F)) (p : Port) → All IsNewer kept → Returned (rest kept p).0)
      → All IsNewer records
      → (m : Port → Outcome (Option Bytes) × Port) (p : Port)
      → Returned ((m >>= take_page click page_num first_offset (some cutoff) records rest) p).0
  after_page page_num first_offset records rest ih h m p = go (m p).0 (m p).1
    where
      go :
          (r : Outcome (Option Bytes)) (q : Port)
          → Returned
              (((λ (_ : Port). (r, q))
                  >>= take_page click page_num first_offset (some cutoff) records rest)
                p).0
      go (ok page) q = take_page_newer page_num first_offset records rest ih h page q
      go (raised e) q = tt

  -- Every record that the page loop returns is later than the cutoff, if those that it started with
  -- were, whatever the console sends and whenever a stop is requested.
  read_pages_newer :
      (n page_num first_offset : ℕ) (records : List (ArchiveRecord F)) (p : Port)
      → All IsNewer records
      → Returned (read_pages click n page_num first_offset (some cutoff) records p).0
  unfolding read_pages
  read_pages_newer zero page_num first_offset records p h = h
  read_pages_newer (suc n) page_num first_offset records p h =
      after_page page_num first_offset records
        (read_pages click n (page_num + 1) first_offset (some cutoff))
        (λ kept q. read_pages_newer n (page_num + 1) first_offset kept q) h (read_page max_retries)
        p
