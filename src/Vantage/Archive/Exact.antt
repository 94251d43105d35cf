-- ===== src/Vantage/Archive/Exact.antt =====
-- An archive record is decided by its first 52 bytes, and its time stamp by its first four.
use kanfei.Prelude.{
  ℕ, ◌+◌, ◌/◌, ◌≤◌, ◌<◌, ◌≡◌, ◌≢◌, ◌↔◌, true, Option, some, length, take, arith, All, ap, subst,
  sym, ◌∙◌, length-take, ltb_ge, fun_ext, pos, inl, inr, Option-cases,
}
use kanfei.Prelude.Masks.{mask4, mask5, mask7}
use kanfei.Bytes.{Bytes, u16_at, i16_at}
use kanfei.Bytes.Laws.{byte_at-take, u16_at-lt}
use kanfei.Floats.{Float}
use kanfei.Calendar.{DateTime, is_valid, make}
use kanfei.Vantage.Stamp.{decode_stamps, date_stamp, time_stamp}
use kanfei.Vantage.Stamp.Laws.{is_valid-InBounds, date, decode-stamps}
use kanfei.Vantage.Archive.{ArchiveRecord, parse_archive_record, fill_record}

u16_at-take : (bytes : Bytes) (i : ℕ) → i + 2 ≤ 52 → u16_at (take 52 bytes) i ≡ u16_at bytes i
unfolding u16_at
u16_at-take bytes i h = ground (arith, byte_at-take 52 bytes i, byte_at-take 52 bytes (i + 1))

-- What two decoded stamps encode to.
record_stamp :
    (date_raw time_raw : ℕ) (ts : DateTime)
    → date_raw < 65536
    → decode_stamps date_raw time_raw ≡ some ts
    → (is_valid ts ≡ true) × (date_stamp ts ≡ pos date_raw) × (time_stamp ts ≡ time_raw)
unfolding decode_stamps date_stamp time_stamp make
record_stamp d t ts h e = ground (arith, mask7 (d / 512), mask4 (d / 32), mask5 d)

-- An existing minute whose stamp fits 16 bits is in the range that the encoder takes.
stamp_years :
    (ts : DateTime) (d : ℕ)
    → d < 65536
    → is_valid ts ≡ true
    → date_stamp ts ≡ pos d
    → (2000 ≤ ts.year) × (ts.year ≤ 2127) × (d ≡ date ts) × (d ≢ 0) × (d ≢ 0xFFFF)
unfolding date_stamp is_valid
stamp_years ts d h valid e = ground (arith, is_valid-InBounds ts valid)

module _ {F : Type 0} ⦃fl : Float F⦄ where
  fill_record-take :
      (bytes : Bytes) (click : F) → fill_record click (take 52 bytes) ≡ fill_record click bytes
  unfolding parse_archive_record u16_at i16_at
  fill_record-take bytes click = fun_ext λ ts. simp (byte_at-take)

  -- When the 52 bytes of a record are there, what follows them does not change the result of
  -- `parse_archive_record`: no read goes past the record.
  pub parse_archive_record-take :
      (bytes : Bytes) (click : F)
      → 52 ≤ length bytes
      → parse_archive_record (take 52 bytes) click ≡ parse_archive_record bytes click
  unfolding parse_archive_record
  parse_archive_record-take bytes click h =
      let exact : length (take 52 bytes) ≡ 52 = length-take 52 bytes ∙ omega arith in
      rw (
        exact,
        ltb_ge 52 (length bytes) h,
        fill_record-take bytes click,
        u16_at-take bytes 0 (omega arith),
        u16_at-take bytes 2 (omega arith),
      )

  timestamp-fill_record :
      (bytes : Bytes) (click : F) (ts : DateTime) → (fill_record click bytes ts).timestamp ≡ ts
  unfolding parse_archive_record
  timestamp-fill_record bytes click ts = ground arith

  pub parsed_inversion :
      (bytes : Bytes) (click : F) (rec : ArchiveRecord F)
      → parse_archive_record bytes click ≡ some rec
      → (52 ≤ length bytes)
        × (decode_stamps (u16_at bytes 0) (u16_at bytes 2) ≡ some rec.timestamp)
        × (fill_record click bytes rec.timestamp ≡ rec)
  parsed_inversion bytes click rec h = elim (Option-cases decoded) [
    | inl e ↦ absurd (unfold parse_archive_record in ground (arith, e))
    | inr (ts, e) ↦
        let same : fill_record click bytes ts ≡ rec =
          unfold parse_archive_record in ground (arith, e) in
        (
          unfold parse_archive_record in ground (arith, e),
          e ∙ ap some (at ts same),
          ap (fill_record click bytes) (sym (at ts same)) ∙ same,
        )
  ]
    where
      at : (ts : DateTime) → fill_record click bytes ts ≡ rec → ts ≡ rec.timestamp
      at ts same =
          sym (timestamp-fill_record bytes click ts)
          ∙ ap (λ (r : ArchiveRecord F). r.timestamp) same

      decoded : Option DateTime
      decoded = decode_stamps (u16_at bytes 0) (u16_at bytes 2)

  parsed_back :
      (bytes : Bytes) (click : F) (ts : DateTime)
      → 52 ≤ length bytes
      → u16_at bytes 0 ≢ 0
      → u16_at bytes 0 ≢ 0xFFFF
      → decode_stamps (u16_at bytes 0) (u16_at bytes 2) ≡ some ts
      → parse_archive_record bytes click ≡ some (fill_record click bytes ts)
  parsed_back bytes click ts long nonzero written e =
      unfold parse_archive_record in rw e (ground arith)

  -- `parse_archive_record` gives a record of the minute `ts` exactly when the 52 bytes are there,
  -- `ts` exists, and the first two fields are the stamps that encode it.
  pub parse_archive_record_iff :
      (bytes : Bytes) (click : F) (ts : DateTime)
      → All (λ b. b < 256) bytes
      → ((rec : ArchiveRecord F) × (parse_archive_record bytes click ≡ some rec)
          × (rec.timestamp ≡ ts))
        ↔ ((52 ≤ length bytes)
            × (is_valid ts ≡ true)
            × (date_stamp ts ≡ pos (u16_at bytes 0))
            × (time_stamp ts ≡ u16_at bytes 2))
  parse_archive_record_iff bytes click ts small = (forth, back)
    where
      Encodes : DateTime → Type 0
      Encodes t =
          (is_valid t ≡ true)
          × (date_stamp t ≡ pos (u16_at bytes 0))
          × (time_stamp t ≡ u16_at bytes 2)

      forth :
          (rec : ArchiveRecord F) × (parse_archive_record bytes click ≡ some rec)
            × (rec.timestamp ≡ ts)
          → (52 ≤ length bytes)
            × (is_valid ts ≡ true)
            × (date_stamp ts ≡ pos (u16_at bytes 0))
            × (time_stamp ts ≡ u16_at bytes 2)
      forth (rec, parsed, at) =
          let inv = parsed_inversion bytes click rec parsed in
          let stamp : Encodes rec.timestamp =
            record_stamp (u16_at bytes 0) (u16_at bytes 2) rec.timestamp (u16_at-lt bytes 0 small)
              inv.1 in
          let moved : Encodes ts = subst Encodes at stamp in (inv.0, moved.0, moved.1, moved.2)

      back :
          (52 ≤ length bytes)
            × (is_valid ts ≡ true)
            × (date_stamp ts ≡ pos (u16_at bytes 0))
            × (time_stamp ts ≡ u16_at bytes 2)
          → (rec : ArchiveRecord F) × (parse_archive_record bytes click ≡ some rec)
            × (rec.timestamp ≡ ts)
      back (long, valid, d, t) =
          let years = stamp_years ts (u16_at bytes 0) (u16_at-lt bytes 0 small) valid d in
          let decoded =
            ap (λ (n : ℕ). decode_stamps n (u16_at bytes 2)) years.2
            ∙ ap (decode_stamps (date ts)) (sym t)
            ∙ decode-stamps ts valid years.0 years.1 in
          (
            fill_record click bytes ts,
            parsed_back bytes click ts long years.3 years.4 decoded,
            timestamp-fill_record bytes click ts,
          )
