-- ===== src/ArchiveSync/Stamp/Laws.antt =====
-- What a stamp of the WeatherLink archive is read as.
use kanfei.Prelude.{
  ℕ, ◌+◌, ◌-◌, ◌≡◌, ◌<◌, length, ◌⊎◌, refl, ap, sym, ◌∙◌, true, false, some, [], ◌∷◌, ltb, ◌==◌,
  arith, all_below, all_below_sound, Each, Bool-cases, inl, inr, ==_iff,
}
use kanfei.Prelude.Masks.{mask4}
use kanfei.Bytes.{Bytes, byte_at}
use kanfei.Calendar.{DateTime, is_valid, make, before_or_at}
use kanfei.Vantage.Stamp.Laws.{InBounds, is_valid-InBounds, days_in_month-le}
use kanfei.ArchiveSync.Stamp.{
  bcd_decode, bcd_encode, stamp_at, is_out_of_range, unless_future, infer_year,
  decode_archive_timestamp,
}

-- What a console writes for a time.
abbrev pub archive_stamp : DateTime → Bytes
archive_stamp t = bcd_encode t.hour ∷ bcd_encode t.minute ∷ bcd_encode t.day ∷ t.month ∷ []

pub bcd_decode-encode : (v : ℕ) → v < 100 → bcd_decode (bcd_encode v) ≡ v
unfolding bcd_decode bcd_encode all_below
bcd_decode-encode v h =
    (==_iff _ _).0 (all_below_sound 100 (λ n. bcd_decode (bcd_encode n) == n) refl v h)

valid_in_range : (t : DateTime) → is_valid t ≡ true → is_out_of_range t ≡ false
unfolding is_valid is_out_of_range
valid_in_range t h = ground (arith, days_in_month-le t.year t.month)

make-valid : (t : DateTime) → is_valid t ≡ true → make t ≡ some t
unfolding make
make-valid t h = rw h refl

stamp_at-archive_stamp :
    (t : DateTime) (year : ℕ)
    → is_valid t ≡ true
    → stamp_at year (archive_stamp t) 0 ≡ record t { year = year }
unfolding stamp_at byte_at
stamp_at-archive_stamp t year valid =
    let b : InBounds t = is_valid-InBounds t valid in
    rw
      (
        bcd_decode-encode t.hour (omega (arith, b)),
        bcd_decode-encode t.minute (omega (arith, b)),
        bcd_decode-encode t.day (omega (arith, b)),
        mask4 t.month,
      )
      (ap (λ (m : ℕ). record t { year = year; month = m }) (omega (arith, b)))

-- The year of a stamp can be told at `now`: it is this year, or it is last year and the date is still
-- to come this year.
abbrev pub IsRecent : DateTime → DateTime → Type 0
IsRecent now t =
    (t.year ≡ now.year)
    ⊎ ((t.year + 1 ≡ now.year)
        × (is_valid (record t { year = now.year }) ≡ true)
        × (before_or_at (record t { year = now.year }) now ≡ false))

-- The stamp of an existing time that is not after `now` is read as that time, if it is of this year,
-- or of last year with a date that exists this year and is still to come.
pub decode_archive_timestamp-archive_stamp :
    (now t : DateTime)
    → is_valid t ≡ true
    → before_or_at t now ≡ true
    → IsRecent now t
    → decode_archive_timestamp now (archive_stamp t) 0 ≡ some t
unfolding decode_archive_timestamp infer_year
decode_archive_timestamp-archive_stamp now t valid past (inl same) =
    ap (infer_year now) (stamp_at-archive_stamp t now.year valid ∙ this_year)
    ∙ rw (valid_in_range t valid, make-valid t valid, past) refl
  where
    this_year : record t { year = now.year } ≡ t
    this_year = ap (λ (y : ℕ). record t { year = y }) (sym same)
decode_archive_timestamp-archive_stamp now t valid past (inr last) =
    let dt : DateTime = record t { year = now.year } in
    ap (infer_year now) (stamp_at-archive_stamp t now.year valid)
    ∙ rw (valid_in_range dt last.1, make-valid dt last.1, last.2)
        (ap (λ (y : ℕ). make (record t { year = y })) (omega (arith, last.0)) ∙ make-valid t valid)

-- An existing time that is not in the future.
abbrev pub IsPast : DateTime → DateTime → Type 0
IsPast now t = (is_valid t ≡ true) × (before_or_at t now ≡ true)

make-IsPast : (now t : DateTime) → t.year < now.year → Each (IsPast now) (make t)
unfolding make before_or_at
make-IsPast now t h = elim (Bool-cases (is_valid t)) [
  | inl e ↦ rw e (e, ground (arith, h))
  | inr e ↦ rw e tt
]

unless_future-IsPast :
    (now t : DateTime) → t.year ≡ now.year → Each (IsPast now) (unless_future now (make t))
unless_future-IsPast now t same = elim (Bool-cases (is_valid t)) [
  | inl e ↦ rw (make-valid t e) (elim (Bool-cases (before_or_at t now)) [
    | inl past ↦ rw past (e, past)
    | inr future ↦
        rw future (
          make-IsPast now (record t { year = t.year - 1 }) (omega (arith, same, from_year_one t e)))
  ])
  | inr e ↦ (unfold make in rw e tt)
]
  where
    from_year_one : (t : DateTime) → is_valid t ≡ true → 0 < t.year
    from_year_one t h = unfold is_valid in ground (arith, h)

-- Whatever the bytes are, a stamp is read as an existing time that is not in the future, if it is read
-- at all.
pub decode_archive_timestamp-IsPast :
    (now : DateTime) (raw : Bytes) (offset : ℕ)
    → Each (IsPast now) (decode_archive_timestamp now raw offset)
unfolding decode_archive_timestamp infer_year stamp_at
decode_archive_timestamp-IsPast now raw offset = elim (Bool-cases (ltb (length raw) (offset + 4))) [
  | inl e ↦ rw e tt
  | inr e ↦ rw e (elim (Bool-cases (is_out_of_range (stamp_at now.year raw offset))) [
    | inl out ↦ rw out tt
    | inr in_range ↦ rw in_range (unless_future-IsPast now (stamp_at now.year raw offset) refl)
  ])
]
