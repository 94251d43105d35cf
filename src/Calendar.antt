-- ===== src/Calendar.antt =====
-- `datetime(year, month, day, hour, minute)` as the archive decoders use it: the constructor, which
-- raises ValueError on a date that does not exist, and the order of two values.
use kanfei.Prelude.{
  ℕ, ◌%◌, Bool, ◌&&◌, ◌||◌, Option, none, some, ltb, leb, ◌==◌, not, if◌then◌else◌,
}

pub record DateTime : Type 0 where
  pub year : ℕ
  pub month : ℕ
  pub day : ℕ
  pub hour : ℕ
  pub minute : ℕ

unfoldable pub is_leap : ℕ → Bool
is_leap y = (y % 4 == 0) && (not (y % 100 == 0) || (y % 400 == 0))

unfoldable pub days_in_month : ℕ → ℕ → ℕ
unfolding is_leap
days_in_month y m =
    if (m == 4) || (m == 6) || (m == 9) || (m == 11)
    then 30
    else if not (m == 2)
    then 31
    else if is_leap y
    then 29
    else 28

unfoldable pub is_valid : DateTime → Bool
unfolding days_in_month
is_valid t =
    leb 1 t.year
    && leb t.year 9999
    && leb 1 t.month
    && leb t.month 12
    && leb 1 t.day
    && leb t.day (days_in_month t.year t.month)
    && ltb t.hour 24
    && ltb t.minute 60

-- `none` is the ValueError.
unfoldable pub make : DateTime → Option DateTime
unfolding is_valid
make t = if is_valid t then some t else none

-- Earlier or equal, field by field from the year down.
unfoldable pub before_or_at : DateTime → DateTime → Bool
before_or_at a b =
    if a.year == b.year
    then (if a.month == b.month
        then (if a.day == b.day
            then (if a.hour == b.hour then leb a.minute b.minute else ltb a.hour b.hour)
            else ltb a.day b.day)
        else ltb a.month b.month)
    else ltb a.year b.year
