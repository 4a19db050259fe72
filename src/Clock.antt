-- ===== src/Clock.antt =====
-- Go's time.Time in UTC: seconds since January 1 of year 1 and nanoseconds, as package time keeps
-- it. The zero value is that instant.
use vpub_exporter.Prelude.{
  ℕ, ◌+◌, ◌*◌, ◌-◌, ◌/◌, ◌%◌, Bool, ◌&&◌, ◌||◌, ltb, ◌==◌, not, if◌then◌else◌, ℤ, pos, sub_ℕ, ltb_ℤ,
  eq_ℤ, ◌-ℤ◌,
}

pub record Time : Type 0 where
  pub sec : ℤ
  pub nsec : ℕ

abbrev pub zero_time : Time
zero_time = record { sec = pos 0; nsec = 0 }

-- n * time.Second, a time.Duration in nanoseconds
abbrev pub seconds : ℕ → ℤ
seconds n = pos (n * 1000000000)

-- t.After(u)
abbrev pub after : Time → Time → Bool
after t u = ltb_ℤ u.sec t.sec || eq_ℤ t.sec u.sec && ltb u.nsec t.nsec

-- t.IsZero()
abbrev pub is_zero : Time → Bool
is_zero t = eq_ℤ t.sec (pos 0) && t.nsec == 0

-- t.Unix()
unfoldable pub unix : Time → ℤ
unfolding ◌-ℤ◌
unix t = t.sec -ℤ pos 62135596800

unfoldable pub is_leap : ℕ → Bool
is_leap y = y % 4 == 0 && (not (y % 100 == 0) || y % 400 == 0)

-- the days of a month, counted from 1
unfoldable pub days_in : ℕ → ℕ → ℕ
unfolding is_leap
days_in m y =
    if m == 2
    then (if is_leap y then 29 else 28)
    else if m == 4 || m == 6 || m == 9 || m == 11
    then 30
    else 31

-- The days of a year before a month, counted from 1.
days_before : ℕ → ℕ → ℕ
unfolding is_leap
days_before m y =
    (if m == 1
      then 0
      else if m == 2
      then 31
      else if m == 3
      then 59
      else if m == 4
      then 90
      else if m == 5
      then 120
      else if m == 6
      then 151
      else if m == 7
      then 181
      else if m == 8
      then 212
      else if m == 9
      then 243
      else if m == 10
      then 273
      else if m == 11
      then 304
      else 334)
    + (if ltb 2 m && is_leap y then 1 else 0)

-- The days from January 1 of year 0 to January 1 of year y.
days_to_year : ℕ → ℕ
days_to_year y = 365 * y + (y + 3) / 4 - (y + 99) / 100 + (y + 399) / 400

-- time.Date in UTC for a valid date; year 0 has 366 days.
unfoldable pub date : (year month day hour minute second nsec : ℕ) → Time
unfolding days_before days_to_year
date y mo d h mi s ns = record {
  sec =
      sub_ℕ ((days_to_year y + days_before mo y + (d - 1)) * 86400 + h * 3600 + mi * 60 + s)
        (366 * 86400);
  nsec = ns;
}
