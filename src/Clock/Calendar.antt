-- ===== src/Clock/Calendar.antt =====
-- Dates and times of day of an instant, and their ISO 8601 texts, as Python's `datetime` gives them.
-- Instants count microseconds from 0001-01-01T00:00:00 in UTC.
use Prim.Native.String.{◌++◌}
use revenue_guard.Prelude.{
  ℕ, ◌+◌, ◌-◌, ◌*◌, ◌/◌, ◌%◌, String, ◌≡◌, refl, leb, ltb, ◌==◌, if◌then◌else◌,
}

abbrev pub day_length : ℕ
day_length = 86400000000

-- The microseconds since midnight.
abbrev pub time_of_day : ℕ → ℕ
time_of_day t = t % day_length

-- The midnight before an instant.
abbrev pub midnight : ℕ → ℕ
midnight t = t - t % day_length

abbrev pub hour : ℕ → ℕ
hour t = t % day_length / 3600000000

-- A day of the proleptic Gregorian calendar, counted in eras of 400 years from 1 March of year 0.
record Day : Type 0 where
  year : ℕ
  month : ℕ
  day : ℕ

abbrev year_of_era : ℕ → ℕ
year_of_era doe = (doe - doe / 1460 + doe / 36524 - doe / 146096) / 365

abbrev day_in_era : ℕ → ℕ → ℕ → Day
day_in_era era yoe doy =
    let mp = (5 * doy + 2) / 153 in
    let m = if ltb mp 10 then mp + 3 else mp - 9 in
    record {
      year = yoe + era * 400 + (if leb m 2 then 1 else 0);
      month = m;
      day = doy - (153 * mp + 2) / 5 + 1;
    }

civil : ℕ → Day
civil days =
    let z = days + 306 in
    let doe = z % 146097 in
    let yoe = year_of_era doe in
    day_in_era (z / 146097) yoe (doe - (365 * yoe + yoe / 4 - yoe / 100))

-- `value.day`.
unfoldable pub day_of_month : ℕ → ℕ
unfolding civil
day_of_month t = (civil (t / day_length)).day

abbrev digit_text : ℕ → String
digit_text d =
    if d == 0
    then "0"
    else if d == 1
    then "1"
    else if d == 2
    then "2"
    else if d == 3
    then "3"
    else if d == 4
    then "4"
    else if d == 5
    then "5"
    else if d == 6
    then "6"
    else if d == 7
    then "7"
    else if d == 8
    then "8"
    else "9"

two_digits : ℕ → String
two_digits n = digit_text (n / 10 % 10) ++ digit_text (n % 10)

four_digits : ℕ → String
unfolding two_digits
four_digits n = two_digits (n / 100) ++ two_digits n

-- `value.isoformat(timespec="seconds")` of a time of day.
unfoldable pub iso_time : ℕ → String
unfolding two_digits
iso_time t =
    let s = t / 1000000 in
    two_digits (s / 3600) ++ ":" ++ two_digits (s / 60 % 60) ++ ":" ++ two_digits (s % 60)

iso_date : Day → String
unfolding two_digits four_digits
iso_date d = four_digits d.year ++ "-" ++ two_digits d.month ++ "-" ++ two_digits d.day

-- `value.isoformat(timespec="seconds").replace("+00:00", "Z")` of a time in UTC.
unfoldable pub format : ℕ → String
unfolding iso_time iso_date civil
format t = iso_date (civil (t / day_length)) ++ "T" ++ iso_time (t % day_length) ++ "Z"

-- The fraction of a second, in six digits, or nothing where it is zero.
abbrev fraction : ℕ → String
fraction micro =
    if micro == 0
    then ""
    else "." ++ two_digits (micro / 10000) ++ two_digits (micro / 100) ++ two_digits micro

-- `value.isoformat().replace("+00:00", "Z")` of a time in UTC.
unfoldable pub format_exact : ℕ → String
unfolding iso_time iso_date civil two_digits
format_exact t =
    iso_date (civil (t / day_length))
    ++ "T"
    ++ iso_time (t % day_length)
    ++ fraction (t % 1000000)
    ++ "Z"

-- 2026-08-25 is day 739852 of the calendar, counted from 0; 2024 was a leap year.
format_policy_day : format (739852 * 86400000000 + 3661000000) ≡ "2026-08-25T01:01:01Z"
unfolding format
format_policy_day = refl

format_leap_day : format (738944 * 86400000000) ≡ "2024-02-29T00:00:00Z"
unfolding format
format_leap_day = refl

format_first_day : format 0 ≡ "0001-01-01T00:00:00Z"
unfolding format
format_first_day = refl

format_exact_fraction : format_exact 3661000250 ≡ "0001-01-01T01:01:01.000250Z"
unfolding format_exact
format_exact_fraction = refl
