-- ===== src/Meter/Calendar.antt =====
-- The UTC calendar behind `Date.UTC`, `getUTCFullYear` and `getUTCMonth` of src/meter-period.ts:
-- the proleptic Gregorian calendar of ECMAScript. An instant counts the milliseconds from the
-- first of January of the year 0, a shift of the time value of a `Date` by a constant.
pub mod Years
pub mod Months
use vivijure_control_plane.Prelude.{
  ℕ, zero, suc, ◌+◌, ◌-◌, ◌*◌, ◌/◌, ◌%◌, Bool, true, false, ◌&&◌, ◌||◌, not, leb, ltb, ◌==◌, nat_eq,
  if◌then◌else◌,
}

abbrev pub ms_per_day : ℕ
ms_per_day = 86400000

-- `DayFromYear`: the days before the year.
unfoldable pub year_days : ℕ → ℕ
year_days y = 365 * y + (y + 3) / 4 + (y + 399) / 400 - (y + 99) / 100

unfoldable pub is_leap : ℕ → Bool
is_leap y = y % 4 == 0 && (not (y % 100 == 0) || y % 400 == 0)

unfoldable pub leap_day : ℕ → ℕ
unfolding is_leap
leap_day y = if is_leap y then 1 else 0

-- The days of the year before the month `m`, which counts from 0; from 12 on, those of the year.
unfoldable pub month_days : ℕ → ℕ → ℕ
month_days leap zero = 0
month_days leap (suc zero) = 31
month_days leap (suc (suc zero)) = 59 + leap
month_days leap (suc (suc (suc zero))) = 90 + leap
month_days leap (suc (suc (suc (suc zero)))) = 120 + leap
month_days leap (suc (suc (suc (suc (suc zero))))) = 151 + leap
month_days leap (suc (suc (suc (suc (suc (suc zero)))))) = 181 + leap
month_days leap (suc (suc (suc (suc (suc (suc (suc zero))))))) = 212 + leap
month_days leap (suc (suc (suc (suc (suc (suc (suc (suc zero)))))))) = 243 + leap
month_days leap (suc (suc (suc (suc (suc (suc (suc (suc (suc zero))))))))) = 273 + leap
month_days leap (suc (suc (suc (suc (suc (suc (suc (suc (suc (suc zero)))))))))) = 304 + leap
month_days leap (suc (suc (suc (suc (suc (suc (suc (suc (suc (suc (suc zero))))))))))) = 334 + leap
month_days leap _ = 365 + leap

-- The first instant of the month `m` of the year `y`, for `m` below 12.
unfoldable pub month_start : ℕ → ℕ → ℕ
unfolding year_days leap_day month_days
month_start y m = (year_days y + month_days (leap_day y) m) * ms_per_day

-- `Date.UTC(y, m, 1)` for `m` up to 23: a month past December rolls the year over, and a year
-- below 100 is one of the twentieth century.
unfoldable pub date_utc : ℕ → ℕ → ℕ
unfolding month_start
date_utc y m = let full = if ltb y 100 then 1900 + y else y in month_start (full + m / 12) (m % 12)

-- `YearFromTime`: up from a year that is not after the day, to the last such year.
year_up : ℕ → ℕ → ℕ → ℕ
year_up zero y d = y
year_up (suc f) y d =
    let later = year_up f (suc y) d in if leb (year_days (suc y)) d then later else y

unfoldable pub year_of : ℕ → ℕ
unfolding year_up
year_of t = let d = t / ms_per_day in year_up (suc d) (d / 366) d

month_up : ℕ → ℕ → ℕ → ℕ → ℕ
month_up zero leap m d = m
month_up (suc f) leap m d =
    let later = month_up f leap (suc m) d in if leb (month_days leap (suc m)) d then later else m

-- `MonthFromTime`, from 0 for January.
unfoldable pub month_of : ℕ → ℕ
unfolding month_up
month_of t = let y = year_of t in month_up 11 (leap_day y) 0 (t / ms_per_day - year_days y)
