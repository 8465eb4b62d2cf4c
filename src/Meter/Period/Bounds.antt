-- ===== src/Meter/Period/Bounds.antt =====
-- The windows of the periods of src/meter-period.ts: what they hold, and how they follow on each other.
use vivijure_control_plane.Prelude.{
  ℕ, zero, suc, ◌+◌, ◌-◌, ◌*◌, ◌/◌, ◌%◌, ◌≤◌, ◌<◌, ◌≡◌, ◌∙◌, sym, ap, true, false, arith, leb, ltb,
  Bool-cases, inl, inr,
}
use vivijure_control_plane.Credits.{Instant}
use vivijure_control_plane.Meter.Calendar.{
  year_days, leap_day, month_days, month_start, month_of, year_of, ms_per_day, date_utc,
}
use vivijure_control_plane.Meter.Calendar.Years.{year_days-suc}
use vivijure_control_plane.Meter.Calendar.Months.{
  month_of-lt, month_of_bounds, month_of_unique, month_days-12, month_days-suc,
}
use vivijure_control_plane.Meter.Period.{
  billing_period_containing, last_closed_billing_period, billing_period_is_closed,
}

-- From the year 100 on `Date.UTC` reads the year as it stands.
pub date_utc_this :
    (y m : ℕ)
    → 100 ≤ y
    → m < 12
    → date_utc y m ≡ (year_days y + month_days (leap_day y) m) * ms_per_day
unfolding date_utc month_start
date_utc_this y m h k =
    let e₁ : y + m / 12 ≡ y = omega arith in
    let e₂ : m % 12 ≡ m = omega arith in
    let old : ltb y 100 ≡ false = ground arith in rw old (rw (e₁, e₂))

pub date_utc_next :
    (y m : ℕ)
    → 100 ≤ y
    → m < 12
    → date_utc y (m + 1) ≡ (year_days y + month_days (leap_day y) (suc m)) * ms_per_day
date_utc_next y m h k = elim (Bool-cases (leb (suc m) 11)) [
  | inl inside ↦
      let e : m + 1 ≡ suc m = omega arith in rw e (date_utc_this y (suc m) h (ground arith))
  | inr over ↦
      let e : suc m ≡ 12 = ground arith in
      let f : m + 1 ≡ 12 = ground arith in rw (f, e) (rolled y h)
]
  where
    rolled :
        (y : ℕ) → 100 ≤ y → date_utc y 12 ≡ (year_days y + month_days (leap_day y) 12) * ms_per_day
    rolled y h =
        first y h
        ∙ ap (λ d. d * ms_per_day) (omega (arith, year_days-suc y, month_days-12 (leap_day y)))
      where
        first : (y : ℕ) → 100 ≤ y → date_utc y 12 ≡ year_days (suc y) * ms_per_day
        first y h = (unfold date_utc month_start month_days in ground arith)

-- The period of an instant of the year 100 or later contains it.
pub billing_period_containing_bounds :
    (at : Instant)
    → 100 ≤ year_of at
    → let p = billing_period_containing at in (p.window_start ≤ at) × (at < p.window_end)
unfolding billing_period_containing
billing_period_containing_bounds at h =
    let (lo, hi) = month_of_bounds at in
    (
      omega (arith, date_utc_this (year_of at) (month_of at) h (month_of-lt at)),
      omega (arith, date_utc_next (year_of at) (month_of at) h (month_of-lt at)),
    )

same_period :
    (t at : Instant)
    → year_of t ≡ year_of at
    → month_of t ≡ month_of at
    → billing_period_containing t ≡ billing_period_containing at
unfolding billing_period_containing
same_period t at y m = rw (y, m)

-- Two periods that share an instant are one: every instant that lies in the window of a period of the
-- year 100 or later has that period, with the same key.
pub billing_period_containing_unique :
    (at t : Instant)
    → 100 ≤ year_of at
    → (billing_period_containing at).window_start ≤ t
    → t < (billing_period_containing at).window_end
    → billing_period_containing t ≡ billing_period_containing at
unfolding billing_period_containing
billing_period_containing_unique at t h lo hi =
    let m = month_of at in
    let e₁ = date_utc_this (year_of at) m h (month_of-lt at) in
    let e₂ = date_utc_next (year_of at) m h (month_of-lt at) in
    let (y_is, m_is) =
      month_of_unique t (year_of at) m (month_of-lt at) (omega arith) (omega arith) in
    same_period t at y_is m_is

-- The last instant before the next month lies in the month.
last_of_month :
    (t y m : ℕ) → 100 ≤ y → m < 12 → t + 1 ≡ date_utc y (m + 1) → (year_of t ≡ y) × (month_of t ≡ m)
last_of_month t y m h k e =
    month_of_unique t y m k (omega (arith, date_utc_next y m h k, month_days-suc (leap_day y) m k))
      (omega (arith, date_utc_next y m h k))

ends_at :
    (t y m : ℕ)
    → 100 ≤ y
    → m < 12
    → t + 1 ≡ date_utc y (m + 1)
    → (billing_period_containing t).window_end ≡ t + 1
unfolding billing_period_containing
ends_at t y m h k e = let (y_is, m_is) = last_of_month t y m h k e in rw (y_is, m_is) (sym e)

start_pos : (y m : ℕ) → 100 ≤ y → m < 12 → 0 < date_utc y m
start_pos y m h k = omega (arith, date_utc_this y m h k, positive)
  where
    positive : 0 < year_days y
    positive = (unfold year_days in omega arith)

ends_before :
    (y m : ℕ)
    → 101 ≤ y
    → m < 12
    → (billing_period_containing (date_utc y m - 1)).window_end ≡ date_utc y m
ends_before y zero h k =
    let p = start_pos y 0 (omega arith) k in
    let e : y ≡ suc (y - 1) = omega arith in
    ends_at (date_utc y 0 - 1) (y - 1) 11 (omega arith) (omega arith)
      (omega (arith, date_utc_this y 0 (omega arith) k, rolled))
    ∙ omega arith
  where
    rolled : date_utc y 0 ≡ date_utc (y - 1) 12
    rolled = (unfold date_utc month_start in ground arith)
ends_before y (suc m) h k =
    let p = start_pos y (suc m) (omega arith) k in
    let e : m + 1 ≡ suc m = omega arith in
    ends_at (date_utc y (suc m) - 1) y m (omega arith) (omega arith) (rw e (omega arith))
    ∙ omega arith

-- At an instant of the year 101 or later, the last closed period ends where the current one begins,
-- and it is closed at that instant, which the current one is not.
pub last_closed_billing_period_lem :
    (now : Instant)
    → 101 ≤ year_of now
    → let p = last_closed_billing_period now in
      let c = billing_period_containing now in
      (p.window_end ≡ c.window_start)
      × (billing_period_is_closed p now ≡ true)
      × (billing_period_is_closed c now ≡ false)
unfolding last_closed_billing_period billing_period_is_closed
last_closed_billing_period_lem now h =
    let (lo, hi) = billing_period_containing_bounds now (omega arith) in
    let e = meets now h in (e, ground arith, ground arith)
  where
    meets :
        (now : Instant)
        → 101 ≤ year_of now
        → (billing_period_containing ((billing_period_containing now).window_start - 1)).window_end
          ≡ (billing_period_containing now).window_start
    meets now h =
        (unfold billing_period_containing in
          ends_before (year_of now) (month_of now) h (month_of-lt now))
