-- ===== src/Meter/Calendar/Years.antt =====
-- The year of an instant.
use vivijure_control_plane.Prelude.{
  ℕ, zero, suc, ◌+◌, ◌/◌, ◌≤◌, ◌<◌, ◌≡◌, arith, leb, leb→le, Bool-cases, inl, inr,
}
use vivijure_control_plane.Meter.Calendar.{year_days, leap_day, year_up, year_of, ms_per_day}

-- A year has 365 days, and one more if it is a leap year.
pub year_days-suc : (y : ℕ) → year_days (suc y) ≡ year_days y + 365 + leap_day y
unfolding year_days leap_day
year_days-suc y = ground arith

pub leap_day-le : (y : ℕ) → leap_day y ≤ 1
unfolding leap_day
leap_day-le y = ground arith

pub year_days_mono : (y z : ℕ) → y ≤ z → year_days y ≤ year_days z
year_days_mono y zero h = ground arith
year_days_mono y (suc z) h = elim (Bool-cases (leb y z)) [
  | inl le ↦ omega (arith, year_days_mono y z (leb→le y z le), year_days-suc z)
  | inr gt ↦ ground arith
]

year_up-le : (f y d : ℕ) → year_days y ≤ d → year_days (year_up f y d) ≤ d
unfolding year_up
year_up-le zero y d h = h
year_up-le (suc f) y d h = elim (Bool-cases (leb (year_days (suc y)) d)) [
  | inl more ↦ rw more (year_up-le f (suc y) d (leb→le _ _ more))
  | inr last ↦ rw last h
]

year_up-lt : (f y d : ℕ) → d < year_days y + f → d < year_days (suc (year_up f y d))
unfolding year_up
year_up-lt zero y d h = omega (arith, year_days-suc y)
year_up-lt (suc f) y d h = elim (Bool-cases (leb (year_days (suc y)) d)) [
  | inl more ↦ rw more (year_up-lt f (suc y) d (omega (arith, year_days-suc y)))
  | inr last ↦ rw last (ground arith)
]

year_days-guess : (d : ℕ) → year_days (d / 366) ≤ d
unfolding year_days
year_days-guess d = omega arith

-- The day of an instant lies in its year.
pub year_of_bounds :
    (t : ℕ)
    → (year_days (year_of t) ≤ t / ms_per_day) × (t / ms_per_day < year_days (suc (year_of t)))
unfolding year_of
year_of_bounds t =
    let d = t / ms_per_day in
    (
      year_up-le (suc d) (d / 366) d (year_days-guess d),
      year_up-lt (suc d) (d / 366) d (omega arith),
    )

-- No other year has the day.
pub year_of_unique :
    (t y : ℕ) → year_days y ≤ t / ms_per_day → t / ms_per_day < year_days (suc y) → year_of t ≡ y
year_of_unique t y lo hi =
    let (a, b) = year_of_bounds t in
    let z = year_of t in omega (arith, at_most z y b lo, at_most y z hi a)
  where
    at_most : (a b : ℕ) {d : ℕ} → d < year_days (suc a) → year_days b ≤ d → b ≤ a
    at_most a b p q = elim (Bool-cases (leb b a)) [
      | inl le ↦ leb→le _ _ le
      | inr gt ↦ absurd (omega (arith, year_days_mono (suc a) b (ground arith)))
    ]
