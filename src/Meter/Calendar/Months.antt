-- ===== src/Meter/Calendar/Months.antt =====
-- The month of an instant, and the instants of a month.
use vivijure_control_plane.Prelude.{
  ℕ, zero, suc, ◌+◌, ◌-◌, ◌/◌, ◌≤◌, ◌<◌, ◌≡◌, refl, arith, leb, leb→le, Bool-cases, inl, inr, subst,
}
use vivijure_control_plane.Meter.Calendar.{
  year_days, leap_day, month_days, month_up, month_of, year_of, ms_per_day,
}
use vivijure_control_plane.Meter.Calendar.Years.{year_days-suc, year_of_bounds, year_of_unique}

-- Each month of the year has some day.
pub month_days-suc : (l m : ℕ) → m < 12 → month_days l m < month_days l (suc m)
unfolding month_days
month_days-suc l zero h = omega arith
month_days-suc l (suc zero) h = omega arith
month_days-suc l (suc (suc zero)) h = omega arith
month_days-suc l (suc (suc (suc zero))) h = omega arith
month_days-suc l (suc (suc (suc (suc zero)))) h = omega arith
month_days-suc l (suc (suc (suc (suc (suc zero))))) h = omega arith
month_days-suc l (suc (suc (suc (suc (suc (suc zero)))))) h = omega arith
month_days-suc l (suc (suc (suc (suc (suc (suc (suc zero))))))) h = omega arith
month_days-suc l (suc (suc (suc (suc (suc (suc (suc (suc zero)))))))) h = omega arith
month_days-suc l (suc (suc (suc (suc (suc (suc (suc (suc (suc zero))))))))) h = omega arith
month_days-suc l (suc (suc (suc (suc (suc (suc (suc (suc (suc (suc zero)))))))))) h = omega arith
month_days-suc l (suc (suc (suc (suc (suc (suc (suc (suc (suc (suc (suc zero))))))))))) h =
    omega arith
month_days-suc l (suc (suc (suc (suc (suc (suc (suc (suc (suc (suc (suc (suc m)))))))))))) h =
    absurd (omega arith)

pub month_days-12 : (l : ℕ) → month_days l 12 ≡ 365 + l
unfolding month_days
month_days-12 l = refl

month_days_mono : (l m n : ℕ) → m ≤ n → n ≤ 12 → month_days l m ≤ month_days l n
month_days_mono l m zero h k = ground arith
month_days_mono l m (suc n) h k = elim (Bool-cases (leb m n)) [
  | inl le ↦
      omega (
        arith,
        month_days_mono l m n (leb→le m n le) (omega arith),
        month_days-suc l n (omega arith),
      )
  | inr gt ↦ ground arith
]

month_up-lt : (f l m d : ℕ) → month_up f l m d ≤ m + f
unfolding month_up
month_up-lt zero l m d = omega arith
month_up-lt (suc f) l m d = elim (Bool-cases (leb (month_days l (suc m)) d)) [
  | inl more ↦ rw more (omega (arith, month_up-lt f l (suc m) d))
  | inr last ↦ rw last (omega arith)
]

month_up_lower : (f l m d : ℕ) → month_days l m ≤ d → month_days l (month_up f l m d) ≤ d
unfolding month_up
month_up_lower zero l m d h = h
month_up_lower (suc f) l m d h = elim (Bool-cases (leb (month_days l (suc m)) d)) [
  | inl more ↦ rw more (month_up_lower f l (suc m) d (leb→le _ _ more))
  | inr last ↦ rw last h
]

month_up_upper :
    (f l m d : ℕ) → d < month_days l (suc m + f) → d < month_days l (suc (month_up f l m d))
unfolding month_up
month_up_upper zero l m d h =
    let e : suc m + 0 ≡ suc m = omega arith in subst (λ k. d < month_days l k) e h
month_up_upper (suc f) l m d h = elim (Bool-cases (leb (month_days l (suc m)) d)) [
  | inl more ↦
      let e : suc m + suc f ≡ suc (suc m) + f = omega arith in
      rw more (month_up_upper f l (suc m) d (subst (λ k. d < month_days l k) e h))
  | inr last ↦ rw last (ground arith)
]

-- The month of an instant is one of twelve, and the instant lies between its first instant and
-- that of the next month.
pub month_of-lt : (t : ℕ) → month_of t < 12
unfolding month_of
month_of-lt t =
    omega (arith, month_up-lt 11 (leap_day (year_of t)) 0 (t / ms_per_day - year_days (year_of t)))

pub month_of_bounds :
    (t : ℕ)
    → let y = year_of t in
      (year_days y + month_days (leap_day y) (month_of t) ≤ t / ms_per_day)
      × (t / ms_per_day < year_days y + month_days (leap_day y) (suc (month_of t)))
unfolding month_of
month_of_bounds t =
    let y = year_of t in
    let d = t / ms_per_day in
    let l = leap_day y in
    let (lo, hi) = year_of_bounds t in
    let first : month_days l 0 ≤ d - year_days y = (unfold month_days in omega arith) in
    let lower = month_up_lower 11 l 0 (d - year_days y) first in
    let upper =
      month_up_upper 11 l 0 (d - year_days y) (omega (arith, year_days-suc y, month_days-12 l)) in
    (omega arith, omega arith)

month_unique :
    (l m n d : ℕ)
    → m < 12
    → n < 12
    → month_days l m ≤ d
    → d < month_days l (suc m)
    → month_days l n ≤ d
    → d < month_days l (suc n)
    → n ≤ m
month_unique l m n d hm hn a b p q = elim (Bool-cases (leb n m)) [
  | inl le ↦ leb→le _ _ le
  | inr gt ↦ absurd (omega (arith, month_days_mono l (suc m) n (ground arith) (omega arith)))
]

-- An instant between the starts of two neighbouring months lies in the first of them.
pub month_of_unique :
    (t y m : ℕ)
    → m < 12
    → year_days y + month_days (leap_day y) m ≤ t / ms_per_day
    → t / ms_per_day < year_days y + month_days (leap_day y) (suc m)
    → (year_of t ≡ y) × (month_of t ≡ m)
month_of_unique t y m hm lo hi = (same_year, same_month)
  where
    same_year : year_of t ≡ y
    same_year = year_of_unique t y (omega arith) (
        omega (
          arith,
          year_days-suc y,
          month_days-12 (leap_day y),
          month_days_mono (leap_day y) (suc m) 12 (omega arith) (omega arith),
        ))

    same_month : month_of t ≡ m
    same_month =
        let (a, b) = rw same_year at (month_of_bounds t) in
        let l = leap_day y in
        let d = t / ms_per_day - year_days y in
        let h₁ =
          month_unique l m (month_of t) d hm (month_of-lt t) (omega arith) (omega arith)
            (omega arith) (omega arith) in
        let h₂ =
          month_unique l (month_of t) m d (month_of-lt t) hm (omega arith) (omega arith)
            (omega arith) (omega arith) in
        omega arith
