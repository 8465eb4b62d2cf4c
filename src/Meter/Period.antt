-- ===== src/Meter/Period.antt =====
-- src/meter-period.ts: the calendar month, UTC and half-open, as a billing period.
pub mod Bounds
pub mod Keys
use vivijure_control_plane.Prelude.{
  ℕ, suc, ◌+◌, ◌-◌, Bool, true, false, ◌&&◌, ◌||◌, Option, none, some, List, [], ◌∷◌, ◌++◌, leb,
  ltb, all, ◌==◌, nat_eq, if◌then◌else◌,
}
use vivijure_control_plane.Prelude.Text.{Text, codes, trim, is_digit, text_eq, text_beq}
use vivijure_control_plane.Prelude.Decimal.{decimal, pad_zero, number_of}
use vivijure_control_plane.Credits.{Instant}
use vivijure_control_plane.Meter.Calendar.{year_of, month_of, date_utc}

pub record BillingPeriod : Type 0 where
  pub key : Text
  pub window_start : Instant
  pub window_end : Instant

unfoldable pub period_key : ℕ → ℕ → Text
period_key y m = pad_zero 4 (decimal y) ++ (codes "-" ++ pad_zero 2 (decimal (m + 1)))

unfoldable pub billing_period_containing : Instant → BillingPeriod
unfolding period_key
billing_period_containing at =
    let y = year_of at in
    let m = month_of at in
    record { key = period_key y m; window_start = date_utc y m; window_end = date_utc y (m + 1) }

unfoldable pub last_closed_billing_period : Instant → BillingPeriod
last_closed_billing_period now =
    billing_period_containing ((billing_period_containing now).window_start - 1)

unfoldable pub billing_period_is_closed : BillingPeriod → Instant → Bool
billing_period_is_closed period now = leb period.window_end now

-- `/^(\d{4})-(\d{2})$/`, with its two groups.
unfoldable pub match_key : Text → Option (Text × Text)
match_key (a ∷ b ∷ c ∷ d ∷ e ∷ f ∷ g ∷ []) =
    if all is_digit (a ∷ b ∷ c ∷ d ∷ f ∷ g ∷ []) && e == b'-'
    then some (a ∷ b ∷ c ∷ d ∷ [], f ∷ g ∷ [])
    else none
match_key _ = none

-- The period that the two groups name, if it is the one that the whole key names.
period_of_groups : Text → Text → Text → Option BillingPeriod
period_of_groups key year_text month_text =
    let year = number_of year_text in
    let month = number_of month_text in
    let period = billing_period_containing (date_utc year (month - 1)) in
    if ltb month 1 || ltb 12 month then none else if period.key == key then some period else none

period_of_match : Text → Option (Text × Text) → Option BillingPeriod
period_of_match key none = none
period_of_match key (some (year_text, month_text)) = period_of_groups key year_text month_text

unfoldable pub parse_billing_period_key : Text → Option BillingPeriod
unfolding match_key period_of_match period_of_groups
parse_billing_period_key key = period_of_match (trim key) (match_key (trim key))
