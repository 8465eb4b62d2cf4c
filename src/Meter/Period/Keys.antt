-- ===== src/Meter/Period/Keys.antt =====
-- Reading a period's key back.
use vivijure_control_plane.Prelude.{
  ℕ, ◌+◌, ◌-◌, ◌≤◌, ◌<◌, ◌≡◌, ◌∙◌, refl, sym, subst, true, false, Option, none, some, [], ◌∷◌, ◌++◌,
  arith, ltb, length, all,
}
use vivijure_control_plane.Prelude.Text.{
  Text, codes, trim, trim-tight, is_digit, is_space, IsTight, IsTight-append, text_eq,
  text_beq_refl, text_beq_iff,
}
use vivijure_control_plane.Prelude.Decimal.{
  decimal, pad_zero, number_of, number_of-decimal, number_of-pad_zero, length-pad_zero,
  all-pad_zero, IsTight-digits, length-decimal-le,
}
use vivijure_control_plane.Credits.{Instant}
use vivijure_control_plane.Meter.Calendar.{year_of, month_of, date_utc}
use vivijure_control_plane.Meter.Calendar.Months.{month_of-lt}
use vivijure_control_plane.Meter.Period.{
  BillingPeriod, billing_period_containing, period_key, match_key, parse_billing_period_key,
  period_of_groups,
}
use vivijure_control_plane.Meter.Period.Bounds.{
  billing_period_containing_bounds, billing_period_containing_unique,
}

abbrev year_text : ℕ → Text
year_text y = pad_zero 4 (decimal y)

abbrev month_text : ℕ → Text
month_text m = pad_zero 2 (decimal (m + 1))

period_key-IsTight : (y m : ℕ) → IsTight (period_key y m)
unfolding period_key
period_key-IsTight y m =
    IsTight-append (year_text y) (codes "-" ++ month_text m)
      (IsTight-digits (year_text y) (all-pad_zero 4 y))
      (dash, IsTight-digits (month_text m) (all-pad_zero 2 (m + 1)))
  where
    dash : is_space b'-' ≡ false
    dash = (unfold is_space in refl)

-- Four digits, a dash and two digits are matched as they are.
match_key-parts :
    (a b : Text)
    → length a ≡ 4
    → length b ≡ 2
    → all is_digit a ≡ true
    → all is_digit b ≡ true
    → match_key (a ++ (codes "-" ++ b)) ≡ some (a, b)
unfolding match_key
match_key-parts (a ∷ b ∷ c ∷ d ∷ []) (f ∷ g ∷ []) h k p q = ground arith
match_key-parts [] b h k p q = absurd (omega arith)
match_key-parts (_ ∷ []) b h k p q = absurd (omega arith)
match_key-parts (_ ∷ _ ∷ []) b h k p q = absurd (omega arith)
match_key-parts (_ ∷ _ ∷ _ ∷ []) b h k p q = absurd (omega arith)
match_key-parts (_ ∷ _ ∷ _ ∷ _ ∷ _ ∷ _) b h k p q = absurd (omega arith)
match_key-parts (_ ∷ _ ∷ _ ∷ _ ∷ []) [] h k p q = absurd (omega arith)
match_key-parts (_ ∷ _ ∷ _ ∷ _ ∷ []) (_ ∷ []) h k p q = absurd (omega arith)
match_key-parts (_ ∷ _ ∷ _ ∷ _ ∷ []) (_ ∷ _ ∷ _ ∷ _) h k p q = absurd (omega arith)

match_key-period_key :
    (y m : ℕ) → y ≤ 9999 → m < 12 → match_key (period_key y m) ≡ some (year_text y, month_text m)
unfolding period_key
match_key-period_key y m h k =
    match_key-parts (year_text y) (month_text m)
      (length-pad_zero 4 (decimal y) (length-decimal-le 3 y (omega arith)))
      (length-pad_zero 2 (decimal (m + 1)) (length-decimal-le 1 (m + 1) (omega arith)))
      (all-pad_zero 4 y) (all-pad_zero 2 (m + 1))

-- The first instant of a period has that period.
start_period :
    (at : Instant)
    → 100 ≤ year_of at
    → billing_period_containing (date_utc (year_of at) (month_of at)) ≡ billing_period_containing at
start_period at h =
    let (lo, hi) = billing_period_containing_bounds at h in
    (unfold billing_period_containing in
      billing_period_containing_unique at (date_utc (year_of at) (month_of at)) h (omega arith)
        (omega arith))

key_is : (at : Instant) → (billing_period_containing at).key ≡ period_key (year_of at) (month_of at)
unfolding billing_period_containing
key_is at = refl

groups_named :
    (key y t : Text) (p : BillingPeriod) (n m : ℕ)
    → number_of y ≡ n
    → number_of t ≡ m + 1
    → m < 12
    → billing_period_containing (date_utc n m) ≡ p
    → p.key ≡ key
    → period_of_groups key y t ≡ some p
unfolding period_of_groups
groups_named key y t p n m year month bound same k =
    let back : m + 1 - 1 ≡ m = omega arith in
    let low : ltb (m + 1) 1 ≡ false = ground arith in
    let high : ltb 12 (m + 1) ≡ false = ground arith in
    rw (year, month) (rw (low, high) (rw (back, same, k) (rw (text_beq_refl key))))

parse_matched :
    (key : Text) (p : BillingPeriod) (y t : Text)
    → trim key ≡ key
    → match_key key ≡ some (y, t)
    → period_of_groups key y t ≡ some p
    → parse_billing_period_key key ≡ some p
unfolding parse_billing_period_key
parse_matched key p y t trimmed matched e = rw trimmed (rw matched e)

-- The key of the period of an instant in the years 100 to 9999 is read back as that period, window
-- and all.
pub parse_billing_period_key-key :
    (at : Instant)
    → 100 ≤ year_of at
    → year_of at ≤ 9999
    → let p = billing_period_containing at in parse_billing_period_key p.key ≡ some p
parse_billing_period_key-key at h k =
    let y = year_of at in
    let m = month_of at in
    let b = month_of-lt at in
    let key = period_key y m in
    subst (λ k. parse_billing_period_key k ≡ some (billing_period_containing at)) (sym (key_is at))
      (parse_matched key (billing_period_containing at) (year_text y) (month_text m)
        (trim-tight key (period_key-IsTight y m)) (match_key-period_key y m k b)
        (groups_named key (year_text y) (month_text m) (billing_period_containing at) y m
          (number_of-pad_zero 4 (decimal y) ∙ number_of-decimal y)
          (number_of-pad_zero 2 (decimal (m + 1)) ∙ number_of-decimal (m + 1)) b (start_period at h)
          (key_is at)))

-- A key that is accepted names its period: it is the period's own key, up to white space around it.
pub parse_billing_period_key_sound :
    (key : Text) (p : BillingPeriod) → parse_billing_period_key key ≡ some p → p.key ≡ trim key
unfolding parse_billing_period_key
parse_billing_period_key_sound key p e = go (match_key (trim key)) refl
  where
    go : (o : Option (Text × Text)) → match_key (trim key) ≡ o → p.key ≡ trim key
    go none q = absurd (ground arith)
    go (some (y, t)) q =
        let r = billing_period_containing (date_utc (number_of y) (number_of t - 1)) in
        ground (arith, text_beq_iff r.key (trim key))
