-- ===== src/Credits/Amounts.antt =====
-- Amounts as text, in and out.
use vivijure_control_plane.Prelude.{ℕ, ◌≡◌, none, some, leb, if◌then◌else◌}
use vivijure_control_plane.Prelude.Text.{trim-tight}
use vivijure_control_plane.Prelude.Decimal.{
  decimal, number_of-decimal, is_digits-decimal, all-decimal, IsTight-digits,
}
use vivijure_control_plane.Credits.{parse_micro_usd, max_safe_integer}

-- A number written in decimal is read back exactly when it is a safe integer, and refused
-- otherwise.
pub parse_micro_usd-decimal :
    (n : ℕ) → parse_micro_usd (some (decimal n)) ≡ (if leb n max_safe_integer then some n else none)
unfolding parse_micro_usd
parse_micro_usd-decimal n =
    rw (trim-tight (decimal n) (IsTight-digits (decimal n) (all-decimal n)))
      (rw (is_digits-decimal n, number_of-decimal n))
