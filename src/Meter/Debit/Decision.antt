-- ===== src/Meter/Debit/Decision.antt =====
-- What each outcome of the overage decision says of the window, the usage and the allowance.
use vivijure_control_plane.Prelude.{ℕ, ◌+◌, ◌<◌, ◌≡◌, true, Option, some, arith}
use vivijure_control_plane.Prelude.Int.{pos}
use vivijure_control_plane.Prelude.Text.{Text}
use vivijure_control_plane.Meter.Window.{MeterWindow}
use vivijure_control_plane.Meter.Debit.{
  Num, whole, MeterClass, DebitOwed, owed, decide_overage_debit, overage_idem_ref,
}

-- An overage is owed only when the window is complete and the usage, a whole number, passes the
-- configured allowance, a whole number too; it is what passes, and its cost is the whole usage.
pub decide_overage_debit_owed :
    (meter : MeterClass) (window : MeterWindow) (used : Num) (allowance : Option Num) (key : Text)
    (d : DebitOwed)
    → decide_overage_debit meter window used allowance key ≡ owed d
    → (u a : ℕ) × (window.complete ≡ true)
      × (used ≡ whole (pos u))
      × (allowance ≡ some (whole (pos a)))
      × (0 < d.amount_micro_usd)
      × (d.amount_micro_usd + a ≡ u)
      × (d.cost_micro_usd ≡ u)
      × (d.idem_ref ≡ overage_idem_ref meter key)
unfolding decide_overage_debit
decide_overage_debit_owed meter window used allowance key d h = ground arith
