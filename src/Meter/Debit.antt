-- ===== src/Meter/Debit.antt =====
-- src/meter-debit.ts: turning a metered window into an overage, or declining to.
pub mod Decision
use vivijure_control_plane.Prelude.{
  ℕ, ◌-◌, Bool, true, false, Option, none, some, List, [], ◌∷◌, ◌++◌, leb, if◌then◌else◌,
}
use vivijure_control_plane.Prelude.Int.{ℤ, pos, negsuc}
use vivijure_control_plane.Prelude.Text.{Text, codes}
use vivijure_control_plane.Prelude.Decimal.{decimal}
use vivijure_control_plane.Credits.{Instant, LedgerKind, debit}
use vivijure_control_plane.Meter.Window.{MeterWindow, Gap, is_unbillable}

-- A number as a caller may hand it over: whole, or not (a fraction, NaN, an infinity), which is
-- kept as its text.
pub data Num : Type 0 where
  whole : ℤ → Num
  not_whole : Text → Num

pub data MeterClass : Type 0 where
  llm r2_storage : MeterClass

abbrev pub meter_name : MeterClass → Text
meter_name llm = codes "llm"
meter_name r2_storage = codes "r2_storage"

-- Why nothing can be billed; the wording around these facts is not modelled.
pub data Unbillable : Type 0 where
  not_observed : MeterClass → Instant → Instant → Option (List Gap) → Unbillable
  bad_usage : MeterClass → Num → Unbillable
  no_allowance : MeterClass → Unbillable
  bad_allowance : MeterClass → Num → Unbillable
  settlement_threw : Text → Unbillable

pub record DebitOwed : Type 0 where
  pub amount_micro_usd : ℕ
  pub cost_micro_usd : ℕ
  pub idem_ref : Text
  pub note : Text

pub data DebitDecision : Type 0 where
  owed : DebitOwed → DebitDecision
  within : ℕ → ℕ → Text → DebitDecision
  unbillable : Unbillable → DebitDecision

unfoldable pub overage_idem_ref : MeterClass → Text → Text
overage_idem_ref meter key = codes "overage:" ++ (meter_name meter ++ (codes ":" ++ key))

-- `Number.isInteger(n) && n >= 0`.
abbrev pub as_count : Num → Option ℕ
as_count (whole (pos n)) = some n
as_count _ = none

within_note : MeterClass → Text → ℕ → ℕ → Text
within_note meter key used allowance =
    decimal used
    ++ (codes " of "
        ++ (decimal allowance
            ++ (codes " micro-USD included "
                ++ (meter_name meter
                    ++ (codes " allowance used in " ++ (key ++ codes "; nothing owed"))))))

owed_note : MeterClass → Text → ℕ → ℕ → Text
owed_note meter key used allowance =
    meter_name meter
    ++ (codes " overage for "
        ++ (key
            ++ (codes ": "
                ++ (decimal used
                    ++ (codes " micro-USD used against a "
                        ++ (decimal allowance ++ codes " micro-USD included allowance"))))))

unfoldable pub decide_overage_debit :
    MeterClass → MeterWindow → Num → Option Num → Text → DebitDecision
unfolding is_unbillable within_note owed_note
decide_overage_debit meter window used allowance key =
    if is_unbillable window
    then unbillable (not_observed meter window.window_start window.window_end window.reason)
    else elim (as_count used) [
      | none ↦ unbillable (bad_usage meter used)
      | some u ↦ elim allowance [
        | none ↦ unbillable (no_allowance meter)
        | some allowed ↦ elim (as_count allowed) [
          | none ↦ unbillable (bad_allowance meter allowed)
          | some a ↦
              if leb u a
              then within u a (within_note meter key u a)
              else owed (record {
                amount_micro_usd = u - a;
                cost_micro_usd = u;
                idem_ref = overage_idem_ref meter key;
                note = owed_note meter key u a;
              })
        ]
      ]
    ]
