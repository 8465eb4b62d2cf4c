-- ===== src/Meter/Settle.antt =====
-- src/meter-settle.ts: writing the overage debit, or honestly not writing it.
pub mod Once
use vivijure_control_plane.Prelude.{ℕ, Bool, true, false, Option, none, some, Result, ok, err}
use vivijure_control_plane.Prelude.Int.{ℤ, pos, neg}
use vivijure_control_plane.Prelude.Text.{Text}
use vivijure_control_plane.Credits.{Instant, LedgerRow, debit}
use vivijure_control_plane.Ledger.{Db, StoreError, Appended, append_ledger_row}
use vivijure_control_plane.Meter.Window.{MeterWindow}
use vivijure_control_plane.Meter.Debit.{
  Num, MeterClass, Unbillable, DebitOwed, DebitDecision, owed, within, unbillable,
  decide_overage_debit,
}

pub data SettleOutcome : Type 0 where
  debited : ℕ → Text → Text → SettleOutcome
  already_settled : Text → Text → SettleOutcome
  settled_within : ℕ → ℕ → SettleOutcome
  not_billed : Unbillable → SettleOutcome

-- The tenant, the meter and the period that are settled.
pub record Settlement : Type 0 where
  pub tenant_id : Text
  pub meter : MeterClass
  pub period_key : Text

unfoldable pub debit_row : Settlement → DebitOwed → Text → Instant → LedgerRow
debit_row s d id now = record {
  id = id;
  tenant_id = s.tenant_id;
  kind = debit;
  delta_micro_usd = neg (pos d.amount_micro_usd);
  cost_micro_usd = some (pos d.cost_micro_usd);
  idem_ref = d.idem_ref;
  hold_id = none;
  price_list_id = none;
  external_ref = none;
  note = some d.note;
  created_at = now;
}

-- What `written.applied` decides.
unfoldable pub outcome_of : DebitOwed → Appended → SettleOutcome
outcome_of d written = elim written.applied [
  | true ↦ debited d.amount_micro_usd d.idem_ref written.row.id
  | false ↦ already_settled d.idem_ref written.row.id
]

write_debit : Db → Settlement → DebitOwed → Text → Instant → Result StoreError (Db × SettleOutcome)
unfolding debit_row outcome_of
write_debit db s d id now = elim (append_ledger_row db (debit_row s d id now)) [
  | err e ↦ err e
  | ok (db', written) ↦ ok (db', outcome_of d written)
]

settle_decision :
    Db → Settlement → DebitDecision → Text → Instant → Result StoreError (Db × SettleOutcome)
unfolding write_debit
settle_decision db s (unbillable reason) id now = ok (db, not_billed reason)
settle_decision db s (within used allowance note) id now = ok (db, settled_within used allowance)
settle_decision db s (owed d) id now = write_debit db s d id now

-- `settleMeterOverage`; `id` and `now` are what `newId` and `now` answer if they are called.
unfoldable pub settle_meter_overage :
    Db
    → Settlement
    → MeterWindow
    → Num
    → Option Num
    → Text
    → Instant
    → Result StoreError (Db × SettleOutcome)
unfolding settle_decision
settle_meter_overage db s window used allowance id now =
    settle_decision db s (decide_overage_debit s.meter window used allowance s.period_key) id now
