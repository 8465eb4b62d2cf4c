-- ===== src/Meter/Run/Charge.antt =====
-- What a settlement run takes from the ledger's balances, beside what it reports.
use vivijure_control_plane.Prelude.{
  ℕ, suc, ◌+◌, ◌<◌, ◌≡◌, refl, false, Option, List, [], ◌∷◌, ◌++◌, Result, arith, sum_map,
}
use vivijure_control_plane.Prelude.Int.{neg, neg_part}
use vivijure_control_plane.Prelude.Text.{Text}
use vivijure_control_plane.Credits.{Instant, LedgerRow}
use vivijure_control_plane.Ledger.{Db, StoreError, Appended}
use vivijure_control_plane.Ledger.Append.{Append, replayed, applied, append_ledger_row-Append}
use vivijure_control_plane.Meter.Period.{BillingPeriod}
use vivijure_control_plane.Meter.Window.{LlmSpendWindow}
use vivijure_control_plane.Meter.Debit.{Num, DebitOwed}
use vivijure_control_plane.Meter.Settle.{
  Settlement, SettleOutcome, debited, already_settled, settled_within, not_billed, debit_row,
  outcome_of,
}
use vivijure_control_plane.Meter.Settle.Once.{is_debited, Settles, wrote, idle}
use vivijure_control_plane.Meter.Run.{TenantRef, Totals, tally, settle_tenant, settle_all}
use vivijure_control_plane.Meter.Run.Again.{settle_one-Settles}

-- What a row takes from its tenant's balance.
abbrev pub charge : LedgerRow → ℕ
charge r = neg_part r.delta_micro_usd

abbrev pub charges : Db → ℕ
charges db = sum_map charge db.ledger

abbrev amount_of : SettleOutcome → ℕ
amount_of (debited n ref row) = n
amount_of (already_settled ref row) = 0
amount_of (settled_within u n) = 0
amount_of (not_billed r) = 0

charges-snoc :
    (rs : List LedgerRow) (r : LedgerRow)
    → sum_map charge (rs ++ r ∷ []) ≡ sum_map charge rs + charge r
charges-snoc [] r = omega arith
charges-snoc (x ∷ rs) r = omega (arith, charges-snoc rs r)

charge-debit_row :
    (s : Settlement) (d : DebitOwed) (id : Text) (now : Instant)
    → 0 < d.amount_micro_usd
    → charge (debit_row s d id now) ≡ d.amount_micro_usd
unfolding debit_row neg
charge-debit_row s d id now h = ground arith

idle_amount : (o : SettleOutcome) → is_debited o ≡ false → amount_of o ≡ 0
idle_amount (debited n ref row) h = absurd (ground arith)
idle_amount (already_settled ref row) h = refl
idle_amount (settled_within u n) h = refl
idle_amount (not_billed r) h = refl

Settles-charges :
    (db : Db) (s : Settlement) {db' : Db} {o : SettleOutcome}
    → Settles db s db' o
    → charges db' ≡ charges db + amount_of o
unfolding outcome_of debit_row
Settles-charges db s (idle o h) = omega (arith, idle_amount o h)
Settles-charges db s (wrote d id now res positive ref e) =
    go (append_ledger_row-Append db (debit_row s d id now) e)
  where
    go :
        {db' : Db} {res : Appended}
        → Append db (debit_row s d id now) db' res
        → charges db' ≡ charges db + amount_of (outcome_of d res)
    go (replayed row found) = omega arith
    go (applied _ _ _) =
        omega (
          arith,
          charges-snoc db.ledger (debit_row s d id now),
          charge-debit_row s d id now positive,
        )

total-tally :
    (a : Totals) (t : TenantRef) (o : SettleOutcome)
    → (tally a t o).total_debited_micro_usd ≡ a.total_debited_micro_usd + amount_of o
unfolding tally
total-tally a t (debited n ref row) = refl
total-tally a t (already_settled ref row) = omega arith
total-tally a t (settled_within u n) = omega arith
total-tally a t (not_billed r) = omega arith

module _ (read : Text → Instant → Instant → Result Text LlmSpendWindow) (allowance : Option Num)
    (describe : StoreError → Text) (new_id : ℕ → Text) (clock : ℕ → Instant)
    (period : BillingPeriod) where
  pub settle_all-charges :
      (k : ℕ) (db : Db) (a : Totals) (ts : List TenantRef)
      → let r = settle_all read allowance describe new_id clock period k db a ts in
        charges r.0 + a.total_debited_micro_usd ≡ charges db + r.1.total_debited_micro_usd
  unfolding settle_all
  settle_all-charges k db a [] = refl
  settle_all-charges k db a (t ∷ ts) =
      let r = settle_tenant read allowance describe new_id clock period k db t in
      omega (
        arith,
        settle_all-charges (suc k) r.0 (tally a t r.1) ts,
        total-tally a t r.1,
        Settles-charges db _
            (settle_one-Settles read allowance period describe new_id clock k db t),
      )
