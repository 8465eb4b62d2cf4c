-- ===== src/PaymentRail.antt =====
-- src/payment-rail.ts: the amounts that an operator may credit, the rail without a checkout, and
-- the application of a settlement to the ledger. The requests to a processor are not modelled.
pub mod Apply
mod Tests
use vivijure_control_plane.Prelude.{
  ℕ, Bool, true, false, ◌||◌, Option, none, some, List, [], ◌∷◌, ◌++◌, Result, ok, err, leb, ltb,
  if◌then◌else◌,
}
use vivijure_control_plane.Prelude.Int.{ℤ, pos, pos_part, neg_part, ltb_ℤ, ltb_zero}
use vivijure_control_plane.Prelude.Text.{Text, codes}
use vivijure_control_plane.Prelude.Decimal.{print_ℤ}
use vivijure_control_plane.Credits.{Instant, LedgerRow, purchase, max_safe_integer}
use vivijure_control_plane.Ledger.{Db, StoreError, append_ledger_row}
use vivijure_control_plane.Meter.Debit.{Num, whole, not_whole}

pub record SettlementEvent : Type 0 where
  pub tenant_id : Text
  pub amount_micro_usd : ℤ
  pub external_ref : Text
  pub note : Option Text

pub data RailRefusal : Type 0 where
  unsupported not_configured invalid_amount unverified : RailRefusal

abbrev pub min_tenant_topup_micro_usd : ℕ
min_tenant_topup_micro_usd = 10000000

abbrev pub default_manual_credit_ceiling_micro_usd : ℕ
default_manual_credit_ceiling_micro_usd = 100000000

pub data CreditAmount : Type 0 where
  accepted : ℤ → CreditAmount
  refused : Text → CreditAmount

-- `unknown` of the source: a number, or any other value.
pub data Given : Type 0 where
  number : Num → Given
  other : Given

-- `typeof amount === "number" && Number.isSafeInteger(amount)`.
abbrev pub safe_integer : Given → Option ℤ
safe_integer (number (whole z)) =
    if leb (pos_part z) max_safe_integer
    then (if leb (neg_part z) max_safe_integer then some z else none)
    else none
safe_integer _ = none

unfoldable pub validate_credit_amount : Given → ℤ → CreditAmount
validate_credit_amount amount ceiling = elim (safe_integer amount) [
  | none ↦ refused (codes "amount_micro_usd must be a whole number of micro-USD (1e-6 USD)")
  | some a ↦
      if ltb_zero a
      then (if ltb_ℤ ceiling a
          then refused (
              codes "amount_micro_usd "
              ++ (print_ℤ a
                  ++ (codes " exceeds the single-credit ceiling of "
                      ++ (print_ℤ ceiling
                          ++ codes
                              "; raise MANUAL_CREDIT_CEILING_MICRO_USD to do this deliberately"))))
          else accepted a)
      else refused (codes "amount_micro_usd must be greater than zero")
]

-- The three methods of a rail, as far as the manual rail has them: each throws.
pub data RailCall : Type 0 where
  create_top_up parse_settlement capture_approved_order : RailCall

unfoldable pub manual_rail : RailCall → Result RailRefusal (Unit {0})
manual_rail create_top_up = err unsupported
manual_rail parse_settlement = err unsupported
manual_rail capture_approved_order = err unsupported

unfoldable pub settlement_ref : Text → Text → Text
settlement_ref rail external_ref = rail ++ (codes ":" ++ external_ref)

unfoldable pub purchase_row : Text → SettlementEvent → Text → Instant → LedgerRow
purchase_row rail event row_id now = record {
  id = row_id;
  tenant_id = event.tenant_id;
  kind = purchase;
  delta_micro_usd = event.amount_micro_usd;
  cost_micro_usd = none;
  idem_ref = settlement_ref rail event.external_ref;
  hold_id = none;
  price_list_id = none;
  external_ref = some event.external_ref;
  note = event.note;
  created_at = now;
}

-- `applySettlement`, with what `applied` reports.
unfoldable pub apply_settlement :
    Db → Text → SettlementEvent → Text → Instant → Result StoreError (Db × Bool)
unfolding purchase_row
apply_settlement db rail event row_id now =
    elim (append_ledger_row db (purchase_row rail event row_id now)) [
      | err e ↦ err e
      | ok (db', written) ↦ ok (db', written.applied)
    ]
