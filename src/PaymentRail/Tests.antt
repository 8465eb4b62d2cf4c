-- ===== src/PaymentRail/Tests.antt =====
-- What the theorems on settlements and on the amounts of an operator say at concrete inputs.
use vivijure_control_plane.Prelude.{◌≡◌, refl, true, false, none, [], ◌∷◌, ok}
use vivijure_control_plane.Prelude.Int.{pos}
use vivijure_control_plane.Prelude.Text.{codes, text_eq, text_beq}
use vivijure_control_plane.Ledger.{Db, append_ledger_row, insert_ledger, sign_check, hold_exists}
use vivijure_control_plane.PaymentRail.{
  SettlementEvent, settlement_ref, purchase_row, apply_settlement,
}
use vivijure_control_plane.PaymentRail.Apply.{NoColon, apply_settlement_twice}

abbrev payer_db : Db
payer_db = record { tenants = codes "acme" ∷ []; holds = []; ledger = [] }

abbrev payment : SettlementEvent
payment = record {
  tenant_id = codes "acme";
  amount_micro_usd = pos 700;
  external_ref = codes "x1";
  note = none;
}

abbrev paid_db : Db
paid_db = record payer_db { ledger = purchase_row (codes "paypal") payment (codes "r1") 3 ∷ [] }

paid : apply_settlement payer_db (codes "paypal") payment (codes "r1") 3 ≡ ok (paid_db, true)
unfolding apply_settlement append_ledger_row insert_ledger sign_check hold_exists purchase_row
    settlement_ref text_beq
paid = refl

manual_NoColon : NoColon (codes "manual")
manual_NoColon = (refl, (refl, (refl, (refl, (refl, (refl, tt))))))

apply_settlement_twice_example :
    apply_settlement paid_db (codes "paypal") payment (codes "r2") 9 ≡ ok (paid_db, false)
apply_settlement_twice_example =
    apply_settlement_twice payer_db (codes "paypal") payment (codes "r1") (codes "r2") 3 9 paid_db
      true paid
