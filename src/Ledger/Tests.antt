-- ===== src/Ledger/Tests.antt =====
-- A small store, and what the theorems of the credit store say of it.
use vivijure_control_plane.Prelude.{
  ◌≡◌, refl, ◌⊎◌, inl, inr, Bool, true, false, Option, none, some, List, [], ◌∷◌, ok, find?, count,
  any, ◌≤◌,
}
use vivijure_control_plane.Prelude.Int.{ℤ, pos, negsuc, ◌-ℤ◌}
use vivijure_control_plane.Prelude.Text.{Text, codes, text_beq}
use vivijure_control_plane.Credits.{
  LedgerRow, HoldRow, purchase, debit, open_hold, captured, released,
}
use vivijure_control_plane.Ledger.{
  Db, CaptureArgs, append_ledger_row, take_hold, capture_hold, release_hold, read_balance_sums,
  insert_ledger, insert_debit, update_holds, sign_check, hold_exists, debit_of, debits_hold,
  is_captured,
}
use vivijure_control_plane.Ledger.Keys.{IsSound}
use vivijure_control_plane.Ledger.Capture.{capture_hold_once}
use vivijure_control_plane.Ledger.Money.{read_balance_sums-capture_hold, when}
use vivijure_control_plane.Ledger.History.{
  Reach, here, next, appends, takes, captures, blank, history-IsSound, history_debits,
}

abbrev acme : Text
acme = codes "acme"

abbrev top_up : LedgerRow
top_up = record {
  id = codes "r1";
  tenant_id = acme;
  kind = purchase;
  delta_micro_usd = pos 900;
  cost_micro_usd = none;
  idem_ref = codes "manual:1";
  hold_id = none;
  price_list_id = none;
  external_ref = none;
  note = none;
  created_at = 1;
}

abbrev reserve : HoldRow
reserve = record {
  id = codes "h1";
  tenant_id = acme;
  job_ref = codes "j1";
  amount_micro_usd = pos 500;
  status = open_hold;
  price_list_id = codes "p1";
  created_at = 2;
  expires_at = 10;
  settled_at = none;
}

abbrev empty_db : Db
empty_db = blank (acme ∷ [])

abbrev topped_db : Db
topped_db = record { tenants = acme ∷ []; holds = []; ledger = top_up ∷ [] }

abbrev open_db : Db
open_db = record { tenants = acme ∷ []; holds = reserve ∷ []; ledger = top_up ∷ [] }

abbrev capture_args : CaptureArgs
capture_args = record {
  hold_id = codes "h1";
  ledger_row_id = codes "r2";
  cost_micro_usd = none;
  note = none;
  now = 5;
}

abbrev charged_row : HoldRow
charged_row = record reserve { status = captured; settled_at = some 5 }

abbrev charge_row : LedgerRow
charge_row = record {
  id = codes "r2";
  tenant_id = acme;
  kind = debit;
  delta_micro_usd = negsuc 499;
  cost_micro_usd = none;
  idem_ref = codes "h1";
  hold_id = some (codes "h1");
  price_list_id = some (codes "p1");
  external_ref = none;
  note = none;
  created_at = 5;
}

abbrev charged_db : Db
charged_db = record {
  tenants = acme ∷ [];
  holds = charged_row ∷ [];
  ledger = top_up ∷ charge_row ∷ [];
}

abbrev freed_row : HoldRow
freed_row = record reserve { status = released; settled_at = some 4 }

abbrev freed_db : Db
freed_db = record { tenants = acme ∷ []; holds = freed_row ∷ []; ledger = top_up ∷ [] }

topped : append_ledger_row empty_db top_up ≡ ok (topped_db, record { applied = true; row = top_up })
unfolding append_ledger_row insert_ledger sign_check hold_exists text_beq
topped = refl

reserved : take_hold topped_db reserve ≡ ok (open_db, record { created = true; hold = reserve })
unfolding take_hold text_beq
reserved = refl

charged : capture_hold open_db capture_args ≡ ok (charged_db, true)
unfolding capture_hold insert_debit insert_ledger update_holds debit_of sign_check hold_exists
    text_beq vivijure_control_plane.Prelude.Int.neg
charged = refl

freed : release_hold open_db (codes "h1") 4 ≡ (freed_db, true)
unfolding release_hold update_holds text_beq
freed = refl

open_db-IsSound : IsSound open_db
open_db-IsSound = record {
  refs = (refl, tt);
  row_ids = (refl, tt);
  jobs = (refl, tt);
  hold_ids = (refl, tt);
  amounts = (refl, tt);
  signs = (unfold sign_check in refl, tt);
  links = (tt, tt);
}

freed_db-IsSound : IsSound freed_db
freed_db-IsSound = record {
  refs = (refl, tt);
  row_ids = (refl, tt);
  jobs = (refl, tt);
  hold_ids = (refl, tt);
  amounts = (refl, tt);
  signs = (unfold sign_check in refl, tt);
  links = (tt, tt);
}

abbrev charged_reach : Reach empty_db charged_db
charged_reach =
    next (next (next here (appends top_up topped)) (takes reserve reserved))
      (captures capture_args charged)

history-IsSound_example : IsSound charged_db
history-IsSound_example = history-IsSound (acme ∷ []) charged_db charged_reach

history_debits_example :
    (count (debits_hold (codes "h1")) charged_db.ledger ≤ 1)
    × ((is_captured charged_row.status ≡ true)
        ⊎ (any (debits_hold (codes "h1")) charged_db.ledger ≡ false))
unfolding text_beq
history_debits_example =
    history_debits (acme ∷ []) charged_db (codes "h1") charged_row charged_reach refl

capture_hold_once_example :
    (capture_hold charged_db capture_args ≡ ok (charged_db, false))
    × (release_hold charged_db (codes "h1") 6 ≡ (charged_db, false))
capture_hold_once_example =
    capture_hold_once open_db capture_args capture_args charged_db 6 open_db-IsSound charged refl

read_balance_sums-capture_hold_example :
    let before = read_balance_sums open_db acme in
    let moved = when true (pos 500) in
    (db' : Db) × (capture_hold open_db capture_args ≡ ok (db', true))
    × (read_balance_sums db' acme ≡ (before.0 -ℤ moved, before.1 -ℤ moved))
unfolding text_beq
read_balance_sums-capture_hold_example =
    read_balance_sums-capture_hold open_db capture_args reserve acme open_db-IsSound refl refl refl
      refl refl
