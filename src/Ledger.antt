-- ===== src/Ledger.antt =====
-- The credit store: the credit statements of `D1Store` (src/store-d1.ts) over the tables
-- `credit_ledger` and `credit_holds` of migrations/0013_credit_ledger.sql. A table is the list of
-- its rows in insertion order. SQLite's checks are made in its order: the CHECK constraints, the
-- conflict target of ON CONFLICT DO NOTHING, the primary key, the foreign keys. A statement that
-- fails throws and changes nothing, and so does a batch.
pub mod Holds
pub mod Keys
pub mod Append
pub mod Settle
pub mod Capture
pub mod Money
pub mod History
mod Tests
use vivijure_control_plane.Prelude.{
  ℕ, zero, suc, ◌≡◌, Bool, true, false, not, ◌&&◌, ◌||◌, Option, none, some, List, [], ◌∷◌, ◌++◌,
  Result, ok, err, leb, any, find?, filter, take, count, ◌==◌, nat_eq, if◌then◌else◌,
}
use vivijure_control_plane.Prelude.Int.{ℤ, pos, negsuc, ◌+ℤ◌, neg, ltb_zero}
use vivijure_control_plane.Prelude.Text.{Text, text_eq, text_beq}
use vivijure_control_plane.Credits.{
  Instant, LedgerRow, HoldRow, LedgerKind, purchase, debit, refund, adjustment, HoldStatus,
  open_hold, captured, released, expired,
}

pub record Db : Type 0 where
  pub tenants : List Text
  pub holds : List HoldRow
  pub ledger : List LedgerRow

pub data StoreError : Type 0 where
  check_failed primary_key unique_key foreign_key no_existing_row : StoreError

abbrev pub is_open : HoldStatus → Bool
is_open open_hold = true
is_open _ = false

abbrev pub is_captured : HoldStatus → Bool
is_captured captured = true
is_captured _ = false

-- The CHECK of `credit_ledger`: sign follows kind.
unfoldable pub sign_check : LedgerKind → ℤ → Bool
sign_check debit (negsuc n) = true
sign_check debit (pos n) = false
sign_check purchase d = ltb_zero d
sign_check refund d = ltb_zero d
sign_check adjustment d = true

abbrev pub keyed : Text → Text → LedgerRow → Bool
keyed tenant ref r = r.tenant_id == tenant && r.idem_ref == ref

abbrev pub held_for : Text → Text → HoldRow → Bool
held_for tenant job h = h.tenant_id == tenant && h.job_ref == job

abbrev pub row_id : Text → LedgerRow → Bool
row_id x r = r.id == x

abbrev pub hold_id : Text → HoldRow → Bool
hold_id x h = h.id == x

abbrev pub named : Text → Text → Bool
named x t = t == x

-- A NULL reference satisfies a foreign key.
unfoldable pub hold_exists : Db → Option Text → Bool
hold_exists db none = true
hold_exists db (some x) = any (hold_id x) db.holds

-- INSERT INTO credit_ledger … ON CONFLICT (tenant_id, idem_ref) DO NOTHING, and whether it wrote.
unfoldable pub insert_ledger : Db → LedgerRow → Result StoreError (Db × Bool)
unfolding sign_check hold_exists
insert_ledger db r =
    if sign_check r.kind r.delta_micro_usd
    then (if any (keyed r.tenant_id r.idem_ref) db.ledger
        then ok (db, false)
        else if any (row_id r.id) db.ledger
        then err primary_key
        else if any (named r.tenant_id) db.tenants && hold_exists db r.hold_id
        then ok (record db { ledger = db.ledger ++ r ∷ [] }, true)
        else err foreign_key)
    else err check_failed

pub record Appended : Type 0 where
  pub applied : Bool
  pub row : LedgerRow

-- The second SELECT of an idempotent insert, made when the insert wrote nothing.
read_back : Db → Text → Text → Result StoreError (Db × Appended)
read_back db tenant ref = elim (find? (keyed tenant ref) db.ledger) [
  | none ↦ err no_existing_row
  | some row ↦ ok (db, record { applied = false; row = row })
]

-- `appendLedgerRow`; its argument is the row, whose `hold_id` the statement writes as NULL.
unfoldable pub append_ledger_row : Db → LedgerRow → Result StoreError (Db × Appended)
unfolding insert_ledger read_back
append_ledger_row db args =
    let r : LedgerRow = record args { hold_id = none } in
    elim (insert_ledger db r) [
      | err e ↦ err e
      | ok (db', true) ↦ ok (db', record { applied = true; row = r })
      | ok (db', false) ↦ read_back db' args.tenant_id args.idem_ref
    ]

pub record Taken : Type 0 where
  pub created : Bool
  pub hold : HoldRow

-- `takeHold`; its argument is the row, which the statement opens.
unfoldable pub take_hold : Db → HoldRow → Result StoreError (Db × Taken)
take_hold db args =
    let h : HoldRow = record args { status = open_hold; settled_at = none } in
    if ltb_zero h.amount_micro_usd
    then (if any (held_for h.tenant_id h.job_ref) db.holds
        then (elim (find? (held_for h.tenant_id h.job_ref) db.holds) [
          | none ↦ err no_existing_row
          | some hold ↦ ok (db, record { created = false; hold = hold })
        ])
        else if any (hold_id h.id) db.holds
        then err primary_key
        else if any (named h.tenant_id) db.tenants
        then ok (record db { holds = db.holds ++ h ∷ [] }, record { created = true; hold = h })
        else err foreign_key)
    else err check_failed

-- UPDATE credit_holds SET status, settled_at WHERE the test holds.
unfoldable pub update_holds : (HoldRow → Bool) → HoldStatus → Instant → List HoldRow → List HoldRow
update_holds p s now [] = []
update_holds p s now (h ∷ hs) =
    (if p h then record h { status = s; settled_at = some now } else h) ∷ update_holds p s now hs

abbrev pub open_with : Text → HoldRow → Bool
open_with x h = h.id == x && is_open h.status

abbrev pub captured_with : Text → HoldRow → Bool
captured_with x h = h.id == x && is_captured h.status

pub record CaptureArgs : Type 0 where
  pub hold_id : Text
  pub ledger_row_id : Text
  pub cost_micro_usd : Option ℤ
  pub note : Option Text
  pub now : Instant

-- The row that the INSERT … SELECT of `captureHold` draws from the hold.
unfoldable pub debit_of : CaptureArgs → HoldRow → LedgerRow
debit_of args h = record {
  id = args.ledger_row_id;
  tenant_id = h.tenant_id;
  kind = debit;
  delta_micro_usd = neg h.amount_micro_usd;
  cost_micro_usd = args.cost_micro_usd;
  idem_ref = h.id;
  hold_id = some h.id;
  price_list_id = some h.price_list_id;
  external_ref = none;
  note = args.note;
  created_at = args.now;
}

-- The second statement of the batch. The hold's id is its primary key: at most one row is drawn.
insert_debit : Db → CaptureArgs → Result StoreError Db
unfolding insert_ledger debit_of
insert_debit db args = elim (find? (captured_with args.hold_id) db.holds) [
  | none ↦ ok db
  | some h ↦ elim (insert_ledger db (debit_of args h)) [ err e ↦ err e | ok (db', wrote) ↦ ok db' ]
]

-- `captureHold`: one batch, whose changes are the rows that the UPDATE met.
unfoldable pub capture_hold : Db → CaptureArgs → Result StoreError (Db × Bool)
unfolding insert_debit update_holds
capture_hold db args =
    let changes = count (open_with args.hold_id) db.holds in
    let updated : Db = record db {
      holds = update_holds (open_with args.hold_id) captured args.now db.holds;
    } in
    elim (insert_debit updated args) [ err e ↦ err e | ok db' ↦ ok (db', changes == 1) ]

-- `releaseHold`.
unfoldable pub release_hold : Db → Text → Instant → Db × Bool
unfolding update_holds
release_hold db x now = (
  record db { holds = update_holds (open_with x) released now db.holds },
  count (open_with x) db.holds == 1,
)

abbrev pub lapsed : Instant → HoldRow → Bool
lapsed now h = is_open h.status && leb h.expires_at now

-- `expireHolds`.
unfoldable pub expire_holds : Db → Instant → Db × ℕ
unfolding update_holds
expire_holds db now = (
  record db { holds = update_holds (lapsed now) expired now db.holds },
  count (lapsed now) db.holds,
)

abbrev pub of_tenant : Text → LedgerRow → Bool
of_tenant tenant r = r.tenant_id == tenant

abbrev pub open_for : Text → HoldRow → Bool
open_for tenant h = h.tenant_id == tenant && is_open h.status

-- SUM over the rows that the WHERE clause keeps; COALESCE makes it 0 over none.
unfoldable pub sum_ledger : Text → List LedgerRow → ℤ
sum_ledger tenant [] = pos 0
sum_ledger tenant (r ∷ rs) =
    if of_tenant tenant r then r.delta_micro_usd +ℤ sum_ledger tenant rs else sum_ledger tenant rs

unfoldable pub sum_open : Text → List HoldRow → ℤ
sum_open tenant [] = pos 0
sum_open tenant (h ∷ hs) =
    if open_for tenant h then h.amount_micro_usd +ℤ sum_open tenant hs else sum_open tenant hs

-- `readBalanceSums`.
unfoldable pub read_balance_sums : Db → Text → ℤ × ℤ
unfolding sum_ledger sum_open
read_balance_sums db tenant = (sum_ledger tenant db.ledger, sum_open tenant db.holds)

-- `getHoldByJobRef`.
unfoldable pub get_hold_by_job_ref : Db → Text → Text → Option HoldRow
get_hold_by_job_ref db tenant job = find? (held_for tenant job) db.holds

abbrev pub debits_hold : Text → LedgerRow → Bool
debits_hold x r = elim r.hold_id [ none ↦ false | some y ↦ y == x ]

-- `capturedHoldsMissingDebit`; without ORDER BY the rows come in table order here.
unfoldable pub captured_holds_missing_debit : Db → ℕ → List HoldRow
captured_holds_missing_debit db limit =
    take limit
      (filter (λ h. is_captured h.status && not (any (debits_hold h.id) db.ledger)) db.holds)
