-- ===== src/Meter/Settle/Once.antt =====
-- A settlement charges a tenant at most once for a meter and a period.
use vivijure_control_plane.Prelude.{
  ℕ, ◌<◌, ◌≡◌, refl, subst, Bool, true, false, Option, some, Result, ok, err, arith, find?, ◌==◌,
  ◌⊎◌, inl, inr, ap, ◌&&◌, if◌then◌else◌,
}
use vivijure_control_plane.Prelude.Int.{ℤ, pos, neg, ◌+ℤ◌, ◌-ℤ◌, int_laws}
use vivijure_control_plane.Prelude.Text.{Text, text_eq}
use vivijure_control_plane.Credits.{Instant, LedgerRow}
use vivijure_control_plane.Ledger.{
  Db, StoreError, Appended, append_ledger_row, keyed, sign_check, read_balance_sums,
}
use vivijure_control_plane.Ledger.Append.{
  append_ledger_row-Append, append_ledger_row_replay, find?-Append,
}
use vivijure_control_plane.Ledger.Money.{read_balance_sums-append_ledger_row, when}
use vivijure_control_plane.Meter.Window.{MeterWindow}
use vivijure_control_plane.Meter.Debit.{
  Num, not_observed, DebitOwed, DebitDecision, owed, within, unbillable, decide_overage_debit,
  overage_idem_ref,
}
use vivijure_control_plane.Meter.Debit.Decision.{decide_overage_debit_owed}
use vivijure_control_plane.Meter.Settle.{
  Settlement, SettleOutcome, debited, already_settled, settled_within, not_billed, debit_row,
  outcome_of, settle_decision, settle_meter_overage,
}

-- The row of the settlement that the ledger of `db` holds, if it holds one.
abbrev pub settled_row_of : Db → Settlement → Option LedgerRow
settled_row_of db s = find? (keyed s.tenant_id (overage_idem_ref s.meter s.period_key)) db.ledger

abbrev pub is_debited : SettleOutcome → Bool
is_debited (debited _ _ _) = true
is_debited _ = false

debit_row-HasSign :
    (s : Settlement) (d : DebitOwed) (id : Text) (now : Instant)
    → 0 < d.amount_micro_usd
    → let r = debit_row s d id now in sign_check r.kind r.delta_micro_usd ≡ true
unfolding debit_row sign_check neg
debit_row-HasSign s d id now h = ground arith

-- What a settlement that returned has done.
pub data Settles (db : Db) (s : Settlement) : Db → SettleOutcome → Type 0 where
  wrote :
      (d : DebitOwed) (id : Text) (now : Instant) {db' : Db} (res : Appended)
      → 0 < d.amount_micro_usd
      → d.idem_ref ≡ overage_idem_ref s.meter s.period_key
      → append_ledger_row db (debit_row s d id now) ≡ ok (db', res)
      → Settles db s db' (outcome_of d res)
  idle : (o : SettleOutcome) → is_debited o ≡ false → Settles db s db o

settle_decision-Settles :
    (db : Db) (s : Settlement) (c : DebitDecision) (id : Text) (now : Instant) {db' : Db}
    {o : SettleOutcome}
    → ((d : DebitOwed)
        → c ≡ owed d
        → (0 < d.amount_micro_usd) × (d.idem_ref ≡ overage_idem_ref s.meter s.period_key))
    → settle_decision db s c id now ≡ ok (db', o)
    → Settles db s db' o
unfolding settle_decision
settle_decision-Settles db s (unbillable r) id now {db'} {o} facts h =
    subst (λ (t : Db × SettleOutcome). Settles db s t.0 t.1) (ground arith)
      (idle (not_billed r) refl)
settle_decision-Settles db s (within u a n) id now {db'} {o} facts h =
    subst (λ (t : Db × SettleOutcome). Settles db s t.0 t.1) (ground arith)
      (idle (settled_within u a) refl)
settle_decision-Settles db s (owed d) id now {db'} {o} facts h =
    go (append_ledger_row db (debit_row s d id now)) refl
  where
    go :
        (r : Result StoreError (Db × Appended))
        → append_ledger_row db (debit_row s d id now) ≡ r
        → Settles db s db' o
    go (err e) q = absurd (ground arith)
    go (ok (db₁, res)) q =
        let (positive, ref) = facts d refl in
        subst (λ (t : Db × SettleOutcome). Settles db s t.0 t.1) (ground arith)
          (wrote d id now res positive ref q)

pub settle_meter_overage-Settles :
    (db : Db) (s : Settlement) (window : MeterWindow) (used : Num) (allowance : Option Num)
    (id : Text) (now : Instant) {db' : Db} {o : SettleOutcome}
    → settle_meter_overage db s window used allowance id now ≡ ok (db', o)
    → Settles db s db' o
unfolding settle_meter_overage
settle_meter_overage-Settles db s window used allowance id now h =
    settle_decision-Settles db s (decide_overage_debit s.meter window used allowance s.period_key)
      id now
      (λ d e.
        let (u, a, _, _, _, positive, _, _, ref) =
          decide_overage_debit_owed s.meter window used allowance s.period_key d e in
        (positive, ref))
      h

-- A settlement of what the ledger already holds changes nothing and debits nothing.
pub settled_again :
    (db : Db) (s : Settlement) (row : LedgerRow) {db' : Db} {o : SettleOutcome}
    → settled_row_of db s ≡ some row
    → Settles db s db' o
    → (db' ≡ db) × (is_debited o ≡ false)
unfolding outcome_of
settled_again db s row found (idle o h) = (refl, h)
settled_again db s row found (wrote d id now {db'} res positive ref e) =
    let replay : append_ledger_row db (debit_row s d id now)
        ≡ ok (db, record { applied = false; row = row }) =
      append_ledger_row_replay db (debit_row s d id now) row (debit_row-HasSign s d id now positive)
        (key_found ref) in
    (ground arith, ground arith)
  where
    key_found :
        d.idem_ref ≡ overage_idem_ref s.meter s.period_key
        → find? (keyed (debit_row s d id now).tenant_id (debit_row s d id now).idem_ref) db.ledger
          ≡ some row
    key_found r = (unfold debit_row in rw r found)

-- Once a tenant has been debited for a meter and a period, no later settlement of them, whatever
-- usage, window or allowance it is given, changes the ledger or debits again.
pub settle_meter_overage_once :
    (db : Db) (s : Settlement) (w w' : MeterWindow) (u u' : Num) (a a' : Option Num) (id id' : Text)
    (now later : Instant) (db' db'' : Db) (o o' : SettleOutcome)
    → settle_meter_overage db s w u a id now ≡ ok (db', o)
    → is_debited o ≡ true
    → settle_meter_overage db' s w' u' a' id' later ≡ ok (db'', o')
    → (db'' ≡ db') × (is_debited o' ≡ false)
settle_meter_overage_once db s w w' u u' a a' id id' now later db' db'' o o' h d k =
    go (settle_meter_overage-Settles db s w u a id now h) d
      (settle_meter_overage-Settles db' s w' u' a' id' later k)
  where
    go :
        {db' : Db} {o : SettleOutcome}
        → Settles db s db' o
        → is_debited o ≡ true
        → Settles db' s db'' o'
        → (db'' ≡ db') × (is_debited o' ≡ false)
    go (idle o n) d second = absurd (ground arith)
    go {db'} (wrote x i t res positive ref e) d second =
        settled_again db' s res.row (key_found ref) second
      where
        key_found :
            x.idem_ref ≡ overage_idem_ref s.meter s.period_key → settled_row_of db' s ≡ some res.row
        key_found r =
            let f =
              find?-Append db (debit_row s x i t)
                (append_ledger_row-Append db (debit_row s x i t) e) in
            (unfold debit_row in rw (← r) f)

-- A window that is not fully observed writes nothing, whatever its partial usage is.
pub settle_meter_overage_unbillable :
    (db : Db) (s : Settlement) (w : MeterWindow) (u : Num) (a : Option Num) (id : Text)
    (now : Instant)
    → w.complete ≡ false
    → settle_meter_overage db s w u a id now
      ≡ ok (db, not_billed (not_observed s.meter w.window_start w.window_end w.reason))
unfolding settle_meter_overage decide_overage_debit
settle_meter_overage_unbillable db s w u a id now h = ground arith

abbrev charge_of : SettleOutcome → ℕ
charge_of (debited amount _ _) = amount
charge_of _ = 0

-- A settlement takes from its tenant's settled money what it reports as debited, and nothing
-- otherwise; no other tenant's money and no held money moves.
pub read_balance_sums-settle_meter_overage :
    (db : Db) (s : Settlement) (w : MeterWindow) (u : Num) (a : Option Num) (id : Text)
    (now : Instant) (db' : Db) (o : SettleOutcome) (t : Text)
    → settle_meter_overage db s w u a id now ≡ ok (db', o)
    → read_balance_sums db' t ≡ (
      (read_balance_sums db t).0 -ℤ when (s.tenant_id == t) (pos (charge_of o)),
      (read_balance_sums db t).1,
    )
read_balance_sums-settle_meter_overage db s w u a id now db' o t h =
    go (settle_meter_overage-Settles db s w u a id now h)
  where
    spend :
        (x : ℤ) (applied b : Bool) (n : ℕ)
        → x +ℤ when (applied && b) (neg (pos n)) ≡ x -ℤ when b (pos (if applied then n else 0))
    spend x true true n = omega int_laws
    spend x true false n = omega int_laws
    spend x false true n = omega int_laws
    spend x false false n = omega int_laws

    none_spent :
        (x : ℤ) (b : Bool) (o : SettleOutcome)
        → is_debited o ≡ false
        → x ≡ x -ℤ when b (pos (charge_of o))
    none_spent x true (debited _ _ _) h = cc
    none_spent x true (already_settled _ _) h = omega int_laws
    none_spent x true (settled_within _ _) h = omega int_laws
    none_spent x true (not_billed _) h = omega int_laws
    none_spent x false o h = omega int_laws

    charge_is :
        (d : DebitOwed) (res : Appended)
        → charge_of (outcome_of d res) ≡ (if res.applied then d.amount_micro_usd else 0)
    charge_is d res = (unfold outcome_of in ground arith)

    go :
        {db' : Db} {o : SettleOutcome}
        → Settles db s db' o
        → read_balance_sums db' t ≡ (
          (read_balance_sums db t).0 -ℤ when (s.tenant_id == t) (pos (charge_of o)),
          (read_balance_sums db t).1,
        )
    go (idle o n) =
        ap (λ (x : ℤ). (x, (read_balance_sums db t).1))
          (none_spent (read_balance_sums db t).0 (s.tenant_id == t) o n)
    go (wrote d i n {db'} res positive ref e) =
        let moved = read_balance_sums-append_ledger_row db (debit_row s d i n) db' res t e in
        let spent =
          spend (read_balance_sums db t).0 res.applied (s.tenant_id == t) d.amount_micro_usd in
        rw (charge_is d res) (
          subst (λ (r : ℤ × ℤ). read_balance_sums db' t ≡ r)
            (ap (λ (x : ℤ). (x, (read_balance_sums db t).1)) spent) (unfold debit_row in moved))

abbrev pub is_unbilled : SettleOutcome → Bool
is_unbilled (not_billed _) = true
is_unbilled _ = false

-- After a settlement that billed, the ledger holds its row, or the usage is within the allowance.
pub settled_or_within :
    (db : Db) (s : Settlement) (w : MeterWindow) (u : Num) (a : Option Num) (id : Text)
    (now : Instant) {db' : Db} {o : SettleOutcome}
    → settle_meter_overage db s w u a id now ≡ ok (db', o)
    → is_unbilled o ≡ false
    → ((row : LedgerRow) × (settled_row_of db' s ≡ some row))
      ⊎ ((n : ℕ) × (m : ℕ) × (t : Text) × (decide_overage_debit s.meter w u a s.period_key
            ≡ within n m t))
unfolding settle_meter_overage
settled_or_within db s w u a id now {db'} {o} h b =
    from_decision (decide_overage_debit s.meter w u a s.period_key) refl
  where
    from_settles :
        {db' : Db} {o : SettleOutcome} (d : DebitOwed)
        → settle_decision db s (owed d) id now ≡ ok (db', o)
        → d.idem_ref ≡ overage_idem_ref s.meter s.period_key
        → (row : LedgerRow) × (settled_row_of db' s ≡ some row)
    from_settles {db'} d e ref = go (append_ledger_row db (debit_row s d id now)) refl
      where
        go :
            (r : Result StoreError (Db × Appended))
            → append_ledger_row db (debit_row s d id now) ≡ r
            → (row : LedgerRow) × (settled_row_of db' s ≡ some row)
        go (err x) q = absurd (unfold settle_decision in ground arith)
        go (ok (db₁, res)) q =
            let same : db₁ ≡ db' = (unfold settle_decision in ground arith) in
            (res.row, subst (λ (x : Db). settled_row_of x s ≡ some res.row) same (found q ref))
          where
            found :
                append_ledger_row db (debit_row s d id now) ≡ ok (db₁, res)
                → d.idem_ref ≡ overage_idem_ref s.meter s.period_key
                → settled_row_of db₁ s ≡ some res.row
            found q r =
                let f =
                  find?-Append db (debit_row s d id now)
                    (append_ledger_row-Append db (debit_row s d id now) q) in
                (unfold debit_row in rw (← r) f)

    from_decision :
        (c : DebitDecision)
        → decide_overage_debit s.meter w u a s.period_key ≡ c
        → ((row : LedgerRow) × (settled_row_of db' s ≡ some row))
          ⊎ ((n : ℕ) × (m : ℕ) × (t : Text) × (decide_overage_debit s.meter w u a s.period_key
                ≡ within n m t))
    from_decision (unbillable r) e = absurd (ground arith)
    from_decision (within n m t) e = inr (n, m, t, e)
    from_decision (owed d) e =
        let (_, _, _, _, _, _, _, _, ref) =
          decide_overage_debit_owed s.meter w u a s.period_key d e in
        inl (from_settles d (rw e at h) ref)
