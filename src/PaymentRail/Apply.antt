-- ===== src/PaymentRail/Apply.antt =====
-- Credit is created once for each settlement of a rail.
use vivijure_control_plane.Prelude.{
  ◌≡◌, ◌↔◌, refl, Bool, false, ◌&&◌, some, [], ◌∷◌, ◌++◌, Result, ok, err, arith, All, ◌==◌, nat_eq,
}
use vivijure_control_plane.Prelude.Int.{ℤ, pos, ◌+ℤ◌, ◌≤ℤ◌, ◌<ℤ◌}
use vivijure_control_plane.Prelude.Text.{Text, codes, text_eq}
use vivijure_control_plane.Credits.{Instant}
use vivijure_control_plane.Ledger.{Db, StoreError, Appended, append_ledger_row, read_balance_sums}
use vivijure_control_plane.Ledger.Append.{append_ledger_row_twice, append_ledger_row-HasSign}
use vivijure_control_plane.Ledger.Money.{read_balance_sums-append_ledger_row, when}
use vivijure_control_plane.PaymentRail.{
  SettlementEvent, settlement_ref, purchase_row, apply_settlement, Given, accepted,
  validate_credit_amount, safe_integer,
}

abbrev pub NoColon : Text → Type 0
NoColon = All (λ c. (c == b':') ≡ false)

-- References of different rails, or of one rail for different payments, never meet, where the
-- rails' ids hold no colon.
pub settlement_ref-injective :
    (r r' e e' : Text)
    → NoColon r
    → NoColon r'
    → settlement_ref r e ≡ settlement_ref r' e'
    → (r ≡ r') × (e ≡ e')
unfolding settlement_ref
settlement_ref-injective [] [] e e' h h' p = (refl, cc)
settlement_ref-injective [] (c ∷ r') e e' h (q, h') p = absurd (ground arith)
settlement_ref-injective (c ∷ r) [] e e' (q, h) h' p = absurd (ground arith)
settlement_ref-injective (c ∷ r) (d ∷ r') e e' (q, h) (q', h') p =
    let rest : r ++ (codes ":" ++ e) ≡ r' ++ (codes ":" ++ e') = cc in
    let (a, b) = settlement_ref-injective r r' e e' h h' rest in (cc, b)

-- What the ledger gains from one application of a settlement that did not throw: the amount of the
-- event, for its tenant, if it was applied, and nothing if it was a replay.
pub read_balance_sums-apply_settlement :
    (db : Db) (rail : Text) (event : SettlementEvent) (id : Text) (now : Instant) (db' : Db)
    (done : Bool) (t : Text)
    → apply_settlement db rail event id now ≡ ok (db', done)
    → read_balance_sums db' t ≡ (
      (read_balance_sums db t).0 +ℤ when (done && event.tenant_id == t) event.amount_micro_usd,
      (read_balance_sums db t).1,
    )
unfolding apply_settlement
read_balance_sums-apply_settlement db rail event id now db' done t h =
    go (append_ledger_row db (purchase_row rail event id now)) refl
  where
    go :
        (r : Result StoreError (Db × Appended))
        → append_ledger_row db (purchase_row rail event id now) ≡ r
        → read_balance_sums db' t ≡ (
          (read_balance_sums db t).0 +ℤ when (done && event.tenant_id == t) event.amount_micro_usd,
          (read_balance_sums db t).1,
        )
    go (err x) q = absurd (ground arith)
    go (ok (db₁, res)) q =
        let same : db₁ ≡ db' = ground arith in
        let flag : res.applied ≡ done = ground arith in
        rw (← same, ← flag)
          (read_balance_sums-append_ledger_row db (purchase_row rail event id now) db₁ res t q)

-- A replayed event is a success that changes nothing: however often a rail reports a payment, under
-- whatever row ids, the tenant is credited once.
pub apply_settlement_twice :
    (db : Db) (rail : Text) (event : SettlementEvent) (id id' : Text) (now later : Instant)
    (db' : Db) (done : Bool)
    → apply_settlement db rail event id now ≡ ok (db', done)
    → apply_settlement db' rail event id' later ≡ ok (db', false)
unfolding apply_settlement
apply_settlement_twice db rail event id id' now later db' done h =
    go (append_ledger_row db (purchase_row rail event id now)) refl
  where
    go :
        (r : Result StoreError (Db × Appended))
        → append_ledger_row db (purchase_row rail event id now) ≡ r
        → apply_settlement db' rail event id' later ≡ ok (db', false)
    go (err x) q = absurd (ground arith)
    go (ok (db₁, res)) q =
        let same : db₁ ≡ db' = ground arith in
        let again =
          append_ledger_row_twice db (purchase_row rail event id now)
            (purchase_row rail event id' later) db₁ res q refl refl
            (append_ledger_row-HasSign db (purchase_row rail event id now) q) in
        ground arith

-- An amount is accepted exactly when it is a whole number above zero, within the ceiling and the
-- safe integers, and then as it was given.
pub validate_credit_amount_iff :
    (amount : Given) (ceiling a : ℤ)
    → (validate_credit_amount amount ceiling ≡ accepted a)
      ↔ ((safe_integer amount ≡ some a) × (pos 0 <ℤ a) × (a ≤ℤ ceiling))
unfolding validate_credit_amount
validate_credit_amount_iff amount ceiling a =
    (λ h. (ground arith, ground arith, ground arith), λ (x, y, z). ground arith)
