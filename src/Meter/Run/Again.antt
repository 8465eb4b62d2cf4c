-- ===== src/Meter/Run/Again.antt =====
-- Running the settlement of a period a second time.
use vivijure_control_plane.Prelude.{
  ℕ, suc, ◌≤◌, ◌≡◌, ◌∙◌, refl, sym, subst, inl, inr, Bool, false, Option, some, List, [], ◌∷◌,
  Result, ok, err, arith, find?, find?-append_some, filter, All,
}
use vivijure_control_plane.Prelude.Text.{Text}
use vivijure_control_plane.Credits.{Instant, LedgerRow}
use vivijure_control_plane.Ledger.{Db, StoreError, Appended}
use vivijure_control_plane.Ledger.Append.{Append, replayed, applied, append_ledger_row-Append}
use vivijure_control_plane.Meter.Period.{BillingPeriod}
use vivijure_control_plane.Meter.Window.{LlmSpendWindow}
use vivijure_control_plane.Meter.Debit.{Num, whole, llm, within, decide_overage_debit}
use vivijure_control_plane.Meter.Settle.{
  Settlement, SettleOutcome, debited, already_settled, settled_within, not_billed, debit_row,
  settle_meter_overage,
}
use vivijure_control_plane.Meter.Settle.Once.{
  settled_row_of, is_debited, Settles, wrote, idle, settle_meter_overage-Settles, settled_again,
  is_unbilled, settled_or_within,
}
use vivijure_control_plane.Meter.Run.{
  TenantRef, Totals, no_totals, tally, is_live, settle_tenant, settle_all, after_settle, after_read,
  run_llm_settlement,
}

-- A settlement keeps every row that a search finds.
Settles-find? :
    (db : Db) (s : Settlement) (p : LedgerRow → Bool) (row : LedgerRow) {db' : Db}
    {o : SettleOutcome}
    → Settles db s db' o
    → find? p db.ledger ≡ some row
    → find? p db'.ledger ≡ some row
Settles-find? db s p row (idle o h) f = f
Settles-find? db s p row (wrote d id now res positive ref e) f =
    go (append_ledger_row-Append db (debit_row s d id now) e)
  where
    go :
        {db' : Db} {res : Appended}
        → Append db (debit_row s d id now) db' res
        → find? p db'.ledger ≡ some row
    go (replayed _ _) = f
    go (applied _ _ _) = find?-append_some p db.ledger _ row f

module _ (read : Text → Instant → Instant → Result Text LlmSpendWindow) (allowance : Option Num)
    (period : BillingPeriod) where
  abbrev pub settlement : TenantRef → Settlement
  settlement t = record { tenant_id = t.id; meter = llm; period_key = period.key }

  -- The tenant needs no debit any more: it has one, or its usage is within the allowance.
  data Done (db : Db) (t : TenantRef) : Type 0 where
    has_row : (row : LedgerRow) → settled_row_of db (settlement t) ≡ some row → Done db t
    is_within :
        (w : LlmSpendWindow) (u a : ℕ) (n : Text)
        → read t.id period.window_start period.window_end ≡ ok w
        → decide_overage_debit llm w.meter (whole w.cost_micro_usd) allowance period.key
          ≡ within u a n
        → Done db t

  module _ (describe : StoreError → Text) (new_id : ℕ → Text) (clock : ℕ → Instant) where
    abbrev pub settle_one : ℕ → Db → TenantRef → Db × SettleOutcome
    settle_one = settle_tenant read allowance describe new_id clock period

    abbrev settle_list : ℕ → Db → Totals → List TenantRef → Db × Totals
    settle_list = settle_all read allowance describe new_id clock period

    -- The loop's body settles as a settlement does, or does nothing.
    pub settle_one-Settles :
        (k : ℕ) (db : Db) (t : TenantRef)
        → Settles db (settlement t) (settle_one k db t).0 (settle_one k db t).1
    unfolding settle_tenant
    settle_one-Settles k db t = from_read (read t.id period.window_start period.window_end)
      where
        from_settle :
            (r : Result StoreError (Db × SettleOutcome))
            → ((db' : Db) (o : SettleOutcome) → r ≡ ok (db', o) → Settles db (settlement t) db' o)
            → Settles db
                (settlement t)
                (after_settle read allowance describe new_id clock period db r).0
                (after_settle read allowance describe new_id clock period db r).1
        from_settle (err x) f = idle _ refl
        from_settle (ok (db', o)) f = f db' o refl

        from_read :
            (r : Result Text LlmSpendWindow)
            → Settles db
                (settlement t)
                (after_read read allowance describe new_id clock period k db t r).0
                (after_read read allowance describe new_id clock period k db t r).1
        from_read (err m) = idle _ refl
        from_read (ok w) =
            from_settle
              (settle_meter_overage db (settlement t) w.meter (whole w.cost_micro_usd) allowance
                (new_id k) (clock k))
              (λ db' o.
                settle_meter_overage-Settles db (settlement t) w.meter (whole w.cost_micro_usd)
                  allowance (new_id k) (clock k))

    -- A tenant that was billed is done.
    settle_one-Done :
        (k : ℕ) (db : Db) (t : TenantRef)
        → is_unbilled (settle_one k db t).1 ≡ false
        → Done (settle_one k db t).0 t
    unfolding settle_tenant
    settle_one-Done k db t = from_read (read t.id period.window_start period.window_end) refl
      where
        from_settle :
            (w : LlmSpendWindow)
            → read t.id period.window_start period.window_end ≡ ok w
            → (r : Result StoreError (Db × SettleOutcome))
            → settle_meter_overage db
                (settlement t)
                w.meter
                (whole w.cost_micro_usd)
                allowance
                (new_id k)
                (clock k)
              ≡ r
            → is_unbilled (after_settle read allowance describe new_id clock period db r).1 ≡ false
            → Done (after_settle read allowance describe new_id clock period db r).0 t
        from_settle w e (err x) f b = absurd (ground arith)
        from_settle w e (ok (db', o)) f b =
            elim (settled_or_within db (settlement t) w.meter (whole w.cost_micro_usd) allowance
              (new_id k) (clock k) f b) [
                | inl (row, found) ↦ has_row row found
                | inr (u, a, n, d) ↦ is_within w u a n e d
              ]

        from_read :
            (r : Result Text LlmSpendWindow)
            → read t.id period.window_start period.window_end ≡ r
            → is_unbilled (after_read read allowance describe new_id clock period k db t r).1
              ≡ false
            → Done (after_read read allowance describe new_id clock period k db t r).0 t
        from_read (err m) e b = absurd (ground arith)
        from_read (ok w) e b =
            from_settle w e
              (settle_meter_overage db (settlement t) w.meter (whole w.cost_micro_usd) allowance
                (new_id k) (clock k))
              refl b

    -- A tenant that is done is not debited again.
    settle_one-idle :
        (k : ℕ) (db : Db) (t : TenantRef)
        → Done db t
        → ((settle_one k db t).0 ≡ db) × (is_debited (settle_one k db t).1 ≡ false)
    unfolding settle_tenant settle_meter_overage
    settle_one-idle k db t (has_row row found) =
        settled_again db (settlement t) row found (settle_one-Settles k db t)
    settle_one-idle k db t (is_within w u a n e d) = (ground arith, ground arith)

    Done-settle_one : (k : ℕ) (db : Db) (s t : TenantRef) → Done db t → Done (settle_one k db s).0 t
    Done-settle_one k db s t (has_row row found) =
        has_row row (Settles-find? db (settlement s) _ row (settle_one-Settles k db s) found)
    Done-settle_one k db s t (is_within w u a n e d) = is_within w u a n e d

    Done-settle_list :
        (k : ℕ) (db : Db) (acc : Totals) (ts : List TenantRef) (t : TenantRef)
        → Done db t
        → Done (settle_list k db acc ts).0 t
    unfolding settle_all
    Done-settle_list k db acc [] t h = h
    Done-settle_list k db acc (s ∷ ts) t h =
        Done-settle_list (suc k) (settle_one k db s).0 (tally acc s (settle_one k db s).1) ts t
          (Done-settle_one k db s t h)

    tally_unbillable :
        (acc : Totals) (t : TenantRef) (o : SettleOutcome)
        → (acc.unbillable ≤ (tally acc t o).unbillable)
          × ((tally acc t o).unbillable ≡ 0 → is_unbilled o ≡ false)
    unfolding tally
    tally_unbillable acc t (debited _ _ _) = (omega arith, λ h. refl)
    tally_unbillable acc t (already_settled _ _) = (omega arith, λ h. refl)
    tally_unbillable acc t (settled_within _ _) = (omega arith, λ h. refl)
    tally_unbillable acc t (not_billed _) = (omega arith, λ h. absurd (omega arith))

    unbillable_mono :
        (k : ℕ) (db : Db) (acc : Totals) (ts : List TenantRef)
        → acc.unbillable ≤ (settle_list k db acc ts).1.unbillable
    unfolding settle_all
    unbillable_mono k db acc [] = omega arith
    unbillable_mono k db acc (t ∷ ts) =
        let r = settle_one k db t in
        omega
          (arith, (tally_unbillable acc t r.1).0, unbillable_mono (suc k) r.0 (tally acc t r.1) ts)

    settle_list-Done :
        (k : ℕ) (db : Db) (acc : Totals) (ts : List TenantRef)
        → (settle_list k db acc ts).1.unbillable ≡ 0
        → All (Done (settle_list k db acc ts).0) ts
    unfolding settle_all
    settle_list-Done k db acc [] h = tt
    settle_list-Done k db acc (t ∷ ts) h =
        let r = settle_one k db t in
        let none_yet : (tally acc t r.1).unbillable ≡ 0 =
          omega (arith, unbillable_mono (suc k) r.0 (tally acc t r.1) ts) in
        (
          Done-settle_list (suc k) r.0 (tally acc t r.1) ts t
              (settle_one-Done k db t ((tally_unbillable acc t r.1).1 none_yet)),
          settle_list-Done (suc k) r.0 (tally acc t r.1) ts h,
        )

    debited_tally :
        (acc : Totals) (t : TenantRef) (o : SettleOutcome)
        → is_debited o ≡ false
        → (tally acc t o).debited ≡ acc.debited
    unfolding tally
    debited_tally acc t (debited _ _ _) h = cc
    debited_tally acc t (already_settled _ _) h = refl
    debited_tally acc t (settled_within _ _) h = refl
    debited_tally acc t (not_billed _) h = refl

    settle_list-idle :
        (k : ℕ) (db : Db) (acc : Totals) (ts : List TenantRef)
        → All (Done db) ts
        → ((settle_list k db acc ts).0 ≡ db) × ((settle_list k db acc ts).1.debited ≡ acc.debited)
    unfolding settle_all
    settle_list-idle k db acc [] h = (refl, refl)
    settle_list-idle k db acc (t ∷ ts) (d, ds) =
        let r = settle_one k db t in
        let (same, quiet) = settle_one-idle k db t d in
        let (a, b) =
          settle_list-idle (suc k) r.0 (tally acc t r.1) ts
            (subst (λ (x : Db). All (Done x) ts) (sym same) ds) in
        (a ∙ same, b ∙ debited_tally acc t r.1 quiet)

-- If a run could bill every live tenant, a second run of the period over the same readings and the
-- same allowance, under whatever new ids and clock, debits nobody and leaves the ledger as it is.
pub run_llm_settlement_again :
    (read : Text → Instant → Instant → Result Text LlmSpendWindow) (allowance : Option Num)
    (period : BillingPeriod) (describe : StoreError → Text) (id id' : ℕ → Text)
    (clock clock' : ℕ → Instant) (census : ℕ → Bool) (db : Db) (tenants : List TenantRef)
    → let first = run_llm_settlement read allowance describe id clock period census db tenants in
      let second =
        run_llm_settlement read allowance describe id' clock' period census first.0 tenants in
      first.1.totals.unbillable ≡ 0 → (second.0 ≡ first.0) × (second.1.totals.debited ≡ 0)
unfolding run_llm_settlement
run_llm_settlement_again read allowance period describe id id' clock clock' census db tenants h =
    let live = filter is_live tenants in
    settle_list-idle read allowance period describe id' clock' 0 _ no_totals live
      (settle_list-Done read allowance period describe id clock 0 db no_totals live h)
