-- ===== src/Meter/Tests.antt =====
-- What the theorems on periods, windows and settlements say at concrete inputs.
use vivijure_control_plane.Prelude.{
  ℕ, ◌+◌, ◌≤◌, ◌<◌, ◌≡◌, ◌≢◌, refl, ◌↔◌, Bool, true, false, ◌&&◌, ◌||◌, not, Option, none, some,
  List, [], ◌∷◌, ◌++◌, Result, ok, is_some, All, arith, length, map, leb→le,
}
use vivijure_control_plane.Prelude.Int.{ℤ, pos, negsuc, ◌-ℤ◌}
use vivijure_control_plane.Prelude.Text.{codes, text_beq}
use vivijure_control_plane.Credits.{Instant}
use vivijure_control_plane.Ledger.{Db, append_ledger_row}
use vivijure_control_plane.Meter.Calendar.{year_of, year_days}
use vivijure_control_plane.Meter.Calendar.Years.{year_of_unique}
use vivijure_control_plane.Meter.Period.{
  BillingPeriod, billing_period_containing, last_closed_billing_period, billing_period_is_closed,
  parse_billing_period_key,
}
use vivijure_control_plane.Meter.Period.Bounds.{last_closed_billing_period_lem}
use vivijure_control_plane.Meter.Period.Keys.{parse_billing_period_key-key}
use vivijure_control_plane.Meter.Window.{MeterWindow, LlmSpendWindow}
use vivijure_control_plane.Meter.Debit.{
  whole, llm, DebitOwed, owed, decide_overage_debit, overage_idem_ref,
}
use vivijure_control_plane.Meter.Settle.{
  Settlement, SettleOutcome, debited, already_settled, settle_meter_overage, debit_row,
}
use vivijure_control_plane.Meter.Run.{TenantRef, run_llm_settlement}
use vivijure_control_plane.Meter.Run.Charge.{charges}
use vivijure_control_plane.Meter.Run.Report.{run_llm_settlement-AddsUp, AddsUp, row_tenant}
use vivijure_control_plane.Meter.Run.Again.{run_llm_settlement_again}

abbrev july : BillingPeriod
july = record { key = codes "2026-07"; window_start = 100; window_end = 200 }

abbrev observed : MeterWindow
observed = record { window_start = 100; window_end = 200; complete = true; reason = none }

abbrev acme_july : Settlement
acme_july = record { tenant_id = codes "acme"; meter = llm; period_key = codes "2026-07" }

abbrev metered_db : Db
metered_db = record { tenants = codes "acme" ∷ []; holds = []; ledger = [] }

abbrev july_owed : DebitOwed
july_owed = record {
  amount_micro_usd = 20;
  cost_micro_usd = 50;
  idem_ref = codes "overage:llm:2026-07";
  note =
      codes "llm overage for 2026-07: 50 micro-USD used against a 30 micro-USD included allowance";
}

july_overage :
    decide_overage_debit llm observed (whole (pos 50)) (some (whole (pos 30))) (codes "2026-07")
    ≡ owed july_owed
unfolding decide_overage_debit overage_idem_ref vivijure_control_plane.Prelude.Decimal.decimal
july_overage = refl

abbrev debited_db : Db
debited_db = record metered_db { ledger = debit_row acme_july july_owed (codes "r1") 300 ∷ [] }

abbrev july_debited : SettleOutcome
july_debited = debited 20 (codes "overage:llm:2026-07") (codes "r1")

july_settled :
    settle_meter_overage metered_db acme_july observed
      (whole (pos 50))
      (some (whole (pos 30)))
      (codes "r1")
      300
    ≡ ok (debited_db, july_debited)
unfolding settle_meter_overage decide_overage_debit append_ledger_row
    vivijure_control_plane.Prelude.Int.neg text_beq overage_idem_ref
    vivijure_control_plane.Prelude.Decimal.decimal
july_settled = refl

july_resettled :
    settle_meter_overage debited_db acme_july observed
      (whole (pos 90))
      (some (whole (pos 30)))
      (codes "r2")
      400
    ≡ ok (debited_db, already_settled (codes "overage:llm:2026-07") (codes "r1"))
unfolding settle_meter_overage decide_overage_debit append_ledger_row
    vivijure_control_plane.Prelude.Int.neg text_beq overage_idem_ref
july_resettled = refl

abbrev spend : LlmSpendWindow
spend = record {
  meter = observed;
  cost_micro_usd = pos 50;
  requests = 3;
  periods = 1;
  unpriced_requests = 0;
}

abbrev acme_ref : TenantRef
acme_ref = record { id = codes "acme"; slug = none; deleted_at = none }

july_billed :
    (run_llm_settlement
      (λ t a b. ok spend)
      (some (whole (pos 30)))
      (λ e. [])
      (λ k. codes "r1")
      (λ k. 300)
      july
      (λ n. true)
      metered_db
      (acme_ref ∷ [])).1.totals.unbillable
    ≡ 0
unfolding run_llm_settlement settle_meter_overage decide_overage_debit append_ledger_row
    vivijure_control_plane.Prelude.Int.neg text_beq
july_billed = refl

abbrev gone_ref : TenantRef
gone_ref = record { id = codes "old"; slug = some (codes "old"); deleted_at = some 50 }

run_llm_settlement-AddsUp_example :
    let run =
      run_llm_settlement
        (λ t a b. ok spend)
        (some (whole (pos 30)))
        (λ e. [])
        (λ k. codes "r1")
        (λ k. 300)
        july
        (λ n. true)
        metered_db
        (gone_ref ∷ acme_ref ∷ []) in
    let totals = run.1.totals in
    (map row_tenant totals.rows ≡ (codes "acme", none) ∷ [])
    × (run.1.considered ≡ 1)
    × (totals.debited + totals.already_settled + totals.within + totals.unbillable
        ≡ run.1.considered)
    × AddsUp totals
    × (charges run.0 ≡ charges metered_db + totals.total_debited_micro_usd)
run_llm_settlement-AddsUp_example =
    run_llm_settlement-AddsUp (λ t a b. ok spend) (some (whole (pos 30))) (λ e. [])
      (λ k. codes "r1") (λ k. 300) july (λ n. true) metered_db (gone_ref ∷ acme_ref ∷ [])

run_llm_settlement_again_example :
    let first =
      run_llm_settlement
        (λ t a b. ok spend)
        (some (whole (pos 30)))
        (λ e. [])
        (λ k. codes "r1")
        (λ k. 300)
        july
        (λ n. true)
        metered_db
        (acme_ref ∷ []) in
    let second =
      run_llm_settlement
        (λ t a b. ok spend)
        (some (whole (pos 30)))
        (λ e. [])
        (λ k. codes "r2")
        (λ k. 400)
        july
        (λ n. true)
        first.0
        (acme_ref ∷ []) in
    (second.0 ≡ first.0) × (second.1.totals.debited ≡ 0)
run_llm_settlement_again_example =
    run_llm_settlement_again (λ t a b. ok spend) (some (whole (pos 30))) july (λ e. [])
      (λ k. codes "r1") (λ k. codes "r2") (λ k. 300) (λ k. 400) (λ n. true) metered_db
      (acme_ref ∷ []) july_billed

-- An instant of the year 110.
abbrev early : Instant
early = 3500000000000

early_year : year_of early ≡ 110
unfolding year_days
early_year = year_of_unique early 110 (leb→le 40177 40509 refl) (leb→le 40510 40542 refl)

early_late : 101 ≤ year_of early
early_late = omega (arith, early_year)

early_old : 100 ≤ year_of early
early_old = omega (arith, early_year)

early_key : year_of early ≤ 9999
early_key = omega (arith, early_year)

parse_billing_period_key-key_example :
    let p = billing_period_containing early in parse_billing_period_key p.key ≡ some p
parse_billing_period_key-key_example = parse_billing_period_key-key early early_old early_key

last_closed_billing_period_lem_example :
    let p = last_closed_billing_period early in
    let c = billing_period_containing early in
    (p.window_end ≡ c.window_start)
    × (billing_period_is_closed p early ≡ true)
    × (billing_period_is_closed c early ≡ false)
last_closed_billing_period_lem_example = last_closed_billing_period_lem early early_late
