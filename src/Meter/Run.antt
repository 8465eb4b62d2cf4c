-- ===== src/Meter/Run.antt =====
-- src/meter-settle-run.ts: one closed billing period, every live tenant, the LLM meter. What the
-- run is handed (the tenants, the reader of spend, the ids and the clock) are parameters: `new_id k`
-- and `clock k` are what the calls for the tenant number `k` answer, `describe` the message of a
-- thrown store error.
pub mod Report
pub mod Again
pub mod Charge
use vivijure_control_plane.Prelude.{
  ℕ, zero, suc, ◌+◌, Bool, true, false, Option, none, some, List, [], ◌∷◌, ◌++◌, Result, ok, err,
  length, take, filter, is_some, not,
}
use vivijure_control_plane.Prelude.Int.{ℤ}
use vivijure_control_plane.Prelude.Text.{Text}
use vivijure_control_plane.Credits.{Instant}
use vivijure_control_plane.Ledger.{Db, StoreError}
use vivijure_control_plane.Meter.Period.{BillingPeriod}
use vivijure_control_plane.Meter.Window.{LlmSpendWindow}
use vivijure_control_plane.Meter.Debit.{Num, whole, llm, Unbillable, settlement_threw}
use vivijure_control_plane.Meter.Settle.{
  Settlement, SettleOutcome, debited, already_settled, settled_within, not_billed,
  settle_meter_overage,
}

pub record TenantRef : Type 0 where
  pub id : Text
  pub slug : Option Text
  pub deleted_at : Option Instant

pub data OutcomeName : Type 0 where
  was_debited was_already_settled was_within was_unbillable : OutcomeName

abbrev pub outcome_name : SettleOutcome → OutcomeName
outcome_name (debited _ _ _) = was_debited
outcome_name (already_settled _ _) = was_already_settled
outcome_name (settled_within _ _) = was_within
outcome_name (not_billed _) = was_unbillable

pub record SettlementRow : Type 0 where
  pub tenant_id : Text
  pub slug : Option Text
  pub outcome : OutcomeName
  pub amount_micro_usd : Option ℕ
  pub reason : Option Unbillable

-- The running totals and rows of the report.
pub record Totals : Type 0 where
  pub debited : ℕ
  pub already_settled : ℕ
  pub within : ℕ
  pub unbillable : ℕ
  pub total_debited_micro_usd : ℕ
  pub rows : List SettlementRow

pub record SettlementReport : Type 0 where
  pub period_key : Text
  pub window_start : Instant
  pub window_end : Instant
  pub census_complete : Bool
  pub considered : ℕ
  pub totals : Totals

abbrev pub no_totals : Totals
no_totals = record {
  debited = 0;
  already_settled = 0;
  within = 0;
  unbillable = 0;
  total_debited_micro_usd = 0;
  rows = [];
}

unfoldable pub row_of : TenantRef → SettleOutcome → SettlementRow
row_of t (debited amount ref row) = record {
  tenant_id = t.id;
  slug = t.slug;
  outcome = was_debited;
  amount_micro_usd = some amount;
  reason = none;
}
row_of t (not_billed reason) = record {
  tenant_id = t.id;
  slug = t.slug;
  outcome = was_unbillable;
  amount_micro_usd = none;
  reason = some reason;
}
row_of t o = record {
  tenant_id = t.id;
  slug = t.slug;
  outcome = outcome_name o;
  amount_micro_usd = none;
  reason = none;
}

unfoldable pub tally : Totals → TenantRef → SettleOutcome → Totals
unfolding row_of
tally a t (debited amount ref row) = record a {
  debited = a.debited + 1;
  total_debited_micro_usd = a.total_debited_micro_usd + amount;
  rows = a.rows ++ row_of t (debited amount ref row) ∷ [];
}
tally a t (already_settled ref row) = record a {
  already_settled = a.already_settled + 1;
  rows = a.rows ++ row_of t (already_settled ref row) ∷ [];
}
tally a t (settled_within used allowance) = record a {
  within = a.within + 1;
  rows = a.rows ++ row_of t (settled_within used allowance) ∷ [];
}
tally a t (not_billed reason) = record a {
  unbillable = a.unbillable + 1;
  rows = a.rows ++ row_of t (not_billed reason) ∷ [];
}

abbrev pub is_live : TenantRef → Bool
is_live t = not (is_some t.deleted_at)

module _ (read : Text → Instant → Instant → Result Text LlmSpendWindow) (allowance : Option Num)
    (describe : StoreError → Text) (new_id : ℕ → Text) (clock : ℕ → Instant)
    (period : BillingPeriod) where
  after_settle : Db → Result StoreError (Db × SettleOutcome) → Db × SettleOutcome
  after_settle db (err e) = (db, not_billed (settlement_threw (take 200 (describe e))))
  after_settle db (ok (db', o)) = (db', o)

  abbrev settlement_of : TenantRef → Settlement
  settlement_of t = record { tenant_id = t.id; meter = llm; period_key = period.key }

  after_read : ℕ → Db → TenantRef → Result Text LlmSpendWindow → Db × SettleOutcome
  after_read k db t (err message) = (db, not_billed (settlement_threw (take 200 message)))
  after_read k db t (ok window) = after_settle db (
      settle_meter_overage db (settlement_of t) window.meter (whole window.cost_micro_usd) allowance
        (new_id k) (clock k))

  -- The body of the loop for one tenant, its `catch` included.
  unfoldable pub settle_tenant : ℕ → Db → TenantRef → Db × SettleOutcome
  unfolding after_read after_settle
  settle_tenant k db t = after_read k db t (read t.id period.window_start period.window_end)

  unfoldable pub settle_all : ℕ → Db → Totals → List TenantRef → Db × Totals
  unfolding settle_tenant tally
  settle_all k db a [] = (db, a)
  settle_all k db a (t ∷ ts) =
      let r = settle_tenant k db t in settle_all (suc k) r.0 (tally a t r.1) ts

  -- `runLlmSettlement`, with what `listTenants` answered.
  unfoldable pub run_llm_settlement : (ℕ → Bool) → Db → List TenantRef → Db × SettlementReport
  unfolding settle_all
  run_llm_settlement census_complete db tenants =
      let live = filter is_live tenants in
      let r = settle_all 0 db no_totals live in
      (
        r.0,
        record {
          period_key = period.key;
          window_start = period.window_start;
          window_end = period.window_end;
          census_complete = census_complete (length tenants);
          considered = length live;
          totals = r.1;
        },
      )
