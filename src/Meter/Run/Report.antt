-- ===== src/Meter/Run/Report.antt =====
-- The report of a settlement run adds up.
use mathlib.Core.List.{append_assoc, append-nil}
use vivijure_control_plane.Prelude.{
  ℕ, suc, ◌+◌, ◌≡◌, ◌∙◌, refl, sym, ap, Bool, true, false, ◌&&◌, if◌then◌else◌, not, is_some, count,
  all, map, Option, none, some, List, [], ◌∷◌, ◌++◌, Result, arith, length, filter, sum_map,
}
use vivijure_control_plane.Prelude.Text.{Text}
use vivijure_control_plane.Credits.{Instant}
use vivijure_control_plane.Ledger.{Db, StoreError}
use vivijure_control_plane.Meter.Period.{BillingPeriod}
use vivijure_control_plane.Meter.Window.{LlmSpendWindow}
use vivijure_control_plane.Meter.Debit.{Num}
use vivijure_control_plane.Meter.Settle.{
  SettleOutcome, debited, already_settled, settled_within, not_billed,
}
use vivijure_control_plane.Meter.Run.Charge.{charges, settle_all-charges}
use vivijure_control_plane.Meter.Run.{
  OutcomeName, was_debited, was_already_settled, was_within, was_unbillable, TenantRef,
  SettlementRow, Totals, no_totals, row_of, tally, is_live, settle_tenant, settle_all,
  run_llm_settlement,
}

abbrev pub row_amount : SettlementRow → ℕ
row_amount r = elim r.amount_micro_usd [ none ↦ 0 | some n ↦ n ]

abbrev pub has_outcome : OutcomeName → SettlementRow → Bool
has_outcome was_debited r = elim r.outcome [
  | was_debited ↦ true
  | was_already_settled ↦ false
  | was_within ↦ false
  | was_unbillable ↦ false
]
has_outcome was_already_settled r = elim r.outcome [
  | was_debited ↦ false
  | was_already_settled ↦ true
  | was_within ↦ false
  | was_unbillable ↦ false
]
has_outcome was_within r = elim r.outcome [
  | was_debited ↦ false
  | was_already_settled ↦ false
  | was_within ↦ true
  | was_unbillable ↦ false
]
has_outcome was_unbillable r = elim r.outcome [
  | was_debited ↦ false
  | was_already_settled ↦ false
  | was_within ↦ false
  | was_unbillable ↦ true
]

-- An amount stands on the debited rows alone, and a reason on those that could not be billed.
abbrev pub is_coherent : SettlementRow → Bool
is_coherent r =
    (if has_outcome was_debited r
      then is_some r.amount_micro_usd
      else not (is_some r.amount_micro_usd))
    && (if has_outcome was_unbillable r then is_some r.reason else not (is_some r.reason))

-- Whom a row is about.
abbrev pub row_tenant : SettlementRow → Text × Option Text
row_tenant r = (r.tenant_id, r.slug)

abbrev pub named : TenantRef → Text × Option Text
named t = (t.id, t.slug)

-- Each count is that of the rows with its outcome, and the total is that of their amounts.
pub record AddsUp (a : Totals) : Type 0 where
  pub debited : a.debited ≡ count (has_outcome was_debited) a.rows
  pub already_settled : a.already_settled ≡ count (has_outcome was_already_settled) a.rows
  pub within : a.within ≡ count (has_outcome was_within) a.rows
  pub unbillable : a.unbillable ≡ count (has_outcome was_unbillable) a.rows
  pub total : a.total_debited_micro_usd ≡ sum_map row_amount a.rows
  pub coherent : all is_coherent a.rows ≡ true

sum_map-snoc :
    (rs : List SettlementRow) (r : SettlementRow)
    → sum_map row_amount (rs ++ r ∷ []) ≡ sum_map row_amount rs + row_amount r
sum_map-snoc [] r = omega arith
sum_map-snoc (x ∷ rs) r = omega (arith, sum_map-snoc rs r)

count-snoc :
    (p : SettlementRow → Bool) (rs : List SettlementRow) (r : SettlementRow)
    → count p (rs ++ r ∷ []) ≡ count p rs + count p (r ∷ [])
count-snoc p [] r = omega arith
count-snoc p (x ∷ rs) r = ground (arith, count-snoc p rs r)

all-snoc :
    (p : SettlementRow → Bool) (rs : List SettlementRow) (r : SettlementRow)
    → all p (rs ++ r ∷ []) ≡ (all p rs && p r)
all-snoc p [] r = ground arith
all-snoc p (x ∷ rs) r = ground (arith, all-snoc p rs r)

-- The totals with one row more.
abbrev Adds : Totals → SettlementRow → Totals → Type 0
Adds a r a' =
    (a'.debited ≡ a.debited + count (has_outcome was_debited) (r ∷ []))
    × (a'.already_settled ≡ a.already_settled + count (has_outcome was_already_settled) (r ∷ []))
    × (a'.within ≡ a.within + count (has_outcome was_within) (r ∷ []))
    × (a'.unbillable ≡ a.unbillable + count (has_outcome was_unbillable) (r ∷ []))
    × (a'.total_debited_micro_usd ≡ a.total_debited_micro_usd + row_amount r)
    × (is_coherent r ≡ true)

tally-Adds :
    (a : Totals) (t : TenantRef) (o : SettleOutcome)
    → Adds a (row_of t o) (tally a t o) × ((tally a t o).rows ≡ a.rows ++ row_of t o ∷ [])
unfolding tally row_of
tally-Adds a t (debited n ref row) = (ground arith, refl)
tally-Adds a t (already_settled ref row) = (ground arith, refl)
tally-Adds a t (settled_within u n) = (ground arith, refl)
tally-Adds a t (not_billed r) = (ground arith, refl)

snoc-AddsUp :
    (a a' : Totals) (r : SettlementRow)
    → AddsUp a
    → Adds a r a'
    → a'.rows ≡ a.rows ++ r ∷ []
    → AddsUp a'
snoc-AddsUp a a' r s (d, i, w, u, n, c) e = record {
  debited = rw e (omega (arith, count-snoc (has_outcome was_debited) a.rows r, s.debited));
  already_settled =
      rw e
        (omega (arith, count-snoc (has_outcome was_already_settled) a.rows r, s.already_settled));
  within = rw e (omega (arith, count-snoc (has_outcome was_within) a.rows r, s.within));
  unbillable = rw e (omega (arith, count-snoc (has_outcome was_unbillable) a.rows r, s.unbillable));
  total = rw e (omega (arith, sum_map-snoc a.rows r, s.total));
  coherent = rw e (ground (arith, all-snoc is_coherent a.rows r, s.coherent));
}

tally-AddsUp : (a : Totals) (t : TenantRef) (o : SettleOutcome) → AddsUp a → AddsUp (tally a t o)
tally-AddsUp a t o s =
    let (adds, rows) = tally-Adds a t o in snoc-AddsUp a (tally a t o) (row_of t o) s adds rows

no_totals-AddsUp : AddsUp no_totals
no_totals-AddsUp = record {
  debited = refl;
  already_settled = refl;
  within = refl;
  unbillable = refl;
  total = refl;
  coherent = refl;
}

-- Every row has one of the four outcomes.
outcomes_lem :
    (rs : List SettlementRow)
    → count (has_outcome was_debited) rs
        + count (has_outcome was_already_settled) rs
        + count (has_outcome was_within) rs
        + count (has_outcome was_unbillable) rs
      ≡ length rs
outcomes_lem [] = refl
outcomes_lem (r ∷ rs) = ground (arith, outcomes_lem rs)

length-map {ℓ κ} :
    {A : Type ℓ} {B : Type κ} (f : A → B) (xs : List A) → length (map f xs) ≡ length xs
length-map f [] = refl
length-map f (x ∷ xs) = ap suc (length-map f xs)

map-snoc :
    (rs : List SettlementRow) (r : SettlementRow)
    → map row_tenant (rs ++ r ∷ []) ≡ map row_tenant rs ++ row_tenant r ∷ []
map-snoc [] r = refl
map-snoc (x ∷ rs) r = ap (λ l. row_tenant x ∷ l) (map-snoc rs r)

rows-tally :
    (a : Totals) (t : TenantRef) (o : SettleOutcome)
    → map row_tenant (tally a t o).rows ≡ map row_tenant a.rows ++ named t ∷ []
unfolding row_of
rows-tally a t o = rw (tally-Adds a t o).1 (whose o)
  where
    whose :
        (o : SettleOutcome)
        → map row_tenant (a.rows ++ row_of t o ∷ []) ≡ map row_tenant a.rows ++ named t ∷ []
    whose (debited n ref row) = map-snoc a.rows _
    whose (already_settled ref row) = map-snoc a.rows _
    whose (settled_within u n) = map-snoc a.rows _
    whose (not_billed r) = map-snoc a.rows _

module _ (read : Text → Instant → Instant → Result Text LlmSpendWindow) (allowance : Option Num)
    (describe : StoreError → Text) (new_id : ℕ → Text) (clock : ℕ → Instant)
    (period : BillingPeriod) where
  settle_all-AddsUp :
      (k : ℕ) (db : Db) (a : Totals) (ts : List TenantRef)
      → AddsUp a
      → AddsUp (settle_all read allowance describe new_id clock period k db a ts).1
  unfolding settle_all
  settle_all-AddsUp k db a [] s = s
  settle_all-AddsUp k db a (t ∷ ts) s =
      let r = settle_tenant read allowance describe new_id clock period k db t in
      settle_all-AddsUp (suc k) r.0 (tally a t r.1) ts (tally-AddsUp a t r.1 s)

  rows-settle_all :
      (k : ℕ) (db : Db) (a : Totals) (ts : List TenantRef)
      → map row_tenant (settle_all read allowance describe new_id clock period k db a ts).1.rows
        ≡ map row_tenant a.rows ++ map named ts
  unfolding settle_all
  rows-settle_all k db a [] = sym (append-nil (map row_tenant a.rows))
  rows-settle_all k db a (t ∷ ts) =
      let r = settle_tenant read allowance describe new_id clock period k db t in
      rows-settle_all (suc k) r.0 (tally a t r.1) ts
      ∙ ap (λ l. l ++ map named ts) (rows-tally a t r.1)
      ∙ append_assoc (map row_tenant a.rows) (named t ∷ []) (map named ts)

  -- The report of a run has one row for every live tenant, with its id and slug, in their order, and no
  -- others; each of the four counts is that of the rows with its outcome, and they sum to the tenants
  -- considered; an amount stands on the debited rows alone, a reason on the unbillable ones alone; and
  -- the total is the sum of the amounts, which is what the run's ledger rows take from the balances.
  -- This holds whatever reads and writes throw.
  pub run_llm_settlement-AddsUp :
      (census_complete : ℕ → Bool) (db : Db) (tenants : List TenantRef)
      → let run =
          run_llm_settlement read allowance describe new_id clock period census_complete db
            tenants in
        let totals = run.1.totals in
        (map row_tenant totals.rows ≡ map named (filter is_live tenants))
        × (run.1.considered ≡ length (filter is_live tenants))
        × (totals.debited + totals.already_settled + totals.within + totals.unbillable
            ≡ run.1.considered)
        × AddsUp totals
        × (charges run.0 ≡ charges db + totals.total_debited_micro_usd)
  unfolding run_llm_settlement
  run_llm_settlement-AddsUp census_complete db tenants =
      let live = filter is_live tenants in
      let s = settle_all-AddsUp 0 db no_totals live no_totals-AddsUp in
      let whose = rows-settle_all 0 db no_totals live in
      let rows =
        (settle_all read allowance describe new_id clock period 0 db no_totals live).1.rows in
      let n : length rows ≡ length live =
        sym (length-map row_tenant rows) ∙ ap length whose ∙ length-map named live in
      (
        whose,
        refl,
        omega (arith, outcomes_lem rows, n, s.debited, s.already_settled, s.within, s.unbillable),
        s,
        omega (
          arith,
          settle_all-charges read allowance describe new_id clock period 0 db no_totals live,
        ),
      )
