-- ===== src/Meter/Window.antt =====
-- src/meter-window.ts and src/llm-spend-window.ts: what a meter says of a window, and the decision
-- whether it observed the window. A reason is kept as the list of its cases with their counts; the
-- wording that the source joins from them is not modelled.
pub mod Complete
use vivijure_control_plane.Prelude.{
  ℕ, Bool, true, false, not, ◌&&◌, Option, none, some, List, [], ◌∷◌, ◌++◌, leb, ltb, length, count,
  ◌==◌, nat_eq, if◌then◌else◌,
}
use vivijure_control_plane.Prelude.Int.{ℤ}
use vivijure_control_plane.Prelude.Text.{Text, codes, text_eq, text_beq}
use vivijure_control_plane.Credits.{Instant}

-- Why a window is not fully observed.
pub data Gap : Type 0 where
  census_truncated no_run : Gap
  unfinished not_complete control_failed retention_gap unpriced : ℕ → Gap

pub record MeterWindow : Type 0 where
  pub window_start : Instant
  pub window_end : Instant
  pub complete : Bool
  pub reason : Option (List Gap)

unfoldable pub is_unbillable : MeterWindow → Bool
is_unbillable window = not window.complete

pub record RollupPeriodRow : Type 0 where
  pub id : Text
  pub window_start : Instant
  pub window_end : Instant
  pub status : Text
  pub control_passed : ℕ
  pub gap_detected : ℕ
  pub finished_at : Option Instant

pub record LlmSpendWindow : Type 0 where
  pub meter : MeterWindow
  pub cost_micro_usd : ℤ
  pub requests : ℕ
  pub periods : ℕ
  pub unpriced_requests : ℕ

unfoldable pub period_belongs_to_window : RollupPeriodRow → Instant → Instant → Bool
period_belongs_to_window period start end = leb start period.window_end && ltb period.window_end end

pub record WindowSums : Type 0 where
  pub cost_micro_usd : ℤ
  pub requests : ℕ
  pub unpriced_requests : ℕ

abbrev pub is_unfinished : RollupPeriodRow → Bool
is_unfinished p = elim p.finished_at [ none ↦ true | some _ ↦ false ]

abbrev pub is_not_complete : RollupPeriodRow → Bool
is_not_complete p = not (p.status == codes "complete")

abbrev pub is_control_failed : RollupPeriodRow → Bool
is_control_failed p = not (p.control_passed == 1)

abbrev pub is_gapped : RollupPeriodRow → Bool
is_gapped p = p.gap_detected == 1

-- A reason is pushed for a count above zero.
abbrev pub when_some : (ℕ → Gap) → ℕ → List Gap
when_some gap n = if ltb 0 n then gap n ∷ [] else []

unfoldable pub window_gaps : List RollupPeriodRow → WindowSums → Bool → List Gap
window_gaps periods sums truncated =
    (if truncated then census_truncated ∷ [] else [])
    ++ ((if length periods == 0 then no_run ∷ [] else [])
        ++ (when_some unfinished (count is_unfinished periods)
            ++ (when_some not_complete (count is_not_complete periods)
                ++ (when_some control_failed (count is_control_failed periods)
                    ++ (when_some retention_gap (count is_gapped periods)
                        ++ when_some unpriced sums.unpriced_requests)))))

abbrev pub no_gap : List Gap → Bool
no_gap [] = true
no_gap (_ ∷ _) = false

unfoldable pub summarise_window :
    List RollupPeriodRow → Instant → Instant → WindowSums → Bool → LlmSpendWindow
unfolding window_gaps
summarise_window periods start end sums truncated =
    let reasons = window_gaps periods sums truncated in
    record {
      meter = record {
        window_start = start;
        window_end = end;
        complete = no_gap reasons;
        reason = if no_gap reasons then none else some reasons;
      };
      cost_micro_usd = sums.cost_micro_usd;
      requests = sums.requests;
      periods = length periods;
      unpriced_requests = sums.unpriced_requests;
    }
