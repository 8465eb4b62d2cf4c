-- ===== src/Meter/Window/Complete.antt =====
-- When a window counts as observed.
use vivijure_control_plane.Prelude.{
  ◌≡◌, ◌≢◌, ◌↔◌, refl, Bool, true, false, not, ◌&&◌, ◌||◌, List, [], ◌∷◌, arith, leb, length, count,
  All, is_some, ◌==◌, nat_eq,
}
use vivijure_control_plane.Prelude.Text.{codes, text_eq}
use vivijure_control_plane.Credits.{Instant}
use vivijure_control_plane.Meter.Window.{
  RollupPeriodRow, WindowSums, summarise_window, is_unfinished, is_not_complete, is_control_failed,
  is_gapped, period_belongs_to_window,
}

-- A run that finished, paginated to exhaustion, passed its control and saw no retention gap.
pub record IsHealthy (p : RollupPeriodRow) : Type 0 where
  pub finished : is_some p.finished_at ≡ true
  pub exhausted : (p.status == codes "complete") ≡ true
  pub controlled : p.control_passed ≡ 1
  pub gapless : p.gap_detected ≢ 1

abbrev NoneFail : List RollupPeriodRow → Type 0
NoneFail ps =
    (count is_unfinished ps ≡ 0)
    × (count is_not_complete ps ≡ 0)
    × (count is_control_failed ps ≡ 0)
    × (count is_gapped ps ≡ 0)

IsHealthy-to : (ps : List RollupPeriodRow) → NoneFail ps → All IsHealthy ps
IsHealthy-to [] h = tt
IsHealthy-to (p ∷ ps) (a, b, c, d) = (
  record {
    finished = ground arith;
    exhausted = ground arith;
    controlled = ground arith;
    gapless = ground arith;
  },
  IsHealthy-to ps (ground arith, ground arith, ground arith, ground arith),
)

IsHealthy-from : (ps : List RollupPeriodRow) → All IsHealthy ps → NoneFail ps
IsHealthy-from [] h = (refl, refl, refl, refl)
IsHealthy-from (p ∷ ps) (h, hs) =
    let (a, b, c, d) = IsHealthy-from ps hs in
    (ground arith, ground arith, ground arith, ground arith)

-- A window is complete exactly when the census of its runs was not cut off, there is a run, every
-- run is healthy and every request is priced; a reason is given exactly when it is not complete.
pub summarise_window_complete :
    (periods : List RollupPeriodRow) (start end : Instant) (sums : WindowSums) (truncated : Bool)
    → let w = summarise_window periods start end sums truncated in
      ((w.meter.complete ≡ true) ↔ (
        (truncated ≡ false)
        × (periods ≢ [])
        × All IsHealthy periods
        × (sums.unpriced_requests ≡ 0)))
      × (is_some w.meter.reason ≡ not w.meter.complete)
unfolding summarise_window
summarise_window_complete periods start end sums truncated = (
  (
    λ h. (
      ground arith,
      nonempty periods (ground arith),
      IsHealthy-to periods (ground arith, ground arith, ground arith, ground arith),
      ground arith,
    ),
    λ (t, n, hs, u). let (a, b, c, d) = IsHealthy-from periods hs in ground (arith, full periods n),
  ),
  ground arith,
)
  where
    nonempty : (ps : List RollupPeriodRow) → (length ps == 0) ≡ false → ps ≢ []
    nonempty [] h e = cc
    nonempty (p ∷ ps) h e = cc

    full : (ps : List RollupPeriodRow) → ps ≢ [] → (length ps == 0) ≡ false
    full [] n = absurd (n refl)
    full (p ∷ ps) n = ground arith

-- Of two neighbouring windows a run belongs to exactly one if it belongs to the window that they
-- make up, and to neither otherwise.
pub period_belongs_to_window_partition :
    (p : RollupPeriodRow) (a b c : Instant)
    → (leb a b && leb b c) ≡ true
    → (period_belongs_to_window p a c
        ≡ (period_belongs_to_window p a b || period_belongs_to_window p b c))
      × ((period_belongs_to_window p a b && period_belongs_to_window p b c) ≡ false)
unfolding period_belongs_to_window
period_belongs_to_window_partition p a b c h = (ground arith, ground arith)
