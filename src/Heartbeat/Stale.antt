-- ===== src/Heartbeat/Stale.antt =====
-- When the light is green.
use vivijure_control_plane.Prelude.{
  ◌≡◌, ◌≢◌, refl, inl, inr, Bool, true, false, Option, none, some, arith, Option-cases, Bool-cases,
}
use vivijure_control_plane.Prelude.Int.{ℤ, pos, neg, ◌-ℤ◌, ◌≤ℤ◌}
use vivijure_control_plane.Prelude.Text.{Text, trim, is_empty}
use vivijure_control_plane.Heartbeat.{
  TickRow, summarize_cron_liveness, liveness_of_parsed, liveness_of_row, read_at, is_not_ok,
  cron_tick_interval_ms, cron_stale_after_ms,
}

-- The evidence behind a green light.
pub record Vouched {Halves : Type 0} (parse : Text → Option (TickRow Halves)) (raw : Text) (now : ℤ)
    : Type 0 where
  pub row : TickRow Halves
  pub at_ms : ℤ
  pub parsed : parse raw ≡ some row
  pub dated : read_at row ≡ some at_ms
  pub not_future : neg (pos cron_tick_interval_ms) ≤ℤ (now -ℤ at_ms)
  pub recent : (now -ℤ at_ms) ≤ℤ pos cron_stale_after_ms
  pub healthy : row.ok ≢ some false

ok_is : (o : Option Bool) → is_not_ok o ≡ false → o ≢ some false
ok_is none h e = cc
ok_is (some true) h e = cc
ok_is (some false) h e = absurd (ground arith)

module _ {Halves : Type 0} (parse : Text → Option (TickRow Halves)) where
  -- The light is green only on a row that was read, parsed and dated, from at most three missed
  -- ticks ago and at most one tick ahead, whose tick did not fail: every other state reads stale.
  pub summarize_cron_liveness_green :
      (stored : Option Text) (now : ℤ)
      → (summarize_cron_liveness parse stored now).stale ≡ false
      → (raw : Text) × (stored ≡ some raw) × Vouched parse raw now
  unfolding summarize_cron_liveness liveness_of_parsed liveness_of_row
  summarize_cron_liveness_green none now h = absurd (ground arith)
  summarize_cron_liveness_green (some raw) now h = elim (Bool-cases (is_empty (trim raw))) [
    | inl blank ↦ absurd (ground arith)
    | inr full ↦ (raw, refl, vouch (parse raw) refl (ground arith))
  ]
    where
      vouch :
          (o : Option (TickRow Halves))
          → parse raw ≡ o
          → (liveness_of_parsed o now).stale ≡ false
          → Vouched parse raw now
      vouch none p h = absurd (ground arith)
      vouch (some row) p h = elim (Option-cases (read_at row)) [
        | inl undated ↦ absurd (ground arith)
        | inr (at_ms, dated) ↦
            let green : (liveness_of_row row (now -ℤ at_ms)).stale ≡ false = ground arith in
            record {
              row = row;
              at_ms = at_ms;
              parsed = p;
              dated = dated;
              not_future = ground arith;
              recent = ground arith;
              healthy = ok_is row.ok (ground arith);
            }
      ]
