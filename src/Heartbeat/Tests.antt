-- ===== src/Heartbeat/Tests.antt =====
-- One fresh tick, as the operator view summarises it.
use vivijure_control_plane.Prelude.{◌≡◌, refl, Bool, true, false, Option, none, some}
use vivijure_control_plane.Prelude.Int.{ℤ, pos}
use vivijure_control_plane.Prelude.Text.{Text, codes}
use vivijure_control_plane.Heartbeat.{TickRow, summarize_cron_liveness}

abbrev read_tick : Text → Option (TickRow Bool)
read_tick raw =
    some (record { at = some raw; at_ms = some (pos 1000); ok = some true; halves = none })

fresh_tick : (summarize_cron_liveness read_tick (some (codes "t")) (pos 2000)).stale ≡ false
unfolding summarize_cron_liveness vivijure_control_plane.Prelude.Text.trim
    vivijure_control_plane.Prelude.Int.◌-ℤ◌ vivijure_control_plane.Prelude.Int.neg
fresh_tick = refl
