-- ===== src/Credits/Tests.antt =====
-- What the theorems on the submit gate, the knob and the amounts say at concrete inputs.
use vivijure_control_plane.Prelude.{◌≡◌, ◌⊎◌, ◌↔◌, true, false}
use vivijure_control_plane.Prelude.Int.{pos, ◌≤ℤ◌}
use vivijure_control_plane.Credits.{Balance, decide_submit}
use vivijure_control_plane.Credits.Submit.{Permits, decide_submit-Permits_iff}

abbrev funded : Balance
funded = record {
  settled_micro_usd = pos 900;
  held_micro_usd = pos 500;
  available_micro_usd = pos 400;
  complete = true;
}

decide_submit-Permits_iff_example :
    Permits (decide_submit funded (pos 500) true)
    ↔ ((true ≡ false) ⊎ ((true ≡ true) × (pos 500 ≤ℤ pos 400)))
decide_submit-Permits_iff_example = decide_submit-Permits_iff funded (pos 500) true
