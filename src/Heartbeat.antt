-- ===== src/Heartbeat.antt =====
-- The liveness of the cron: src/cron-heartbeat.ts. `JSON.parse` and `Date.parse` are given as
-- `parse`, which answers `none` where the first throws; an instant is a count of milliseconds since
-- 1970, which may be negative. The three halves of a tick pass through as they are.
pub mod Stale
mod Tests
use vivijure_control_plane.Prelude.{
  ℕ, ◌*◌, ◌+◌, ◌/◌, Bool, true, false, not, ◌&&◌, ◌||◌, Option, none, some, List, ◌==◌, nat_eq,
  if◌then◌else◌,
}
use vivijure_control_plane.Prelude.Int.{ℤ, pos, neg, ◌-ℤ◌, ltb_ℤ}
use vivijure_control_plane.Prelude.Text.{Text, codes, trim, is_empty}

abbrev pub cron_tick_interval_ms : ℕ
cron_tick_interval_ms = 5 * 60 * 1000

abbrev pub cron_stale_after_ms : ℕ
cron_stale_after_ms = 3 * cron_tick_interval_ms

-- Why the answer is what it is.
pub data Detail : Type 0 where
  never_recorded unparseable no_timestamp in_the_future too_old : Detail

-- The parsed row: its fields as far as they have the type that is read, and the instant of `at`.
pub record TickRow (Halves : Type 0) : Type 0 where
  pub at : Option Text
  pub at_ms : Option ℤ
  pub ok : Option Bool
  pub halves : Option Halves

pub record CronLiveness (Halves : Type 0) : Type 0 where
  pub ran : Bool
  pub at : Option Text
  pub age_ms : Option ℤ
  pub stale : Bool
  pub ok : Option Bool
  pub halves : Option Halves
  pub detail : Option Detail

abbrev pub is_not_ok : Option Bool → Bool
is_not_ok (some false) = true
is_not_ok _ = false

module _ {Halves : Type 0} where
  abbrev pub never : Detail → CronLiveness Halves
  never detail = record {
    ran = false;
    at = none;
    age_ms = none;
    stale = true;
    ok = none;
    halves = none;
    detail = some detail;
  }

  -- From a row whose timestamp was read. The source reports the age rounded to seconds.
  unfoldable pub liveness_of_row : TickRow Halves → ℤ → CronLiveness Halves
  liveness_of_row row age =
      if ltb_ℤ age (neg (pos cron_tick_interval_ms))
      then record {
        ran = true;
        at = row.at;
        age_ms = some age;
        stale = true;
        ok = row.ok;
        halves = row.halves;
        detail = some in_the_future;
      }
      else (let late = ltb_ℤ (pos cron_stale_after_ms) age in
          record {
            ran = true;
            at = row.at;
            age_ms = some age;
            stale = late || is_not_ok row.ok;
            ok = row.ok;
            halves = row.halves;
            detail = if late then some too_old else none;
          })

  abbrev pub read_at : TickRow Halves → Option ℤ
  read_at row = elim row.at [ none ↦ none | some _ ↦ row.at_ms ]

  unfoldable pub liveness_of_parsed : Option (TickRow Halves) → ℤ → CronLiveness Halves
  unfolding liveness_of_row
  liveness_of_parsed none now = never unparseable
  liveness_of_parsed (some row) now = elim (read_at row) [
    | none ↦ never no_timestamp
    | some at_ms ↦ liveness_of_row row (now -ℤ at_ms)
  ]

  unfoldable pub summarize_cron_liveness :
      (Text → Option (TickRow Halves)) → Option Text → ℤ → CronLiveness Halves
  unfolding liveness_of_parsed
  summarize_cron_liveness parse none now = never never_recorded
  summarize_cron_liveness parse (some raw) now =
      if is_empty (trim raw) then never never_recorded else liveness_of_parsed (parse raw) now
