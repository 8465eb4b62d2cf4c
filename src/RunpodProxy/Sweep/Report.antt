-- ===== src/RunpodProxy/Sweep/Report.antt =====
-- The counts of a sweep.
use vivijure_control_plane.Prelude.{
  ℕ, ◌+◌, ◌-◌, ◌≤◌, ◌≡◌, refl, true, List, [], ◌∷◌, arith, length, count, nat_eq,
}
use vivijure_control_plane.Prelude.Text.{Text, text_eq}
use vivijure_control_plane.RunpodProxy.{
  JobRow, has_job, list_open_runpod_proxy_jobs, count_open_runpod_proxy_jobs,
}
use vivijure_control_plane.RunpodProxy.Sweep.{
  Answer, probe_job, JobSweepResult, sweep_probed, sweep_rows, sweep_open, sweep_max_rows_per_run,
  reconciler_adopt_after_ms, started,
}
use vivijure_control_plane.RunpodProxy.Sweep.Answers.{says_ended, says_running, is_lost, is_unclear}
use vivijure_control_plane.RunpodProxy.Sweep.Picked.{
  Tracks, next_once, next-Tracks, length-list_open_runpod_proxy_jobs,
  list_open_runpod_proxy_jobs-Tracks,
}
use vivijure_control_plane.RunpodProxy.Sweep.Step.{is_open, sweep_probed-asked}

abbrev pub outcomes : JobSweepResult → ℕ
outcomes r = r.closed + r.unknown + r.still_running + r.errors

-- The four counts grow by what the answers for the rows say.
record Counts (ask : JobRow → Answer) (now : ℕ) (rows : List JobRow) (r s : JobSweepResult)
    : Type 0 where
  ran : s.ran ≡ r.ran
  eligible : s.eligible ≡ r.eligible
  examined : s.examined ≡ r.examined
  closed : s.closed ≡ r.closed + count (λ job. says_ended (ask job)) rows
  unknown : s.unknown ≡ r.unknown + count (λ job. is_lost now job (ask job)) rows
  still_running : s.still_running ≡ r.still_running + count (λ job. says_running (ask job)) rows
  errors : s.errors ≡ r.errors + count (λ job. is_unclear now job (ask job)) rows
  sum : outcomes s ≡ outcomes r + length rows

abbrev open_rows : List JobRow × JobSweepResult → ℕ
open_rows s = count is_open s.0 + s.1.closed + s.1.unknown

-- What is counted as closed or unknown is what became terminal.
sweep_rows-open_rows :
    (ask : JobRow → Answer) (now : ℕ) (jobs : List JobRow) (r : JobSweepResult) (rows : List JobRow)
    → Tracks jobs rows
    → open_rows (sweep_rows ask now jobs r rows) ≡ open_rows (jobs, r)
unfolding sweep_rows
sweep_rows-open_rows ask now jobs r [] t = refl
sweep_rows-open_rows ask now jobs r (job ∷ rest) t =
    let s = sweep_probed now jobs r job (probe_job ask job) in
    let w = sweep_probed-asked ask now jobs r job in
    let once = (next_once t).0 in
    let e = sweep_rows-open_rows ask now s.0 s.1 rest (next-Tracks t w) in
    ground (arith, e, w.left.opened, w.closed, w.unknown, w.one_count)

sweep_rows-Counts :
    (ask : JobRow → Answer) (now : ℕ) (jobs : List JobRow) (r : JobSweepResult) (rows : List JobRow)
    → Tracks jobs rows
    → Counts ask now rows r (sweep_rows ask now jobs r rows).1
unfolding sweep_rows
sweep_rows-Counts ask now jobs r [] t = record {
  ran = refl;
  eligible = refl;
  examined = refl;
  closed = omega arith;
  unknown = omega arith;
  still_running = omega arith;
  errors = omega arith;
  sum = omega arith;
}
sweep_rows-Counts ask now jobs r (job ∷ rest) t =
    let s = sweep_probed now jobs r job (probe_job ask job) in
    let w = sweep_probed-asked ask now jobs r job in
    let once = (next_once t).0 in
    let e = sweep_rows-Counts ask now s.0 s.1 rest (next-Tracks t w) in
    record {
      ran = cc (e.ran, w.ran);
      eligible = omega (arith, e.eligible, w.eligible);
      examined = omega (arith, e.examined, w.examined);
      closed = ground (arith, e.closed, w.closed);
      unknown = ground (arith, e.unknown, w.unknown);
      still_running = ground (arith, e.still_running, w.still_running);
      errors = ground (arith, e.errors, w.errors);
      sum = ground (arith, e.sum, w.closed, w.unknown, w.still_running, w.errors, w.one_count);
    }

-- A sweep with a key, which no other writer meets, in a table where no two rows have one job id,
-- examines at most fifty jobs and at most those it counted as eligible, and its four counts are those
-- of the examined jobs by RunPod's answer: closed, where a success names an ended state; unknown, where
-- the job is missing and was submitted more than thirty minutes ago; still running, where a success is
-- read and names no ended state; an error, where it is none of these. They sum to the examined jobs,
-- so that each of these stands in one count and no more; and as many rows become terminal as are
-- counted closed or unknown.
pub sweep_open_counts :
    (ask : JobRow → Answer) (now : ℕ) (jobs : List JobRow)
    → ((x : Text) → count (has_job x) jobs ≤ 1)
    → let before = now - reconciler_adopt_after_ms in
      let rows = list_open_runpod_proxy_jobs jobs before sweep_max_rows_per_run in
      let r = (sweep_open ask now jobs).1 in
      (r.ran ≡ true)
      × (r.eligible ≡ count_open_runpod_proxy_jobs jobs before)
      × (r.examined ≡ length rows)
      × (r.examined ≤ r.eligible)
      × (r.examined ≤ sweep_max_rows_per_run)
      × (r.closed ≡ count (λ job. says_ended (ask job)) rows)
      × (r.unknown ≡ count (λ job. is_lost now job (ask job)) rows)
      × (r.still_running ≡ count (λ job. says_running (ask job)) rows)
      × (r.errors ≡ count (λ job. is_unclear now job (ask job)) rows)
      × (outcomes r ≡ r.examined)
      × (count is_open (sweep_open ask now jobs).0 + r.closed + r.unknown ≡ count is_open jobs)
unfolding sweep_open
sweep_open_counts ask now jobs unique =
    let before = now - reconciler_adopt_after_ms in
    let rows = list_open_runpod_proxy_jobs jobs before sweep_max_rows_per_run in
    let e =
      sweep_rows-Counts ask now jobs
        (started (count_open_runpod_proxy_jobs jobs before) (length rows)) rows
        (list_open_runpod_proxy_jobs-Tracks jobs before sweep_max_rows_per_run unique) in
    let o =
      sweep_rows-open_rows ask now jobs
        (started (count_open_runpod_proxy_jobs jobs before) (length rows)) rows
        (list_open_runpod_proxy_jobs-Tracks jobs before sweep_max_rows_per_run unique) in
    let (within, bounded) = length-list_open_runpod_proxy_jobs jobs before sweep_max_rows_per_run in
    (
      e.ran,
      e.eligible,
      e.examined,
      omega (arith, e.eligible, e.examined, within),
      omega (arith, e.examined, bounded),
      omega (arith, e.closed),
      omega (arith, e.unknown),
      omega (arith, e.still_running),
      omega (arith, e.errors),
      omega (arith, e.sum, e.examined),
      omega (arith, o),
    )
