-- ===== src/RunpodProxy/Tests.antt =====
-- What the theorems on the proxy say of two jobs: one open, one terminal.
use vivijure_control_plane.Prelude.{
  ◌+◌, ◌-◌, ◌≤◌, ◌≡◌, refl, true, false, none, some, List, [], ◌∷◌, find?, All, arith, count,
  length, if◌then◌else◌, ◌==◌,
}
use vivijure_control_plane.Prelude.Text.{Text, codes, text_beq, text_eq, text_beq_iff}
use vivijure_control_plane.RunpodProxy.{
  JobRow, ProxyJobClose, completed, failed, has_job, close_runpod_proxy_job,
  count_open_runpod_proxy_jobs, list_open_runpod_proxy_jobs, submitted,
}
use vivijure_control_plane.RunpodProxy.Jobs.{close_runpod_proxy_job_once}
use vivijure_control_plane.RunpodProxy.Sweep.{
  Answer, no_answer, answer, sweep_open, sweep_max_rows_per_run, reconciler_adopt_after_ms,
  probe_job,
}
use vivijure_control_plane.RunpodProxy.Sweep.Answers.{says_ended, says_running, is_lost, is_unclear}
use vivijure_control_plane.RunpodProxy.Sweep.Step.{is_open}
use vivijure_control_plane.RunpodProxy.Sweep.Report.{sweep_open_counts, outcomes}
use vivijure_control_plane.RunpodProxy.Sweep.Leaves.{
  sweep_open-unsettled, sweep_open_keeps, unsettled,
}

abbrev open_job : JobRow
open_job = record {
  job_id = codes "j1";
  tenant_id = codes "t1";
  tenant_slug = codes "acme";
  module_name = none;
  outcome = submitted;
  status_raw = none;
  execution_ms = none;
  delay_ms = none;
  submitted_at = some 10;
  terminal_at = none;
  source = codes "proxy";
  endpoint_id = some (codes "e1");
  webhook_token_sha256 = none;
}

abbrev done_job : JobRow
done_job = record open_job {
  job_id = codes "j2";
  outcome = completed;
  status_raw = some (codes "COMPLETED");
  terminal_at = some 40;
}

abbrev two_jobs : List JobRow
two_jobs = open_job ∷ done_job ∷ []

abbrev a_close : ProxyJobClose
a_close = record {
  job_id = codes "j1";
  outcome = completed;
  status_raw = codes "COMPLETED";
  execution_ms = none;
  delay_ms = none;
  terminal_at = 70;
}

abbrev late_close : ProxyJobClose
late_close = record a_close { outcome = failed; status_raw = codes "FAILED"; terminal_at = 90 }

close_runpod_proxy_job_once_example :
    let closed = (close_runpod_proxy_job two_jobs a_close).0 in
    close_runpod_proxy_job closed late_close ≡ (closed, 0)
close_runpod_proxy_job_once_example = close_runpod_proxy_job_once two_jobs a_close late_close refl

-- RunPod says nothing of a second open job, and no longer knows the first.
abbrev mixed : JobRow → Answer
mixed job = if job.job_id == codes "j1" then answer 404 none else no_answer

abbrev three_jobs : List JobRow
three_jobs = record open_job { job_id = codes "j3" } ∷ two_jobs

three_unique : (x : Text) → count (has_job x) three_jobs ≤ 1
three_unique x =
    let a : text_beq (codes "j1") (codes "j2") ≡ false = (unfold text_beq in refl) in
    let b : text_beq (codes "j3") (codes "j1") ≡ false = (unfold text_beq in refl) in
    let c : text_beq (codes "j3") (codes "j2") ≡ false = (unfold text_beq in refl) in
    ground (
      arith,
      text_beq_iff (codes "j1") x,
      text_beq_iff (codes "j2") x,
      text_beq_iff (codes "j3") x,
      text_beq_iff (codes "j1") (codes "j2"),
      text_beq_iff (codes "j3") (codes "j1"),
      text_beq_iff (codes "j3") (codes "j2"),
    )

sweep_open_counts_example :
    let before = 3000000 - reconciler_adopt_after_ms in
    let rows = list_open_runpod_proxy_jobs three_jobs before sweep_max_rows_per_run in
    let r = (sweep_open mixed 3000000 three_jobs).1 in
    (r.ran ≡ true)
    × (r.eligible ≡ count_open_runpod_proxy_jobs three_jobs before)
    × (r.examined ≡ length rows)
    × (r.examined ≤ r.eligible)
    × (r.examined ≤ sweep_max_rows_per_run)
    × (r.closed ≡ count (λ job. says_ended (mixed job)) rows)
    × (r.unknown ≡ count (λ job. is_lost 3000000 job (mixed job)) rows)
    × (r.still_running ≡ count (λ job. says_running (mixed job)) rows)
    × (r.errors ≡ count (λ job. is_unclear 3000000 job (mixed job)) rows)
    × (outcomes r ≡ r.examined)
    × (count is_open (sweep_open mixed 3000000 three_jobs).0 + r.closed + r.unknown
        ≡ count is_open three_jobs)
sweep_open_counts_example = sweep_open_counts mixed 3000000 three_jobs three_unique

mixed_counts :
    let r = (sweep_open mixed 3000000 three_jobs).1 in
    (r.closed ≡ 0) × (r.unknown ≡ 1) × (r.still_running ≡ 0) × (r.errors ≡ 1)
unfolding sweep_open list_open_runpod_proxy_jobs count_open_runpod_proxy_jobs probe_job text_beq
    close_runpod_proxy_job
mixed_counts = (refl, refl, refl, refl)

-- RunPod fails for the job.
abbrev failing : JobRow → Answer
failing job = answer 503 none

failing-unsettled :
    All
      (λ job. unsettled 3000000 job (failing job) ≡ true)
      (list_open_runpod_proxy_jobs two_jobs
        (3000000 - reconciler_adopt_after_ms)
        sweep_max_rows_per_run)
unfolding list_open_runpod_proxy_jobs text_beq
failing-unsettled = (refl, tt)

sweep_open-unsettled_example :
    let s = sweep_open failing 3000000 two_jobs in
    (s.0 ≡ two_jobs)
    × (s.1.closed ≡ 0)
    × (s.1.unknown ≡ 0)
    × (s.1.still_running + s.1.errors
        ≡ length (
            list_open_runpod_proxy_jobs two_jobs
              (3000000 - reconciler_adopt_after_ms)
              sweep_max_rows_per_run))
sweep_open-unsettled_example = sweep_open-unsettled failing 3000000 two_jobs failing-unsettled

abbrev vanished : JobRow → Answer
vanished job = answer 404 none

sweep_open_keeps_example :
    find? (has_job (codes "j2")) (sweep_open vanished 3000000 two_jobs).0 ≡ some done_job
unfolding text_beq
sweep_open_keeps_example =
    sweep_open_keeps vanished 3000000 two_jobs (codes "j2") done_job refl refl
