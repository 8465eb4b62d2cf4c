-- ===== src/RunpodProxy/Sweep/Leaves.antt =====
-- What a sweep leaves open.
use vivijure_control_plane.Prelude.{
  ℕ, ◌+◌, ◌&&◌, ◌-◌, ◌≡◌, ◌∙◌, refl, inl, inr, Bool, true, false, not, some, List, [], ◌∷◌, arith,
  find?, is_some, All, nat_eq, Bool-cases, length,
}
use vivijure_control_plane.Prelude.Text.{Text, text_eq}
use vivijure_control_plane.RunpodProxy.{
  JobRow, ProxyJobClose, has_job, is_unclosed, update_jobs, closed_job, close_runpod_proxy_job,
  list_open_runpod_proxy_jobs, count_open_runpod_proxy_jobs,
}
use vivijure_control_plane.RunpodProxy.Sweep.Answers.{says_ended, is_lost}
use vivijure_control_plane.RunpodProxy.Sweep.Step.{sweep_probed-asked}
use vivijure_control_plane.RunpodProxy.Sweep.{
  Answer, Probe, terminal, running, gone, probe_error, probe_job, JobSweepResult, sweep_probed,
  sweep_rows, sweep_open, past_horizon, close_of, close_unknown, sweep_max_rows_per_run,
  reconciler_adopt_after_ms, started,
}

-- The answer settles nothing: no ended state, and no job that is missing and too old to be kept.
abbrev pub unsettled : ℕ → JobRow → Answer → Bool
unsettled now job a = not (says_ended a) && not (is_lost now job a)

sweep_rows-unsettled :
    (ask : JobRow → Answer) (now : ℕ) (jobs : List JobRow) (r : JobSweepResult) (rows : List JobRow)
    → All (λ job. unsettled now job (ask job) ≡ true) rows
    → let s = sweep_rows ask now jobs r rows in
      (s.0 ≡ jobs)
      × (s.1.closed ≡ r.closed)
      × (s.1.unknown ≡ r.unknown)
      × (s.1.still_running + s.1.errors ≡ r.still_running + r.errors + length rows)
unfolding sweep_rows
sweep_rows-unsettled ask now jobs r [] h = (refl, refl, refl, omega arith)
sweep_rows-unsettled ask now jobs r (job ∷ rest) (h, hs) =
    let s = sweep_probed now jobs r job (probe_job ask job) in
    let w = sweep_probed-asked ask now jobs r job in
    let ended : says_ended (ask job) ≡ false = ground arith in
    let lost : is_lost now job (ask job) ≡ false = ground arith in
    let (x, y, z, n) = sweep_rows-unsettled ask now s.0 s.1 rest hs in
    (
      x ∙ w.left.kept ended lost,
      y ∙ ground (arith, w.closed),
      z ∙ ground (arith, w.unknown),
      ground (arith, w.still_running, w.errors, w.one_count),
    )

-- A sweep changes no row and reports none closed and none unknown, but every job that it examines as
-- still running or an error, where no answer tells of an end. That is: for each examined job RunPod
-- gives no answer; or a status that is neither a success nor 404; or a success whose body is unreadable
-- or names no ended state; or 404 for a job that was submitted at most thirty minutes ago, or at no
-- known time.
pub sweep_open-unsettled :
    (ask : JobRow → Answer) (now : ℕ) (jobs : List JobRow)
    → All
        (λ job. unsettled now job (ask job) ≡ true)
        (list_open_runpod_proxy_jobs jobs (now - reconciler_adopt_after_ms) sweep_max_rows_per_run)
    → let s = sweep_open ask now jobs in
      (s.0 ≡ jobs)
      × (s.1.closed ≡ 0)
      × (s.1.unknown ≡ 0)
      × (s.1.still_running + s.1.errors
          ≡ length (
              list_open_runpod_proxy_jobs jobs
                (now - reconciler_adopt_after_ms)
                sweep_max_rows_per_run))
unfolding sweep_open
sweep_open-unsettled ask now jobs h =
    let before = now - reconciler_adopt_after_ms in
    let rows = list_open_runpod_proxy_jobs jobs before sweep_max_rows_per_run in
    let (same, closed, unknown, rest) =
      sweep_rows-unsettled ask now jobs
        (started (count_open_runpod_proxy_jobs jobs before) (length rows)) rows h in
    (same, closed, unknown, omega (arith, rest))

close_keeps :
    (x : Text) (c : ProxyJobClose) (r : JobRow)
    → is_some r.terminal_at ≡ true
    → (rs : List JobRow) → find? (has_job x) rs ≡ some r
    → find? (has_job x) (update_jobs (is_unclosed c.job_id) (closed_job c) rs) ≡ some r
unfolding update_jobs closed_job
close_keeps x c r t [] h = absurd (ground arith)
close_keeps x c r t (q ∷ rs) h = ground (arith, close_keeps x c r t rs)

sweep_probed-keeps :
    (now : ℕ) (jobs : List JobRow) (res : JobSweepResult) (job : JobRow) (p : Probe) (x : Text)
    (r : JobRow)
    → is_some r.terminal_at ≡ true
    → find? (has_job x) jobs ≡ some r
    → find? (has_job x) (sweep_probed now jobs res job p).0 ≡ some r
unfolding sweep_probed close_runpod_proxy_job
sweep_probed-keeps now jobs res job probe_error x r t h = h
sweep_probed-keeps now jobs res job running x r t h = h
sweep_probed-keeps now jobs res job (terminal f) x r t h = close_keeps x (close_of f now) r t jobs h
sweep_probed-keeps now jobs res job gone x r t h =
    elim (Bool-cases (past_horizon now job.submitted_at)) [
      | inl past ↦ rw past (close_keeps x (close_unknown job.job_id now) r t jobs h)
      | inr young ↦ rw young h
    ]

sweep_rows-keeps :
    (ask : JobRow → Answer) (now : ℕ) (jobs : List JobRow) (res : JobSweepResult)
    (rows : List JobRow) (x : Text) (r : JobRow)
    → is_some r.terminal_at ≡ true
    → find? (has_job x) jobs ≡ some r
    → find? (has_job x) (sweep_rows ask now jobs res rows).0 ≡ some r
unfolding sweep_rows
sweep_rows-keeps ask now jobs res [] x r t h = h
sweep_rows-keeps ask now jobs res (job ∷ rest) x r t h =
    let s = sweep_probed now jobs res job (probe_job ask job) in
    sweep_rows-keeps ask now s.0 s.1 rest x r t
      (sweep_probed-keeps now jobs res job (probe_job ask job) x r t h)

-- A sweep leaves a row that is already terminal as it is, whatever RunPod answers.
pub sweep_open_keeps :
    (ask : JobRow → Answer) (now : ℕ) (jobs : List JobRow) (x : Text) (r : JobRow)
    → is_some r.terminal_at ≡ true
    → find? (has_job x) jobs ≡ some r
    → find? (has_job x) (sweep_open ask now jobs).0 ≡ some r
unfolding sweep_open
sweep_open_keeps ask now jobs x r t h =
    let before = now - reconciler_adopt_after_ms in
    let rows = list_open_runpod_proxy_jobs jobs before sweep_max_rows_per_run in
    sweep_rows-keeps ask now jobs (started (count_open_runpod_proxy_jobs jobs before) (length rows))
      rows x r t h
