-- ===== src/RunpodProxy/Sweep.antt =====
-- One sweep of the open jobs: src/runpod-job-sweep.ts. What RunPod answers for a job is given; the
-- log lines are not modelled.
pub mod Report
pub mod Leaves
pub mod Answers
pub mod Step
pub mod Picked
use vivijure_control_plane.Prelude.{
  ℕ, ◌+◌, ◌-◌, ◌*◌, Bool, true, false, not, ◌&&◌, Option, none, some, List, [], ◌∷◌, leb, ltb,
  length, ◌==◌, nat_eq, if◌then◌else◌, Result, ok, err, ◌++◌,
}
use vivijure_control_plane.Prelude.Text.{Text, codes, is_empty}
use vivijure_control_plane.RunpodProxy.{
  JobRow, StatusBody, TerminalFacts, ProxyJobClose, terminal_facts_from_status,
  close_runpod_proxy_job, list_open_runpod_proxy_jobs, count_open_runpod_proxy_jobs, unknown,
}

abbrev pub sweep_max_rows_per_run : ℕ
sweep_max_rows_per_run = 50

abbrev pub reconciler_adopt_after_ms : ℕ
reconciler_adopt_after_ms = 5 * 60000

abbrev pub observed_result_retention_ms : ℕ
observed_result_retention_ms = 30 * 60000

-- What asking RunPod for the status of a job gives: no answer, or a status with a body, which may
-- be unreadable, or may be no object.
pub data Answer : Type 0 where
  no_answer : Answer
  answer : ℕ → Option (Option StatusBody) → Answer

pub data Probe : Type 0 where
  terminal : TerminalFacts → Probe
  running gone probe_error : Probe

abbrev pub of_facts : Option TerminalFacts → Probe
of_facts none = running
of_facts (some facts) = terminal facts

abbrev pub of_body : Text → Option (Option StatusBody) → Probe
of_body job none = probe_error
of_body job (some body) = of_facts (terminal_facts_from_status job body)

-- `resp.ok` is a status from 200 to 299.
unfoldable pub probe_job : (JobRow → Answer) → JobRow → Probe
probe_job ask job = elim (ask job) [
  | no_answer ↦ probe_error
  | answer status body ↦
      if status == 404
      then gone
      else if leb 200 status && leb status 299
      then of_body job.job_id body
      else probe_error
]

pub record JobSweepResult : Type 0 where
  pub ran : Bool
  pub reason : Option Text
  pub eligible : ℕ
  pub examined : ℕ
  pub closed : ℕ
  pub unknown : ℕ
  pub still_running : ℕ
  pub errors : ℕ

-- `now - submitted_at > OBSERVED_RESULT_RETENTION_MS`, over the integers.
abbrev pub past_horizon : ℕ → Option ℕ → Bool
past_horizon now none = false
past_horizon now (some at) = ltb (at + observed_result_retention_ms) now

abbrev pub close_of : TerminalFacts → ℕ → ProxyJobClose
close_of f now = record {
  job_id = f.job_id;
  outcome = f.outcome;
  status_raw = f.status_raw;
  execution_ms = f.execution_ms;
  delay_ms = f.delay_ms;
  terminal_at = now;
}

abbrev pub close_unknown : Text → ℕ → ProxyJobClose
close_unknown job now = record {
  job_id = job;
  outcome = unknown;
  status_raw = [];
  execution_ms = none;
  delay_ms = none;
  terminal_at = now;
}

abbrev pub one_if : Bool → ℕ
one_if true = 1
one_if false = 0

-- The body of the loop for one job, after its probe.
unfoldable pub sweep_probed :
    ℕ → List JobRow → JobSweepResult → JobRow → Probe → List JobRow × JobSweepResult
sweep_probed now jobs r job probe_error = (jobs, record r { errors = r.errors + 1 })
sweep_probed now jobs r job running = (jobs, record r { still_running = r.still_running + 1 })
sweep_probed now jobs r job (terminal facts) =
    let (jobs', changes) = close_runpod_proxy_job jobs (close_of facts now) in
    (jobs', record r { closed = r.closed + one_if (changes == 1) })
sweep_probed now jobs r job gone =
    if not (past_horizon now job.submitted_at)
    then (jobs, record r { errors = r.errors + 1 })
    else (let (jobs', changes) = close_runpod_proxy_job jobs (close_unknown job.job_id now) in
        (jobs', record r { unknown = r.unknown + one_if (changes == 1) }))

unfoldable pub sweep_rows :
    (JobRow → Answer)
    → ℕ
    → List JobRow
    → JobSweepResult
    → List JobRow
    → List JobRow × JobSweepResult
unfolding sweep_probed
sweep_rows ask now jobs r [] = (jobs, r)
sweep_rows ask now jobs r (job ∷ rest) =
    let s = sweep_probed now jobs r job (probe_job ask job) in sweep_rows ask now s.0 s.1 rest

abbrev pub not_run : Text → JobSweepResult
not_run reason = record {
  ran = false;
  reason = some reason;
  eligible = 0;
  examined = 0;
  closed = 0;
  unknown = 0;
  still_running = 0;
  errors = 0;
}

abbrev pub started : ℕ → ℕ → JobSweepResult
started eligible examined = record {
  ran = true;
  reason = none;
  eligible = eligible;
  examined = examined;
  closed = 0;
  unknown = 0;
  still_running = 0;
  errors = 0;
}

-- The sweep once it has a key; `now` is not before the adopt delay.
unfoldable pub sweep_open : (JobRow → Answer) → ℕ → List JobRow → List JobRow × JobSweepResult
unfolding sweep_rows
sweep_open ask now jobs =
    let before = now - reconciler_adopt_after_ms in
    let rows = list_open_runpod_proxy_jobs jobs before sweep_max_rows_per_run in
    sweep_rows ask now jobs (started (count_open_runpod_proxy_jobs jobs before) (length rows)) rows

-- `runRunpodJobSweep`; the key is what `runpodApiKey` answers, or the text of what it throws.
unfoldable pub run_runpod_job_sweep :
    (JobRow → Answer) → Result Text Text → ℕ → List JobRow → List JobRow × JobSweepResult
unfolding sweep_open
run_runpod_job_sweep ask (err thrown) now jobs =
    (jobs, not_run (codes "credential_unavailable: " ++ thrown))
run_runpod_job_sweep ask (ok key) now jobs =
    if is_empty key
    then (jobs, not_run (codes "credential_unavailable"))
    else sweep_open ask now jobs
