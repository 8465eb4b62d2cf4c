-- ===== src/RunpodProxy/Sweep/Step.antt =====
-- What one turn of the sweep's loop does, by what RunPod answered.
use vivijure_control_plane.Prelude.{
  ℕ, ◌+◌, ◌≡◌, refl, ap, Bool, true, false, not, ◌&&◌, ◌||◌, List, [], ◌∷◌, arith, count, is_some,
  ◌==◌, nat_eq, Bool-cases, inl, inr, if◌then◌else◌,
}
use vivijure_control_plane.Prelude.Text.{Text, text_eq, text_beq_iff}
use vivijure_control_plane.RunpodProxy.{
  JobRow, ProxyJobClose, has_job, is_unclosed, update_jobs, closed_job, close_runpod_proxy_job,
}
use vivijure_control_plane.RunpodProxy.Sweep.{
  Answer, Probe, terminal, running, gone, probe_error, probe_job, JobSweepResult, sweep_probed,
  past_horizon, close_of, close_unknown, one_if,
}
use vivijure_control_plane.RunpodProxy.Sweep.Answers.{
  says_ended, says_running, says_missing, is_old, is_old_lem, is_lost, is_unclear, Fits,
  probe_job-Fits,
}

closed_rows : List JobRow → ProxyJobClose → List JobRow
closed_rows jobs c = update_jobs (is_unclosed c.job_id) (closed_job c) jobs

-- A close touches no other job, and no job's id.
closed_rows_others :
    (x : Text) (c : ProxyJobClose)
    → (c.job_id == x) ≡ false
    → (jobs : List JobRow) → count (is_unclosed x) (closed_rows jobs c) ≡ count (is_unclosed x) jobs
unfolding closed_rows update_jobs closed_job
closed_rows_others x c h [] = refl
closed_rows_others x c h (r ∷ rs) = elim (Bool-cases (is_unclosed c.job_id r)) [
  | inl hit ↦
      let same : r.job_id ≡ c.job_id = (text_beq_iff r.job_id c.job_id).0 (ground arith) in
      let miss : has_job x r ≡ false = rw same h in ground (arith, closed_rows_others x c h rs)
  | inr miss ↦ ground (arith, closed_rows_others x c h rs)
]

closed_rows_ids :
    (x : Text) (c : ProxyJobClose) (jobs : List JobRow)
    → count (has_job x) (closed_rows jobs c) ≡ count (has_job x) jobs
unfolding closed_rows update_jobs closed_job
closed_rows_ids x c [] = refl
closed_rows_ids x c (r ∷ rs) = ground (arith, closed_rows_ids x c rs)

abbrev pub is_open : JobRow → Bool
is_open r = not (is_some r.terminal_at)

-- A close makes the rows that it meets terminal, and no others.
closed_rows_open :
    (c : ProxyJobClose) (jobs : List JobRow)
    → count is_open (closed_rows jobs c) + count (is_unclosed c.job_id) jobs ≡ count is_open jobs
unfolding closed_rows update_jobs closed_job
closed_rows_open c [] = refl
closed_rows_open c (r ∷ rs) = ground (arith, closed_rows_open c rs)

-- The rows that the turn for a job leaves, where RunPod said `a` of it.
pub record Leaves (now : ℕ) (jobs : List JobRow) (job : JobRow) (a : Answer) (left : List JobRow)
    : Type 0 where
  pub others :
      (x : Text)
      → (job.job_id == x) ≡ false
      → count (is_unclosed x) left ≡ count (is_unclosed x) jobs
  pub ids : (x : Text) → count (has_job x) left ≡ count (has_job x) jobs
  pub opened :
      count is_open left
        + (if says_ended a || is_lost now job a then count (is_unclosed job.job_id) jobs else 0)
      ≡ count is_open jobs
  pub kept : says_ended a ≡ false → is_lost now job a ≡ false → left ≡ jobs

-- The turn: the four counts, and the rows.
pub record Swept (now : ℕ) (jobs : List JobRow) (r : JobSweepResult) (job : JobRow) (a : Answer)
    (s : List JobRow × JobSweepResult) : Type 0 where
  pub ran : s.1.ran ≡ r.ran
  pub eligible : s.1.eligible ≡ r.eligible
  pub examined : s.1.examined ≡ r.examined
  pub still_running : s.1.still_running ≡ r.still_running + one_if (says_running a)
  pub errors : s.1.errors ≡ r.errors + one_if (is_unclear now job a)
  pub closed :
      s.1.closed ≡ r.closed + one_if (says_ended a && count (is_unclosed job.job_id) jobs == 1)
  pub unknown :
      s.1.unknown
      ≡ r.unknown + one_if (is_lost now job a && count (is_unclosed job.job_id) jobs == 1)
  pub one_count :
      one_if (says_ended a)
        + one_if (says_running a)
        + one_if (is_lost now job a)
        + one_if (is_unclear now job a)
      ≡ 1
  pub left : Leaves now jobs job a s.0

module _ (now : ℕ) (jobs : List JobRow) (job : JobRow) (a : Answer) where
  idle-Leaves : says_ended a ≡ false → is_lost now job a ≡ false → Leaves now jobs job a jobs
  idle-Leaves e l = record {
    others = λ x h. refl;
    ids = λ x. refl;
    opened = ground arith;
    kept = λ u v. refl;
  }

  close-Leaves :
      (c : ProxyJobClose)
      → c.job_id ≡ job.job_id
      → (says_ended a || is_lost now job a) ≡ true
      → Leaves now jobs job a (closed_rows jobs c)
  close-Leaves c same settled =
      let hits : count (is_unclosed c.job_id) jobs ≡ count (is_unclosed job.job_id) jobs =
        ap (λ x. count (is_unclosed x) jobs) same in
      record {
        others = λ x h. closed_rows_others x c (rw same h) jobs;
        ids = λ x. closed_rows_ids x c jobs;
        opened = ground (arith, closed_rows_open c jobs);
        kept = λ u v. absurd (ground arith);
      }

  gone-Swept :
      (r : JobSweepResult)
      → (says_ended a ≡ false) × (says_running a ≡ false) × (says_missing a ≡ true)
      → Swept now jobs r job a (sweep_probed now jobs r job gone)
  unfolding sweep_probed close_runpod_proxy_job closed_rows
  gone-Swept r (e, s, m) =
      let agree = is_old_lem now job.submitted_at in
      elim (Bool-cases (past_horizon now job.submitted_at)) [
        | inl past ↦
            let old : is_old now job.submitted_at ≡ true = ground arith in
            rw past (record {
              ran = refl;
              eligible = refl;
              examined = refl;
              still_running = ground arith;
              errors = ground arith;
              closed = ground arith;
              unknown = ground arith;
              one_count = ground arith;
              left = close-Leaves (close_unknown job.job_id now) refl (ground arith);
            })
        | inr recent ↦
            let young : is_old now job.submitted_at ≡ false = ground arith in
            rw recent (record {
              ran = refl;
              eligible = refl;
              examined = refl;
              still_running = ground arith;
              errors = ground arith;
              closed = ground arith;
              unknown = ground arith;
              one_count = ground arith;
              left = idle-Leaves e (ground arith);
            })
      ]

  sweep_probed-Swept :
      (r : JobSweepResult) (p : Probe)
      → Fits job.job_id a p
      → Swept now jobs r job a (sweep_probed now jobs r job p)
  unfolding sweep_probed close_runpod_proxy_job closed_rows
  sweep_probed-Swept r probe_error (e, s, m) = record {
    ran = refl;
    eligible = refl;
    examined = refl;
    still_running = ground arith;
    errors = ground arith;
    closed = ground arith;
    unknown = ground arith;
    one_count = ground arith;
    left = idle-Leaves e (ground arith);
  }
  sweep_probed-Swept r running (e, s, m) = record {
    ran = refl;
    eligible = refl;
    examined = refl;
    still_running = ground arith;
    errors = ground arith;
    closed = ground arith;
    unknown = ground arith;
    one_count = ground arith;
    left = idle-Leaves e (ground arith);
  }
  sweep_probed-Swept r (terminal f) (same, e, s, m) =
      let hits : count (is_unclosed f.job_id) jobs ≡ count (is_unclosed job.job_id) jobs =
        ap (λ x. count (is_unclosed x) jobs) same in
      record {
        ran = refl;
        eligible = refl;
        examined = refl;
        still_running = ground arith;
        errors = ground arith;
        closed = ground arith;
        unknown = ground arith;
        one_count = ground arith;
        left = close-Leaves (close_of f now) same (ground arith);
      }
  sweep_probed-Swept r gone fits = gone-Swept r fits

pub sweep_probed-asked :
    (ask : JobRow → Answer) (now : ℕ) (jobs : List JobRow) (r : JobSweepResult) (job : JobRow)
    → Swept now jobs r job (ask job) (sweep_probed now jobs r job (probe_job ask job))
sweep_probed-asked ask now jobs r job =
    sweep_probed-Swept now jobs job (ask job) r (probe_job ask job) (probe_job-Fits ask job)
