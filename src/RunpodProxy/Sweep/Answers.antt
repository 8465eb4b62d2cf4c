-- ===== src/RunpodProxy/Sweep/Answers.antt =====
-- What RunPod's answer says of a job, read off the status and the body alone, beside what the probe of
-- src/runpod-job-sweep.ts makes of it.
use vivijure_control_plane.Prelude.{
  ℕ, ◌-◌, ◌/◌, ◌≡◌, refl, sym, subst, Bool, true, false, not, ◌&&◌, Option, none, some, List, [],
  ◌∷◌, arith, ltb, leb, any, is_some, ◌==◌, nat_eq, Bool-cases, Option-cases, inl, inr,
}
use vivijure_control_plane.Prelude.Text.{Text, codes, text_eq}
use vivijure_control_plane.RunpodProxy.{
  JobRow, StatusBody, TerminalFacts, status_text, outcome_for_status, terminal_facts_from_status,
  num,
}
use vivijure_control_plane.RunpodProxy.Sweep.{
  Answer, no_answer, answer, Probe, terminal, running, gone, probe_error, probe_job, of_body,
  past_horizon,
}

-- The states of RunPod in which a job has ended.
abbrev pub ended_names : List Text
ended_names = codes "COMPLETED" ∷ codes "FAILED" ∷ codes "CANCELLED" ∷ codes "TIMED_OUT" ∷ []

-- A status of two hundred and something.
abbrev pub is_success : ℕ → Bool
is_success status = status / 100 == 2

abbrev pub body_ended : Option (Option StatusBody) → Bool
body_ended (some (some body)) = any (λ name. status_text body.status == name) ended_names
body_ended (some none) = false
body_ended none = false

-- A success whose body names an ended state.
abbrev pub says_ended : Answer → Bool
says_ended no_answer = false
says_ended (answer status body) = is_success status && body_ended body

-- A success whose body is read and names no ended state.
abbrev pub says_running : Answer → Bool
says_running no_answer = false
says_running (answer status body) = is_success status && (is_some body && not (body_ended body))

abbrev pub says_missing : Answer → Bool
says_missing no_answer = false
says_missing (answer status body) = status == 404

-- Submitted more than thirty minutes ago.
abbrev pub is_old : ℕ → Option ℕ → Bool
is_old now none = false
is_old now (some at) = ltb 1800000 (now - at)

-- RunPod does not know the job, which is too old for it to keep.
abbrev pub is_lost : ℕ → JobRow → Answer → Bool
is_lost now job a = says_missing a && is_old now job.submitted_at

-- Anything else: no answer, an error status, an unreadable body, a young job that is missing.
abbrev pub is_unclear : ℕ → JobRow → Answer → Bool
is_unclear now job a = not (says_ended a) && (not (says_running a) && not (is_lost now job a))

-- What an answer says, by what the probe makes of it.
abbrev pub Fits : Text → Answer → Probe → Type 0
Fits job a (terminal f) =
    (f.job_id ≡ job) × (says_ended a ≡ true) × (says_running a ≡ false) × (says_missing a ≡ false)
Fits job a running = (says_ended a ≡ false) × (says_running a ≡ true) × (says_missing a ≡ false)
Fits job a gone = (says_ended a ≡ false) × (says_running a ≡ false) × (says_missing a ≡ true)
Fits job a probe_error =
    (says_ended a ≡ false) × (says_running a ≡ false) × (says_missing a ≡ false)

is_success_lem : (s : ℕ) → is_success s ≡ leb 200 s && leb s 299
is_success_lem s = ground arith

pub is_old_lem : (now : ℕ) (at : Option ℕ) → past_horizon now at ≡ is_old now at
is_old_lem now none = refl
is_old_lem now (some at) = ground arith

ended_lem : (t : Text) → is_some (outcome_for_status t) ≡ any (λ name. t == name) ended_names
unfolding outcome_for_status
ended_lem t = ground arith

body-Fits :
    (job : Text) (status : ℕ) (body : Option (Option StatusBody))
    → (status == 404) ≡ false
    → is_success status ≡ true
    → Fits job (answer status body) (of_body job body)
unfolding terminal_facts_from_status
body-Fits job status none n s = (ground arith, ground arith, n)
body-Fits job status (some none) n s = (ground arith, ground arith, n)
body-Fits job status (some (some body)) n s =
    let a = answer status (some (some body)) in
    let e = ended_lem (status_text body.status) in
    elim (Option-cases (outcome_for_status (status_text body.status))) [
      | inl none_named ↦
          let p : of_body job (some (some body)) ≡ running = ground arith in
          subst (λ q. Fits job a q) (sym p) (ground arith, ground arith, n)
      | inr (o, named) ↦
          let f : TerminalFacts = record {
            job_id = job;
            status_raw = status_text body.status;
            outcome = o;
            execution_ms = num body.execution_time;
            delay_ms = num body.delay_time;
          } in
          let p : of_body job (some (some body)) ≡ terminal f = ground arith in
          subst (λ q. Fits job a q) (sym p) (refl, ground arith, ground arith, n)
    ]

pub probe_job-Fits :
    (ask : JobRow → Answer) (job : JobRow) → Fits job.job_id (ask job) (probe_job ask job)
unfolding probe_job
probe_job-Fits ask job = go (ask job)
  where
    go : (a : Answer) → Fits job.job_id a (probe_job (λ j. a) job)
    go no_answer = (refl, refl, refl)
    go (answer status body) = elim (Bool-cases (status == 404)) [
      | inl missing ↦
          let bad : is_success status ≡ false = ground arith in
          rw missing (ground arith, ground arith, missing)
      | inr other ↦ elim (Bool-cases (is_success status)) [
        | inl fine ↦
            let e : (leb 200 status && leb status 299) ≡ true =
              ground (arith, is_success_lem status) in
            rw (other, e) (body-Fits job.job_id status body other fine)
        | inr bad ↦
            let e : (leb 200 status && leb status 299) ≡ false =
              ground (arith, is_success_lem status) in
            rw (other, e) (ground arith, ground arith, other)
      ]
    ]
