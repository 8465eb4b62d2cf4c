-- ===== src/RunpodProxy/Sweep/Picked.antt =====
-- The jobs that a sweep picks: how many they are, and that each is open in one row until its turn.
use vivijure_control_plane.Prelude.{
  ℕ, ◌≤◌, ◌≡◌, refl, subst, Bool, List, [], ◌∷◌, arith, length, take, filter, count, length-filter,
  length-take-le, suc, zero, ◌==◌, nat_eq, Bool-cases, inl, inr,
}
use vivijure_control_plane.Prelude.Text.{Text, text_eq, text_beq_iff, text_beq_refl}
use vivijure_control_plane.RunpodProxy.{
  JobRow, has_job, is_unclosed, sort_jobs, insert_job, list_open_runpod_proxy_jobs,
  count_open_runpod_proxy_jobs, is_sweepable,
}
use vivijure_control_plane.RunpodProxy.Sweep.{Answer, JobSweepResult}
use vivijure_control_plane.RunpodProxy.Sweep.Step.{Swept}

length-insert_job : (r : JobRow) (rs : List JobRow) → length (insert_job r rs) ≡ suc (length rs)
unfolding insert_job
length-insert_job r [] = refl
length-insert_job r (q ∷ rs) = ground (arith, length-insert_job r rs)

length-sort_jobs : (rs : List JobRow) → length (sort_jobs rs) ≡ length rs
unfolding sort_jobs
length-sort_jobs [] = refl
length-sort_jobs (r ∷ rs) = omega (arith, length-insert_job r (sort_jobs rs), length-sort_jobs rs)

length-take-within {ℓ} : {A : Type ℓ} (n : ℕ) (xs : List A) → length (take n xs) ≤ length xs
length-take-within zero xs = omega arith
length-take-within (suc n) [] = omega arith
length-take-within (suc n) (x ∷ xs) = omega (arith, length-take-within n xs)

pub length-list_open_runpod_proxy_jobs :
    (jobs : List JobRow) (before limit : ℕ)
    → let n = length (list_open_runpod_proxy_jobs jobs before limit) in
      (n ≤ count_open_runpod_proxy_jobs jobs before) × (n ≤ limit)
unfolding list_open_runpod_proxy_jobs count_open_runpod_proxy_jobs
length-list_open_runpod_proxy_jobs jobs before limit =
    let found = filter (is_sweepable before) jobs in
    (
      omega (
        arith,
        length-take-within limit (sort_jobs found),
        length-sort_jobs found,
        length-filter (is_sweepable before) jobs,
      ),
      length-take-le limit (sort_jobs found),
    )

-- The rows still to examine are open in the table, and no two rows of it have one id.
pub record Tracks (jobs rest : List JobRow) : Type 0 where
  pub present : (x : Text) → count (has_job x) rest ≤ count (is_unclosed x) jobs
  pub single : (x : Text) → count (has_job x) jobs ≤ 1

count-is_unclosed-le :
    (x : Text) (jobs : List JobRow) → count (is_unclosed x) jobs ≤ count (has_job x) jobs
count-is_unclosed-le x [] = omega arith
count-is_unclosed-le x (r ∷ rs) = ground (arith, count-is_unclosed-le x rs)

module _ {jobs rest : List JobRow} {job : JobRow} (t : Tracks jobs (job ∷ rest)) where
  -- The job that is next is open in exactly one row.
  pub next_once : (count (is_unclosed job.job_id) jobs ≡ 1) × (count (has_job job.job_id) rest ≡ 0)
  next_once =
      let own = text_beq_refl job.job_id in
      let a = t.present job.job_id in
      let b = t.single job.job_id in
      let c = count-is_unclosed-le job.job_id jobs in (ground arith, ground arith)

  pub next-Tracks :
      {now : ℕ} {r : JobSweepResult} {a : Answer} {s : List JobRow × JobSweepResult}
      → Swept now jobs r job a s
      → Tracks s.0 rest
  next-Tracks {now} {r} {a} {s} w = record {
    present = λ x. elim (Bool-cases (job.job_id == x)) [
      | inl same ↦
          let e : job.job_id ≡ x = (text_beq_iff job.job_id x).0 same in
          let none_left = subst (λ y. count (has_job y) rest ≡ 0) e next_once.1 in omega arith
      | inr other ↦ let p = t.present x in let q = w.left.others x other in ground arith
    ];
    single = λ x. omega (arith, w.left.ids x, t.single x);
  }

count-insert_job :
    (p : JobRow → Bool) (r : JobRow) (rs : List JobRow)
    → count p (insert_job r rs) ≡ count p (r ∷ rs)
unfolding insert_job
count-insert_job p r [] = refl
count-insert_job p r (q ∷ rs) = ground (arith, count-insert_job p r rs)

count-sort_jobs : (p : JobRow → Bool) (rs : List JobRow) → count p (sort_jobs rs) ≡ count p rs
unfolding sort_jobs
count-sort_jobs p [] = refl
count-sort_jobs p (r ∷ rs) =
    ground (arith, count-insert_job p r (sort_jobs rs), count-sort_jobs p rs)

count-take-le : (p : JobRow → Bool) (n : ℕ) (rs : List JobRow) → count p (take n rs) ≤ count p rs
count-take-le p zero rs = omega arith
count-take-le p (suc n) [] = omega arith
count-take-le p (suc n) (r ∷ rs) = ground (arith, count-take-le p n rs)

-- What the sweep's read finds is open.
count-filter-is_sweepable :
    (x : Text) (before : ℕ) (jobs : List JobRow)
    → count (has_job x) (filter (is_sweepable before) jobs) ≤ count (is_unclosed x) jobs
count-filter-is_sweepable x before [] = omega arith
count-filter-is_sweepable x before (r ∷ rs) = ground (arith, count-filter-is_sweepable x before rs)

pub list_open_runpod_proxy_jobs-Tracks :
    (jobs : List JobRow) (before limit : ℕ)
    → ((x : Text) → count (has_job x) jobs ≤ 1)
    → Tracks jobs (list_open_runpod_proxy_jobs jobs before limit)
unfolding list_open_runpod_proxy_jobs
list_open_runpod_proxy_jobs-Tracks jobs before limit unique =
    let found = filter (is_sweepable before) jobs in
    record {
      present = λ x. omega (
        arith,
        count-take-le (has_job x) limit (sort_jobs found),
        count-sort_jobs (has_job x) found,
        count-filter-is_sweepable x before jobs,
      );
      single = unique;
    }
