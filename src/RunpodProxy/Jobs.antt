-- ===== src/RunpodProxy/Jobs.antt =====
-- The first terminal write of a job stands.
use vivijure_control_plane.Prelude.{
  ℕ, ◌≡◌, ap₂, refl, Bool, true, false, some, List, [], ◌∷◌, arith, any, find?, count, nat_eq,
  if◌then◌else◌, find?-append_some,
}
use vivijure_control_plane.Prelude.Text.{Text, text_eq}
use vivijure_control_plane.RunpodProxy.{
  JobRow, ProxyJobOpen, ProxyJobClose, has_job, is_unclosed, update_jobs, closed_job, reopened_job,
  inserted_job, open_runpod_proxy_job, close_runpod_proxy_job,
}

none_unclosed :
    (x y : Text) (c : ProxyJobClose)
    → x ≡ y
    → (rs : List JobRow) → count (is_unclosed y) (update_jobs (is_unclosed x) (closed_job c) rs) ≡ 0
unfolding update_jobs closed_job
none_unclosed x y c e [] = refl
none_unclosed x y c e (r ∷ rs) = ground (arith, none_unclosed x y c e rs)

pub update_jobs-idle :
    (p : JobRow → Bool) (f : JobRow → JobRow) (rs : List JobRow)
    → count p rs ≡ 0
    → update_jobs p f rs ≡ rs
unfolding update_jobs
update_jobs-idle p f [] h = refl
update_jobs-idle p f (r ∷ rs) h = ground (arith, update_jobs-idle p f rs)

-- After a close of a job, any further close of it, with whatever facts, meets no row and changes
-- nothing: a repeated callback and a late sweep are harmless.
pub close_runpod_proxy_job_once :
    (jobs : List JobRow) (c again : ProxyJobClose)
    → again.job_id ≡ c.job_id
    → let closed = (close_runpod_proxy_job jobs c).0 in
      close_runpod_proxy_job closed again ≡ (closed, 0)
unfolding close_runpod_proxy_job
close_runpod_proxy_job_once jobs c again e =
    let closed = update_jobs (is_unclosed c.job_id) (closed_job c) jobs in
    let none_left : count (is_unclosed again.job_id) closed ≡ 0 =
      none_unclosed c.job_id again.job_id c (ground arith) jobs in
    ap₂ (λ (a : List JobRow) (b : ℕ). (a, b))
      (update_jobs-idle (is_unclosed again.job_id) (closed_job again) closed none_left) none_left

-- The terminal facts of a row.
pub record SameFacts (r q : JobRow) : Type 0 where
  pub outcome : q.outcome ≡ r.outcome
  pub status_raw : q.status_raw ≡ r.status_raw
  pub execution_ms : q.execution_ms ≡ r.execution_ms
  pub delay_ms : q.delay_ms ≡ r.delay_ms
  pub terminal_at : q.terminal_at ≡ r.terminal_at

abbrev same_facts : (r : JobRow) → SameFacts r r
same_facts r = record {
  outcome = refl;
  status_raw = refl;
  execution_ms = refl;
  delay_ms = refl;
  terminal_at = refl;
}

find?-reopened :
    (x : Text) (j : ProxyJobOpen) (r : JobRow) (rs : List JobRow)
    → find? (has_job x) rs ≡ some r
    → find? (has_job x) (update_jobs (has_job j.job_id) (reopened_job j) rs)
      ≡ some (if has_job j.job_id r then reopened_job j r else r)
unfolding update_jobs reopened_job
find?-reopened x j r [] h = absurd (ground arith)
find?-reopened x j r (q ∷ rs) h = ground (arith, find?-reopened x j r rs)

-- Opening a job keeps the terminal facts of every row that is there, of one with its id too.
pub open_runpod_proxy_job-SameFacts :
    (jobs : List JobRow) (j : ProxyJobOpen) (x : Text) (r : JobRow)
    → find? (has_job x) jobs ≡ some r
    → (q : JobRow) × (find? (has_job x) (open_runpod_proxy_job jobs j) ≡ some q) × SameFacts r q
unfolding open_runpod_proxy_job reopened_job
open_runpod_proxy_job-SameFacts jobs j x r h =
    go (any (has_job j.job_id) jobs) refl (has_job j.job_id r) refl
  where
    go :
        (b : Bool)
        → any (has_job j.job_id) jobs ≡ b
        → (c : Bool) → has_job j.job_id r ≡ c
        → (q : JobRow) × (find? (has_job x) (open_runpod_proxy_job jobs j) ≡ some q) × SameFacts r q
    go true e true i = (
      reopened_job j r,
      ground (arith, find?-reopened x j r jobs h),
      record {
        outcome = refl;
        status_raw = refl;
        execution_ms = refl;
        delay_ms = refl;
        terminal_at = refl;
      },
    )
    go true e false i = (r, ground (arith, find?-reopened x j r jobs h), same_facts r)
    go false e c i = (
      r,
      ground (arith, find?-append_some (has_job x) jobs (inserted_job j ∷ []) r h),
      same_facts r,
    )
