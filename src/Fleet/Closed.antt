-- ===== src/Fleet/Closed.antt =====
-- A terminal job is a closed record.
use vivijure_control_plane.Prelude.{
  ℕ, ◌+◌, ◌≡◌, refl, ap, Bool, true, false, ◌&&◌, Option, none, some, List, [], ◌∷◌, ◌++◌, ok,
  arith, find?, nat_eq, find?-append_some, subst,
}
use vivijure_control_plane.Prelude.Text.{Text, text_eq}
use vivijure_control_plane.Prelude.Rows.{find?-update_where}
use vivijure_control_plane.Fleet.{
  FleetDb, ProvisionJob, running, Closing, status_of, close_succeeded, close_failed, update_job,
  claim_job, renew_job_lease, release_job_lease, update_job_progress, finish_job, set_job_running,
  insert_provision_job, claimable, driveable, is_driveable, has_job_id, job_lease_seconds, free_now,
}
use vivijure_control_plane.Fleet.Jobs.{job_id, IsKeyed, update_job_won}

-- One call of the job store by a driver, a poll or a route, other than the start of a driver.
pub data JobStep (db : FleetDb) : FleetDb → Type 0 where
  inserts :
      {db' : FleetDb} {made : _} (j : ProvisionJob)
      → insert_provision_job db j ≡ ok (db', made)
      → JobStep db db'
  claims : (id : Text) (seconds now : ℕ) → JobStep db (claim_job db id seconds now).0
  renews : (id : Text) (seconds now : ℕ) → JobStep db (renew_job_lease db id seconds now).0
  releases : (id : Text) → JobStep db (release_job_lease db id).0
  progresses :
      (id step steps_done : Text) (now : ℕ)
      → JobStep db (update_job_progress db id step steps_done now)
  finishes :
      (id : Text) (c : Closing) (error_step message : Option Text) (now : ℕ)
      → JobStep db (finish_job db id c error_step message now).0

pub data JobReach (start : FleetDb) : FleetDb → Type 0 where
  here : JobReach start start
  next : {db db' : FleetDb} → JobReach start db → JobStep db db' → JobReach start db'

-- An update that asks for a driveable job passes a terminal one by.
update_job_closed :
    (db : FleetDb) (id : Text) (guard : ProvisionJob → Bool) (f : ProvisionJob → ProvisionJob)
    (x : Text) (j : ProvisionJob)
    → ((k : ProvisionJob) → (f k).id ≡ k.id)
    → (driveable j ≡ false → guard j ≡ false)
    → driveable j ≡ false
    → find? (has_job_id x) db.jobs ≡ some j
    → find? (has_job_id x) (update_job db id guard f).0.jobs ≡ some j
unfolding update_job
update_job_closed db id guard f x j keeps shut done found = ground (
  arith,
  shut done,
  find?-update_where job_id (λ k. has_job_id id k && guard k) f keeps x db.jobs j found,
)

JobStep-closed :
    {db db' : FleetDb} (x : Text) (j : ProvisionJob)
    → JobStep db db'
    → driveable j ≡ false
    → find? (has_job_id x) db.jobs ≡ some j
    → find? (has_job_id x) db'.jobs ≡ some j
unfolding claim_job renew_job_lease release_job_lease update_job_progress finish_job
    insert_provision_job
JobStep-closed {db} {db'} x j (inserts made h) done found =
    let same : db.jobs ++ made ∷ [] ≡ db'.jobs = ground arith in
    rw (← same) (find?-append_some (has_job_id x) db.jobs (made ∷ []) j found)
JobStep-closed {db} x j (claims id seconds now) done found =
    update_job_closed db id (claimable now) _ x j (λ k. refl) (λ d. ground arith) done found
JobStep-closed {db} x j (renews id seconds now) done found =
    update_job_closed db id driveable _ x j (λ k. refl) (λ d. d) done found
JobStep-closed {db} x j (releases id) done found =
    update_job_closed db id driveable _ x j (λ k. refl) (λ d. d) done found
JobStep-closed {db} x j (progresses id step steps now) done found =
    update_job_closed db id driveable _ x j (λ k. refl) (λ d. d) done found
JobStep-closed {db} x j (finishes id c step message now) done found =
    update_job_closed db id driveable _ x j (λ k. refl) (λ d. d) done found

-- A job that has succeeded or failed is never written again by a claim, a heartbeat, a yield, a mark of
-- progress, a second finish or an insert, in any number and order: its row stays as it was closed.
pub terminal_job_closed :
    (db db' : FleetDb) (x : Text) (j : ProvisionJob)
    → driveable j ≡ false
    → find? (has_job_id x) db.jobs ≡ some j
    → JobReach db db'
    → find? (has_job_id x) db'.jobs ≡ some j
terminal_job_closed db db' x j done found here = found
terminal_job_closed db db' x j done found (next r step) =
    JobStep-closed x j step done (terminal_job_closed db _ x j done found r)

closed_of : (c : Closing) → is_driveable (status_of c) ≡ false
closed_of close_succeeded = refl
closed_of close_failed = refl

-- The start of a driver is the exception: it asks for a free lease and for no status, and a job that
-- was finished has a free lease, so starting a driver on it sets it running again.
pub set_job_running_reopens :
    (db db' : FleetDb) (id : Text) (c : Closing) (step message : Option Text) (now later : ℕ)
    → IsKeyed db
    → finish_job db id c step message now ≡ (db', true)
    → (j : ProvisionJob) × (find? (has_job_id id) db'.jobs ≡ some j)
      × (driveable j ≡ false)
      × (find? (has_job_id id) (set_job_running db' id later).jobs
          ≡ some (record j {
            status = running;
            attempts = j.attempts + 1;
            lease_until = some (later + job_lease_seconds);
            updated_at = later;
          }))
unfolding finish_job set_job_running update_job
set_job_running_reopens db db' id c step message now later keyed won =
    let close : ProvisionJob → ProvisionJob = λ j. record j {
      status = status_of c;
      error_step = step;
      error_message = message;
      finished_at = some now;
      updated_at = now;
      lease_until = none;
    } in
    let start : ProvisionJob → ProvisionJob = λ j. record j {
      status = running;
      attempts = j.attempts + 1;
      lease_until = some (later + job_lease_seconds);
      updated_at = later;
    } in
    let flag : (update_job db id driveable close).1 ≡ true = ap (λ (p : FleetDb × Bool). p.1) won in
    let same : (update_job db id driveable close).0 ≡ db' = ap (λ (p : FleetDb × Bool). p.0) won in
    let (j, found, was_open, after) = update_job_won db id driveable close (λ k. refl) keyed flag in
    let there : find? (has_job_id id) db'.jobs ≡ some (close j) =
      subst (λ (d : FleetDb). find? (has_job_id id) d.jobs ≡ some (close j)) same after in
    (
      close j,
      there,
      closed_of c,
      ground (
        arith,
        find?-update_where job_id (λ k. has_job_id id k && free_now later k) start (λ k. refl) id
            db'.jobs (close j) there,
        found_id db'.jobs (close j) there,
      ),
    )
  where
    found_id :
        (js : List ProvisionJob) (k : ProvisionJob)
        → find? (has_job_id id) js ≡ some k
        → has_job_id id k ≡ true
    found_id [] k h = absurd (ground arith)
    found_id (q ∷ js) k h = ground (arith, found_id js k)
