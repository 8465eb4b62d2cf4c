-- ===== src/Fleet.antt =====
-- The tenants and their provision jobs: the statements of `D1Store` (src/store-d1.ts) over the tables
-- `tenants` and `provision_jobs`, the lease and slug rules of src/store.ts and `driveJobIfNeeded` of
-- src/index.ts. Instants of the tables are counted in seconds, the resolution of `datetime('now')`;
-- each statement is given the instant that it reads.
pub mod Reclaim
pub mod Drive
pub mod Jobs
pub mod Closed
pub mod Tier
pub mod Live
pub mod Reap
pub mod Resources
pub mod Owners
mod Tests
use vivijure_control_plane.Prelude.{
  ℕ, ◌+◌, ◌*◌, Bool, true, false, not, ◌&&◌, ◌||◌, Option, none, some, List, [], ◌∷◌, ◌++◌, Result,
  ok, err, ltb, any, find?, count, is_some, ◌==◌, nat_eq, if◌then◌else◌,
}
use vivijure_control_plane.Prelude.Text.{Text, codes, text_eq, text_beq}
use vivijure_control_plane.Prelude.Rows.{update_where, returning}
use vivijure_control_plane.Ledger.{StoreError, primary_key, check_failed, foreign_key}
use vivijure_control_plane.Tenants.{Tenant, is_status}

pub data JobKind : Type 0 where
  provision deprovision module_upgrade studio_upgrade : JobKind

pub data JobStatus : Type 0 where
  queued running succeeded failed : JobStatus

pub record ProvisionJob : Type 0 where
  pub id : Text
  pub tenant_id : Text
  pub kind : JobKind
  pub status : JobStatus
  pub step : Option Text
  pub steps_done : Text
  pub error_step : Option Text
  pub error_message : Option Text
  pub attempts : ℕ
  pub lease_until : Option ℕ
  pub from_release : Option Text
  pub to_release : Option Text
  pub runpod_mode : Option Text
  pub created_at : ℕ
  pub updated_at : ℕ
  pub finished_at : Option ℕ

pub record FleetDb : Type 0 where
  pub accounts : List Text
  pub tenants : List Tenant
  pub jobs : List ProvisionJob

abbrev pub job_lease_seconds : ℕ
job_lease_seconds = 60

abbrev pub reclaim_lease_seconds : ℕ
reclaim_lease_seconds = 300

abbrev pub is_driveable : JobStatus → Bool
is_driveable queued = true
is_driveable running = true
is_driveable _ = false

-- `lease_until IS NULL OR lease_until < datetime('now')`.
abbrev pub is_free : Option ℕ → ℕ → Bool
is_free none now = true
is_free (some until) now = ltb until now

-- `lease_until IS NOT NULL AND lease_until > datetime('now')`.
abbrev pub is_held : Option ℕ → ℕ → Bool
is_held none now = false
is_held (some until) now = ltb now until

abbrev pub has_job_id : Text → ProvisionJob → Bool
has_job_id x j = j.id == x

abbrev pub has_tenant_id : Text → Tenant → Bool
has_tenant_id x t = t.id == x

abbrev pub no_job_facts : Text → Text → JobKind → ℕ → ProvisionJob
no_job_facts id tenant_id kind now = record {
  id = id;
  tenant_id = tenant_id;
  kind = kind;
  status = queued;
  step = none;
  steps_done = codes "[]";
  error_step = none;
  error_message = none;
  attempts = 0;
  lease_until = none;
  from_release = none;
  to_release = none;
  runpod_mode = none;
  created_at = now;
  updated_at = now;
  finished_at = none;
}

-- INSERT INTO provision_jobs … RETURNING *.
unfoldable pub insert_provision_job :
    FleetDb → ProvisionJob → Result StoreError (FleetDb × ProvisionJob)
insert_provision_job db j =
    if any (has_job_id j.id) db.jobs
    then err primary_key
    else if any (has_tenant_id j.tenant_id) db.tenants
    then ok (record db { jobs = db.jobs ++ j ∷ [] }, j)
    else err foreign_key

unfoldable pub create_provision_job :
    FleetDb → Text → Text → JobKind → Text → Text → ℕ → Result StoreError (FleetDb × ProvisionJob)
unfolding insert_provision_job
create_provision_job db id tenant_id kind mode release now =
    insert_provision_job db (record (no_job_facts id tenant_id kind now) {
      runpod_mode = some mode;
      to_release = some release;
    })

-- `insertUpgradeJob`, which the two upgrade kinds share.
unfoldable pub insert_upgrade_job :
    FleetDb
    → JobKind
    → Text
    → Text
    → Option Text
    → Text
    → ℕ
    → Result StoreError (FleetDb × ProvisionJob)
unfolding insert_provision_job
insert_upgrade_job db kind id tenant_id from to now =
    insert_provision_job db
      (record (no_job_facts id tenant_id kind now) { from_release = from; to_release = some to })

unfoldable pub create_module_upgrade_job :
    FleetDb → Text → Text → Option Text → Text → ℕ → Result StoreError (FleetDb × ProvisionJob)
unfolding insert_upgrade_job
create_module_upgrade_job db = insert_upgrade_job db module_upgrade

unfoldable pub create_studio_upgrade_job :
    FleetDb → Text → Text → Option Text → Text → ℕ → Result StoreError (FleetDb × ProvisionJob)
unfolding insert_upgrade_job
create_studio_upgrade_job db = insert_upgrade_job db studio_upgrade

unfoldable pub get_job : FleetDb → Text → Option ProvisionJob
get_job db id = find? (has_job_id id) db.jobs

-- The UPDATE of one job under a guard, and whether it met its row.
unfoldable pub update_job :
    FleetDb → Text → (ProvisionJob → Bool) → (ProvisionJob → ProvisionJob) → FleetDb × Bool
update_job db id guard f = (
  record db { jobs = update_where (λ j. has_job_id id j && guard j) f db.jobs },
  count (λ j. has_job_id id j && guard j) db.jobs == 1,
)

abbrev pub free_now : ℕ → ProvisionJob → Bool
free_now now j = is_free j.lease_until now

abbrev pub driveable : ProvisionJob → Bool
driveable j = is_driveable j.status

abbrev pub claimable : ℕ → ProvisionJob → Bool
claimable now j = driveable j && free_now now j

-- `setJobRunning`, which reports nothing.
unfoldable pub set_job_running : FleetDb → Text → ℕ → FleetDb
unfolding update_job
set_job_running db id now =
    (update_job db id (free_now now) (λ j. record j {
      status = running;
      attempts = j.attempts + 1;
      lease_until = some (now + job_lease_seconds);
      updated_at = now;
    })).0

unfoldable pub claim_job : FleetDb → Text → ℕ → ℕ → FleetDb × Bool
unfolding update_job
claim_job db id seconds now =
    update_job db id (claimable now)
      (λ j. record j { lease_until = some (now + seconds); updated_at = now })

unfoldable pub renew_job_lease : FleetDb → Text → ℕ → ℕ → FleetDb × Bool
unfolding update_job
renew_job_lease db id seconds now =
    update_job db id driveable (λ j. record j { lease_until = some (now + seconds) })

unfoldable pub release_job_lease : FleetDb → Text → FleetDb × Bool
unfolding update_job
release_job_lease db id = update_job db id driveable (λ j. record j { lease_until = none })

unfoldable pub update_job_progress : FleetDb → Text → Text → Text → ℕ → FleetDb
unfolding update_job
update_job_progress db id step steps_done now =
    (update_job db id driveable (λ j. record j {
      step = some step;
      steps_done = steps_done;
      updated_at = now;
      lease_until = some (now + job_lease_seconds);
    })).0

-- How a job closes.
pub data Closing : Type 0 where
  close_succeeded close_failed : Closing

abbrev pub status_of : Closing → JobStatus
status_of close_succeeded = succeeded
status_of close_failed = failed

unfoldable pub finish_job :
    FleetDb → Text → Closing → Option Text → Option Text → ℕ → FleetDb × Bool
unfolding update_job
finish_job db id status error_step error_message now = update_job db id driveable (λ j. record j {
  status = status_of status;
  error_step = error_step;
  error_message = error_message;
  finished_at = some now;
  updated_at = now;
  lease_until = none;
})

-- The UPDATE of a tenant by its id.
unfoldable pub update_tenant : FleetDb → Text → (Tenant → Tenant) → FleetDb
update_tenant db id f = record db { tenants = update_where (has_tenant_id id) f db.tenants }

unfoldable pub set_tenant_status : FleetDb → Text → Text → ℕ → FleetDb
unfolding update_tenant
set_tenant_status db id status now = update_tenant db id (λ t. record t {
  status = status;
  live_at = if status == codes "live" && not (is_some t.live_at) then some now else t.live_at;
})

unfoldable pub suspend_tenant : FleetDb → Text → Text → ℕ → FleetDb
unfolding update_tenant
suspend_tenant db id reason now =
    update_tenant db id (λ t. record t { suspended_at = some now; suspended_reason = some reason })

unfoldable pub resume_tenant : FleetDb → Text → FleetDb
unfolding update_tenant
resume_tenant db id =
    update_tenant db id (λ t. record t { suspended_at = none; suspended_reason = none })
