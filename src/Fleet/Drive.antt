-- ===== src/Fleet/Drive.antt =====
-- Who drives a provision, and when a lost one is declared failed: `driveJobIfNeeded` of src/index.ts and
-- the two tests of a job in src/store.ts. The job that is driven is the row as its caller read it; the
-- statements act on the table as it stands.
use vivijure_control_plane.Prelude.{
  ℕ, ◌+◌, ◌*◌, Bool, true, false, not, Option, none, some, List, ltb, nat_eq, if◌then◌else◌,
}
use vivijure_control_plane.Prelude.Text.{Text, codes}
use vivijure_control_plane.Tenants.{Tenant}
use vivijure_control_plane.Fleet.{
  FleetDb, ProvisionJob, JobKind, provision, deprovision, module_upgrade, studio_upgrade, queued,
  running, succeeded, failed, close_failed, driveable, job_lease_seconds, claim_job, finish_job,
  get_job, set_tenant_status,
}
use vivijure_control_plane.Fleet.Reclaim.{lease_is_live}

abbrev pub max_provision_job_age_ms : ℕ
max_provision_job_age_ms = 7200000

abbrev pub max_job_stale_ms : ℕ
max_job_stale_ms = 600000

unfoldable pub job_has_live_driver : ProvisionJob → ℕ → Bool
job_has_live_driver job now_ms =
    if not (driveable job) then false else lease_is_live job.lease_until now_ms

unfoldable pub job_awaits_first_driver : ProvisionJob → Bool
job_awaits_first_driver job = elim job.status [
  | queued ↦ true
  | running ↦ false
  | succeeded ↦ false
  | failed ↦ false
]

abbrev pub is_provision : JobKind → Bool
is_provision provision = true
is_provision deprovision = false
is_provision module_upgrade = false
is_provision studio_upgrade = false

-- The reads of the worker's clock, in milliseconds, and the instant of the statements.
pub record DriveClock : Type 0 where
  pub lease_read : ℕ
  pub age_read : ℕ
  pub stale_read : ℕ
  pub statement_at : ℕ

-- The call of `provisioner.resume`.
pub record Resume : Type 0 where
  pub job_id : Text
  pub tenant : Tenant
  pub steps_done : List Text

-- Nothing done, the job read again, a driver dispatched, or `JSON.parse` thrown.
pub data DriveResult : Type 0 where
  idle : DriveResult
  reread : Option ProvisionJob → DriveResult
  resumed : Resume → DriveResult
  steps_unreadable : DriveResult

unfoldable pub too_old : ProvisionJob → ℕ → Bool
too_old job now_ms = ltb (job.created_at * 1000 + max_provision_job_age_ms) now_ms

unfoldable pub too_stale : ProvisionJob → ℕ → Bool
too_stale job now_ms = ltb (job.updated_at * 1000 + max_job_stale_ms) now_ms

unfoldable pub age_message : Text
age_message =
    codes
      "provision did not complete within 120 minutes of being created; giving up rather than driving it forever"

unfoldable pub stale_message : Text
stale_message =
    codes "invocation lost: no progress for over 10 minutes; the provision did not complete"

abbrev pub fail_tenant_if : FleetDb × Bool → Text → ℕ → FleetDb
fail_tenant_if (db, true) tenant now = set_tenant_status db tenant (codes "failed") now
fail_tenant_if (db, false) tenant now = db

-- `finishJob`, and the tenant's status only if that closed the job.
unfoldable pub reap : FleetDb → Text → ProvisionJob → Text → ℕ → FleetDb × DriveResult
reap db tenant job message now =
    let after =
      fail_tenant_if (finish_job db job.id close_failed job.step (some message) now) tenant now in
    (after, reread (get_job after job.id))

-- `JSON.parse` of the steps that are done is a parameter; `none` is its exception.
module _ (parse_steps : Text → Option (List Text)) where
  abbrev pub resume_of : Option (List Text) → Tenant → ProvisionJob → DriveResult
  resume_of none tenant job = steps_unreadable
  resume_of (some steps) tenant job =
      resumed (record { job_id = job.id; tenant = tenant; steps_done = steps })

  abbrev pub dispatch_if : FleetDb × Bool → Tenant → ProvisionJob → FleetDb × DriveResult
  dispatch_if (db, true) tenant job = (db, resume_of (parse_steps job.steps_done) tenant job)
  dispatch_if (db, false) tenant job = (db, idle)

  unfoldable pub drive_job_if_needed :
      FleetDb → DriveClock → Bool → Tenant → ProvisionJob → FleetDb × DriveResult
  unfolding job_has_live_driver job_awaits_first_driver too_old too_stale reap
  drive_job_if_needed db clock has_provisioner tenant job =
      if not (driveable job)
      then (db, idle)
      else if not has_provisioner
      then (db, idle)
      else if not (is_provision job.kind)
      then (db, idle)
      else if job_has_live_driver job clock.lease_read
      then (db, idle)
      else if too_old job clock.age_read
      then reap db tenant.id job age_message clock.statement_at
      else if too_stale job clock.stale_read
      then reap db tenant.id job stale_message clock.statement_at
      else if job_awaits_first_driver job
      then (db, idle)
      else dispatch_if (claim_job db job.id job_lease_seconds clock.statement_at) tenant job
