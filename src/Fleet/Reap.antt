-- ===== src/Fleet/Reap.antt =====
-- What a drive leaves behind: at most one driver, and a tenant that fails only with its job.
use vivijure_control_plane.Prelude.{
  ◌+◌, ◌≤◌, ◌≡◌, ◌≢◌, ◌∙◌, sym, ap, Bool, true, false, Option, some, List, arith, find?, nat_eq,
}
use vivijure_control_plane.Prelude.Text.{Text, codes, text_eq}
use vivijure_control_plane.Tenants.{Tenant}
use vivijure_control_plane.Fleet.{
  FleetDb, ProvisionJob, running, failed, driveable, job_lease_seconds, claim_job,
  set_tenant_status, has_job_id,
}
use vivijure_control_plane.Fleet.Jobs.{IsKeyed, claim_job_exclusive}
use vivijure_control_plane.Fleet.Drive.{
  DriveClock, Resume, resumed, is_provision, job_has_live_driver, job_awaits_first_driver, too_old,
  too_stale, reap, dispatch_if, drive_job_if_needed,
}

module _ (parse_steps : Text → Option (List Text)) where
  -- What can come of a dispatch.
  dispatch_won :
      (r : FleetDb × Bool) (tenant : Tenant) (job : ProvisionJob) (db' : FleetDb) (call : Resume)
      → dispatch_if parse_steps r tenant job ≡ (db', resumed call)
      → r ≡ (db', true)
  dispatch_won (db, true) tenant job db' call h = ground arith
  dispatch_won (db, false) tenant job db' call h = absurd (ground arith)

  resumed_claim :
      (db db' : FleetDb) (clock : DriveClock) (provisioner : Bool) (tenant : Tenant)
      (job : ProvisionJob) (call : Resume)
      → drive_job_if_needed parse_steps db clock provisioner tenant job ≡ (db', resumed call)
      → (claim_job db job.id job_lease_seconds clock.statement_at ≡ (db', true))
        × (job.status ≡ running)
        × (is_provision job.kind ≡ true)
        × (job_has_live_driver job clock.lease_read ≡ false)
        × (too_old job clock.age_read ≡ false)
        × (too_stale job clock.stale_read ≡ false)
  unfolding drive_job_if_needed reap job_awaits_first_driver
  resumed_claim db db' clock provisioner tenant job call h = ground (
    arith,
    dispatch_won (claim_job db job.id job_lease_seconds clock.statement_at) tenant job db' call,
  )

  -- A drive dispatches the provisioner only for a provision that runs, that no driver holds, that is
  -- neither too old nor stale, and only by winning the job's lease; and then no other drive of that
  -- job, from whatever copy of the row and for whatever tenant, dispatches it again up to the end of
  -- that lease.
  pub one_driver_at_a_time :
      (db db' after : FleetDb) (clock clock' : DriveClock) (provisioner provisioner' : Bool)
      (tenant tenant' : Tenant) (job copy : ProvisionJob) (call call' : Resume)
      → IsKeyed db
      → drive_job_if_needed parse_steps db clock provisioner tenant job ≡ (db', resumed call)
      → copy.id ≡ job.id
      → clock'.statement_at ≤ clock.statement_at + job_lease_seconds
      → (claim_job db job.id job_lease_seconds clock.statement_at ≡ (db', true))
        × (job.status ≡ running)
        × (is_provision job.kind ≡ true)
        × (job_has_live_driver job clock.lease_read ≡ false)
        × (too_old job clock.age_read ≡ false)
        × (too_stale job clock.stale_read ≡ false)
        × (drive_job_if_needed parse_steps db' clock' provisioner' tenant' copy
            ≢ (after, resumed call'))
  one_driver_at_a_time db db' after clock clock' provisioner provisioner' tenant tenant' job copy
        call call' keyed won same early =
      let (claimed, runs, kind, free, young, fresh) =
        resumed_claim db db' clock provisioner tenant job call won in
      (
        claimed,
        runs,
        kind,
        free,
        young,
        fresh,
        λ again.
            let (second, _, _, _, _, _) =
              resumed_claim db' after clock' provisioner' tenant' copy call' again in
            let first =
              claim_job_exclusive db db' job.id job_lease_seconds job_lease_seconds
                clock.statement_at clock'.statement_at keyed claimed early in
            let both : (after, true) ≡ (db', false) =
              sym second
              ∙ ap (λ k. claim_job db' k job_lease_seconds clock'.statement_at) same
              ∙ first in
            let flag : true ≡ false = ap (λ (p : FleetDb × Bool). p.1) both in (cc),
      )

-- The job and the tenant after a reap that closed the job.
pub record IsReaped (db db' : FleetDb) (tenant : Text) (job : ProvisionJob) (clock : DriveClock)
    : Type 0 where
  pub row : ProvisionJob
  pub found : find? (has_job_id job.id) db.jobs ≡ some row
  pub open_before : driveable row ≡ true
  pub closed_after : ProvisionJob
  pub found_after : find? (has_job_id job.id) db'.jobs ≡ some closed_after
  pub failed_after : closed_after.status ≡ failed
  pub tenant_failed :
      db'.tenants ≡ (set_tenant_status db tenant (codes "failed") clock.statement_at).tenants
  pub kind_is : is_provision job.kind ≡ true
  pub no_driver : job_has_live_driver job clock.lease_read ≡ false
