-- ===== src/Fleet/Tests.antt =====
-- What the theorems on jobs and leases say of one tenant and its provision.
use vivijure_control_plane.Prelude.{
  ℕ, ◌+◌, ◌*◌, ◌≡◌, ◌≢◌, inr, refl, true, false, Option, none, some, List, [], ◌∷◌, find?, arith,
}
use vivijure_control_plane.Prelude.Text.{Text, codes, text_eq, text_beq}
use vivijure_control_plane.Prelude.Rows.{update_where, returning}
use vivijure_control_plane.Tenants.{Tenant}
use vivijure_control_plane.Tenants.Tests.{acme_tenant}
use vivijure_control_plane.Fleet.{
  FleetDb, ProvisionJob, provision, queued, running, succeeded, failed, close_succeeded,
  close_failed, no_job_facts, has_job_id, driveable, claim_job, finish_job, set_job_running,
  job_lease_seconds, suspend_tenant,
}
use vivijure_control_plane.Fleet.Closed.{
  terminal_job_closed, set_job_running_reopens, here, next, claims,
}
use vivijure_control_plane.Fleet.Reclaim.{
  available, unavailable, handle_of, leased, blanked, claim_reclaim, reclaim_slug, begin_teardown,
  finish_teardown, check_slug_availability, has_live_provision_lease,
}
use vivijure_control_plane.Fleet.Tier.{claim_reclaim_offered, row_lease_exclusive, IsUnique}
use vivijure_control_plane.Fleet.Live.{
  live_slug_never_reclaimed, IsLiveRow, at_start, then_step, suspends,
}
use vivijure_control_plane.Fleet.Drive.{
  DriveClock, Resume, DriveResult, resumed, is_provision, drive_job_if_needed, job_has_live_driver,
  too_old, too_stale,
}
use vivijure_control_plane.Fleet.Reap.{one_driver_at_a_time}
use vivijure_control_plane.Fleet.Resources.{
  OwnerDb, d1, get_resource_owner, claim_resource_ownership, same_kind,
}
use vivijure_control_plane.Fleet.Owners.{live_owner_kept, owned_yet, then_owner, claims_resource}
use vivijure_control_plane.Fleet.Reclaim.{get_tenant_by_id}

abbrev j1 : Text
j1 = codes "j1"

abbrev t1 : Text
t1 = codes "t1"

abbrev a1 : Text
a1 = codes "a1"

abbrev failed_tenant : Tenant
failed_tenant = record acme_tenant { status = codes "failed" }

abbrev idle_job : ProvisionJob
idle_job = record (no_job_facts j1 t1 provision 100) { status = running }

abbrev one_job : FleetDb
one_job = record { accounts = a1 ∷ []; tenants = failed_tenant ∷ []; jobs = idle_job ∷ [] }

abbrev held_job : ProvisionJob
held_job = record idle_job { lease_until = some 260; updated_at = 200 }

abbrev claimed_db : FleetDb
claimed_db = record one_job { jobs = held_job ∷ [] }

abbrev ended_job : ProvisionJob
ended_job = record idle_job { status = succeeded; finished_at = some 300; updated_at = 300 }

abbrev closed_db : FleetDb
closed_db = record one_job { jobs = ended_job ∷ [] }

terminal_job_closed_example :
    find? (has_job_id j1) (claim_job closed_db j1 60 400).0.jobs ≡ some ended_job
unfolding text_beq
terminal_job_closed_example =
    terminal_job_closed closed_db (claim_job closed_db j1 60 400).0 j1 ended_job refl refl
      (next here (claims j1 60 400))

set_job_running_reopens_example :
    (j : ProvisionJob) × (find? (has_job_id j1) closed_db.jobs ≡ some j)
    × (driveable j ≡ false)
    × (find? (has_job_id j1) (set_job_running closed_db j1 400).jobs
        ≡ some (record j {
          status = running;
          attempts = j.attempts + 1;
          lease_until = some (400 + job_lease_seconds);
          updated_at = 400;
        }))
unfolding finish_job update_where text_beq
set_job_running_reopens_example =
    set_job_running_reopens one_job closed_db j1 close_succeeded none none 300 400 (refl, tt) refl

abbrev leased_tenant : Tenant
leased_tenant = leased 500 (codes "k1") failed_tenant

abbrev leased_db : FleetDb
leased_db = record one_job { tenants = leased_tenant ∷ [] }

IsUnique-row : (t : Tenant) → IsUnique (record one_job { tenants = t ∷ [] })
IsUnique-row t = record { ids = (refl, tt); slugs = (refl, tt) }

claim_reclaim_offered_example :
    check_slug_availability one_job (codes "acme-1") a1 (200 * 1000) 200
    ≡ available (some (handle_of leased_tenant))
unfolding claim_reclaim update_where returning text_beq
    vivijure_control_plane.Fleet.Reclaim.tier_a_statuses has_live_provision_lease
claim_reclaim_offered_example =
    claim_reclaim_offered one_job leased_db t1 a1 300 (codes "k1") 200 leased_tenant
      (IsUnique-row failed_tenant) refl

abbrev blank_tenant : Tenant
blank_tenant = blanked leased_tenant

row_lease_exclusive_example :
    (begin_teardown leased_db t1 300 (codes "k2") 300 ≡ (leased_db, none))
    × (claim_reclaim leased_db t1 a1 300 (codes "k2") 300 ≡ (leased_db, none))
    × (finish_teardown leased_db t1 (codes "k3") true 300 ≡ (leased_db, none))
    × (reclaim_slug leased_db t1 a1 (codes "k3") 300 ≡ (leased_db, none))
unfolding claim_reclaim update_where returning text_beq
    vivijure_control_plane.Fleet.Reclaim.tier_a_statuses has_live_provision_lease
row_lease_exclusive_example =
    row_lease_exclusive one_job leased_db t1 a1 (codes "k1") 300 200 leased_tenant (codes "k2")
      (codes "k3") a1 300 300 true (IsUnique-row failed_tenant) (inr refl) (omega arith) refl

abbrev live_tenant : Tenant
live_tenant = record failed_tenant { live_at = some 150 }

abbrev live_db : FleetDb
live_db = record one_job { tenants = live_tenant ∷ [] }

abbrev suspended_db : FleetDb
suspended_db = suspend_tenant live_db t1 (codes "abuse") 300

live_row : IsLiveRow live_db t1 (codes "acme-1") a1 150
unfolding text_beq
live_row = record {
  row = live_tenant;
  unique = IsUnique-row live_tenant;
  found = refl;
  since = refl;
  slug_is = refl;
  account_is = refl;
}

live_slug_never_reclaimed_example :
    IsLiveRow suspended_db t1 (codes "acme-1") a1 150
    × ((reason : Text) × (check_slug_availability suspended_db (codes "acme-1") a1 400000 400
          ≡ unavailable reason))
    × (claim_reclaim suspended_db t1 a1 300 (codes "k1") 400 ≡ (suspended_db, none))
    × (reclaim_slug suspended_db t1 a1 (codes "k1") 400 ≡ (suspended_db, none))
live_slug_never_reclaimed_example =
    live_slug_never_reclaimed live_db suspended_db t1 (codes "acme-1") a1 150 a1 (codes "k1") 300
      400000 400 live_row (then_step at_start (suspends t1 (codes "abuse") 300))

abbrev no_steps : Text → Option (List Text)
no_steps raw = some []

abbrev poll_at : ℕ → DriveClock
poll_at s = record {
  lease_read = s * 1000;
  age_read = s * 1000;
  stale_read = s * 1000;
  statement_at = s;
}

abbrev the_resume : Resume
the_resume = record { job_id = j1; tenant = failed_tenant; steps_done = [] }

one_driver_at_a_time_example :
    (claim_job one_job j1 job_lease_seconds 200 ≡ (claimed_db, true))
    × (idle_job.status ≡ running)
    × (is_provision idle_job.kind ≡ true)
    × (job_has_live_driver idle_job 200000 ≡ false)
    × (too_old idle_job 200000 ≡ false)
    × (too_stale idle_job 200000 ≡ false)
    × (drive_job_if_needed no_steps claimed_db (poll_at 230) true failed_tenant idle_job
        ≢ (claimed_db, resumed the_resume))
unfolding drive_job_if_needed update_where text_beq
    vivijure_control_plane.Fleet.Reclaim.lease_is_live claim_job
one_driver_at_a_time_example =
    one_driver_at_a_time no_steps one_job claimed_db claimed_db (poll_at 200) (poll_at 230) true
      true failed_tenant failed_tenant idle_job idle_job the_resume the_resume (refl, tt) refl refl
      (omega arith)

abbrev lost_job : ProvisionJob
lost_job = record idle_job {
  status = failed;
  error_message =
      some
        (codes "invocation lost: no progress for over 10 minutes; the provision did not complete");
  finished_at = some 1000;
  updated_at = 1000;
}

abbrev lost_db : FleetDb
lost_db = record one_job { jobs = lost_job ∷ [] }

abbrev owned_db : OwnerDb
owned_db = record {
  fleet = record live_db { tenants = record live_tenant { status = codes "live" } ∷ [] };
  owners =
      record {
        resource_kind = d1;
        resource_key = codes "db1";
        owner_tenant_id = t1;
        provisioned_at = 100;
      }
      ∷ [];
}

live_owner_kept_example :
    get_resource_owner
      (claim_resource_ownership owned_db d1 (codes "db1") (codes "t2") 300)
      d1
      (codes "db1")
    ≡ some t1
unfolding get_resource_owner get_tenant_by_id text_beq same_kind
live_owner_kept_example =
    live_owner_kept owned_db (claim_resource_ownership owned_db d1 (codes "db1") (codes "t2") 300)
      d1 (codes "db1") t1 refl refl refl
      (then_owner owned_yet (claims_resource d1 (codes "db1") (codes "t2") 300))
