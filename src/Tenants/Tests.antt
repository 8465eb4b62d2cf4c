-- ===== src/Tenants/Tests.antt =====
-- A tenant that the tests of the other parts share.
use vivijure_control_plane.Prelude.{none, some, nat_eq}
use vivijure_control_plane.Prelude.Text.{codes}
use vivijure_control_plane.Tenants.{Tenant}

abbrev pub acme_tenant : Tenant
acme_tenant = record {
  id = codes "t1";
  slug = codes "acme-1";
  account_id = codes "a1";
  status = codes "live";
  script_name = some (codes "tenant-acme-1-studio");
  endpoints_json = some (codes "x");
  runpod_mode = none;
  d1_database_id = none;
  r2_bucket_name = none;
  r2_token_id = none;
  studio_token_enc = none;
  studio_release = none;
  modules_release = none;
  created_at = codes "2026";
  live_at = none;
  suspended_at = none;
  suspended_reason = none;
  deleted_at = none;
  teardown_at = none;
  api_token_rotated_at = none;
  reclaim_lease_until = none;
  reclaim_lease_token = none;
}
