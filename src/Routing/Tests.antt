-- ===== src/Routing/Tests.antt =====
-- What the theorems on routing say of one plane, its tenant and the tenant's owner.
use vivijure_control_plane.Prelude.{
  ℕ, ◌≡◌, ◌↔◌, refl, Bool, true, false, Option, none, some, List, [], ◌∷◌, ok, length, is_some,
}
use vivijure_control_plane.Prelude.Text.{Text, codes, text_beq}
use vivijure_control_plane.Prelude.Split.{ends_with, drop_last}
use vivijure_control_plane.Tenants.{Tenant, validate_slug}
use vivijure_control_plane.Tenants.Tests.{acme_tenant}
use vivijure_control_plane.Routing.{
  Plane, Request, Account, dispatched, classify_host, tenant_host, tenant_domain_suffix,
  normalize_host, normalize_suffix, tenant_refusal, route_tenant_request, dispatch_request,
}
use vivijure_control_plane.Routing.Host.{classify_host_tenant}
use vivijure_control_plane.Routing.Dispatch.{Dispatched, route_tenant_request_dispatched}

abbrev plane_one : Plane
plane_one = record {
  control_plane_host = codes "s.io";
  get_tenant_by_slug = λ slug. ok (some acme_tenant);
  get_session = λ hash now. some (codes "a1");
  get_account_by_id =
      λ id. some (record { id = codes "a1"; suspended_at = none; deleted_at = none });
  sha256_hex = λ t. t;
  now = 5;
  kek_installed = true;
  decrypt = λ enc. some (codes "tok");
  has_script = some (λ script. true);
}

abbrev owner_request : Request
owner_request = record {
  method = codes "GET";
  url = codes "https://acme-1.s.io/";
  host = some (codes "acme-1.s.io");
  cookie = some (codes "a=1; __Secure-vp_session=abc");
  accept = none;
  authorization = none;
  other_headers = [];
  body = none;
}

host_classified :
    classify_host (some (codes "acme-1.s.io")) (codes ".s.io") ≡ tenant_host (codes "acme-1")
unfolding classify_host vivijure_control_plane.Prelude.Text.starts_with normalize_suffix
    vivijure_control_plane.Prelude.Text.lower vivijure_control_plane.Prelude.Text.trim ends_with
    normalize_host vivijure_control_plane.Prelude.Split.first_part validate_slug text_beq
host_classified = refl

classify_host_tenant_example :
    (raw : Text) × (some (codes "acme-1.s.io") ≡ some raw)
    × (ends_with (normalize_host raw) (normalize_suffix (codes ".s.io")) ≡ true)
    × (codes "acme-1" ≡ drop_last (length (normalize_suffix (codes ".s.io"))) (normalize_host raw))
    × (validate_slug (codes "acme-1") ≡ none)
classify_host_tenant_example =
    classify_host_tenant (some (codes "acme-1.s.io")) (codes ".s.io") (codes "acme-1")
      host_classified

abbrev sent_request : Request
sent_request = record owner_request {
  cookie = some (codes "a=1");
  authorization = some (codes "Bearer tok");
}

abbrev keyed_tenant : Tenant
keyed_tenant = record acme_tenant { studio_token_enc = some (codes "enc") }

abbrev plane_two : Plane
plane_two = record plane_one { get_tenant_by_slug = λ slug. ok (some keyed_tenant) }

owner_dispatched :
    route_tenant_request plane_two owner_request
    ≡ dispatched (codes "tenant-acme-1-studio") sent_request
unfolding route_tenant_request classify_host vivijure_control_plane.Prelude.Text.starts_with
    normalize_suffix vivijure_control_plane.Prelude.Text.lower
    vivijure_control_plane.Prelude.Text.trim ends_with normalize_host
    vivijure_control_plane.Prelude.Split.first_part validate_slug text_beq tenant_refusal
    vivijure_control_plane.Routing.resolve_session
    vivijure_control_plane.Routing.read_session_cookie vivijure_control_plane.Prelude.Split.split
    vivijure_control_plane.Prelude.Split.join dispatch_request
owner_dispatched = refl

route_tenant_request_dispatched_example :
    (slug : Text) × (t : Tenant) × (classify_host owner_request.host
        (tenant_domain_suffix plane_two.control_plane_host)
      ≡ tenant_host slug)
    × (plane_two.get_tenant_by_slug slug ≡ ok (some t))
    × Dispatched plane_two owner_request t (codes "tenant-acme-1-studio") sent_request
route_tenant_request_dispatched_example =
    route_tenant_request_dispatched plane_two owner_request (codes "tenant-acme-1-studio")
      sent_request owner_dispatched
