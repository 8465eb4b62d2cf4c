-- ===== src/Fleet/Reclaim.antt =====
-- Who may take a slug and who may tear a tenant down: `classifySlugClaim` and the leases of
-- src/store.ts, and the statements of src/store-d1.ts that claim, reclaim and tear down a row.
use vivijure_control_plane.Prelude.{
  ℕ, ◌+◌, ◌*◌, Bool, false, not, ◌&&◌, Option, none, some, List, [], ◌∷◌, ◌++◌, Result, ok, err,
  ltb, any, find?, is_some, ◌==◌, nat_eq, if◌then◌else◌,
}
use vivijure_control_plane.Prelude.Text.{Text, codes, text_eq}
use vivijure_control_plane.Prelude.Rows.{update_where, returning}
use vivijure_control_plane.Ledger.{StoreError, primary_key, unique_key, foreign_key}
use vivijure_control_plane.Tenants.{Tenant, is_status}
use vivijure_control_plane.Fleet.{FleetDb, ProvisionJob, is_free, is_held, has_tenant_id, driveable}

unfoldable pub tier_a_statuses : List Text
tier_a_statuses =
    codes "pending"
    ∷ codes "provisioning"
    ∷ codes "awaiting_go_live"
    ∷ codes "awaiting_invoke_key"
    ∷ codes "failed"
    ∷ []

abbrev pub is_tier_a : Text → Bool
is_tier_a status = any (λ s. s == status) tier_a_statuses

-- `leaseIsLive`: the instant of the lease in milliseconds, against the worker's clock.
unfoldable pub lease_is_live : Option ℕ → ℕ → Bool
lease_is_live none now_ms = false
lease_is_live (some until) now_ms = ltb now_ms (until * 1000)

pub record ReclaimHandle : Type 0 where
  pub tenant_id : Text
  pub d1_database_id : Option Text
  pub r2_bucket_name : Option Text
  pub r2_token_id : Option Text
  pub script_name : Option Text

pub data SlugClaim : Type 0 where
  available : Option ReclaimHandle → SlugClaim
  unavailable : Text → SlugClaim

abbrev pub handle_of : Tenant → ReclaimHandle
handle_of t = record {
  tenant_id = t.id;
  d1_database_id = t.d1_database_id;
  r2_bucket_name = t.r2_bucket_name;
  r2_token_id = t.r2_token_id;
  script_name = t.script_name;
}

unfoldable pub classify_row : Tenant → Text → ℕ → SlugClaim
unfolding lease_is_live
classify_row t account now_ms =
    let never_live = not (is_some t.live_at) in
    if not (t.account_id == account)
    then unavailable (codes "that name is taken")
    else if never_live && is_tier_a t.status
    then (if lease_is_live t.reclaim_lease_until now_ms
        then unavailable (codes "that name is being reset right now; try again in a few minutes")
        else available (some (handle_of t)))
    else if not never_live && is_status t (codes "deleted")
    then unavailable
        (codes "that name belonged to a studio that has been deleted, and cannot be reused")
    else unavailable (codes "you already have a studio at that name")

unfoldable pub classify_slug_claim : Option Tenant → Text → ℕ → SlugClaim
unfolding classify_row
classify_slug_claim none account now_ms = available none
classify_slug_claim (some t) account now_ms = classify_row t account now_ms

unfoldable pub get_tenant_by_id : FleetDb → Text → Option Tenant
get_tenant_by_id db id = find? (has_tenant_id id) db.tenants

unfoldable pub get_tenant_by_slug : FleetDb → Text → Option Tenant
get_tenant_by_slug db slug = find? (λ t. t.slug == slug) db.tenants

-- A job of the tenant that a driver holds now.
abbrev pub is_driven : Text → ℕ → ProvisionJob → Bool
is_driven tenant now j = j.tenant_id == tenant && driveable j && is_held j.lease_until now

unfoldable pub has_live_provision_lease : FleetDb → Text → ℕ → Bool
has_live_provision_lease db tenant now = any (is_driven tenant now) db.jobs

abbrev pub unless_driven : FleetDb → SlugClaim → ℕ → SlugClaim
unless_driven db (available (some h)) now =
    if has_live_provision_lease db h.tenant_id now
    then unavailable (codes "that name is still being set up; try again in a minute")
    else available (some h)
unless_driven db (available none) now = available none
unless_driven db (unavailable reason) now = unavailable reason

unfoldable pub check_slug_availability : FleetDb → Text → Text → ℕ → ℕ → SlugClaim
unfolding classify_slug_claim get_tenant_by_slug has_live_provision_lease
check_slug_availability db slug account now_ms now =
    unless_driven db (classify_slug_claim (get_tenant_by_slug db slug) account now_ms) now

-- UPDATE tenants … WHERE id and a guard … RETURNING *.
unfoldable pub returning_tenant :
    FleetDb → Text → (Tenant → Bool) → (Tenant → Tenant) → FleetDb × Option Tenant
returning_tenant db id guard f = (
  record db { tenants = update_where (λ t. has_tenant_id id t && guard t) f db.tenants },
  returning (λ t. has_tenant_id id t && guard t) f db.tenants,
)

-- The conditions of tier A, which the claim and the reclaim repeat.
abbrev pub qualifies : Text → Tenant → Bool
qualifies account t = t.account_id == account && not (is_some t.live_at) && is_tier_a t.status

abbrev pub is_undriven : FleetDb → ℕ → Tenant → Bool
is_undriven db now t = not (has_live_provision_lease db t.id now)

abbrev pub claimable_row : FleetDb → Text → ℕ → Tenant → Bool
claimable_row db account now t =
    qualifies account t && is_free t.reclaim_lease_until now && is_undriven db now t

abbrev pub leased : ℕ → Text → Tenant → Tenant
leased until token t = record t {
  reclaim_lease_until = some until;
  reclaim_lease_token = some token;
}

-- `claimReclaim`; `token` is what `randomUUID` answers, and the lease's proof.
unfoldable pub claim_reclaim : FleetDb → Text → Text → ℕ → Text → ℕ → FleetDb × Option Tenant
unfolding returning_tenant
claim_reclaim db id account seconds token now =
    returning_tenant db id (claimable_row db account now) (leased (now + seconds) token)

abbrev pub holds_token : Text → Tenant → Bool
holds_token token t = elim t.reclaim_lease_token [ none ↦ false | some k ↦ k == token ]

abbrev pub reclaimable_row : FleetDb → Text → Text → ℕ → Tenant → Bool
reclaimable_row db account token now t =
    qualifies account t
    && holds_token token t
    && is_held t.reclaim_lease_until now
    && is_undriven db now t

abbrev pub blanked : Tenant → Tenant
blanked t = record t {
  status = codes "pending";
  d1_database_id = none;
  r2_bucket_name = none;
  r2_token_id = none;
  script_name = none;
  endpoints_json = none;
  studio_release = none;
  studio_token_enc = none;
  reclaim_lease_until = none;
  reclaim_lease_token = none;
}

unfoldable pub reclaim_slug : FleetDb → Text → Text → Text → ℕ → FleetDb × Option Tenant
unfolding returning_tenant
reclaim_slug db id account token now =
    returning_tenant db id (reclaimable_row db account token now) blanked

abbrev pub teardownable : FleetDb → ℕ → Tenant → Bool
teardownable db now t = is_free t.reclaim_lease_until now && is_undriven db now t

abbrev pub torn : ℕ → Text → Tenant → Tenant
torn until token t = record t {
  status = if is_status t (codes "deleted") then codes "deleted" else codes "deleting";
  reclaim_lease_until = some until;
  reclaim_lease_token = some token;
}

unfoldable pub begin_teardown : FleetDb → Text → ℕ → Text → ℕ → FleetDb × Option Tenant
unfolding returning_tenant
begin_teardown db id seconds token now =
    returning_tenant db id (teardownable db now) (torn (now + seconds) token)

abbrev pub first_of : Option ℕ → ℕ → Option ℕ
first_of none now = some now
first_of (some at) now = some at

abbrev pub finish_marked : Bool → ℕ → Tenant → Tenant
finish_marked reaped now t = record t {
  status = if reaped then codes "deleted" else t.status;
  deleted_at = if reaped then first_of t.deleted_at now else t.deleted_at;
  reclaim_lease_until = none;
  reclaim_lease_token = none;
}

unfoldable pub finish_teardown : FleetDb → Text → Text → Bool → ℕ → FleetDb × Option Tenant
unfolding returning_tenant
finish_teardown db id token reaped now =
    returning_tenant db id (holds_token token) (finish_marked reaped now)

abbrev pub new_tenant : Text → Text → Text → Text → Text → Tenant
new_tenant id slug account status created = record {
  id = id;
  slug = slug;
  account_id = account;
  status = status;
  script_name = none;
  endpoints_json = none;
  runpod_mode = some (codes "dedicated");
  d1_database_id = none;
  r2_bucket_name = none;
  r2_token_id = none;
  studio_token_enc = none;
  studio_release = none;
  modules_release = none;
  created_at = created;
  live_at = none;
  suspended_at = none;
  suspended_reason = none;
  deleted_at = none;
  teardown_at = none;
  api_token_rotated_at = none;
  reclaim_lease_until = none;
  reclaim_lease_token = none;
}

-- `createTenant`; `created` is the text of the instant.
unfoldable pub create_tenant :
    FleetDb → Text → Text → Text → Text → Text → Result StoreError (FleetDb × Tenant)
create_tenant db id slug account status created =
    let t = new_tenant id slug account status created in
    if any (has_tenant_id id) db.tenants
    then err primary_key
    else if any (λ q. q.slug == slug) db.tenants
    then err unique_key
    else if any (λ a. a == account) db.accounts
    then ok (record db { tenants = db.tenants ++ t ∷ [] }, t)
    else err foreign_key
