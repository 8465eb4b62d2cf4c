-- ===== src/Fleet/Resources.antt =====
-- Which tenant owns a physical resource: the statements of src/store-d1.ts over
-- `tenant_resource_ownership`, and the rows that refer to a resource.
use vivijure_control_plane.Prelude.{
  ℕ, Bool, true, false, not, ◌&&◌, Option, none, some, List, [], ◌∷◌, ◌++◌, any, find?, filter,
  ◌==◌, if◌then◌else◌,
}
use vivijure_control_plane.Prelude.Text.{Text, codes, text_eq, is_empty}
use vivijure_control_plane.Prelude.Rows.{update_where}
use vivijure_control_plane.Tenants.{Tenant, is_status}
use vivijure_control_plane.Fleet.{FleetDb, update_tenant}
use vivijure_control_plane.Fleet.Reclaim.{get_tenant_by_id}

pub data ResourceKind : Type 0 where
  d1 r2_bucket r2_token worker : ResourceKind

unfoldable pub same_kind : ResourceKind → ResourceKind → Bool
same_kind d1 d1 = true
same_kind r2_bucket r2_bucket = true
same_kind r2_token r2_token = true
same_kind worker worker = true
same_kind _ _ = false

pub record Ownership : Type 0 where
  pub resource_kind : ResourceKind
  pub resource_key : Text
  pub owner_tenant_id : Text
  pub provisioned_at : ℕ

pub record OwnerDb : Type 0 where
  pub fleet : FleetDb
  pub owners : List Ownership

abbrev pub is_resource : ResourceKind → Text → Ownership → Bool
is_resource kind key o = same_kind o.resource_kind kind && o.resource_key == key

abbrev pub owner_of_row : Option Ownership → Option Text
owner_of_row none = none
owner_of_row (some o) = some o.owner_tenant_id

unfoldable pub get_resource_owner : OwnerDb → ResourceKind → Text → Option Text
get_resource_owner db kind key =
    if is_empty key then none else owner_of_row (find? (is_resource kind key) db.owners)

-- A row that is there, neither deleted nor failed.
abbrev pub is_live_row : Option Tenant → Bool
is_live_row none = false
is_live_row (some t) = not (is_status t (codes "deleted")) && not (is_status t (codes "failed"))

-- The owner before: another tenant, whose row is live.
abbrev pub held_by_other : OwnerDb → Option Text → Text → Bool
held_by_other db none owner = false
held_by_other db (some prior) owner =
    not (prior == owner) && is_live_row (get_tenant_by_id db.fleet prior)

-- INSERT … ON CONFLICT DO UPDATE.
unfoldable pub upsert_owner : List Ownership → ResourceKind → Text → Text → ℕ → List Ownership
upsert_owner rows kind key owner now =
    if any (is_resource kind key) rows
    then update_where (is_resource kind key)
        (λ o. record o { owner_tenant_id = owner; provisioned_at = now }) rows
    else rows
      ++ record {
        resource_kind = kind;
        resource_key = key;
        owner_tenant_id = owner;
        provisioned_at = now;
      }
        ∷ []

unfoldable pub claim_resource_ownership : OwnerDb → ResourceKind → Text → Text → ℕ → OwnerDb
unfolding get_resource_owner upsert_owner
claim_resource_ownership db kind key owner now =
    if is_empty key
    then db
    else if held_by_other db (get_resource_owner db kind key) owner
    then db
    else record db { owners = upsert_owner db.owners kind key owner now }

abbrev pub column_of : ResourceKind → Tenant → Option Text
column_of d1 t = t.d1_database_id
column_of r2_bucket t = t.r2_bucket_name
column_of r2_token t = t.r2_token_id
column_of worker t = t.script_name

abbrev pub without_column : ResourceKind → Tenant → Tenant
without_column d1 t = record t { d1_database_id = none }
without_column r2_bucket t = record t { r2_bucket_name = none }
without_column r2_token t = record t { r2_token_id = none }
without_column worker t = record t { script_name = none }

abbrev pub column_read : ResourceKind → Option Tenant → Option Text
column_read kind none = none
column_read kind (some t) = column_of kind t

abbrev pub release_owner : ResourceKind → Option Text → Text → List Ownership → List Ownership
release_owner kind none id rows = rows
release_owner kind (some key) id rows =
    if is_empty key
    then rows
    else filter (λ o. not (is_resource kind key o && o.owner_tenant_id == id)) rows

unfoldable pub clear_tenant_resource : OwnerDb → Text → ResourceKind → OwnerDb
unfolding update_tenant
clear_tenant_resource db id kind =
    let key = column_read kind (get_tenant_by_id db.fleet id) in
    record {
      fleet = update_tenant db.fleet id (without_column kind);
      owners = release_owner kind key id db.owners;
    }
