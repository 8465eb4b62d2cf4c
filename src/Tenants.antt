-- ===== src/Tenants.antt =====
-- The identity of a tenant and what is projected from its row: src/tenants.ts, the lifecycle names
-- of src/store.ts, `readRunPodMode` of src/runpod-pool.ts and src/tenant-resolver.ts. The column
-- `status` holds any text. `JSON.parse` is the
-- parameter `parse`, which answers `none` where it throws.
pub mod Slug
pub mod View
pub mod Tests
use vivijure_control_plane.Prelude.{
  ℕ, Bool, true, false, not, ◌&&◌, ◌||◌, Option, none, some, List, [], ◌∷◌, ◌++◌, leb, ltb, length,
  all, any, is_some, ◌==◌, nat_eq, if◌then◌else◌,
}
use vivijure_control_plane.Prelude.Text.{
  Text, codes, text_eq, text_beq, is_digit, starts_with, is_empty,
}
use vivijure_control_plane.Credits.{Instant}

pub data SlugRejection : Type 0 where
  too_short too_long bad_shape reserved punycode : SlugRejection

abbrev pub is_alnum : ℕ → Bool
is_alnum c = (leb 97 c && leb c 122) || is_digit c

abbrev pub is_slug_unit : ℕ → Bool
is_slug_unit c = is_alnum c || c == b'-'

abbrev pub ends_alnum : Text → Bool
ends_alnum [] = false
ends_alnum (c ∷ []) = is_alnum c
ends_alnum (c ∷ d ∷ t) = ends_alnum (d ∷ t)

-- SLUG_RE: one letter or digit, from 1 to 30 units of the slug, one letter or digit.
unfoldable pub slug_re : Text → Bool
slug_re [] = false
slug_re (c ∷ t) =
    is_alnum c && leb 2 (length t) && leb (length t) 31 && all is_slug_unit t && ends_alnum t

unfoldable pub reserved_labels : List Text
reserved_labels =
    codes "www"
    ∷ codes "api"
    ∷ codes "admin"
    ∷ codes "administrator"
    ∷ codes "root"
    ∷ codes "demo"
    ∷ codes "studio"
    ∷ codes "mcp"
    ∷ codes "studio-mcp"
    ∷ codes "app"
    ∷ codes "status"
    ∷ codes "mail"
    ∷ codes "smtp"
    ∷ codes "imap"
    ∷ codes "ns"
    ∷ codes "ns1"
    ∷ codes "ns2"
    ∷ codes "dns"
    ∷ codes "cdn"
    ∷ codes "static"
    ∷ codes "assets"
    ∷ codes "support"
    ∷ codes "help"
    ∷ codes "docs"
    ∷ codes "blog"
    ∷ codes "billing"
    ∷ codes "account"
    ∷ codes "accounts"
    ∷ codes "auth"
    ∷ codes "login"
    ∷ codes "signup"
    ∷ codes "security"
    ∷ codes "abuse"
    ∷ codes "postmaster"
    ∷ codes "webmaster"
    ∷ codes "test"
    ∷ codes "staging"
    ∷ codes "dev"
    ∷ codes "internal"
    ∷ codes "vivijure"
    ∷ []

-- `none` is `{ ok: true }`.
unfoldable pub validate_slug : Text → Option SlugRejection
unfolding slug_re reserved_labels
validate_slug slug =
    if ltb (length slug) 3
    then some too_short
    else if ltb 32 (length slug)
    then some too_long
    else if not (slug_re slug)
    then some bad_shape
    else if starts_with slug (codes "xn--")
    then some punycode
    else if any (λ r. r == slug) reserved_labels
    then some reserved
    else none

unfoldable pub slug_rejection_message : SlugRejection → Text
slug_rejection_message too_short = codes "must be at least 3 characters"
slug_rejection_message too_long = codes "must be at most 32 characters"
slug_rejection_message bad_shape =
    codes "use lowercase letters, numbers, and hyphens; must start and end with a letter or number"
slug_rejection_message reserved = codes "that name is reserved"
slug_rejection_message punycode = codes "use plain letters, numbers, and hyphens"

-- A JSON value, as far as the readers of `endpoints_json` tell values apart; an object lists its
-- fields, no name twice, as `JSON.parse` leaves it.
mutual
  pub data Json : Type 0 where
    string : Text → Json
    array : JsonList → Json
    object : JsonFields → Json
    scalar : Json

  pub data JsonList : Type 0 where
    nil : JsonList
    cons : Json → JsonList → JsonList

  pub data JsonFields : Type 0 where
    no_field : JsonFields
    field : Text → Json → JsonFields → JsonFields

pub record Tenant : Type 0 where
  pub id : Text
  pub slug : Text
  pub account_id : Text
  pub status : Text
  pub script_name : Option Text
  pub endpoints_json : Option Text
  pub runpod_mode : Option Text
  pub d1_database_id : Option Text
  pub r2_bucket_name : Option Text
  pub r2_token_id : Option Text
  pub studio_token_enc : Option Text
  pub studio_release : Option Text
  pub modules_release : Option Text
  pub created_at : Text
  pub live_at : Option Instant
  pub suspended_at : Option Instant
  pub suspended_reason : Option Text
  pub deleted_at : Option Instant
  pub teardown_at : Option Instant
  pub api_token_rotated_at : Option Instant
  pub reclaim_lease_until : Option Instant
  pub reclaim_lease_token : Option Text

abbrev pub is_status : Tenant → Text → Bool
is_status t s = t.status == s

-- `normalizeLifecycle` and `isAwaitingGoLive`.
unfoldable pub normalize_lifecycle : Text → Text
normalize_lifecycle status =
    if status == codes "awaiting_invoke_key" then codes "awaiting_go_live" else status

unfoldable pub is_awaiting_go_live : Option Text → Bool
is_awaiting_go_live none = false
is_awaiting_go_live (some status) =
    status == codes "awaiting_go_live" || status == codes "awaiting_invoke_key"

pub data RunPodMode : Type 0 where
  shared dedicated : RunPodMode

unfoldable pub read_runpod_mode : Option Text → RunPodMode
read_runpod_mode none = dedicated
read_runpod_mode (some raw) = if raw == codes "shared" then shared else dedicated

pub record TenantView : Type 0 where
  pub id : Text
  pub slug : Text
  pub status : Text
  pub lifecycle : Text
  pub url : Option Text
  pub studio_release : Option Text
  pub modules_release : Option Text
  pub created_at : Text
  pub live_at : Option Instant
  pub suspended_reason : Option Text
  pub runpod_mode : Option RunPodMode

abbrev pub settled_mode : Option Text → Option Text → Option RunPodMode
settled_mode none raw = none
settled_mode (some endpoints) raw = if is_empty endpoints then none else some (read_runpod_mode raw)

unfoldable pub tenant_view : Tenant → Text → TenantView
unfolding normalize_lifecycle
tenant_view t suffix =
    let suspended = is_some t.suspended_at in
    let lifecycle = normalize_lifecycle t.status in
    record {
      id = t.id;
      slug = t.slug;
      status = if suspended then codes "suspended" else lifecycle;
      lifecycle = lifecycle;
      url =
          if is_status t (codes "live") && not suspended
          then some (codes "https://" ++ (t.slug ++ suffix))
          else none;
      studio_release = t.studio_release;
      modules_release = t.modules_release;
      created_at = t.created_at;
      live_at = t.live_at;
      suspended_reason = t.suspended_reason;
      runpod_mode = settled_mode t.endpoints_json t.runpod_mode;
    }

unfoldable pub tenant_script_name : Text → Text
tenant_script_name slug = codes "tenant-" ++ (slug ++ codes "-studio")

pub record EndpointRow : Type 0 where
  pub id : Text
  pub name : Option Text
  pub label : Option Text

-- A field of an object, if it is there and a string.
unfoldable pub string_field : Text → JsonFields → Option Text
string_field k no_field = none
string_field k (field n (string s) rest) = if n == k then some s else string_field k rest
string_field k (field n _ rest) = if n == k then none else string_field k rest

abbrev pub named_row : JsonFields → Option Text → Option EndpointRow
named_row fields none = none
named_row fields (some x) = some (record {
  id = x;
  name = string_field (codes "name") fields;
  label = string_field (codes "label") fields;
})

-- What one element of the array gives to the recipe.
unfoldable pub endpoint_row : Json → Option EndpointRow
unfolding string_field
endpoint_row (string v) = some (record { id = v; name = none; label = none })
endpoint_row (object fields) = named_row fields (string_field (codes "id") fields)
endpoint_row _ = none

abbrev pub row_then : Option EndpointRow → List EndpointRow → List EndpointRow
row_then none rows = rows
row_then (some r) rows = r ∷ rows

unfoldable pub rows_of : JsonList → List EndpointRow
unfolding endpoint_row
rows_of nil = []
rows_of (cons v vs) = row_then (endpoint_row v) (rows_of vs)

unfoldable pub id_of : Json → Option Text
unfolding string_field
id_of (string v) = some v
id_of (object fields) = string_field (codes "id") fields
id_of _ = none

abbrev pub id_then : Option Text → List Text → List Text
id_then none ids = ids
id_then (some x) ids = x ∷ ids

unfoldable pub ids_of : JsonList → List Text
unfolding id_of
ids_of nil = []
ids_of (cons v vs) = id_then (id_of v) (ids_of vs)

-- The elements of the stored array; a missing, empty, unreadable or other value has none.
unfoldable pub parsed_endpoints : (Text → Option Json) → Tenant → JsonList
parsed_endpoints parse t = elim t.endpoints_json [
  | none ↦ nil
  | some raw ↦
      if is_empty raw
      then nil
      else elim (parse raw) [ none ↦ nil | some (array vs) ↦ vs | some _ ↦ nil ]
]

unfoldable pub tenant_endpoint_recipe : (Text → Option Json) → Tenant → List EndpointRow
unfolding parsed_endpoints rows_of
tenant_endpoint_recipe parse t = rows_of (parsed_endpoints parse t)

unfoldable pub tenant_endpoint_ids : (Text → Option Json) → Tenant → List Text
unfolding parsed_endpoints ids_of
tenant_endpoint_ids parse t = ids_of (parsed_endpoints parse t)

-- `routingStatusFor` of src/tenant-resolver.ts.
pub data RoutingStatus : Type 0 where
  routing_live routing_suspended routing_provisioning routing_unknown : RoutingStatus

unfoldable pub routing_status_for : Tenant → RoutingStatus
routing_status_for t =
    if is_some t.suspended_at
    then routing_suspended
    else if is_status t (codes "live")
    then routing_live
    else if is_status t (codes "provisioning")
    then routing_provisioning
    else routing_unknown

pub record RoutingTenantRecord : Type 0 where
  pub slug : Text
  pub status : RoutingStatus
  pub script_name : Text

-- `resolve`, over what `getTenantBySlug` answers.
unfoldable pub resolve : (Text → Option Tenant) → Text → Option RoutingTenantRecord
unfolding routing_status_for
resolve get_tenant_by_slug slug = elim (get_tenant_by_slug slug) [
  | none ↦ none
  | some t ↦ some (record {
    slug = t.slug;
    status = routing_status_for t;
    script_name = elim t.script_name [ none ↦ [] | some s ↦ s ];
  })
]
