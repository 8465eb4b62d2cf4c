-- ===== src/Routing.antt =====
-- Routing by host name: src/routing.ts, the session reading of src/auth.ts and the origin of
-- src/env.ts. What lies outside of it is given: the store's reads, SHA-256, the decryption of a
-- studio token and the dispatch namespace. A read of the session that throws rejects the request
-- and is not modelled; neither are the log lines.
pub mod Host
pub mod Dispatch
mod Tests
use vivijure_control_plane.Prelude.{
  ℕ, ◌-◌, Bool, true, false, not, ◌&&◌, ◌||◌, Option, none, some, List, [], ◌∷◌, ◌++◌, Result, ok,
  err, ltb, length, any, filter, map, is_some, ◌==◌, nat_eq, if◌then◌else◌,
}
use vivijure_control_plane.Prelude.Text.{
  Text, codes, text_eq, text_beq, trim, lower, starts_with, is_empty,
}
use vivijure_control_plane.Prelude.Split.{split, join, first_part, ends_with, drop_last}
use vivijure_control_plane.Credits.{Instant}
use vivijure_control_plane.Tenants.{Tenant, validate_slug, is_status}

pub data HostRoute : Type 0 where
  front_door : HostRoute
  tenant_host : Text → HostRoute
  invalid_tenant : Text → HostRoute

-- `.replace(/\.$/, "")`.
unfoldable pub drop_root_dot : Text → Text
drop_root_dot [] = []
drop_root_dot (c ∷ []) = if c == b'.' then [] else c ∷ []
drop_root_dot (c ∷ d ∷ t) = c ∷ drop_root_dot (d ∷ t)

unfoldable pub normalize_host : Text → Text
unfolding drop_root_dot
normalize_host raw = drop_root_dot (first_part b':' (lower (trim raw)))

unfoldable pub normalize_suffix : Text → Text
unfolding drop_root_dot
normalize_suffix raw = drop_root_dot (lower (trim raw))

unfoldable pub classify_label : Text → HostRoute
classify_label label =
    if is_empty label
    then invalid_tenant (codes "empty tenant label")
    else if any (λ c. c == b'.') label
    then invalid_tenant (codes "multi-label host is not certificate-covered")
    else if is_some (validate_slug label)
    then invalid_tenant (codes "invalid tenant slug")
    else tenant_host label

unfoldable pub classify_under : Text → Text → HostRoute
unfolding classify_label
classify_under host suffix =
    if not (starts_with suffix (codes ".")) || ltb (length suffix) 2
    then front_door
    else if not (ends_with host suffix)
    then front_door
    else classify_label (drop_last (length suffix) host)

unfoldable pub classify_host : Option Text → Text → HostRoute
unfolding classify_under
classify_host none suffix = front_door
classify_host (some header) suffix =
    if is_empty header
    then front_door
    else classify_under (normalize_host header) (normalize_suffix suffix)

-- `tenantDomainSuffix` and `publicOrigin` of src/env.ts, from CONTROL_PLANE_HOST.
abbrev pub tenant_domain_suffix : Text → Text
tenant_domain_suffix host = codes "." ++ host

abbrev pub public_origin : Text → Text
public_origin host = codes "https://" ++ host

abbrev pub session_cookie : Text
session_cookie = codes "__Secure-vp_session"

-- The headers that routing reads or writes, and the others, which it passes on.
pub record Request : Type 0 where
  pub method : Text
  pub url : Text
  pub host : Option Text
  pub cookie : Option Text
  pub accept : Option Text
  pub authorization : Option Text
  pub other_headers : List (Text × Text)
  pub body : Option Text

pub record Refusal : Type 0 where
  pub status : ℕ
  pub message : Text
  pub retry_after : Option Text

abbrev pub refusal : ℕ → Text → Refusal
refusal status message = record { status = status; message = message; retry_after = none }

abbrev pub refusal_retry : ℕ → Text → Text → Refusal
refusal_retry status message after = record {
  status = status;
  message = message;
  retry_after = some after;
}

abbrev pub has_body : Request → Bool
has_body r = not (r.method == codes "GET") && not (r.method == codes "HEAD")

abbrev pub names_session : Text → Bool
names_session c = starts_with c (session_cookie ++ codes "=")

abbrev pub is_kept : Text → Bool
is_kept c = not (is_empty c) && not (names_session c)

abbrev pub rejoined : List Text → Option Text
rejoined [] = none
rejoined (c ∷ cs) = some (join (codes "; ") (c ∷ cs))

unfoldable pub strip_session_cookie : Option Text → Option Text
strip_session_cookie none = none
strip_session_cookie (some raw) =
    if is_empty raw then some raw else rejoined (filter is_kept (map trim (split b';' raw)))

abbrev pub injected_header : Option Text → Option Text → Option Text
injected_header none old = old
injected_header (some token) old = if is_empty token then old else some (codes "Bearer " ++ token)

unfoldable pub dispatch_request : Request → Option Text → Request
unfolding strip_session_cookie
dispatch_request r injected = record r {
  cookie = strip_session_cookie r.cookie;
  authorization = injected_header injected r.authorization;
  body = if has_body r then r.body else none;
}

-- `freshRequest`.
unfoldable pub fresh_request : Request → Request
fresh_request r = record r { body = if has_body r then r.body else none }

-- `includes`.
unfoldable pub includes : Text → Text → Bool
includes [] p = is_empty p
includes (c ∷ t) p = starts_with (c ∷ t) p || includes t p

unfoldable pub wants_html : Request → Bool
unfolding includes
wants_html r =
    r.method == codes "GET"
    && elim r.accept [ none ↦ false | some accept ↦ includes accept (codes "text/html") ]

unfoldable pub tenant_refusal : Tenant → Option Refusal
tenant_refusal t =
    if is_some t.deleted_at
    then some (refusal 404 (codes "No studio at this address."))
    else if is_some t.suspended_at
    then some (refusal 403 (codes "This studio is suspended. Contact support."))
    else if is_status t (codes "live")
    then none
    else if is_status t (codes "pending")
        || is_status t (codes "provisioning")
        || is_status t (codes "awaiting_go_live")
        || is_status t (codes "awaiting_invoke_key")
    then some (refusal_retry 503 (codes "This studio is still being set up.") (codes "30"))
    else if is_status t (codes "failed")
    then some (refusal 503 (codes "This studio failed to finish provisioning."))
    else some (refusal 404 (codes "No studio at this address."))

-- `readSessionCookie`: the first part that the cookie names, and what follows its first `=`.
abbrev pub value_of : List Text → Option Text
value_of [] = none
value_of (k ∷ v) = let s = join (codes "=") v in if is_empty s then none else some s

abbrev pub is_session : List Text → Bool
is_session [] = false
is_session (k ∷ v) = k == session_cookie

unfoldable pub session_of : List Text → Option Text
session_of [] = none
session_of (part ∷ parts) =
    let later = session_of parts in
    let pieces = split b'=' (trim part) in if is_session pieces then value_of pieces else later

unfoldable pub read_session_cookie : Option Text → Option Text
unfolding session_of
read_session_cookie none = none
read_session_cookie (some raw) = if is_empty raw then none else session_of (split b';' raw)

pub record Account : Type 0 where
  pub id : Text
  pub suspended_at : Option Text
  pub deleted_at : Option Text

-- A missing text and the empty one are falsy.
abbrev pub is_truthy : Option Text → Bool
is_truthy none = false
is_truthy (some s) = not (is_empty s)

-- What the plane is given: `getTenantBySlug` may throw; `get_session` answers the account of a
-- session; `decrypt` is `decryptStudioToken` under the installed keys, `none` where it throws;
-- `has_script` says whether the namespace yields a stub, and no namespace is bound without it.
pub record Plane : Type 0 where
  pub control_plane_host : Text
  pub get_tenant_by_slug : Text → Result Text (Option Tenant)
  pub get_session : Text → Instant → Option Text
  pub get_account_by_id : Text → Option Account
  pub sha256_hex : Text → Text
  pub now : Instant
  pub kek_installed : Bool
  pub decrypt : Text → Option Text
  pub has_script : Option (Text → Bool)

unfoldable pub resolve_session : Plane → Option Text → Option Account
resolve_session plane cookie = elim (read_session_cookie cookie) [
  | none ↦ none
  | some token ↦ elim (plane.get_session (plane.sha256_hex token) plane.now) [
    | none ↦ none
    | some account_id ↦ elim (plane.get_account_by_id account_id) [
      | none ↦ none
      | some account ↦
          if is_truthy account.suspended_at || is_truthy account.deleted_at
          then none
          else some account
    ]
  ]
]

pub data Routed : Type 0 where
  to_front_door : Routed
  refused : Refusal → Routed
  redirected : Text → Routed
  dispatched : Text → Request → Routed

abbrev pub is_owner : Tenant → Option Account → Bool
is_owner t none = false
is_owner t (some a) = a.id == t.account_id

unfoldable pub injected_token : Plane → Tenant → Bool → Option Text
injected_token plane t owner =
    if owner && plane.kek_installed && is_truthy t.studio_token_enc
    then (elim t.studio_token_enc [ none ↦ none | some enc ↦ plane.decrypt enc ])
    else none

-- From the session on: the namespace and the script are there.
unfoldable pub route_session : Plane → Request → Tenant → Text → (Text → Bool) → Routed
unfolding injected_token
route_session plane r t script has_script =
    let owner = is_owner t (resolve_session plane r.cookie) in
    if not owner && wants_html r
    then redirected (public_origin plane.control_plane_host ++ codes "/")
    else if has_script script
    then dispatched script (dispatch_request r (injected_token plane t owner))
    else refused (refusal 503 (codes "This studio is not available."))

abbrev pub truthy_script : Option Text → Option Text
truthy_script none = none
truthy_script (some s) = if is_empty s then none else some s

unfoldable pub route_live : Plane → Request → Tenant → Routed
unfolding route_session
route_live plane r t = elim (truthy_script t.script_name) [
  | none ↦ refused (refusal 503 (codes "This studio is not available yet."))
  | some script ↦ elim plane.has_script [
    | none ↦ refused (refusal 503 (codes "This studio is not available."))
    | some has_script ↦ route_session plane r t script has_script
  ]
]

unfoldable pub route_found : Plane → Request → Tenant → Routed
unfolding route_live
route_found plane r t = elim (tenant_refusal t) [ none ↦ route_live plane r t | some x ↦ refused x ]

unfoldable pub route_slug : Plane → Request → Text → Routed
unfolding route_found
route_slug plane r slug = elim (plane.get_tenant_by_slug slug) [
  | err _ ↦
      refused (refusal_retry 503 (codes "This studio is temporarily unavailable.") (codes "5"))
  | ok none ↦ refused (refusal 404 (codes "No studio at this address."))
  | ok (some t) ↦ route_found plane r t
]

unfoldable pub route_tenant_request : Plane → Request → Routed
unfolding route_slug
route_tenant_request plane r =
    elim (classify_host r.host (tenant_domain_suffix plane.control_plane_host)) [
      | front_door ↦ to_front_door
      | tenant_host slug ↦ route_slug plane r slug
      | invalid_tenant _ ↦ refused (refusal 404 (codes "No studio at this address."))
    ]
