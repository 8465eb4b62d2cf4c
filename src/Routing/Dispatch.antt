-- ===== src/Routing/Dispatch.antt =====
-- What reaches a tenant's studio, and what never does.
use vivijure_control_plane.Prelude.{
  ℕ, ◌≡◌, ◌↔◌, refl, ◌⊎◌, inl, inr, Bool, true, false, Option, none, some, Result, ok, err, arith,
  is_some, Option-cases,
}
use vivijure_control_plane.Prelude.Text.{Text, codes, text_eq, text_beq_iff}
use vivijure_control_plane.Tenants.{Tenant, routing_status_for, routing_live}
use vivijure_control_plane.Routing.{
  HostRoute, front_door, tenant_host, invalid_tenant, classify_host, tenant_domain_suffix, Request,
  Account, Plane, dispatched, tenant_refusal, resolve_session, strip_session_cookie,
  dispatch_request, injected_token, is_owner, route_session, route_live, route_found, route_slug,
  route_tenant_request, truthy_script,
}

-- A tenant is not refused exactly when its row is not deleted, not suspended and live: a status
-- outside the known ones is refused.
pub tenant_refusal_iff :
    (t : Tenant)
    → (tenant_refusal t ≡ none)
      ↔ ((t.deleted_at ≡ none) × (t.suspended_at ≡ none) × (t.status ≡ codes "live"))
unfolding tenant_refusal
tenant_refusal_iff t = (
  λ h. (
    absent t.deleted_at (ground arith),
    absent t.suspended_at (ground arith),
    (text_beq_iff t.status (codes "live")).0 (ground arith),
  ),
  λ (d, s, l). ground (arith, (text_beq_iff t.status (codes "live")).1 l),
)
  where
    absent : (o : Option ℕ) → is_some o ≡ false → o ≡ none
    absent none h = refl
    absent (some x) h = absurd (ground arith)

-- The two projections of the lifecycle agree: a row is dispatched exactly when it is not deleted and
-- the resolver's projection of it is live.
pub tenant_refusal-routing_status_for :
    (t : Tenant)
    → (tenant_refusal t ≡ none)
      ↔ ((is_some t.deleted_at ≡ false) × (routing_status_for t ≡ routing_live))
unfolding tenant_refusal routing_status_for
tenant_refusal-routing_status_for t = ground arith

-- What a dispatch has found of the tenant and made of the request.
pub record Dispatched (plane : Plane) (r : Request) (t : Tenant) (script : Text) (sent : Request)
    : Type 0 where
  pub servable : tenant_refusal t ≡ none
  pub is_script : t.script_name ≡ some script
  pub stripped : sent.cookie ≡ strip_session_cookie r.cookie
  pub granted :
      (sent.authorization ≡ r.authorization)
      ⊎ ((a : Account) × (resolve_session plane r.cookie ≡ some a) × (a.id ≡ t.account_id))

owner_of :
    (t : Tenant) (o : Option Account)
    → is_owner t o ≡ true
    → (a : Account) × (o ≡ some a) × (a.id ≡ t.account_id)
owner_of t none h = absurd (ground arith)
owner_of t (some a) h = (a, refl, (text_beq_iff a.id t.account_id).0 h)

truthy_is : (o : Option Text) (s : Text) → truthy_script o ≡ some s → o ≡ some s
truthy_is none s h = absurd (ground arith)
truthy_is (some x) s h = ground arith

grant :
    (plane : Plane) (r : Request) (t : Tenant)
    → ((dispatch_request r
          (injected_token plane t (is_owner t (resolve_session plane r.cookie)))).authorization
        ≡ r.authorization)
      ⊎ ((a : Account) × (resolve_session plane r.cookie ≡ some a) × (a.id ≡ t.account_id))
unfolding dispatch_request injected_token
grant plane r t = go (is_owner t (resolve_session plane r.cookie)) refl
  where
    go :
        (b : Bool)
        → is_owner t (resolve_session plane r.cookie) ≡ b
        → ((dispatch_request r
              (injected_token plane t (is_owner t (resolve_session plane r.cookie)))).authorization
            ≡ r.authorization)
          ⊎ ((a : Account) × (resolve_session plane r.cookie ≡ some a) × (a.id ≡ t.account_id))
    go true e = inr (owner_of t (resolve_session plane r.cookie) e)
    go false e = inl (ground arith)

route_session-dispatched :
    (plane : Plane) (r : Request) (t : Tenant) (name script : Text) (has_script : Text → Bool)
    (sent : Request)
    → route_session plane r t name has_script ≡ dispatched script sent
    → (name ≡ script)
      × (dispatch_request r (injected_token plane t (is_owner t (resolve_session plane r.cookie)))
          ≡ sent)
unfolding route_session
route_session-dispatched plane r t name script has_script sent h = (ground arith, ground arith)

route_live-dispatched :
    (plane : Plane) (r : Request) (t : Tenant) (script : Text) (sent : Request)
    → tenant_refusal t ≡ none
    → route_live plane r t ≡ dispatched script sent
    → Dispatched plane r t script sent
unfolding route_live
route_live-dispatched plane r t script sent servable h =
    elim (Option-cases (truthy_script t.script_name)) [
      | inl no_script ↦ absurd (ground arith)
      | inr (name, named) ↦ elim (Option-cases plane.has_script) [
        | inl unbound ↦ absurd (ground arith)
        | inr (has_script, bound) ↦
            let routed : route_session plane r t name has_script ≡ dispatched script sent =
              ground arith in
            let (same, is_sent) =
              route_session-dispatched plane r t name script has_script sent routed in
            record {
              servable = servable;
              is_script = rw (← same) (truthy_is t.script_name name named);
              stripped = rw (← is_sent) (unfold dispatch_request in refl);
              granted = rw (← is_sent) (grant plane r t);
            }
      ]
    ]

route_slug-dispatched :
    (plane : Plane) (r : Request) (slug script : Text) (sent : Request)
    → route_slug plane r slug ≡ dispatched script sent
    → (t : Tenant) × (plane.get_tenant_by_slug slug ≡ ok (some t))
      × Dispatched plane r t script sent
unfolding route_slug route_found
route_slug-dispatched plane r slug script sent h = go (plane.get_tenant_by_slug slug) refl
  where
    go :
        (o : Result Text (Option Tenant))
        → plane.get_tenant_by_slug slug ≡ o
        → (t : Tenant) × (plane.get_tenant_by_slug slug ≡ ok (some t))
          × Dispatched plane r t script sent
    go (err e) q = absurd (ground arith)
    go (ok none) q = absurd (ground arith)
    go (ok (some t)) q = elim (Option-cases (tenant_refusal t)) [
      | inl servable ↦ (t, q, route_live-dispatched plane r t script sent servable (ground arith))
      | inr (x, held) ↦ absurd (ground arith)
    ]

-- A request reaches a script only if its host names a tenant that the store holds and does not
-- refuse, and the script is that tenant's. Its cookies are those that the strip of the session cookie
-- leaves, and its authorization is the one it came with unless its session is of the account that
-- owns the tenant.
pub route_tenant_request_dispatched :
    (plane : Plane) (r : Request) (script : Text) (sent : Request)
    → route_tenant_request plane r ≡ dispatched script sent
    → (slug : Text) × (t : Tenant) × (classify_host r.host
          (tenant_domain_suffix plane.control_plane_host)
        ≡ tenant_host slug)
      × (plane.get_tenant_by_slug slug ≡ ok (some t))
      × Dispatched plane r t script sent
unfolding route_tenant_request
route_tenant_request_dispatched plane r script sent h =
    go (classify_host r.host (tenant_domain_suffix plane.control_plane_host)) refl
  where
    go :
        (o : HostRoute)
        → classify_host r.host (tenant_domain_suffix plane.control_plane_host) ≡ o
        → (slug : Text) × (t : Tenant) × (classify_host r.host
              (tenant_domain_suffix plane.control_plane_host)
            ≡ tenant_host slug)
          × (plane.get_tenant_by_slug slug ≡ ok (some t))
          × Dispatched plane r t script sent
    go front_door q = absurd (ground arith)
    go (invalid_tenant x) q = absurd (ground arith)
    go (tenant_host slug) q =
        let (t, found, d) = route_slug-dispatched plane r slug script sent (ground arith) in
        (slug, t, q, found, d)
