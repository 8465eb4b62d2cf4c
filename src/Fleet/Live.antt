-- ===== src/Fleet/Live.antt =====
-- The instant at which a tenant first went live is a high-water mark, and its slug stays its own.
use vivijure_control_plane.Prelude.{
  ℕ, ◌+◌, ◌≡◌, ◌∙◌, refl, ap, subst, Bool, true, false, none, some, [], ◌∷◌, ◌++◌, ok, arith, any,
  find?, is_some, ◌==◌, nat_eq, find?-append_some, Bool-cases, inl, inr,
}
use vivijure_control_plane.Prelude.Text.{Text, codes, text_eq}
use vivijure_control_plane.Prelude.Rows.{
  update_where, find?-update_where, Distinct-update_where, Distinct-insert,
}
use vivijure_control_plane.Tenants.{Tenant, is_status}
use vivijure_control_plane.Fleet.{
  FleetDb, has_tenant_id, update_tenant, set_tenant_status, suspend_tenant, resume_tenant,
}
use vivijure_control_plane.Fleet.Reclaim.{
  unavailable, classify_row, classify_slug_claim, get_tenant_by_slug, check_slug_availability,
  unless_driven, returning_tenant, claimable_row, reclaimable_row, leased, torn, blanked,
  finish_marked, claim_reclaim, reclaim_slug, begin_teardown, finish_teardown, create_tenant,
  new_tenant,
}
use vivijure_control_plane.Fleet.Tier.{
  tenant_id, tenant_slug, IsUnique, find?-slug, returning_tenant_lost,
}

-- One statement over `tenants`: a new row, a status, a suspension, or a lease's work.
pub data TenantStep (db : FleetDb) : FleetDb → Type 0 where
  creates :
      {db' : FleetDb} {made : Tenant} (id slug account status created : Text)
      → create_tenant db id slug account status created ≡ ok (db', made)
      → TenantStep db db'
  sets_status : (id status : Text) (now : ℕ) → TenantStep db (set_tenant_status db id status now)
  suspends : (id reason : Text) (now : ℕ) → TenantStep db (suspend_tenant db id reason now)
  resumes : (id : Text) → TenantStep db (resume_tenant db id)
  claims_row :
      (id account : Text) (seconds : ℕ) (token : Text) (now : ℕ)
      → TenantStep db (claim_reclaim db id account seconds token now).0
  reclaims :
      (id account token : Text) (now : ℕ) → TenantStep db (reclaim_slug db id account token now).0
  begins :
      (id : Text) (seconds : ℕ) (token : Text) (now : ℕ)
      → TenantStep db (begin_teardown db id seconds token now).0
  ends :
      (id token : Text) (reaped : Bool) (now : ℕ)
      → TenantStep db (finish_teardown db id token reaped now).0

pub data TenantReach (start : FleetDb) : FleetDb → Type 0 where
  at_start : TenantReach start start
  then_step : {db db' : FleetDb} → TenantReach start db → TenantStep db db' → TenantReach start db'

-- The row of a tenant that has been live since an instant.
pub record IsLiveRow (db : FleetDb) (id slug account : Text) (at : ℕ) : Type 0 where
  pub row : Tenant
  pub unique : IsUnique db
  pub found : find? (has_tenant_id id) db.tenants ≡ some row
  pub since : row.live_at ≡ some at
  pub slug_is : row.slug ≡ slug
  pub account_is : row.account_id ≡ account

-- What a statement leaves of a row.
record IsMild (f : Tenant → Tenant) : Type 0 where
  id_kept : (t : Tenant) → (f t).id ≡ t.id
  slug_kept : (t : Tenant) → (f t).slug ≡ t.slug
  account_kept : (t : Tenant) → (f t).account_id ≡ t.account_id
  live_kept : (t : Tenant) (at : ℕ) → t.live_at ≡ some at → (f t).live_at ≡ some at

module _ {id slug account : Text} {at : ℕ} (db : FleetDb) where
  updated_live :
      (p : Tenant → Bool) (f : Tenant → Tenant)
      → IsMild f
      → IsLiveRow db id slug account at
      → IsLiveRow (record db { tenants = update_where p f db.tenants }) id slug account at
  updated_live p f mild live =
      let there = find?-update_where tenant_id p f mild.id_kept id db.tenants live.row live.found in
      let still : IsUnique (record db { tenants = update_where p f db.tenants }) = record {
        ids = Distinct-update_where tenant_id p f mild.id_kept db.tenants live.unique.ids;
        slugs = Distinct-update_where tenant_slug p f mild.slug_kept db.tenants live.unique.slugs;
      } in
      elim (Bool-cases (p live.row)) [
        | inl hit ↦ record {
          row = f live.row;
          unique = still;
          found = there ∙ rw hit refl;
          since = mild.live_kept live.row at live.since;
          slug_is = mild.slug_kept live.row ∙ live.slug_is;
          account_is = mild.account_kept live.row ∙ live.account_is;
        }
        | inr miss ↦ record {
          row = live.row;
          unique = still;
          found = there ∙ rw miss refl;
          since = live.since;
          slug_is = live.slug_is;
          account_is = live.account_is;
        }
      ]

  inserted_live :
      {db' : FleetDb} {made : Tenant} (new old new_account status created : Text)
      → create_tenant db new old new_account status created ≡ ok (db', made)
      → IsLiveRow db id slug account at
      → IsLiveRow db' id slug account at
  unfolding create_tenant
  inserted_live {db'} new old new_account status created h live =
      let t : Tenant = new_tenant new old new_account status created in
      let same : record db { tenants = db.tenants ++ t ∷ [] } ≡ db' = ground arith in
      let fresh : any (has_tenant_id new) db.tenants ≡ false = ground arith in
      let free : any (λ (k : Tenant). k.slug == old) db.tenants ≡ false = ground arith in
      subst (λ d. IsLiveRow d id slug account at) same
        (record {
          row = live.row;
          unique = record {
            ids = Distinct-insert tenant_id db.tenants t live.unique.ids fresh;
            slugs = Distinct-insert tenant_slug db.tenants t live.unique.slugs free;
          };
          found = find?-append_some (has_tenant_id id) db.tenants (t ∷ []) live.row live.found;
          since = live.since;
          slug_is = live.slug_is;
          account_is = live.account_is;
        })

mild :
    (f : Tenant → Tenant)
    → ((t : Tenant)
        → ((f t).id ≡ t.id)
          × ((f t).slug ≡ t.slug)
          × ((f t).account_id ≡ t.account_id)
          × ((f t).live_at ≡ t.live_at))
    → IsMild f
mild f keeps = record {
  id_kept = λ t. (keeps t).0;
  slug_kept = λ t. (keeps t).1;
  account_kept = λ t. (keeps t).2;
  live_kept = λ t at h. (keeps t).3 ∙ h;
}

TenantStep-live :
    {db db' : FleetDb} {id slug account : Text} {at : ℕ}
    → TenantStep db db'
    → IsLiveRow db id slug account at
    → IsLiveRow db' id slug account at
unfolding update_tenant set_tenant_status suspend_tenant resume_tenant returning_tenant
    claim_reclaim reclaim_slug begin_teardown finish_teardown
TenantStep-live {db} (creates id slug account status created h) live =
    inserted_live db id slug account status created h live
TenantStep-live {db} (sets_status id status now) live =
    updated_live db (has_tenant_id id) _
      (record {
        id_kept = λ t. refl;
        slug_kept = λ t. refl;
        account_kept = λ t. refl;
        live_kept = λ t at h. ground arith;
      })
      live
TenantStep-live {db} (suspends id reason now) live =
    updated_live db (has_tenant_id id) _ (mild _ (λ t. (refl, refl, refl, refl))) live
TenantStep-live {db} (resumes id) live =
    updated_live db (has_tenant_id id) _ (mild _ (λ t. (refl, refl, refl, refl))) live
TenantStep-live {db} (claims_row id account seconds token now) live =
    updated_live db _ (leased (now + seconds) token) (mild _ (λ t. (refl, refl, refl, refl))) live
TenantStep-live {db} (reclaims id account token now) live =
    updated_live db _ blanked (mild _ (λ t. (refl, refl, refl, refl))) live
TenantStep-live {db} (begins id seconds token now) live =
    updated_live db _ (torn (now + seconds) token) (mild _ (λ t. (refl, refl, refl, refl))) live
TenantStep-live {db} (ends id token reaped now) live =
    updated_live db _ (finish_marked reaped now) (mild _ (λ t. (refl, refl, refl, refl))) live

TenantReach-live :
    {db db' : FleetDb} {id slug account : Text} {at : ℕ}
    → TenantReach db db'
    → IsLiveRow db id slug account at
    → IsLiveRow db' id slug account at
TenantReach-live at_start live = live
TenantReach-live (then_step r step) live = TenantStep-live step (TenantReach-live r live)

refused_row :
    (t : Tenant) (other : Text) (now_ms at : ℕ)
    → t.live_at ≡ some at
    → (reason : Text) × (classify_row t other now_ms ≡ unavailable reason)
unfolding classify_row
refused_row t other now_ms at h = elim (Bool-cases (t.account_id == other)) [
  | inl own ↦ elim (Bool-cases (is_status t (codes "deleted"))) [
    | inl gone ↦ (
      codes "that name belonged to a studio that has been deleted, and cannot be reused",
      ground arith,
    )
    | inr there ↦ (codes "you already have a studio at that name", ground arith)
  ]
  | inr foreign ↦ (codes "that name is taken", ground arith)
]

-- A tenant that has gone live keeps the instant at which it first did, its slug and its account through
-- every sequence of creations, status changes, suspensions, claims, reclaims and teardowns; after
-- them the slug is offered to no account, no account's claim of the row is granted, and no reclaim
-- blanks it.
pub live_slug_never_reclaimed :
    (db db' : FleetDb) (id slug account : Text) (at : ℕ) (other token : Text)
    (seconds now_ms now : ℕ)
    → IsLiveRow db id slug account at
    → TenantReach db db'
    → IsLiveRow db' id slug account at
      × ((reason : Text) × (check_slug_availability db' slug other now_ms now ≡ unavailable reason))
      × (claim_reclaim db' id other seconds token now ≡ (db', none))
      × (reclaim_slug db' id other token now ≡ (db', none))
unfolding check_slug_availability classify_slug_claim get_tenant_by_slug claim_reclaim reclaim_slug
live_slug_never_reclaimed db db' id slug account at other token seconds now_ms now live run =
    let after = TenantReach-live run live in
    let t = after.row in
    let by_slug : find? (λ q. q.slug == slug) db'.tenants ≡ some t =
      subst (λ k. find? (λ q. q.slug == k) db'.tenants ≡ some t) after.slug_is
        (find?-slug db'.tenants id t after.unique.slugs after.found) in
    let (reason, refused) = refused_row t other now_ms at after.since in
    let ran : is_some t.live_at ≡ true = ground arith in
    (
      after,
      (reason, rw by_slug (ap (λ c. unless_driven db' c now) refused)),
      returning_tenant_lost db' id (claimable_row db' other now) (leased (now + seconds) token) t
          after.unique after.found (ground arith),
      returning_tenant_lost db' id (reclaimable_row db' other token now) blanked t after.unique
          after.found (ground arith),
    )
