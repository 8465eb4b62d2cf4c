-- ===== src/Fleet/Tier.antt =====
-- The leases on a tenant's row: one holder at a time, and only of a row that qualifies.
use vivijure_control_plane.Prelude.{
  ℕ, ◌+◌, ◌*◌, ◌≤◌, ◌≡◌, ◌∙◌, ◌⊎◌, inl, inr, refl, sym, ap, subst, Bool, true, false, ◌&&◌, Option,
  none, some, List, [], ◌∷◌, arith, any, find?, count, ◌==◌, nat_eq, Option-cases, Bool-cases,
}
use vivijure_control_plane.Prelude.Text.{Text, text_eq, text_beq_iff}
use vivijure_control_plane.Prelude.Distinct.{Distinct}
use vivijure_control_plane.Prelude.Rows.{
  returning, same_key, has_key_is, update_where_idle, returning-none, count_found, count_missing,
  find?-guarded, find?-update_where, Distinct-update_where,
}
use vivijure_control_plane.Tenants.{Tenant}
use vivijure_control_plane.Fleet.{FleetDb, has_tenant_id, is_free}
use vivijure_control_plane.Fleet.Reclaim.{
  available, handle_of, classify_row, classify_slug_claim, lease_is_live, get_tenant_by_slug,
  check_slug_availability, unless_driven, returning_tenant, claimable_row, reclaimable_row,
  teardownable, leased, torn, blanked, finish_marked, holds_token, claim_reclaim, reclaim_slug,
  begin_teardown, finish_teardown,
}

abbrev pub tenant_id : Tenant → Text
tenant_id t = t.id

abbrev pub tenant_slug : Tenant → Text
tenant_slug t = t.slug

-- The primary key and the unique slug of `tenants`.
pub record IsUnique (db : FleetDb) : Type 0 where
  pub ids : Distinct (same_key tenant_id) db.tenants
  pub slugs : Distinct (same_key tenant_slug) db.tenants

pub find?-slug :
    (ts : List Tenant) (x : Text) (t : Tenant)
    → Distinct (same_key tenant_slug) ts
    → find? (has_tenant_id x) ts ≡ some t
    → find? (λ q. q.slug == t.slug) ts ≡ some t
find?-slug [] x t d h = absurd (ground arith)
find?-slug (q ∷ ts) x t (d, ds) h = elim (Bool-cases (has_tenant_id x q)) [
  | inl hit ↦
      let is_row : q ≡ t = ground arith in
      subst (λ r. find? (λ k. k.slug == r.slug) (q ∷ ts) ≡ some r) is_row
        (rw ((text_beq_iff q.slug q.slug).1 refl) refl)
  | inr miss ↦
      let later : find? (has_tenant_id x) ts ≡ some t = ground arith in
      let ih = find?-slug ts x t ds later in
      let other : (q.slug == t.slug) ≡ false = apart ts later d in rw other ih
]
  where
    apart :
        (rs : List Tenant)
        → find? (has_tenant_id x) rs ≡ some t
        → any (same_key tenant_slug q) rs ≡ false
        → (q.slug == t.slug) ≡ false
    apart [] f a = absurd (ground arith)
    apart (r ∷ rs) f a =
        ground (arith, apart rs, text_beq_iff q.slug t.slug, text_beq_iff t.slug q.slug)

module _ (db : FleetDb) (id : Text) (guard : Tenant → Bool) (f : Tenant → Tenant) where
  pub returning_tenant_lost :
      (t : Tenant)
      → IsUnique db
      → find? (has_tenant_id id) db.tenants ≡ some t
      → guard t ≡ false
      → returning_tenant db id guard f ≡ (db, none)
  unfolding returning_tenant
  returning_tenant_lost t unique found shut =
      let none_met : count (λ k. has_tenant_id id k && guard k) db.tenants ≡ 0 =
        ground (arith, count_found tenant_id id guard db.tenants t unique.ids found) in
      rw
        (
          update_where_idle (λ k. has_tenant_id id k && guard k) f db.tenants none_met,
          returning-none (λ k. has_tenant_id id k && guard k) f db.tenants none_met,
        )
        refl

  pub returning_tenant_won :
      (q : Tenant)
      → ((t : Tenant) → (f t).id ≡ t.id)
      → IsUnique db
      → (returning_tenant db id guard f).1 ≡ some q
      → (t : Tenant) × (find? (has_tenant_id id) db.tenants ≡ some t)
        × (guard t ≡ true)
        × (f t ≡ q)
        × (find? (has_tenant_id id) (returning_tenant db id guard f).0.tenants ≡ some q)
  unfolding returning_tenant returning
  returning_tenant_won q keeps unique won =
      elim (Option-cases (find? (has_tenant_id id) db.tenants)) [
        | inl absent ↦ absurd (
            ground (
              arith,
              returning-none (λ k. has_tenant_id id k && guard k) f db.tenants
                  (count_missing tenant_id id guard db.tenants absent),
            ))
        | inr (t, found) ↦
            let met = find?-guarded tenant_id id guard db.tenants t unique.ids found in
            let passed : guard t ≡ true = ground (arith, met) in
            let is_q : f t ≡ q = ground (arith, met) in
            let hit : has_tenant_id id t ≡ true =
              (text_beq_iff t.id id).1 (has_key_is tenant_id id db.tenants t found) in
            (
              t,
              found,
              passed,
              is_q,
              ground (
                arith,
                find?-update_where tenant_id (λ k. has_tenant_id id k && guard k) f keeps id
                    db.tenants t found,
              ),
            )
      ]

-- A claim that wins was on offer: the reason that the owner is shown and the statement that decides
-- agree on the tier, the lease and the driver, at clocks that agree.
pub claim_reclaim_offered :
    (db db' : FleetDb) (id account : Text) (seconds : ℕ) (token : Text) (now : ℕ) (t : Tenant)
    → IsUnique db
    → claim_reclaim db id account seconds token now ≡ (db', some t)
    → check_slug_availability db t.slug account (now * 1000) now ≡ available (some (handle_of t))
unfolding claim_reclaim check_slug_availability classify_slug_claim classify_row lease_is_live
    get_tenant_by_slug
claim_reclaim_offered db db' id account seconds token now t unique won =
    let result : (returning_tenant db id (claimable_row db account now)
          (leased (now + seconds) token)).1
        ≡ some t =
      ap (λ (p : FleetDb × Option Tenant). p.1) won in
    let (r, found, passed, is_t, after) =
      returning_tenant_won db id (claimable_row db account now) (leased (now + seconds) token) t
        (λ k. refl) unique result in
    let by_slug : find? (λ q. q.slug == t.slug) db.tenants ≡ some r =
      subst (λ k. find? (λ q. q.slug == k) db.tenants ≡ some r) (ap tenant_slug is_t)
        (find?-slug db.tenants id r unique.slugs found) in
    let offered : classify_row r account (now * 1000) ≡ available (some (handle_of r)) =
      ground (arith, free_is r.reclaim_lease_until) in
    rw by_slug (
      ap (λ c. unless_driven db c now) offered
      ∙ undriven r passed
      ∙ ap (λ k. available (some (handle_of k))) is_t)
  where
    free_is : (o : Option ℕ) → is_free o now ≡ true → lease_is_live o (now * 1000) ≡ false
    free_is none h = refl
    free_is (some u) h = ground arith

    undriven :
        (r : Tenant)
        → claimable_row db account now r ≡ true
        → unless_driven db (available (some (handle_of r))) now ≡ available (some (handle_of r))
    undriven r h = ground arith

-- While a lease lasts, no other claim and no other teardown wins, and without its token nothing is
-- finish_marked or reclaimed.
module _ (db : FleetDb) (id : Text) (t : Tenant) (until : ℕ) (token : Text) (unique : IsUnique db)
    (found : find? (has_tenant_id id) db.tenants ≡ some t)
    (lease : t.reclaim_lease_until ≡ some until) (owner : t.reclaim_lease_token ≡ some token) where
  leased_excludes :
      (account other : Text) (seconds now : ℕ) (reaped : Bool) (guess : Text)
      → now ≤ until
      → (token == guess) ≡ false
      → (begin_teardown db id seconds other now ≡ (db, none))
        × (claim_reclaim db id account seconds other now ≡ (db, none))
        × (finish_teardown db id guess reaped now ≡ (db, none))
        × (reclaim_slug db id account guess now ≡ (db, none))
  unfolding begin_teardown claim_reclaim finish_teardown reclaim_slug
  leased_excludes account other seconds now reaped guess early wrong =
      let taken : is_free t.reclaim_lease_until now ≡ false = rw lease (ground arith) in
      let foreign : holds_token guess t ≡ false = rw owner wrong in
      (
        returning_tenant_lost db id (teardownable db now) (torn (now + seconds) other) t unique
            found (ground arith),
        returning_tenant_lost db id (claimable_row db account now) (leased (now + seconds) other) t
            unique found (ground arith),
        returning_tenant_lost db id (holds_token guess) (finish_marked reaped now) t unique found
            foreign,
        returning_tenant_lost db id (reclaimable_row db account guess now) blanked t unique found
            (ground arith),
      )

returning_tenant-IsUnique :
    (db : FleetDb) (id : Text) (guard : Tenant → Bool) (f : Tenant → Tenant)
    → ((t : Tenant) → ((f t).id ≡ t.id) × ((f t).slug ≡ t.slug))
    → IsUnique db
    → IsUnique (returning_tenant db id guard f).0
unfolding returning_tenant
returning_tenant-IsUnique db id guard f keeps unique = record {
  ids =
      Distinct-update_where tenant_id (λ k. has_tenant_id id k && guard k) f (λ t. (keeps t).0)
        db.tenants unique.ids;
  slugs =
      Distinct-update_where tenant_slug (λ k. has_tenant_id id k && guard k) f (λ t. (keeps t).1)
        db.tenants unique.slugs;
}

-- Mutual exclusion on a row: once a teardown or a reclaim has taken the lease, up to the instant that
-- the lease names no teardown and no reclaim takes it, and a caller without the token neither
-- finishes the teardown nor reclaims the slug; none of them changes anything.
pub row_lease_exclusive :
    (db db' : FleetDb) (id account token : Text) (seconds now : ℕ) (t : Tenant)
    (other guess account' : Text) (seconds' later : ℕ) (reaped : Bool)
    → IsUnique db
    → (begin_teardown db id seconds token now ≡ (db', some t))
      ⊎ (claim_reclaim db id account seconds token now ≡ (db', some t))
    → later ≤ now + seconds
    → (token == guess) ≡ false
    → (begin_teardown db' id seconds' other later ≡ (db', none))
      × (claim_reclaim db' id account' seconds' other later ≡ (db', none))
      × (finish_teardown db' id guess reaped later ≡ (db', none))
      × (reclaim_slug db' id account' guess later ≡ (db', none))
unfolding begin_teardown claim_reclaim
row_lease_exclusive db db' id account token seconds now t other guess account' seconds' later reaped
      unique won early wrong =
    elim won [
      | inl torn_down ↦
          take_lease (teardownable db now) (torn (now + seconds) token) (λ k. (refl, refl))
            torn_down
            (λ k e. (
              ap (λ (q : Tenant). q.reclaim_lease_until) (sym e),
              ap (λ (q : Tenant). q.reclaim_lease_token) (sym e),
            ))
      | inr claimed ↦
          take_lease (claimable_row db account now) (leased (now + seconds) token)
            (λ k. (refl, refl)) claimed
            (λ k e. (
              ap (λ (q : Tenant). q.reclaim_lease_until) (sym e),
              ap (λ (q : Tenant). q.reclaim_lease_token) (sym e),
            ))
    ]
  where
    take_lease :
        (guard : Tenant → Bool) (f : Tenant → Tenant)
        → ((k : Tenant) → ((f k).id ≡ k.id) × ((f k).slug ≡ k.slug))
        → returning_tenant db id guard f ≡ (db', some t)
        → ((k : Tenant)
            → f k ≡ t
            → (t.reclaim_lease_until ≡ some (now + seconds)) × (t.reclaim_lease_token ≡ some token))
        → (begin_teardown db' id seconds' other later ≡ (db', none))
          × (claim_reclaim db' id account' seconds' other later ≡ (db', none))
          × (finish_teardown db' id guess reaped later ≡ (db', none))
          × (reclaim_slug db' id account' guess later ≡ (db', none))
    take_lease guard f keeps taken marks =
        let result : (returning_tenant db id guard f).1 ≡ some t =
          ap (λ (p : FleetDb × Option Tenant). p.1) taken in
        let same : (returning_tenant db id guard f).0 ≡ db' =
          ap (λ (p : FleetDb × Option Tenant). p.0) taken in
        let (r, found, passed, is_t, after) =
          returning_tenant_won db id guard f t (λ k. (keeps k).0) unique result in
        let (lease, owner) = marks r is_t in
        leased_excludes db' id t (now + seconds) token
          (subst IsUnique same (returning_tenant-IsUnique db id guard f keeps unique))
          (subst (λ (d : FleetDb). find? (has_tenant_id id) d.tenants ≡ some t) same after) lease
          owner account' other seconds' later reaped guess early wrong
