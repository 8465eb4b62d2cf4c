-- ===== src/Fleet/Owners.antt =====
-- A live tenant keeps its resources: no claim by another tenant takes them.
use vivijure_control_plane.Prelude.{
  ℕ, ◌≡◌, ◌∙◌, refl, sym, ap, subst, Bool, true, false, not, ◌&&◌, ◌||◌, Option, none, some, List,
  [], ◌∷◌, ◌++◌, arith, any, find?, filter, ◌==◌, if◌then◌else◌, Bool-cases, Option-cases, inl, inr,
}
use vivijure_control_plane.Prelude.Text.{Text, text_eq, text_beq_iff, is_empty}
use vivijure_control_plane.Prelude.Rows.{update_where, find?-update_where}
use vivijure_control_plane.Tenants.{Tenant}
use vivijure_control_plane.Fleet.{has_tenant_id, update_tenant}
use vivijure_control_plane.Fleet.Reclaim.{get_tenant_by_id}
use vivijure_control_plane.Fleet.Tier.{tenant_id}
use vivijure_control_plane.Fleet.Resources.{
  ResourceKind, d1, r2_bucket, r2_token, worker, same_kind, Ownership, OwnerDb, is_resource,
  owner_of_row, get_resource_owner, is_live_row, held_by_other, upsert_owner,
  claim_resource_ownership, without_column, column_read, release_owner, clear_tenant_resource,
}

-- A claim by any tenant, or a release by another tenant than one.
pub data OwnerStep (keeper : Text) (db : OwnerDb) : OwnerDb → Type 0 where
  claims_resource :
      (kind : ResourceKind) (key owner : Text) (now : ℕ)
      → OwnerStep keeper db (claim_resource_ownership db kind key owner now)
  clears :
      (id : Text) (kind : ResourceKind)
      → (id == keeper) ≡ false
      → OwnerStep keeper db (clear_tenant_resource db id kind)

pub data OwnerReach (keeper : Text) (start : OwnerDb) : OwnerDb → Type 0 where
  owned_yet : OwnerReach keeper start start
  then_owner :
      {db db' : OwnerDb}
      → OwnerReach keeper start db
      → OwnerStep keeper db db'
      → OwnerReach keeper start db'

pub record IsOwned (db : OwnerDb) (kind : ResourceKind) (key keeper : Text) : Type 0 where
  pub owned : owner_of_row (find? (is_resource kind key) db.owners) ≡ some keeper
  pub live : is_live_row (get_tenant_by_id db.fleet keeper) ≡ true

kind_is : (a b : ResourceKind) → same_kind a b ≡ true → a ≡ b
unfolding same_kind
kind_is d1 d1 h = refl
kind_is r2_bucket r2_bucket h = refl
kind_is r2_token r2_token h = refl
kind_is worker worker h = refl
kind_is d1 r2_bucket h = absurd (ground arith)
kind_is d1 r2_token h = absurd (ground arith)
kind_is d1 worker h = absurd (ground arith)
kind_is r2_bucket d1 h = absurd (ground arith)
kind_is r2_bucket r2_token h = absurd (ground arith)
kind_is r2_bucket worker h = absurd (ground arith)
kind_is r2_token d1 h = absurd (ground arith)
kind_is r2_token r2_bucket h = absurd (ground arith)
kind_is r2_token worker h = absurd (ground arith)
kind_is worker d1 h = absurd (ground arith)
kind_is worker r2_bucket h = absurd (ground arith)
kind_is worker r2_token h = absurd (ground arith)

-- A release by another tenant drops no row of the keeper.
filtered_owner :
    (kind kind' : ResourceKind) (key key' id keeper : Text) (rows : List Ownership)
    → (id == keeper) ≡ false
    → owner_of_row (find? (is_resource kind key) rows) ≡ some keeper
    → owner_of_row (
        find?
          (is_resource kind key)
          (filter (λ o. not (is_resource kind' key' o && o.owner_tenant_id == id)) rows))
      ≡ some keeper
filtered_owner kind kind' key key' id keeper [] other h = absurd (ground arith)
filtered_owner kind kind' key key' id keeper (o ∷ rows) other h =
    elim (Bool-cases (is_resource kind key o)) [
      | inl hit ↦
          let mine : o.owner_tenant_id ≡ keeper = ground arith in
          let not_his : (o.owner_tenant_id == id) ≡ false = rw mine (flip id keeper other) in
          ground arith
      | inr miss ↦ ground (arith, filtered_owner kind kind' key key' id keeper rows)
    ]
  where
    flip : (a b : Text) → (a == b) ≡ false → (b == a) ≡ false
    flip a b h = ground (arith, text_beq_iff a b, text_beq_iff b a)

-- A claim of another resource leaves the row of this one.
upserted_other :
    (kind kind' : ResourceKind) (key key' owner keeper : Text) (now : ℕ) (rows : List Ownership)
    → (same_kind kind' kind && key' == key) ≡ false
    → owner_of_row (find? (is_resource kind key) rows) ≡ some keeper
    → owner_of_row (
        find? (is_resource kind key) (
          update_where
            (is_resource kind' key')
            (λ o. record o { owner_tenant_id = owner; provisioned_at = now })
            rows))
      ≡ some keeper
unfolding update_where
upserted_other kind kind' key key' owner keeper now [] apart h = absurd (ground arith)
upserted_other kind kind' key key' owner keeper now (o ∷ rows) apart h =
    elim (Bool-cases (is_resource kind' key' o)) [
      | inl met ↦
          let is_kind : o.resource_kind ≡ kind' = kind_is o.resource_kind kind' (ground arith) in
          let is_key : o.resource_key ≡ key' =
            (text_beq_iff o.resource_key key').0 (ground arith) in
          let miss : is_resource kind key o ≡ false =
            ap (λ k. same_kind k kind && o.resource_key == key) is_kind
            ∙ ap (λ k. same_kind kind' kind && k == key) is_key
            ∙ apart in
          ground (arith, upserted_other kind kind' key key' owner keeper now rows)
      | inr passed ↦ ground (arith, upserted_other kind kind' key key' owner keeper now rows)
    ]

-- The keeper's own claim keeps it.
upserted_own :
    (kind : ResourceKind) (key owner keeper : Text) (now : ℕ) (rows : List Ownership)
    → owner ≡ keeper
    → owner_of_row (find? (is_resource kind key) rows) ≡ some keeper
    → owner_of_row (
        find? (is_resource kind key) (
          update_where
            (is_resource kind key)
            (λ o. record o { owner_tenant_id = owner; provisioned_at = now })
            rows))
      ≡ some keeper
unfolding update_where
upserted_own kind key owner keeper now [] mine h = absurd (ground arith)
upserted_own kind key owner keeper now (o ∷ rows) mine h =
    ground (arith, upserted_own kind key owner keeper now rows)

snoc_owner :
    (kind : ResourceKind) (key keeper : Text) (rows : List Ownership) (o : Ownership)
    → owner_of_row (find? (is_resource kind key) rows) ≡ some keeper
    → owner_of_row (find? (is_resource kind key) (rows ++ o ∷ [])) ≡ some keeper
snoc_owner kind key keeper [] o h = absurd (ground arith)
snoc_owner kind key keeper (r ∷ rows) o h = ground (arith, snoc_owner kind key keeper rows o)

own_upsert :
    (db : OwnerDb) (kind : ResourceKind) (key owner keeper : Text) (now : ℕ)
    → IsOwned db kind key keeper
    → (is_empty key || held_by_other db (get_resource_owner db kind key) owner) ≡ false
    → owner_of_row (find? (is_resource kind key) (upsert_owner db.owners kind key owner now))
      ≡ some keeper
unfolding get_resource_owner upsert_owner
own_upsert db kind key owner keeper now was taken =
    let mine : (keeper == owner) ≡ true = ground (arith, was.owned, was.live) in
    let is_mine : owner ≡ keeper = sym ((text_beq_iff keeper owner).0 mine) in
    elim (Bool-cases (any (is_resource kind key) db.owners)) [
      | inl there ↦ rw there (upserted_own kind key owner keeper now db.owners is_mine was.owned)
      | inr fresh ↦ rw fresh (snoc_owner kind key keeper db.owners _ was.owned)
    ]

claimed_owner :
    (db : OwnerDb) (kind kind' : ResourceKind) (key key' owner keeper : Text) (now : ℕ)
    → IsOwned db kind key keeper
    → IsOwned (claim_resource_ownership db kind' key' owner now) kind key keeper
unfolding claim_resource_ownership get_resource_owner upsert_owner
claimed_owner db kind kind' key key' owner keeper now was =
    elim (Bool-cases (is_empty key' || held_by_other db (get_resource_owner db kind' key') owner)) [
      | inl refused ↦
          let same : claim_resource_ownership db kind' key' owner now ≡ db = ground arith in
          subst (λ d. IsOwned d kind key keeper) (sym same) was
      | inr taken ↦
          let put : claim_resource_ownership db kind' key' owner now
              ≡ record db { owners = upsert_owner db.owners kind' key' owner now } =
            ground arith in
          subst (λ d. IsOwned d kind key keeper) (sym put)
            (record {
              owned = elim (Bool-cases (same_kind kind' kind && key' == key)) [
                | inl same ↦
                    let is_kind : kind' ≡ kind = kind_is kind' kind (ground arith) in
                    let is_key : key' ≡ key = (text_beq_iff key' key).0 (ground arith) in
                    moved kind' key' is_kind is_key taken
                | inr apart ↦ elim (Bool-cases (any (is_resource kind' key') db.owners)) [
                  | inl there ↦ rw there (
                      upserted_other kind kind' key key' owner keeper now db.owners apart was.owned)
                  | inr fresh ↦ rw fresh (snoc_owner kind key keeper db.owners _ was.owned)
                ]
              ];
              live = was.live;
            })
    ]
  where
    moved :
        (k : ResourceKind) (x : Text)
        → k ≡ kind
        → x ≡ key
        → (is_empty x || held_by_other db (get_resource_owner db k x) owner) ≡ false
        → owner_of_row (find? (is_resource kind key) (upsert_owner db.owners k x owner now))
          ≡ some keeper
    moved k x is_kind is_key =
        subst
          (λ y.
            (is_empty y || held_by_other db (get_resource_owner db k y) owner) ≡ false
            → owner_of_row (find? (is_resource kind key) (upsert_owner db.owners k y owner now))
              ≡ some keeper)
          (sym is_key)
          (subst
            (λ z.
              (is_empty key || held_by_other db (get_resource_owner db z key) owner) ≡ false
              → owner_of_row (find? (is_resource kind key) (upsert_owner db.owners z key owner now))
                ≡ some keeper)
            (sym is_kind) (own_upsert db kind key owner keeper now was))

status_kept :
    (kind : ResourceKind) (t : Tenant)
    → is_live_row (some (without_column kind t)) ≡ is_live_row (some t)
status_kept d1 t = refl
status_kept r2_bucket t = refl
status_kept r2_token t = refl
status_kept worker t = refl

id_kept : (kind : ResourceKind) (t : Tenant) → (without_column kind t).id ≡ t.id
id_kept d1 t = refl
id_kept r2_bucket t = refl
id_kept r2_token t = refl
id_kept worker t = refl

cleared_owner :
    (db : OwnerDb) (kind kind' : ResourceKind) (key id keeper : Text)
    → (id == keeper) ≡ false
    → IsOwned db kind key keeper
    → IsOwned (clear_tenant_resource db id kind') kind key keeper
unfolding clear_tenant_resource update_tenant get_tenant_by_id
cleared_owner db kind kind' key id keeper other was = record {
  owned = released (column_read kind' (find? (has_tenant_id id) db.fleet.tenants));
  live = elim (Option-cases (find? (has_tenant_id keeper) db.fleet.tenants)) [
    | inl absent ↦ absurd (ground (arith, was.live))
    | inr (t, found) ↦
        let alive : is_live_row (some t) ≡ true = ground (arith, was.live) in
        ap is_live_row (
          find?-update_where tenant_id (has_tenant_id id) (without_column kind') (id_kept kind')
            keeper db.fleet.tenants t found)
        ∙ either (has_tenant_id id t) t
        ∙ alive
  ];
}
  where
    released :
        (o : Option Text)
        → owner_of_row (find? (is_resource kind key) (release_owner kind' o id db.owners))
          ≡ some keeper
    released none = was.owned
    released (some k) = elim (Bool-cases (is_empty k)) [
      | inl e ↦ rw e was.owned
      | inr e ↦ rw e (filtered_owner kind kind' key k id keeper db.owners other was.owned)
    ]

    either :
        (b : Bool) (t : Tenant)
        → is_live_row (some (if b then without_column kind' t else t)) ≡ is_live_row (some t)
    either true t = status_kept kind' t
    either false t = refl

OwnerReach-IsOwned :
    (kind : ResourceKind) (key keeper : Text) {db db' : OwnerDb}
    → OwnerReach keeper db db'
    → IsOwned db kind key keeper
    → IsOwned db' kind key keeper
OwnerReach-IsOwned kind key keeper owned_yet was = was
OwnerReach-IsOwned kind key keeper
      (then_owner {db = mid} run (claims_resource kind' key' owner now)) was =
    claimed_owner mid kind kind' key key' owner keeper now
      (OwnerReach-IsOwned kind key keeper run was)
OwnerReach-IsOwned kind key keeper (then_owner {db = mid} run (clears id kind' other)) was =
    cleared_owner mid kind kind' key id keeper other (OwnerReach-IsOwned kind key keeper run was)

-- Through claims and releases alone, a resource of a tenant whose row is neither deleted nor failed
-- stays that tenant's, however many claims any tenants make of it or of others, and however many
-- resources other tenants release.
pub live_owner_kept :
    (db db' : OwnerDb) (kind : ResourceKind) (key keeper : Text)
    → is_empty key ≡ false
    → get_resource_owner db kind key ≡ some keeper
    → is_live_row (get_tenant_by_id db.fleet keeper) ≡ true
    → OwnerReach keeper db db'
    → get_resource_owner db' kind key ≡ some keeper
unfolding get_resource_owner
live_owner_kept db db' kind key keeper named owner live run =
    let was : IsOwned db kind key keeper = record {
      owned = sym (rw named refl) ∙ owner;
      live = live;
    } in
    rw named (OwnerReach-IsOwned kind key keeper run was).owned
