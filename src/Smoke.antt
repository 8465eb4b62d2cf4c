-- ===== src/Smoke.antt =====
-- The spend guard of the operator's smoke renders: the statements of src/store-d1.ts over the table of
-- migrations/0007_smoke_render.sql. Instants are counted in seconds, the resolution of
-- `datetime('now')`; a refusal keeps the values of its message and not its wording.
pub mod Spend
mod Tests
use vivijure_control_plane.Prelude.{
  ℕ, zero, suc, ◌+◌, Bool, true, false, not, ◌&&◌, ◌||◌, Option, none, some, List, [], ◌∷◌, ◌++◌,
  Result, ok, err, any, find?, filter, count, is_some, leb, ltb, ◌==◌, nat_eq, if◌then◌else◌, ◌≡◌,
}
use vivijure_control_plane.Prelude.Text.{Text, text_eq, text_beq}
use vivijure_control_plane.Prelude.Rows.{update_where}
use vivijure_control_plane.Ledger.{StoreError, primary_key, foreign_key}

pub data SmokeStatus : Type 0 where
  smoke_running smoke_succeeded smoke_failed : SmokeStatus

abbrev pub is_running : SmokeStatus → Bool
is_running smoke_running = true
is_running smoke_succeeded = false
is_running smoke_failed = false

pub record SmokeRenderArtifact : Type 0 where
  pub key : Text
  pub bytes : ℕ
  pub sha256 : Text
  pub content_type : Text

pub record SmokeRender : Type 0 where
  pub id : Text
  pub tenant_id : Text
  pub status : SmokeStatus
  pub modules_release : Option Text
  pub studio_job_id : Option Text
  pub bundle_key : Option Text
  pub artifact : Option SmokeRenderArtifact
  pub error_message : Option Text
  pub created_at : ℕ
  pub updated_at : ℕ
  pub finished_at : Option ℕ

pub record SmokeRenderBounds : Type 0 where
  pub cooldown_seconds : ℕ
  pub daily_cap : ℕ
  pub in_flight_seconds : ℕ

pub record SmokeDb : Type 0 where
  pub tenants : List Text
  pub renders : List SmokeRender

abbrev pub day_seconds : ℕ
day_seconds = 86400

-- `created_at > datetime('now', '-N seconds')`.
abbrev pub is_within : ℕ → ℕ → SmokeRender → Bool
is_within seconds now r = ltb now (r.created_at + seconds)

abbrev pub is_in_flight : Text → ℕ → ℕ → SmokeRender → Bool
is_in_flight tenant seconds now r =
    r.tenant_id == tenant && is_running r.status && is_within seconds now r

abbrev pub is_cooling : Text → ℕ → ℕ → SmokeRender → Bool
is_cooling tenant seconds now r = r.tenant_id == tenant && is_within seconds now r

abbrev pub is_admitted : SmokeDb → Text → SmokeRenderBounds → ℕ → Bool
is_admitted db tenant bounds now =
    not (any (is_in_flight tenant bounds.in_flight_seconds now) db.renders)
    && not (any (is_cooling tenant bounds.cooldown_seconds now) db.renders)
    && ltb (count (is_within day_seconds now) db.renders) bounds.daily_cap

abbrev pub opened_render : Text → Text → Option Text → ℕ → SmokeRender
opened_render id tenant release now = record {
  id = id;
  tenant_id = tenant;
  status = smoke_running;
  modules_release = release;
  studio_job_id = none;
  bundle_key = none;
  artifact = none;
  error_message = none;
  created_at = now;
  updated_at = now;
  finished_at = none;
}

abbrev pub has_render_id : Text → SmokeRender → Bool
has_render_id id r = r.id == id

-- INSERT … SELECT … WHERE the three bounds RETURNING *.
unfoldable pub open_smoke_render :
    SmokeDb
    → Text
    → Text
    → Option Text
    → SmokeRenderBounds
    → ℕ
    → Result StoreError (SmokeDb × Option SmokeRender)
open_smoke_render db id tenant release bounds now =
    let r = opened_render id tenant release now in
    if not (is_admitted db tenant bounds now)
    then ok (db, none)
    else if any (has_render_id id) db.renders
    then err primary_key
    else if any (λ t. t == tenant) db.tenants
    then ok (record db { renders = db.renders ++ r ∷ [] }, some r)
    else err foreign_key

pub data SmokeRefusal : Type 0 where
  already_running : Text → SmokeRefusal
  cooling_down : ℕ → ℕ → SmokeRefusal
  cap_reached : ℕ → SmokeRefusal

-- ORDER BY created_at DESC LIMIT 1: the latest instant.
abbrev pub later_of : ℕ → Option ℕ → ℕ
later_of a none = a
later_of a (some b) = if leb b a then a else b

abbrev pub latest : List SmokeRender → Option ℕ
latest [] = none
latest (r ∷ rs) = some (later_of r.created_at (latest rs))

abbrev pub cap_refusal : ℕ → ℕ → Option SmokeRefusal
cap_refusal n cap = if leb cap n then some (cap_reached cap) else none

abbrev pub cooldown_refusal : Option ℕ → ℕ → Option SmokeRefusal → Option SmokeRefusal
cooldown_refusal none seconds otherwise = otherwise
cooldown_refusal (some at) seconds otherwise = some (cooling_down at seconds)

abbrev pub flight_refusal : Option SmokeRender → Option SmokeRefusal → Option SmokeRefusal
flight_refusal none otherwise = otherwise
flight_refusal (some r) otherwise = some (already_running r.id)

unfoldable pub describe_smoke_render_refusal :
    SmokeDb → Text → SmokeRenderBounds → ℕ → Option SmokeRefusal
describe_smoke_render_refusal db tenant bounds now =
    flight_refusal (find? (is_in_flight tenant bounds.in_flight_seconds now) db.renders) (
      cooldown_refusal (latest (filter (is_cooling tenant bounds.cooldown_seconds now) db.renders))
        bounds.cooldown_seconds
        (cap_refusal (count (is_within day_seconds now) db.renders) bounds.daily_cap))

unfoldable pub get_smoke_render : SmokeDb → Text → Option SmokeRender
get_smoke_render db id = find? (has_render_id id) db.renders

unfoldable pub set_smoke_render_submitted : SmokeDb → Text → Text → Text → ℕ → SmokeDb
set_smoke_render_submitted db id job bundle now = record db {
  renders =
      update_where (has_render_id id)
        (λ r. record r { studio_job_id = some job; bundle_key = some bundle; updated_at = now })
        db.renders;
}

pub data SmokeOutcome : Type 0 where
  rendered : SmokeRenderArtifact → SmokeOutcome
  broke : Text → SmokeOutcome

abbrev pub finish_with : SmokeOutcome → ℕ → SmokeRender → SmokeRender
finish_with (rendered artifact) now r = record r {
  status = smoke_succeeded;
  artifact = some artifact;
  updated_at = now;
  finished_at = some now;
}
finish_with (broke error) now r = record r {
  status = smoke_failed;
  error_message = some error;
  updated_at = now;
  finished_at = some now;
}

abbrev pub is_open_render : Text → SmokeRender → Bool
is_open_render id r = has_render_id id r && is_running r.status

unfoldable pub finish_smoke_render : SmokeDb → Text → SmokeOutcome → ℕ → SmokeDb
finish_smoke_render db id outcome now = record db {
  renders = update_where (is_open_render id) (finish_with outcome now) db.renders;
}
