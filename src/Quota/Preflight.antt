-- ===== src/Quota/Preflight.antt =====
-- `preflightStorageQuota` of src/tenant-storage-quota.ts: what is refused before anything is written. The
-- studio's answer, and what `JSON.parse` reads in it, are arguments; a refusal's message is not kept.
use vivijure_control_plane.Prelude.{
  ℕ, Bool, false, not, Option, none, some, leb, is_some, ◌==◌, nat_eq, if◌then◌else◌,
}
use vivijure_control_plane.Prelude.Text.{Text, text_eq, is_empty}
use vivijure_control_plane.Tenants.{Tenant}
use vivijure_control_plane.Kek.{Platform, KekRing, decrypt_studio_token}
use vivijure_control_plane.Quota.{
  Numbers, StorageQuotaConfig, StorageQuotaRow, QuotaOverride, set_bytes, set_none, QuotaSource,
  ResolvedStorageQuota, Blocked, record_unreadable, plane_malformed, is_positive_integer_bytes,
  resolve_storage_quota, set_tenant_storage_quota,
}

pub data QuotaRefusal : Type 0 where
  not_provisioned tenant_deleted plane_quota_malformed tenant_quota_record_unreadable
        invalid_quota_bytes :
      QuotaRefusal
  tenant_studio_token_missing tenant_studio_token_unreadable studio_not_serving
        studio_predates_quota_reader :
      QuotaRefusal

unfoldable pub refusal_status : QuotaRefusal → ℕ
refusal_status not_provisioned = 409
refusal_status tenant_deleted = 404
refusal_status plane_quota_malformed = 409
refusal_status tenant_quota_record_unreadable = 409
refusal_status invalid_quota_bytes = 400
refusal_status tenant_studio_token_missing = 422
refusal_status tenant_studio_token_unreadable = 422
refusal_status studio_not_serving = 422
refusal_status studio_predates_quota_reader = 409

pub data QuotaIntent : Type 0 where
  intend_inherit intend_none : QuotaIntent
  intend_set : Text → QuotaIntent

-- The studio's answer to GET /api/storage/usage, or an exception of the call.
pub data StudioAnswer : Type 0 where
  call_threw : StudioAnswer
  answered : ℕ → Text → StudioAnswer

-- The body as `JSON.parse` reads it: whether it has `quota_bytes`, and the numbers.
pub record UsageBody : Type 0 where
  pub has_quota_bytes : Bool
  pub quota_bytes : Option ℕ
  pub used_bytes : Option ℕ

pub data StorageReading : Type 0 where
  unreadable no_reader : StorageReading
  read : Option ℕ → Option ℕ → StorageReading

pub record QuotaContext : Type 0 where
  pub script : Text
  pub studio_api_token : Text
  pub bytes : Option Text
  pub source : QuotaSource
  pub override : Option (Option QuotaOverride)
  pub served_before : Option ℕ
  pub used_before : Option ℕ

pub data Preflight : Type 0 where
  go : QuotaContext → Preflight
  refuse : QuotaRefusal → Preflight

abbrev pub reading_of : Option UsageBody → StorageReading
reading_of none = unreadable
reading_of (some body) =
    if not body.has_quota_bytes then unreadable else read body.quota_bytes body.used_bytes

unfoldable pub read_studio_storage : (Text → Option UsageBody) → StudioAnswer → StorageReading
read_studio_storage parse call_threw = unreadable
read_studio_storage parse (answered status text) =
    if status == 404
    then no_reader
    else if leb 300 status
    then unreadable
    else reading_of (parse text)

abbrev pub override_intended : QuotaIntent → Option QuotaOverride
override_intended intend_inherit = none
override_intended intend_none = some set_none
override_intended (intend_set bytes) = some (set_bytes bytes)

unfoldable pub row_intended : Option QuotaIntent → StorageQuotaRow → StorageQuotaRow
unfolding set_tenant_storage_quota
row_intended none row = row
row_intended (some intent) row = set_tenant_storage_quota (override_intended intent)

abbrev pub blocked_code : Blocked → QuotaRefusal
blocked_code record_unreadable = tenant_quota_record_unreadable
blocked_code plane_malformed = plane_quota_malformed

module _ (numbers : Numbers) (platform : Platform) (ring : KekRing)
    (parse : Text → Option UsageBody) where
  abbrev pub bad_intent : Option QuotaIntent → Bool
  bad_intent none = false
  bad_intent (some intend_inherit) = false
  bad_intent (some intend_none) = false
  bad_intent (some (intend_set bytes)) = not (is_positive_integer_bytes numbers bytes)

  abbrev pub after_reading :
      Text → Text → ResolvedStorageQuota → Option QuotaIntent → StorageReading → Preflight
  after_reading script token resolved intent unreadable = refuse studio_not_serving
  after_reading script token resolved intent no_reader = refuse studio_predates_quota_reader
  after_reading script token resolved intent (read quota used) = go (record {
    script = script;
    studio_api_token = token;
    bytes = resolved.bytes;
    source = resolved.source;
    override = elim intent [ none ↦ none | some i ↦ some (override_intended i) ];
    served_before = quota;
    used_before = used;
  })

  -- From the sealed token on; the studio is called with the token that was opened.
  abbrev pub with_token :
      Text
      → Option Text
      → ResolvedStorageQuota
      → Option QuotaIntent
      → (Text → StudioAnswer)
      → Preflight
  with_token script none resolved intent call = refuse tenant_studio_token_missing
  with_token script (some enc) resolved intent call =
      if is_empty enc
      then refuse tenant_studio_token_missing
      else elim (decrypt_studio_token platform ring enc) [
        | none ↦ refuse tenant_studio_token_unreadable
        | some token ↦
            after_reading script token resolved intent (read_studio_storage parse (call token))
      ]

  abbrev pub with_script :
      Option Text
      → Option Text
      → StorageQuotaConfig
      → StorageQuotaRow
      → Option QuotaIntent
      → (Text → Text → StudioAnswer)
      → Preflight
  with_script none enc config row intent call = refuse not_provisioned
  with_script (some script) enc config row intent call =
      let resolved = resolve_storage_quota numbers config (row_intended intent row) in
      if is_empty script
      then refuse not_provisioned
      else if bad_intent intent
      then refuse invalid_quota_bytes
      else elim resolved.blocked [
        | some why ↦ refuse (blocked_code why)
        | none ↦ with_token script enc resolved intent (call script)
      ]

  unfoldable pub preflight_storage_quota :
      StorageQuotaConfig
      → Tenant
      → StorageQuotaRow
      → Option QuotaIntent
      → (Text → Text → StudioAnswer)
      → Preflight
  unfolding read_studio_storage row_intended
  preflight_storage_quota config tenant_row row intent call =
      if is_some tenant_row.deleted_at
      then refuse tenant_deleted
      else with_script tenant_row.script_name tenant_row.studio_token_enc config row intent call
