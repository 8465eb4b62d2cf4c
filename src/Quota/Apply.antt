-- ===== src/Quota/Apply.antt =====
-- `applyStorageQuota` of src/tenant-storage-quota.ts: the record, the patch of the bindings and the
-- readback. What Cloudflare and the studio answer is an argument: the bindings and secrets before and
-- after, the readings of the studio and of the clock. Of the lists of names that only the operator
-- reads, the missing ones are kept.
use vivijure_control_plane.Prelude.{
  ℕ, zero, suc, ◌-◌, Bool, true, false, not, ◌&&◌, Option, none, some, List, map, any, filter,
  length, leb, is_some, ◌==◌, nat_eq, if◌then◌else◌,
}
use vivijure_control_plane.Prelude.Text.{Text, text_eq}
use vivijure_control_plane.Prelude.Sort.{sort_by}
use vivijure_control_plane.Quota.{
  Numbers, StorageQuotaRow, QuotaOverride, QuotaSource, set_tenant_storage_quota,
}
use vivijure_control_plane.Quota.Bindings.{
  WorkerBinding, inherit, storage_quota_var, with_storage_quota,
}
use vivijure_control_plane.Quota.Preflight.{
  QuotaContext, StorageReading, unreadable, no_reader, read,
}
use vivijure_control_plane.Quota.Readback.{Probed, probe}

pub record LiveBinding : Type 0 where
  pub type : Text
  pub name : Text

-- The answers of the services during one write.
pub record Services : Type 0 where
  pub bindings_before : List LiveBinding
  pub secrets_before : List Text
  pub bindings_after : List WorkerBinding → List LiveBinding
  pub secrets_after : List Text
  pub readings : ℕ → StorageReading
  pub clock : ℕ → ℕ
  pub probe_started : ℕ
  pub probe_ended : ℕ

pub record QuotaResult : Type 0 where
  pub is_ok : Bool
  pub quota_bytes : Option Text
  pub quota_source : QuotaSource
  pub record_written : Bool
  pub already_present : Bool
  pub var_present_after : Bool
  pub missing_bindings : List Text
  pub missing_secrets : List Text
  pub served_quota_before : Option ℕ
  pub served_quota_after : Option ℕ
  pub used_bytes : Option ℕ
  pub over_on_arrival : Bool
  pub enforced : Bool
  pub readback_attempts : ℕ
  pub readback_elapsed_ms : ℕ

abbrev pub live_name : LiveBinding → Text
live_name b = b.name

abbrev pub itself : Text → Text
itself t = t

abbrev pub has_name : List Text → Text → Bool
has_name ns n = any (λ m. m == n) ns

-- `names(before).filter((n) => !after.has(n))`.
unfoldable pub missing : List Text → List Text → List Text
missing before after = filter (λ n. not (has_name after n)) (sort_by itself before)

abbrev pub inherited : LiveBinding → WorkerBinding
inherited b = inherit b.name

unfoldable pub written_row : Option (Option QuotaOverride) → StorageQuotaRow → StorageQuotaRow
unfolding set_tenant_storage_quota
written_row none row = row
written_row (some override) row = set_tenant_storage_quota override

module _ (numbers : Numbers) where
  -- `served === target`, with `target` null where there is no ceiling.
  abbrev pub serves : Option Text → Option ℕ → Bool
  serves none none = true
  serves none (some served) = false
  serves (some bytes) none = false
  serves (some bytes) (some served) = elim (numbers.positive_integer bytes) [
    | none ↦ false
    | some n ↦ served == n
  ]

  -- What a reading says of the quota: no reading says none.
  abbrev pub served_by : StorageReading → Option ℕ
  served_by unreadable = none
  served_by no_reader = none
  served_by (read quota used) = quota

  abbrev pub reads_target : Option Text → StorageReading → Bool
  reads_target bytes unreadable = false
  reads_target bytes no_reader = false
  reads_target bytes (read quota used) = serves bytes quota

  -- The last use that was read: a probe that reads nothing keeps it.
  abbrev pub used_after : (ℕ → StorageReading) → ℕ → Option ℕ → Option ℕ
  used_after readings zero used = used
  used_after readings (suc n) used = elim (readings n) [
    | unreadable ↦ used_after readings n used
    | no_reader ↦ used_after readings n used
    | read quota seen ↦ seen
  ]

  abbrev pub is_over : Option Text → Option ℕ → Bool
  is_over none used = false
  is_over (some bytes) none = false
  is_over (some bytes) (some used) = elim (numbers.positive_integer bytes) [
    | none ↦ false
    | some n ↦ leb n used
  ]

  unfoldable pub result_of :
      QuotaContext → Services → List Text → Probed StorageReading → QuotaResult
  unfolding missing storage_quota_var
  result_of context services after probed =
      let before = map live_name services.bindings_before in
      let gone = missing before after in
      let gone_secrets = missing services.secrets_before services.secrets_after in
      let served = served_by probed.reading in
      let used = used_after services.readings probed.attempts context.used_before in
      let present = has_name after storage_quota_var in
      record {
        is_ok =
            length gone == 0
            && length gone_secrets == 0
            && (if is_some context.bytes then present else not present)
            && serves context.bytes served;
        quota_bytes = context.bytes;
        quota_source = context.source;
        record_written = is_some context.override;
        already_present = has_name before storage_quota_var;
        var_present_after = present;
        missing_bindings = gone;
        missing_secrets = gone_secrets;
        served_quota_before = context.served_before;
        served_quota_after = served;
        used_bytes = used;
        over_on_arrival = is_over context.bytes used;
        enforced = serves context.bytes served;
        readback_attempts = probed.attempts;
        readback_elapsed_ms = services.probe_ended - services.probe_started;
      }

  unfoldable pub result_if :
      QuotaContext → Services → List Text → Option (Probed StorageReading) → Option QuotaResult
  unfolding result_of
  result_if context services after none = none
  result_if context services after (some probed) = some (result_of context services after probed)

  -- The write: the tenant's record, and the result; `none` is a wait that never ended. No mode is
  -- passed to `withStorageQuota`.
  unfoldable pub apply_storage_quota :
      QuotaContext → StorageQuotaRow → Services → StorageQuotaRow × Option QuotaResult
  unfolding result_if with_storage_quota probe written_row
  apply_storage_quota context row services =
      let desired =
        with_storage_quota (map inherited services.bindings_before) context.bytes none in
      let after = map live_name (services.bindings_after desired) in
      (
        written_row context.override row,
        result_if context services after (
            probe (reads_target context.bytes) services.readings services.clock
              services.probe_started 7 0),
      )
