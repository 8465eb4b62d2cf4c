-- ===== src/Quota.antt =====
-- The storage ceiling of a tenant's studio (src/tenant-storage-quota.ts): the plane's setting, the
-- tenant's own record, and which of them binds. `Number` and `String` on texts are the language's
-- and are parameters; a refusal's message is not kept, only what it depends on.
pub mod Bindings
pub mod Resolve
pub mod Readback
pub mod Preflight
pub mod Apply
pub mod Lift
mod Tests
use vivijure_control_plane.Prelude.{
  ℕ, Bool, true, false, not, ◌&&◌, ◌||◌, Option, none, some, List, [], ◌∷◌, any, is_some, ◌==◌,
  nat_eq, if◌then◌else◌, ◌≡◌,
}
use vivijure_control_plane.Prelude.Text.{Text, codes, text_eq, text_beq, trim, lower, is_empty}

-- `positive_integer` is what `Number` reads, where it is an integer above zero.
pub record Numbers : Type 0 where
  pub positive_integer : Text → Option ℕ
  pub string_of : ℕ → Text

-- What is relied on: an integer above zero is read back from its text, as its text stands.
pub record IsNumbers (n : Numbers) : Type 0 where
  pub reads_back :
      (t : Text) (k : ℕ)
      → n.positive_integer t ≡ some k
      → n.positive_integer (trim (n.string_of k)) ≡ some k
  pub never_blank :
      (t : Text) (k : ℕ) → n.positive_integer t ≡ some k → is_empty (trim (n.string_of k)) ≡ false

pub record StorageQuotaConfig : Type 0 where
  pub bytes : Option Text
  pub invalid : Option Text
  pub mode : Option Text
  pub invalid_mode : Option Text

pub record ModeRead : Type 0 where
  pub mode : Option Text
  pub invalid : Option Text

-- `typeof raw !== "string" || raw.trim() === ""`.
abbrev pub is_unset : Option Text → Bool
is_unset none = true
is_unset (some raw) = is_empty (trim raw)

unfoldable pub storage_quota_modes : List Text
storage_quota_modes = codes "deny" ∷ codes "meter" ∷ []

unfoldable pub mode_of : Text → ModeRead
unfolding storage_quota_modes
mode_of raw =
    let trimmed = lower (trim raw) in
    if not (any (λ m. m == trimmed) storage_quota_modes)
    then record { mode = none; invalid = some (trim raw) }
    else record {
      mode = if trimmed == codes "meter" then some (codes "meter") else none;
      invalid = none;
    }

unfoldable pub tenant_storage_quota_mode : Option Text → ModeRead
unfolding mode_of
tenant_storage_quota_mode none = record { mode = none; invalid = none }
tenant_storage_quota_mode (some raw) =
    if is_unset (some raw) then record { mode = none; invalid = none } else mode_of raw

pub data QuotaOverride : Type 0 where
  set_bytes : Text → QuotaOverride
  set_none : QuotaOverride

-- The record of a tenant: none, a decision, or corrupt.
pub data OverrideRead : Type 0 where
  no_override corrupt : OverrideRead
  decided : QuotaOverride → OverrideRead

pub record StorageQuotaRow : Type 0 where
  pub r2_storage_quota_override : Option Text
  pub r2_storage_quota_bytes : Option Text

-- The two columns that `setTenantStorageQuota` writes.
unfoldable pub set_tenant_storage_quota : Option QuotaOverride → StorageQuotaRow
set_tenant_storage_quota none = record {
  r2_storage_quota_override = none;
  r2_storage_quota_bytes = none;
}
set_tenant_storage_quota (some set_none) = record {
  r2_storage_quota_override = some (codes "none");
  r2_storage_quota_bytes = none;
}
set_tenant_storage_quota (some (set_bytes bytes)) = record {
  r2_storage_quota_override = some (codes "set");
  r2_storage_quota_bytes = some bytes;
}

pub data QuotaSource : Type 0 where
  tenant tenant_none plane plane_unset : QuotaSource

pub data Blocked : Type 0 where
  record_unreadable plane_malformed : Blocked

pub record ResolvedStorageQuota : Type 0 where
  pub bytes : Option Text
  pub source : QuotaSource
  pub blocked : Option Blocked

module _ (numbers : Numbers) where
  unfoldable pub is_positive_integer_bytes : Text → Bool
  is_positive_integer_bytes value =
      not (is_empty (trim value)) && is_some (numbers.positive_integer (trim value))

  -- `String(Number(value))` of an accepted value.
  abbrev pub normalized : Option ℕ → Option Text
  normalized none = none
  normalized (some n) = some (numbers.string_of n)

  abbrev pub config_of : Text → ModeRead → StorageQuotaConfig
  config_of raw mode =
      if is_empty (trim raw)
      then record { bytes = none; invalid = none; mode = mode.mode; invalid_mode = mode.invalid }
      else if not (is_positive_integer_bytes (trim raw))
      then record {
        bytes = none;
        invalid = some (trim raw);
        mode = mode.mode;
        invalid_mode = mode.invalid;
      }
      else record {
        bytes = normalized (numbers.positive_integer (trim raw));
        invalid = none;
        mode = mode.mode;
        invalid_mode = mode.invalid;
      }

  -- From the two variables of the environment.
  unfoldable pub tenant_storage_quota : Option Text → Option Text → StorageQuotaConfig
  unfolding tenant_storage_quota_mode is_positive_integer_bytes
  tenant_storage_quota none mode_var = record {
    bytes = none;
    invalid = none;
    mode = (tenant_storage_quota_mode mode_var).mode;
    invalid_mode = (tenant_storage_quota_mode mode_var).invalid;
  }
  tenant_storage_quota (some raw) mode_var = config_of raw (tenant_storage_quota_mode mode_var)

  abbrev pub set_override : Option Text → OverrideRead
  set_override none = corrupt
  set_override (some bytes) =
      if not (is_positive_integer_bytes bytes)
      then corrupt
      else elim (numbers.positive_integer (trim bytes)) [
        | none ↦ corrupt
        | some n ↦ decided (set_bytes (numbers.string_of n))
      ]

  abbrev pub override_of : Text → Option Text → OverrideRead
  override_of mode bytes =
      if is_empty mode
      then no_override
      else if mode == codes "none"
      then decided set_none
      else if mode == codes "set"
      then set_override bytes
      else corrupt

  unfoldable pub tenant_storage_quota_override : StorageQuotaRow → OverrideRead
  unfolding is_positive_integer_bytes
  tenant_storage_quota_override row = elim row.r2_storage_quota_override [
    | none ↦ no_override
    | some mode ↦ override_of mode row.r2_storage_quota_bytes
  ]

  abbrev pub plane_quota : StorageQuotaConfig → ResolvedStorageQuota
  plane_quota config =
      if is_some config.invalid
      then record { bytes = none; source = plane; blocked = some plane_malformed }
      else record {
        bytes = config.bytes;
        source = if is_some config.bytes then plane else plane_unset;
        blocked = none;
      }

  abbrev pub resolved_by : OverrideRead → StorageQuotaConfig → ResolvedStorageQuota
  resolved_by corrupt config = record {
    bytes = none;
    source = tenant;
    blocked = some record_unreadable;
  }
  resolved_by (decided set_none) config = record {
    bytes = none;
    source = tenant_none;
    blocked = none;
  }
  resolved_by (decided (set_bytes bytes)) config = record {
    bytes = some bytes;
    source = tenant;
    blocked = none;
  }
  resolved_by no_override config = plane_quota config

  unfoldable pub resolve_storage_quota : StorageQuotaConfig → StorageQuotaRow → ResolvedStorageQuota
  unfolding tenant_storage_quota_override
  resolve_storage_quota config row = resolved_by (tenant_storage_quota_override row) config
