-- ===== src/Quota/Resolve.antt =====
-- Which ceiling binds, and that it is one.
use vivijure_control_plane.Prelude.{
  ℕ, ◌≡◌, refl, sym, subst, ◌⊎◌, true, Option, none, some, arith, is_some, Bool-cases, Option-cases,
  inl, inr,
}
use vivijure_control_plane.Prelude.Text.{Text, text_eq, text_beq, trim, is_empty}
use vivijure_control_plane.Quota.{
  Numbers, IsNumbers, StorageQuotaConfig, StorageQuotaRow, set_bytes, set_none, OverrideRead,
  no_override, corrupt, decided, ResolvedStorageQuota, tenant, tenant_none,
  is_positive_integer_bytes, normalized, tenant_storage_quota, set_override,
  tenant_storage_quota_override, plane_quota, resolved_by, resolve_storage_quota,
  set_tenant_storage_quota,
}

module _ (numbers : Numbers) where
  -- The text that `String` gives for the positive integer that `Number` reads in a given text.
  pub record IsNormal (source : Option Text) (b : Text) : Type 0 where
    pub text : Text
    pub value : ℕ
    pub given : source ≡ some text
    pub reads : numbers.positive_integer (trim text) ≡ some value
    pub printed : b ≡ numbers.string_of value
    pub accepted : is_positive_integer_bytes numbers b ≡ true

  positive_is :
      (bytes : Text)
      → is_positive_integer_bytes numbers bytes ≡ true
      → (n : ℕ) × (numbers.positive_integer (trim bytes) ≡ some n)
  unfolding is_positive_integer_bytes
  positive_is bytes h = elim (Option-cases (numbers.positive_integer (trim bytes))) [
    | inl no_number ↦ absurd (ground arith)
    | inr found ↦ found
  ]

  -- What is recorded for a tenant decides, whatever the plane says, even where the plane's own value is
  -- malformed: a recorded byte count binds as its number, a recorded "none" lifts the ceiling; and
  -- once the record is cleared the plane's value binds, or blocks.
  pub recorded_quota_wins :
      (config : StorageQuotaConfig) (bytes : Text)
      → is_positive_integer_bytes numbers bytes ≡ true
      → ((n : ℕ) × (numbers.positive_integer (trim bytes) ≡ some n)
          × (resolve_storage_quota numbers config
                (set_tenant_storage_quota (some (set_bytes bytes)))
              ≡ record { bytes = some (numbers.string_of n); source = tenant; blocked = none }))
        × (resolve_storage_quota numbers config (set_tenant_storage_quota (some set_none))
            ≡ record { bytes = none; source = tenant_none; blocked = none })
        × (resolve_storage_quota numbers config (set_tenant_storage_quota none)
            ≡ plane_quota numbers config)
  unfolding resolve_storage_quota tenant_storage_quota_override set_tenant_storage_quota text_beq
  recorded_quota_wins config bytes valid =
      let (n, is_n) = positive_is bytes valid in ((n, is_n, rw (valid, is_n) refl), refl, refl)

module _ (numbers : Numbers) (law : IsNumbers numbers) where
  string_positive :
      (t : Text) (n : ℕ)
      → numbers.positive_integer t ≡ some n
      → is_positive_integer_bytes numbers (numbers.string_of n) ≡ true
  unfolding is_positive_integer_bytes
  string_positive t n h = ground (arith, law.reads_back t n h, law.never_blank t n h)

  abbrev IsBound : (Text → Type 0) → ResolvedStorageQuota → Type 0
  IsBound P r = (b : Text) → r.bytes ≡ some b → P b × (r.blocked ≡ none)

  override-IsBound :
      (P : Text → Type 0) (o : OverrideRead) (config : StorageQuotaConfig)
      → ((b : Text) → o ≡ decided (set_bytes b) → P b)
      → ((b : Text) → config.bytes ≡ some b → P b)
      → IsBound P (resolved_by numbers o config)
  override-IsBound P corrupt config ours plane_ok b h = absurd (ground arith)
  override-IsBound P (decided set_none) config ours plane_ok b h = absurd (ground arith)
  override-IsBound P (decided (set_bytes c)) config ours plane_ok b h =
      let same : c ≡ b = ground arith in (subst P same (ours c refl), refl)
  override-IsBound P no_override config ours plane_ok b h =
      elim (Bool-cases (is_some config.invalid)) [
        | inl bad ↦ absurd (ground arith)
        | inr good ↦ (plane_ok b (ground arith), ground arith)
      ]

  normalized-IsNormal :
      (t b : Text)
      → normalized numbers (numbers.positive_integer (trim t)) ≡ some b
      → IsNormal numbers (some t) b
  normalized-IsNormal t b h = elim (Option-cases (numbers.positive_integer (trim t))) [
    | inl no_number ↦ absurd (ground arith)
    | inr (n, is_n) ↦
        let same : numbers.string_of n ≡ b = ground arith in
        record {
          text = t;
          value = n;
          given = refl;
          reads = is_n;
          printed = sym same;
          accepted =
              subst (λ k. is_positive_integer_bytes numbers k ≡ true) same
                (string_positive (trim t) n is_n);
        }
  ]

  config-IsNormal :
      (raw mode_var : Option Text) (b : Text)
      → (tenant_storage_quota numbers raw mode_var).bytes ≡ some b
      → IsNormal numbers raw b
  unfolding tenant_storage_quota
  config-IsNormal none mode_var b h = absurd (ground arith)
  config-IsNormal (some raw) mode_var b h = elim (Bool-cases (is_empty (trim raw))) [
    | inl blank ↦ absurd (ground arith)
    | inr full ↦ elim (Bool-cases (is_positive_integer_bytes numbers (trim raw))) [
      | inl good ↦ normalized-IsNormal raw b (ground arith)
      | inr bad ↦ absurd (ground arith)
    ]
  ]

  recorded-IsNormal :
      (row : StorageQuotaRow) (b : Text)
      → tenant_storage_quota_override numbers row ≡ decided (set_bytes b)
      → IsNormal numbers row.r2_storage_quota_bytes b
  unfolding tenant_storage_quota_override
  recorded-IsNormal row b h =
      by_mode row.r2_storage_quota_override row.r2_storage_quota_bytes (ground arith)
    where
      by_bytes :
          (bytes : Option Text)
          → set_override numbers bytes ≡ decided (set_bytes b)
          → IsNormal numbers bytes b
      by_bytes none e = absurd (ground arith)
      by_bytes (some t) e = normalized-IsNormal t b (ground arith)

      by_mode :
          (mode bytes : Option Text)
          → tenant_storage_quota_override numbers
              (record { r2_storage_quota_override = mode; r2_storage_quota_bytes = bytes })
            ≡ decided (set_bytes b)
          → IsNormal numbers bytes b
      by_mode none bytes e = absurd (ground arith)
      by_mode (some mode) bytes e = by_bytes bytes (ground arith)

  -- Whatever stands in the environment and in the tenant's record, a ceiling that is resolved is the
  -- text that `String` gives for the positive integer that `Number` reads in the recorded bytes or in
  -- the plane's variable, and it is accepted itself; nothing that is blocked has a ceiling to bind.
  pub resolved_quota_positive :
      (raw mode_var : Option Text) (row : StorageQuotaRow) (b : Text)
      → (resolve_storage_quota numbers (tenant_storage_quota numbers raw mode_var) row).bytes
        ≡ some b
      → (IsNormal numbers row.r2_storage_quota_bytes b ⊎ IsNormal numbers raw b)
        × ((resolve_storage_quota numbers (tenant_storage_quota numbers raw mode_var) row).blocked
            ≡ none)
  unfolding resolve_storage_quota
  resolved_quota_positive raw mode_var row b h =
      override-IsBound (λ t. IsNormal numbers row.r2_storage_quota_bytes t ⊎ IsNormal numbers raw t)
        (tenant_storage_quota_override numbers row) (tenant_storage_quota numbers raw mode_var)
        (λ t e. inl (recorded-IsNormal row t e)) (λ t e. inr (config-IsNormal raw mode_var t e)) b h
