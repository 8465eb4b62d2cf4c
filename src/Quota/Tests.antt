-- ===== src/Quota/Tests.antt =====
-- What the theorems on the storage ceiling say of one studio.
use vivijure_control_plane.Prelude.{
  ℕ, suc, ◌*◌, ◌<◌, ◌≡◌, ◌≤◌, ◌||◌, ◌⊎◌, ap, refl, Bool, true, false, Option, none, some, List, [],
  ◌∷◌, arith, map, any, leb, ◌==◌, nat_eq, if◌then◌else◌, ltb, ◌+◌,
}
use vivijure_control_plane.Prelude.Text.{
  Text, codes, text_eq, text_beq, trim, is_space, is_empty, trim-tight,
}
use vivijure_control_plane.Quota.{
  Numbers, IsNumbers, StorageQuotaConfig, StorageQuotaRow, set_bytes, set_none, tenant, tenant_none,
  plane_quota, is_positive_integer_bytes, resolve_storage_quota, set_tenant_storage_quota,
  tenant_storage_quota,
}
use vivijure_control_plane.Quota.Bindings.{
  WorkerBinding, name_of, storage_quota_var, storage_quota_mode_var,
}
use vivijure_control_plane.Quota.Resolve.{recorded_quota_wins, resolved_quota_positive, IsNormal}
use vivijure_control_plane.Quota.Preflight.{QuotaContext, StorageReading, unreadable, read}
use vivijure_control_plane.Quota.Readback.{probe, probe_within_seven, Stops, probe_ms}
use vivijure_control_plane.Quota.Apply.{
  LiveBinding, Services, QuotaResult, has_name, live_name, apply_storage_quota,
}
use vivijure_control_plane.Quota.Lift.{lift_never_ok, mode_never_kept, names_after, sent}

-- The numbers one to nine, by their digit.
abbrev digit_value : Text → Option ℕ
digit_value [] = none
digit_value (c ∷ []) = if ltb 48 c then (if leb c 57 then some c else none) else none
digit_value (c ∷ d ∷ rest) = none

-- A digit's number, kept as its code.
abbrev digits : Numbers
digits = record { positive_integer = digit_value; string_of = λ n. n ∷ [] }

in_range : (t : Text) (k : ℕ) → digit_value t ≡ some k → (ltb 48 k ≡ true) × (leb k 57 ≡ true)
in_range [] k h = absurd (ground arith)
in_range (c ∷ []) k h = ground arith
in_range (c ∷ d ∷ rest) k h = absurd (ground arith)

digit_tight : (k : ℕ) → ltb 48 k ≡ true → leb k 57 ≡ true → trim (k ∷ []) ≡ k ∷ []
unfolding is_space
digit_tight k low high = trim-tight (k ∷ []) (ground arith, tt)

digits_law : IsNumbers digits
digits_law = record { reads_back = reads; never_blank = blank }
  where
    reads : (t : Text) (k : ℕ) → digit_value t ≡ some k → digit_value (trim (k ∷ [])) ≡ some k
    reads t k h =
        let (low, high) = in_range t k h in rw (digit_tight k low high) (rw (low, high) refl)

    blank : (t : Text) (k : ℕ) → digit_value t ≡ some k → is_empty (trim (k ∷ [])) ≡ false
    blank t k h = let (low, high) = in_range t k h in rw (digit_tight k low high) refl

abbrev seven : Text
seven = codes "7"

abbrev malformed_plane : StorageQuotaConfig
malformed_plane = record {
  bytes = none;
  invalid = some (codes "100GB");
  mode = none;
  invalid_mode = none;
}

recorded_quota_wins_example :
    ((n : ℕ) × (digit_value (trim seven) ≡ some n)
      × (resolve_storage_quota digits malformed_plane
            (set_tenant_storage_quota (some (set_bytes seven)))
          ≡ record { bytes = some (n ∷ []); source = tenant; blocked = none }))
    × (resolve_storage_quota digits malformed_plane (set_tenant_storage_quota (some set_none))
        ≡ record { bytes = none; source = tenant_none; blocked = none })
    × (resolve_storage_quota digits malformed_plane (set_tenant_storage_quota none)
        ≡ plane_quota digits malformed_plane)
unfolding is_positive_integer_bytes trim
recorded_quota_wins_example = recorded_quota_wins digits malformed_plane seven refl

abbrev no_record : StorageQuotaRow
no_record = record { r2_storage_quota_override = none; r2_storage_quota_bytes = none }

abbrev spaced_seven : Text
spaced_seven = b' ' ∷ seven

resolved_quota_positive_example :
    (IsNormal digits no_record.r2_storage_quota_bytes seven
      ⊎ IsNormal digits (some spaced_seven) seven)
    × ((resolve_storage_quota digits
          (tenant_storage_quota digits (some spaced_seven) none)
          no_record).blocked
        ≡ none)
unfolding resolve_storage_quota tenant_storage_quota trim is_space
resolved_quota_positive_example =
    resolved_quota_positive digits digits_law (some spaced_seven) none no_record seven refl

-- A clock that shows the sleeps and nothing else, and a studio that does not answer.
abbrev slept_clock : ℕ → ℕ
slept_clock n = 1000 + probe_ms * n

slept_lem : (n : ℕ) → 1000 + probe_ms * n ≤ slept_clock n
slept_lem n = omega arith

abbrev silent : ℕ → StorageReading
silent n = unreadable

abbrev never_there : StorageReading → Bool
never_there r = false

probe_within_seven_example :
    (k : ℕ) × (probe never_there silent slept_clock 1000 7 0
      ≡ some (record { attempts = suc k; reading = silent k }))
    × (k < 7)
    × Stops never_there silent slept_clock 1000 k
    × ((m : ℕ) → m < k → never_there (silent m) ≡ false)
probe_within_seven_example = probe_within_seven never_there silent slept_clock 1000 slept_lem

-- A service that keeps exactly what is sent, on a studio with a ceiling and a mode.
abbrev sent_name : WorkerBinding → LiveBinding
sent_name b = record { type = codes "plain_text"; name = name_of b }

abbrev faithful : Services
faithful = record {
  bindings_before =
      record { type = codes "d1"; name = codes "DB" }
      ∷ record { type = codes "plain_text"; name = codes "R2_STORAGE_QUOTA_BYTES" }
      ∷ record { type = codes "plain_text"; name = codes "R2_STORAGE_QUOTA_MODE" }
      ∷ [];
  secrets_before = [];
  bindings_after = λ sent. map sent_name sent;
  secrets_after = [];
  readings = λ n. read none (some 5);
  clock = slept_clock;
  probe_started = 1000;
  probe_ended = 1000;
}

replaced_lem :
    (bs : List WorkerBinding) (n : Text)
    → has_name (map live_name (map sent_name bs)) n ≡ any (λ b. name_of b == n) bs
replaced_lem [] n = refl
replaced_lem (b ∷ bs) n = ap (λ r. (name_of b == n) || r) (replaced_lem bs n)

abbrev lifting : QuotaContext
lifting = record {
  script = codes "tenant-acme";
  studio_api_token = codes "tok";
  bytes = none;
  source = tenant_none;
  override = some (some set_none);
  served_before = some 100;
  used_before = some 5;
}

lift_never_ok_example :
    (r : QuotaResult) × ((apply_storage_quota digits lifting no_record faithful).1 ≡ some r)
    × (r.is_ok ≡ false)
    × (has_name r.missing_bindings storage_quota_var ≡ true)
    × (has_name (names_after digits lifting no_record faithful) storage_quota_var ≡ false)
unfolding storage_quota_var text_beq
lift_never_ok_example =
    lift_never_ok digits lifting no_record faithful
      (replaced_lem (sent digits lifting no_record faithful)) slept_lem refl refl

mode_never_kept_example :
    (r : QuotaResult) × ((apply_storage_quota digits lifting no_record faithful).1 ≡ some r)
    × (r.is_ok ≡ false)
    × (has_name r.missing_bindings storage_quota_mode_var ≡ true)
    × (has_name (names_after digits lifting no_record faithful) storage_quota_mode_var ≡ false)
unfolding storage_quota_mode_var text_beq
mode_never_kept_example =
    mode_never_kept digits lifting no_record faithful
      (replaced_lem (sent digits lifting no_record faithful)) slept_lem refl
