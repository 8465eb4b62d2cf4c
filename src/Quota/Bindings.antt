-- ===== src/Quota/Bindings.antt =====
-- The bindings of a studio that carry its ceiling: `storageQuotaBindings` and `withStorageQuota` of
-- src/tenant-storage-quota.ts.
use vivijure_control_plane.Prelude.{
  ◌≡◌, ◌∙◌, refl, ap, ap₂, Bool, not, ◌&&◌, Option, none, some, List, [], ◌∷◌, ◌++◌, arith, filter,
  ◌==◌, if◌then◌else◌, Bool-cases, inl, inr,
}
use vivijure_control_plane.Prelude.Text.{Text, codes, text_eq, text_beq, is_empty}

unfoldable pub storage_quota_var : Text
storage_quota_var = codes "R2_STORAGE_QUOTA_BYTES"

unfoldable pub storage_quota_mode_var : Text
storage_quota_mode_var = codes "R2_STORAGE_QUOTA_MODE"

-- A binding of a worker: carried as it is, a text, or another type with its name.
pub data WorkerBinding : Type 0 where
  inherit : Text → WorkerBinding
  plain_text : Text → Text → WorkerBinding
  other_binding : Text → Text → WorkerBinding

abbrev pub name_of : WorkerBinding → Text
name_of (inherit name) = name
name_of (plain_text name text) = name
name_of (other_binding type name) = name

-- `if (value)` on a text or null.
abbrev pub plain_if : Text → Option Text → List WorkerBinding
plain_if name none = []
plain_if name (some value) = if is_empty value then [] else plain_text name value ∷ []

unfoldable pub storage_quota_bindings : Option Text → Option Text → List WorkerBinding
unfolding storage_quota_var storage_quota_mode_var
storage_quota_bindings bytes mode =
    plain_if storage_quota_var bytes ++ plain_if storage_quota_mode_var mode

unfoldable pub is_carried : WorkerBinding → Bool
unfolding storage_quota_var storage_quota_mode_var
is_carried b = not (name_of b == storage_quota_var) && not (name_of b == storage_quota_mode_var)

unfoldable pub with_storage_quota :
    List WorkerBinding → Option Text → Option Text → List WorkerBinding
unfolding is_carried storage_quota_bindings
with_storage_quota carried bytes mode =
    filter is_carried carried ++ storage_quota_bindings bytes mode

filter-append :
    (p : WorkerBinding → Bool) (xs ys : List WorkerBinding)
    → filter p (xs ++ ys) ≡ filter p xs ++ filter p ys
filter-append p [] ys = refl
filter-append p (x ∷ xs) ys = ground (arith, filter-append p xs ys)

filter_twice :
    (p : WorkerBinding → Bool) (xs : List WorkerBinding) → filter p (filter p xs) ≡ filter p xs
filter_twice p [] = refl
filter_twice p (x ∷ xs) = ground (arith, filter_twice p xs)

append_empty : (xs : List WorkerBinding) → xs ++ [] ≡ xs
append_empty [] = refl
append_empty (x ∷ xs) = ap (λ r. x ∷ r) (append_empty xs)

quota_not_carried :
    (bytes mode : Option Text) → filter is_carried (storage_quota_bindings bytes mode) ≡ []
unfolding is_carried storage_quota_bindings storage_quota_var storage_quota_mode_var text_beq
quota_not_carried none none = refl
quota_not_carried none (some m) = elim (Bool-cases (is_empty m)) [
  | inl e ↦ rw e refl
  | inr e ↦ rw e refl
]
quota_not_carried (some b) none = elim (Bool-cases (is_empty b)) [
  | inl e ↦ rw e refl
  | inr e ↦ rw e refl
]
quota_not_carried (some b) (some m) = elim (Bool-cases (is_empty b)) [
  | inl e ↦ elim (Bool-cases (is_empty m)) [ inl k ↦ rw (e, k) refl | inr k ↦ rw (e, k) refl ]
  | inr e ↦ elim (Bool-cases (is_empty m)) [ inl k ↦ rw (e, k) refl | inr k ↦ rw (e, k) refl ]
]

-- A ceiling is re-derived, never carried: binding a second ceiling and mode over a first leaves exactly
-- what binding the second alone leaves, so a ceiling or a mode that is lifted is gone from the set
-- that is sent, and every other binding travels, in its order.
pub with_storage_quota_converges :
    (carried : List WorkerBinding) (bytes mode bytes' mode' : Option Text)
    → (with_storage_quota (with_storage_quota carried bytes mode) bytes' mode'
        ≡ with_storage_quota carried bytes' mode')
      × (filter is_carried (with_storage_quota carried bytes' mode') ≡ filter is_carried carried)
unfolding with_storage_quota
with_storage_quota_converges carried bytes mode bytes' mode' =
    let once : (b m : Option Text)
        → filter is_carried (filter is_carried carried ++ storage_quota_bindings b m)
          ≡ filter is_carried carried =
      λ b m.
        filter-append is_carried (filter is_carried carried) (storage_quota_bindings b m)
        ∙ ap₂ (λ x y. x ++ y) (filter_twice is_carried carried) (quota_not_carried b m)
        ∙ append_empty (filter is_carried carried) in
    (ap (λ x. x ++ storage_quota_bindings bytes' mode') (once bytes mode), once bytes' mode')
