-- ===== src/Quota/Lift.antt =====
-- What a write of the ceiling reports when the studio carried a quota binding that is not bound again.
use vivijure_control_plane.Prelude.{
  suc, ◌≡◌, ◌∙◌, refl, ap, ap₂, Bool, true, false, not, ◌||◌, Option, none, some, List, [], ◌∷◌,
  map, arith, any, filter, length, ◌==◌, nat_eq, Bool-cases, inl, inr, any-append,
}
use vivijure_control_plane.Prelude.Text.{Text, text_eq, text_beq, text_beq_iff, is_empty}
use vivijure_control_plane.Prelude.Sort.{sort_by, any-sort_by}
use vivijure_control_plane.Quota.{Numbers, StorageQuotaRow}
use vivijure_control_plane.Quota.Bindings.{
  WorkerBinding, name_of, is_carried, storage_quota_var, storage_quota_mode_var,
  storage_quota_bindings, with_storage_quota,
}
use vivijure_control_plane.Quota.Preflight.{QuotaContext}
use vivijure_control_plane.Quota.Readback.{probe_within_seven, IsSlept}
use vivijure_control_plane.Quota.Apply.{
  Services, QuotaResult, live_name, itself, has_name, missing, inherited, reads_target, result_of,
  result_if, apply_storage_quota,
}

has_name-filter :
    (p : Text → Bool) (ns : List Text) (n : Text)
    → has_name ns n ≡ true
    → p n ≡ true
    → has_name (filter p ns) n ≡ true
has_name-filter p [] n h ok = h
has_name-filter p (m ∷ ns) n h ok = elim (Bool-cases (m == n)) [
  | inl same ↦
      let is_n : m ≡ n = (text_beq_iff m n).0 same in
      let kept : p m ≡ true = rw is_n ok in rw kept (ground arith)
  | inr other ↦ ground (arith, has_name-filter p ns n)
]

missing_has :
    (before after : List Text) (n : Text)
    → has_name before n ≡ true
    → has_name after n ≡ false
    → has_name (missing before after) n ≡ true
unfolding missing
missing_has before after n there gone =
    has_name-filter (λ m. not (has_name after m)) (sort_by itself before) n
      (any-sort_by itself (λ m. m == n) before ∙ there) (rw gone refl)

not_empty : (ns : List Text) (n : Text) → has_name ns n ≡ true → (length ns == 0) ≡ false
not_empty [] n h = absurd (ground arith)
not_empty (m ∷ ns) n h = ground arith

abbrev is_named : Text → WorkerBinding → Bool
is_named n b = name_of b == n

-- No quota variable is carried.
dropped :
    (bs : List WorkerBinding)
    → (any (is_named storage_quota_var) (filter is_carried bs) ≡ false)
      × (any (is_named storage_quota_mode_var) (filter is_carried bs) ≡ false)
unfolding is_carried
dropped [] = (refl, refl)
dropped (b ∷ bs) = let (bytes_gone, mode_gone) = dropped bs in (ground arith, ground arith)

mode_unbound :
    (bytes : Option Text)
    → any (is_named storage_quota_mode_var) (storage_quota_bindings bytes none) ≡ false
unfolding storage_quota_bindings storage_quota_var storage_quota_mode_var text_beq
mode_unbound none = refl
mode_unbound (some b) = elim (Bool-cases (is_empty b)) [ inl e ↦ rw e refl | inr e ↦ rw e refl ]

module _ (numbers : Numbers) (context : QuotaContext) (row : StorageQuotaRow)
    (services : Services) where
  abbrev pub sent : List WorkerBinding
  sent = with_storage_quota (map inherited services.bindings_before) context.bytes none

  abbrev pub names_before : List Text
  names_before = map live_name services.bindings_before

  abbrev pub names_after : List Text
  names_after = map live_name (services.bindings_after sent)

  -- The patch replaces the set of bindings: the names afterwards are those that were sent.
  abbrev pub IsReplaced : Type 0
  IsReplaced = (n : Text) → has_name names_after n ≡ any (is_named n) sent

  lost_not_ok :
      (n : Text)
      → IsSlept
          (reads_target numbers context.bytes)
          services.readings
          services.clock
          services.probe_started
      → has_name names_before n ≡ true
      → has_name names_after n ≡ false
      → (r : QuotaResult) × ((apply_storage_quota numbers context row services).1 ≡ some r)
        × (r.is_ok ≡ false)
        × (has_name r.missing_bindings n ≡ true)
  unfolding apply_storage_quota result_if result_of
  lost_not_ok n slept there gone =
      let (k, ended, _, _, _) =
        probe_within_seven (reads_target numbers context.bytes) services.readings services.clock
          services.probe_started slept in
      let listed = missing_has names_before names_after n there gone in
      let counted = not_empty (missing names_before names_after) n listed in
      (
        result_of numbers context services names_after
            (record { attempts = suc k; reading = services.readings k }),
        ap (result_if numbers context services names_after) ended,
        rw counted refl,
        listed,
      )

  -- A studio that carries a ceiling and is to have none always has its write reported as failed: the
  -- patch drops the variable, as it means to, and the census counts it as a binding that was lost,
  -- whatever the studio then serves.
  pub lift_never_ok :
      IsReplaced
      → IsSlept
          (reads_target numbers context.bytes)
          services.readings
          services.clock
          services.probe_started
      → context.bytes ≡ none
      → has_name names_before storage_quota_var ≡ true
      → (r : QuotaResult) × ((apply_storage_quota numbers context row services).1 ≡ some r)
        × (r.is_ok ≡ false)
        × (has_name r.missing_bindings storage_quota_var ≡ true)
        × (has_name names_after storage_quota_var ≡ false)
  unfolding with_storage_quota
  lift_never_ok replaced slept lifted there =
      let bs = map inherited services.bindings_before in
      let unsent : any (is_named storage_quota_var) sent ≡ false = rw lifted (
        any-append (is_named storage_quota_var) (filter is_carried bs)
          (storage_quota_bindings none none)
        ∙ rw (dropped bs).0 refl) in
      let gone = replaced storage_quota_var ∙ unsent in
      let (r, applied, failed, listed) = lost_not_ok storage_quota_var slept there gone in
      (r, applied, failed, listed, gone)

  -- A write of the ceiling takes the enforcement mode off the studio: a studio that carried it has no
  -- mode bound afterwards, whatever the ceiling, and the write is reported as failed.
  pub mode_never_kept :
      IsReplaced
      → IsSlept
          (reads_target numbers context.bytes)
          services.readings
          services.clock
          services.probe_started
      → has_name names_before storage_quota_mode_var ≡ true
      → (r : QuotaResult) × ((apply_storage_quota numbers context row services).1 ≡ some r)
        × (r.is_ok ≡ false)
        × (has_name r.missing_bindings storage_quota_mode_var ≡ true)
        × (has_name names_after storage_quota_mode_var ≡ false)
  unfolding with_storage_quota
  mode_never_kept replaced slept there =
      let bs = map inherited services.bindings_before in
      let unsent : any (is_named storage_quota_mode_var) sent ≡ false =
        any-append (is_named storage_quota_mode_var) (filter is_carried bs)
          (storage_quota_bindings context.bytes none)
        ∙ ap₂ (λ x y. x || y) (dropped bs).1 (mode_unbound context.bytes) in
      let gone = replaced storage_quota_mode_var ∙ unsent in
      let (r, applied, failed, listed) = lost_not_ok storage_quota_mode_var slept there gone in
      (r, applied, failed, listed, gone)
