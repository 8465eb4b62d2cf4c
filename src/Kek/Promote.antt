-- ===== src/Kek/Promote.antt =====
-- The gate of a rotation: what a sweep that is complete and clean leaves passes the census.
use vivijure_control_plane.Prelude.{
  ℕ, ◌≡◌, ◌∙◌, refl, sym, Bool, Option, none, some, List, arith, length, take, ◌==◌, nat_eq,
  Bool-cases, inl, inr,
}
use vivijure_control_plane.Prelude.Text.{Text, text_eq}
use vivijure_control_plane.Prelude.Sort.{sort_by}
use vivijure_control_plane.Fleet.{FleetDb}
use vivijure_control_plane.Kek.{Bytes, Platform, KekRing, rotation_window_open}
use vivijure_control_plane.Kek.Rotation.{
  list_encrypted_studio_tokens, Tally, SweepResult, no_tally, itself, TokenWrite, report,
  reencrypt_rows, sweep_reencrypt,
}

abbrev pair_up : FleetDb → Option Tally → FleetDb × Option Tally
pair_up db tally = (db, tally)

module _ (platform : Platform) (ring : KekRing) where
  pub sweep_reencrypt_inv :
      (ivs : ℕ → Bytes) (meanwhile : ℕ → List TokenWrite) (db db' : FleetDb) (limit : ℕ)
      (result : SweepResult)
      → sweep_reencrypt platform ring ivs meanwhile db limit ≡ (db', some result)
      → (tally : Tally) × (reencrypt_rows platform ring ivs meanwhile 0
            (take limit (list_encrypted_studio_tokens db))
            db
            no_tally
          ≡ (db', some tally))
        × (result.unreadable ≡ sort_by itself tally.unreadable)
        × (result.complete ≡ (
            length (take limit (list_encrypted_studio_tokens db))
            == length (list_encrypted_studio_tokens db)))
  unfolding sweep_reencrypt
  sweep_reencrypt_inv ivs meanwhile db db' limit result h =
      let rows = list_encrypted_studio_tokens db in
      let batch = take limit rows in
      elim (Bool-cases (rotation_window_open ring)) [
        | inl opened ↦
            reported (length batch) (length batch == length rows)
              (reencrypt_rows platform ring ivs meanwhile 0 batch db no_tally)
              (sym (rw opened refl) ∙ h)
        | inr shut ↦ absurd (ground arith)
      ]
    where
      reported :
          (n : ℕ) (complete : Bool) (x : FleetDb × Option Tally)
          → report platform ring n complete x ≡ (db', some result)
          → (tally : Tally) × (x ≡ (db', some tally))
            × (result.unreadable ≡ sort_by itself tally.unreadable)
            × (result.complete ≡ complete)
      reported n complete (d, none) e = absurd (ground arith)
      reported n complete (d, some tally) e = (tally, ground arith, ground arith, ground arith)
