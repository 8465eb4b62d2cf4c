-- ===== src/Kek/Transparent.antt =====
-- A sweep changes no plaintext: to a reader of tokens it is as if it had not run.
use vivijure_control_plane.Prelude.{
  ℕ, suc, Option, List, [], ◌∷◌, ◌++◌, map, ◌==◌, nat_eq, if◌then◌else◌,
}
use vivijure_control_plane.Prelude.Text.{Text, text_eq}
use vivijure_control_plane.Tenants.{Tenant}
use vivijure_control_plane.Fleet.{FleetDb}
use vivijure_control_plane.Kek.{Platform, KekRing, decrypt_studio_token, and_then}
use vivijure_control_plane.Kek.Rotation.{EncryptedTokenRow, TokenWrite}

-- The writes of the others before the steps of a sweep, in order.
abbrev pub writes_between : (ℕ → List TokenWrite) → ℕ → List EncryptedTokenRow → List TokenWrite
writes_between meanwhile k [] = []
writes_between meanwhile k (r ∷ rs) = meanwhile k ++ writes_between meanwhile (suc k) rs

module _ (platform : Platform) (ring : KekRing) where
  -- What a reader of a tenant's token sees.
  abbrev pub reading : Tenant → Text × Option Text
  reading t = (t.id, and_then t.studio_token_enc (λ enc. decrypt_studio_token platform ring enc))

  abbrev pub readings : FleetDb → List (Text × Option Text)
  readings db = map reading db.tenants

  -- A write by the tenant's id, seen by a reader.
  abbrev rewritten : TokenWrite → Text × Option Text → Text × Option Text
  rewritten w (id, seen) =
      if id == w.id then (id, decrypt_studio_token platform ring w.enc) else (id, seen)
