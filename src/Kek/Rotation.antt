-- ===== src/Kek/Rotation.antt =====
-- The census and the sweep of a key rotation (src/kek-rotation.ts), and the statements of
-- src/store-d1.ts that they use. Between a read and its write the sweep waits, and other requests may
-- store tokens meanwhile: which ones is an argument.
use vivijure_control_plane.Prelude.{
  ℕ, suc, ◌+◌, Bool, true, false, not, ◌&&◌, Option, none, some, List, [], ◌∷◌, ◌++◌, count, length,
  take, ltb, ◌==◌, nat_eq, if◌then◌else◌,
}
use vivijure_control_plane.Prelude.Text.{Text, text_eq, is_empty}
use vivijure_control_plane.Prelude.Rows.{update_where}
use vivijure_control_plane.Prelude.Sort.{sort_by}
use vivijure_control_plane.Tenants.{Tenant}
use vivijure_control_plane.Fleet.{FleetDb, has_tenant_id, update_tenant}
use vivijure_control_plane.Kek.{
  Bytes, Platform, KekSlot, KekRing, same_slot, rotation_window_open, encrypt_studio_token,
  decrypt_studio_token_with_slot,
}

pub record EncryptedTokenRow : Type 0 where
  pub id : Text
  pub slug : Text
  pub studio_token_enc : Text

unfoldable pub set_tenant_studio_token : FleetDb → Text → Text → FleetDb
unfolding update_tenant
set_tenant_studio_token db id enc =
    update_tenant db id (λ t. record t { studio_token_enc = some enc })

abbrev pub sealed_row : Tenant → Option Text → List EncryptedTokenRow
sealed_row t none = []
sealed_row t (some enc) =
    if is_empty enc then [] else record { id = t.id; slug = t.slug; studio_token_enc = enc } ∷ []

abbrev pub sealed_rows : List Tenant → List EncryptedTokenRow
sealed_rows [] = []
sealed_rows (t ∷ ts) = sealed_row t t.studio_token_enc ++ sealed_rows ts

abbrev pub token_row_id : EncryptedTokenRow → Text
token_row_id r = r.id

unfoldable pub list_encrypted_studio_tokens : FleetDb → List EncryptedTokenRow
list_encrypted_studio_tokens db = sort_by token_row_id (sealed_rows db.tenants)

abbrev pub is_sealed_as : Text → Option Text → Bool
is_sealed_as enc none = false
is_sealed_as enc (some e) = e == enc

abbrev pub is_unchanged : Text → Text → Tenant → Bool
is_unchanged id expected t = has_tenant_id id t && is_sealed_as expected t.studio_token_enc

abbrev pub resealed : Text → Tenant → Tenant
resealed enc t = record t { studio_token_enc = some enc }

unfoldable pub set_tenant_studio_token_if_unchanged : FleetDb → Text → Text → Text → FleetDb × Bool
set_tenant_studio_token_if_unchanged db id expected enc = (
  record db { tenants = update_where (is_unchanged id expected) (resealed enc) db.tenants },
  ltb 0 (count (is_unchanged id expected) db.tenants),
)

pub record KekCensus : Type 0 where
  pub window_open : Bool
  pub encrypt_slot : KekSlot
  pub total : ℕ
  pub on_target : ℕ
  pub needs_rotation : ℕ
  pub unreadable : List Text
  pub safe_to_promote : Bool

-- What one run of a loop over the rows has counted.
pub record Tally : Type 0 where
  pub skipped : ℕ
  pub rotated : ℕ
  pub raced : ℕ
  pub unreadable : List Text

pub record SweepResult : Type 0 where
  pub examined : ℕ
  pub skipped_on_target : ℕ
  pub rotated : ℕ
  pub raced : ℕ
  pub unreadable : List Text
  pub complete : Bool

abbrev pub no_tally : Tally
no_tally = record { skipped = 0; rotated = 0; raced = 0; unreadable = [] }

abbrev pub itself : Text → Text
itself t = t

-- A write of a token by another request: the tenant and the sealed value.
pub record TokenWrite : Type 0 where
  pub id : Text
  pub enc : Text

unfoldable pub apply_writes : FleetDb → List TokenWrite → FleetDb
unfolding set_tenant_studio_token
apply_writes db [] = db
apply_writes db (w ∷ ws) = apply_writes (set_tenant_studio_token db w.id w.enc) ws

module _ (platform : Platform) (ring : KekRing) where
  abbrev pub census_count : Option (KekSlot × Text) → Text → KekCensus → KekCensus
  census_count none slug c = record c { unreadable = c.unreadable ++ slug ∷ [] }
  census_count (some (slot, plaintext)) slug c =
      if same_slot slot ring.encrypt_slot
      then record c { on_target = c.on_target + 1 }
      else record c { needs_rotation = c.needs_rotation + 1 }

  unfoldable pub census_rows : List EncryptedTokenRow → KekCensus → KekCensus
  census_rows [] c = c
  census_rows (r ∷ rs) c =
      census_rows rs
        (census_count (decrypt_studio_token_with_slot platform ring r.studio_token_enc) r.slug c)

  unfoldable pub kek_census : FleetDb → KekCensus
  unfolding census_rows list_encrypted_studio_tokens rotation_window_open
  kek_census db =
      let rows = list_encrypted_studio_tokens db in
      let c = census_rows rows (record {
        window_open = rotation_window_open ring;
        encrypt_slot = ring.encrypt_slot;
        total = length rows;
        on_target = 0;
        needs_rotation = 0;
        unreadable = [];
        safe_to_promote = false;
      }) in
      record c {
        unreadable = sort_by itself c.unreadable;
        safe_to_promote = c.needs_rotation == 0 && length c.unreadable == 0;
      }

  abbrev pub note_write : FleetDb × Bool → Tally → FleetDb × Option Tally
  note_write (db, true) tally = (db, some (record tally { rotated = tally.rotated + 1 }))
  note_write (db, false) tally = (db, some (record tally { raced = tally.raced + 1 }))

  -- The write of a re-encrypted token; a failed encryption throws.
  abbrev pub write_back : FleetDb → EncryptedTokenRow → Option Text → Tally → FleetDb × Option Tally
  write_back db row none tally = (db, none)
  write_back db row (some enc) tally =
      note_write (set_tenant_studio_token_if_unchanged db row.id row.studio_token_enc enc) tally

  abbrev pub rotate_opened :
      FleetDb → Bytes → EncryptedTokenRow → Option (KekSlot × Text) → Tally → FleetDb × Option Tally
  rotate_opened db iv row none tally =
      (db, some (record tally { unreadable = tally.unreadable ++ row.slug ∷ [] }))
  rotate_opened db iv row (some (slot, plaintext)) tally =
      if same_slot slot ring.encrypt_slot
      then (db, some (record tally { skipped = tally.skipped + 1 }))
      else write_back db row (encrypt_studio_token platform ring iv plaintext) tally

  -- The body of the sweep's loop, after the writes that other requests made since the last one.
  unfoldable pub sweep_row :
      FleetDb → List TokenWrite → Bytes → EncryptedTokenRow → Tally → FleetDb × Option Tally
  unfolding apply_writes set_tenant_studio_token_if_unchanged
  sweep_row db meanwhile iv row tally =
      rotate_opened (apply_writes db meanwhile) iv row
        (decrypt_studio_token_with_slot platform ring row.studio_token_enc) tally

  abbrev pub sweep_then :
      (FleetDb → Tally → FleetDb × Option Tally) → FleetDb × Option Tally → FleetDb × Option Tally
  sweep_then rest (db, none) = (db, none)
  sweep_then rest (db, some tally) = rest db tally

  abbrev pub report : ℕ → Bool → FleetDb × Option Tally → FleetDb × Option SweepResult
  report examined complete (db, none) = (db, none)
  report examined complete (db, some tally) = (
    db,
    some (record {
      examined = examined;
      skipped_on_target = tally.skipped;
      rotated = tally.rotated;
      raced = tally.raced;
      unreadable = sort_by itself tally.unreadable;
      complete = complete;
    }),
  )

  -- The bytes that `getRandomValues` answers for each row, and the writes of others before it.
  module _ (ivs : ℕ → Bytes) (meanwhile : ℕ → List TokenWrite) where
    unfoldable pub reencrypt_rows :
        ℕ → List EncryptedTokenRow → FleetDb → Tally → FleetDb × Option Tally
    unfolding sweep_row
    reencrypt_rows k [] db tally = (db, some tally)
    reencrypt_rows k (r ∷ rs) db tally =
        sweep_then (reencrypt_rows (suc k) rs) (sweep_row db (meanwhile k) (ivs k) r tally)

    -- `none` is the refusal, or an encryption that threw.
    unfoldable pub sweep_reencrypt : FleetDb → ℕ → FleetDb × Option SweepResult
    unfolding reencrypt_rows list_encrypted_studio_tokens rotation_window_open
    sweep_reencrypt db limit =
        let rows = list_encrypted_studio_tokens db in
        let batch = take limit rows in
        if not (rotation_window_open ring)
        then (db, none)
        else report (length batch) (length batch == length rows)
            (reencrypt_rows 0 batch db no_tally)
