-- ===== src/Kek/Sweep.antt =====
-- A sweep converges: what it leaves is on the write slot, and a census then allows the promotion.
use vivijure_control_plane.Prelude.{
  ℕ, zero, suc, ◌≡◌, ◌∙◌, refl, sym, ap, Bool, true, false, ◌||◌, Option, none, some, List, [], ◌∷◌,
  ◌++◌, arith, all, any, length, take, ◌==◌, nat_eq, Bool-cases, inl, inr,
}
use vivijure_control_plane.Prelude.Text.{Text, text_eq, text_beq_iff, is_empty}
use vivijure_control_plane.Prelude.Rows.{update_where}
use vivijure_control_plane.Tenants.{Tenant}
use vivijure_control_plane.Fleet.{FleetDb, has_tenant_id, update_tenant}
use vivijure_control_plane.Kek.{
  Bytes, Platform, KekSlot, slot_primary, slot_next, KekRing, same_slot, encrypt_studio_token,
  decrypt_studio_token_with_slot,
}
use vivijure_control_plane.Kek.Rotation.{
  EncryptedTokenRow, set_tenant_studio_token, is_unchanged, resealed,
  set_tenant_studio_token_if_unchanged, Tally, TokenWrite, apply_writes, note_write, write_back,
  rotate_opened, sweep_row, sweep_then, reencrypt_rows,
}

pub same_slot_refl : (s : KekSlot) → same_slot s s ≡ true
same_slot_refl slot_primary = refl
same_slot_refl slot_next = refl

pub take_whole :
    (n : ℕ) (rs : List EncryptedTokenRow) → length (take n rs) ≡ length rs → take n rs ≡ rs
take_whole zero [] h = refl
take_whole (suc n) [] h = refl
take_whole zero (r ∷ rs) h = absurd (ground arith)
take_whole (suc n) (r ∷ rs) h = ap (λ k. r ∷ k) (take_whole n rs (ground arith))

-- A property of every row survives an update that gives it to the rows it changes.
all-update_where :
    (q p : Tenant → Bool) (f : Tenant → Tenant) (ts : List Tenant)
    → ((t : Tenant) → p t ≡ true → q (f t) ≡ true)
    → all q ts ≡ true
    → all q (update_where p f ts) ≡ true
unfolding update_where
all-update_where q p f [] gives h = refl
all-update_where q p f (t ∷ ts) gives h = ground (arith, gives t, all-update_where q p f ts gives)

pub all_weaken :
    (q q' : Tenant → Bool) (ts : List Tenant)
    → ((t : Tenant) → q t ≡ true → q' t ≡ true)
    → all q ts ≡ true
    → all q' ts ≡ true
all_weaken q q' [] gives h = refl
all_weaken q q' (t ∷ ts) gives h = ground (arith, gives t, all_weaken q q' ts gives)

module _ (platform : Platform) (ring : KekRing) where
  abbrev pub is_target : Option (KekSlot × Text) → Bool
  is_target none = false
  is_target (some (slot, plaintext)) = same_slot slot ring.encrypt_slot

  -- A sealed value that the write slot's key opens.
  abbrev pub is_current : Text → Bool
  is_current enc = is_target (decrypt_studio_token_with_slot platform ring enc)

  abbrev pub row_current : EncryptedTokenRow → Bool
  row_current r = is_current r.studio_token_enc

  abbrev pub write_current : TokenWrite → Bool
  write_current w = is_current w.enc

  abbrev pub settled : Option Text → Bool
  settled none = true
  settled (some enc) = is_empty enc || is_current enc

  abbrev pub is_settled : Tenant → Bool
  is_settled t = settled t.studio_token_enc

  abbrev pub meets : Tenant → EncryptedTokenRow → Bool
  meets t r = is_unchanged r.id r.studio_token_enc t

  -- On target, or still among the rows that the sweep will read.
  abbrev pub is_pending : List EncryptedTokenRow → Tenant → Bool
  is_pending rs t = is_settled t || any (meets t) rs

  pub apply_writes_pending :
      (ws : List TokenWrite) (rs : List EncryptedTokenRow) (db : FleetDb)
      → all write_current ws ≡ true
      → all (is_pending rs) db.tenants ≡ true
      → all (is_pending rs) (apply_writes db ws).tenants ≡ true
  unfolding apply_writes set_tenant_studio_token update_tenant
  apply_writes_pending [] rs db current h = h
  apply_writes_pending (w ∷ ws) rs db current h =
      let first : is_current w.enc ≡ true = ground arith in
      let rest : all write_current ws ≡ true = ground arith in
      apply_writes_pending ws rs (set_tenant_studio_token db w.id w.enc) rest (
        all-update_where (is_pending rs) (has_tenant_id w.id) (resealed w.enc) db.tenants
          (λ t hit. ground arith) h)

  -- A row that is read needs no more work once its value, where it is unchanged, is on target.
  pub drop_current :
      (r : EncryptedTokenRow) (rs : List EncryptedTokenRow) (ts : List Tenant)
      → row_current r ≡ true
      → all (is_pending (r ∷ rs)) ts ≡ true
      → all (is_pending rs) ts ≡ true
  drop_current r rs ts current =
      all_weaken (is_pending (r ∷ rs)) (is_pending rs) ts (λ t. one t t.studio_token_enc refl)
    where
      one :
          (t : Tenant) (o : Option Text)
          → t.studio_token_enc ≡ o
          → is_pending (r ∷ rs) t ≡ true
          → is_pending rs t ≡ true
      one t none e h = rw e refl
      one t (some enc) e h = elim (Bool-cases (enc == r.studio_token_enc)) [
        | inl same ↦
            let now : is_current enc ≡ true =
              rw ((text_beq_iff enc r.studio_token_enc).0 same) current in
            ground arith
        | inr other ↦ ground arith
      ]

  pub drop_resealed :
      (r : EncryptedTokenRow) (rs : List EncryptedTokenRow) (enc : Text) (ts : List Tenant)
      → is_current enc ≡ true
      → all (is_pending (r ∷ rs)) ts ≡ true
      → all (is_pending rs) (update_where (is_unchanged r.id r.studio_token_enc) (resealed enc) ts)
        ≡ true
  unfolding update_where
  drop_resealed r rs enc [] current h = refl
  drop_resealed r rs enc (t ∷ ts) current h =
      let rest = drop_resealed r rs enc ts current (ground arith) in
      elim (Bool-cases (meets t r)) [
        | inl met ↦ rw met (ground arith)
        | inr passed ↦ rw passed (ground arith)
      ]

  -- The unreadable rows are only ever added to.
  rotate_opened_clean :
      (db db' : FleetDb) (iv : Bytes) (r : EncryptedTokenRow) (o : Option (KekSlot × Text))
      (tally after : Tally)
      → rotate_opened platform ring db iv r o tally ≡ (db', some after)
      → after.unreadable ≡ []
      → tally.unreadable ≡ []
  rotate_opened_clean db db' iv r none tally after h clean =
      let same : tally.unreadable ++ r.slug ∷ [] ≡ [] = ground arith in
      absurd (no_snoc tally.unreadable r.slug same)
    where
      no_snoc : (xs : List Text) (x : Text) → xs ++ x ∷ [] ≡ [] → ⊥
      no_snoc [] x e = ground arith
      no_snoc (y ∷ xs) x e = ground arith
  rotate_opened_clean db db' iv r (some (slot, plaintext)) tally after h clean =
      elim (Bool-cases (same_slot slot ring.encrypt_slot)) [
        | inl current ↦ ground arith
        | inr older ↦
            written (encrypt_studio_token platform ring iv plaintext) (sym (rw older refl) ∙ h)
      ]
    where
      noted :
          (x : FleetDb × Bool)
          → note_write platform ring x tally ≡ (db', some after)
          → tally.unreadable ≡ []
      noted (d, true) e = ground arith
      noted (d, false) e = ground arith

      written :
          (enc : Option Text)
          → write_back platform ring db r enc tally ≡ (db', some after)
          → tally.unreadable ≡ []
      written none e = absurd (ground arith)
      written (some enc) e =
          noted (set_tenant_studio_token_if_unchanged db r.id r.studio_token_enc enc) e

  pub sweep_then-some :
      (rest : FleetDb → Tally → FleetDb × Option Tally) (x : FleetDb × Option Tally) (db' : FleetDb)
      (after : Tally)
      → sweep_then platform ring rest x ≡ (db', some after)
      → (db : FleetDb) × (tally : Tally) × (x ≡ (db, some tally))
        × (rest db tally ≡ (db', some after))
  sweep_then-some rest (db, none) db' after h = absurd (ground arith)
  sweep_then-some rest (db, some tally) db' after h = (db, tally, refl, h)

  pub reencrypt_rows_clean :
      (ivs : ℕ → Bytes) (meanwhile : ℕ → List TokenWrite) (k : ℕ) (rs : List EncryptedTokenRow)
      (db db' : FleetDb) (tally after : Tally)
      → reencrypt_rows platform ring ivs meanwhile k rs db tally ≡ (db', some after)
      → after.unreadable ≡ []
      → tally.unreadable ≡ []
  unfolding reencrypt_rows sweep_row
  reencrypt_rows_clean ivs meanwhile k [] db db' tally after h clean = ground arith
  reencrypt_rows_clean ivs meanwhile k (r ∷ rs) db db' tally after h clean =
      let (mid, one, first, rest) =
        sweep_then-some (reencrypt_rows platform ring ivs meanwhile (suc k) rs)
          (sweep_row platform ring db (meanwhile k) (ivs k) r tally) db' after h in
      rotate_opened_clean (apply_writes db (meanwhile k)) mid (ivs k) r
        (decrypt_studio_token_with_slot platform ring r.studio_token_enc) tally one first
        (reencrypt_rows_clean ivs meanwhile (suc k) rs mid db' one after rest clean)
