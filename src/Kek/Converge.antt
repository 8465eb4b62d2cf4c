-- ===== src/Kek/Converge.antt =====
-- A whole sweep leaves every token on the write slot, and the census then allows the promotion.
use vivijure_control_plane.Prelude.{
  ℕ, suc, ◌≡◌, ◌∙◌, refl, sym, subst, Bool, true, false, Option, none, some, List, [], ◌∷◌, ◌++◌,
  arith, all, length, nat_eq, Bool-cases, inl, inr, any-append,
}
use mathlib.Core.List.{append_assoc}
use vivijure_control_plane.Prelude.Text.{Text, text_eq, text_beq_iff, is_empty}
use vivijure_control_plane.Prelude.Sort.{sort_by, any-sort_by}
use vivijure_control_plane.Tenants.{Tenant}
use vivijure_control_plane.Fleet.{FleetDb}
use vivijure_control_plane.Kek.{
  Bytes, iv_bytes, is_byte, Platform, IsPlatform, KekSlot, KekRing, same_slot, import_kek,
  encrypt_studio_token, decrypt_studio_token_with_slot,
}
use vivijure_control_plane.Kek.Rotation.{
  EncryptedTokenRow, sealed_row, sealed_rows, token_row_id, list_encrypted_studio_tokens,
  set_tenant_studio_token_if_unchanged, Tally, TokenWrite, apply_writes, note_write, write_back,
  rotate_opened, sweep_row, reencrypt_rows,
}
use vivijure_control_plane.Kek.Cipher.{encrypt_studio_token_round_trip}
use vivijure_control_plane.Kek.Sweep.{
  same_slot_refl, all_weaken, is_current, write_current, meets, is_pending, apply_writes_pending,
  drop_current, drop_resealed, sweep_then-some, reencrypt_rows_clean,
}

-- What a rotation relies on: the platform, and tokens that survive their encoding.
pub record IsRotation (platform : Platform) (ring : KekRing) (ivs : ℕ → Bytes) : Type 0 where
  pub law : IsPlatform platform
  pub no_empty_key : import_kek platform [] ≡ none
  pub iv_length : (k : ℕ) → length (ivs k) ≡ iv_bytes
  pub iv_is_bytes : (k : ℕ) → all is_byte (ivs k) ≡ true
  pub whole :
      (blob plaintext : Text) (slot : KekSlot)
      → decrypt_studio_token_with_slot platform ring blob ≡ some (slot, plaintext)
      → platform.decode_utf8 (platform.encode_utf8 plaintext) ≡ plaintext

module _ (platform : Platform) (ring : KekRing) (ivs : ℕ → Bytes)
    (setting : IsRotation platform ring ivs) where
  -- What is encrypted during a rotation is on target.
  encrypted_current :
      (k : ℕ) (blob plaintext enc : Text) (slot : KekSlot)
      → decrypt_studio_token_with_slot platform ring blob ≡ some (slot, plaintext)
      → encrypt_studio_token platform ring (ivs k) plaintext ≡ some enc
      → is_current platform ring enc ≡ true
  encrypted_current k blob plaintext enc slot opened sealed =
      rw
        (encrypt_studio_token_round_trip platform setting.law ring (ivs k) plaintext enc
          setting.no_empty_key (setting.iv_length k) (setting.iv_is_bytes k)
          (setting.whole blob plaintext slot opened) sealed)
        (same_slot_refl ring.encrypt_slot)

  row_settles :
      (db db' : FleetDb) (k : ℕ) (r : EncryptedTokenRow) (rs : List EncryptedTokenRow)
      (o : Option (KekSlot × Text)) (tally after : Tally)
      → decrypt_studio_token_with_slot platform ring r.studio_token_enc ≡ o
      → all (is_pending platform ring (r ∷ rs)) db.tenants ≡ true
      → rotate_opened platform ring db (ivs k) r o tally ≡ (db', some after)
      → after.unreadable ≡ []
      → all (is_pending platform ring rs) db'.tenants ≡ true
  row_settles db db' k r rs none tally after opened pending h clean =
      absurd (no_snoc tally.unreadable r.slug (ground arith))
    where
      no_snoc : (xs : List Text) (x : Text) → xs ++ x ∷ [] ≡ [] → ⊥
      no_snoc [] x e = ground arith
      no_snoc (y ∷ xs) x e = ground arith
  row_settles db db' k r rs (some (slot, plaintext)) tally after opened pending h clean =
      elim (Bool-cases (same_slot slot ring.encrypt_slot)) [
        | inl current ↦
            let kept : db.tenants ≡ db'.tenants = ground arith in
            subst (λ ts. all (is_pending platform ring rs) ts ≡ true) kept
              (drop_current platform ring r rs db.tenants (rw opened current) pending)
        | inr older ↦
            written (encrypt_studio_token platform ring (ivs k) plaintext) refl
              (sym (rw older refl) ∙ h)
      ]
    where
      noted :
          (x : FleetDb × Bool) → note_write platform ring x tally ≡ (db', some after) → x.0 ≡ db'
      noted (d, true) e = ground arith
      noted (d, false) e = ground arith

      written :
          (enc : Option Text)
          → encrypt_studio_token platform ring (ivs k) plaintext ≡ enc
          → write_back platform ring db r enc tally ≡ (db', some after)
          → all (is_pending platform ring rs) db'.tenants ≡ true
      written none sealed e = absurd (ground arith)
      written (some enc) sealed e =
          let put : (set_tenant_studio_token_if_unchanged db r.id r.studio_token_enc enc).0 ≡ db' =
            noted (set_tenant_studio_token_if_unchanged db r.id r.studio_token_enc enc) e in
          subst (λ (d : FleetDb). all (is_pending platform ring rs) d.tenants ≡ true) put
            (unfold set_tenant_studio_token_if_unchanged in
              drop_resealed platform ring r rs enc db.tenants
                (encrypted_current k r.studio_token_enc plaintext enc slot opened sealed) pending)

  module _ (meanwhile : ℕ → List TokenWrite)
      (others : (k : ℕ) → all (write_current platform ring) (meanwhile k) ≡ true) where
    pub reencrypt_rows_settles :
        (k : ℕ) (rs : List EncryptedTokenRow) (db db' : FleetDb) (tally after : Tally)
        → all (is_pending platform ring rs) db.tenants ≡ true
        → reencrypt_rows platform ring ivs meanwhile k rs db tally ≡ (db', some after)
        → after.unreadable ≡ []
        → all (is_pending platform ring []) db'.tenants ≡ true
    unfolding reencrypt_rows sweep_row
    reencrypt_rows_settles k [] db db' tally after pending h clean =
        let same : db.tenants ≡ db'.tenants = ground arith in
        subst (λ ts. all (is_pending platform ring []) ts ≡ true) same pending
    reencrypt_rows_settles k (r ∷ rs) db db' tally after pending h clean =
        let (mid, one, first, rest) =
          sweep_then-some platform ring (reencrypt_rows platform ring ivs meanwhile (suc k) rs)
            (sweep_row platform ring db (meanwhile k) (ivs k) r tally) db' after h in
        let still_clean =
          reencrypt_rows_clean platform ring ivs meanwhile (suc k) rs mid db' one after rest
            clean in
        let noted =
          apply_writes_pending platform ring (meanwhile k) (r ∷ rs) db (others k) pending in
        reencrypt_rows_settles (suc k) rs mid db' one after
          (row_settles (apply_writes db (meanwhile k)) mid k r rs
            (decrypt_studio_token_with_slot platform ring r.studio_token_enc) tally one refl noted
            first still_clean)
          rest clean

module _ (platform : Platform) (ring : KekRing) where
  -- Every token is read by the sweep, or is no token.
  sealed_rows_pending :
      (before : List EncryptedTokenRow) (ts : List Tenant)
      → all (is_pending platform ring (before ++ sealed_rows ts)) ts ≡ true
  sealed_rows_pending before [] = refl
  sealed_rows_pending before (t ∷ ts) =
      let own : List EncryptedTokenRow = sealed_row t t.studio_token_enc in
      let rest : all (is_pending platform ring (before ++ (own ++ sealed_rows ts))) ts ≡ true =
        subst (λ rs. all (is_pending platform ring rs) ts ≡ true)
          (append_assoc before own (sealed_rows ts)) (sealed_rows_pending (before ++ own) ts) in
      let here : is_pending platform ring (before ++ (own ++ sealed_rows ts)) t ≡ true =
        mine t.studio_token_enc refl in
      ground arith
    where
      mine :
          (o : Option Text)
          → t.studio_token_enc ≡ o
          → is_pending platform ring (before ++ (sealed_row t o ++ sealed_rows ts)) t ≡ true
      mine none e = rw e refl
      mine (some enc) e = elim (Bool-cases (is_empty enc)) [
        | inl empty ↦ rw e (rw empty refl)
        | inr full ↦
            let row : EncryptedTokenRow = record {
              id = t.id;
              slug = t.slug;
              studio_token_enc = enc;
            } in
            let met : meets platform ring t row ≡ true =
              ground (arith, text_beq_iff t.id t.id, text_beq_iff enc enc) in
            let found = any-append (meets platform ring t) before (row ∷ sealed_rows ts) in
            rw full (ground arith)
      ]

  pub list_pending :
      (db : FleetDb)
      → all (is_pending platform ring (list_encrypted_studio_tokens db)) db.tenants ≡ true
  unfolding list_encrypted_studio_tokens
  list_pending db =
      all_weaken (is_pending platform ring (sealed_rows db.tenants))
        (is_pending platform ring (sort_by token_row_id (sealed_rows db.tenants))) db.tenants
        (λ t h.
          ground (arith, any-sort_by token_row_id (meets platform ring t) (sealed_rows db.tenants)))
        (sealed_rows_pending [] db.tenants)
