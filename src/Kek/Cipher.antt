-- ===== src/Kek/Cipher.antt =====
-- What is sealed under the write slot is read back, and read from the write slot.
use vivijure_control_plane.Prelude.{
  ℕ, ◌≡◌, ◌∙◌, refl, ap, ap₂, Bool, true, ◌&&◌, none, some, [], ◌∷◌, ◌++◌, arith, all, length, take,
  drop, nat_eq, Option-cases, inl, inr,
}
use vivijure_control_plane.Prelude.Text.{Text}
use vivijure_control_plane.Kek.{
  Bytes, iv_bytes, is_byte, Platform, IsPlatform, KekSlot, slot_primary, slot_next, KekRing,
  encryption_key, key_of, truthy_key, import_kek, encrypt_under, decrypt_under,
  encrypt_studio_token, decrypt_studio_token_with_slot, and_then,
}

take-append : (xs ys : Bytes) → take (length xs) (xs ++ ys) ≡ xs
take-append [] ys = refl
take-append (x ∷ xs) ys = ap (λ r. x ∷ r) (take-append xs ys)

drop-append : (xs ys : Bytes) → drop (length xs) (xs ++ ys) ≡ ys
drop-append [] ys = refl
drop-append (x ∷ xs) ys = drop-append xs ys

all-append : (p : ℕ → Bool) (xs ys : Bytes) → all p (xs ++ ys) ≡ (all p xs && all p ys)
all-append p [] ys = refl
all-append p (x ∷ xs) ys = ground (arith, all-append p xs ys)

module _ (platform : Platform) (law : IsPlatform platform) where
  decrypt_under-encrypt_under :
      (kek : Text) (iv : Bytes) (plaintext blob : Text)
      → length iv ≡ iv_bytes
      → all is_byte iv ≡ true
      → platform.decode_utf8 (platform.encode_utf8 plaintext) ≡ plaintext
      → encrypt_under platform kek iv plaintext ≡ some blob
      → decrypt_under platform kek blob ≡ some plaintext
  unfolding encrypt_under decrypt_under
  decrypt_under-encrypt_under kek iv plaintext blob long bytes whole sealed =
      elim (Option-cases (import_kek platform kek)) [
        | inl bad ↦ absurd (ground arith)
        | inr (key, good) ↦
            let body : Bytes = platform.aes_encrypt key iv (platform.encode_utf8 plaintext) in
            let is_blob : platform.btoa (iv ++ body) ≡ blob = ground arith in
            let readable : platform.atob blob ≡ some (iv ++ body) = rw (← is_blob) (
              law.atob-btoa (iv ++ body) (
                ground (
                  arith,
                  all-append is_byte iv body,
                  law.aes_encrypt_bytes key iv (platform.encode_utf8 plaintext),
                  law.encode_utf8_bytes plaintext,
                ))) in
            let head : take iv_bytes (iv ++ body) ≡ iv = rw (← long) (take-append iv body) in
            let tail : drop iv_bytes (iv ++ body) ≡ body = rw (← long) (drop-append iv body) in
            rw (good, readable)
              (ap₂
                  (λ h t.
                    and_then (platform.aes_decrypt key h t)
                      (λ plain. some (platform.decode_utf8 plain)))
                  head tail
                ∙ rw (law.aes_decrypt-aes_encrypt key iv (platform.encode_utf8 plaintext))
                    (ap some whole))
      ]

  -- A sealed token was sealed under the installed key of the write slot.
  sealed_under :
      (ring : KekRing) (iv : Bytes) (plaintext blob : Text)
      → import_kek platform [] ≡ none
      → encrypt_studio_token platform ring iv plaintext ≡ some blob
      → (key : Text) × (key_of ring ring.encrypt_slot ≡ some key)
        × (encrypt_under platform key iv plaintext ≡ some blob)
  unfolding encrypt_studio_token encryption_key encrypt_under
  sealed_under ring iv plaintext blob no_empty sealed = elim (Option-cases (encryption_key ring)) [
    | inl refused ↦ absurd (ground arith)
    | inr (key, named) ↦
        let under : encrypt_under platform key iv plaintext ≡ some blob = ground arith in
        (key, installed ring.encrypt_slot key refl named under, under)
  ]
    where
      real :
          (key : Text)
          → encrypt_under platform key iv plaintext ≡ some blob
          → truthy_key (some key) ≡ some key
      real [] under = absurd (ground (arith, no_empty))
      real (c ∷ key) under = refl

      installed :
          (slot : KekSlot) (key : Text)
          → ring.encrypt_slot ≡ slot
          → encryption_key ring ≡ some key
          → encrypt_under platform key iv plaintext ≡ some blob
          → key_of ring slot ≡ some key
      installed slot_primary key is_slot named under = ground (arith, real key)
      installed slot_next key is_slot named under = ground (arith, real key)

  -- A token sealed under the write slot is read back as it was, and the read names the write slot: so
  -- what the live path writes during a rotation is on target. The platform's codecs are inverse
  -- on bytes, the initialisation vector has its twelve bytes, and the empty text is no key.
  pub encrypt_studio_token_round_trip :
      (ring : KekRing) (iv : Bytes) (plaintext blob : Text)
      → import_kek platform [] ≡ none
      → length iv ≡ iv_bytes
      → all is_byte iv ≡ true
      → platform.decode_utf8 (platform.encode_utf8 plaintext) ≡ plaintext
      → encrypt_studio_token platform ring iv plaintext ≡ some blob
      → decrypt_studio_token_with_slot platform ring blob ≡ some (ring.encrypt_slot, plaintext)
  unfolding decrypt_studio_token_with_slot
  encrypt_studio_token_round_trip ring iv plaintext blob no_empty long bytes whole sealed =
      let (key, installed, under) = sealed_under ring iv plaintext blob no_empty sealed in
      rw (installed, decrypt_under-encrypt_under key iv plaintext blob long bytes whole under) refl
