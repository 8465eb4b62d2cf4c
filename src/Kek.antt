-- ===== src/Kek.antt =====
-- The keys that seal a tenant's studio token (src/token-crypto.ts): the two-key ring, the write slot and
-- the order in which a read tries the keys. `btoa`, `atob`, the text codecs and AES-GCM are the
-- platform's; an exception is `none`, and which error it carries is not kept.
pub mod Rotation
pub mod Cipher
pub mod Sweep
pub mod Converge
pub mod Promote
pub mod Transparent
mod Tests
use vivijure_control_plane.Prelude.{
  ℕ, Bool, true, false, not, Option, none, some, List, [], ◌∷◌, ◌++◌, ◌≡◌, all, length, take, drop,
  ltb, is_some, ◌==◌, nat_eq, if◌then◌else◌,
}
use vivijure_control_plane.Prelude.Text.{Text, codes, text_eq, text_beq, trim, is_empty}

abbrev pub Bytes : Type 0
Bytes = List ℕ

abbrev pub iv_bytes : ℕ
iv_bytes = 12

abbrev pub is_byte : ℕ → Bool
is_byte b = ltb b 256

pub record Platform : Type 0 where
  pub atob : Text → Option Bytes
  pub btoa : Bytes → Text
  pub encode_utf8 : Text → Bytes
  pub decode_utf8 : Bytes → Text
  pub aes_encrypt : Bytes → Bytes → Bytes → Bytes
  pub aes_decrypt : Bytes → Bytes → Bytes → Option Bytes

-- What the platform documents of them.
pub record IsPlatform (p : Platform) : Type 0 where
  pub atob-btoa : (b : Bytes) → all is_byte b ≡ true → p.atob (p.btoa b) ≡ some b
  pub encode_utf8_bytes : (t : Text) → all is_byte (p.encode_utf8 t) ≡ true
  pub aes_encrypt_bytes :
      (key iv plain : Bytes)
      → all is_byte plain ≡ true
      → all is_byte (p.aes_encrypt key iv plain) ≡ true
  pub aes_decrypt-aes_encrypt :
      (key iv plain : Bytes) → p.aes_decrypt key iv (p.aes_encrypt key iv plain) ≡ some plain

pub data KekSlot : Type 0 where
  slot_primary slot_next : KekSlot

abbrev pub same_slot : KekSlot → KekSlot → Bool
same_slot slot_primary slot_primary = true
same_slot slot_next slot_next = true
same_slot slot_primary slot_next = false
same_slot slot_next slot_primary = false

pub record KekRing : Type 0 where
  pub primary : Text
  pub next : Option Text
  pub encrypt_slot : KekSlot

-- `value?.trim() || undefined`.
abbrev pub cleaned : Option Text → Option Text
cleaned none = none
cleaned (some value) = if is_empty (trim value) then none else some (trim value)

abbrev pub slot_named : Option Text → KekSlot
slot_named none = slot_primary
slot_named (some value) = if trim value == codes "next" then slot_next else slot_primary

unfoldable pub kek_ring : Text → Option Text → Option Text → KekRing
kek_ring primary next encrypt_slot = record {
  primary = trim primary;
  next = cleaned next;
  encrypt_slot = slot_named encrypt_slot;
}

unfoldable pub rotation_window_open : KekRing → Bool
rotation_window_open ring = is_some ring.next

abbrev pub truthy_key : Option Text → Option Text
truthy_key none = none
truthy_key (some key) = if is_empty key then none else some key

-- The key of the write slot, or the refusal.
unfoldable pub encryption_key : KekRing → Option Text
encryption_key ring = elim ring.encrypt_slot [
  | slot_primary ↦ some ring.primary
  | slot_next ↦ truthy_key ring.next
]

-- The installed key of a slot: `if (!key) continue`.
abbrev pub key_of : KekRing → KekSlot → Option Text
key_of ring slot_primary = truthy_key (some ring.primary)
key_of ring slot_next = truthy_key ring.next

abbrev pub other_slot : KekSlot → KekSlot
other_slot slot_primary = slot_next
other_slot slot_next = slot_primary

abbrev pub and_then {ℓ κ} : {A : Type ℓ} {B : Type κ} → Option A → (A → Option B) → Option B
and_then none f = none
and_then (some a) f = f a

module _ (platform : Platform) where
  unfoldable pub import_kek : Text → Option Bytes
  import_kek kek = and_then (platform.atob kek) (λ raw. if length raw == 32 then some raw else none)

  -- `encryptUnder`, given the bytes that `getRandomValues` answers.
  unfoldable pub encrypt_under : Text → Bytes → Text → Option Text
  unfolding import_kek
  encrypt_under kek iv plaintext = and_then (import_kek kek) (λ key.
      some (platform.btoa (iv ++ platform.aes_encrypt key iv (platform.encode_utf8 plaintext))))

  unfoldable pub decrypt_under : Text → Text → Option Text
  unfolding import_kek
  decrypt_under kek blob = and_then (import_kek kek) (λ key. and_then (platform.atob blob) (λ raw.
      and_then (platform.aes_decrypt key (take iv_bytes raw) (drop iv_bytes raw))
        (λ plain. some (platform.decode_utf8 plain))))

  unfoldable pub encrypt_studio_token : KekRing → Bytes → Text → Option Text
  unfolding encryption_key encrypt_under
  encrypt_studio_token ring iv plaintext =
      and_then (encryption_key ring) (λ key. encrypt_under key iv plaintext)

  -- One pass of the loop: the slot's key, when it is installed and opens the blob.
  abbrev pub opened_by : KekRing → Text → KekSlot → Option (KekSlot × Text)
  opened_by ring blob slot =
      and_then (key_of ring slot)
        (λ key. and_then (decrypt_under key blob) (λ plaintext. some (slot, plaintext)))

  abbrev pub or_else : Option (KekSlot × Text) → Option (KekSlot × Text) → Option (KekSlot × Text)
  or_else none second = second
  or_else (some found) second = some found

  unfoldable pub decrypt_studio_token_with_slot : KekRing → Text → Option (KekSlot × Text)
  unfolding decrypt_under
  decrypt_studio_token_with_slot ring blob =
      or_else (opened_by ring blob ring.encrypt_slot)
        (opened_by ring blob (other_slot ring.encrypt_slot))

  unfoldable pub decrypt_studio_token : KekRing → Text → Option Text
  unfolding decrypt_studio_token_with_slot
  decrypt_studio_token ring blob =
      and_then (decrypt_studio_token_with_slot ring blob)
        (λ (opened : KekSlot × Text). some opened.1)
