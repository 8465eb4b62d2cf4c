-- ===== src/Kek/Tests.antt =====
-- A rotation of two tokens on a platform of small parts.
use vivijure_control_plane.Prelude.{
  ℕ, zero, suc, ◌+◌, ◌≡◌, ◌∙◌, refl, ap, ap₂, true, Option, none, some, List, [], ◌∷◌, arith, all,
  ◌==◌, nat_eq, if◌then◌else◌,
}
use vivijure_control_plane.Prelude.Text.{Text, codes, text_eq}
use vivijure_control_plane.Tenants.{Tenant}
use vivijure_control_plane.Tenants.Tests.{acme_tenant}
use vivijure_control_plane.Fleet.{FleetDb}
use vivijure_control_plane.Kek.{
  Bytes, is_byte, Platform, IsPlatform, KekRing, slot_next, encrypt_studio_token,
  decrypt_studio_token_with_slot, import_kek,
}
use vivijure_control_plane.Kek.Rotation.{SweepResult, TokenWrite}
use vivijure_control_plane.Kek.Cipher.{encrypt_studio_token_round_trip}
use vivijure_control_plane.Kek.Converge.{IsRotation}

-- A text in unary: each unit as so many ones, and a zero.
abbrev ones : ℕ → Bytes → Bytes
ones zero rest = rest
ones (suc n) rest = 1 ∷ ones n rest

abbrev unary : Text → Bytes
unary [] = []
unary (c ∷ t) = ones c (0 ∷ unary t)

abbrev from_unary : ℕ → Bytes → Text
from_unary n [] = []
from_unary n (zero ∷ rest) = n ∷ from_unary 0 rest
from_unary n (suc b ∷ rest) = from_unary (suc n) rest

from_unary-ones :
    (c n : ℕ) (rest : Bytes) → from_unary n (ones c (0 ∷ rest)) ≡ (n + c) ∷ from_unary 0 rest
from_unary-ones zero n rest = ap (λ k. k ∷ from_unary 0 rest) (omega arith)
from_unary-ones (suc c) n rest =
    from_unary-ones c (suc n) rest ∙ ap (λ k. k ∷ from_unary 0 rest) (omega arith)

from_unary-unary : (t : Text) → from_unary 0 (unary t) ≡ t
from_unary-unary [] = refl
from_unary-unary (c ∷ t) =
    from_unary-ones c 0 (unary t) ∙ ap₂ (λ k r. k ∷ r) (omega arith) (from_unary-unary t)

ones_bytes : (c : ℕ) (rest : Bytes) → all is_byte rest ≡ true → all is_byte (ones c rest) ≡ true
ones_bytes zero rest h = h
ones_bytes (suc c) rest h = ones_bytes c rest h

unary_bytes : (t : Text) → all is_byte (unary t) ≡ true
unary_bytes [] = refl
unary_bytes (c ∷ t) = ones_bytes c (0 ∷ unary t) (unary_bytes t)

abbrev tag_of : Bytes → ℕ
tag_of [] = 0
tag_of (k ∷ ks) = if is_byte k then k else 0

tag_is_byte : (key : Bytes) → is_byte (tag_of key) ≡ true
tag_is_byte [] = refl
tag_is_byte (k ∷ ks) = ground arith

abbrev untag : Bytes → Bytes → Option Bytes
untag key [] = none
untag key (c ∷ plain) = if c == tag_of key then some plain else none

abbrev small_platform : Platform
small_platform = record {
  atob = λ t. some t;
  btoa = λ b. b;
  encode_utf8 = unary;
  decode_utf8 = from_unary 0;
  aes_encrypt = λ key iv plain. tag_of key ∷ plain;
  aes_decrypt = λ key iv sealed. untag key sealed;
}

same_nat : (n : ℕ) → (n == n) ≡ true
same_nat n = ground arith

small_law : IsPlatform small_platform
small_law = record {
  atob-btoa = λ b h. refl;
  encode_utf8_bytes = unary_bytes;
  aes_encrypt_bytes = λ key iv plain h. rw (tag_is_byte key) h;
  aes_decrypt-aes_encrypt = λ key iv plain. rw (same_nat (tag_of key)) refl;
}

abbrev fill : ℕ → ℕ → Bytes → Bytes
fill zero b rest = rest
fill (suc n) b rest = b ∷ fill n b rest

abbrev two_keys : KekRing
two_keys = record { primary = fill 32 1 []; next = some (fill 32 2 []); encrypt_slot = slot_next }

abbrev zero_ivs : ℕ → Bytes
zero_ivs k = fill 12 0 []

small-IsRotation : IsRotation small_platform two_keys zero_ivs
unfolding import_kek
small-IsRotation = record {
  law = small_law;
  no_empty_key = refl;
  iv_length = λ k. refl;
  iv_is_bytes = λ k. refl;
  whole = λ blob plaintext slot h. from_unary-unary plaintext;
}

abbrev sealed_by : ℕ → Text → Text
sealed_by key plaintext = fill 12 0 (key ∷ unary plaintext)

encrypt_studio_token_round_trip_example :
    decrypt_studio_token_with_slot small_platform two_keys (sealed_by 2 (3 ∷ []))
    ≡ some (slot_next, 3 ∷ [])
unfolding encrypt_studio_token
encrypt_studio_token_round_trip_example =
    encrypt_studio_token_round_trip small_platform small_law two_keys (zero_ivs 0) (3 ∷ [])
      (sealed_by 2 (3 ∷ [])) small-IsRotation.no_empty_key refl refl refl refl

abbrev token_tenant : Text → Text → Tenant
token_tenant id enc = record acme_tenant { id = id; slug = id; studio_token_enc = some enc }

abbrev old_db : FleetDb
old_db = record {
  accounts = [];
  tenants =
      token_tenant (codes "t1") (sealed_by 1 (3 ∷ []))
      ∷ token_tenant (codes "t2") (sealed_by 1 (4 ∷ []))
      ∷ [];
  jobs = [];
}

-- Another request stores a new token for the second tenant before the sweep writes it.
abbrev new_write : TokenWrite
new_write = record { id = codes "t2"; enc = sealed_by 2 (5 ∷ []) }

abbrev meanwhile : ℕ → List TokenWrite
meanwhile zero = []
meanwhile (suc k) = new_write ∷ []

abbrev new_db : FleetDb
new_db = record old_db {
  tenants =
      token_tenant (codes "t1") (sealed_by 2 (3 ∷ []))
      ∷ token_tenant (codes "t2") (sealed_by 2 (5 ∷ []))
      ∷ [];
}

abbrev swept : SweepResult
swept = record {
  examined = 2;
  skipped_on_target = 0;
  rotated = 1;
  raced = 1;
  unreadable = [];
  complete = true;
}
