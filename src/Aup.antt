-- ===== src/Aup.antt =====
-- The acceptable-use gate: src/aup.ts and its statements in src/store-d1.ts over `aup_acceptances`,
-- whose rows stand in the order of their ids. SHA-256 is a parameter; the fetch of the policy's bytes
-- is not modelled, its digest is given.
pub mod Gate
mod Tests
use vivijure_control_plane.Prelude.{
  Bool, true, false, not, ◌&&◌, Option, none, some, List, [], ◌∷◌, ◌++◌, Result, ok, err, any, take,
  ◌==◌, if◌then◌else◌,
}
use vivijure_control_plane.Prelude.Text.{Text, codes, text_eq, text_beq, is_empty}
use vivijure_control_plane.Credits.{Instant}
use vivijure_control_plane.Ledger.{StoreError, foreign_key}

pub record AcceptanceRow : Type 0 where
  pub account_id : Text
  pub aup_version : Text
  pub aup_sha256 : Option Text
  pub accepted_at : Instant
  pub ip_hash : Option Text
  pub user_agent : Option Text

pub record AupDb : Type 0 where
  pub accounts : List Text
  pub acceptances : List AcceptanceRow

abbrev pub accepts : Text → Text → AcceptanceRow → Bool
accepts account version r = r.account_id == account && r.aup_version == version

unfoldable pub has_accepted_aup : AupDb → Text → Text → Bool
has_accepted_aup db account version = any (accepts account version) db.acceptances

-- INSERT OR IGNORE: a row with the same account and version is left alone, an unknown account throws.
unfoldable pub record_aup_acceptance : AupDb → AcceptanceRow → Result StoreError AupDb
record_aup_acceptance db r =
    if any (accepts r.account_id r.aup_version) db.acceptances
    then ok db
    else if any (λ a. a == r.account_id) db.accounts
    then ok (record db { acceptances = db.acceptances ++ r ∷ [] })
    else err foreign_key

unfoldable pub is_aup_exempt : Text → Bool
is_aup_exempt path =
    any (λ p. p == path)
      (codes "/api/me"
        ∷ codes "/api/aup/current"
        ∷ codes "/api/aup/accept"
        ∷ codes "/api/auth/logout"
        ∷ [])

pub data Accepted : Type 0 where
  recorded : Accepted
  version_stale : Text → Accepted
  unverifiable : Accepted

-- The headers that an acceptance reads.
pub record Consent : Type 0 where
  pub connecting_ip : Option Text
  pub user_agent : Option Text

abbrev pub truthy : Option Text → Option Text
truthy none = none
truthy (some t) = if is_empty t then none else some t

abbrev pub map_text : (Text → Text) → Option Text → Option Text
map_text f none = none
map_text f (some t) = some (f t)

abbrev pub acceptance_row : (Text → Text) → Text → Text → Text → Consent → Instant → AcceptanceRow
acceptance_row sha256 account version digest c now = record {
  account_id = account;
  aup_version = version;
  aup_sha256 = some digest;
  accepted_at = now;
  ip_hash = map_text sha256 (truthy c.connecting_ip);
  user_agent = map_text (take 256) (truthy c.user_agent);
}

-- What `recordAupAcceptance` answered.
abbrev pub after_record : Result StoreError AupDb → Result StoreError (AupDb × Accepted)
after_record (err e) = err e
after_record (ok db) = ok (db, recorded)

abbrev pub accept_verified :
    (Text → Text)
    → AupDb
    → Text
    → Text
    → Consent
    → Option Text
    → Instant
    → Result StoreError (AupDb × Accepted)
accept_verified sha256 db account current c none now = ok (db, unverifiable)
accept_verified sha256 db account current c (some digest) now =
    after_record (record_aup_acceptance db (acceptance_row sha256 account current digest c now))

unfoldable pub accept_aup :
    (Text → Text)
    → AupDb
    → Text
    → Text
    → Text
    → Consent
    → Option Text
    → Instant
    → Result StoreError (AupDb × Accepted)
unfolding record_aup_acceptance
accept_aup sha256 db account submitted current c digest now =
    if not (submitted == current)
    then ok (db, version_stale current)
    else accept_verified sha256 db account current c (truthy digest) now
