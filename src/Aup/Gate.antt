-- ===== src/Aup/Gate.antt =====
-- What an acceptance lets through.
use vivijure_control_plane.Prelude.{
  ◌≡◌, refl, true, false, ◌&&◌, ◌||◌, Option, none, some, List, [], ◌∷◌, ◌++◌, Result, ok, err, any,
  arith, any-append, ◌==◌, Bool-cases, inl, inr, ◌∙◌,
}
use vivijure_control_plane.Prelude.Text.{Text, text_eq, text_beq_iff, is_empty}
use vivijure_control_plane.Credits.{Instant}
use vivijure_control_plane.Ledger.{StoreError}
use vivijure_control_plane.Aup.{
  AupDb, AcceptanceRow, accepts, has_accepted_aup, record_aup_acceptance, accept_aup, after_record,
  recorded, Consent, acceptance_row,
}

-- A found acceptance is one for every account and version equal to its own.
accepts_same :
    (account version a v : Text) (rs : List AcceptanceRow)
    → any (accepts account version) rs ≡ true
    → any (accepts a v) rs ≡ (any (accepts a v) rs || (account == a && version == v))
accepts_same account version a v [] h = absurd (ground arith)
accepts_same account version a v (r ∷ rs) h = ground (
  arith,
  accepts_same account version a v rs,
  text_beq_iff r.account_id account,
  text_beq_iff r.aup_version version,
  text_beq_iff account a,
  text_beq_iff version v,
  text_beq_iff r.account_id a,
  text_beq_iff r.aup_version v,
)

has_accepted-record_aup_acceptance :
    (db : AupDb) (r : AcceptanceRow) (db' : AupDb) (a v : Text)
    → record_aup_acceptance db r ≡ ok db'
    → has_accepted_aup db' a v
      ≡ (has_accepted_aup db a v || (r.account_id == a && r.aup_version == v))
unfolding record_aup_acceptance has_accepted_aup
has_accepted-record_aup_acceptance db r db' a v h =
    elim (Bool-cases (any (accepts r.account_id r.aup_version) db.acceptances)) [
      | inl old ↦
          let same : db ≡ db' = ground arith in
          rw (← same) (accepts_same r.account_id r.aup_version a v db.acceptances old)
      | inr new ↦
          let same : record db { acceptances = db.acceptances ++ r ∷ [] } ≡ db' = ground arith in
          rw (← same) (any-append (accepts a v) db.acceptances (r ∷ []) ∙ ground arith)
    ]

-- An acceptance is recorded only of the current version and of a policy whose digest is known; it
-- lets exactly that account through at exactly that version, and takes nobody's acceptance away.
pub accept_aup_recorded :
    (sha256 : Text → Text) (db : AupDb) (account submitted current : Text) (c : Consent)
    (digest : Option Text) (now : Instant) (db' : AupDb) (a v : Text)
    → accept_aup sha256 db account submitted current c digest now ≡ ok (db', recorded)
    → (submitted ≡ current)
      × ((d : Text) × (digest ≡ some d) × (is_empty d ≡ false))
      × (has_accepted_aup db' a v ≡ (has_accepted_aup db a v || (account == a && current == v)))
unfolding accept_aup
accept_aup_recorded sha256 db account submitted current c none now db' a v h = absurd (ground arith)
accept_aup_recorded sha256 db account submitted current c (some d) now db' a v h =
    elim (Bool-cases (is_empty d)) [
      | inl blank ↦ absurd (ground arith)
      | inr full ↦
          let row = acceptance_row sha256 account current d c now in
          let reached : after_record (record_aup_acceptance db row) ≡ ok (db', recorded) =
            ground arith in
          (
            (text_beq_iff submitted current).0 (ground arith),
            (d, refl, full),
            has_accepted-record_aup_acceptance db row db' a v
                (stored (record_aup_acceptance db row) reached),
          )
    ]
  where
    stored : (o : Result StoreError AupDb) → after_record o ≡ ok (db', recorded) → o ≡ ok db'
    stored (ok x) h = ground arith
    stored (err e) h = absurd (ground arith)
