-- ===== src/Ledger/Keys.antt =====
-- What the schema and the statements together keep of the two tables.
use vivijure_control_plane.Prelude.{
  ◌≡◌, subst, inl, inr, Bool, true, false, Option, none, some, List, [], ◌∷◌, ◌++◌, ok, arith, any,
  find?, All, Bool-cases,
}
use vivijure_control_plane.Prelude.Int.{neg, ltb_zero}
use vivijure_control_plane.Prelude.Text.{Text, text_eq, text_beq_comm}
use vivijure_control_plane.Prelude.Distinct.{Distinct, Distinct-snoc}
use vivijure_control_plane.Credits.{Instant, LedgerRow, HoldRow, HoldStatus, captured, debit}
use vivijure_control_plane.Ledger.{
  Db, sign_check, keyed, row_id, hold_id, insert_ledger, update_holds,
}
use vivijure_control_plane.Ledger.Holds.{
  same_hold, same_job, find?-update_holds, hold_id-settled_row, Distinct_hold-update_holds,
  Distinct_job-update_holds,
}

abbrev pub same_ref : LedgerRow → LedgerRow → Bool
same_ref a b = keyed a.tenant_id a.idem_ref b

abbrev pub same_row : LedgerRow → LedgerRow → Bool
same_row a b = row_id a.id b

pub same_ref_comm : (a b : LedgerRow) → same_ref a b ≡ same_ref b a
same_ref_comm a b =
    ground (arith, text_beq_comm a.tenant_id b.tenant_id, text_beq_comm a.idem_ref b.idem_ref)

pub same_job_comm : (a b : HoldRow) → same_job a b ≡ same_job b a
same_job_comm a b =
    ground (arith, text_beq_comm a.tenant_id b.tenant_id, text_beq_comm a.job_ref b.job_ref)

-- The debit `r` is that of the captured hold `h`.
pub record Pays (h : HoldRow) (r : LedgerRow) : Type 0 where
  pub is_captured : h.status ≡ captured
  pub is_debit : r.kind ≡ debit
  pub tenant : r.tenant_id ≡ h.tenant_id
  pub ref : r.idem_ref ≡ h.id
  pub amount : r.delta_micro_usd ≡ neg h.amount_micro_usd

abbrev pub LinkedTo : List HoldRow → LedgerRow → Option Text → Type 0
LinkedTo holds r none = Unit
LinkedTo holds r (some x) = (h : HoldRow) × (find? (hold_id x) holds ≡ some h) × Pays h r

-- A row that names a hold is the debit of that hold, and the hold is captured.
abbrev pub Linked : List HoldRow → LedgerRow → Type 0
Linked holds r = LinkedTo holds r r.hold_id

abbrev pub HasAmount : HoldRow → Type 0
HasAmount h = ltb_zero h.amount_micro_usd ≡ true

abbrev pub HasSign : LedgerRow → Type 0
HasSign r = sign_check r.kind r.delta_micro_usd ≡ true

pub record IsSound (db : Db) : Type 0 where
  pub refs : Distinct same_ref db.ledger
  pub row_ids : Distinct same_row db.ledger
  pub jobs : Distinct same_job db.holds
  pub hold_ids : Distinct same_hold db.holds
  pub amounts : All HasAmount db.holds
  pub signs : All HasSign db.ledger
  pub links : All (Linked db.holds) db.ledger

pub All-snoc {ℓ κ} :
    {A : Type ℓ} (P : A → Type κ) (xs : List A) (x : A) → All P xs → P x → All P (xs ++ x ∷ [])
All-snoc P [] x h p = (p, tt)
All-snoc P (y ∷ xs) x (q, h) p = (q, All-snoc P xs x h p)

pub All-mono {ℓ κ} :
    {A : Type ℓ} (P Q : A → Type κ) → ((a : A) → P a → Q a) → (xs : List A) → All P xs → All Q xs
All-mono P Q f [] h = tt
All-mono P Q f (x ∷ xs) (p, h) = (f x p, All-mono P Q f xs h)

-- What an INSERT that returned has found and done.
pub data Inserted (db : Db) (r : LedgerRow) : Db → Bool → Type 0 where
  skipped : any (keyed r.tenant_id r.idem_ref) db.ledger ≡ true → Inserted db r db false
  added :
      any (keyed r.tenant_id r.idem_ref) db.ledger ≡ false
      → any (row_id r.id) db.ledger ≡ false
      → HasSign r
      → Inserted db r (record db { ledger = db.ledger ++ r ∷ [] }) true

pub insert_ledger-Inserted :
    (db : Db) (r : LedgerRow) (db' : Db) (wrote : Bool)
    → insert_ledger db r ≡ ok (db', wrote)
    → Inserted db r db' wrote
unfolding insert_ledger
insert_ledger-Inserted db r db' wrote h =
    elim (Bool-cases (any (keyed r.tenant_id r.idem_ref) db.ledger)) [
      | inl old ↦ subst (λ (t : Db × Bool). Inserted db r t.0 t.1) (ground arith) (skipped old)
      | inr new ↦
          subst (λ (t : Db × Bool). Inserted db r t.0 t.1) (ground arith)
            (added new (ground arith) (ground arith))
    ]

module _ (db : Db) (sound : IsSound db) where
  pub Inserted-IsSound :
      (r : LedgerRow) {db' : Db} {wrote : Bool}
      → Linked db.holds r
      → Inserted db r db' wrote
      → IsSound db'
  Inserted-IsSound r link (skipped _) = sound
  Inserted-IsSound r link (added new fresh sign) = record {
    refs = Distinct-snoc same_ref same_ref_comm db.ledger r sound.refs new;
    row_ids =
        Distinct-snoc same_row (λ a b. text_beq_comm b.id a.id) db.ledger r sound.row_ids fresh;
    jobs = sound.jobs;
    hold_ids = sound.hold_ids;
    amounts = sound.amounts;
    signs = All-snoc HasSign db.ledger r sound.signs sign;
    links = All-snoc (Linked db.holds) db.ledger r sound.links link;
  }

-- A link survives a change of the holds that leaves captured holds alone.
LinkedTo-keep :
    (hs hs' : List HoldRow)
    → ((x : Text) (h : HoldRow)
        → find? (hold_id x) hs ≡ some h
        → h.status ≡ captured
        → find? (hold_id x) hs' ≡ some h)
    → (r : LedgerRow) (o : Option Text) → LinkedTo hs r o
    → LinkedTo hs' r o
LinkedTo-keep hs hs' keep r none l = tt
LinkedTo-keep hs hs' keep r (some x) (h, found, pays) = (h, keep x h found pays.is_captured, pays)

pub All-Linked-keep :
    (hs hs' : List HoldRow)
    → ((x : Text) (h : HoldRow)
        → find? (hold_id x) hs ≡ some h
        → h.status ≡ captured
        → find? (hold_id x) hs' ≡ some h)
    → (rs : List LedgerRow) → All (Linked hs) rs
    → All (Linked hs') rs
All-Linked-keep hs hs' keep =
    All-mono (Linked hs) (Linked hs') (λ r. LinkedTo-keep hs hs' keep r r.hold_id)

module _ (p : HoldRow → Bool) (s : HoldStatus) (now : Instant)
    (idle : (h : HoldRow) → h.status ≡ captured → p h ≡ false) where
  find?-update_captured :
      (hs : List HoldRow) (x : Text) (h : HoldRow)
      → find? (hold_id x) hs ≡ some h
      → h.status ≡ captured
      → find? (hold_id x) (update_holds p s now hs) ≡ some h
  find?-update_captured hs x h found c =
      rw (find?-update_holds p s now (hold_id x) (hold_id-settled_row p s now x) hs, found)
        (rw (idle h c))

  amounts-update_holds :
      (hs : List HoldRow) → All HasAmount hs → All HasAmount (update_holds p s now hs)
  unfolding update_holds
  amounts-update_holds [] a = tt
  amounts-update_holds (h ∷ hs) (a, as') = (ground arith, amounts-update_holds hs as')

  -- An UPDATE that meets no captured hold keeps the tables sound.
  pub update_holds-IsSound :
      (db : Db) → IsSound db → IsSound (record db { holds = update_holds p s now db.holds })
  update_holds-IsSound db sound = record {
    refs = sound.refs;
    row_ids = sound.row_ids;
    jobs = Distinct_job-update_holds p s now db.holds sound.jobs;
    hold_ids = Distinct_hold-update_holds p s now db.holds sound.hold_ids;
    amounts = amounts-update_holds db.holds sound.amounts;
    signs = sound.signs;
    links = All-Linked-keep db.holds _ (find?-update_captured db.holds) db.ledger sound.links;
  }
