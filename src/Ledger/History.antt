-- ===== src/Ledger/History.antt =====
-- Histories of the credit store: any sequence of its statements, each of which may throw.
use vivijure_control_plane.Prelude.{
  ◌≡◌, refl, sym, subst, ◌⊎◌, inl, inr, Bool, true, false, Option, none, some, List, [], ◌∷◌, ok,
  arith, find?, All, count, any, find?-holds, Bool-cases, ◌∙◌, ◌≤◌,
}
use vivijure_control_plane.Prelude.Text.{Text, text_eq, text_beq_iff}
use vivijure_control_plane.Prelude.Distinct.{Distinct}
use vivijure_control_plane.Credits.{Instant, LedgerRow, HoldRow}
use vivijure_control_plane.Ledger.{
  Db, CaptureArgs, append_ledger_row, take_hold, capture_hold, release_hold, expire_holds, hold_id,
  debits_hold, is_captured,
}
use vivijure_control_plane.Ledger.Keys.{IsSound, Pays, Linked, LinkedTo, same_ref}
use vivijure_control_plane.Ledger.Append.{append_ledger_row-IsSound, take_hold-IsSound}
use vivijure_control_plane.Ledger.Settle.{
  capture_hold-IsSound, release_hold-IsSound, expire_holds-IsSound,
}

-- One call of the store that returned. A call that throws leaves the tables as they were.
pub data Step (db : Db) : Db → Type 0 where
  appends :
      {db' : Db} {b : _} (args : LedgerRow) → append_ledger_row db args ≡ ok (db', b) → Step db db'
  takes : {db' : Db} {b : _} (args : HoldRow) → take_hold db args ≡ ok (db', b) → Step db db'
  captures :
      {db' : Db} {b : Bool} (args : CaptureArgs) → capture_hold db args ≡ ok (db', b) → Step db db'
  releases : {db' : Db} (x : Text) (now : Instant) → (release_hold db x now).0 ≡ db' → Step db db'
  expires : {db' : Db} (now : Instant) → (expire_holds db now).0 ≡ db' → Step db db'

pub data Reach (start : Db) : Db → Type 0 where
  here : Reach start start
  next : {db db' : Db} → Reach start db → Step db db' → Reach start db'

pub Step-IsSound : {db db' : Db} → Step db db' → IsSound db → IsSound db'
Step-IsSound {db} (appends args e) s = append_ledger_row-IsSound db args s e
Step-IsSound {db} (takes args e) s = take_hold-IsSound db args s e
Step-IsSound {db} (captures args e) s = capture_hold-IsSound db args s e
Step-IsSound {db} (releases x now e) s = subst IsSound e (release_hold-IsSound db x now s)
Step-IsSound {db} (expires now e) s = subst IsSound e (expire_holds-IsSound db now s)

pub Reach-IsSound : {start db : Db} → IsSound start → Reach start db → IsSound db
Reach-IsSound s here = s
Reach-IsSound s (next r step) = Step-IsSound step (Reach-IsSound s r)

-- The store before its first statement: the tenants, no hold and no row.
abbrev pub blank : List Text → Db
blank tenants = record { tenants = tenants; holds = []; ledger = [] }

blank-IsSound : (tenants : List Text) → IsSound (blank tenants)
blank-IsSound tenants = record {
  refs = tt;
  row_ids = tt;
  jobs = tt;
  hold_ids = tt;
  amounts = tt;
  signs = tt;
  links = tt;
}

-- After any statements from an empty store, the unique keys hold of both tables, every hold has a
-- positive amount, every row has the sign of its kind, and a row that names a hold is the debit of
-- exactly the amount of that hold, which is captured.
pub history-IsSound : (tenants : List Text) (db : Db) → Reach (blank tenants) db → IsSound db
history-IsSound tenants db r = Reach-IsSound (blank-IsSound tenants) r

module _ (holds : List HoldRow) (x : Text) (h : HoldRow)
    (found : find? (hold_id x) holds ≡ some h) where
  -- A linked row that debits a hold is the debit of that hold.
  Pays-of : (r : LedgerRow) → Linked holds r → debits_hold x r ≡ true → Pays h r
  Pays-of r link e = go r.hold_id refl link
    where
      go : (o : Option Text) → r.hold_id ≡ o → LinkedTo holds r o → Pays h r
      go none p l = absurd (ground arith)
      go (some y) p (k, there, pays) =
          let y_is : y ≡ x = ground (arith, text_beq_iff y x) in
          let k_is : k ≡ h =
            ground (arith, subst (λ t. find? (hold_id t) holds ≡ some k) y_is there) in
          subst (λ m. Pays m r) k_is pays

  no_debits :
      is_captured h.status ≡ false
      → (rs : List LedgerRow) → All (Linked holds) rs
      → any (debits_hold x) rs ≡ false
  no_debits free [] links = refl
  no_debits free (r ∷ rs) (l, links) = elim (Bool-cases (debits_hold x r)) [
    | inl hit ↦ absurd (ground (arith, (Pays-of r l hit).is_captured))
    | inr miss ↦ rw miss (no_debits free rs links)
  ]

  no_more :
      (r : LedgerRow)
      → Pays h r
      → r.idem_ref ≡ x
      → (rs : List LedgerRow) → any (same_ref r) rs ≡ false
      → All (Linked holds) rs
      → count (debits_hold x) rs ≡ 0
  no_more r p i [] d links = refl
  no_more r p i (q ∷ rs) d (l, links) =
      let later = no_more r p i rs (ground arith) links in
      elim (Bool-cases (debits_hold x q)) [
        | inl hit ↦
            let pays = Pays-of q l hit in
            absurd (
              ground (
                arith,
                (text_beq_iff q.tenant_id r.tenant_id).1 (pays.tenant ∙ sym p.tenant),
                (text_beq_iff q.idem_ref r.idem_ref).1 (pays.ref ∙ sym p.ref),
              ))
        | inr miss ↦ rw miss later
      ]

  id_is : h.id ≡ x
  id_is = (text_beq_iff h.id x).0 (find?-holds (hold_id x) holds h found)

  count_debits :
      (rs : List LedgerRow)
      → Distinct same_ref rs
      → All (Linked holds) rs
      → count (debits_hold x) rs ≤ 1
  count_debits [] d links = omega arith
  count_debits (r ∷ rs) (d, ds) (l, links) = elim (Bool-cases (debits_hold x r)) [
    | inl hit ↦
        let p = Pays-of r l hit in rw hit (omega (arith, no_more r p (p.ref ∙ id_is) rs d links))
    | inr miss ↦ rw miss (count_debits rs ds links)
  ]

-- After any statements from an empty store, at most one row debits a given hold, and none does
-- unless the hold is captured.
pub history_debits :
    (tenants : List Text) (db : Db) (x : Text) (h : HoldRow)
    → Reach (blank tenants) db
    → find? (hold_id x) db.holds ≡ some h
    → (count (debits_hold x) db.ledger ≤ 1)
      × ((is_captured h.status ≡ true) ⊎ (any (debits_hold x) db.ledger ≡ false))
history_debits tenants db x h r found =
    let sound = history-IsSound tenants db r in
    (
      count_debits db.holds x h found db.ledger sound.refs sound.links,
      elim (Bool-cases (is_captured h.status)) [
        | inl done ↦ inl done
        | inr free ↦ inr (no_debits db.holds x h found free db.ledger sound.links)
      ],
    )
