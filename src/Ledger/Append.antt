-- ===== src/Ledger/Append.antt =====
-- `appendLedgerRow` and `takeHold`: idempotent inserts.
use vivijure_control_plane.Prelude.{
  ◌≡◌, refl, subst, inl, inr, Bool, true, false, none, some, [], ◌∷◌, ◌++◌, Result, ok, err, arith,
  any, find?, find?-append_some, find?-append_none, find?-none_of_any, find?-some_of_any,
  any-of_find?, Bool-cases,
}
use vivijure_control_plane.Prelude.Int.{ltb_zero}
use vivijure_control_plane.Prelude.Text.{text_eq, text_beq_comm, text_beq_refl}
use vivijure_control_plane.Prelude.Distinct.{Distinct-snoc}
use vivijure_control_plane.Credits.{LedgerRow, HoldRow, open_hold}
use vivijure_control_plane.Ledger.{
  Db, Appended, Taken, StoreError, sign_check, keyed, held_for, row_id, hold_id, insert_ledger,
  append_ledger_row, take_hold,
}
use vivijure_control_plane.Ledger.Holds.{same_hold, same_job}
use vivijure_control_plane.Ledger.Keys.{
  IsSound, Inserted, skipped, added, insert_ledger-Inserted, Inserted-IsSound, All-Linked-keep,
  All-snoc, HasAmount, same_job_comm, HasSign,
}

abbrev pub unlinked : LedgerRow → LedgerRow
unlinked args = record args { hold_id = none }

-- What an append that returned has found and done.
pub data Append (db : Db) (args : LedgerRow) : Db → Appended → Type 0 where
  replayed :
      (row : LedgerRow)
      → find? (keyed args.tenant_id args.idem_ref) db.ledger ≡ some row
      → Append db args db (record { applied = false; row = row })
  applied :
      any (keyed args.tenant_id args.idem_ref) db.ledger ≡ false
      → any (row_id args.id) db.ledger ≡ false
      → HasSign args
      → Append db args
          (record db { ledger = db.ledger ++ unlinked args ∷ [] })
          (record { applied = true; row = unlinked args })

Append-Inserted :
    (db : Db) (args : LedgerRow) {db₁ : Db} {wrote : Bool} {db' : Db} {res : Appended}
    → insert_ledger db (unlinked args) ≡ ok (db₁, wrote)
    → Inserted db (unlinked args) db₁ wrote
    → append_ledger_row db args ≡ ok (db', res)
    → Append db args db' res
unfolding append_ledger_row
Append-Inserted db args {db'} {res} i (skipped old) h =
    let (row, found) = find?-some_of_any _ db.ledger old in
    subst (λ (t : Db × Appended). Append db args t.0 t.1) (ground (arith, i, found))
      (replayed row found)
Append-Inserted db args {db'} {res} i (added new fresh sign) h =
    subst (λ (t : Db × Appended). Append db args t.0 t.1) (ground (arith, i))
      (applied new fresh sign)

pub append_ledger_row-Append :
    (db : Db) (args : LedgerRow) {db' : Db} {res : Appended}
    → append_ledger_row db args ≡ ok (db', res)
    → Append db args db' res
unfolding append_ledger_row
append_ledger_row-Append db args {db'} {res} h = go (insert_ledger db (unlinked args)) refl
  where
    go :
        (r : Result StoreError (Db × Bool))
        → insert_ledger db (unlinked args) ≡ r
        → Append db args db' res
    go (ok (db₁, wrote)) e =
        Append-Inserted db args e (insert_ledger-Inserted db (unlinked args) db₁ wrote e) h
    go (err e') e = absurd (ground arith)

-- The row that an append returns is the one its key finds afterwards.
pub find?-Append :
    (db : Db) (args : LedgerRow) {db' : Db} {res : Appended}
    → Append db args db' res
    → find? (keyed args.tenant_id args.idem_ref) db'.ledger ≡ some res.row
find?-Append db args (replayed row found) = found
find?-Append db args (applied new fresh sign) =
    rw (find?-append_none _ db.ledger (unlinked args ∷ []) (find?-none_of_any _ db.ledger new))
      (ground (arith, text_beq_refl args.tenant_id, text_beq_refl args.idem_ref))

-- An append with a key that is already there changes nothing and returns the row that is there.
pub append_ledger_row_replay :
    (db : Db) (args : LedgerRow) (row : LedgerRow)
    → HasSign args
    → find? (keyed args.tenant_id args.idem_ref) db.ledger ≡ some row
    → append_ledger_row db args ≡ ok (db, record { applied = false; row = row })
unfolding append_ledger_row
append_ledger_row_replay db args row sign found =
    ground (arith, any-of_find? (keyed args.tenant_id args.idem_ref) db.ledger row)

-- A retry under the same tenant and reference writes nothing, whatever else it says, and gets the
-- row of the first call back; its sign must fit its kind, as in every call that does not throw.
pub append_ledger_row_twice :
    (db : Db) (args again : LedgerRow) (db' : Db) (res : Appended)
    → append_ledger_row db args ≡ ok (db', res)
    → again.tenant_id ≡ args.tenant_id
    → again.idem_ref ≡ args.idem_ref
    → sign_check again.kind again.delta_micro_usd ≡ true
    → append_ledger_row db' again ≡ ok (db', record { applied = false; row = res.row })
append_ledger_row_twice db args again db' res h t i sign =
    append_ledger_row_replay db' again res.row sign
      (rw (t, i) (find?-Append db args (append_ledger_row-Append db args h)))

Append-IsSound :
    (db : Db) (args : LedgerRow) {db' : Db} {res : Appended}
    → IsSound db
    → Append db args db' res
    → IsSound db'
Append-IsSound db args sound (replayed row found) = sound
Append-IsSound db args sound (applied new fresh sign) =
    Inserted-IsSound db sound (unlinked args) tt (added new fresh sign)

pub append_ledger_row-IsSound :
    (db : Db) (args : LedgerRow) {db' : Db} {res : Appended}
    → IsSound db
    → append_ledger_row db args ≡ ok (db', res)
    → IsSound db'
append_ledger_row-IsSound db args sound h =
    Append-IsSound db args sound (append_ledger_row-Append db args h)

abbrev pub opened : HoldRow → HoldRow
opened args = record args { status = open_hold; settled_at = none }

-- What taking a hold, when it returned, has found and done.
pub data Take (db : Db) (args : HoldRow) : Db → Taken → Type 0 where
  reused :
      (hold : HoldRow)
      → find? (held_for args.tenant_id args.job_ref) db.holds ≡ some hold
      → Take db args db (record { created = false; hold = hold })
  created :
      any (held_for args.tenant_id args.job_ref) db.holds ≡ false
      → any (hold_id args.id) db.holds ≡ false
      → HasAmount args
      → Take db args
          (record db { holds = db.holds ++ opened args ∷ [] })
          (record { created = true; hold = opened args })

pub take_hold-Take :
    (db : Db) (args : HoldRow) {db' : Db} {res : Taken}
    → take_hold db args ≡ ok (db', res)
    → Take db args db' res
unfolding take_hold
take_hold-Take db args {db'} {res} h =
    elim (Bool-cases (any (held_for args.tenant_id args.job_ref) db.holds)) [
      | inl old ↦
          let (hold, found) = find?-some_of_any _ db.holds old in
          subst (λ (t : Db × Taken). Take db args t.0 t.1) (ground arith) (reused hold found)
      | inr new ↦
          subst (λ (t : Db × Taken). Take db args t.0 t.1) (ground arith)
            (created new (ground arith) (ground arith))
    ]

-- After a hold was taken or found, taking one for the same tenant and job with a positive amount
-- changes nothing and gets that hold back.
pub take_hold_twice :
    (db : Db) (args again : HoldRow) (db' : Db) (res : Taken)
    → take_hold db args ≡ ok (db', res)
    → again.tenant_id ≡ args.tenant_id
    → again.job_ref ≡ args.job_ref
    → ltb_zero again.amount_micro_usd ≡ true
    → take_hold db' again ≡ ok (db', record { created = false; hold = res.hold })
unfolding take_hold
take_hold_twice db args again db' res h t j amount =
    let found : find? (held_for again.tenant_id again.job_ref) db'.holds ≡ some res.hold =
      rw (t, j) (found_after (take_hold-Take db args h)) in
    ground (arith, any-of_find? (held_for again.tenant_id again.job_ref) db'.holds res.hold)
  where
    found_after :
        {db' : Db} {res : Taken}
        → Take db args db' res
        → find? (held_for args.tenant_id args.job_ref) db'.holds ≡ some res.hold
    found_after (reused hold found) = found
    found_after (created new fresh a) =
        rw (find?-append_none _ db.holds (opened args ∷ []) (find?-none_of_any _ db.holds new))
          (ground (arith, text_beq_refl args.tenant_id, text_beq_refl args.job_ref))

Take-IsSound :
    (db : Db) (args : HoldRow) {db' : Db} {res : Taken}
    → IsSound db
    → Take db args db' res
    → IsSound db'
Take-IsSound db args sound (reused hold found) = sound
Take-IsSound db args sound (created new fresh a) = record {
  refs = sound.refs;
  row_ids = sound.row_ids;
  jobs = Distinct-snoc same_job same_job_comm db.holds (opened args) sound.jobs new;
  hold_ids =
      Distinct-snoc same_hold (λ a b. text_beq_comm b.id a.id) db.holds (opened args) sound.hold_ids
        fresh;
  amounts = All-snoc HasAmount db.holds (opened args) sound.amounts a;
  signs = sound.signs;
  links =
      All-Linked-keep db.holds _
        (λ x h found c. find?-append_some (hold_id x) db.holds (opened args ∷ []) h found) db.ledger
        sound.links;
}

pub take_hold-IsSound :
    (db : Db) (args : HoldRow) {db' : Db} {res : Taken}
    → IsSound db
    → take_hold db args ≡ ok (db', res)
    → IsSound db'
take_hold-IsSound db args sound h = Take-IsSound db args sound (take_hold-Take db args h)

-- A call that returned, replay or not, had a sign that fits its kind.
pub append_ledger_row-HasSign :
    (db : Db) (args : LedgerRow) {db' : Db} {res : Appended}
    → append_ledger_row db args ≡ ok (db', res)
    → HasSign args
unfolding append_ledger_row
append_ledger_row-HasSign db args h =
    elim (Bool-cases (sign_check args.kind args.delta_micro_usd)) [
      | inl good ↦ good
      | inr bad ↦ absurd (ground arith)
    ]
