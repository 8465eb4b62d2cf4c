-- ===== src/Ledger/Capture.antt =====
-- What a capture of an open hold does, and that it does it once.
use vivijure_control_plane.Prelude.{
  ◌≡◌, refl, subst, Bool, true, false, some, [], ◌∷◌, ◌++◌, ok, err, Result, arith, any, find?,
  count, nat_eq, find?-holds, any-append, Option-cases, inl, inr,
}
use vivijure_control_plane.Prelude.Text.{text_eq, text_beq_iff, text_beq_refl}
use vivijure_control_plane.Credits.{Instant, HoldRow, open_hold, captured}
use vivijure_control_plane.Ledger.{
  Db, StoreError, CaptureArgs, release_hold, keyed, row_id, hold_id, named, insert_ledger,
  capture_hold, debit_of, update_holds, open_with, captured_with,
}
use vivijure_control_plane.Ledger.Holds.{
  any-update_holds, find?-update_holds, hold_id-settled_row, update_holds-none, count_open_found,
  count_open_missing, find?-captured_found, find?-any-some,
}
use vivijure_control_plane.Ledger.Keys.{
  IsSound, HasAmount, update_holds-IsSound, insert_ledger-Inserted, Inserted, skipped, added,
}
use vivijure_control_plane.Ledger.Settle.{
  marked, debit-HasSign, open_idle, All-find?, capture_hold-IsSound, release_hold_settled,
}

abbrev charged : CaptureArgs → HoldRow → HoldRow
charged args h = record h { status = captured; settled_at = some args.now }

module _ (db : Db) (args : CaptureArgs) (h : HoldRow) (sound : IsSound db)
    (found : find? (hold_id args.hold_id) db.holds ≡ some h) where
  same_id : h.id ≡ args.hold_id
  same_id =
      ground
        (arith, text_beq_iff h.id args.hold_id, find?-holds (hold_id args.hold_id) db.holds h found)

  pub found_marked :
      h.status ≡ open_hold
      → find? (hold_id args.hold_id) (marked db args).holds ≡ some (charged args h)
  found_marked is_open = ground (
    arith,
    find?-holds (hold_id args.hold_id) db.holds h found,
    find?-update_holds (open_with args.hold_id) captured args.now (hold_id args.hold_id)
        (hold_id-settled_row (open_with args.hold_id) captured args.now args.hold_id) db.holds,
  )

  drawn_marked :
      h.status ≡ open_hold
      → find? (captured_with args.hold_id) (marked db args).holds ≡ some (charged args h)
  drawn_marked is_open =
      find?-captured_found args.hold_id (marked db args).holds (charged args h)
        (update_holds-IsSound (open_with args.hold_id) captured args.now (open_idle args.hold_id) db
          sound).hold_ids
        (found_marked is_open)

  -- Capturing an open hold whose reference and row id the ledger does not hold yet marks the hold
  -- and adds its debit, and wins.
  pub capture_hold_open :
      h.status ≡ open_hold
      → any (keyed h.tenant_id h.id) db.ledger ≡ false
      → any (row_id args.ledger_row_id) db.ledger ≡ false
      → any (named h.tenant_id) db.tenants ≡ true
      → capture_hold db args
        ≡ ok (
          record db {
            holds = update_holds (open_with args.hold_id) captured args.now db.holds;
            ledger = db.ledger ++ debit_of args h ∷ [];
          },
          true,
        )
  unfolding capture_hold
  capture_hold_open is_open new fresh tenant = ground (
    arith,
    drawn_marked is_open,
    count_open_found args.hold_id db.holds h sound.hold_ids found,
    debit-HasSign args h
        (All-find? HasAmount (hold_id args.hold_id) db.holds h sound.amounts found),
    any-update_holds (open_with args.hold_id) captured args.now (hold_id h.id)
        (hold_id-settled_row (open_with args.hold_id) captured args.now h.id) db.holds,
    same_id,
    find?-any-some args.hold_id db.holds h found,
  )

  -- The hold is already captured and its reference is in the ledger: nothing is left to do.
  pub capture_hold_done :
      h.status ≡ captured
      → any (keyed h.tenant_id h.id) db.ledger ≡ true
      → capture_hold db args ≡ ok (db, false)
  unfolding capture_hold
  capture_hold_done done keyed_in =
      let none_open : count (open_with args.hold_id) db.holds ≡ 0 =
        ground (arith, count_open_found args.hold_id db.holds h sound.hold_ids found) in
      ground (
        arith,
        none_open,
        update_holds-none (open_with args.hold_id) captured args.now db.holds none_open,
        find?-captured_found args.hold_id db.holds h sound.hold_ids found,
        debit-HasSign args h
            (All-find? HasAmount (hold_id args.hold_id) db.holds h sound.amounts found),
      )

  -- After a capture that returned, the hold is the captured one and its reference is in the ledger.
  captured_after :
      {db' : Db} {won : Bool}
      → h.status ≡ open_hold
      → capture_hold db args ≡ ok (db', won)
      → (find? (hold_id args.hold_id) db'.holds ≡ some (charged args h))
        × (any (keyed h.tenant_id h.id) db'.ledger ≡ true)
  unfolding capture_hold
  captured_after {db'} is_open e =
      go (insert_ledger (marked db args) (debit_of args (charged args h))) refl
    where
      go :
          (r : Result StoreError (Db × Bool))
          → insert_ledger (marked db args) (debit_of args (charged args h)) ≡ r
          → (find? (hold_id args.hold_id) db'.holds ≡ some (charged args h))
            × (any (keyed h.tenant_id h.id) db'.ledger ≡ true)
      go (err x) i = absurd (ground (arith, drawn_marked is_open))
      go (ok (db₁, wrote)) i =
          let same : db₁ ≡ db' = ground (arith, drawn_marked is_open) in
          subst
            (λ (d : Db).
              (find? (hold_id args.hold_id) d.holds ≡ some (charged args h))
              × (any (keyed h.tenant_id h.id) d.ledger ≡ true))
            same
            (present (
              insert_ledger-Inserted (marked db args) (debit_of args (charged args h)) db₁ wrote i))
        where
          present :
              {d : Db} {w : Bool}
              → Inserted (marked db args) (debit_of args (charged args h)) d w
              → (find? (hold_id args.hold_id) d.holds ≡ some (charged args h))
                × (any (keyed h.tenant_id h.id) d.ledger ≡ true)
          present (skipped old) = (found_marked is_open, old)
          present (added new fresh sign) = (
            found_marked is_open,
            ground (
              arith,
              any-append (keyed h.tenant_id h.id) db.ledger (debit_of args (charged args h) ∷ []),
              text_beq_refl h.tenant_id,
              text_beq_refl h.id,
            ),
          )

-- A capture that won met an open hold.
won_open :
    (db : Db) (args : CaptureArgs) {db' : Db}
    → IsSound db
    → capture_hold db args ≡ ok (db', true)
    → (h : HoldRow) × (find? (hold_id args.hold_id) db.holds ≡ some h) × (h.status ≡ open_hold)
unfolding capture_hold
won_open db args sound e =
    let one : count (open_with args.hold_id) db.holds ≡ 1 = ground arith in
    elim (Option-cases (find? (hold_id args.hold_id) db.holds)) [
      | inl absent ↦ absurd (ground (arith, count_open_missing args.hold_id db.holds absent))
      | inr (h, found) ↦
          (h, found, ground (arith, count_open_found args.hold_id db.holds h sound.hold_ids found))
    ]

-- Exactly one settlement: in a sound store, once a capture has won, a further capture of the hold,
-- under whatever row id, and a release of it lose and change nothing.
pub capture_hold_once :
    (db : Db) (args again : CaptureArgs) (db' : Db) (now : Instant)
    → IsSound db
    → capture_hold db args ≡ ok (db', true)
    → again.hold_id ≡ args.hold_id
    → (capture_hold db' again ≡ ok (db', false))
      × (release_hold db' args.hold_id now ≡ (db', false))
capture_hold_once db args again db' now sound e same =
    let (h, found, is_open) = won_open db args sound e in
    let (found', keyed_in) = captured_after db args h sound found is_open e in
    let sound' = capture_hold-IsSound db args sound e in
    (
      capture_hold_done db' again (charged args h) sound' (rw same found') refl keyed_in,
      release_hold_settled db' args.hold_id now (charged args h) sound' found' refl,
    )
