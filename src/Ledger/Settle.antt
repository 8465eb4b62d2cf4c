-- ===== src/Ledger/Settle.antt =====
-- `captureHold`, `releaseHold` and `expireHolds`: the ways in which a hold is settled.
use vivijure_control_plane.Prelude.{
  ◌≡◌, refl, sym, ap, subst, ◌∙◌, ◌⊎◌, inl, inr, Bool, false, none, some, List, [], ◌∷◌, Result, ok,
  err, arith, find?, count, All, nat_eq, Bool-cases, Option-cases, find?-holds,
}
use vivijure_control_plane.Prelude.Int.{neg}
use vivijure_control_plane.Prelude.Text.{Text, text_eq, text_beq_iff}
use vivijure_control_plane.Credits.{Instant, HoldRow, captured, released, expired}
use vivijure_control_plane.Ledger.{
  Db, StoreError, CaptureArgs, sign_check, hold_id, insert_ledger, insert_debit, capture_hold,
  release_hold, expire_holds, debit_of, update_holds, open_with, captured_with, is_open, lapsed,
}
use vivijure_control_plane.Ledger.Holds.{
  update_holds-none, count_open_found, find?-captured_found, find?-captured_missing,
}
use vivijure_control_plane.Ledger.Keys.{
  IsSound, Linked, HasAmount, HasSign, insert_ledger-Inserted, Inserted-IsSound,
  update_holds-IsSound,
}

pub All-find? {ℓ κ} :
    {A : Type ℓ} (P : A → Type κ) (p : A → Bool) (xs : List A) (a : A)
    → All P xs
    → find? p xs ≡ some a
    → P a
All-find? P p [] a h f = absurd (ground arith)
All-find? P p (x ∷ xs) a (q, h) f = elim (Bool-cases (p x)) [
  | inl hit ↦ subst P (ground arith) q
  | inr miss ↦ All-find? P p xs a h (ground arith)
]

pub debit-HasSign : (args : CaptureArgs) (h : HoldRow) → HasAmount h → HasSign (debit_of args h)
unfolding debit_of sign_check neg
debit-HasSign args h a = ground arith

pub open_idle : (x : Text) (h : HoldRow) → h.status ≡ captured → open_with x h ≡ false
open_idle x h c = ground arith

pub lapsed_idle : (now : Instant) (h : HoldRow) → h.status ≡ captured → lapsed now h ≡ false
lapsed_idle now h c = ground arith

-- The UPDATE of `captureHold`.
abbrev pub marked : Db → CaptureArgs → Db
marked db args = record db {
  holds = update_holds (open_with args.hold_id) captured args.now db.holds;
}

-- The row that the batch draws its debit from is the captured hold with the id, and it is linked.
drawn-Linked :
    (db : Db) (args : CaptureArgs) (h : HoldRow)
    → IsSound db
    → find? (captured_with args.hold_id) db.holds ≡ some h
    → Linked db.holds (debit_of args h)
unfolding debit_of
drawn-Linked db args h sound found =
    let same : h.id ≡ args.hold_id = ground (
      arith,
      text_beq_iff h.id args.hold_id,
      find?-holds (captured_with args.hold_id) db.holds h found,
    ) in
    elim (Option-cases (find? (hold_id args.hold_id) db.holds)) [
      | inl absent ↦ absurd (ground (arith, find?-captured_missing args.hold_id db.holds absent))
      | inr (k, present) ↦
          let e = find?-captured_found args.hold_id db.holds k sound.hold_ids present in
          let k_is : k ≡ h = ground arith in
          (
            h,
            subst (λ t. find? (hold_id t) db.holds ≡ some h) (sym same) (present ∙ ap some k_is),
            record {
              is_captured = ground arith;
              is_debit = refl;
              tenant = refl;
              ref = refl;
              amount = refl;
            },
          )
    ]

insert_debit-IsSound :
    (db : Db) (args : CaptureArgs) {db' : Db}
    → IsSound db
    → insert_debit db args ≡ ok db'
    → IsSound db'
unfolding insert_debit
insert_debit-IsSound db args {db'} sound e =
    elim (Option-cases (find? (captured_with args.hold_id) db.holds)) [
      | inl nothing ↦ subst IsSound (ground arith) sound
      | inr (h, found) ↦ go h found (insert_ledger db (debit_of args h)) refl
    ]
  where
    go :
        (h : HoldRow)
        → find? (captured_with args.hold_id) db.holds ≡ some h
        → (r : Result StoreError (Db × Bool)) → insert_ledger db (debit_of args h) ≡ r
        → IsSound db'
    go h found (ok (db₁, wrote)) i = subst IsSound (ground arith) (
        Inserted-IsSound db sound (debit_of args h) (drawn-Linked db args h sound found)
          (insert_ledger-Inserted db (debit_of args h) db₁ wrote i))
    go h found (err x) i = absurd (ground arith)

pub capture_hold-IsSound :
    (db : Db) (args : CaptureArgs) {db' : Db} {won : Bool}
    → IsSound db
    → capture_hold db args ≡ ok (db', won)
    → IsSound db'
unfolding capture_hold
capture_hold-IsSound db args {db'} sound e = go (insert_debit (marked db args) args) refl
  where
    go : (r : Result StoreError Db) → insert_debit (marked db args) args ≡ r → IsSound db'
    go (ok db₁) i = subst IsSound (ground arith) (
        insert_debit-IsSound (marked db args) args
          (update_holds-IsSound (open_with args.hold_id) captured args.now (open_idle args.hold_id)
            db sound)
          i)
    go (err x) i = absurd (ground arith)

pub release_hold-IsSound :
    (db : Db) (x : Text) (now : Instant) → IsSound db → IsSound (release_hold db x now).0
unfolding release_hold
release_hold-IsSound db x now sound =
    update_holds-IsSound (open_with x) released now (open_idle x) db sound

pub expire_holds-IsSound : (db : Db) (now : Instant) → IsSound db → IsSound (expire_holds db now).0
unfolding expire_holds
expire_holds-IsSound db now sound =
    update_holds-IsSound (lapsed now) expired now (lapsed_idle now) db sound

-- In a sound store, releasing a hold that is not open changes nothing and reports so.
pub release_hold_settled :
    (db : Db) (x : Text) (now : Instant) (h : HoldRow)
    → IsSound db
    → find? (hold_id x) db.holds ≡ some h
    → is_open h.status ≡ false
    → release_hold db x now ≡ (db, false)
unfolding release_hold
release_hold_settled db x now h sound found settled =
    let none_open : count (open_with x) db.holds ≡ 0 =
      ground (arith, count_open_found x db.holds h sound.hold_ids found) in
    rw (none_open, update_holds-none (open_with x) released now db.holds none_open)

-- In a sound store, capturing a hold that was released or has expired writes no debit, changes
-- nothing and reports so.
pub capture_hold_freed :
    (db : Db) (args : CaptureArgs) (h : HoldRow)
    → IsSound db
    → find? (hold_id args.hold_id) db.holds ≡ some h
    → (h.status ≡ released) ⊎ (h.status ≡ expired)
    → capture_hold db args ≡ ok (db, false)
unfolding capture_hold
capture_hold_freed db args h sound found freed =
    let none_open : count (open_with args.hold_id) db.holds ≡ 0 =
      ground (arith, count_open_found args.hold_id db.holds h sound.hold_ids found) in
    let none_drawn : find? (captured_with args.hold_id) db.holds ≡ none =
      ground (arith, find?-captured_found args.hold_id db.holds h sound.hold_ids found) in
    let same = update_holds-none (open_with args.hold_id) captured args.now db.holds none_open in
    ground (arith, none_open, none_drawn, same)
