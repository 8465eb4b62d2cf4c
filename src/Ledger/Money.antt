-- ===== src/Ledger/Money.antt =====
-- What each statement does to the sums that a balance is made of.
use vivijure_control_plane.Prelude.{
  ◌≡◌, ◌∙◌, refl, sym, ap, ap₂, Bool, true, false, ◌&&◌, some, none, List, [], ◌∷◌, ◌++◌, ok, arith,
  any, find?, filter, count, ◌==◌, nat_eq, if◌then◌else◌,
}
use vivijure_control_plane.Prelude.Int.{ℤ, pos, ◌+ℤ◌, ◌-ℤ◌, neg, pos_part, neg_part, int_laws}
use vivijure_control_plane.Prelude.Text.{Text, text_eq, text_beq_iff}
use vivijure_control_plane.Prelude.Distinct.{Distinct}
use vivijure_control_plane.Credits.{
  Instant, LedgerRow, HoldRow, HoldStatus, open_hold, captured, released, expired,
  balance_from_sums, compute_balance, settled_from, held_from,
}
use vivijure_control_plane.Ledger.{
  Db, CaptureArgs, Appended, Taken, keyed, row_id, hold_id, named, debit_of, update_holds,
  open_with, is_open, lapsed, of_tenant, open_for, sum_ledger, sum_open, read_balance_sums,
  capture_hold, release_hold, expire_holds, append_ledger_row, take_hold,
}
use vivijure_control_plane.Ledger.Holds.{same_hold, update_holds-none, count_open_found}
use vivijure_control_plane.Ledger.Keys.{IsSound}
use vivijure_control_plane.Ledger.Append.{
  Append, replayed, applied, append_ledger_row-Append, Take, reused, created, take_hold-Take,
  opened,
}
use vivijure_control_plane.Ledger.Capture.{capture_hold_open}

-- An amount, where a test holds.
abbrev pub when : Bool → ℤ → ℤ
when b a = if b then a else pos 0

+ℤ_assoc : (a b c : ℤ) → a +ℤ (b +ℤ c) ≡ a +ℤ b +ℤ c
+ℤ_assoc a b c = omega int_laws

+ℤ_zero : (a : ℤ) → a +ℤ pos 0 ≡ a
+ℤ_zero a = omega int_laws

zero_+ℤ : (a : ℤ) → pos 0 +ℤ a ≡ a
zero_+ℤ a = omega int_laws

sum_ledger-snoc :
    (t : Text) (rs : List LedgerRow) (r : LedgerRow)
    → sum_ledger t (rs ++ r ∷ []) ≡ sum_ledger t rs +ℤ when (of_tenant t r) r.delta_micro_usd
unfolding sum_ledger
sum_ledger-snoc t [] r =
    ground (arith, +ℤ_zero r.delta_micro_usd, zero_+ℤ r.delta_micro_usd, zero_+ℤ (pos 0))
sum_ledger-snoc t (x ∷ rs) r = ground (
  arith,
  sum_ledger-snoc t rs r,
  +ℤ_assoc x.delta_micro_usd (sum_ledger t rs) (when (of_tenant t r) r.delta_micro_usd),
)

sum_open-snoc :
    (t : Text) (hs : List HoldRow) (h : HoldRow)
    → sum_open t (hs ++ h ∷ []) ≡ sum_open t hs +ℤ when (open_for t h) h.amount_micro_usd
unfolding sum_open
sum_open-snoc t [] h =
    ground (arith, +ℤ_zero h.amount_micro_usd, zero_+ℤ h.amount_micro_usd, zero_+ℤ (pos 0))
sum_open-snoc t (x ∷ hs) h = ground (
  arith,
  sum_open-snoc t hs h,
  +ℤ_assoc x.amount_micro_usd (sum_open t hs) (when (open_for t h) h.amount_micro_usd),
)

-- What a tenant has reserved in the open holds that a test selects.
pub sum_freed : Text → (HoldRow → Bool) → List HoldRow → ℤ
sum_freed t p [] = pos 0
sum_freed t p (h ∷ hs) = when (open_for t h && p h) h.amount_micro_usd +ℤ sum_freed t p hs

cancel_here : (a b c d : ℤ) → b ≡ c -ℤ d → b ≡ (a +ℤ c) -ℤ (a +ℤ d)
cancel_here a b c d h = omega (int_laws, ap pos_part h, ap neg_part h)

cancel_later : (a b c d : ℤ) → b ≡ c -ℤ d → a +ℤ b ≡ (a +ℤ c) -ℤ (pos 0 +ℤ d)
cancel_later a b c d h = omega (int_laws, ap pos_part h, ap neg_part h)

cancel_none : (b c d : ℤ) → b ≡ c -ℤ d → b ≡ c -ℤ (pos 0 +ℤ d)
cancel_none b c d h = omega (int_laws, ap pos_part h, ap neg_part h)

sum_open-update_holds :
    (t : Text) (p : HoldRow → Bool) (s : HoldStatus) (now : Instant)
    → is_open s ≡ false
    → (hs : List HoldRow) → sum_open t (update_holds p s now hs) ≡ sum_open t hs -ℤ sum_freed t p hs
unfolding sum_open update_holds sum_freed
sum_open-update_holds t p s now closed [] = omega int_laws
sum_open-update_holds t p s now closed (h ∷ hs) =
    let ih = sum_open-update_holds t p s now closed hs in
    let rest = sum_open t (update_holds p s now hs) in
    ground (
      arith,
      cancel_here h.amount_micro_usd rest (sum_open t hs) (sum_freed t p hs) ih,
      cancel_later h.amount_micro_usd rest (sum_open t hs) (sum_freed t p hs) ih,
      cancel_none rest (sum_open t hs) (sum_freed t p hs) ih,
    )

sum_freed_absent :
    (t x : Text) (hs : List HoldRow)
    → any (hold_id x) hs ≡ false
    → sum_freed t (open_with x) hs ≡ pos 0
unfolding sum_freed
sum_freed_absent t x [] a = refl
sum_freed_absent t x (h ∷ hs) a = ground (arith, sum_freed_absent t x hs, zero_+ℤ (pos 0))

-- By its primary key, one hold is freed.
sum_freed_one :
    (t x : Text) (hs : List HoldRow) (h : HoldRow)
    → Distinct same_hold hs
    → find? (hold_id x) hs ≡ some h
    → h.status ≡ open_hold
    → sum_freed t (open_with x) hs ≡ when (h.tenant_id == t) h.amount_micro_usd
unfolding sum_freed
sum_freed_one t x [] h d f o = absurd (ground arith)
sum_freed_one t x (y ∷ hs) h (d, ds) f o = ground (
  arith,
  text_beq_iff y.id x,
  sum_freed_absent t x hs,
  sum_freed_one t x hs h ds,
  +ℤ_zero (when (y.tenant_id == t) y.amount_micro_usd),
  zero_+ℤ (when (h.tenant_id == t) h.amount_micro_usd),
)

drop_by : (s : ℤ) (b : Bool) (a : ℤ) → s +ℤ when b (neg a) ≡ s -ℤ when b a
drop_by s true a = omega int_laws
drop_by s false a = omega int_laws

drop_debit :
    (args : CaptureArgs) (h : HoldRow) (t : Text) (s : ℤ)
    → s +ℤ when (of_tenant t (debit_of args h)) (debit_of args h).delta_micro_usd
      ≡ s -ℤ when (h.tenant_id == t) h.amount_micro_usd
unfolding debit_of
drop_debit args h t s = drop_by s (h.tenant_id == t) h.amount_micro_usd

-- In a sound store, a capture of an open hold wins if the tenant is known, the ledger holds no row
-- under the hold's reference and the new row's id is fresh. It takes the amount off what is held and
-- off what is settled, for the hold's tenant alone.
pub read_balance_sums-capture_hold :
    (db : Db) (args : CaptureArgs) (h : HoldRow) (t : Text)
    → IsSound db
    → find? (hold_id args.hold_id) db.holds ≡ some h
    → h.status ≡ open_hold
    → any (keyed h.tenant_id h.id) db.ledger ≡ false
    → any (row_id args.ledger_row_id) db.ledger ≡ false
    → any (named h.tenant_id) db.tenants ≡ true
    → let before = read_balance_sums db t in
      let moved = when (h.tenant_id == t) h.amount_micro_usd in
      (db' : Db) × (capture_hold db args ≡ ok (db', true))
      × (read_balance_sums db' t ≡ (before.0 -ℤ moved, before.1 -ℤ moved))
unfolding read_balance_sums
read_balance_sums-capture_hold db args h t sound found o new fresh tenant = (
  _,
  capture_hold_open db args h sound found o new fresh tenant,
  ap₂ (λ (a b : ℤ). (a, b))
      (sum_ledger-snoc t db.ledger (debit_of args h) ∙ drop_debit args h t (sum_ledger t db.ledger))
      (sum_open-update_holds t (open_with args.hold_id) captured args.now refl db.holds
        ∙ ap (λ a. sum_open t db.holds -ℤ a)
            (sum_freed_one t args.hold_id db.holds h sound.hold_ids found o)),
)

-- In a sound store, releasing an open hold wins, and gives its tenant back what it held; no other
-- sum changes.
pub read_balance_sums-release_hold :
    (db : Db) (x : Text) (now : Instant) (h : HoldRow) (t : Text)
    → IsSound db
    → find? (hold_id x) db.holds ≡ some h
    → h.status ≡ open_hold
    → let before = read_balance_sums db t in
      ((release_hold db x now).1 ≡ true)
      × (read_balance_sums (release_hold db x now).0 t
          ≡ (before.0, before.1 -ℤ when (h.tenant_id == t) h.amount_micro_usd))
unfolding read_balance_sums release_hold
read_balance_sums-release_hold db x now h t sound found o = (
  ground (arith, count_open_found x db.holds h sound.hold_ids found),
  ap (λ (b : ℤ). (sum_ledger t db.ledger, b))
      (sum_open-update_holds t (open_with x) released now refl db.holds
        ∙ ap (λ a. sum_open t db.holds -ℤ a) (sum_freed_one t x db.holds h sound.hold_ids found o)),
)

count-lapsed-after :
    (now : Instant) (hs : List HoldRow)
    → count (lapsed now) (update_holds (lapsed now) expired now hs) ≡ 0
unfolding update_holds
count-lapsed-after now [] = refl
count-lapsed-after now (h ∷ hs) = ground (arith, count-lapsed-after now hs)

-- The sweep gives every tenant back what its lapsed open holds reserved and no more, moves no
-- settled money, and leaves nothing for a second sweep at the same instant.
pub read_balance_sums-expire_holds :
    (db : Db) (now : Instant) (t : Text)
    → let before = read_balance_sums db t in
      let swept = (expire_holds db now).0 in
      (read_balance_sums swept t ≡ (before.0, before.1 -ℤ sum_freed t (lapsed now) db.holds))
      × (expire_holds swept now ≡ (swept, 0))
unfolding read_balance_sums expire_holds
read_balance_sums-expire_holds db now t = (
  ap (λ (b : ℤ). (sum_ledger t db.ledger, b))
      (sum_open-update_holds t (lapsed now) expired now refl db.holds),
  ground (
    arith,
    count-lapsed-after now db.holds,
    update_holds-none (lapsed now) expired now (update_holds (lapsed now) expired now db.holds)
        (count-lapsed-after now db.holds),
  ),
)

-- An append that returned moves its delta into the settled sum of its tenant if it was applied,
-- and nothing if it was a replay; nothing held changes.
pub read_balance_sums-append_ledger_row :
    (db : Db) (args : LedgerRow) (db' : Db) (res : Appended) (t : Text)
    → append_ledger_row db args ≡ ok (db', res)
    → read_balance_sums db' t ≡ (
      (read_balance_sums db t).0 +ℤ when (res.applied && args.tenant_id == t) args.delta_micro_usd,
      (read_balance_sums db t).1,
    )
unfolding read_balance_sums
read_balance_sums-append_ledger_row db args db' res t e = go (append_ledger_row-Append db args e)
  where
    go :
        {db' : Db} {res : Appended}
        → Append db args db' res
        → read_balance_sums db' t ≡ (
          (read_balance_sums db t).0
              +ℤ when (res.applied && args.tenant_id == t) args.delta_micro_usd,
          (read_balance_sums db t).1,
        )
    go (replayed row found) =
        ap (λ (a : ℤ). (a, sum_open t db.holds)) (sym (+ℤ_zero (sum_ledger t db.ledger)))
    go (applied new fresh sign) =
        ap (λ (a : ℤ). (a, sum_open t db.holds))
          (sum_ledger-snoc t db.ledger (record args { hold_id = none }))

-- Taking a hold that returned reserves its amount for its tenant if it created the hold, and
-- nothing if the job had one; nothing settled changes.
pub read_balance_sums-take_hold :
    (db : Db) (args : HoldRow) (db' : Db) (res : Taken) (t : Text)
    → take_hold db args ≡ ok (db', res)
    → read_balance_sums db' t ≡ (
      (read_balance_sums db t).0,
      (read_balance_sums db t).1 +ℤ when (res.created && args.tenant_id == t) args.amount_micro_usd,
    )
unfolding read_balance_sums
read_balance_sums-take_hold db args db' res t e = go (take_hold-Take db args e)
  where
    go :
        {db' : Db} {res : Taken}
        → Take db args db' res
        → read_balance_sums db' t ≡ (
          (read_balance_sums db t).0,
          (read_balance_sums db t).1
              +ℤ when (res.created && args.tenant_id == t) args.amount_micro_usd,
        )
    go (reused hold found) =
        ap (λ (a : ℤ). (sum_ledger t db.ledger, a)) (sym (+ℤ_zero (sum_open t db.holds)))
    go (created new fresh a) =
        ap (λ (b : ℤ). (sum_ledger t db.ledger, b))
          (sum_open-snoc t db.holds (opened args) ∙ open_is (args.tenant_id == t))
      where
        open_is :
            (b : Bool)
            → sum_open t db.holds +ℤ when (b && true) args.amount_micro_usd
              ≡ sum_open t db.holds +ℤ when b args.amount_micro_usd
        open_is true = refl
        open_is false = refl

settled_from-eq :
    (t : Text) (acc : ℤ) (rs : List LedgerRow)
    → settled_from acc (filter (of_tenant t) rs) ≡ acc +ℤ sum_ledger t rs
unfolding settled_from sum_ledger
settled_from-eq t acc [] = sym (+ℤ_zero acc)
settled_from-eq t acc (r ∷ rs) = ground (
  arith,
  settled_from-eq t acc rs,
  settled_from-eq t (acc +ℤ r.delta_micro_usd) rs,
  +ℤ_assoc acc r.delta_micro_usd (sum_ledger t rs),
)

held_from-eq :
    (t : Text) (acc : ℤ) (hs : List HoldRow)
    → held_from acc (filter (open_for t) hs) ≡ acc +ℤ sum_open t hs
unfolding held_from sum_open
held_from-eq t acc [] = sym (+ℤ_zero acc)
held_from-eq t acc (h ∷ hs) = ground (
  arith,
  held_from-eq t acc hs,
  held_from-eq t (acc +ℤ h.amount_micro_usd) hs,
  +ℤ_assoc acc h.amount_micro_usd (sum_open t hs),
)

-- The balance from the sums that SQL makes is the balance computed row by row from the tenant's
-- ledger and its open holds.
pub compute_balance-eq-sums :
    (db : Db) (t : Text) (complete : Bool)
    → compute_balance (filter (of_tenant t) db.ledger) (filter (open_for t) db.holds) complete
      ≡ balance_from_sums (read_balance_sums db t).0 (read_balance_sums db t).1 complete
unfolding compute_balance read_balance_sums
compute_balance-eq-sums db t complete =
    ap₂ (λ (a b : ℤ). balance_from_sums a b complete)
      (settled_from-eq t (pos 0) db.ledger ∙ zero_+ℤ (sum_ledger t db.ledger))
      (held_from-eq t (pos 0) db.holds ∙ zero_+ℤ (sum_open t db.holds))
