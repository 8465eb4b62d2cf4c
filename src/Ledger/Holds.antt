-- ===== src/Ledger/Holds.antt =====
-- The table of holds under the UPDATE statements.
use mathlib.Core.Option
use vivijure_control_plane.Prelude.{
  ◌≡◌, refl, Bool, true, false, ◌&&◌, none, some, List, [], ◌∷◌, arith, any, find?, count, ◌==◌,
  if◌then◌else◌,
}
use vivijure_control_plane.Prelude.Text.{Text, text_eq, text_beq_iff}
use vivijure_control_plane.Prelude.Distinct.{Distinct}
use vivijure_control_plane.Credits.{Instant, HoldRow, HoldStatus}
use vivijure_control_plane.Ledger.{
  update_holds, hold_id, open_with, captured_with, is_open, is_captured,
}

abbrev pub same_hold : HoldRow → HoldRow → Bool
same_hold a b = hold_id a.id b

abbrev pub same_job : HoldRow → HoldRow → Bool
same_job a b = b.tenant_id == a.tenant_id && b.job_ref == a.job_ref

-- What the UPDATE does to one row.
abbrev pub settled_row : (HoldRow → Bool) → HoldStatus → Instant → HoldRow → HoldRow
settled_row p s now h = if p h then record h { status = s; settled_at = some now } else h

module _ (p : HoldRow → Bool) (s : HoldStatus) (now : Instant) where
  -- The UPDATE keeps what a test says that reads neither the status nor the time of settling.
  pub any-update_holds :
      (q : HoldRow → Bool)
      → ((h : HoldRow) → q (settled_row p s now h) ≡ q h)
      → (hs : List HoldRow) → any q (update_holds p s now hs) ≡ any q hs
  unfolding update_holds
  any-update_holds q keep [] = refl
  any-update_holds q keep (h ∷ hs) = rw (keep h, any-update_holds q keep hs)

  pub find?-update_holds :
      (q : HoldRow → Bool)
      → ((h : HoldRow) → q (settled_row p s now h) ≡ q h)
      → (hs : List HoldRow)
      → find? q (update_holds p s now hs) ≡ Option.map (settled_row p s now) (find? q hs)
  unfolding update_holds
  find?-update_holds q keep [] = refl
  find?-update_holds q keep (h ∷ hs) = rw (keep h, find?-update_holds q keep hs) (ground arith)

  pub hold_id-settled_row :
      (x : Text) (h : HoldRow) → hold_id x (settled_row p s now h) ≡ hold_id x h
  hold_id-settled_row x h = ground arith

  pub same_job-settled_row : (a h : HoldRow) → same_job a (settled_row p s now h) ≡ same_job a h
  same_job-settled_row a h = ground arith

  pub Distinct_hold-update_holds :
      (hs : List HoldRow) → Distinct same_hold hs → Distinct same_hold (update_holds p s now hs)
  unfolding update_holds
  Distinct_hold-update_holds [] d = tt
  Distinct_hold-update_holds (h ∷ hs) (d, ds) = (
    ground (arith, any-update_holds (hold_id h.id) (hold_id-settled_row h.id) hs),
    Distinct_hold-update_holds hs ds,
  )

  pub Distinct_job-update_holds :
      (hs : List HoldRow) → Distinct same_job hs → Distinct same_job (update_holds p s now hs)
  unfolding update_holds
  Distinct_job-update_holds [] d = tt
  Distinct_job-update_holds (h ∷ hs) (d, ds) = (
    ground (arith, any-update_holds (same_job h) (same_job-settled_row h) hs),
    Distinct_job-update_holds hs ds,
  )

  pub update_holds-none : (hs : List HoldRow) → count p hs ≡ 0 → update_holds p s now hs ≡ hs
  unfolding update_holds
  update_holds-none [] c = refl
  update_holds-none (h ∷ hs) c = ground (arith, update_holds-none hs)

count_open_absent :
    (x : Text) (hs : List HoldRow) → any (hold_id x) hs ≡ false → count (open_with x) hs ≡ 0
count_open_absent x [] a = refl
count_open_absent x (h ∷ hs) a = ground (arith, count_open_absent x hs)

find?-captured_absent :
    (x : Text) (hs : List HoldRow) → any (hold_id x) hs ≡ false → find? (captured_with x) hs ≡ none
find?-captured_absent x [] a = refl
find?-captured_absent x (h ∷ hs) a = ground (arith, find?-captured_absent x hs)

-- What `find?` by the primary key says of the other tests on that key.
pub count_open_found :
    (x : Text) (hs : List HoldRow) (h : HoldRow)
    → Distinct same_hold hs
    → find? (hold_id x) hs ≡ some h
    → count (open_with x) hs ≡ (if is_open h.status then 1 else 0)
count_open_found x [] h d f = ground arith
count_open_found x (y ∷ hs) h (d, ds) f =
    ground (arith, text_beq_iff y.id x, count_open_absent x hs, count_open_found x hs h ds)

pub find?-captured_found :
    (x : Text) (hs : List HoldRow) (h : HoldRow)
    → Distinct same_hold hs
    → find? (hold_id x) hs ≡ some h
    → find? (captured_with x) hs ≡ (if is_captured h.status then some h else none)
find?-captured_found x [] h d f = ground arith
find?-captured_found x (y ∷ hs) h (d, ds) f =
    ground (arith, text_beq_iff y.id x, find?-captured_absent x hs, find?-captured_found x hs h ds)

pub find?-any-none :
    (x : Text) (hs : List HoldRow) → find? (hold_id x) hs ≡ none → any (hold_id x) hs ≡ false
find?-any-none x [] f = refl
find?-any-none x (h ∷ hs) f = ground (arith, find?-any-none x hs)

pub find?-any-some :
    (x : Text) (hs : List HoldRow) (h : HoldRow)
    → find? (hold_id x) hs ≡ some h
    → any (hold_id x) hs ≡ true
find?-any-some x [] h f = ground arith
find?-any-some x (y ∷ hs) h f = ground (arith, find?-any-some x hs h)

pub count_open_missing :
    (x : Text) (hs : List HoldRow) → find? (hold_id x) hs ≡ none → count (open_with x) hs ≡ 0
count_open_missing x hs f = count_open_absent x hs (find?-any-none x hs f)

pub find?-captured_missing :
    (x : Text) (hs : List HoldRow) → find? (hold_id x) hs ≡ none → find? (captured_with x) hs ≡ none
find?-captured_missing x hs f = find?-captured_absent x hs (find?-any-none x hs f)
