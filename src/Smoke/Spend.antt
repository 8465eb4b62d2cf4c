-- ===== src/Smoke/Spend.antt =====
-- The bounds on smoke renders: what is refused has a reason, and a day holds no more than the cap.
use vivijure_control_plane.Prelude.{
  ℕ, ◌+◌, ◌≤◌, ◌≡◌, refl, Bool, true, false, not, Option, none, some, List, [], ◌∷◌, ◌++◌, ok,
  arith, any, find?, filter, count, is_some, ltb, ◌==◌, nat_eq, if◌then◌else◌, Bool-cases, inl, inr,
}
use vivijure_control_plane.Prelude.Text.{Text, text_eq}
use vivijure_control_plane.Prelude.Rows.{update_where}
use vivijure_control_plane.Smoke.{
  SmokeRender, SmokeRenderBounds, SmokeDb, SmokeOutcome, rendered, broke, is_within, is_in_flight,
  is_cooling, is_admitted, opened_render, has_render_id, open_smoke_render, latest, cap_refusal,
  cooldown_refusal, flight_refusal, describe_smoke_render_refusal, set_smoke_render_submitted,
  finish_smoke_render, finish_with, is_open_render, day_seconds,
}

found_is_any : (p : SmokeRender → Bool) (rs : List SmokeRender) → is_some (find? p rs) ≡ any p rs
found_is_any p [] = refl
found_is_any p (r ∷ rs) = ground (arith, found_is_any p rs)

latest_is_any :
    (p : SmokeRender → Bool) (rs : List SmokeRender) → is_some (latest (filter p rs)) ≡ any p rs
latest_is_any p [] = refl
latest_is_any p (r ∷ rs) = ground (arith, latest_is_any p rs)

refusal_agrees :
    (db : SmokeDb) (tenant : Text) (bounds : SmokeRenderBounds) (now : ℕ)
    → is_some (describe_smoke_render_refusal db tenant bounds now)
      ≡ not (is_admitted db tenant bounds now)
unfolding describe_smoke_render_refusal
refusal_agrees db tenant bounds now =
    parts (find? (is_in_flight tenant bounds.in_flight_seconds now) db.renders)
      (latest (filter (is_cooling tenant bounds.cooldown_seconds now) db.renders))
      (found_is_any (is_in_flight tenant bounds.in_flight_seconds now) db.renders)
      (latest_is_any (is_cooling tenant bounds.cooldown_seconds now) db.renders)
  where
    parts :
        (f : Option SmokeRender) (l : Option ℕ)
        → is_some f ≡ any (is_in_flight tenant bounds.in_flight_seconds now) db.renders
        → is_some l ≡ any (is_cooling tenant bounds.cooldown_seconds now) db.renders
        → is_some (
            flight_refusal f (
              cooldown_refusal l bounds.cooldown_seconds
                (cap_refusal (count (is_within day_seconds now) db.renders) bounds.daily_cap)))
          ≡ not (is_admitted db tenant bounds now)
    parts (some r) l e k = ground arith
    parts none (some at) e k = ground arith
    parts none none e k = ground arith

-- The legible half agrees with the guard: for a known tenant and a fresh id, at one instant, the submit
-- creates no row and changes nothing if there is a reason to describe, and creates its row if there
-- is none.
pub open_smoke_render_described :
    (db : SmokeDb) (id tenant : Text) (release : Option Text) (bounds : SmokeRenderBounds) (now : ℕ)
    → any (has_render_id id) db.renders ≡ false
    → any (λ t. t == tenant) db.tenants ≡ true
    → open_smoke_render db id tenant release bounds now ≡ (
        if is_some (describe_smoke_render_refusal db tenant bounds now)
        then ok (db, none)
        else ok (
          record db { renders = db.renders ++ opened_render id tenant release now ∷ [] },
          some (opened_render id tenant release now),
        ))
unfolding open_smoke_render
open_smoke_render_described db id tenant release bounds now fresh known =
    rw (refusal_agrees db tenant bounds now, fresh, known) refl

-- The table after some submits, polls and outcomes, and the instant of the last of them. Every submit
-- is made under the same bounds.
pub data SmokeReach (bounds : SmokeRenderBounds) (tenants : List Text) : SmokeDb → ℕ → Type 0 where
  at_first : (now : ℕ) → SmokeReach bounds tenants (record { tenants = tenants; renders = [] }) now
  waits :
      {db : SmokeDb} {now : ℕ} (later : ℕ)
      → SmokeReach bounds tenants db now
      → now ≤ later
      → SmokeReach bounds tenants db later
  opens :
      {db db' : SmokeDb} {now : ℕ} {r : Option SmokeRender} (id tenant : Text)
      (release : Option Text)
      → SmokeReach bounds tenants db now
      → open_smoke_render db id tenant release bounds now ≡ ok (db', r)
      → SmokeReach bounds tenants db' now
  submits :
      {db : SmokeDb} {now : ℕ} (id job bundle : Text)
      → SmokeReach bounds tenants db now
      → SmokeReach bounds tenants (set_smoke_render_submitted db id job bundle now) now
  ends_with :
      {db : SmokeDb} {now : ℕ} (id : Text) (outcome : SmokeOutcome)
      → SmokeReach bounds tenants db now
      → SmokeReach bounds tenants (finish_smoke_render db id outcome now) now

count_later :
    (now later : ℕ) (rs : List SmokeRender)
    → now ≤ later
    → count (is_within day_seconds later) rs ≤ count (is_within day_seconds now) rs
count_later now later [] h = omega arith
count_later now later (r ∷ rs) h = ground (arith, count_later now later rs)

count-update_where :
    (now : ℕ) (p : SmokeRender → Bool) (f : SmokeRender → SmokeRender) (rs : List SmokeRender)
    → ((r : SmokeRender) → (f r).created_at ≡ r.created_at)
    → count (is_within day_seconds now) (update_where p f rs) ≡ count (is_within day_seconds now) rs
unfolding update_where
count-update_where now p f [] keeps = refl
count-update_where now p f (r ∷ rs) keeps =
    ground (arith, keeps r, count-update_where now p f rs keeps)

count_snoc :
    (p : SmokeRender → Bool) (rs : List SmokeRender) (r : SmokeRender)
    → count p (rs ++ r ∷ []) ≤ count p rs + 1
count_snoc p [] r = ground arith
count_snoc p (q ∷ rs) r = ground (arith, count_snoc p rs r)

finish_keeps :
    (outcome : SmokeOutcome) (now : ℕ) (r : SmokeRender)
    → (finish_with outcome now r).created_at ≡ r.created_at
finish_keeps (rendered artifact) now r = refl
finish_keeps (broke error) now r = refl

-- The spend bound: however the submits, polls and outcomes of any tenants follow on each other, no more
-- renders than the daily cap have been opened in the day that ends at any moment.
pub daily_cap_holds :
    (bounds : SmokeRenderBounds) (tenants : List Text) (db : SmokeDb) (now : ℕ)
    → SmokeReach bounds tenants db now
    → count (is_within day_seconds now) db.renders ≤ bounds.daily_cap
unfolding open_smoke_render set_smoke_render_submitted finish_smoke_render
daily_cap_holds bounds tenants db at (at_first now) = omega arith
daily_cap_holds bounds tenants db at (waits {now = before} later run order) =
    let held = daily_cap_holds bounds tenants db before run in
    ground (arith, count_later before at db.renders)
daily_cap_holds bounds tenants db at (opens {db = old} {r = made} id tenant release run h) =
    let held = daily_cap_holds bounds tenants old at run in
    elim (Bool-cases (is_admitted old tenant bounds at)) [
      | inl admitted ↦ elim (Bool-cases (any (has_render_id id) old.renders)) [
        | inl taken ↦ absurd (ground arith)
        | inr fresh ↦ elim (Bool-cases (any (λ t. t == tenant) old.tenants)) [
          | inl known ↦
              let same : old.renders ++ opened_render id tenant release at ∷ [] ≡ db.renders =
                ground arith in
              let one_more =
                count_snoc (is_within day_seconds at) old.renders
                  (opened_render id tenant release at) in
              let room : ltb (count (is_within day_seconds at) old.renders) bounds.daily_cap
                  ≡ true =
                ground arith in
              rw (← same) (
                below (count (is_within day_seconds at) old.renders) _ bounds.daily_cap room
                  one_more)
          | inr unknown ↦ absurd (ground arith)
        ]
      ]
      | inr refused ↦ let same : old.renders ≡ db.renders = ground arith in rw (← same) held
    ]
  where
    below : (n m cap : ℕ) → ltb n cap ≡ true → m ≤ n + 1 → m ≤ cap
    below n m cap room more = ground arith
daily_cap_holds bounds tenants db at (submits {db = old} id job bundle run) =
    let held = daily_cap_holds bounds tenants old at run in
    rw
      (count-update_where at (has_render_id id)
        (λ r. record r { studio_job_id = some job; bundle_key = some bundle; updated_at = at })
        old.renders (λ r. refl))
      held
daily_cap_holds bounds tenants db at (ends_with {db = old} id outcome run) =
    let held = daily_cap_holds bounds tenants old at run in
    rw
      (count-update_where at (is_open_render id) (finish_with outcome at) old.renders
        (finish_keeps outcome at))
      held
