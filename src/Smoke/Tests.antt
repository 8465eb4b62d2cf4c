-- ===== src/Smoke/Tests.antt =====
-- What the theorems on the spend guard say of one tenant and a cap of one.
use vivijure_control_plane.Prelude.{
  ◌≤◌, ◌≡◌, refl, none, some, [], ◌∷◌, ◌++◌, ok, count, is_some, if◌then◌else◌, arith,
}
use vivijure_control_plane.Prelude.Text.{Text, codes, text_beq}
use vivijure_control_plane.Smoke.{
  SmokeRenderBounds, SmokeDb, opened_render, open_smoke_render, describe_smoke_render_refusal,
  is_within, day_seconds, finish_smoke_render, broke,
}
use vivijure_control_plane.Smoke.Spend.{
  daily_cap_holds, open_smoke_render_described, at_first, waits, opens, ends_with,
}

abbrev one_a_day : SmokeRenderBounds
one_a_day = record { cooldown_seconds = 600; daily_cap = 1; in_flight_seconds = 900 }

abbrev t1 : Text
t1 = codes "t1"

abbrev empty_db : SmokeDb
empty_db = record { tenants = t1 ∷ []; renders = [] }

abbrev one_render : SmokeDb
one_render = record { tenants = t1 ∷ []; renders = opened_render (codes "s1") t1 none 1000 ∷ [] }

second_refused :
    open_smoke_render one_render (codes "s2") t1 none one_a_day 5000 ≡ ok (one_render, none)
unfolding open_smoke_render text_beq
second_refused = refl

daily_cap_holds_example :
    count
      (is_within day_seconds 5000)
      (finish_smoke_render one_render (codes "s1") (broke (codes "x")) 5000).renders
    ≤ 1
unfolding open_smoke_render text_beq
daily_cap_holds_example =
    daily_cap_holds one_a_day (t1 ∷ [])
      (finish_smoke_render one_render (codes "s1") (broke (codes "x")) 5000) 5000
      (ends_with (codes "s1") (broke (codes "x")) (
        opens (codes "s2") t1 none
          (waits 5000
            (opens {db = empty_db} {r = some (opened_render (codes "s1") t1 none 1000)} (codes "s1")
              t1 none (at_first 1000) refl)
            (omega arith))
          second_refused))

open_smoke_render_described_example :
    open_smoke_render one_render (codes "s2") t1 none one_a_day 1100 ≡ (
      if is_some (describe_smoke_render_refusal one_render t1 one_a_day 1100)
      then ok (one_render, none)
      else ok (
        record one_render {
          renders = one_render.renders ++ opened_render (codes "s2") t1 none 1100 ∷ [];
        },
        some (opened_render (codes "s2") t1 none 1100),
      ))
unfolding text_beq
open_smoke_render_described_example =
    open_smoke_render_described one_render (codes "s2") t1 none one_a_day 1100 refl refl
