-- ===== src/Credits/Submit.antt =====
-- The submit gate and the enforcement knob of src/credits.ts.
use vivijure_control_plane.Prelude.{
  ◌≡◌, ◌⊎◌, ◌↔◌, Bool, true, false, Option, none, some, arith, is_some,
}
use vivijure_control_plane.Prelude.Int.{ℤ, ◌≤ℤ◌}
use vivijure_control_plane.Prelude.Text.{Text}
use vivijure_control_plane.Credits.{
  Balance, SubmitVerdict, Denied, allow, deny, decide_submit, credits_enforcement_state,
  parse_enforcing, insufficient_credit, balance_unknown,
}

abbrev pub Permits : SubmitVerdict → Type 0
Permits (allow _) = Unit
Permits (deny _) = ⊥

-- A submission is permitted exactly when the plane is counting, or the balance was read completely
-- and covers what is required.
pub decide_submit-Permits_iff :
    (b : Balance) (required : ℤ) (enforcing : Bool)
    → Permits (decide_submit b required enforcing)
      ↔ ((enforcing ≡ false) ⊎ ((b.complete ≡ true) × (required ≤ℤ b.available_micro_usd)))
unfolding decide_submit
decide_submit-Permits_iff b required enforcing = ground arith

-- A refusal that tells an available amount tells the balance's own, and one for an unknown balance
-- tells none.
pub decide_submit_refusal :
    (b : Balance) (required : ℤ) (enforcing : Bool) (d : Denied)
    → decide_submit b required enforcing ≡ deny d
    → (enforcing ≡ true)
      × (((d.reason ≡ balance_unknown) × (b.complete ≡ false) × (d.available_micro_usd ≡ none))
          ⊎ ((d.reason ≡ insufficient_credit)
              × (b.complete ≡ true)
              × (d.available_micro_usd ≡ some b.available_micro_usd)))
unfolding decide_submit
decide_submit_refusal b required enforcing d h = ground arith

-- The knob never claims an enforcement that no gate applies, and a reason is given exactly when
-- what is configured and what is applied differ.
pub credits_enforcement_state_lem :
    (raw : Option Text)
    → let s = credits_enforcement_state raw in
      (s.applied ≡ false) × (s.configured ≡ parse_enforcing raw) × (is_some s.reason ≡ s.configured)
unfolding credits_enforcement_state
credits_enforcement_state_lem raw = ground arith
