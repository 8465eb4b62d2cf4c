-- ===== src/Access/Once.antt =====
-- A one-time token is used once, whatever is issued and tried afterwards.
use vivijure_control_plane.Prelude.{
  ℕ, ◌≡◌, ◌∙◌, refl, ap, subst, Bool, true, false, not, ◌&&◌, Option, none, some, List, [], ◌∷◌,
  ◌++◌, ok, arith, any, find?, count, is_some, ltb, nat_eq, if◌then◌else◌, Option-cases, inl, inr,
  find?-append_some,
}
use vivijure_control_plane.Prelude.Text.{Text, text_eq, text_beq_iff}
use vivijure_control_plane.Prelude.Distinct.{Distinct}
use vivijure_control_plane.Prelude.Rows.{
  update_where, returning, has_key, has_key_is, same_key, update_where_idle, returning-none,
  count_found, count_missing, find?-guarded, find?-update_where, Distinct-update_where,
  Distinct-insert,
}
use vivijure_control_plane.Access.Tokens.{OneTime, is_usable_at, consume, issue}

module _ {ℓ} {A : Type ℓ} (table : OneTime A) where
  -- A token is issued, or someone tries to use one.
  pub data TokenStep (rows : List A) : List A → Type ℓ where
    issues : {rows' : List A} (a : A) → issue table rows a ≡ ok rows' → TokenStep rows rows'
    tries : (key : Text) (now : ℕ) → TokenStep rows (consume table rows key now).0

  pub data TokenReach (start : List A) : List A → Type ℓ where
    unused : TokenReach start start
    then_use :
        {rows rows' : List A}
        → TokenReach start rows
        → TokenStep rows rows'
        → TokenReach start rows'

  -- The row of a token that has been used.
  pub record IsSpent (rows : List A) (key : Text) : Type ℓ where
    pub row : A
    pub distinct : Distinct (same_key table.key) rows
    pub found : find? (has_key table.key key) rows ≡ some row
    pub spent : is_some (table.consumed row) ≡ true

  tries-IsSpent :
      (rows : List A) (x key : Text) (now : ℕ)
      → IsSpent rows x
      → IsSpent (consume table rows key now).0 x
  unfolding consume
  tries-IsSpent rows x key now s =
      let p : A → Bool = λ a. has_key table.key key a && is_usable_at table now a in
      record {
        row = s.row;
        distinct =
            Distinct-update_where table.key p (table.consume_at now) (table.key_kept now) rows
              s.distinct;
        found =
            find?-update_where table.key p (table.consume_at now) (table.key_kept now) x rows s.row
              s.found
            ∙ still (has_key table.key key s.row) (table.consumed s.row) s.spent;
        spent = s.spent;
      }
    where
      still :
          (hit : Bool) (c : Option ℕ)
          → is_some c ≡ true
          → ◌≡◌ {A = Option A}
              (some (
                if hit && (not (is_some c) && ltb now (table.expires s.row))
                then table.consume_at now s.row
                else s.row))
              (some s.row)
      still hit c h = ground arith

  step-IsSpent :
      {rows rows' : List A} (x : Text) → TokenStep rows rows' → IsSpent rows x → IsSpent rows' x
  unfolding issue
  step-IsSpent {rows} {rows'} x (issues a h) s =
      let new : any (has_key table.key (table.key a)) rows ≡ false = ground arith in
      let same : rows ++ a ∷ [] ≡ rows' = ground arith in
      subst (λ r. IsSpent r x) same
        (record {
          row = s.row;
          distinct = Distinct-insert table.key rows a s.distinct new;
          found = find?-append_some (has_key table.key x) rows (a ∷ []) s.row s.found;
          spent = s.spent;
        })
  step-IsSpent {rows} x (tries key now) s = tries-IsSpent rows x key now s

  reach-IsSpent :
      {rows rows' : List A} (x : Text) → TokenReach rows rows' → IsSpent rows x → IsSpent rows' x
  reach-IsSpent x unused s = s
  reach-IsSpent x (then_use r step) s = step-IsSpent x step (reach-IsSpent x r s)

  spent_refused :
      (rows : List A) (x : Text) (now : ℕ)
      → IsSpent rows x
      → consume table rows x now ≡ (rows, none)
  unfolding consume
  spent_refused rows x now s =
      let none_met : count (λ a. has_key table.key x a && is_usable_at table now a) rows ≡ 0 =
        count_found table.key x (is_usable_at table now) rows s.row s.distinct s.found
        ∙ shut (table.consumed s.row) s.spent in
      rw
        (
          update_where_idle (λ a. has_key table.key x a && is_usable_at table now a)
              (table.consume_at now) rows none_met,
          returning-none (λ a. has_key table.key x a && is_usable_at table now a)
              (table.consume_at now) rows none_met,
        )
        refl
    where
      shut :
          (c : Option ℕ)
          → is_some c ≡ true
          → ◌≡◌ {A = ℕ} (if not (is_some c) && ltb now (table.expires s.row) then 1 else 0) 0
      shut c h = ground arith

  first_use :
      (rows rows' : List A) (x : Text) (now : ℕ) (a : A)
      → Distinct (same_key table.key) rows
      → consume table rows x now ≡ (rows', some a)
      → IsSpent rows' x
        × ((old : A) × (find? (has_key table.key x) rows ≡ some old)
            × (is_usable_at table now old ≡ true))
  unfolding consume returning
  first_use rows rows' x now a distinct won =
      let p : A → Bool = λ b. has_key table.key x b && is_usable_at table now b in
      let same : update_where p (table.consume_at now) rows ≡ rows' =
        ap (λ (q : List A × Option A). q.0) won in
      let answer : returning p (table.consume_at now) rows ≡ some a =
        ap (λ (q : List A × Option A). q.1) won in
      elim (Option-cases (find? (has_key table.key x) rows)) [
        | inl absent ↦ absurd (
            ground (
              arith,
              returning-none p (table.consume_at now) rows
                  (count_missing table.key x (is_usable_at table now) rows absent),
            ))
        | inr (old, found) ↦
            let met = find?-guarded table.key x (is_usable_at table now) rows old distinct found in
            let live : is_usable_at table now old ≡ true = ground (arith, met) in
            let hit : has_key table.key x old ≡ true =
              (text_beq_iff (table.key old) x).1 (has_key_is table.key x rows old found) in
            (
              subst (λ r. IsSpent r x) same
                  (record {
                    row = table.consume_at now old;
                    distinct =
                        Distinct-update_where table.key p (table.consume_at now)
                          (table.key_kept now) rows distinct;
                    found =
                        find?-update_where table.key p (table.consume_at now) (table.key_kept now) x
                          rows old found
                        ∙ rw (hit, live) refl;
                    spent = rw (table.marked now old) refl;
                  }),
              (old, found, live),
            )
      ]

  -- A token is used at most once: what a use answers was in the table, not yet used and not expired,
  -- and after it no try with that key answers anything or changes anything, whatever is issued and
  -- tried in between.
  pub consume_once :
      (rows mid last : List A) (x : Text) (now later : ℕ) (a : A)
      → Distinct (same_key table.key) rows
      → consume table rows x now ≡ (mid, some a)
      → TokenReach mid last
      → ((old : A) × (find? (has_key table.key x) rows ≡ some old)
          × (is_usable_at table now old ≡ true))
        × (consume table last x later ≡ (last, none))
  consume_once rows mid last x now later a distinct won run =
      let (s, was) = first_use rows mid x now a distinct won in
      (was, spent_refused last x later (reach-IsSpent x run s))
