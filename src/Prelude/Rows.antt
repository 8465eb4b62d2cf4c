-- ===== src/Prelude/Rows.antt =====
-- A table as the list of its rows, the UPDATE of the rows that a WHERE keeps, and a primary key.
use mathlib.Core.Path.{◌≡◌, refl, ap, ◌∙◌}
use mathlib.Core.Logic.{inl, inr}
use mathlib.Core.Bool.{Bool, false, ◌&&◌}
use mathlib.Core.Option.{Option, none, some}
use mathlib.Core.List.{List, [], ◌∷◌, ◌++◌}
use native.Mathlib.Omega.{arith}
use vivijure_control_plane.Prelude.Tests.{◌==◌, if◌then◌else◌, Bool-cases}
use vivijure_control_plane.Prelude.Lists.{any, find?, count}
use vivijure_control_plane.Prelude.Text.{Text, text_eq, text_beq_iff, text_beq_comm}
use vivijure_control_plane.Prelude.Distinct.{Distinct, Distinct-snoc}

module _ {ℓ} {A : Type ℓ} where
  unfoldable pub update_where : (A → Bool) → (A → A) → List A → List A
  update_where p f [] = []
  update_where p f (r ∷ rs) = (if p r then f r else r) ∷ update_where p f rs

  -- UPDATE … RETURNING *, read by `first`.
  unfoldable pub returning : (A → Bool) → (A → A) → List A → Option A
  returning p f rs = elim (find? p rs) [ none ↦ none | some r ↦ some (f r) ]

  pub update_where_idle :
      (p : A → Bool) (f : A → A) (rs : List A) → count p rs ≡ 0 → update_where p f rs ≡ rs
  unfolding update_where
  update_where_idle p f [] h = refl
  update_where_idle p f (r ∷ rs) h = ground (arith, update_where_idle p f rs)

  pub returning-none :
      (p : A → Bool) (f : A → A) (rs : List A) → count p rs ≡ 0 → returning p f rs ≡ none
  unfolding returning
  returning-none p f rs h = ground (arith, missing rs h)
    where
      missing : (xs : List A) → count p xs ≡ 0 → find? p xs ≡ none
      missing [] e = refl
      missing (x ∷ xs) e = ground (arith, missing xs)

-- A table with a primary key.
module _ {ℓ} {A : Type ℓ} (key : A → Text) where
  abbrev pub has_key : Text → A → Bool
  has_key x a = key a == x

  abbrev pub same_key : A → A → Bool
  same_key a b = key b == key a

  pub has_key_is : (x : Text) (rs : List A) (r : A) → find? (has_key x) rs ≡ some r → key r ≡ x
  has_key_is x [] r h = absurd (ground arith)
  has_key_is x (q ∷ rs) r h = ground (arith, has_key_is x rs r, text_beq_iff (key q) x)

  none_after :
      (x : Text) (p : A → Bool) (a : A) (rs : List A)
      → any (same_key a) rs ≡ false
      → key a ≡ x
      → count (λ b. has_key x b && p b) rs ≡ 0
  none_after x p a [] h e = refl
  none_after x p a (b ∷ rs) h e =
      ground (arith, none_after x p a rs, text_beq_iff (key b) x, text_beq_iff (key b) (key a))

  -- By the key, a guarded WHERE meets the row with the key, or none.
  pub count_found :
      (x : Text) (p : A → Bool) (rs : List A) (r : A)
      → Distinct same_key rs
      → find? (has_key x) rs ≡ some r
      → count (λ b. has_key x b && p b) rs ≡ (if p r then 1 else 0)
  count_found x p [] r d h = absurd (ground arith)
  count_found x p (q ∷ rs) r (d, ds) h = elim (Bool-cases (has_key x q)) [
    | inl hit ↦
        let is_row : q ≡ r = ground arith in
        let rest = none_after x p q rs d ((text_beq_iff (key q) x).0 hit) in ground (arith, rest)
    | inr miss ↦ ground (arith, count_found x p rs r ds)
  ]

  pub count_missing :
      (x : Text) (p : A → Bool) (rs : List A)
      → find? (has_key x) rs ≡ none
      → count (λ b. has_key x b && p b) rs ≡ 0
  count_missing x p [] h = refl
  count_missing x p (q ∷ rs) h = ground (arith, count_missing x p rs)

  pub find?-guarded :
      (x : Text) (p : A → Bool) (rs : List A) (r : A)
      → Distinct same_key rs
      → find? (has_key x) rs ≡ some r
      → find? (λ b. has_key x b && p b) rs ≡ (if p r then some r else none)
  find?-guarded x p [] r d h = absurd (ground arith)
  find?-guarded x p (q ∷ rs) r (d, ds) h = elim (Bool-cases (has_key x q)) [
    | inl hit ↦
        let is_row : q ≡ r = ground arith in
        let rest = nothing rs d ((text_beq_iff (key q) x).0 hit) in ground (arith, rest)
    | inr miss ↦ ground (arith, find?-guarded x p rs r ds)
  ]
    where
      nothing :
          (bs : List A)
          → any (same_key q) bs ≡ false
          → key q ≡ x
          → find? (λ b. has_key x b && p b) bs ≡ none
      nothing [] a e = refl
      nothing (b ∷ bs) a e =
          ground (arith, nothing bs, text_beq_iff (key b) x, text_beq_iff (key b) (key q))

  module _ (p : A → Bool) (f : A → A) (keeps : (a : A) → key (f a) ≡ key a) where
    has_key-f : (x : Text) (a : A) → has_key x (f a) ≡ has_key x a
    has_key-f x a = ap (λ k. k == x) (keeps a)

    pub find?-update_where :
        (x : Text) (rs : List A) (r : A)
        → find? (has_key x) rs ≡ some r
        → find? (has_key x) (update_where p f rs) ≡ some (if p r then f r else r)
    unfolding update_where
    find?-update_where x [] r h = absurd (ground arith)
    find?-update_where x (q ∷ rs) r h = ground (arith, find?-update_where x rs r, has_key-f x q)

    pub find?-update_where-none :
        (x : Text) (rs : List A)
        → find? (has_key x) rs ≡ none
        → find? (has_key x) (update_where p f rs) ≡ none
    unfolding update_where
    find?-update_where-none x [] h = refl
    find?-update_where-none x (q ∷ rs) h =
        ground (arith, find?-update_where-none x rs, has_key-f x q)

    any_key-update_where :
        (a : A) (rs : List A) → any (same_key a) (update_where p f rs) ≡ any (same_key a) rs
    unfolding update_where
    any_key-update_where a [] = refl
    any_key-update_where a (q ∷ rs) = ground (arith, any_key-update_where a rs, has_key-f (key a) q)

    pub Distinct-update_where :
        (rs : List A) → Distinct same_key rs → Distinct same_key (update_where p f rs)
    unfolding update_where
    Distinct-update_where [] d = tt
    Distinct-update_where (r ∷ rs) (d, ds) =
        let rest = Distinct-update_where rs ds in
        elim (Bool-cases (p r)) [
          | inl hit ↦ rw hit (
            ap (λ k. any (λ b. key b == k) (update_where p f rs)) (keeps r)
                ∙ any_key-update_where r rs
                ∙ d,
            rest,
          )
          | inr miss ↦ rw miss (any_key-update_where r rs ∙ d, rest)
        ]

  pub Distinct-insert :
      (rs : List A) (r : A)
      → Distinct same_key rs
      → any (has_key (key r)) rs ≡ false
      → Distinct same_key (rs ++ r ∷ [])
  Distinct-insert rs r d new =
      Distinct-snoc same_key (λ a b. text_beq_comm (key b) (key a)) rs r d new
