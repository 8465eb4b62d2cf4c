-- ===== src/Prelude/Sort.antt =====
-- ORDER BY and `Array.prototype.sort` on texts: a stable insertion sort by code units.
use mathlib.Core.Path.{◌≡◌, refl, ◌∙◌}
use mathlib.Core.Logic.{inl, inr}
use mathlib.Core.Bool.{Bool, true, false, ◌&&◌, ◌||◌}
use mathlib.Core.List.{List, [], ◌∷◌}
use native.Mathlib.Omega.{arith}
use vivijure_control_plane.Prelude.Tests.{◌==◌, nat_eq, ltb, if◌then◌else◌, Bool-cases}
use vivijure_control_plane.Prelude.Lists.{any, all, count}
use vivijure_control_plane.Prelude.Text.{Text}

unfoldable pub text_leb : Text → Text → Bool
text_leb [] t = true
text_leb (a ∷ s) [] = false
text_leb (a ∷ s) (b ∷ t) = ltb a b || (a == b && text_leb s t)

module _ {ℓ} {A : Type ℓ} (key : A → Text) where
  unfoldable pub insert_by : A → List A → List A
  unfolding text_leb
  insert_by a [] = a ∷ []
  insert_by a (b ∷ bs) =
      let rest = insert_by a bs in if text_leb (key a) (key b) then a ∷ b ∷ bs else b ∷ rest

  unfoldable pub sort_by : List A → List A
  unfolding insert_by
  sort_by [] = []
  sort_by (a ∷ rs) = insert_by a (sort_by rs)

  count-insert_by :
      (p : A → Bool) (a : A) (bs : List A) → count p (insert_by a bs) ≡ count p (a ∷ bs)
  unfolding insert_by
  count-insert_by p a [] = refl
  count-insert_by p a (b ∷ bs) = elim (Bool-cases (text_leb (key a) (key b))) [
    | inl before ↦ rw before refl
    | inr later ↦ rw (later, count-insert_by p a bs) (ground arith)
  ]

  any-insert_by : (p : A → Bool) (a : A) (bs : List A) → any p (insert_by a bs) ≡ any p (a ∷ bs)
  unfolding insert_by
  any-insert_by p a [] = refl
  any-insert_by p a (b ∷ bs) = elim (Bool-cases (text_leb (key a) (key b))) [
    | inl before ↦ rw before refl
    | inr later ↦ rw (later, any-insert_by p a bs) (ground arith)
  ]

  all-insert_by : (p : A → Bool) (a : A) (bs : List A) → all p (insert_by a bs) ≡ all p (a ∷ bs)
  unfolding insert_by
  all-insert_by p a [] = refl
  all-insert_by p a (b ∷ bs) = elim (Bool-cases (text_leb (key a) (key b))) [
    | inl before ↦ rw before refl
    | inr later ↦ rw (later, all-insert_by p a bs) (ground arith)
  ]

  pub count-sort_by : (p : A → Bool) (rs : List A) → count p (sort_by rs) ≡ count p rs
  unfolding sort_by
  count-sort_by p [] = refl
  count-sort_by p (a ∷ rs) = count-insert_by p a (sort_by rs) ∙ (ground (arith, count-sort_by p rs))

  pub any-sort_by : (p : A → Bool) (rs : List A) → any p (sort_by rs) ≡ any p rs
  unfolding sort_by
  any-sort_by p [] = refl
  any-sort_by p (a ∷ rs) = any-insert_by p a (sort_by rs) ∙ ground (arith, any-sort_by p rs)

  pub all-sort_by : (p : A → Bool) (rs : List A) → all p (sort_by rs) ≡ all p rs
  unfolding sort_by
  all-sort_by p [] = refl
  all-sort_by p (a ∷ rs) = all-insert_by p a (sort_by rs) ∙ ground (arith, all-sort_by p rs)

  pub sort_by_empty : (rs : List A) → sort_by rs ≡ [] → rs ≡ []
  unfolding sort_by
  sort_by_empty [] h = refl
  sort_by_empty (a ∷ rs) h = absurd (ground (arith, count-insert_by (λ b. true) a (sort_by rs)))
