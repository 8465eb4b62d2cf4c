-- ===== src/Prelude/Distinct.antt =====
-- Lists whose elements differ pairwise by a Boolean test, as a unique index keeps a table's rows.
use vivijure_control_plane.Prelude.{◌≡◌, refl, Bool, false, List, [], ◌∷◌, ◌++◌, arith, any}

module _ {ℓ} {A : Type ℓ} where
  abbrev pub Distinct : (A → A → Bool) → List A → Type 0
  Distinct same [] = Unit
  Distinct same (x ∷ xs) = (any (same x) xs ≡ false) × Distinct same xs

  any-snoc_false :
      (p : A → Bool) (xs : List A) (r : A)
      → any p xs ≡ false
      → p r ≡ false
      → any p (xs ++ r ∷ []) ≡ false
  any-snoc_false p [] r h k = ground arith
  any-snoc_false p (x ∷ xs) r h k = ground (arith, any-snoc_false p xs r)

  -- A row that meets no row of the table can be added at its end.
  pub Distinct-snoc :
      (same : A → A → Bool) (comm : (a b : A) → same a b ≡ same b a) (xs : List A) (r : A)
      → Distinct same xs
      → any (same r) xs ≡ false
      → Distinct same (xs ++ r ∷ [])
  Distinct-snoc same comm [] r h k = (refl, tt)
  Distinct-snoc same comm (x ∷ xs) r (h, hs) k =
      let here : same x r ≡ false = ground (arith, comm x r) in
      let later : any (same r) xs ≡ false = ground arith in
      (any-snoc_false (same x) xs r h here, Distinct-snoc same comm xs r hs later)
