-- ===== src/Prelude/Split.antt =====
-- `split` and `join` of the strings of the program, at one separating unit.
use vivijure_control_plane.Prelude.Tests.{◌==◌, nat_eq, if◌then◌else◌}
use vivijure_control_plane.Prelude.Text.{Text, starts_with}
use vivijure_control_plane.Prelude.Lists.{length, take}
use Prim.Native.Nat.{ℕ, ◌-◌}
use mathlib.Core.Bool.{Bool}
use mathlib.Core.List.{List, [], ◌∷◌, ◌++◌, reverse}

abbrev pub add_unit : ℕ → List Text → List Text
add_unit c [] = (c ∷ []) ∷ []
add_unit c (p ∷ ps) = (c ∷ p) ∷ ps

-- The parts between the separators; without one, the whole text.
unfoldable pub split : ℕ → Text → List Text
split sep [] = [] ∷ []
split sep (c ∷ t) = let rest = split sep t in if c == sep then [] ∷ rest else add_unit c rest

unfoldable pub join : Text → List Text → Text
join sep [] = []
join sep (p ∷ []) = p
join sep (p ∷ q ∷ ps) = p ++ (sep ++ join sep (q ∷ ps))

-- The part before the first separator, `t.split(sep)[0]`.
unfoldable pub first_part : ℕ → Text → Text
first_part sep [] = []
first_part sep (c ∷ t) = let rest = first_part sep t in if c == sep then [] else c ∷ rest

unfoldable pub ends_with : Text → Text → Bool
ends_with t s = starts_with (reverse t) (reverse s)

abbrev pub drop_last : ℕ → Text → Text
drop_last n t = take (length t - n) t
