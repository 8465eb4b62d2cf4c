-- ===== src/Prelude/Text.antt =====
-- The strings of the program: sequences of UTF-16 code units.
use Prim.Native.Nat.{ℕ, ◌+◌}
use Prim.Native.Char.{code}
use Prim.Native.String.{String}
use mathlib.Core.Path.{◌≡◌, refl}
use mathlib.Core.Logic.{◌↔◌}
use mathlib.Core.Bool.{Bool, true, false, ◌&&◌, ◌||◌}
use mathlib.Core.List.{List, [], ◌∷◌, ◌++◌, map, reverse, reverse-cons, reverse-reverse}
use native.Mathlib.Omega.{arith}
use vivijure_control_plane.Prelude.Tests.{Eq, ◌==◌, nat_eq, leb, if◌then◌else◌}

abbrev pub Text : Type 0
Text = List ℕ

-- A literal of the source: every literal that the model names is ASCII.
abbrev pub codes : String → Text
codes String.[] = []
codes (String.◌∷◌ c s) = code c ∷ codes s

unfoldable pub text_beq : Text → Text → Bool
text_beq [] [] = true
text_beq (x ∷ xs) (y ∷ ys) = x == y && text_beq xs ys
text_beq _ _ = false

pub text_beq_iff : (a b : Text) → (text_beq a b ≡ true) ↔ (a ≡ b)
unfolding text_beq
text_beq_iff [] [] = ground arith
text_beq_iff (x ∷ xs) (y ∷ ys) = ground (arith, text_beq_iff xs ys)
text_beq_iff [] (y ∷ ys) = ground arith
text_beq_iff (x ∷ xs) [] = ground arith

instance abbrev pub text_eq : Eq Text
text_eq = record { same = text_beq; same_iff = text_beq_iff }

pub text_beq_refl : (a : Text) → text_beq a a ≡ true
text_beq_refl a = (text_beq_iff a a).1 refl

-- A white space unit, as `trim` reads it.
unfoldable pub is_space : ℕ → Bool
is_space c =
    (leb 9 c && leb c 13)
    || c == 0x20
    || c == 0xA0
    || c == 0x1680
    || (leb 0x2000 c && leb c 0x200A)
    || c == 0x2028
    || c == 0x2029
    || c == 0x202F
    || c == 0x205F
    || c == 0x3000
    || c == 0xFEFF

unfoldable pub trim_start : Text → Text
unfolding is_space
trim_start [] = []
trim_start (c ∷ t) = if is_space c then trim_start t else c ∷ t

-- `String.prototype.trim`.
unfoldable pub trim : Text → Text
unfolding trim_start
trim t = reverse (trim_start (reverse (trim_start t)))

-- `toLowerCase` as far as its result can be ASCII: A to Z, and the Kelvin sign.
unfoldable pub to_lower : ℕ → ℕ
to_lower c = if leb 65 c && leb c 90 then c + 32 else if c == 0x212A then 107 else c

unfoldable pub lower : Text → Text
unfolding to_lower
lower = map to_lower

abbrev pub is_digit : ℕ → Bool
is_digit c = leb 48 c && leb c 57

unfoldable pub starts_with : Text → Text → Bool
starts_with t [] = true
starts_with [] (c ∷ p) = false
starts_with (d ∷ t) (c ∷ p) = d == c && starts_with t p

-- `a ?? b` and `x ? a : b` on a possibly missing text; the empty text counts as missing.
abbrev pub is_empty : Text → Bool
is_empty [] = true
is_empty (_ ∷ _) = false

-- No unit at either end is white space, so `trim` leaves the text alone.
abbrev pub IsTight : Text → Type 0
IsTight [] = Unit
IsTight (c ∷ t) = (is_space c ≡ false) × IsTight t

pub IsTight-append : (a b : Text) → IsTight a → IsTight b → IsTight (a ++ b)
IsTight-append [] b h k = k
IsTight-append (c ∷ a) b (p, h) k = (p, IsTight-append a b h k)

IsTight-reverse : (a : Text) → IsTight a → IsTight (reverse a)
IsTight-reverse [] h = tt
IsTight-reverse (c ∷ a) (p, h) =
    rw reverse-cons (IsTight-append (reverse a) (c ∷ []) (IsTight-reverse a h) (p, tt))

trim_start-tight : (a : Text) → IsTight a → trim_start a ≡ a
unfolding trim_start
trim_start-tight [] h = refl
trim_start-tight (c ∷ a) (p, h) = rw p

pub trim-tight : (a : Text) → IsTight a → trim a ≡ a
unfolding trim
trim-tight a h =
    rw (trim_start-tight a h, trim_start-tight (reverse a) (IsTight-reverse a h), reverse-reverse)

pub text_beq_comm : (a b : Text) → text_beq a b ≡ text_beq b a
unfolding text_beq
text_beq_comm [] [] = refl
text_beq_comm (x ∷ xs) (y ∷ ys) = ground (arith, text_beq_comm xs ys)
text_beq_comm [] (y ∷ ys) = refl
text_beq_comm (x ∷ xs) [] = refl
