-- ===== src/Prelude/Decimal.antt =====
-- Numbers as text: `String(n)`, `padStart`, and `Number` on a run of decimal digits.
use mathlib.Core.List.{foldl}
use vivijure_control_plane.Prelude.{
  ℕ, zero, suc, ◌+◌, ◌*◌, ◌/◌, ◌%◌, ◌-◌, ◌≤◌, ◌<◌, ◌≡◌, refl, ◌∙◌, Bool, true, false, [], ◌∷◌, ◌++◌,
  arith, ltb, length, all, if◌then◌else◌, Bool-cases, inl, inr, ap, length-append,
}
use vivijure_control_plane.Prelude.Int.{ℤ, pos, negsuc}
use vivijure_control_plane.Prelude.Text.{Text, is_digit, is_space, IsTight}

-- The digits of `n` before those of `rest`; the fuel bounds the number of digits.
digits_before : ℕ → ℕ → Text → Text
digits_before zero n rest = rest
digits_before (suc f) n rest =
    let c = 48 + n % 10 in
    let more = digits_before f (n / 10) (c ∷ rest) in if ltb n 10 then c ∷ rest else more

-- `String(n)` of a whole number below 10²¹.
unfoldable pub decimal : ℕ → Text
unfolding digits_before
decimal n = digits_before (suc n) n []

abbrev replicate : ℕ → ℕ → Text
replicate zero c = []
replicate (suc n) c = c ∷ replicate n c

-- `padStart(width, "0")`.
unfoldable pub pad_zero : ℕ → Text → Text
pad_zero width t = replicate (width - length t) 48 ++ t

abbrev pub add_digit : ℕ → ℕ → ℕ
add_digit n c = n * 10 + (c - 48)

-- `Number(t)` of a run of digits, exact.
unfoldable pub number_of : Text → ℕ
number_of = foldl add_digit 0

-- `/^[0-9]+$/`.
unfoldable pub is_digits : Text → Bool
is_digits [] = false
is_digits (c ∷ t) = all is_digit (c ∷ t)

number_of-digits_before :
    (f n : ℕ) (rest : Text)
    → n < f
    → foldl add_digit 0 (digits_before f n rest) ≡ foldl add_digit n rest
unfolding digits_before
number_of-digits_before zero n rest h = elim h [ ]
number_of-digits_before (suc f) n rest h = elim (Bool-cases (ltb n 10)) [
  | inl small ↦
      let e : 0 * 10 + (48 + n % 10 - 48) ≡ n = ground arith in
      rw small (ap (λ k. foldl add_digit k rest) e)
  | inr large ↦
      let e : n / 10 * 10 + (48 + n % 10 - 48) ≡ n = omega arith in
      rw large (
        number_of-digits_before f (n / 10) ((48 + n % 10) ∷ rest) (ground arith)
        ∙ ap (λ k. foldl add_digit k rest) e)
]

-- Reading back the digits of a number gives the number.
pub number_of-decimal : (n : ℕ) → number_of (decimal n) ≡ n
unfolding number_of decimal
number_of-decimal n = number_of-digits_before (suc n) n [] (omega arith)

number_of-zeros : (k : ℕ) (t : Text) → foldl add_digit 0 (replicate k 48 ++ t) ≡ foldl add_digit 0 t
number_of-zeros zero t = refl
number_of-zeros (suc k) t = number_of-zeros k t

pub number_of-pad_zero : (w : ℕ) (t : Text) → number_of (pad_zero w t) ≡ number_of t
unfolding number_of pad_zero
number_of-pad_zero w t = number_of-zeros (w - length t) t

all-digits_before :
    (f n : ℕ) (rest : Text)
    → all is_digit rest ≡ true
    → all is_digit (digits_before f n rest) ≡ true
unfolding digits_before
all-digits_before zero n rest h = h
all-digits_before (suc f) n rest h =
    let digit : is_digit (48 + n % 10) ≡ true = ground arith in
    let more : all is_digit ((48 + n % 10) ∷ rest) ≡ true = ground arith in
    elim (Bool-cases (ltb n 10)) [
      | inl small ↦ rw small more
      | inr large ↦ rw large (all-digits_before f (n / 10) ((48 + n % 10) ∷ rest) more)
    ]

pub all-decimal : (n : ℕ) → all is_digit (decimal n) ≡ true
unfolding decimal
all-decimal n = all-digits_before (suc n) n [] refl

length-digits_before : (f n : ℕ) (rest : Text) → length rest ≤ length (digits_before f n rest)
unfolding digits_before
length-digits_before zero n rest = omega arith
length-digits_before (suc f) n rest =
    ground (arith, length-digits_before f (n / 10) ((48 + n % 10) ∷ rest))

length-decimal_pos : (n : ℕ) → 0 < length (decimal n)
unfolding decimal digits_before
length-decimal_pos n = ground (arith, length-digits_before n (n / 10) ((48 + n % 10) ∷ []))

is_digits_of_all : (t : Text) → 0 < length t → all is_digit t ≡ true → is_digits t ≡ true
unfolding is_digits
is_digits_of_all [] h a = elim h [ ]
is_digits_of_all (c ∷ t) h a = a

pub is_digits-decimal : (n : ℕ) → is_digits (decimal n) ≡ true
is_digits-decimal n = is_digits_of_all (decimal n) (length-decimal_pos n) (all-decimal n)

digit-tight : (c : ℕ) → is_digit c ≡ true → is_space c ≡ false
unfolding is_space
digit-tight c h = ground arith

pub IsTight-digits : (t : Text) → all is_digit t ≡ true → IsTight t
IsTight-digits [] h = tt
IsTight-digits (c ∷ t) h =
    let p : is_digit c ≡ true = ground arith in
    let q : all is_digit t ≡ true = ground arith in (digit-tight c p, IsTight-digits t q)

-- At most `w` digits are padded to exactly `w`.
pub length-pad_zero : (w : ℕ) (t : Text) → length t ≤ w → length (pad_zero w t) ≡ w
unfolding pad_zero
length-pad_zero w t h = rw length-append (omega (arith, length-replicate (w - length t) 48))
  where
    length-replicate : (n c : ℕ) → length (replicate n c) ≡ n
    length-replicate zero c = refl
    length-replicate (suc n) c = ap suc (length-replicate n c)

all-replicate :
    (n : ℕ) (t : Text) → all is_digit t ≡ true → all is_digit (replicate n 48 ++ t) ≡ true
all-replicate zero t h = h
all-replicate (suc n) t h = ground (arith, all-replicate n t h)

pub all-pad_zero : (w n : ℕ) → all is_digit (pad_zero w (decimal n)) ≡ true
unfolding pad_zero
all-pad_zero w n = all-replicate (w - length (decimal n)) (decimal n) (all-decimal n)

-- 10 to the power `k`.
abbrev pub bound : ℕ → ℕ
bound zero = 1
bound (suc k) = 10 * bound k

length-digits_before-le :
    (f k n : ℕ) (rest : Text)
    → n < bound (suc k)
    → length (digits_before f n rest) ≤ suc k + length rest
unfolding digits_before
length-digits_before-le zero k n rest h = omega arith
length-digits_before-le (suc f) zero n rest h = ground arith
length-digits_before-le (suc f) (suc k) n rest h =
    ground (arith, length-digits_before-le f k (n / 10) ((48 + n % 10) ∷ rest))

-- A number below the power of ten has at most so many digits.
pub length-decimal-le : (k n : ℕ) → n < bound (suc k) → length (decimal n) ≤ suc k
unfolding decimal
length-decimal-le k n h = omega (arith, length-digits_before-le (suc n) k n [] h)

-- `String` of a whole number.
unfoldable pub print_ℤ : ℤ → Text
unfolding decimal
print_ℤ (pos n) = decimal n
print_ℤ (negsuc n) = 45 ∷ decimal (suc n)
