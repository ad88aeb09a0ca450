-- ===== src/Base/Decimal.antt =====
-- Decimal numerals: `%d` and strconv.Itoa to print, strconv.Atoi to read.
use Prim.Native.Nat.{ℕ, zero, suc, ◌+◌, ◌-◌, ◌*◌, ◌/◌, ◌%◌, ◌<◌}
use mathlib.Core.Path.{◌≡◌, refl, ap, sym, ◌∙◌}
use mathlib.Core.Logic.{inl, inr}
use mathlib.Core.Bool.{Bool, true, false, ◌&&◌}
use mathlib.Core.Option.{Option, none, some}
use mathlib.Core.List.{[], ◌∷◌}
use native.Mathlib.Omega.{arith}
use nnel.Base.Tests.{nat_eqb, leb, ltb, if◌then◌else◌, Bool-cases}
use nnel.Base.Bytes.{Text}
use nnel.Base.Strings.{contains}
use nnel.Base.Int.{ℤ, pos, negsuc, is_int64}

-- The digits of `n` in front of `rest`; a fuel above `n` is enough.
unfoldable pub print_digits : ℕ → ℕ → Text → Text
print_digits zero n rest = rest
print_digits (suc f) n rest =
    let more = print_digits f (n / 10) ((b'0' + n % 10) ∷ rest) in
    if ltb n 10 then (b'0' + n) ∷ rest else more

unfoldable pub print_nat : ℕ → Text
unfolding print_digits
print_nat n = print_digits (suc n) n []

unfoldable pub print_int : ℤ → Text
unfolding print_nat
print_int (pos n) = print_nat n
print_int (negsuc n) = b'-' ∷ print_nat (suc n)

abbrev pub is_digit : ℕ → Bool
is_digit c = leb b'0' c && leb c b'9'

-- The value of a run of digits, from the value of those before it.
unfoldable pub read_digits : ℕ → Text → Option ℕ
read_digits acc [] = some acc
read_digits acc (c ∷ s) =
    let rest = read_digits (10 * acc + (c - b'0')) s in if is_digit c then rest else none

unfoldable pub read_nat : Text → Option ℕ
unfolding read_digits
read_nat [] = none
read_nat (c ∷ s) = read_digits 0 (c ∷ s)

-- A value outside int64 is an error.
abbrev pub in_range : ℤ → Option ℤ
in_range n = if is_int64 n then some n else none

abbrev pub negate : ℕ → ℤ
negate zero = pos 0
negate (suc n) = negsuc n

unfoldable pub atoi : Text → Option ℤ
unfolding read_nat
atoi [] = none
atoi (c ∷ s) =
    if nat_eqb c b'-'
    then elim (read_nat s) [ none ↦ none | some n ↦ in_range (negate n) ]
    else if nat_eqb c b'+'
    then elim (read_nat s) [ none ↦ none | some n ↦ in_range (pos n) ]
    else elim (read_nat (c ∷ s)) [ none ↦ none | some n ↦ in_range (pos n) ]

-- Reading goes on after the digits.
read-print_digits :
    (f n : ℕ) (rest : Text) → n < f → read_digits 0 (print_digits f n rest) ≡ read_digits n rest
unfolding read_digits print_digits
read-print_digits zero n rest h = elim h [ ]
read-print_digits (suc f) n rest h =
    ground (arith, read-print_digits f (n / 10) ((b'0' + n % 10) ∷ rest))

head_digit :
    (f n : ℕ) (rest : Text)
    → n < f
    → (d : ℕ) × (t : Text) × (print_digits f n rest ≡ d ∷ t) × (is_digit d ≡ true)
unfolding print_digits
head_digit zero n rest h = elim h [ ]
head_digit (suc f) n rest h = elim (Bool-cases (ltb n 10)) [
  | inl small ↦ (b'0' + n, rest, rw small, ground arith)
  | inr large ↦
      let (d, t, e, digit) = head_digit f (n / 10) ((b'0' + n % 10) ∷ rest) (ground arith) in
      (d, t, rw large e, digit)
]

-- The digits hold no other byte.
contains-print_digits :
    (c f n : ℕ) (rest : Text)
    → is_digit c ≡ false
    → contains c (print_digits f n rest) ≡ contains c rest
unfolding print_digits
contains-print_digits c zero n rest h = refl
contains-print_digits c (suc f) n rest h =
    ground (arith, contains-print_digits c f (n / 10) ((b'0' + n % 10) ∷ rest) h)

pub contains-print_int_colon : (n : ℤ) → contains b':' (print_int n) ≡ false
unfolding print_int
contains-print_int_colon (pos n) = contains-print_digits b':' (suc n) n [] refl
contains-print_int_colon (negsuc n) = contains-print_digits b':' (suc (suc n)) (suc n) [] refl

-- A printed number starts with a digit, and reads back.
read_nat-print_nat :
    (n : ℕ)
    → (d : ℕ) × (t : Text) × (print_nat n ≡ d ∷ t)
      × (is_digit d ≡ true)
      × (read_nat (d ∷ t) ≡ some n)
unfolding print_nat read_nat
read_nat-print_nat n =
    let (d, t, e, digit) = head_digit (suc n) n [] (omega arith) in
    (d, t, e, digit, ap (read_digits 0) (sym e) ∙ read-print_digits (suc n) n [] (omega arith))

-- Every int64 is read back from its decimal form.
pub atoi-print_int : (n : ℤ) → is_int64 n ≡ true → atoi (print_int n) ≡ some n
unfolding atoi print_int
atoi-print_int (pos n) h =
    let (d, t, e, digit, back) = read_nat-print_nat n in rw e (ground (arith, back))
atoi-print_int (negsuc n) h =
    let (d, t, e, digit, back) = read_nat-print_nat (suc n) in rw (e, back) (ground arith)

pub contains-print_nat : (c n : ℕ) → is_digit c ≡ false → contains c (print_nat n) ≡ false
unfolding print_nat
contains-print_nat c n h = contains-print_digits c (suc n) n [] h

-- A text without a minus is read as a number that is not negative.
pub atoi_nonneg :
    (s : Text) (n : ℤ) → contains b'-' s ≡ false → atoi s ≡ some n → (m : ℕ) × (n ≡ pos m)
unfolding atoi
atoi_nonneg [] n h e = absurd (cc)
atoi_nonneg (c ∷ s) (pos m) h e = (m, refl)
atoi_nonneg (c ∷ s) (negsuc m) h e = absurd (ground (arith, read_nat s, read_nat (c ∷ s)))

pub atoi-print_nat : (n : ℕ) → is_int64 (pos n) ≡ true → atoi (print_nat n) ≡ some (pos n)
atoi-print_nat n h = unfold print_int in (atoi-print_int (pos n) h)
