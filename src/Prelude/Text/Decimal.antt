-- ===== src/Prelude/Text/Decimal.antt =====
-- `to_string` of the integer types, and `str::parse` of `u32` and `i64`. Which of its errors
-- `parse` returns stands in messages only, and is not modelled.
use Prim.Native.Nat.{ℕ, zero, suc, ◌+◌, ◌-◌, ◌*◌, ◌/◌, ◌%◌, ◌^◌, ◌≤◌, ◌<◌}
use mathlib.Core.Path.{◌≡◌, refl}
use mathlib.Core.Logic.{◌≢◌}
use mathlib.Core.Bool.{◌&&◌}
use mathlib.Core.Option
use mathlib.Core.Option.{Option, none, some}
use mathlib.Core.List.{◌++◌, List, [], ◌∷◌}
use native.Mathlib.Omega.{arith}
use snap_pipe.Prelude.Tests.{ltb, leb, ◌==◌, if◌then◌else◌}
use snap_pipe.Prelude.Lists.{All}
use snap_pipe.Prelude.Int.{ℤ, pos, negsuc, InI64}

-- The digits of `n` before `out`; more fuel than `n` is enough.
print_digits : ℕ → ℕ → List ℕ → List ℕ
print_digits zero n out = out
print_digits (suc f) n out =
    let rest = print_digits f (n / 10) ((b'0' + n % 10) ∷ out) in
    if ltb n 10 then (b'0' + n) ∷ out else rest

unfoldable pub to_string : ℕ → List ℕ
unfolding print_digits
to_string n = print_digits (suc n) n []

unfoldable pub to_string_ℤ : ℤ → List ℕ
unfolding to_string
to_string_ℤ (pos n) = to_string n
to_string_ℤ (negsuc n) = b'-' ∷ to_string (suc n)

-- Reads digits behind the number `acc`, and fails above `limit`.
read_digits : ℕ → ℕ → List ℕ → Option ℕ
read_digits limit acc [] = some acc
read_digits limit acc (c ∷ s) =
    if leb b'0' c && leb c b'9'
    then (let acc' = acc * 10 + (c - b'0') in
        if ltb limit acc' then none else read_digits limit acc' s)
    else none

-- At least one digit.
pub parse_digits : ℕ → List ℕ → Option ℕ
unfolding read_digits
parse_digits limit [] = none
parse_digits limit (c ∷ s) = read_digits limit 0 (c ∷ s)

-- One `+` may stand before the digits.
unfoldable pub parse_u32 : List ℕ → Option ℕ
unfolding parse_digits
parse_u32 [] = none
parse_u32 (c ∷ s) =
    if c == b'+' then parse_digits (2 ^ 32 - 1) s else parse_digits (2 ^ 32 - 1) (c ∷ s)

negate : ℕ → ℤ
negate zero = pos zero
negate (suc n) = negsuc n

unfoldable pub parse_i64 : List ℕ → Option ℤ
unfolding parse_digits negate
parse_i64 [] = none
parse_i64 (c ∷ s) =
    if c == b'+'
    then Option.map pos (parse_digits (2 ^ 63 - 1) s)
    else if c == b'-'
    then Option.map negate (parse_digits (2 ^ 63) s)
    else Option.map pos (parse_digits (2 ^ 63 - 1) (c ∷ s))

abbrev pub IsDigit : ℕ → Type 0
IsDigit c = (b'0' ≤ c) × (c ≤ b'9')

-- What is printed reads back as the number, before anything that follows.
read-print :
    (f limit n : ℕ) (out : List ℕ)
    → n < f
    → n ≤ limit
    → read_digits limit 0 (print_digits f n out) ≡ read_digits limit n out
unfolding print_digits read_digits
read-print zero limit n out h fits = absurd (omega arith)
read-print (suc f) limit n out h fits =
    ground (arith, read-print f limit (n / 10) ((b'0' + n % 10) ∷ out))

print-ne-nil : (f n : ℕ) (out : List ℕ) → n < f → print_digits f n out ≢ []
unfolding print_digits
print-ne-nil zero n out h = absurd (omega arith)
print-ne-nil (suc f) n out h = ground (arith, print-ne-nil f (n / 10) ((b'0' + n % 10) ∷ out))

print-IsDigit : (f n : ℕ) (out : List ℕ) → All IsDigit out → All IsDigit (print_digits f n out)
unfolding print_digits
print-IsDigit zero n out h = h
print-IsDigit (suc f) n out h = ground (arith, print-IsDigit f (n / 10) ((b'0' + n % 10) ∷ out))

pub to_string-IsDigit : (n : ℕ) → All IsDigit (to_string n)
unfolding to_string
to_string-IsDigit n = print-IsDigit (suc n) n [] tt

parse_digits-read : (limit : ℕ) (s : List ℕ) → s ≢ [] → parse_digits limit s ≡ read_digits limit 0 s
unfolding parse_digits
parse_digits-read limit [] h = absurd (h refl)
parse_digits-read limit (c ∷ s) h = refl

pub parse_digits-to_string : (limit n : ℕ) → n ≤ limit → parse_digits limit (to_string n) ≡ some n
unfolding to_string
parse_digits-to_string limit n h =
    rw
      (
        parse_digits-read limit _ (print-ne-nil (suc n) n [] (omega arith)),
        read-print (suc n) limit n [] (omega arith) h,
      )
      (unfold read_digits in refl)

-- A text of digits has no sign.
parse_u32-digits : (s : List ℕ) → All IsDigit s → parse_u32 s ≡ parse_digits (2 ^ 32 - 1) s
unfolding parse_u32
parse_u32-digits [] h = refl
parse_u32-digits (c ∷ s) h = ground arith

parse_i64-digits :
    (s : List ℕ) → All IsDigit s → parse_i64 s ≡ Option.map pos (parse_digits (2 ^ 63 - 1) s)
unfolding parse_i64
parse_i64-digits [] h = refl
parse_i64-digits (c ∷ s) h = ground arith

-- Every `u32` is read back from its print.
pub parse_u32-to_string : (n : ℕ) → n < 2 ^ 32 → parse_u32 (to_string n) ≡ some n
parse_u32-to_string n h =
    rw (parse_u32-digits _ (to_string-IsDigit n)) (parse_digits-to_string _ n (omega arith))

-- Every `i64` is read back from its print.
pub parse_i64-to_string : (z : ℤ) → InI64 z → parse_i64 (to_string_ℤ z) ≡ some z
unfolding to_string_ℤ
parse_i64-to_string (pos n) h =
    rw (
      parse_i64-digits _ (to_string-IsDigit n),
      parse_digits-to_string (2 ^ 63 - 1) n (omega arith),
    )
parse_i64-to_string (negsuc n) h =
    unfold parse_i64 in rw (parse_digits-to_string (2 ^ 63) (suc n) (omega arith))

-- A text with a character that is neither a digit nor a sign is no number.
read_digits-other :
    (limit n d : ℕ) (s rest : List ℕ) → ¬ IsDigit d → read_digits limit n (s ++ d ∷ rest) ≡ none
unfolding read_digits
read_digits-other limit n d [] rest h = ground arith
read_digits-other limit n d (c ∷ s) rest h =
    ground (arith, read_digits-other limit (n * 10 + (c - b'0')) d s rest h)

parse_digits-other :
    (limit d : ℕ) (s rest : List ℕ) → ¬ IsDigit d → parse_digits limit (s ++ d ∷ rest) ≡ none
unfolding parse_digits
parse_digits-other limit d [] rest h = read_digits-other limit 0 d [] rest h
parse_digits-other limit d (c ∷ s) rest h = read_digits-other limit 0 d (c ∷ s) rest h

pub parse_u32-other :
    (d : ℕ) (s rest : List ℕ) → ¬ IsDigit d → d ≢ b'+' → parse_u32 (s ++ d ∷ rest) ≡ none
unfolding parse_u32
parse_u32-other d [] rest h k = ground (arith, parse_digits-other (2 ^ 32 - 1) d [] rest h)
parse_u32-other d (c ∷ s) rest h k = ground (
  arith,
  parse_digits-other (2 ^ 32 - 1) d (c ∷ s) rest h,
  parse_digits-other (2 ^ 32 - 1) d s rest h,
)
