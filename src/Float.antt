-- ===== src/Float.antt =====
-- IEEE doubles (Rust's `f64`) as an interface: the operations that the program calls, with the laws
-- of the standard that its proofs rest on. Each law holds for every double, infinities and NaN
-- included, as comparisons with NaN are false and `min` returns the operand that is a number.
use snap_pipe.Prelude.{
  ℕ, suc, ◌+◌, ◌-◌, ◌*◌, ◌/◌, ◌<◌, ◌≡◌, refl, Bool, true, false, ltb, leb, leb→le, le→leb, arith,
  min,
}

pub record Float : Type 1 where
  pub F64 : Type 0
  -- `a < b` and `a <= b`
  pub lt : F64 → F64 → Bool
  pub le : F64 → F64 → Bool
  pub add : F64 → F64 → F64
  pub sub : F64 → F64 → F64
  pub mul : F64 → F64 → F64
  pub div : F64 → F64 → F64
  -- `f64::min`
  pub fmin : F64 → F64 → F64
  -- `n as f64` at a `u32`, which is exact
  pub of_u32 : ℕ → F64
  pub of_u32-nonneg : (n : ℕ) → lt (of_u32 n) (of_u32 0) ≡ false
  pub of_u32-refl : (n : ℕ) → le (of_u32 n) (of_u32 n) ≡ true
  pub of_u32-sub_one : (n : ℕ) → suc n < 0x1_0000_0000 → sub (of_u32 (suc n)) (of_u32 1) ≡ of_u32 n
  pub one-le-of_u32 : (n : ℕ) → suc n < 0x1_0000_0000 → le (of_u32 1) (of_u32 (suc n)) ≡ true
  pub not-one-le-zero : le (of_u32 1) (of_u32 0) ≡ false
  -- no operation here makes a negative number of numbers that are not negative
  pub sub-nonneg : (a b : F64) → le b a ≡ false → lt (sub b a) (of_u32 0) ≡ false
  pub sub_one-nonneg : (a : F64) → le (of_u32 1) a ≡ true → lt (sub a (of_u32 1)) (of_u32 0) ≡ false
  pub add-nonneg :
      (a b : F64)
      → lt a (of_u32 0) ≡ false
      → lt b (of_u32 0) ≡ false
      → lt (add a b) (of_u32 0) ≡ false
  pub mul-nonneg :
      (a b : F64)
      → lt a (of_u32 0) ≡ false
      → lt b (of_u32 0) ≡ false
      → lt (mul a b) (of_u32 0) ≡ false
  pub div_sixty-nonneg :
      (a : F64) → lt a (of_u32 0) ≡ false → lt (div a (of_u32 60)) (of_u32 0) ≡ false
  pub fmin-nonneg :
      (a b : F64)
      → lt a (of_u32 0) ≡ false
      → lt b (of_u32 0) ≡ false
      → lt (fmin a b) (of_u32 0) ≡ false
  -- a minimum is at most its second operand, if that is a number
  pub fmin-le : (a b : F64) → le b b ≡ true → le (fmin a b) b ≡ true
  pub sub_one-le :
      (a c : F64) → le (of_u32 1) a ≡ true → le a c ≡ true → le (sub a (of_u32 1)) c ≡ true

-- Numbers that are multiples of a sixtieth, with division and multiplication rounded down.
pub ltb_zero : (n : ℕ) → ltb n 0 ≡ false
ltb_zero n = ground arith

pub leb_refl : (n : ℕ) → leb n n ≡ true
leb_refl n = ground arith

pub sub_sixty : (n : ℕ) → suc n * 60 - 1 * 60 ≡ n * 60
sub_sixty n = omega arith

pub sixty_fits : (n : ℕ) → leb (1 * 60) (suc n * 60) ≡ true
sixty_fits n = le→leb _ _ (omega arith)

pub leb-min : (a b : ℕ) → leb (min a b) b ≡ true
leb-min a b = le→leb _ _ (omega arith)

pub leb_sub : (a c : ℕ) → leb a c ≡ true → leb (a - 1 * 60) c ≡ true
leb_sub a c h = le→leb _ _ (omega (arith, leb→le a c h))

abbrev pub sixtieths : Float
sixtieths = record {
  F64 = ℕ;
  lt = ltb;
  le = leb;
  add = λ a b. a + b;
  sub = λ a b. a - b;
  mul = λ a b. a * b / 60;
  div = λ a b. a * 60 / b;
  fmin = min;
  of_u32 = λ n. n * 60;
  of_u32-nonneg = λ n. ltb_zero (n * 60);
  of_u32-refl = λ n. leb_refl (n * 60);
  of_u32-sub_one = λ n h. sub_sixty n;
  one-le-of_u32 = λ n h. sixty_fits n;
  not-one-le-zero = refl;
  sub-nonneg = λ a b h. ltb_zero (b - a);
  sub_one-nonneg = λ a h. ltb_zero (a - 60);
  add-nonneg = λ a b h k. ltb_zero (a + b);
  mul-nonneg = λ a b h k. ltb_zero (a * b / 60);
  div_sixty-nonneg = λ a h. ltb_zero (a * 60 / 3600);
  fmin-nonneg = λ a b h k. ltb_zero (min a b);
  fmin-le = λ a b h. leb-min a b;
  sub_one-le = λ a c h k. leb_sub a c k;
}
