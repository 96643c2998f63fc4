-- ===== src/Prelude/Float.antt =====
-- What the program does with `float64`. The language's floats are not modelled bit by bit: their
-- operations are a parameter, and the laws that the limiter relies on are a record of their own.
use Prim.Native.Nat.{ℕ, suc, ◌+◌, ◌-◌, ◌*◌, ◌/◌, ◌^◌, ◌≤◌, ◌<◌}
use mathlib.Core.Path.{◌≡◌, refl}
use mathlib.Core.Bool.{Bool, true, false}
use native.Mathlib.Omega.{arith}
use gatex.Prelude.Tests.{ltb, if◌then◌else◌}

pub record Float (F : Type 0) : Type 0 where
  pub of_nat : ℕ → F
  pub lt : F → F → Bool
  pub is_nan : F → Bool
  pub is_inf : F → Bool
  pub add : F → F → F
  pub sub : F → F → F
  pub mul : F → F → F
  pub div : F → F → F
  -- The builtin `min`, `math.Ceil`, the conversion to an integer, and `Duration.Seconds`.
  pub minimum : F → F → F
  pub ceil : F → F
  pub to_nat : F → ℕ
  pub seconds : ℕ → F

-- x <= y, for numbers; with a NaN neither `lt` holds, and `le` is false.
abbrev pub le : {F : Type 0} ⦃f : Float F⦄ → F → F → Bool
le ⦃f⦄ x y =
    if f.is_nan x then false else if f.is_nan y then false else if f.lt y x then false else true

-- A number that is not negative, infinity included.
abbrev pub IsNonneg : {F : Type 0} ⦃f : Float F⦄ → F → Type 0
IsNonneg ⦃f⦄ x = le (f.of_nat 0) x ≡ true

-- Laws of IEEE arithmetic on numbers that are not negative, rounding included, and of the exact
-- integers up to 2 ^ 53.
pub record IsFloat (F : Type 0) ⦃f : Float F⦄ : Type 0 where
  pub nonneg_nat : (n : ℕ) → IsNonneg (f.of_nat n)
  pub nonneg_seconds : (n : ℕ) → n < 2 ^ 63 → IsNonneg (f.seconds n)
  pub nonneg_of_pos : (x : F) → f.lt (f.of_nat 0) x ≡ true → IsNonneg x
  pub nonneg_add : (x y : F) → IsNonneg x → IsNonneg y → IsNonneg (f.add x y)
  pub nonneg_mul :
      (x y : F)
      → IsNonneg x
      → IsNonneg y
      → f.is_inf x ≡ false
      → f.is_inf y ≡ false
      → IsNonneg (f.mul x y)
  pub finite_seconds : (n : ℕ) → n < 2 ^ 63 → f.is_inf (f.seconds n) ≡ false
  pub nonneg_minimum : (x y : F) → IsNonneg x → IsNonneg y → IsNonneg (f.minimum x y)
  pub minimum-le : (x y : F) → IsNonneg x → IsNonneg y → le (f.minimum x y) x ≡ true
  pub sub_one :
      (x y : F)
      → IsNonneg x
      → f.lt x (f.of_nat 1) ≡ false
      → le x y ≡ true
      → IsNonneg (f.sub x (f.of_nat 1)) × (le (f.sub x (f.of_nat 1)) y ≡ true)
  pub lt_one : (n : ℕ) → n ≤ 2 ^ 53 → f.lt (f.of_nat n) (f.of_nat 1) ≡ ltb n 1
  pub exact_pred : (n : ℕ) → n < 2 ^ 53 → f.sub (f.of_nat (suc n)) (f.of_nat 1) ≡ f.of_nat n
  pub le_refl : (n : ℕ) → le (f.of_nat n) (f.of_nat n) ≡ true

-- The laws can be met: whole numbers, with no NaN and no infinity.
instance abbrev pub whole : Float ℕ
whole = record {
  of_nat = λ n. n;
  lt = ltb;
  is_nan = λ _. false;
  is_inf = λ _. false;
  add = λ x y. x + y;
  sub = λ x y. x - y;
  mul = λ x y. x * y;
  div = λ x y. x / y;
  minimum = λ x y. if ltb y x then y else x;
  ceil = λ x. x;
  to_nat = λ x. x;
  seconds = λ n. n / 10 ^ 9;
}

pub whole-IsFloat : IsFloat ℕ
whole-IsFloat = record {
  nonneg_nat = λ n. ground arith;
  nonneg_seconds = λ n h. ground arith;
  nonneg_of_pos = λ x h. ground arith;
  nonneg_add = λ x y h k. ground arith;
  nonneg_mul = λ x y h k p q. ground arith;
  finite_seconds = λ n h. refl;
  nonneg_minimum = λ x y h k. ground arith;
  minimum-le = λ x y h k. ground arith;
  sub_one = λ x y h k l. (ground arith, ground arith);
  lt_one = λ n h. refl;
  exact_pred = λ n h. omega arith;
  le_refl = λ n. ground arith;
}
