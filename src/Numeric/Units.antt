-- ===== src/Numeric/Units.antt =====
-- A `BigNumber` of whole numbers: the integers themselves, with one unit to 1. It shows that the
-- laws of the interface can hold, and runs in the tests.
use galachain_sdk.Base.{
  ℕ, ◌≡◌, refl, ◌≤◌, ◌<◌, ◌*◌, ◌/◌, ◌+◌, Bool, true, false, not, arith, if◌then◌else◌, ◌==◌, ◌&&◌,
}
use galachain_sdk.Base.Int.{ℤ, pos, negsuc, pos_part, neg_part, sub_ℕ, ◌+ℤ◌, ◌-ℤ◌, ◌≤ℤ◌, ltb_ℤ}
use galachain_sdk.Numeric.{BigNumber}

abbrev pub equal : ℤ → ℤ → Bool
equal a b = pos_part a == pos_part b && neg_part a == neg_part b

abbrev pub times : ℤ → ℤ → ℤ
times a b =
    sub_ℕ (pos_part a * pos_part b + neg_part a * neg_part b)
      (pos_part a * neg_part b + neg_part a * pos_part b)

-- for a positive divisor, cut off towards zero
abbrev pub div : ℤ → ℤ → ℤ
div a b = sub_ℕ (pos_part a / pos_part b) (neg_part a / pos_part b)

abbrev pub min_ℤ : ℤ → ℤ → ℤ
min_ℤ a b = if ltb_ℤ b a then b else a

pub min_ℤ-le : (a b : ℤ) → (min_ℤ a b ≤ℤ a) × (min_ℤ a b ≤ℤ b)
min_ℤ-le a b = ground arith

pub equal→eq : (a b : ℤ) → equal a b ≡ true → a ≡ b
equal→eq a b h = ground arith

pub eq→equal : (a b : ℤ) → a ≡ b → equal a b ≡ true
eq→equal a b h = ground arith

mul-div-le : (x k n : ℕ) → k ≤ n → 0 < n → x * k / n ≤ x
mul-div-le x k n h p = grind arith

pub portion :
    (a : ℤ) (k n : ℕ)
    → ltb_ℤ a (pos 0) ≡ false
    → k ≤ n
    → 0 < n
    → (pos 0 ≤ℤ div (times a (pos k)) (pos n)) × (div (times a (pos k)) (pos n) ≤ℤ a)
portion (pos x) k n s h p = ground (arith, mul-div-le x k n)
portion (negsuc x) k n s h p = ground arith

pub of-units : (n : ℕ) → pos n ≡ pos (n * 1)
of-units n = ground arith

pub neg-le : (a : ℤ) → ltb_ℤ a (pos 0) ≡ true → a ≤ℤ pos 0
neg-le a h = ground arith

pub nonneg-le : (a : ℤ) → ltb_ℤ a (pos 0) ≡ false → pos 0 ≤ℤ a
nonneg-le a h = ground arith

abbrev pub sign : ℤ → ℤ → ℤ
sign a b = if ltb_ℤ a b then negsuc 0 else if ltb_ℤ b a then pos 1 else pos 0

pub sign_self : (a : ℤ) → sign a a ≡ pos 0
sign_self a = ground arith

abbrev pub whole : BigNumber
whole = record {
  Num = ℤ;
  of_ℕ = pos;
  plus = ◌+ℤ◌;
  minus = ◌-ℤ◌;
  times = times;
  div = div;
  min = min_ℤ;
  decimal_places = λ a. 0;
  round = λ a n. a;
  is_equal_to = equal;
  is_less_than = ltb_ℤ;
  is_less_than_or_equal_to = λ a b. not (ltb_ℤ b a);
  is_greater_than = λ a b. ltb_ℤ b a;
  is_negative = λ a. ltb_ℤ a (pos 0);
  is_zero = λ a. equal a (pos 0);
  is_integer = λ a. true;
  compared_to = sign;
  units = λ a. a;
  one = 1;
  one_pos = omega arith;
  max_places = 20;
  units-of_ℕ = of-units;
  units-plus = λ a b. refl;
  units-minus = λ a b. refl;
  min_le = min_ℤ-le;
  equal_units = equal→eq;
  units_equal = eq→equal;
  less_than = λ a b. refl;
  less_than_or_equal_to = λ a b. refl;
  greater_than = λ a b. refl;
  compared_to_self = sign_self;
  negative_le = neg-le;
  lt_negative = nonneg-le;
  zero_units = λ a. equal→eq a (pos 0);
  units_zero = λ a. eq→equal a (pos 0);
  portion_bounds = λ a k n s d h p. portion a k n s h p;
}
