-- ===== src/Numeric.antt =====
-- The `BigNumber` values of bignumber.js that the SDK computes with, as an interface: the library
-- is not part of the repository. `units` is the exact decimal value counted in one small unit.
-- Only finite numbers are values here; where the code makes NaN (Balance/Hold), an `Option` has it.
pub mod Units
use galachain_sdk.Base.{ℕ, ◌≡◌, ◌≤◌, ◌<◌, ◌*◌, ◌+◌, Bool, true, false, not, arith}
use galachain_sdk.Base.Int.{ℤ, pos, pos_part, neg_part, ◌+ℤ◌, ◌-ℤ◌, ◌≤ℤ◌, ◌<ℤ◌, ltb_ℤ, int_laws}

pub record BigNumber : Type 1 where
  pub Num : Type 0
  -- `new BigNumber(n)` of a small natural number
  pub of_ℕ : ℕ → Num
  pub plus : Num → Num → Num
  pub minus : Num → Num → Num
  pub times : Num → Num → Num
  pub div : Num → Num → Num
  pub min : Num → Num → Num
  -- `x.decimalPlaces()` and `x.decimalPlaces(dp)`
  pub decimal_places : Num → ℕ
  pub round : Num → ℕ → Num
  pub is_equal_to : Num → Num → Bool
  pub is_less_than : Num → Num → Bool
  pub is_less_than_or_equal_to : Num → Num → Bool
  pub is_greater_than : Num → Num → Bool
  pub is_negative : Num → Bool
  pub is_zero : Num → Bool
  pub is_integer : Num → Bool
  -- `a.comparedTo(b)`
  pub compared_to : Num → Num → ℤ
  -- the value in units, and the units in 1
  pub units : Num → ℤ
  pub one : ℕ
  pub one_pos : 0 < one
  -- `BigNumber.DECIMAL_PLACES`, to which `div` rounds
  pub max_places : ℕ
  pub units-of_ℕ : (n : ℕ) → units (of_ℕ n) ≡ pos (n * one)
  pub units-plus : (a b : Num) → units (plus a b) ≡ units a +ℤ units b
  pub units-minus : (a b : Num) → units (minus a b) ≡ units a -ℤ units b
  pub min_le : (a b : Num) → (units (min a b) ≤ℤ units a) × (units (min a b) ≤ℤ units b)
  pub equal_units : (a b : Num) → is_equal_to a b ≡ true → units a ≡ units b
  pub units_equal : (a b : Num) → units a ≡ units b → is_equal_to a b ≡ true
  pub less_than : (a b : Num) → is_less_than a b ≡ ltb_ℤ (units a) (units b)
  pub less_than_or_equal_to : (a b : Num) → is_less_than_or_equal_to a b ≡ not (is_less_than b a)
  pub greater_than : (a b : Num) → is_greater_than a b ≡ is_less_than b a
  pub compared_to_self : (a : Num) → compared_to a a ≡ pos 0
  -- a negative zero is negative too
  pub negative_le : (a : Num) → is_negative a ≡ true → units a ≤ℤ pos 0
  pub lt_negative : (a : Num) → is_negative a ≡ false → pos 0 ≤ℤ units a
  pub zero_units : (a : Num) → is_zero a ≡ true → units a ≡ pos 0
  pub units_zero : (a : Num) → units a ≡ pos 0 → is_zero a ≡ true
  -- the part of a number that has no more places than `div` keeps
  pub portion_bounds :
      (a : Num) (k n : ℕ)
      → is_negative a ≡ false
      → decimal_places a ≤ max_places
      → k ≤ n
      → 0 < n
      → (pos 0 ≤ℤ units (div (times a (of_ℕ k)) (of_ℕ n)))
        × (units (div (times a (of_ℕ k)) (of_ℕ n)) ≤ℤ units a)

-- The facts in the form that `omega` reads.
module _ (B : BigNumber) where
  open B use {
    Num, of_ℕ, plus, minus, is_less_than, is_equal_to, is_negative, units, units-plus, units-minus,
    units-of_ℕ,
  }

  pub plus_parts :
      (a b : Num)
      → pos_part (units (plus a b)) + neg_part (units a) + neg_part (units b)
        ≡ neg_part (units (plus a b)) + pos_part (units a) + pos_part (units b)
  plus_parts a b = rw units-plus (omega int_laws)

  pub minus_parts :
      (a b : Num)
      → pos_part (units (minus a b)) + neg_part (units a) + pos_part (units b)
        ≡ neg_part (units (minus a b)) + pos_part (units a) + neg_part (units b)
  minus_parts a b = rw units-minus (omega int_laws)

  pub units_zero_parts : (pos_part (units (of_ℕ 0)) ≡ 0) × (neg_part (units (of_ℕ 0)) ≡ 0)
  units_zero_parts = rw units-of_ℕ (omega arith)

  pub lt_of_test : (a b : Num) → is_less_than a b ≡ true → units a <ℤ units b
  lt_of_test a b h =
      let e : ltb_ℤ (units a) (units b) ≡ true = rw (← B.less_than a b) h in ground arith

  pub le_of_test : (a b : Num) → is_less_than a b ≡ false → units b ≤ℤ units a
  le_of_test a b h =
      let e : ltb_ℤ (units a) (units b) ≡ false = rw (← B.less_than a b) h in ground arith

  pub test_of_le : (a b : Num) → units b ≤ℤ units a → is_less_than a b ≡ false
  test_of_le a b h = rw (B.less_than a b) (ground arith)

  pub test_of_lt : (a b : Num) → units a <ℤ units b → is_less_than a b ≡ true
  test_of_lt a b h = rw (B.less_than a b) (ground arith)
