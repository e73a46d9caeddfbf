-- ===== src/Allowances/Amount.antt =====
-- The methods of bignumber.js that the allowance code calls where one side may be infinite.
use galachain_sdk.Base.{ℕ, Bool, true, false}
use galachain_sdk.Numeric.{BigNumber}
use galachain_sdk.Tokens.{Amount, finite, infinite}

module _ (B : BigNumber) where
  open B use {
    is_greater_than, decimal_places, Num, plus, minus, min, is_equal_to, is_less_than,
    is_less_than_or_equal_to,
  }

  -- `x.isGreaterThanOrEqualTo(a)`, `x.isEqualTo(a)`, `x.isGreaterThan(a)`
  unfoldable pub reaches : Num → Amount B → Bool
  reaches x (finite a) = is_less_than_or_equal_to a x
  reaches x infinite = false

  unfoldable pub equals : Num → Amount B → Bool
  equals x (finite a) = is_equal_to x a
  equals x infinite = false

  unfoldable pub exceeds : Num → Amount B → Bool
  exceeds x (finite a) = is_less_than a x
  exceeds x infinite = false

  -- `a.isGreaterThan(b)`
  unfoldable pub amount_greater : Amount B → Amount B → Bool
  amount_greater (finite a) (finite b) = is_greater_than a b
  amount_greater (finite a) infinite = false
  amount_greater infinite (finite b) = true
  amount_greater infinite infinite = false

  -- `a.decimalPlaces() ?? 0`
  unfoldable pub amount_places : Amount B → ℕ
  amount_places (finite a) = decimal_places a
  amount_places infinite = 0

  -- `a.isLessThan(x)`
  unfoldable pub falls_below : Amount B → Num → Bool
  falls_below (finite a) x = is_less_than a x
  falls_below infinite x = false

  -- `a.plus(b)`, `a.minus(x)` and `BigNumber.min(x, a)`
  unfoldable pub amount_plus : Amount B → Amount B → Amount B
  amount_plus (finite a) (finite b) = finite (plus a b)
  amount_plus (finite a) infinite = infinite
  amount_plus infinite b = infinite

  unfoldable pub amount_minus : Amount B → Num → Amount B
  amount_minus (finite a) x = finite (minus a x)
  amount_minus infinite x = infinite

  unfoldable pub amount_min : Num → Amount B → Num
  amount_min x (finite a) = min x a
  amount_min x infinite = x
