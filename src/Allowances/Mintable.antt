-- ===== src/Allowances/Mintable.antt =====
-- `ensureQuantityCanBeMinted` (chaincode/src/allowances/grantAllowance.ts): the capacity and the supply
-- of a class, against what is known to be granted, minted and burned.
use galachain_sdk.Base.{Bool, true, ◌&&◌, Option, none, some, if◌then◌else◌}
use galachain_sdk.Numeric.{BigNumber}
use galachain_sdk.Errors.{Result, ok, err, total_supply_exceeded, mint_capacity_exceeded}
use galachain_sdk.Tokens.{TokenClass, Amount, finite}
use galachain_sdk.Allowances.Amount.{amount_plus, amount_minus, amount_greater}

module _ (B : BigNumber) where
  open B use {Num, of_ℕ, is_greater_than}

  abbrev pub zero_amount : Amount B
  zero_amount = finite (of_ℕ 0)

  -- the first test, on the deprecated total of the class
  unfoldable pub exceeds_total_supply : TokenClass B → Amount B → Bool
  unfolding amount_plus amount_greater
  exceeds_total_supply c quantity =
      is_greater_than c.total_supply (of_ℕ 0)
      && amount_greater B (amount_plus B (finite c.total_supply) quantity) c.max_supply

  unfoldable pub exceeds_capacity : TokenClass B → Amount B → Amount B → Bool
  unfolding amount_plus amount_greater
  exceeds_capacity c quantity allowed =
      amount_greater B c.max_capacity zero_amount
      && amount_greater B (amount_plus B allowed quantity) c.max_capacity

  unfoldable pub exceeds_supply : TokenClass B → Amount B → Amount B → Num → Bool
  unfolding amount_plus amount_minus amount_greater
  exceeds_supply c quantity allowed burned =
      amount_greater B c.max_supply zero_amount
      && amount_greater B (amount_plus B (amount_minus B allowed burned) quantity) c.max_supply

  -- `totalKnownMintAllowanceCount ?? 0` and `totalKnownBurnsCount ?? 0`
  abbrev allowed_or_zero : Option (Amount B) → Amount B
  allowed_or_zero none = zero_amount
  allowed_or_zero (some a) = a

  abbrev burned_or_zero : Option Num → Num
  burned_or_zero none = of_ℕ 0
  burned_or_zero (some b) = b

  unfoldable pub ensure_quantity_can_be_minted :
      TokenClass B → Amount B → Option (Amount B) → Option Num → Result Bool
  unfolding exceeds_total_supply exceeds_capacity exceeds_supply
  ensure_quantity_can_be_minted c quantity allowed burned =
      if exceeds_total_supply c quantity
      then err total_supply_exceeded
      else if exceeds_capacity c quantity (allowed_or_zero allowed)
      then err mint_capacity_exceeded
      else if exceeds_supply c quantity (allowed_or_zero allowed) (burned_or_zero burned)
      then err total_supply_exceeded
      else ok true
