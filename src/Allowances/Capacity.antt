-- ===== src/Allowances/Capacity.antt =====
-- What `ensureQuantityCanBeMinted` ensures.
use galachain_sdk.Base.{◌≡◌, true, some, arith, ◌↔◌}
use galachain_sdk.Base.Int.{pos, ◌+ℤ◌, ◌-ℤ◌, ◌≤ℤ◌, ◌<ℤ◌, ltb_ℤ}
use galachain_sdk.Numeric.{BigNumber}
use galachain_sdk.Errors.{ok}
use galachain_sdk.Tokens.{TokenClass, finite}
use galachain_sdk.Allowances.Amount.{amount_plus, amount_minus, amount_greater}
use galachain_sdk.Allowances.Mintable.{
  exceeds_total_supply, exceeds_capacity, exceeds_supply, ensure_quantity_can_be_minted,
}

module _ (B : BigNumber) where
  open B use {Num, of_ℕ, is_greater_than, units}

  greater : (a b : Num) → is_greater_than a b ≡ ltb_ℤ (units b) (units a)
  greater a b = rw (B.greater_than a b) (B.less_than b a)

  -- With a positive finite capacity and supply, a finite quantity passes exactly when the allowances
  -- known and the quantity are at most the capacity, less the burns at most the supply, and the total of
  -- the class, unless it is zero or less, with the quantity at most the supply.
  pub ensure_quantity_can_be_minted-decides :
      (c : TokenClass B) (capacity supply quantity allowed burned : Num)
      → c.max_capacity ≡ finite capacity
      → c.max_supply ≡ finite supply
      → pos 0 <ℤ units capacity
      → pos 0 <ℤ units supply
      → (ensure_quantity_can_be_minted B c (finite quantity) (some (finite allowed)) (some burned)
          ≡ ok true)
        ↔ ((units allowed +ℤ units quantity ≤ℤ units capacity)
            × (units allowed -ℤ units burned +ℤ units quantity ≤ℤ units supply)
            × (pos 0 <ℤ units c.total_supply
                → units c.total_supply +ℤ units quantity ≤ℤ units supply))
  unfolding ensure_quantity_can_be_minted exceeds_total_supply exceeds_capacity exceeds_supply
      amount_plus amount_minus amount_greater
  ensure_quantity_can_be_minted-decides c capacity supply quantity allowed burned hc hs pc ps =
      rw hc (
        rw hs (
          let total = c.total_supply in
          let zero_ : units (of_ℕ 0) ≡ pos 0 = rw (B.units-of_ℕ 0) (ground arith) in
          ground (
            arith,
            zero_,
            greater total (of_ℕ 0),
            greater capacity (of_ℕ 0),
            greater supply (of_ℕ 0),
            greater (B.plus total quantity) supply,
            greater (B.plus allowed quantity) capacity,
            greater (B.plus (B.minus allowed burned) quantity) supply,
            B.units-plus total quantity,
            B.units-plus allowed quantity,
            B.units-plus (B.minus allowed burned) quantity,
            B.units-minus allowed burned,
            ps,
            pc,
          )))
