-- ===== src/Burns/Aggregate.antt =====
-- `aggregateBurnQuantities` (chaincode/src/burns/burnTokens.ts): quantities of the same token summed,
-- through an index of the positions.
use galachain_sdk.Base.{ℕ, zero, suc, Option, none, some, List, [], ◌∷◌, Text, length}
use galachain_sdk.Base.Dict.{Dict, lookup, insert}
use galachain_sdk.Keys.{join}
use galachain_sdk.Tokens.{TokenInstanceKey}
use galachain_sdk.Ledger.{Chain, build_instance_key_list}

module _ (W : Chain) where
  open W use {number}
  open number use {Num, plus}

  pub record BurnTokenQuantity : Type 0 where
    pub token_instance_key : TokenInstanceKey number
    pub quantity : Num

  -- the parts joined with `_`
  unfoldable pub aggregation_key : BurnTokenQuantity → Text
  unfolding join build_instance_key_list
  aggregation_key b = join (b'_' ∷ []) (build_instance_key_list W b.token_instance_key)

  -- `hash[key] ?? summedQuantities.length`
  unfoldable pub index_of : Option ℕ → ℕ → ℕ
  index_of none n = n
  index_of (some i) n = i

  -- the element at the index is created where there is none yet, and increased where there is
  unfoldable pub add_at : ℕ → BurnTokenQuantity → List BurnTokenQuantity → List BurnTokenQuantity
  add_at n b [] = b ∷ []
  add_at zero b (x ∷ xs) = record x { quantity = plus x.quantity b.quantity } ∷ xs
  add_at (suc n) b (x ∷ xs) = x ∷ add_at n b xs

  unfoldable pub aggregate :
      Dict ℕ → List BurnTokenQuantity → List BurnTokenQuantity → List BurnTokenQuantity
  unfolding lookup insert aggregation_key index_of add_at
  aggregate hash summed [] = summed
  aggregate hash summed (b ∷ bs) =
      let key = aggregation_key b in
      let i = index_of (lookup key hash) (length summed) in
      aggregate (insert key i hash) (add_at i b summed) bs

  unfoldable pub aggregate_burn_quantities : List BurnTokenQuantity → List BurnTokenQuantity
  unfolding aggregate
  aggregate_burn_quantities requests = aggregate [] [] requests
