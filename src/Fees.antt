-- ===== src/Fees.antt =====
-- `class FeeCodeSplitFormula` (chain-api/src/types/FeeCodeSplitFormula.ts): how a fee is divided
-- between a burn and the recipients.
pub mod Split
use galachain_sdk.Base.{ℕ, List, [], ◌∷◌, Text, if◌then◌else◌}
use galachain_sdk.Numeric.{BigNumber}

module _ (B : BigNumber) where
  open B use {Num, of_ℕ, minus, times, round, is_equal_to}

  pub record FeeCodeTransferPercentage : Type 0 where
    pub transfer_to_user : Text
    pub transfer_percentage : Num

  pub record FeeCodeTransferQuantity : Type 0 where
    pub transfer_to_user : Text
    pub transfer_percentage : Num
    pub transfer_quantity : Num

  pub record FeeCodeSplitFormula : Type 0 where
    pub fee_code : Text
    pub burn_percentage : Num
    pub transfer_percentages : List FeeCodeTransferPercentage

  abbrev pub transfer_of : FeeCodeTransferPercentage → Num → FeeCodeTransferQuantity
  transfer_of t amount = record {
    transfer_to_user = t.transfer_to_user;
    transfer_percentage = t.transfer_percentage;
    transfer_quantity = amount;
  }

  -- `totalFeeQuantity.times(percentage).decimalPlaces(tokenDecimals)`
  unfoldable pub share : Num → ℕ → FeeCodeTransferPercentage → Num
  share total decimals t = round (times total t.transfer_percentage) decimals

  -- The loop, with `remainingFeeQuantity`. The last recipient of a formula that burns nothing gets
  -- the remainder, which stays as it is.
  unfoldable pub split_loop :
      Num → ℕ → Num → List FeeCodeTransferPercentage → Num → Num × List FeeCodeTransferQuantity
  unfolding share
  split_loop total decimals burn [] remaining = (remaining, [])
  split_loop total decimals burn (t ∷ []) remaining =
      if is_equal_to burn (of_ℕ 0)
      then (remaining, transfer_of t (round remaining decimals) ∷ [])
      else (minus remaining (share total decimals t), transfer_of t (share total decimals t) ∷ [])
  split_loop total decimals burn (t ∷ u ∷ ts) remaining =
      let (left, transfers) =
        split_loop total decimals burn (u ∷ ts) (minus remaining (share total decimals t)) in
      (left, transfer_of t (share total decimals t) ∷ transfers)

  -- the quantity to burn, and the transfers
  unfoldable pub calculate_amounts :
      FeeCodeSplitFormula → Num → ℕ → Num × List FeeCodeTransferQuantity
  unfolding split_loop
  calculate_amounts f total decimals =
      split_loop total decimals f.burn_percentage f.transfer_percentages (round total decimals)
