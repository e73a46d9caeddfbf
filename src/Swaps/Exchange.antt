-- ===== src/Swaps/Exchange.antt =====
-- What `swapToken` (chaincode/src/swaps/fillTokenSwap.ts) does to the two balances.
use galachain_sdk.Base.{ℕ, Bool, true, false, some, Text, if◌then◌else◌}
use galachain_sdk.Errors.{Result, ok, ◌>>=◌}
use galachain_sdk.Balance.Account.{TokenBalance}
use galachain_sdk.Balance.Nft.{add_instance, remove_instance, unlock_instance}
use galachain_sdk.Balance.Fungible.{add_quantity, subtract_quantity, unlock_quantity}
use galachain_sdk.Tokens.{TokenInstance}
use galachain_sdk.Ledger.{Chain}

module _ (W : Chain) where
  open W use {number}
  open number use {Num}

  -- The offered tokens are unlocked; the filling side has nothing locked.
  unfoldable pub release :
      TokenInstance number
      → Num
      → Text
      → Text
      → ℕ
      → Bool
      → TokenBalance number
      → Result (TokenBalance number)
  unfolding unlock_instance unlock_quantity
  release i quantity from_ id now true b = ok b
  release i quantity from_ id now false b =
      if i.is_non_fungible
      then unlock_instance number b i.instance_ (some id) now
      else unlock_quantity number b quantity now (some id) (some from_) false

  unfoldable pub hand_over :
      TokenInstance number
      → Num
      → ℕ
      → TokenBalance number
      → TokenBalance number
      → Result (TokenBalance number × TokenBalance number)
  unfolding remove_instance add_instance subtract_quantity add_quantity
  hand_over i quantity now f t =
      if i.is_non_fungible
      then (do
        f' ← remove_instance number f i.instance_ now
        t' ← add_instance number t i.instance_
        ok (f', t'))
      else (do
        f' ← subtract_quantity number f quantity now
        t' ← add_quantity number t quantity
        ok (f', t'))

  -- both balances, changed
  unfoldable pub swapped :
      TokenInstance number
      → Num
      → Text
      → Text
      → ℕ
      → Bool
      → TokenBalance number
      → TokenBalance number
      → Result (TokenBalance number × TokenBalance number)
  unfolding release hand_over
  swapped i quantity from_ id now skip f t = do
    f' ← release i quantity from_ id now skip f
    hand_over i quantity now f' t
