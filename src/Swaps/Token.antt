-- ===== src/Swaps/Token.antt =====
-- `swapToken` of chaincode/src/swaps/fillTokenSwap.ts: one token of a swap goes from a user to another.
use galachain_sdk.Base.{Bool, some, Text, ltb, if◌then◌else◌}
use galachain_sdk.Errors.{ok, err, invalid_decimal}
use galachain_sdk.Balance.Account.{TokenBalance}
use galachain_sdk.State.{Action, lift, ◌>>=◌, ◌>>◌, get_object_by_key}
use galachain_sdk.Tokens.{TokenInstanceKey, TokenInstance}
use galachain_sdk.Context.{Context, calling_user}
use galachain_sdk.Ledger.{
  put_balance, put_instance, fetch_or_create_balance, fetch_token_instance,
  build_token_class_composite_key,
}
use galachain_sdk.Burns.{class_key_of_instance}
use galachain_sdk.Swaps.{SwapChain}
use galachain_sdk.Swaps.Exchange.{swapped}

module _ (X : SwapChain) where
  open X use {chain}
  open chain use {stub, number, number_text}
  open number use {
    Num, of_ℕ, plus, minus, times, is_equal_to, is_less_than, is_less_than_or_equal_to, is_zero,
    is_integer, decimal_places,
  }

  unfoldable pub store_swapped :
      TokenInstance number
      → Text
      → TokenBalance number × TokenBalance number
      → Action stub (TokenBalance number × TokenBalance number)
  unfolding put_balance put_instance
  store_swapped i to (f, t) = do
    put_balance chain f
    put_balance chain t
    (if i.is_non_fungible then put_instance chain (record i { owner = some to }) else lift (ok tt))
    lift (ok (f, t))

  unfoldable pub swap_token :
      Context
      → Text
      → Text
      → TokenInstanceKey number
      → Num
      → Text
      → Bool
      → Action stub (TokenBalance number × TokenBalance number)
  unfolding calling_user fetch_token_instance get_object_by_key build_token_class_composite_key
      class_key_of_instance fetch_or_create_balance swapped store_swapped
  swap_token ctx from_ to k quantity id skip = do
    user ← lift (calling_user ctx)
    i ← fetch_token_instance chain k
    let key = class_key_of_instance chain i
    c ← get_object_by_key stub chain.classes (build_token_class_composite_key chain key)
    (if ltb c.decimals (decimal_places quantity) then lift (err invalid_decimal) else lift (ok tt))
    f ← fetch_or_create_balance chain from_ key
    t ← fetch_or_create_balance chain to key
    changed ← lift (swapped chain i quantity from_ id ctx.tx_unix_time skip f t)
    store_swapped i to changed
