-- ===== src/Transfer.antt =====
-- chaincode/src/transfer/transferToken.ts: moving a quantity, or an NFT instance, from one user to
-- another.
pub mod Conserve
use galachain_sdk.Base.{
  ℕ, Bool, true, ◌&&◌, not, Option, none, some, List, [], ◌∷◌, Text, eqb, ltb, if◌then◌else◌,
}
use galachain_sdk.Errors.{
  Result, ok, err, same_sender_and_recipient, nft_invalid_quantity_transfer, invalid_decimal,
}
use galachain_sdk.Balance.Account.{TokenBalance}
use galachain_sdk.Balance.Nft.{add_instance, remove_instance}
use galachain_sdk.Balance.Fungible.{add_quantity, subtract_quantity}
use galachain_sdk.State.{Action, lift, ◌>>=◌, ◌>>◌, put_chain_object}
use galachain_sdk.Tokens.{TokenInstance, TokenInstanceKey, transfer}
use galachain_sdk.Context.{Context, calling_user}
use galachain_sdk.Ledger.{
  Chain, put_balance, put_instance, instance_key, instance_key_obj, get_token_class_key,
  fetch_or_create_balance, fetch_token_instance, fetch_token_class,
}
use galachain_sdk.Allowances.Verify.{
  verify_and_use_allowances, verify_and_use_transfer_allowances_by_keys,
}

-- `authorizedOnBehalf?.callingOnBehalf ?? ctx.callingUser`
unfoldable pub calling_on_behalf_of : Context → Option Text → Result Text
unfolding calling_user
calling_on_behalf_of ctx none = calling_user ctx
calling_on_behalf_of ctx (some user) = ok user

-- one thrower after another, with no cache between
abbrev pub then_ : {A C : Type 0} → Result A → (A → Result C) → Result C
then_ (ok a) f = f a
then_ (err e) f = err e

module _ (W : Chain) where
  open W use {stub, number}
  open number use {Num, of_ℕ, is_equal_to, decimal_places}

  pub record TransferTokenParams : Type 0 where
    pub from_ : Text
    pub to : Text
    pub token_instance_key : TokenInstanceKey number
    pub quantity : Num
    pub allowances_to_use : List Text
    pub authorized_on_behalf : Option Text

  unfoldable pub verify_and_use_transfer_allowances :
      Context
      → Text
      → TokenInstanceKey number
      → Num
      → TokenInstance number
      → List Text
      → Text
      → Action stub Bool
  unfolding verify_and_use_allowances verify_and_use_transfer_allowances_by_keys
  verify_and_use_transfer_allowances ctx from_ k quantity i [] user =
      verify_and_use_allowances W ctx from_ k quantity i user transfer
  verify_and_use_transfer_allowances ctx from_ k quantity i (a ∷ as_) user =
      verify_and_use_transfer_allowances_by_keys W ctx from_ k quantity i user (a ∷ as_)

  -- what leaves the sender's balance, and what reaches the recipient's
  unfoldable pub take_from :
      TokenInstance number → Num → ℕ → TokenBalance number → Result (TokenBalance number)
  unfolding remove_instance subtract_quantity
  take_from i quantity now b =
      if i.is_non_fungible
      then remove_instance number b i.instance_ now
      else subtract_quantity number b quantity now

  unfoldable pub give_to :
      TokenInstance number → Num → TokenBalance number → Result (TokenBalance number)
  unfolding add_instance add_quantity
  give_to i quantity b =
      if i.is_non_fungible
      then add_instance number b i.instance_
      else add_quantity number b quantity

  -- both balances, changed
  unfoldable pub exchange :
      TokenInstance number
      → Num
      → ℕ
      → TokenBalance number
      → TokenBalance number
      → Result (TokenBalance number × TokenBalance number)
  exchange i quantity now from_balance to_balance =
      then_ (take_from i quantity now from_balance) (λ from_balance'.
        then_ (give_to i quantity to_balance) (λ to_balance'. ok (from_balance', to_balance')))

  -- They are written; an NFT instance gets its new owner.
  unfoldable pub store :
      TransferTokenParams
      → TokenInstance number
      → TokenBalance number × TokenBalance number
      → Action stub (TokenBalance number × TokenBalance number)
  store p i (from_balance, to_balance) = do
    put_balance W from_balance
    put_balance W to_balance
    let i' : TokenInstance number = record i { owner = some p.to }
    (if i.is_non_fungible then put_instance W i' else lift (ok tt))
    lift (ok (from_balance, to_balance))

  unfoldable pub move_to :
      Context
      → TransferTokenParams
      → TokenInstance number
      → TokenBalance number
      → Action stub (TokenBalance number × TokenBalance number)
  move_to ctx p i from_balance = do
    to_balance ← fetch_or_create_balance W p.to (get_token_class_key W p.token_instance_key)
    changed ← lift (exchange i p.quantity ctx.tx_unix_time from_balance to_balance)
    store p i changed

  -- the part behind the checks
  unfoldable pub move :
      Context
      → TransferTokenParams
      → TokenInstance number
      → Action stub (TokenBalance number × TokenBalance number)
  move ctx p i = do
    from_balance ← fetch_or_create_balance W p.from_ (get_token_class_key W p.token_instance_key)
    move_to ctx p i from_balance

  unfoldable pub transfer_token :
      Context → TransferTokenParams → Action stub (TokenBalance number × TokenBalance number)
  unfolding fetch_token_instance fetch_token_class calling_on_behalf_of
      verify_and_use_transfer_allowances move get_token_class_key
  transfer_token ctx p = if eqb p.from_ p.to then lift (err same_sender_and_recipient) else do
    i ← fetch_token_instance W p.token_instance_key
    c ← fetch_token_class W (get_token_class_key W p.token_instance_key)
    if i.is_non_fungible && not (is_equal_to p.quantity (of_ℕ 1))
        then lift (err nft_invalid_quantity_transfer)
        else if ltb c.decimals (decimal_places p.quantity)
        then lift (err invalid_decimal)
        else (do
          user ← lift (calling_on_behalf_of ctx p.authorized_on_behalf)
          (if eqb p.from_ user
              then lift (ok true)
              else verify_and_use_transfer_allowances ctx p.from_ p.token_instance_key p.quantity i
                  p.allowances_to_use user)
          move ctx p i)
