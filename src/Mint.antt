-- ===== src/Mint.antt =====
-- chaincode/src/mint: minting tokens on a mint allowance. Mint/Request has the records from which the
-- supply is counted, Mint/Nft the loop that makes instances, Mint/Batch many mints at once.
pub mod WithAllowance
pub mod Request
pub mod Nft
pub mod Batch
pub mod Exact
pub mod Replaced
pub mod Loop
use galachain_sdk.Base.{
  ℕ, Bool, true, false, ◌&&◌, not, Option, none, some, List, [], ◌∷◌, Text, text, ltb, filter,
  if◌then◌else◌,
}
use galachain_sdk.Errors.{
  Result, ok, err, invalid_decimal, insufficient_mint_allowance, use_allowances_failed,
  nft_max_mint,
}
use galachain_sdk.Balance.Account.{TokenBalance}
use galachain_sdk.Balance.Fungible.{add_quantity}
use galachain_sdk.State.{Action, lift, ◌>>=◌, ◌>>◌, get_object_by_key}
use galachain_sdk.Tokens.{
  TokenClassKey, TokenInstanceKey, TokenInstance, TokenClass, TokenAllowance, mint, finite,
}
use galachain_sdk.Context.{Context}
use galachain_sdk.Ledger.{
  Chain, put_balance, put_instance, put_class, fetch_or_create_balance, instance_key_obj,
  build_token_class_composite_key,
}
use galachain_sdk.Allowances.Amount.{falls_below}
use galachain_sdk.Allowances.Fetch.{FetchAllowancesParams, fetch_allowances}
use galachain_sdk.Allowances.Check.{check_allowances}
use galachain_sdk.Allowances.Use.{use_allowances}
use galachain_sdk.Allowances.Mintable.{ensure_quantity_can_be_minted}
use galachain_sdk.Locks.Unlock.{includes}
use galachain_sdk.Transfer.{calling_on_behalf_of}
use galachain_sdk.Mint.Request.{UpdateTokenSupplyParams, update_total_supply}
use galachain_sdk.Mint.Nft.{max_nft_mint_size, mint_nfts}

module _ (W : Chain) where
  open W use {stub, number, number_text}
  open number use {Num, of_ℕ, plus, is_greater_than, decimal_places}

  pub record MintTokenParams : Type 0 where
    pub token_class_key : TokenClassKey
    pub owner : Text
    pub quantity : Num
    pub authorized_on_behalf : Option Text
    pub known_total_supply : Option Num

  -- the instance 0 of a class
  unfoldable pub fungible_key : TokenClassKey → TokenInstanceKey number
  fungible_key k = record {
    collection = k.collection;
    category = k.category;
    type = k.type;
    additional_key = k.additional_key;
    instance_ = of_ℕ 0;
  }

  unfoldable pub granted_by_authority :
      TokenClass number → List (TokenAllowance number) → List (TokenAllowance number)
  granted_by_authority c as_ = filter (λ a. includes c.authorities a.granted_by) as_

  -- from the allowances to the use of them
  unfoldable pub use_mint_allowances :
      Context → MintTokenParams → TokenClass number → Text → Action stub (Unit {0})
  unfolding fetch_allowances check_allowances use_allowances falls_below fungible_key
      granted_by_authority ensure_quantity_can_be_minted
  use_mint_allowances ctx p c user = do
    let k = p.token_class_key
    fetched ← fetch_allowances W (record {
      granted_to = user;
      collection = some k.collection;
      category = some k.category;
      type = some k.type;
      additional_key = some k.additional_key;
      instance_ = some (number_text (of_ℕ 0));
      allowance_type = some mint;
      granted_by = none;
    })
    let applicable = granted_by_authority c fetched
    total ← check_allowances W ctx applicable (fungible_key k) mint user
    (if falls_below number total p.quantity
        then lift (err insufficient_mint_allowance)
        else lift (ok tt))
    lift (ensure_quantity_can_be_minted number c (finite p.quantity) none none)
    used ← use_allowances W ctx p.quantity applicable mint
    if used then lift (ok tt) else lift (err use_allowances_failed)

  abbrev supply_params : MintTokenParams → Text → UpdateTokenSupplyParams W
  supply_params p user = record {
    token_class_key = p.token_class_key;
    calling_user = user;
    owner = p.owner;
    quantity = p.quantity;
    known_total_supply = p.known_total_supply;
  }

  unfoldable pub put_instances : List (TokenInstance number) → Action stub (Unit {0})
  unfolding put_instance
  put_instances [] = lift (ok tt)
  put_instances (i ∷ is) = do put_instance W i; put_instances is

  unfoldable pub instance_keys : List (TokenInstance number) → List (TokenInstanceKey number)
  unfolding instance_key_obj
  instance_keys [] = []
  instance_keys (i ∷ is) = instance_key_obj W i ∷ instance_keys is

  unfoldable pub mint_non_fungible :
      Context
      → MintTokenParams
      → TokenClass number
      → Text
      → Action stub (List (TokenInstanceKey number))
  unfolding fetch_or_create_balance mint_nfts put_instances put_balance put_class instance_keys
      update_total_supply
  mint_non_fungible ctx p c user =
      if is_greater_than p.quantity (of_ℕ max_nft_mint_size) then lift (err nft_max_mint) else do
        balance ← fetch_or_create_balance W p.owner p.token_class_key
        minted ← lift (
            mint_nfts W p.token_class_key p.owner p.quantity max_nft_mint_size 0 c.total_supply
              balance)
        put_instances minted.instances
        put_balance W minted.balance
        put_class W (record c { total_supply = minted.total_supply })
        update_total_supply W ctx (supply_params p user)
        lift (ok (instance_keys minted.instances))

  -- the balance and the class, written
  unfoldable pub store_fungible :
      Context
      → MintTokenParams
      → TokenClass number
      → Text
      → TokenBalance number
      → Action stub (List (TokenInstanceKey number))
  unfolding put_balance put_class update_total_supply fungible_key
  store_fungible ctx p c user balance = do
    put_balance W balance
    put_class W (record c { total_supply = plus c.total_supply p.quantity })
    update_total_supply W ctx (supply_params p user)
    lift (ok (fungible_key p.token_class_key ∷ []))

  unfoldable pub mint_fungible :
      Context
      → MintTokenParams
      → TokenClass number
      → Text
      → Action stub (List (TokenInstanceKey number))
  unfolding fetch_or_create_balance add_quantity store_fungible
  mint_fungible ctx p c user = do
    balance ← fetch_or_create_balance W p.owner p.token_class_key
    balance' ← lift (add_quantity number balance p.quantity)
    store_fungible ctx p c user balance'

  unfoldable pub mint_token :
      Context → MintTokenParams → Action stub (List (TokenInstanceKey number))
  unfolding calling_on_behalf_of get_object_by_key build_token_class_composite_key
      use_mint_allowances mint_non_fungible mint_fungible
  mint_token ctx p = do
    user ← lift (calling_on_behalf_of ctx p.authorized_on_behalf)
    c ← get_object_by_key stub W.classes (build_token_class_composite_key W p.token_class_key)
    if ltb c.decimals (decimal_places p.quantity) then lift (err invalid_decimal) else (do
      use_mint_allowances ctx p c user
      if c.is_non_fungible then mint_non_fungible ctx p c user else mint_fungible ctx p c user)
