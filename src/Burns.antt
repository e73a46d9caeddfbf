-- ===== src/Burns.antt =====
-- chaincode/src/burns/burnTokens.ts: burning quantities of tokens, and the objects that record it.
pub mod Aggregate
pub mod Grouped
pub mod Merged
pub mod Exact
use galachain_sdk.Base.{
  ℕ, Bool, true, false, ◌&&◌, not, Option, none, some, List, [], ◌∷◌, Text, text, eqb, ltb,
  if◌then◌else◌,
}
use galachain_sdk.Errors.{
  Result, ok, err, Error, insufficient_burn_allowance, use_allowances_failed,
  nft_invalid_quantity_burn, invalid_decimal, object_validation_failed,
}
use galachain_sdk.Balance.Account.{TokenBalance}
use galachain_sdk.Balance.Nft.{remove_instance}
use galachain_sdk.Balance.Fungible.{subtract_quantity}
use galachain_sdk.State.{
  Serial, Action, lift, catch, ◌>>=◌, ◌>>◌, put_chain_object, get_object_by_key, recover_not_found,
  validate_or_reject,
}
use galachain_sdk.Keys.{composite_key, join, get_string_key_from_parts}
use galachain_sdk.Tokens.{
  TokenClassKey, TokenInstanceKey, TokenInstance, TokenClass, TokenAllowance, Amount, finite,
  infinite, burn,
}
use galachain_sdk.Tokens.Counters.{TokenBurn, TokenBurnCounter}
use galachain_sdk.Context.{Context}
use galachain_sdk.Ledger.{
  Chain, put_balance, fetch_or_create_balance, fetch_token_instance,
  build_token_class_composite_key, get_token_class_key,
}
use galachain_sdk.Allowances.Fetch.{FetchAllowancesParams, fetch_allowances}
use galachain_sdk.Allowances.Check.{check_allowances}
use galachain_sdk.Allowances.Use.{use_allowances}
use galachain_sdk.Transfer.{calling_on_behalf_of, take_from}
use galachain_sdk.Utils.{inverse_time, inverse_epoch}
use galachain_sdk.Supply.{fetch_known_burn_count}
use galachain_sdk.Burns.Aggregate.{BurnTokenQuantity, aggregate_burn_quantities}
use galachain_sdk.Allowances.Amount.{falls_below}

module _ (W : Chain) where
  open W use {stub, number, number_fixed, ℕ_text}
  open number use {Num, of_ℕ, plus, is_equal_to, decimal_places}

  pub record BurnsTokensParams : Type 0 where
    pub owner : Text
    pub to_burn : List (BurnTokenQuantity W)
    pub pre_validated : Bool
    pub authorized_on_behalf : Option Text

  unfoldable pub burn_key : TokenBurn number → Text
  unfolding composite_key
  burn_key b = composite_key (text "GCTBR") (
      b.burned_by
      ∷ b.collection
      ∷ b.category
      ∷ b.type
      ∷ b.additional_key
      ∷ number_fixed b.instance_
      ∷ ℕ_text b.created
      ∷ [])

  -- `getRangedKey`
  unfoldable pub burn_counter_key : TokenBurnCounter number → Text
  unfolding join
  burn_counter_key b = join (0 ∷ []) (
      text "GCTBRC"
      ∷ b.collection
      ∷ b.category
      ∷ b.type
      ∷ b.additional_key
      ∷ b.time_key
      ∷ b.burned_by
      ∷ number_fixed b.instance_
      ∷ number_fixed b.total_known_burns_count
      ∷ [])

  unfoldable pub new_burn : Context → Text → TokenInstanceKey number → Num → TokenBurn number
  new_burn ctx burned_by k quantity = record {
    burned_by = burned_by;
    collection = k.collection;
    category = k.category;
    type = k.type;
    additional_key = k.additional_key;
    instance_ = k.instance_;
    created = ctx.tx_unix_time;
    quantity = quantity;
  }

  unfoldable pub increment_or_create_token_burn_for_tx :
      Context → Text → TokenInstanceKey number → Num → Action stub (TokenBurn number)
  unfolding new_burn burn_key get_object_by_key recover_not_found validate_or_reject
  increment_or_create_token_burn_for_tx ctx burned_by k quantity = do
    let fresh = new_burn ctx burned_by k quantity
    validate_or_reject stub W.burns fresh
    catch
        (do
          cached ← get_object_by_key stub W.burns (burn_key fresh)
          lift (ok (record cached { quantity = plus cached.quantity quantity })))
        (recover_not_found fresh)

  unfoldable pub burn_reference_id : Context → Text → TokenInstanceKey number → Text
  unfolding get_string_key_from_parts
  burn_reference_id ctx burned_by k = get_string_key_from_parts (
      burned_by
      ∷ k.collection
      ∷ k.category
      ∷ k.type
      ∷ k.additional_key
      ∷ burned_by
      ∷ ℕ_text ctx.tx_unix_time
      ∷ [])

  unfoldable pub new_burn_counter :
      Context → Text → TokenInstanceKey number → Num → Num → Text → TokenBurnCounter number
  unfolding inverse_time burn_reference_id
  new_burn_counter ctx burned_by k quantity known epoch = record {
    collection = k.collection;
    category = k.category;
    type = k.type;
    additional_key = k.additional_key;
    time_key = inverse_time W ctx 0;
    burned_by = burned_by;
    instance_ = k.instance_;
    total_known_burns_count = known;
    created = ctx.tx_unix_time;
    quantity = quantity;
    reference_id = burn_reference_id ctx burned_by k;
    epoch = epoch;
  }

  unfoldable pub increment_or_create_token_burn_counter_for_tx :
      Context → Text → TokenInstanceKey number → Num → Action stub (TokenBurnCounter number)
  unfolding new_burn_counter burn_counter_key get_object_by_key recover_not_found validate_or_reject
      inverse_epoch fetch_known_burn_count get_token_class_key
  increment_or_create_token_burn_counter_for_tx ctx burned_by k quantity = do
    epoch ← λ s. (ok (inverse_epoch W 0 s), s)
    known ← fetch_known_burn_count W ctx (get_token_class_key W k)
    let fresh = new_burn_counter ctx burned_by k quantity known epoch
    validate_or_reject stub W.burn_counters fresh
    catch
        (do
          cached ← get_object_by_key stub W.burn_counters (burn_counter_key fresh)
          lift (ok (record cached { quantity = plus cached.quantity quantity })))
        (recover_not_found fresh)

  -- the allowances of a caller who is not the owner
  unfoldable pub use_burn_allowances :
      Context → Text → Text → BurnTokenQuantity W → TokenInstance number → Action stub (Unit {0})
  unfolding fetch_allowances check_allowances use_allowances falls_below
  use_burn_allowances ctx owner user b i = do
    allowances ← fetch_allowances W (record {
      granted_to = user;
      collection = some i.collection;
      category = some i.category;
      type = some i.type;
      additional_key = some i.additional_key;
      instance_ = some (W.number_text i.instance_);
      allowance_type = some burn;
      granted_by = some owner;
    })
    total ← check_allowances W ctx allowances b.token_instance_key burn user
    (if falls_below number total b.quantity
        then lift (err insufficient_burn_allowance)
        else lift (ok tt))
    used ← use_allowances W ctx b.quantity allowances burn
    if used then lift (ok tt) else lift (err use_allowances_failed)

  -- `if (tokenInstance.isNonFungible && ...)` and the decimal places
  unfoldable pub ensure_burnable :
      TokenInstance number → TokenClass number → Num → Result (Unit {0})
  ensure_burnable i c quantity =
      if i.is_non_fungible && not (is_equal_to quantity (of_ℕ 1))
      then err nft_invalid_quantity_burn
      else if ltb c.decimals (decimal_places quantity)
      then err invalid_decimal
      else ok tt

  -- the balance and the two records, written
  unfoldable pub store_burn :
      TokenBalance number
      → TokenBurn number
      → TokenBurnCounter number
      → Action stub (TokenBurn number)
  unfolding put_balance put_chain_object burn_key burn_counter_key
  store_burn balance burned counter = do
    put_balance W balance
    put_chain_object stub W.burns (burn_key burned) burned
    put_chain_object stub W.burn_counters (burn_counter_key counter) counter
    lift (ok burned)

  unfoldable pub record_burn :
      Context → Text → BurnTokenQuantity W → TokenBalance number → Action stub (TokenBurn number)
  unfolding increment_or_create_token_burn_for_tx increment_or_create_token_burn_counter_for_tx
      store_burn
  record_burn ctx owner b balance = do
    burned ← increment_or_create_token_burn_for_tx ctx owner b.token_instance_key b.quantity
    counter ←
        increment_or_create_token_burn_counter_for_tx ctx owner b.token_instance_key b.quantity
    store_burn balance burned counter

  unfoldable pub class_key_of_instance : TokenInstance number → TokenClassKey
  class_key_of_instance i = record {
    collection = i.collection;
    category = i.category;
    type = i.type;
    additional_key = i.additional_key;
  }

  -- the part behind the checks
  unfoldable pub burn_from :
      Context → Text → BurnTokenQuantity W → TokenInstance number → Action stub (TokenBurn number)
  unfolding fetch_or_create_balance class_key_of_instance take_from record_burn
  burn_from ctx owner b i = do
    balance ← fetch_or_create_balance W owner (class_key_of_instance i)
    balance' ← lift (take_from W i b.quantity ctx.tx_unix_time balance)
    record_burn ctx owner b balance'

  -- the body of the loop
  unfoldable pub burn_one :
      Context → BurnsTokensParams → Text → BurnTokenQuantity W → Action stub (TokenBurn number)
  unfolding fetch_token_instance get_object_by_key build_token_class_composite_key
      use_burn_allowances ensure_burnable burn_from class_key_of_instance
  burn_one ctx p user b = do
    i ← fetch_token_instance W b.token_instance_key
    c ←
        get_object_by_key stub W.classes
          (build_token_class_composite_key W (class_key_of_instance i))
    (if not p.pre_validated && not (eqb user p.owner)
        then use_burn_allowances ctx p.owner user b i
        else lift (ok tt))
    lift (ensure_burnable i c b.quantity)
    burn_from ctx p.owner b i

  unfoldable pub burn_each :
      Context
      → BurnsTokensParams
      → Text
      → List (BurnTokenQuantity W)
      → Action stub (List (TokenBurn number))
  unfolding burn_one
  burn_each ctx p user [] = lift (ok [])
  burn_each ctx p user (b ∷ bs) = do
    burned ← burn_one ctx p user b
    rest ← burn_each ctx p user bs
    lift (ok (burned ∷ rest))

  unfoldable pub burn_tokens : Context → BurnsTokensParams → Action stub (List (TokenBurn number))
  unfolding calling_on_behalf_of burn_each aggregate_burn_quantities
  burn_tokens ctx p = do
    user ← lift (calling_on_behalf_of ctx p.authorized_on_behalf)
    burn_each ctx p user (aggregate_burn_quantities W p.to_burn)
