-- ===== src/Ledger.antt =====
-- What the token operations share: the codecs, the keys of the chain objects, and the fetch
-- functions of chaincode/src/balances and chaincode/src/token.
use galachain_sdk.Base.{
  ℕ, Bool, true, false, Option, none, some, List, [], ◌∷◌, Text, text, if◌then◌else◌,
}
use galachain_sdk.Numeric.{BigNumber}
use galachain_sdk.Errors.{
  Result, ok, err, token_class_not_found, balance_not_found, undefined_after_defined,
}
use galachain_sdk.Balance.Account.{TokenBalance, new_balance}
use galachain_sdk.Stub.{ChaincodeStub}
use galachain_sdk.State.{
  Serial, Action, lift, catch, ◌>>=◌, ◌>>◌, recover_not_found, is_not_found, validate_or_reject,
  put_chain_object, get_object_by_key, get_objects_by_partial_composite_key,
}
use galachain_sdk.Keys.{composite_key}
use galachain_sdk.Tokens.Counters.{
  TokenBurn, TokenBurnCounter, TokenMintRequest, TokenMintFulfillment, TokenMintAllowanceRequest,
  TokenMintAllowance,
}
use galachain_sdk.Tokens.{
  TokenClassKey, TokenInstanceKey, TokenInstance, TokenClass, TokenAllowance, TokenClaim,
}

-- The parts of a channel that are outside the modelled code: Fabric's stub, bignumber.js, the codecs
-- of the classes, numbers as texts, and the resolution of a user reference to an alias.
pub record Chain : Type 1 where
  pub stub : ChaincodeStub
  pub number : BigNumber
  pub balances : Serial (TokenBalance number)
  pub instances : Serial (TokenInstance number)
  pub classes : Serial (TokenClass number)
  pub allowances : Serial (TokenAllowance number)
  pub claims : Serial (TokenClaim number)
  pub burns : Serial (TokenBurn number)
  pub burn_counters : Serial (TokenBurnCounter number)
  pub mint_requests : Serial (TokenMintRequest number)
  pub mint_fulfillments : Serial (TokenMintFulfillment number)
  pub mint_allowance_requests : Serial (TokenMintAllowanceRequest number)
  pub mint_allowances : Serial (TokenMintAllowance number)
  -- `BigNumber.toString`, `BigNumber.toFixed`, which class-transformer writes, and `Number.toString` of a natural number
  pub number_text : number.Num → Text
  pub number_fixed : number.Num → Text
  pub ℕ_text : ℕ → Text
  pub resolve_user_alias : Text → Action stub Text

-- The loop of `takeUntilUndefined` (chaincode/src/utils/utils.ts).
unfoldable pub all_undefined : List (Option Text) → Bool
all_undefined [] = true
all_undefined (none ∷ args) = all_undefined args
all_undefined (some a ∷ args) = false

unfoldable pub take_until_undefined : List (Option Text) → Result (List Text)
unfolding all_undefined
take_until_undefined [] = ok []
take_until_undefined (none ∷ args) =
    if all_undefined args then ok [] else err undefined_after_defined
take_until_undefined (some a ∷ args) = elim (take_until_undefined args) [
  | err e ↦ err e
  | ok rest ↦ ok (a ∷ rest)
]

module _ (W : Chain) where
  open W use {stub, number}

  unfoldable pub balance_key : Text → TokenClassKey → Text
  unfolding composite_key
  balance_key owner c =
      composite_key (text "GCTB")
        (owner ∷ c.collection ∷ c.category ∷ c.type ∷ c.additional_key ∷ [])

  abbrev pub class_key_of_balance : TokenBalance number → TokenClassKey
  class_key_of_balance b = record {
    collection = b.collection;
    category = b.category;
    type = b.type;
    additional_key = b.additional_key;
  }

  unfoldable pub put_balance : TokenBalance number → Action stub (Unit {0})
  unfolding put_chain_object balance_key
  put_balance b = put_chain_object stub W.balances (balance_key b.owner (class_key_of_balance b)) b

  -- `TokenInstanceKey.getTokenClassKey`
  unfoldable pub get_token_class_key : TokenInstanceKey number → TokenClassKey
  get_token_class_key k = record {
    collection = k.collection;
    category = k.category;
    type = k.type;
    additional_key = k.additional_key;
  }

  -- `TokenInstance.buildInstanceKeyList`
  unfoldable pub build_instance_key_list : TokenInstanceKey number → List Text
  build_instance_key_list k =
      k.collection ∷ k.category ∷ k.type ∷ k.additional_key ∷ W.number_text k.instance_ ∷ []

  unfoldable pub instance_key : TokenInstanceKey number → Text
  unfolding composite_key build_instance_key_list
  instance_key k = composite_key (text "GCTI2") (build_instance_key_list k)

  -- `TokenInstance.instanceKeyObj`
  unfoldable pub instance_key_obj : TokenInstance number → TokenInstanceKey number
  instance_key_obj i = record {
    collection = i.collection;
    category = i.category;
    type = i.type;
    additional_key = i.additional_key;
    instance_ = i.instance_;
  }

  -- `TokenClass.buildTokenClassCompositeKey`
  unfoldable pub build_token_class_composite_key : TokenClassKey → Text
  unfolding composite_key
  build_token_class_composite_key c =
      composite_key (text "GCTI") (c.collection ∷ c.category ∷ c.type ∷ c.additional_key ∷ [])

  -- A put writes by `getCompositeKey`, which has the instance as class-transformer writes it.
  unfoldable pub put_instance : TokenInstance number → Action stub (Unit {0})
  unfolding put_chain_object composite_key
  put_instance i =
      put_chain_object stub W.instances
        (composite_key (text "GCTI2")
          (i.collection ∷ i.category ∷ i.type ∷ i.additional_key ∷ W.number_fixed i.instance_ ∷ []))
        i

  unfoldable pub put_class : TokenClass number → Action stub (Unit {0})
  unfolding put_chain_object composite_key
  put_class c =
      put_chain_object stub W.classes
        (composite_key (text "GCTI") (c.collection ∷ c.category ∷ c.type ∷ c.additional_key ∷ [])) c

  unfoldable pub fetch_or_create_balance : Text → TokenClassKey → Action stub (TokenBalance number)
  unfolding get_object_by_key recover_not_found validate_or_reject balance_key new_balance
  fetch_or_create_balance owner c = do
    let empty = new_balance number owner c.collection c.category c.type c.additional_key
    fetched ←
        catch (get_object_by_key stub W.balances (balance_key owner c)) (recover_not_found empty)
    validate_or_reject stub W.balances fetched
    lift (ok fetched)

  unfoldable pub fetch_token_instance : TokenInstanceKey number → Action stub (TokenInstance number)
  unfolding get_object_by_key instance_key
  fetch_token_instance k = get_object_by_key stub W.instances (instance_key k)

  unfoldable pub fetch_token_class : TokenClassKey → Action stub (TokenClass number)
  unfolding get_object_by_key build_token_class_composite_key
  fetch_token_class c =
      catch (get_object_by_key stub W.classes (build_token_class_composite_key c))
        (λ e. err token_class_not_found)

  unfoldable pub fetch_balances :
      Text
      → Option Text
      → Option Text
      → Option Text
      → Option Text
      → Action stub (List (TokenBalance number))
  unfolding take_until_undefined get_objects_by_partial_composite_key is_not_found
  fetch_balances owner collection category type additional_key = do
    query ←
        lift
          (take_until_undefined (some owner ∷ collection ∷ category ∷ type ∷ additional_key ∷ []))
    catch (get_objects_by_partial_composite_key stub W.balances (text "GCTB") query)
        (λ e. if is_not_found e then err balance_not_found else err e)
