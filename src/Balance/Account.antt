-- ===== src/Balance/Account.antt =====
-- The fields of `class TokenBalance` (chain-api/src/types/TokenBalance.ts) and what both kinds of
-- tokens share. The owner and the four parts of the class key are the balance's chain key.
use galachain_sdk.Base.{ℕ, Bool, not, Option, none, some, List, [], Text, filter, any, length, ltb}
use galachain_sdk.Numeric.{BigNumber}
use galachain_sdk.Balance.Hold.{TokenHold, is_expired}
use galachain_sdk.Errors.{Result, contains_nft_instances, throw_if}

pub record TokenBalance (B : BigNumber) : Type 0 where
  pub owner : Text
  pub collection : Text
  pub category : Text
  pub type : Text
  pub additional_key : Text
  pub instance_ids : Option (List B.Num)
  pub locked_holds : Option (List (TokenHold B))
  pub quantity : B.Num
  pub vesting_period_start : Option ℕ

-- `x ?? []`
unfoldable pub or_empty : {A : Type 0} → Option (List A) → List A
or_empty none = []
or_empty (some xs) = xs

module _ (B : BigNumber) where
  open B use {Num, of_ℕ, plus, is_equal_to}

  -- the constructor, with its parameters
  unfoldable pub new_balance : Text → Text → Text → Text → Text → TokenBalance B
  new_balance owner collection category type additional_key = record {
    owner = owner;
    collection = collection;
    category = category;
    type = type;
    additional_key = additional_key;
    instance_ids = some [];
    locked_holds = some [];
    quantity = of_ℕ 0;
    vesting_period_start = none;
  }

  -- `TokenInstance.isFungible` (chain-api/src/types/TokenInstance.ts): the instance 0
  unfoldable pub is_fungible : Num → Bool
  is_fungible id = is_equal_to (of_ℕ 0) id

  unfoldable pub get_unexpired_locked_holds : TokenBalance B → ℕ → List (TokenHold B)
  unfolding or_empty
  get_unexpired_locked_holds b now =
      filter (λ h. not (is_expired B h now)) (or_empty b.locked_holds)

  unfoldable pub get_nft_instance_ids : TokenBalance B → List Num
  unfolding or_empty is_fungible
  get_nft_instance_ids b = filter (λ id. not (is_fungible id)) (or_empty b.instance_ids)

  unfoldable pub get_nft_instance_count : TokenBalance B → ℕ
  unfolding get_nft_instance_ids
  get_nft_instance_count b = length (get_nft_instance_ids b)

  unfoldable pub contains_any_nft_instance_id : TokenBalance B → Bool
  unfolding get_nft_instance_ids
  contains_any_nft_instance_id b = ltb 0 (length (get_nft_instance_ids b))

  unfoldable pub contains_instance : TokenBalance B → Num → Bool
  unfolding or_empty
  contains_instance b id = any (λ x. is_equal_to x id) (or_empty b.instance_ids)

  unfoldable pub cleanup_expired_holds : TokenBalance B → ℕ → TokenBalance B
  unfolding get_unexpired_locked_holds
  cleanup_expired_holds b now = record b { locked_holds = some (get_unexpired_locked_holds b now) }

  unfoldable pub ensure_contains_no_nft_instances : TokenBalance B → Result (Unit {0})
  unfolding contains_any_nft_instance_id
  ensure_contains_no_nft_instances b =
      throw_if (contains_any_nft_instance_id b) contains_nft_instances
