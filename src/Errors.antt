-- ===== src/Errors.antt =====
-- The errors that the modelled code throws, by the place that throws them, their codes
-- (chain-api/src/utils/error.ts), and computations that may throw.
use galachain_sdk.Base.{Bool, true, false}

pub data ErrorCode : Type 0 where
  validation_failed unauthorized payment_required forbidden not_found conflict : ErrorCode
  no_longer_available default_error expired not_implemented unknown : ErrorCode

pub data Error : Type 0 where
  -- TokenBalance
  token_not_in_balance token_locked token_not_locked token_quantity_not_unlocked : Error
  instance_already_in_balance invalid_instance_id insufficient_balance : Error
  contains_nft_instances hold_not_fungible negative_quantity : Error
  -- chain objects and state
  object_validation_failed object_not_found no_object_ids invalid_results too_many_results : Error
  invalid_composite_key read_only_flush duplicate_invoke_chaincode type_error
        deserialization_failed :
      Error
  -- token operations
  same_sender_and_recipient nft_invalid_quantity_transfer invalid_decimal : Error
  nft_invalid_quantity_lock invalid_expiration lock_of_others_fungible : Error
  instance_has_no_owner unlock_forbidden_user quantity_not_provided : Error
  -- allowances and burns
  insufficient_allowance allowance_users_mismatch invalid_allowance_users : Error
  allowances_below_zero allowances_not_reached : Error
  insufficient_burn_allowance use_allowances_failed nft_invalid_quantity_burn
        token_class_not_found :
      Error
  balance_not_found undefined_after_defined unauthorized_allowance_refresh : Error
  -- grants and mints
  duplicate_user not_a_token_authority nft_instance_allowance_mismatch : Error
  invalid_token_owner duplicate_allowance total_supply_exceeded mint_capacity_exceeded : Error
  insufficient_mint_allowance nft_max_mint batch_mint_failed range_query_failed : Error
  mint_request_failed token_already_exists nft_decimal : Error
  swap_dto_validation swap_token_failed lock_token_failed transfer_token_failed : Error
  nft_collection_not_found user_not_authorized_for_collection collection_name_mismatch
        vesting_allocation oracle_forbidden too_many_chain_keys :
      Error
  -- transactions
  missing_role organization_not_allowed chaincode_not_allowed missing_operation : Error
  wrong_operation dto_invalid dto_expired unique_transaction_conflict missing_unique_key : Error
  external_call_then_failure authentication_failed wrong_percentages payment_failed : Error

-- `ChainError.withCode` of each class; the plain `Error`s have none.
unfoldable pub code : Error → ErrorCode
code object_not_found = not_found
code token_class_not_found = not_found
code balance_not_found = not_found
code unauthorized_allowance_refresh = forbidden
code invalid_results = default_error
code too_many_results = forbidden
code read_only_flush = not_implemented
code duplicate_invoke_chaincode = not_implemented
code lock_of_others_fungible = not_implemented
code instance_has_no_owner = default_error
code unlock_forbidden_user = forbidden
code allowances_below_zero = unknown
code allowances_not_reached = unknown
code use_allowances_failed = default_error
code invalid_allowance_users = forbidden
code not_a_token_authority = forbidden
code duplicate_allowance = conflict
code batch_mint_failed = default_error
code range_query_failed = unknown
code mint_request_failed = unknown
code swap_token_failed = default_error
code lock_token_failed = default_error
code transfer_token_failed = default_error
code token_already_exists = conflict
code nft_collection_not_found = not_found
code user_not_authorized_for_collection = forbidden
code collection_name_mismatch = forbidden
code oracle_forbidden = unauthorized
code missing_role = unauthorized
code organization_not_allowed = forbidden
code chaincode_not_allowed = forbidden
code missing_operation = unauthorized
code wrong_operation = unauthorized
code dto_expired = expired
code unique_transaction_conflict = conflict
code missing_unique_key = default_error
code type_error = unknown
code deserialization_failed = unknown
code external_call_then_failure = default_error
code authentication_failed = unauthorized
code payment_failed = payment_required
code _ = validation_failed

-- What a method gives: a value, or what it throws.
pub data Result {ℓ} (Value : Type ℓ) : Type ℓ where
  ok : Value → Result Value
  err : (thrown : Error) → Result Value

-- `if (test) throw e`
abbrev pub throw_if : Bool → Error → Result (Unit {0})
throw_if true thrown = err thrown
throw_if false thrown = ok tt

-- What follows a throw is not run.
module _ {ℓ κ} {First : Type ℓ} {Second : Type κ} where
  infixl 5 ◌>>=◌
  abbrev pub ◌>>=◌ : Result First → (First → Result Second) → Result Second
  (err thrown) >>= next = err thrown
  (ok value) >>= next = next value

module _ {κ} {Second : Type κ} where
  infixl 5 ◌>>◌
  abbrev pub ◌>>◌ : Result (Unit {0}) → Result Second → Result Second
  first >> second = first >>= λ done. second
