-- ===== src/Examples/Tokens.antt =====
-- A transfer, the parts of a fee, and an authorization.
use galachain_sdk.Base.{◌≡◌, refl, true, false, none, some, List, [], ◌∷◌, ◌++◌, Text, text, eqb}
use galachain_sdk.Base.Dict.{Dict}
use galachain_sdk.Base.Int.{ℤ, pos, ◌+ℤ◌, ◌-ℤ◌}
use galachain_sdk.Numeric.Units.{whole}
use galachain_sdk.Errors.{ok}
use galachain_sdk.Stub.{Bytes}
use galachain_sdk.Stub.Cache.{StubCache, new_cache}
use galachain_sdk.Balance.Account.{TokenBalance}
use galachain_sdk.Balance.Solvency.{IsSolventOrVests}
use galachain_sdk.Tokens.{TokenInstance, TokenInstanceKey, TokenClassKey}
use galachain_sdk.Context.{Context}
use galachain_sdk.Ledger.{balance_key, get_token_class_key, fetch_or_create_balance}
use galachain_sdk.Transfer.{TransferTokenParams, move}
use galachain_sdk.Transfer.Conserve.{move-conserves}
use galachain_sdk.Fees.{
  FeeCodeTransferPercentage, FeeCodeTransferQuantity, FeeCodeSplitFormula, transfer_of,
  calculate_amounts,
}
use galachain_sdk.Fees.Split.{transferred, calculate_amounts-total, calculate_amounts-twice}
use galachain_sdk.Authorize.{AuthorizeOptions, member, named_operation, authorize}
use galachain_sdk.Authorize.Sound.{authorize-organization}
use galachain_sdk.Stub.Cache.{get_cached_state, put_state}
use galachain_sdk.Base.Dict.{lookup, insert, remove}
use galachain_sdk.Base.{eqb}
use galachain_sdk.Errors.{code}
use galachain_sdk.Transfer.{move_to, exchange, take_from, give_to, store}
use galachain_sdk.Balance.Account.{
  new_balance, or_empty, ensure_contains_no_nft_instances, get_unexpired_locked_holds,
  contains_any_nft_instance_id, get_nft_instance_ids, is_fungible,
}
use galachain_sdk.Balance.Fungible.{
  get_current_locked_quantity, sum_held, add_quantity, subtract_quantity,
}
use galachain_sdk.Keys.{composite_key, tail_of}
use galachain_sdk.State.{
  get_object_by_key, is_not_found, object_of, read_bytes, put_chain_object, recover_not_found,
  validate_or_reject,
}
use galachain_sdk.Ledger.{put_balance}
use galachain_sdk.Examples.World.{world, read}
use galachain_sdk.Examples.Chains.{channel, balance_codec}

abbrev gala : TokenInstanceKey whole
gala = record {
  collection = text "GALA";
  category = text "Unit";
  type = text "none";
  additional_key = text "none";
  instance_ = pos 0;
}

abbrev gala_instance : TokenInstance whole
gala_instance = record {
  collection = text "GALA";
  category = text "Unit";
  type = text "none";
  additional_key = text "none";
  instance_ = pos 0;
  is_non_fungible = false;
  owner = none;
}

abbrev balance_of : Text → ℤ → TokenBalance whole
balance_of owner q = record {
  owner = owner;
  collection = text "GALA";
  category = text "Unit";
  type = text "none";
  additional_key = text "none";
  instance_ids = some [];
  locked_holds = some [];
  quantity = q;
  vesting_period_start = none;
}

abbrev gala_class : TokenClassKey
gala_class = get_token_class_key channel gala

-- Alice has ten; Bob has no balance yet.
abbrev ledger : Dict Bytes
ledger =
    (
      balance_key channel (text "alice") gala_class,
      balance_codec.write (balance_of (text "alice") (pos 10)),
    )
    ∷ []

abbrev start : StubCache world
start = new_cache world ledger false none

abbrev alice : Context
alice = record {
  calling_user_value = some (text "alice");
  calling_user_roles_value = some [];
  is_multisig_value = some false;
  is_dry_run = false;
  tx_unix_time = 5;
  msp_id = text "Org";
  full_operation_id = text "op";
}

abbrev to_bob : TransferTokenParams channel
to_bob = record {
  from_ = text "alice";
  to = text "bob";
  token_instance_key = gala;
  quantity = pos 4;
  allowances_to_use = [];
  authorized_on_behalf = none;
}

move-conserves_example :
    (f t : TokenBalance whole) × ((fetch_or_create_balance channel
        (text "alice")
        gala_class
        start).0
      ≡ ok f)
    × ((fetch_or_create_balance channel
          (text "bob")
          gala_class
          (fetch_or_create_balance channel (text "alice") gala_class start).1).0
        ≡ ok t)
    × (pos 6 ≡ f.quantity -ℤ pos 4)
    × (pos 4 ≡ t.quantity +ℤ pos 4)
    × IsSolventOrVests whole (balance_of (text "alice") (pos 6)) 5
unfolding move fetch_or_create_balance get_cached_state lookup new_cache read eqb
    get_token_class_key move_to insert exchange take_from ensure_contains_no_nft_instances ◌-ℤ◌ ◌+ℤ◌
    get_current_locked_quantity sum_held get_unexpired_locked_holds give_to composite_key
    contains_any_nft_instance_id get_nft_instance_ids is_fungible new_balance or_empty add_quantity
    subtract_quantity get_object_by_key is_not_found object_of put_chain_object read_bytes
    recover_not_found validate_or_reject put_state store put_balance tail_of balance_key remove code
move-conserves_example =
    move-conserves channel alice to_bob gala_instance start (balance_of (text "alice") (pos 6))
      (balance_of (text "bob") (pos 4)) refl refl

abbrev recipient : Text → ℤ → FeeCodeTransferPercentage whole
recipient user share = record { transfer_to_user = user; transfer_percentage = share }

abbrev burning : FeeCodeSplitFormula whole
burning = record {
  fee_code = text "fee";
  burn_percentage = pos 1;
  transfer_percentages = recipient (text "bob") (pos 0) ∷ [];
}

calculate_amounts-total_example :
    (calculate_amounts whole burning (pos 100) 0).0
      +ℤ transferred whole (calculate_amounts whole burning (pos 100) 0).1
    ≡ pos 100
calculate_amounts-total_example = calculate_amounts-total whole burning (pos 100) 0 refl

abbrev bob : FeeCodeTransferPercentage whole
bob = recipient (text "bob") (pos 1)

abbrev not_burning : FeeCodeSplitFormula whole
not_burning = record {
  fee_code = text "fee";
  burn_percentage = pos 0;
  transfer_percentages = bob ∷ [];
}

-- The one recipient gets a hundred, and a hundred is to be burned.
calculate_amounts-twice_example :
    (others : List (FeeCodeTransferQuantity whole)) × let (burned, transfers) =
        calculate_amounts whole not_burning (pos 100) 0 in
      (transfers ≡ others ++ transfer_of whole bob (whole.round burned 0) ∷ [])
      × (whole.units burned +ℤ transferred whole others ≡ whole.units (whole.round (pos 100) 0))
calculate_amounts-twice_example =
    calculate_amounts-twice whole not_burning (pos 100) 0 [] bob refl refl

abbrev organizations : AuthorizeOptions
organizations = record {
  allowed_orgs = some (text "Org" ∷ []);
  allowed_roles = none;
  allowed_origin_chaincodes = none;
  quorum = none;
}

authorize-organization_example :
    (member (text "Org" ∷ []) (text "Org") ≡ true)
    × ((t : Text) → named_operation (some (text "op")) ≡ some t → t ≡ text "op")
unfolding authorize eqb
authorize-organization_example =
    authorize-organization alice organizations (some (text "op")) (text "Org" ∷ []) refl refl refl
