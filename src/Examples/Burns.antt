-- ===== src/Examples/Burns.antt =====
-- A burn, the aggregation of burns, and two tokens that it takes for one.
use galachain_sdk.Balance.Fungible.{get_current_locked_quantity, sum_held}
use galachain_sdk.Base.Dict.{insert, lookup}
use galachain_sdk.Base.{◌≡◌, refl, false, none, some, List, [], ◌∷◌, Text, text, eqb}
use galachain_sdk.Base.Int.{pos, ◌-ℤ◌, ◌+ℤ◌}
use galachain_sdk.Numeric.Units.{whole}
use galachain_sdk.Errors.{ok}
use galachain_sdk.Stub.Cache.{StubCache, new_cache, get_cached_state}
use galachain_sdk.Stub.View.{view}
use galachain_sdk.Balance.Account.{
  TokenBalance, ensure_contains_no_nft_instances, get_unexpired_locked_holds,
}
use galachain_sdk.Balance.Solvency.{IsSolventOrVests}
use galachain_sdk.Tokens.{TokenInstance, TokenInstanceKey}
use galachain_sdk.Tokens.Counters.{TokenBurn}
use galachain_sdk.Context.{Context}
use galachain_sdk.Ledger.{balance_key, fetch_or_create_balance}
use galachain_sdk.Burns.{burn_from, burn_key, class_key_of_instance}
use galachain_sdk.Burns.Aggregate.{BurnTokenQuantity, aggregate_burn_quantities}
use galachain_sdk.Burns.Grouped.{
  HasEachOnce, total_of, grouped_onto, aggregate_burn_quantities-grouped,
  aggregate_burn_quantities-sums,
}
use galachain_sdk.Burns.Merged.{moved_left, moved_right, aggregate_burn_quantities-merges}
use galachain_sdk.Burns.Exact.{key_of, burn_from-stores}
use galachain_sdk.Examples.World.{world, read}
use galachain_sdk.Examples.Chains.{channel, balance_codec}

abbrev gala : TokenInstanceKey whole
gala = record {
  collection = text "GALA";
  category = text "Unit";
  type = text "none";
  additional_key = text "none";
  instance_ = pos 0;
}

abbrev gala_instance : TokenInstance whole
gala_instance = record {
  collection = text "GALA";
  category = text "Unit";
  type = text "none";
  additional_key = text "none";
  instance_ = pos 0;
  is_non_fungible = false;
  owner = none;
}

abbrev ten : TokenBalance whole
ten = record {
  owner = text "alice";
  collection = text "GALA";
  category = text "Unit";
  type = text "none";
  additional_key = text "none";
  instance_ids = some [];
  locked_holds = some [];
  quantity = pos 10;
  vesting_period_start = none;
}

abbrev start : StubCache world
start =
    new_cache world
      ((
        balance_key channel (text "alice") (class_key_of_instance channel gala_instance),
        balance_codec.write ten,
      )
        ∷ [])
      false none

abbrev alice : Context
alice = record {
  calling_user_value = some (text "alice");
  calling_user_roles_value = some [];
  is_multisig_value = some false;
  is_dry_run = false;
  tx_unix_time = 5;
  msp_id = text "Org";
  full_operation_id = text "op";
}

abbrev four : BurnTokenQuantity channel
four = record { token_instance_key = gala; quantity = pos 4 }

abbrev burned : TokenBurn whole
burned = record {
  burned_by = text "alice";
  collection = text "GALA";
  category = text "Unit";
  type = text "none";
  additional_key = text "none";
  instance_ = pos 0;
  created = 5;
  quantity = pos 4;
}

abbrev after : StubCache world
after = (burn_from channel alice (text "alice") four gala_instance start).1

burn_from-stores_example :
    (f f' : TokenBalance whole) × ((fetch_or_create_balance channel
        (text "alice")
        (class_key_of_instance channel gala_instance)
        start).0
      ≡ ok f)
    × (f'.quantity ≡ f.quantity -ℤ pos 4)
    × IsSolventOrVests whole f' 5
    × (view world after (key_of channel f') ≡ channel.balances.serialize f')
    × (view world after (burn_key channel burned) ≡ channel.burns.serialize burned)
unfolding burn_from get_cached_state lookup new_cache read eqb ensure_contains_no_nft_instances ◌-ℤ◌
    get_current_locked_quantity sum_held get_unexpired_locked_holds insert
burn_from-stores_example =
    burn_from-stores channel alice (text "alice") four gala_instance start after burned refl refl

abbrev silver : TokenInstanceKey whole
silver = record gala { collection = text "SILVER" }

abbrev one_silver : BurnTokenQuantity channel
one_silver = record { token_instance_key = silver; quantity = pos 1 }

abbrev requests : List (BurnTokenQuantity channel)
requests = four ∷ one_silver ∷ four ∷ []

aggregate_burn_quantities-sums_example :
    HasEachOnce channel (aggregate_burn_quantities channel requests)
    × ((k : Text)
        → total_of channel k (aggregate_burn_quantities channel requests)
          ≡ total_of channel k requests)
aggregate_burn_quantities-sums_example = aggregate_burn_quantities-sums channel requests

aggregate_burn_quantities-grouped_example :
    aggregate_burn_quantities channel requests ≡ grouped_onto channel [] requests
aggregate_burn_quantities-grouped_example = aggregate_burn_quantities-grouped channel requests

-- the collection `GALA_Unit` with the category `a`, and `GALA` with `Unit_a`
aggregate_burn_quantities-merges_example :
    let first : BurnTokenQuantity channel = record {
      token_instance_key = moved_left channel gala (text "Unit") (text "a");
      quantity = pos 4;
    } in
    let other : BurnTokenQuantity channel = record {
      token_instance_key = moved_right channel gala (text "Unit") (text "a");
      quantity = pos 3;
    } in
    (¬ (first.token_instance_key ≡ other.token_instance_key))
    × (aggregate_burn_quantities channel (first ∷ other ∷ [])
        ≡ record first { quantity = pos 7 } ∷ [])
unfolding ◌+ℤ◌
aggregate_burn_quantities-merges_example =
    aggregate_burn_quantities-merges channel gala (text "Unit") (text "a") (pos 4) (pos 3)
