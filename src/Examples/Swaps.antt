-- ===== src/Examples/Swaps.antt =====
-- A swap filled.
use galachain_sdk.Balance.Hold.{is_expired, is_vesting_hold}
use galachain_sdk.Balance.Fungible.{
  get_current_locked_quantity, sum_held, get_unexpired_locked_holds_sorted,
  is_calling_user_authorized, unlock_loop, unlock_one,
}
use galachain_sdk.Base.{
  ◌≡◌, refl, ◌∷◌, ◌==◌, ◌&&◌, not, true, false, none, some, [], Text, text, eqb, leb, opt_eqb,
}
use galachain_sdk.Base.Int.{ℤ, pos, ◌+ℤ◌, ◌-ℤ◌, ◌≤ℤ◌, ◌<ℤ◌}
use galachain_sdk.Base.Dict.{Dict, lookup, insert}
use galachain_sdk.Numeric.Units.{whole}
use galachain_sdk.Errors.{ok}
use galachain_sdk.Stub.Cache.{StubCache, new_cache, get_cached_state}
use galachain_sdk.State.{get_object_by_key}
use galachain_sdk.Balance.Account.{
  TokenBalance, ensure_contains_no_nft_instances, get_unexpired_locked_holds,
}
use galachain_sdk.Balance.Solvency.{IsSolventOrVests}
use galachain_sdk.Tokens.{TokenInstance, TokenInstanceKey, TokenClass, TokenClassKey, finite}
use galachain_sdk.Context.{Context}
use galachain_sdk.Stub.{Bytes}
use galachain_sdk.Ledger.{
  instance_key, balance_key, build_token_class_composite_key, get_token_class_key,
}
use galachain_sdk.Swaps.{SwapChain, TokenSwapRequest}
use galachain_sdk.Swaps.Exchange.{swapped}
use galachain_sdk.Swaps.Conserve.{swapped-conserves}
use galachain_sdk.Swaps.Checks.{FillTokenSwapParams, is_for_another}
use galachain_sdk.Swaps.Fill.{filled, new_fill, fill_token_swap}
use galachain_sdk.Swaps.Bounds.{fill_token_swap-bounds}
use galachain_sdk.Examples.Codec.{serial}
use galachain_sdk.Examples.World.{world, read}
use galachain_sdk.Examples.Chains.{
  balance_codec, class_codec, instance_codec, channel, swap_codec, fill_codec, swap_instance_codec,
  swap_user_codec,
}

abbrev swap_channel : SwapChain
swap_channel = record {
  chain = channel;
  hold_is_valid = λ h. true;
  swaps = serial swap_codec refl (λ x. true);
  fills = serial fill_codec refl (λ x. true);
  offered_instances = serial swap_instance_codec refl (λ x. true);
  wanted_instances = serial swap_instance_codec refl (λ x. true);
  offered_by_users = serial swap_user_codec refl (λ x. true);
  offered_to_users = serial swap_user_codec refl (λ x. true);
}

abbrev gala : TokenInstance whole
gala = record {
  collection = text "GALA";
  category = text "Unit";
  type = text "none";
  additional_key = text "none";
  instance_ = pos 0;
  is_non_fungible = false;
  owner = none;
}

abbrev balance_of : Text → ℤ → TokenBalance whole
balance_of owner q = record {
  owner = owner;
  collection = text "GALA";
  category = text "Unit";
  type = text "none";
  additional_key = text "none";
  quantity = q;
  instance_ids = none;
  locked_holds = none;
  vesting_period_start = none;
}

swapped-conserves_example :
    (pos 6 ≡ pos 10 -ℤ pos 4)
    × (pos 5 ≡ pos 1 +ℤ pos 4)
    × IsSolventOrVests whole (balance_of (text "alice") (pos 6)) 5
unfolding swapped ensure_contains_no_nft_instances ◌-ℤ◌ get_current_locked_quantity sum_held
    get_unexpired_locked_holds ◌+ℤ◌
swapped-conserves_example =
    swapped-conserves channel gala (pos 4) (text "alice") (text "id") 5 true
      (balance_of (text "alice") (pos 10)) (balance_of (text "bob") (pos 1))
      (balance_of (text "alice") (pos 6)) (balance_of (text "bob") (pos 5)) refl refl

abbrev gala_class : TokenClass whole
gala_class = record {
  collection = text "GALA";
  category = text "Unit";
  type = text "none";
  additional_key = text "none";
  network = text "GC";
  decimals = 0;
  max_supply = finite (pos 100);
  is_non_fungible = false;
  max_capacity = finite (pos 50);
  authorities = text "alice" ∷ [];
  name = text "GALA";
  symbol = text "GALA";
  description = text "token";
  contract_address = none;
  metadata_address = none;
  image = text "image";
  rarity = none;
  total_burned = pos 0;
  total_mint_allowance = pos 0;
  known_mint_allowance_supply = none;
  total_supply = pos 20;
  known_mint_supply = none;
}

abbrev gala_key : TokenInstanceKey whole
gala_key = record {
  collection = text "GALA";
  category = text "Unit";
  type = text "none";
  additional_key = text "none";
  instance_ = pos 0;
}

abbrev open_swap : TokenSwapRequest whole
open_swap = record {
  created = 1;
  txid = text "t";
  swap_request_id = [];
  offered = record { token_instance = gala_key; quantity = pos 2 } ∷ [];
  wanted = [];
  offered_to = some (text "bob");
  offered_by = text "alice";
  fill_ids = [];
  uses = pos 3;
  uses_spent = pos 1;
  expires = 9;
}

abbrev bob : Context
bob = record {
  calling_user_value = some (text "bob");
  calling_user_roles_value = some [];
  is_multisig_value = some false;
  is_dry_run = false;
  tx_unix_time = 5;
  msp_id = text "Org";
  full_operation_id = text "op";
}

abbrev twice : FillTokenSwapParams swap_channel
twice = record {
  filled_by = text "bob";
  uses = pos 2;
  swap_request_id = text "id";
  expected_token_swap = none;
}

-- Alice has ten, four of which are locked for the two uses left.
abbrev locked : TokenBalance whole
locked = record (balance_of (text "alice") (pos 10)) {
  locked_holds = some (
      record {
        created_by = text "alice";
        instance_id = pos 0;
        quantity = pos 4;
        created = 1;
        expires = 9;
        name = some (text "id");
        lock_authority = some (text "alice");
        vesting_period_start = none;
      }
      ∷ []);
}

abbrev class_of_gala : TokenClassKey
class_of_gala = get_token_class_key channel gala_key

abbrev ledger : Dict Bytes
ledger =
    (text "id", swap_codec.write open_swap)
    ∷ (instance_key channel gala_key, instance_codec.write gala)
    ∷ (build_token_class_composite_key channel class_of_gala, class_codec.write gala_class)
    ∷ (balance_key channel (text "alice") class_of_gala, balance_codec.write locked)
    ∷ []

abbrev start : StubCache world
start = new_cache world ledger false none

fill_token_swap-bounds_example :
    (r : TokenSwapRequest whole) × ((get_object_by_key world swap_channel.swaps (text "id") start).0
      ≡ ok r)
    × (pos 0 <ℤ pos 2)
    × ((filled swap_channel r (new_fill swap_channel bob twice)).uses_spent ≤ℤ r.uses)
    × (eqb (text "bob") r.offered_by ≡ false)
    × (is_for_another swap_channel r.offered_to (text "bob") ≡ false)
    × ((not (r.expires == 0) && leb r.expires 5) ≡ false)
unfolding fill_token_swap get_cached_state lookup new_cache read insert eqb ◌-ℤ◌ unlock_loop
    get_unexpired_locked_holds_sorted get_unexpired_locked_holds is_expired unlock_one
    is_vesting_hold is_calling_user_authorized opt_eqb ensure_contains_no_nft_instances
    get_current_locked_quantity sum_held
fill_token_swap-bounds_example =
    fill_token_swap-bounds swap_channel bob twice start (new_fill swap_channel bob twice) refl
