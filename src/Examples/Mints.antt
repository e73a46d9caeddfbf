-- ===== src/Examples/Mints.antt =====
-- A supply counted, and mints.
use galachain_sdk.Utils.{inverse_time}
use galachain_sdk.Balance.Sort.{sort}
use galachain_sdk.Base.Dict.{lookup}
use galachain_sdk.Base.{
  ◌≡◌, refl, ◌↔◌, ◌||◌, not, true, false, none, some, [], ◌∷◌, Text, text, arith,
}
use galachain_sdk.Base.Int.{ℤ, pos, ◌+ℤ◌, ◌-ℤ◌, ◌≤ℤ◌, ◌<ℤ◌}
use galachain_sdk.Numeric.Units.{whole}
use galachain_sdk.Errors.{ok}
use galachain_sdk.Stub.{Bytes}
use galachain_sdk.Stub.Cache.{StubCache, new_cache, get_cached_state, put_state}
use galachain_sdk.Stub.View.{view}
use galachain_sdk.Balance.Account.{
  TokenBalance, new_balance, contains_instance, ensure_contains_no_nft_instances,
}
use galachain_sdk.Tokens.{TokenClass, TokenClassKey, TokenAllowance, finite, mint}
use galachain_sdk.Tokens.Counters.{TokenMintRequest, unknown_status}
use galachain_sdk.Context.{Context}
use galachain_sdk.Ledger.{fetch_or_create_balance}
use galachain_sdk.Supply.{fetch_mint_supply, end_key, start_key}
use galachain_sdk.Supply.Count.{fetch_mint_supply_complete, mint_tally}
use galachain_sdk.Allowances.Mintable.{ensure_quantity_can_be_minted}
use galachain_sdk.Allowances.Capacity.{ensure_quantity_can_be_minted-decides}
use galachain_sdk.Allowances.Check.{is_allowance_spent, is_allowance_expired}
use galachain_sdk.Allowances.Grant.{allowance_is_useable}
use galachain_sdk.Allowances.Refresh.{is_used_up}
use galachain_sdk.Allowances.Useable.{allowance_is_useable-agrees}
use galachain_sdk.Burns.Exact.{key_of}
use galachain_sdk.Mint.{MintTokenParams, mint_fungible}
use galachain_sdk.Mint.Nft.{mint_nfts, new_nft}
use galachain_sdk.Mint.Request.{
  UpdateTokenSupplyParams, mint_request_key, new_request, write_mint_request,
}
use galachain_sdk.Mint.Exact.{class_key, mint_fungible-stores}
use galachain_sdk.Mint.Loop.{IsNumbered, mint_nfts-ends, mint_nfts-IsNumbered}
use galachain_sdk.Mint.Replaced.{write_mint_request-replaces}
use galachain_sdk.Examples.World.{world, read}
use galachain_sdk.Examples.Chains.{channel, mint_request_codec}

abbrev alice : Context
alice = record {
  calling_user_value = some (text "alice");
  calling_user_roles_value = some [];
  is_multisig_value = some false;
  is_dry_run = false;
  tx_unix_time = 5;
  msp_id = text "Org";
  full_operation_id = text "op";
}

abbrev gala : TokenClassKey
gala = record {
  collection = text "GALA";
  category = text "Unit";
  type = text "none";
  additional_key = text "none";
}

abbrev request : Text → ℤ → ℤ → TokenMintRequest whole
request time_key known quantity = record {
  collection = text "GALA";
  category = text "Unit";
  type = text "none";
  additional_key = text "none";
  time_key = time_key;
  owner = text "alice";
  total_known_mints_count = known;
  requestor = text "alice";
  created = 2;
  quantity = quantity;
  state = unknown_status;
  id = text "id";
  epoch = text "0";
}

-- at the times 3 and 2
abbrev newer : TokenMintRequest whole
newer = request (text "0141911999999999999997") (pos 5) (pos 7)

abbrev older : TokenMintRequest whole
older = request (text "0141911999999999999998") (pos 0) (pos 5)

abbrev entry : TokenMintRequest whole → Text × TokenMintRequest whole
entry r = (mint_request_key channel r, r)

abbrev written : TokenMintRequest whole → Text × Bytes
written r = (mint_request_key channel r, mint_request_codec.write r)

abbrev two_requests : StubCache world
two_requests = new_cache world (written older ∷ written newer ∷ []) false none

fetch_mint_supply_complete_example :
    (n : ℤ) × (fetch_mint_supply channel alice gala (some 1) two_requests ≡ (ok n, two_requests))
    × (n ≡ mint_tally channel (entry newer ∷ entry older ∷ []))
unfolding start_key end_key new_cache mint_request_key inverse_time ◌-ℤ◌ ◌+ℤ◌
fetch_mint_supply_complete_example =
    fetch_mint_supply_complete channel alice gala (some 1) two_requests
      (entry newer ∷ entry older ∷ []) refl (refl, omega arith, (refl, omega arith, tt))

abbrev gala_class : TokenClass whole
gala_class = record {
  collection = text "GALA";
  category = text "Unit";
  type = text "none";
  additional_key = text "none";
  network = text "GC";
  decimals = 0;
  max_supply = finite (pos 100);
  is_non_fungible = false;
  max_capacity = finite (pos 50);
  authorities = text "alice" ∷ [];
  name = text "GALA";
  symbol = text "GALA";
  description = text "token";
  contract_address = none;
  metadata_address = none;
  image = text "image";
  rarity = none;
  total_burned = pos 0;
  total_mint_allowance = pos 0;
  known_mint_allowance_supply = none;
  total_supply = pos 20;
  known_mint_supply = none;
}

ensure_quantity_can_be_minted-decides_example :
    (ensure_quantity_can_be_minted whole gala_class
        (finite (pos 5))
        (some (finite (pos 30)))
        (some (pos 2))
      ≡ ok true)
    ↔ ((pos 30 +ℤ pos 5 ≤ℤ pos 50)
        × (pos 30 -ℤ pos 2 +ℤ pos 5 ≤ℤ pos 100)
        × (pos 0 <ℤ pos 20 → pos 20 +ℤ pos 5 ≤ℤ pos 100))
ensure_quantity_can_be_minted-decides_example =
    ensure_quantity_can_be_minted-decides whole gala_class (pos 50) (pos 100) (pos 5) (pos 30)
      (pos 2) refl refl (omega arith) (omega arith)

abbrev granted : TokenAllowance whole
granted = record {
  granted_to = text "bob";
  collection = text "GALA";
  category = text "Unit";
  type = text "none";
  additional_key = text "none";
  instance_ = pos 0;
  allowance_type = mint;
  granted_by = text "alice";
  created = 1;
  uses = finite (pos 3);
  uses_spent = some (pos 3);
  expires = 0;
  quantity = finite (pos 10);
  quantity_spent = some (pos 2);
}

allowance_is_useable-agrees_example :
    (allowance_is_useable channel alice granted
      ≡ not (is_allowance_spent channel granted || is_allowance_expired channel alice granted))
    × (allowance_is_useable channel alice granted ≡ not (is_used_up channel alice granted))
allowance_is_useable-agrees_example = allowance_is_useable-agrees channel alice granted

abbrev empty : StubCache world
empty = new_cache world [] false none

abbrev params : MintTokenParams channel
params = record {
  token_class_key = gala;
  owner = text "alice";
  quantity = pos 4;
  authorized_on_behalf = none;
  known_total_supply = none;
}

abbrev after : StubCache world
after = (mint_fungible channel alice params gala_class (text "alice") empty).1

mint_fungible-stores_example :
    (b b' : TokenBalance whole) × (c' : TokenClass whole) × ((fetch_or_create_balance channel
        (text "alice")
        gala
        empty).0
      ≡ ok b)
    × (b'.quantity ≡ b.quantity +ℤ pos 4)
    × (c'.total_supply ≡ pos 20 +ℤ pos 4)
    × (view world after (key_of channel b') ≡ channel.balances.serialize b')
    × (view world after (class_key channel gala_class) ≡ channel.classes.serialize c')
unfolding mint_fungible get_cached_state lookup new_cache read ensure_contains_no_nft_instances
    put_state
mint_fungible-stores_example =
    mint_fungible-stores channel alice params gala_class (text "alice") empty after _ refl

abbrev no_tokens : TokenBalance whole
no_tokens = new_balance whole (text "alice") (text "GALA") (text "Unit") (text "none") (text "none")

mint_nfts-ends_example :
    mint_nfts channel gala (text "alice") (pos 2) 2000 0 (pos 7) no_tokens
    ≡ mint_nfts channel gala (text "alice") (pos 2) 1000 0 (pos 7) no_tokens
mint_nfts-ends_example =
    mint_nfts-ends channel gala (text "alice") (pos 2) 2000 (pos 7) no_tokens refl (omega arith)

mint_nfts-IsNumbered_example :
    let nft = λ (id : ℤ). new_nft channel gala (text "alice") id in
    IsNumbered channel (pos 7) (pos 9) (nft (pos 8) ∷ nft (pos 9) ∷ [])
unfolding mint_nfts ◌+ℤ◌ contains_instance new_balance sort
mint_nfts-IsNumbered_example =
    mint_nfts-IsNumbered channel gala (text "alice") (pos 2) 1000 0 (pos 7) no_tokens _ refl

abbrev supply : ℤ → UpdateTokenSupplyParams channel
supply quantity = record {
  token_class_key = gala;
  calling_user = text "alice";
  owner = text "bob";
  quantity = quantity;
  known_total_supply = none;
}

abbrev once : StubCache world
once = (write_mint_request channel alice (supply (pos 3)) empty).1

abbrev twice : StubCache world
twice = (write_mint_request channel alice (supply (pos 4)) once).1

abbrev made : ℤ → TokenMintRequest whole
made quantity = new_request channel alice (supply quantity) (pos 0) (text "0141912000000000000000")

write_mint_request-replaces_example :
    (pos 3 ≡ pos 3)
    × (pos 4 ≡ pos 4)
    × (mint_request_key channel (made (pos 3)) ≡ mint_request_key channel (made (pos 4)))
    × (view world twice (mint_request_key channel (made (pos 3)))
        ≡ channel.mint_requests.serialize (made (pos 4)))
unfolding write_mint_request new_cache ◌-ℤ◌ put_state
write_mint_request-replaces_example =
    write_mint_request-replaces channel alice (supply (pos 3)) (supply (pos 4)) empty once twice
      (made (pos 3)) (made (pos 4)) refl refl refl refl
