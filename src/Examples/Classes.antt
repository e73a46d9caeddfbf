-- ===== src/Examples/Classes.antt =====
-- A token class created twice, and a class created in a collection.
use galachain_sdk.Base.{◌≡◌, refl, true, false, none, some, [], ◌∷◌, Text, text, eqb}
use galachain_sdk.Base.Int.{pos}
use galachain_sdk.Base.Dict.{insert, lookup}
use galachain_sdk.Errors.{ok, err, token_already_exists}
use galachain_sdk.Stub.Cache.{StubCache, new_cache, get_cached_state}
use galachain_sdk.State.{Serial}
use galachain_sdk.Tokens.{infinite, TokenClassKey}
use galachain_sdk.Context.{Context, calling_user}
use galachain_sdk.Locks.Unlock.{includes}
use galachain_sdk.Classes.{CreateTokenClassParams, create_token_class}
use galachain_sdk.Classes.Once.{create_token_class-once}
use galachain_sdk.Collections.{
  NftCollectionAuthorization, CreateNftCollectionDto, authorization_key, create_nft_collection,
  fetch_nft_collection_authorization,
}
use galachain_sdk.Collections.Sound.{create_nft_collection-authorized}
use galachain_sdk.Examples.Codec.{Codec, via, pair, list, serial, text_codec}
use galachain_sdk.Examples.World.{world, read}
use galachain_sdk.Examples.Chains.{channel}

abbrev key : TokenClassKey
key = record {
  collection = text "GALA";
  category = text "Unit";
  type = text "none";
  additional_key = text "none";
}

abbrev named : Text → CreateTokenClassParams channel
named name = record {
  network = text "GC";
  token_class = key;
  is_non_fungible = false;
  decimals = 8;
  name = name;
  symbol = text "GALA";
  description = text "token";
  rarity = none;
  image = text "image";
  contract_address = none;
  metadata_address = none;
  max_supply = infinite;
  max_capacity = infinite;
  total_mint_allowance = pos 0;
  total_supply = pos 0;
  total_burned = pos 0;
  authorities = text "alice" ∷ [];
}

abbrev empty : StubCache world
empty = new_cache world [] false none

create_token_class-once_example :
    (create_token_class channel
      (named (text "second"))
      (create_token_class channel (named (text "first")) empty).1).0
    ≡ err token_already_exists
unfolding create_token_class get_cached_state lookup new_cache read
create_token_class-once_example =
    create_token_class-once channel (named (text "first")) (named (text "second")) empty
      (create_token_class channel (named (text "first")) empty).1 key refl refl refl refl

abbrev authorization_codec : Codec NftCollectionAuthorization
authorization_codec =
    via (pair text_codec (list text_codec)) (λ x. (x.collection, x.authorized_users))
      (λ (v0, v1). record { collection = v0; authorized_users = v1 }) (λ x. refl)

abbrev authorizations : Serial NftCollectionAuthorization
authorizations = serial authorization_codec refl (λ x. true)

abbrev start : StubCache world
start =
    new_cache world
      (insert (authorization_key (text "Art"))
        (authorization_codec.write
          (record { collection = text "Art"; authorized_users = text "alice" ∷ [] }))
        [])
      false none

abbrev alice : Context
alice = record {
  calling_user_value = some (text "alice");
  calling_user_roles_value = some [];
  is_multisig_value = some false;
  is_dry_run = false;
  tx_unix_time = 5;
  msp_id = text "Org";
  full_operation_id = text "op";
}

abbrev art : CreateNftCollectionDto channel authorizations
art = record {
  collection = text "Art";
  category = text "Unit";
  type = text "none";
  additional_key = text "none";
  name = text "Art";
  symbol = text "A";
  description = text "art";
  rarity = none;
  image = text "image";
  metadata_address = none;
  contract_address = none;
  max_supply = none;
  max_capacity = none;
  authorities = none;
}

abbrev art_key : TokenClassKey
art_key = record {
  collection = text "Art";
  category = text "Unit";
  type = text "none";
  additional_key = text "none";
}

create_nft_collection-authorized_example :
    (user : Text) × (a : NftCollectionAuthorization) × (calling_user alice ≡ ok user)
    × ((fetch_nft_collection_authorization channel authorizations (text "Art") start).0 ≡ ok a)
    × (includes a.authorized_users user ≡ true)
    × (eqb a.collection (text "Art") ≡ true)
unfolding create_nft_collection get_cached_state lookup new_cache read insert eqb
create_nft_collection-authorized_example =
    create_nft_collection-authorized channel authorizations alice art start art_key refl
