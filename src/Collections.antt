-- ===== src/Collections.antt =====
-- chaincode/src/nftCollections: who may create classes in an NFT collection.
pub mod Sound
use galachain_sdk.Base.{
  Bool, true, false, not, Option, none, some, List, [], ◌∷◌, ◌++◌, Text, text, eqb, if◌then◌else◌,
}
use galachain_sdk.Errors.{
  Result, ok, err, nft_collection_not_found, user_not_authorized_for_collection,
  collection_name_mismatch,
}
use galachain_sdk.Balance.Sort.{sort}
use galachain_sdk.State.{
  Serial, Action, lift, catch, ◌>>=◌, ◌>>◌, object_exists, get_object_by_key, put_chain_object,
}
use galachain_sdk.Keys.{composite_key}
use galachain_sdk.Tokens.{Amount, infinite, TokenClassKey}
use galachain_sdk.Context.{Context, calling_user}
use galachain_sdk.Ledger.{Chain}
use galachain_sdk.Locks.Unlock.{includes}
use galachain_sdk.Classes.{compare_texts, create_token_class}

pub record NftCollectionAuthorization : Type 0 where
  pub collection : Text
  pub authorized_users : List Text

abbrev pub authorization_key : Text → Text
authorization_key collection = composite_key (text "GCNFTC") (collection ∷ [])

unfoldable pub granted : NftCollectionAuthorization → Text → NftCollectionAuthorization
unfolding includes compare_texts sort
granted a user =
    if includes a.authorized_users user
    then a
    else record a { authorized_users = sort compare_texts (a.authorized_users ++ user ∷ []) }

-- `indexOf` and `splice`: the first occurrence is taken out
unfoldable pub without_first : Text → List Text → List Text
without_first user [] = []
without_first user (t ∷ ts) =
    let rest = without_first user ts in if eqb t user then ts else t ∷ rest

module _ (W : Chain) (c : Serial NftCollectionAuthorization) where
  open W use {stub, number}
  open number use {of_ℕ}

  unfoldable pub put_authorization : NftCollectionAuthorization → Action stub (Unit {0})
  unfolding put_chain_object
  put_authorization a = put_chain_object stub c (authorization_key a.collection) a

  unfoldable pub fetch_nft_collection_authorization : Text → Action stub NftCollectionAuthorization
  unfolding get_object_by_key
  fetch_nft_collection_authorization collection =
      get_object_by_key stub c (authorization_key collection)

  unfoldable pub grant_nft_collection_authorization :
      Text → Text → Action stub NftCollectionAuthorization
  unfolding object_exists fetch_nft_collection_authorization granted put_authorization
  grant_nft_collection_authorization collection user = do
    exists ← object_exists stub c (authorization_key collection)
    a ←
        if exists
        then (do a ← fetch_nft_collection_authorization collection; lift (ok (granted a user)))
        else lift (ok (record { collection = collection; authorized_users = user ∷ [] }))
    put_authorization a
    lift (ok a)

  -- A user who is not in the list changes nothing.
  unfoldable pub revoke_nft_collection_authorization :
      Context → Text → Text → Action stub NftCollectionAuthorization
  unfolding fetch_nft_collection_authorization calling_user includes without_first put_authorization
  revoke_nft_collection_authorization ctx collection user = do
    a ← fetch_nft_collection_authorization collection
    caller ← lift (calling_user ctx)
    (if includes a.authorized_users caller
        then lift (ok tt)
        else lift (err user_not_authorized_for_collection))
    if includes a.authorized_users user
        then (do
          let a' : NftCollectionAuthorization = record a {
            authorized_users = without_first user a.authorized_users;
          }
          put_authorization a'
          lift (ok a'))
        else lift (ok a)

  unfoldable pub is_user_authorized_for_collection : Text → Text → Action stub Bool
  unfolding fetch_nft_collection_authorization includes
  is_user_authorized_for_collection collection user =
      catch
        (do
          a ← fetch_nft_collection_authorization collection
          lift (ok (includes a.authorized_users user)))
        (λ e. ok false)

  pub record CreateNftCollectionDto : Type 0 where
    pub collection : Text
    pub category : Text
    pub type : Text
    pub additional_key : Text
    pub name : Text
    pub symbol : Text
    pub description : Text
    pub rarity : Option Text
    pub image : Text
    pub metadata_address : Option Text
    pub contract_address : Option Text
    pub max_supply : Option (Amount number)
    pub max_capacity : Option (Amount number)
    pub authorities : Option (List Text)

  -- `Promise.all`: all are resolved, whether or not another fails
  unfoldable pub resolve_user_aliases : List Text → Action stub (List Text)
  resolve_user_aliases [] s = (ok [], s)
  resolve_user_aliases (t ∷ ts) s =
      let (r, s') = W.resolve_user_alias t s in
      let (rs, s'') = resolve_user_aliases ts s' in
      (elim r [ err e ↦ err e | ok a ↦ elim rs [ err e ↦ err e | ok as_ ↦ ok (a ∷ as_) ] ], s'')

  unfoldable pub or_infinite : Option (Amount number) → Amount number
  or_infinite none = infinite
  or_infinite (some a) = a

  unfoldable pub create_in_collection :
      CreateNftCollectionDto → NftCollectionAuthorization → List Text → Action stub TokenClassKey
  unfolding create_token_class or_infinite
  create_in_collection dto a authorities = create_token_class W (record {
    network = text "GC";
    token_class = record {
      collection = a.collection;
      category = dto.category;
      type = dto.type;
      additional_key = dto.additional_key;
    };
    is_non_fungible = true;
    decimals = 0;
    name = dto.name;
    symbol = dto.symbol;
    description = dto.description;
    rarity = dto.rarity;
    image = dto.image;
    contract_address = dto.contract_address;
    metadata_address = dto.metadata_address;
    max_supply = or_infinite dto.max_supply;
    max_capacity = or_infinite dto.max_capacity;
    total_mint_allowance = of_ℕ 0;
    total_supply = of_ℕ 0;
    total_burned = of_ℕ 0;
    authorities = authorities;
  })

  unfoldable pub create_if_authorized :
      CreateNftCollectionDto → Text → NftCollectionAuthorization → Action stub TokenClassKey
  unfolding includes resolve_user_aliases create_in_collection
  create_if_authorized dto user a =
      if not (includes a.authorized_users user)
      then lift (err user_not_authorized_for_collection)
      else if not (eqb a.collection dto.collection)
      then lift (err collection_name_mismatch)
      else do
        authorities ← elim dto.authorities [
          | none ↦ lift (ok (user ∷ []))
          | some as_ ↦ resolve_user_aliases as_
        ]
        create_in_collection dto a authorities

  unfoldable pub create_nft_collection :
      Context → CreateNftCollectionDto → Action stub TokenClassKey
  unfolding calling_user fetch_nft_collection_authorization create_if_authorized
  create_nft_collection ctx dto = do
    user ← lift (calling_user ctx)
    a ←
        catch (fetch_nft_collection_authorization dto.collection)
          (λ e. err nft_collection_not_found)
    create_if_authorized dto user a
