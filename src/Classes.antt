-- ===== src/Classes.antt =====
-- chaincode/src/token: createTokenClass.ts and updateTokenClass.ts, and `updatedWith` of
-- chain-api/src/types/TokenClass.ts.
pub mod Once
use galachain_sdk.Base.{
  ℕ, ◌==◌, Bool, true, false, ◌&&◌, not, Option, none, some, List, [], ◌∷◌, ◌++◌, Text, text, ltb,
  if◌then◌else◌,
}
use galachain_sdk.Base.Int.{ℤ, pos, negsuc}
use galachain_sdk.Errors.{ok, err, nft_decimal, token_already_exists, not_a_token_authority}
use galachain_sdk.Balance.Sort.{sort}
use galachain_sdk.State.{Action, lift, ◌>>=◌, ◌>>◌, object_exists, validate_or_reject}
use galachain_sdk.Tokens.{Amount, TokenClass, TokenClassKey, TokenInstance}
use galachain_sdk.Context.{Context, calling_user}
use galachain_sdk.Ledger.{
  Chain, put_class, put_instance, fetch_token_class, build_token_class_composite_key,
}
use galachain_sdk.Locks.Unlock.{includes}
use galachain_sdk.Locks.Lock.{get_or}

-- `Array.prototype.sort` compares texts by their code units.
unfoldable pub compare_texts : Text → Text → ℤ
compare_texts [] [] = pos 0
compare_texts [] (d ∷ ds) = negsuc 0
compare_texts (c ∷ cs) [] = pos 1
compare_texts (c ∷ cs) (d ∷ ds) =
    let rest = compare_texts cs ds in if ltb c d then negsuc 0 else if ltb d c then pos 1 else rest

-- `Array.from(new Set(..))`: each text where it stands first; `seen` are those before
unfoldable pub distinct_texts : List Text → List Text → List Text
unfolding includes
distinct_texts seen [] = []
distinct_texts seen (t ∷ ts) =
    let rest = distinct_texts (t ∷ seen) ts in if includes seen t then rest else t ∷ rest

module _ (W : Chain) where
  open W use {stub, number}
  open number use {Num, of_ℕ}

  pub record CreateTokenClassParams : Type 0 where
    pub network : Text
    pub token_class : TokenClassKey
    pub is_non_fungible : Bool
    pub decimals : ℕ
    pub name : Text
    pub symbol : Text
    pub description : Text
    pub rarity : Option Text
    pub image : Text
    pub contract_address : Option Text
    pub metadata_address : Option Text
    pub max_supply : Amount number
    pub max_capacity : Amount number
    pub total_mint_allowance : Num
    pub total_supply : Num
    pub total_burned : Num
    pub authorities : List Text

  unfoldable pub new_class : CreateTokenClassParams → TokenClass number
  new_class p = record {
    collection = p.token_class.collection;
    category = p.token_class.category;
    type = p.token_class.type;
    additional_key = p.token_class.additional_key;
    network = p.network;
    decimals = p.decimals;
    max_supply = p.max_supply;
    is_non_fungible = p.is_non_fungible;
    max_capacity = p.max_capacity;
    authorities = p.authorities;
    name = p.name;
    symbol = p.symbol;
    description = p.description;
    contract_address = p.contract_address;
    metadata_address = p.metadata_address;
    image = p.image;
    rarity = p.rarity;
    total_burned = p.total_burned;
    total_mint_allowance = p.total_mint_allowance;
    known_mint_allowance_supply = none;
    total_supply = p.total_supply;
    known_mint_supply = none;
  }

  unfoldable pub default_instance : TokenClass number → TokenInstance number
  default_instance c = record {
    collection = c.collection;
    category = c.category;
    type = c.type;
    additional_key = c.additional_key;
    instance_ = of_ℕ 0;
    is_non_fungible = false;
    owner = none;
  }

  -- a fungible token has its one instance
  unfoldable pub store_class : TokenClass number → Action stub (Unit {0})
  unfolding default_instance validate_or_reject put_instance put_class
  store_class c = do
    (if c.is_non_fungible then lift (ok tt) else (do
      validate_or_reject stub W.instances (default_instance c)
      put_instance W (default_instance c)))
    put_class W c

  unfoldable pub create_token_class : CreateTokenClassParams → Action stub TokenClassKey
  unfolding new_class validate_or_reject object_exists build_token_class_composite_key store_class
  create_token_class p =
      if p.is_non_fungible && not (p.decimals == 0) then lift (err nft_decimal) else do
        validate_or_reject stub W.classes (new_class p)
        exists ← object_exists stub W.classes (build_token_class_composite_key W p.token_class)
        (if exists then lift (err token_already_exists) else store_class (new_class p))
        lift (ok p.token_class)

  pub record UpdateTokenClassParams : Type 0 where
    pub token_class : TokenClassKey
    pub name : Option Text
    pub symbol : Option Text
    pub description : Option Text
    pub contract_address : Option Text
    pub metadata_address : Option Text
    pub rarity : Option Text
    pub authorities : Option (List Text)
    pub overwrite_authorities : Bool

  -- no authorities, or an empty list of them, keep what there is
  unfoldable pub updated_authorities : List Text → Option (List Text) → Bool → List Text
  unfolding distinct_texts compare_texts sort
  updated_authorities old none overwrite = old
  updated_authorities old (some []) overwrite = old
  updated_authorities old (some (t ∷ ts)) true = t ∷ ts
  updated_authorities old (some (t ∷ ts)) false =
      sort compare_texts (distinct_texts [] (old ++ t ∷ ts))

  unfoldable pub or_old : Option Text → Option Text → Option Text
  or_old none old = old
  or_old (some t) old = some t

  -- The parameters have no image, so it stays.
  unfoldable pub updated_with : TokenClass number → UpdateTokenClassParams → TokenClass number
  unfolding get_or or_old updated_authorities
  updated_with c u = record c {
    name = get_or u.name c.name;
    symbol = get_or u.symbol c.symbol;
    description = get_or u.description c.description;
    contract_address = or_old u.contract_address c.contract_address;
    metadata_address = or_old u.metadata_address c.metadata_address;
    rarity = or_old u.rarity c.rarity;
    authorities = updated_authorities c.authorities u.authorities u.overwrite_authorities;
  }

  unfoldable pub update_token_class : Context → UpdateTokenClassParams → Action stub TokenClassKey
  unfolding fetch_token_class calling_user includes updated_with validate_or_reject put_class
  update_token_class ctx p = do
    c ← fetch_token_class W p.token_class
    user ← lift (calling_user ctx)
    (if includes c.authorities user then lift (ok tt) else lift (err not_a_token_authority))
    let updated = updated_with c p
    validate_or_reject stub W.classes updated
    put_class W updated
    lift (ok p.token_class)
