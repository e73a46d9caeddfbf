-- ===== src/Mint/Request.antt =====
-- The requests to mint, and their fulfilment: chaincode/src/mint/requestMint.ts and
-- validateMintRequest.ts, `updateTotalSupply` of mintToken.ts, and TokenMintRequest.ts of
-- chain-api/src/types. The errors that are wrapped in a plain `Error` lose their code.
use galachain_sdk.Base.{Option, none, some, List, [], ◌∷◌, Text, text, ltb, filter, if◌then◌else◌}
use galachain_sdk.Errors.{ok, err, mint_request_failed}
use galachain_sdk.Balance.Sort.{sort}
use galachain_sdk.State.{
  Action, lift, catch, ◌>>=◌, ◌>>◌, put_chain_object, get_object_by_key,
  get_objects_by_partial_composite_key,
}
use galachain_sdk.Keys.{composite_key, join, get_string_key_from_parts}
use galachain_sdk.Tokens.{
  TokenClassKey, TokenInstanceKey, TokenClass, TokenAllowance, mint, type_number,
}
use galachain_sdk.Tokens.Counters.{
  TokenMintRequest, TokenMintFulfillment, unknown_status, minted, partially_minted,
}
use galachain_sdk.Context.{Context, calling_user}
use galachain_sdk.Ledger.{Chain, build_token_class_composite_key}
use galachain_sdk.Allowances.Amount.{falls_below}
use galachain_sdk.Allowances.Fetch.{by_created}
use galachain_sdk.Allowances.Check.{check_allowances}
use galachain_sdk.Locks.Unlock.{includes}
use galachain_sdk.Utils.{inverse_time, inverse_epoch}
use galachain_sdk.Supply.{fetch_mint_supply}

module _ (W : Chain) where
  open W use {stub, number, number_text, ℕ_text}
  open number use {Num, of_ℕ, is_less_than, decimal_places}

  -- `requestId`
  unfoldable pub request_id : TokenMintRequest number → Text
  unfolding get_string_key_from_parts
  request_id r = get_string_key_from_parts (
      r.collection
      ∷ r.category
      ∷ r.type
      ∷ r.additional_key
      ∷ number_text r.total_known_mints_count
      ∷ r.requestor
      ∷ r.owner
      ∷ ℕ_text r.created
      ∷ [])

  -- `getRangedKey`
  unfoldable pub mint_request_key : TokenMintRequest number → Text
  unfolding join
  mint_request_key r = join (0 ∷ []) (
      text "GCTMR"
      ∷ r.collection
      ∷ r.category
      ∷ r.type
      ∷ r.additional_key
      ∷ r.time_key
      ∷ r.owner
      ∷ [])

  unfoldable pub mint_fulfillment_key : TokenMintFulfillment number → Text
  unfolding composite_key
  mint_fulfillment_key f = composite_key (text "GCTMF") (
      f.collection
      ∷ f.category
      ∷ f.type
      ∷ f.additional_key
      ∷ f.requestor
      ∷ ℕ_text f.request_created
      ∷ [])

  -- `fulfill`
  unfoldable pub fulfill : TokenMintRequest number → Num → TokenMintFulfillment number
  unfolding request_id
  fulfill r quantity = record {
    collection = r.collection;
    category = r.category;
    type = r.type;
    additional_key = r.additional_key;
    requestor = r.requestor;
    request_created = r.created;
    owner = r.owner;
    quantity = quantity;
    state = if is_less_than quantity r.quantity then partially_minted else minted;
    id = request_id r;
    created = r.created;
  }

  pub record UpdateTokenSupplyParams : Type 0 where
    pub token_class_key : TokenClassKey
    pub calling_user : Text
    pub owner : Text
    pub quantity : Num
    pub known_total_supply : Option Num

  -- the supply that is passed in, or fetched
  unfoldable pub known_supply : Context → TokenClassKey → Option Num → Action stub Num
  unfolding fetch_mint_supply
  known_supply ctx k (some known) = lift (ok known)
  known_supply ctx k none = catch (fetch_mint_supply W ctx k none) (λ e. err mint_request_failed)

  unfoldable pub new_request :
      Context → UpdateTokenSupplyParams → Num → Text → TokenMintRequest number
  unfolding inverse_time request_id
  new_request ctx p known epoch =
      let r : TokenMintRequest number = record {
        collection = p.token_class_key.collection;
        category = p.token_class_key.category;
        type = p.token_class_key.type;
        additional_key = p.token_class_key.additional_key;
        time_key = inverse_time W ctx 0;
        owner = p.owner;
        total_known_mints_count = known;
        requestor = p.calling_user;
        created = ctx.tx_unix_time;
        quantity = p.quantity;
        state = unknown_status;
        id = [];
        epoch = epoch;
      } in
      record r { id = request_id r }

  unfoldable pub put_request : TokenMintRequest number → Action stub (TokenMintRequest number)
  unfolding put_chain_object mint_request_key
  put_request r = do
    catch (put_chain_object stub W.mint_requests (mint_request_key r) r)
        (λ e. err mint_request_failed)
    lift (ok r)

  unfoldable pub write_mint_request :
      Context → UpdateTokenSupplyParams → Action stub (TokenMintRequest number)
  unfolding known_supply new_request put_request inverse_epoch
  write_mint_request ctx p = do
    known ← known_supply ctx p.token_class_key p.known_total_supply
    epoch ← λ s. (ok (inverse_epoch W 0 s), s)
    put_request (new_request ctx p known epoch)

  unfoldable pub update_total_supply : Context → UpdateTokenSupplyParams → Action stub (Unit {0})
  unfolding write_mint_request put_chain_object fulfill mint_fulfillment_key
  update_total_supply ctx p = do
    r ← write_mint_request ctx p
    let f = fulfill r p.quantity
    put_chain_object stub W.mint_fulfillments (mint_fulfillment_key f) f

  pub record RequestMintParams : Type 0 where
    pub token_class : TokenClassKey
    pub owner : Option Text
    pub quantity : Num
    pub authorized_on_behalf : Option Text

  abbrev pub or_else : Option Text → Text → Text
  or_else none d = d
  or_else (some a) d = a

  unfoldable pub validate_mint_request :
      Context
      → RequestMintParams
      → TokenClass number
      → Text
      → Action stub (List (TokenAllowance number))
  unfolding get_objects_by_partial_composite_key by_created sort check_allowances falls_below
      type_number
  validate_mint_request ctx p c user =
      let k = p.token_class in
      let caller = or_else p.authorized_on_behalf user in
      let key : TokenInstanceKey number = record {
        collection = k.collection;
        category = k.category;
        type = k.type;
        additional_key = k.additional_key;
        instance_ = of_ℕ 0;
      } in
      if ltb c.decimals (decimal_places p.quantity) then lift (err mint_request_failed) else (do
        found ← get_objects_by_partial_composite_key stub W.allowances (text "GCTA") (
            caller
            ∷ k.collection
            ∷ k.category
            ∷ k.type
            ∷ k.additional_key
            ∷ number_text (of_ℕ 0)
            ∷ ℕ_text (type_number mint)
            ∷ [])
        let applicable =
            filter (λ a. includes c.authorities a.granted_by) (sort (by_created W) found)
        total ← check_allowances W ctx applicable key mint caller
        if falls_below number total p.quantity
            then lift (err mint_request_failed)
            else lift (ok applicable))

  unfoldable pub submit_mint_request :
      Context → RequestMintParams → Action stub (TokenMintRequest number)
  unfolding calling_user get_object_by_key build_token_class_composite_key validate_mint_request
      write_mint_request
  submit_mint_request ctx p = do
    user ← lift (calling_user ctx)
    c ← get_object_by_key stub W.classes (build_token_class_composite_key W p.token_class)
    catch (validate_mint_request ctx p c user) (λ e. err mint_request_failed)
    write_mint_request ctx (record {
      token_class_key = p.token_class;
      calling_user = user;
      owner = or_else p.owner user;
      quantity = p.quantity;
      known_total_supply = none;
    })

  -- the fields of the request that are sent back
  pub record MintRequestDto : Type 0 where
    pub collection : Text
    pub category : Text
    pub type : Text
    pub additional_key : Text
    pub time_key : Text
    pub total_known_mints_count : Num
    pub owner : Text
    pub id : Text

  pub record FulfillMintDto : Type 0 where
    pub requests : List MintRequestDto
    pub unique_key : Text

  unfoldable pub request_mint : Context → RequestMintParams → Action stub FulfillMintDto
  unfolding submit_mint_request request_id
  request_mint ctx p = do
    r ← submit_mint_request ctx p
    let sent : MintRequestDto = record {
      collection = r.collection;
      category = r.category;
      type = r.type;
      additional_key = r.additional_key;
      time_key = r.time_key;
      total_known_mints_count = r.total_known_mints_count;
      owner = r.owner;
      id = request_id r;
    }
    lift (ok (record { requests = sent ∷ []; unique_key = request_id r }))
