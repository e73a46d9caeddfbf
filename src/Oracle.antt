-- ===== src/Oracle.antt =====
-- chaincode/src/oracle: the definitions of oracles, and the prices that they assert. The check of a
-- signature, `ensureIsAuthenticatedBy`, is given.
use galachain_sdk.Base.{
  ℕ, Bool, false, Option, none, some, List, [], ◌∷◌, Text, text, eqb, ltb, length, if◌then◌else◌,
}
use galachain_sdk.Errors.{ok, err, oracle_forbidden, too_many_chain_keys}
use galachain_sdk.Numeric.{BigNumber}
use galachain_sdk.Stub.Cache.{get_tx_id}
use galachain_sdk.State.{
  Serial, Action, lift, catch, ◌>>=◌, ◌>>◌, recover_not_found, get_object_by_key,
  get_objects_by_keys, put_chain_object, delete_chain_object,
}
use galachain_sdk.Keys.{composite_key}
use galachain_sdk.Tokens.{TokenInstanceKey}
use galachain_sdk.Context.{Context, calling_user}
use galachain_sdk.Ledger.{Chain}
use galachain_sdk.Locks.Unlock.{includes}

pub record OracleDefinition : Type 0 where
  pub name : Text
  pub authorities : List Text

pub record ExternalToken : Type 0 where
  pub name : Text
  pub symbol : Text

module _ (B : BigNumber) where
  pub record OraclePriceAssertion : Type 0 where
    pub oracle : Text
    pub identity : Text
    pub txid : Text
    pub base_token : Option (TokenInstanceKey B)
    pub external_base_token : Option ExternalToken
    pub quote_token : Option (TokenInstanceKey B)
    pub external_quote_token : Option ExternalToken
    pub exchange_rate : B.Num
    pub base_token_quantity : Option B.Num
    pub quote_token_quantity : Option B.Num
    pub source : Option Text
    pub source_url : Option Text
    pub timestamp : ℕ

-- The codecs, the organisation of the curators, and the check of a signature over a call's object.
pub record OracleChain : Type 1 where
  pub chain : Chain
  pub definitions : Serial OracleDefinition
  pub assertions : Serial (OraclePriceAssertion chain.number)
  pub curator_org_msp : Text
  pub Dto : Type 0
  pub ensure_is_authenticated_by : Dto → Text → Action chain.stub (Unit {0})

abbrev pub max_limit : ℕ
max_limit = 1000

abbrev pub definition_key : Text → Text
definition_key name = composite_key (text "GCOE") (name ∷ [])

module _ (X : OracleChain) where
  open X use {chain}
  open chain use {stub, number}

  abbrev pub assertion_key : OraclePriceAssertion number → Text
  assertion_key a = composite_key (text "GCOAP") (a.oracle ∷ a.identity ∷ a.txid ∷ [])

  unfoldable pub existing_oracle : Text → Action stub (Option OracleDefinition)
  unfolding get_object_by_key recover_not_found
  existing_oracle name =
      catch (do o ← get_object_by_key stub X.definitions (definition_key name); lift (ok (some o)))
        (recover_not_found none)

  -- only an authority of the oracle may change it, or a curator
  unfoldable pub may_change : Option OracleDefinition → Text → Bool
  unfolding includes
  may_change none user = false
  may_change (some o) user = includes o.authorities user

  unfoldable pub ensure_may_change : Context → Option OracleDefinition → Action stub (Unit {0})
  unfolding calling_user may_change
  ensure_may_change ctx o = if eqb ctx.msp_id X.curator_org_msp then lift (ok tt) else do
    user ← lift (calling_user ctx)
    if may_change o user then lift (ok tt) else lift (err oracle_forbidden)

  -- no authorities given: the caller is one
  unfoldable pub authorities_or_caller : Context → List Text → Action stub (List Text)
  unfolding calling_user
  authorities_or_caller ctx [] = do user ← lift (calling_user ctx); lift (ok (user ∷ []))
  authorities_or_caller ctx (a ∷ as_) = lift (ok (a ∷ as_))

  unfoldable pub save_oracle_definition : Context → OracleDefinition → Action stub OracleDefinition
  unfolding existing_oracle ensure_may_change authorities_or_caller put_chain_object
  save_oracle_definition ctx data_ = do
    o ← existing_oracle data_.name
    ensure_may_change ctx o
    authorities ← authorities_or_caller ctx data_.authorities
    let oracle : OracleDefinition = record { name = data_.name; authorities = authorities }
    put_chain_object stub X.definitions (definition_key oracle.name) oracle
    lift (ok oracle)

  unfoldable pub delete_oracle_definition : Context → Text → Action stub OracleDefinition
  unfolding get_object_by_key ensure_may_change delete_chain_object
  delete_oracle_definition ctx name = do
    oracle ← get_object_by_key stub X.definitions (definition_key name)
    ensure_may_change ctx (some oracle)
    delete_chain_object stub (definition_key oracle.name)
    lift (ok oracle)

  pub record OraclePriceAssertionDto : Type 0 where
    pub oracle : Text
    pub identity : Text
    pub base_token : Option (TokenInstanceKey number)
    pub external_base_token : Option ExternalToken
    pub quote_token : Option (TokenInstanceKey number)
    pub external_quote_token : Option ExternalToken
    pub exchange_rate : number.Num
    pub source : Option Text
    pub source_url : Option Text
    pub timestamp : ℕ
    -- with its signature
    pub signed : X.Dto

  unfoldable pub new_assertion : OraclePriceAssertionDto → Text → OraclePriceAssertion number
  new_assertion d txid = record {
    oracle = d.oracle;
    identity = d.identity;
    txid = txid;
    base_token = d.base_token;
    external_base_token = d.external_base_token;
    quote_token = d.quote_token;
    external_quote_token = d.external_quote_token;
    exchange_rate = d.exchange_rate;
    base_token_quantity = none;
    quote_token_quantity = none;
    source = d.source;
    source_url = d.source_url;
    timestamp = d.timestamp;
  }

  unfoldable pub save_oracle_price_assertion :
      OraclePriceAssertionDto → Action stub (OraclePriceAssertion number)
  unfolding get_object_by_key may_change get_tx_id new_assertion put_chain_object
  save_oracle_price_assertion d = do
    oracle ← get_object_by_key stub X.definitions (definition_key d.oracle)
    (if may_change (some oracle) d.identity then lift (ok tt) else lift (err oracle_forbidden))
    X.ensure_is_authenticated_by d.signed d.identity
    txid ← λ s. (ok (get_tx_id stub s), s)
    put_chain_object stub X.assertions (assertion_key (new_assertion d txid)) (new_assertion d txid)
    lift (ok (new_assertion d txid))

  unfoldable pub delete_all : List (OraclePriceAssertion number) → Action stub (Unit {0})
  unfolding delete_chain_object
  delete_all [] = lift (ok tt)
  delete_all (a ∷ as_) = do delete_chain_object stub (assertion_key a); delete_all as_

  unfoldable pub delete_oracle_price_assertions :
      List Text → Action stub (List (OraclePriceAssertion number))
  unfolding get_objects_by_keys delete_all
  delete_oracle_price_assertions keys =
      if ltb max_limit (length keys) then lift (err too_many_chain_keys) else do
        assertions ← get_objects_by_keys stub X.assertions keys
        delete_all assertions
        lift (ok assertions)
