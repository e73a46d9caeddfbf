-- ===== src/Allowances/Refresh.antt =====
-- chaincode/src/allowances/refreshAllowances.ts, deleteAllowances.ts and fullAllowanceCheck.ts.
use galachain_sdk.Base.{
  ℕ, Bool, ◌&&◌, ◌||◌, ◌==◌, not, Option, none, some, List, [], ◌∷◌, ◌++◌, Text, text, eqb, opt_eqb,
  length, filter, leb, if◌then◌else◌,
}
use galachain_sdk.Errors.{ok, err, unauthorized_allowance_refresh, invalid_allowance_users}
use galachain_sdk.Balance.Account.{TokenBalance, get_nft_instance_ids}
use galachain_sdk.State.{
  Action, lift, ◌>>=◌, ◌>>◌, put_chain_object, delete_chain_object, get_object_by_key,
  get_objects_by_partial_composite_key,
}
use galachain_sdk.Keys.{composite_key}
use galachain_sdk.Tokens.{TokenInstanceKey, TokenAllowance, AllowanceType, type_number, Amount}
use galachain_sdk.Context.{Context, calling_user}
use galachain_sdk.Ledger.{Chain, take_until_undefined}
use galachain_sdk.Allowances.Fetch.{FetchAllowancesParams, fetch_allowances, allowance_key}
use galachain_sdk.Allowances.Check.{is_exhausted}

module _ (W : Chain) where
  open W use {stub, number, number_fixed, ℕ_text}
  open number use {Num}

  pub record AllowanceKey : Type 0 where
    pub granted_to : Text
    pub collection : Text
    pub category : Text
    pub type : Text
    pub additional_key : Text
    pub instance_ : Num
    pub allowance_type : AllowanceType
    pub granted_by : Text
    pub created : ℕ

  -- the interface that refreshAllowances.ts calls `AllowanceType`
  pub record RefreshedAllowance : Type 0 where
    pub key : AllowanceKey
    pub uses : Amount number
    pub expires : ℕ

  unfoldable pub key_of_allowance_key : AllowanceKey → Text
  unfolding composite_key type_number
  key_of_allowance_key k = composite_key (text "GCTA") (
      k.granted_to
      ∷ k.collection
      ∷ k.category
      ∷ k.type
      ∷ k.additional_key
      ∷ number_fixed k.instance_
      ∷ ℕ_text (type_number k.allowance_type)
      ∷ k.granted_by
      ∷ ℕ_text k.created
      ∷ [])

  unfoldable pub refreshed : TokenAllowance number → Amount number → ℕ → TokenAllowance number
  refreshed a uses expires = record a { uses = uses; expires = expires }

  unfoldable pub refresh_allowance_properties :
      AllowanceKey → Amount number → ℕ → Action stub (TokenAllowance number)
  unfolding get_object_by_key key_of_allowance_key refreshed put_chain_object allowance_key
  refresh_allowance_properties k uses expires = do
    a ← get_object_by_key stub W.allowances (key_of_allowance_key k)
    let a' = refreshed a uses expires
    put_chain_object stub W.allowances (allowance_key W a') a'
    lift (ok a')

  unfoldable pub refresh_allowances :
      Context → List RefreshedAllowance → Action stub (List (TokenAllowance number))
  unfolding calling_user refresh_allowance_properties
  refresh_allowances ctx [] = lift (ok [])
  refresh_allowances ctx (r ∷ rs) = do
    user ← lift (calling_user ctx)
    if not (eqb r.key.granted_by user) then lift (err unauthorized_allowance_refresh) else (do
      a ← refresh_allowance_properties r.key r.uses r.expires
      rest ← refresh_allowances ctx rs
      lift (ok (a ∷ rest)))

  -- what is fetched, and when it was created
  pub record DeleteAllowancesParams : Type 0 where
    pub fetched : FetchAllowancesParams W
    pub created : Option ℕ

  abbrev filter_by_created : Option ℕ → List (TokenAllowance number) → List (TokenAllowance number)
  filter_by_created none as_ = as_
  filter_by_created (some t) as_ = filter (λ a. a.created == t) as_

  unfoldable pub delete_each : List (TokenAllowance number) → Action stub (Unit {0})
  unfolding delete_chain_object allowance_key
  delete_each [] = lift (ok tt)
  delete_each (a ∷ as_) = do delete_chain_object stub (allowance_key W a); delete_each as_

  unfoldable pub delete_allowances : Context → DeleteAllowancesParams → Action stub ℕ
  unfolding calling_user fetch_allowances delete_each
  delete_allowances ctx p = do
    user ← lift (calling_user ctx)
    if not (opt_eqb p.fetched.granted_by (some user)) && not (eqb p.fetched.granted_to user)
        then lift (err invalid_allowance_users)
        else (do
          found ← fetch_allowances W p.fetched
          let chosen = filter_by_created p.created found
          delete_each chosen
          lift (ok (length chosen)))

  pub record FullAllowanceCheckParams : Type 0 where
    pub owner : Text
    pub granted_to : Text
    pub allowance_type : AllowanceType
    pub collection : Option Text
    pub category : Option Text
    pub type : Option Text
    pub additional_key : Option Text

  -- the test in the `filter`; the truth of a number is that it is not zero
  unfoldable pub is_used_up : Context → TokenAllowance number → Bool
  unfolding is_exhausted
  is_used_up ctx a =
      is_exhausted W a.uses_spent a.uses
      || is_exhausted W a.quantity_spent a.quantity
      || (not (a.expires == 0) && (not (a.expires == 0) && leb a.expires ctx.tx_unix_time))

  -- the allowances of one instance of a balance
  unfoldable pub lacks_allowance :
      Context → FullAllowanceCheckParams → TokenBalance number → Num → Action stub Bool
  unfolding get_objects_by_partial_composite_key is_used_up type_number
  lacks_allowance ctx p b id = do
    found ← get_objects_by_partial_composite_key stub W.allowances (text "GCTA") (
        p.granted_to
        ∷ b.collection
        ∷ b.category
        ∷ b.type
        ∷ b.additional_key
        ∷ number_fixed id
        ∷ ℕ_text (type_number p.allowance_type)
        ∷ p.owner
        ∷ [])
    lift (ok (length (filter (is_used_up ctx) found) == length found))

  unfoldable pub instance_of_balance : TokenBalance number → Num → TokenInstanceKey number
  instance_of_balance b id = record {
    collection = b.collection;
    category = b.category;
    type = b.type;
    additional_key = b.additional_key;
    instance_ = id;
  }

  unfoldable pub missing_ids :
      Context
      → FullAllowanceCheckParams
      → TokenBalance number
      → List Num
      → Action stub (List (TokenInstanceKey number))
  unfolding lacks_allowance instance_of_balance
  missing_ids ctx p b [] = lift (ok [])
  missing_ids ctx p b (id ∷ ids) = do
    lacks ← lacks_allowance ctx p b id
    rest ← missing_ids ctx p b ids
    lift (ok (if lacks then instance_of_balance b id ∷ rest else rest))

  unfoldable pub missing_allowances :
      Context
      → FullAllowanceCheckParams
      → List (TokenBalance number)
      → Action stub (List (TokenInstanceKey number))
  unfolding missing_ids
  missing_allowances ctx p [] = lift (ok [])
  missing_allowances ctx p (b ∷ bs) = do
    missing ← missing_ids ctx p b (get_nft_instance_ids number b)
    rest ← missing_allowances ctx p bs
    lift (ok (missing ++ rest))

  -- whether all are there, and those that are not
  unfoldable pub full_allowance_check :
      Context → FullAllowanceCheckParams → Action stub (Bool × List (TokenInstanceKey number))
  unfolding take_until_undefined get_objects_by_partial_composite_key missing_allowances
  full_allowance_check ctx p = do
    query ← lift (
        take_until_undefined
          (some p.owner ∷ p.collection ∷ p.category ∷ p.type ∷ p.additional_key ∷ []))
    balances ← get_objects_by_partial_composite_key stub W.balances (text "GCTB") query
    missing ← missing_allowances ctx p balances
    lift (ok (length missing == 0, missing))
