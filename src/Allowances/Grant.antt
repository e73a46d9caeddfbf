-- ===== src/Allowances/Grant.antt =====
-- chaincode/src/allowances/grantAllowance.ts: granting allowances for a complete token instance key.
-- A grant for a partial key is not modelled.
use galachain_sdk.Base.{
  ℕ, suc, Bool, true, false, ◌&&◌, ◌||◌, ◌==◌, not, none, some, List, [], ◌∷◌, Text, text, eqb, any,
  ltb, length, if◌then◌else◌,
}
use galachain_sdk.Errors.{
  Result, ok, err, duplicate_user, invalid_decimal, duplicate_allowance, not_a_token_authority,
  nft_instance_allowance_mismatch, invalid_token_owner, token_not_in_balance,
}
use galachain_sdk.Balance.Account.{TokenBalance, get_nft_instance_ids}
use galachain_sdk.State.{
  Action, lift, ◌>>=◌, ◌>>◌, put_chain_object, get_object_by_key, validate_or_reject,
  get_objects_by_partial_composite_key,
}
use galachain_sdk.Tokens.{
  TokenInstanceKey, TokenInstance, TokenClass, TokenClassKey, TokenAllowance, AllowanceType, mint,
  lock, same_type, type_number, Amount, finite, infinite,
}
use galachain_sdk.Context.{Context, calling_user}
use galachain_sdk.Ledger.{
  Chain, build_token_class_composite_key, get_token_class_key, fetch_token_instance, fetch_balances,
}
use galachain_sdk.Allowances.Amount.{amount_plus, amount_places}
use galachain_sdk.Allowances.Fetch.{allowance_key}
use galachain_sdk.Allowances.Check.{is_allowance_expired, is_exhausted}
use galachain_sdk.Allowances.Mintable.{ensure_quantity_can_be_minted, zero_amount}
use galachain_sdk.Allowances.MintRequests.{
  GrantAllowanceQuantity, users_of, put_mint_allowance_requests_on_chain,
  put_mint_allowances_on_chain,
}
use galachain_sdk.Locks.Unlock.{includes}
use galachain_sdk.Supply.{fetch_known_burn_count, fetch_mint_allowance_supply}

-- `new Set(users).size`
unfoldable pub set_size : List Text → ℕ
set_size [] = 0
set_size (u ∷ us) = let n = set_size us in if includes us u then n else suc n

module _ (W : Chain) where
  open W use {stub, number, number_text, ℕ_text}
  open number use {Num, of_ℕ, is_equal_to}

  unfoldable pub allowance_is_useable : Context → TokenAllowance number → Bool
  unfolding is_allowance_expired is_exhausted
  allowance_is_useable ctx a = if is_allowance_expired W ctx a then false else elim a.uses_spent [
    | none ↦ elim a.quantity_spent [
      | none ↦ true
      | some q ↦ not (is_exhausted W (some q) a.quantity)
    ]
    | some u ↦ not (is_exhausted W (some u) a.uses || is_exhausted W a.quantity_spent a.quantity)
  ]

  unfoldable pub prevent_duplicate_allowance :
      Context → TokenAllowance number → Action stub (Unit {0})
  unfolding get_objects_by_partial_composite_key allowance_is_useable type_number
  prevent_duplicate_allowance ctx a = do
    results ← get_objects_by_partial_composite_key stub W.allowances (text "GCTA") (
        a.granted_to
        ∷ a.collection
        ∷ a.category
        ∷ a.type
        ∷ a.additional_key
        ∷ number_text a.instance_
        ∷ ℕ_text (type_number a.allowance_type)
        ∷ a.granted_by
        ∷ [])
    if any (allowance_is_useable ctx) results then lift (err duplicate_allowance) else lift (ok tt)

  -- what `createValidChainObject` is given
  unfoldable pub new_allowance :
      Context
      → Text
      → AllowanceType
      → GrantAllowanceQuantity W
      → Amount number
      → ℕ
      → TokenInstanceKey number
      → TokenAllowance number
  new_allowance ctx user action q uses expires k = record {
    granted_to = q.user;
    collection = k.collection;
    category = k.category;
    type = k.type;
    additional_key = k.additional_key;
    instance_ = k.instance_;
    allowance_type = action;
    granted_by = user;
    created = ctx.tx_unix_time;
    uses = elim q.quantity [ finite _ ↦ uses | infinite ↦ infinite ];
    uses_spent = none;
    expires = expires;
    quantity = q.quantity;
    quantity_spent = none;
  }

  -- a finite quantity counts what is spent
  unfoldable pub start_spending : TokenAllowance number → TokenAllowance number
  start_spending a = elim a.quantity [
    | finite _ ↦ record a { quantity_spent = some (of_ℕ 0); uses_spent = some (of_ℕ 0) }
    | infinite ↦ a
  ]

  -- the body of the loop
  unfoldable pub put_allowance_on_chain :
      Context
      → AllowanceType
      → GrantAllowanceQuantity W
      → Amount number
      → ℕ
      → TokenInstanceKey number
      → TokenClass number
      → Action stub (TokenAllowance number)
  unfolding calling_user new_allowance start_spending validate_or_reject prevent_duplicate_allowance
      put_chain_object allowance_key same_type amount_places
  put_allowance_on_chain ctx action q uses expires k c =
      if ltb c.decimals (amount_places number q.quantity) then lift (err invalid_decimal) else do
        user ← lift (calling_user ctx)
        let fresh = new_allowance ctx user action q uses expires k
        validate_or_reject stub W.allowances fresh
        let a = start_spending fresh
        (if same_type action mint then lift (ok tt) else validate_or_reject stub W.allowances a)
        (if same_type action lock then prevent_duplicate_allowance ctx a else lift (ok tt))
        put_chain_object stub W.allowances (allowance_key W a) a
        lift (ok a)

  unfoldable pub put_allowances_on_chain :
      Context
      → AllowanceType
      → List (GrantAllowanceQuantity W)
      → Amount number
      → ℕ
      → TokenInstanceKey number
      → TokenClass number
      → Action stub (List (TokenAllowance number))
  unfolding put_allowance_on_chain
  put_allowances_on_chain ctx action [] uses expires k c = lift (ok [])
  put_allowances_on_chain ctx action (q ∷ qs) uses expires k c = do
    a ← put_allowance_on_chain ctx action q uses expires k c
    rest ← put_allowances_on_chain ctx action qs uses expires k c
    lift (ok (a ∷ rest))

  pub record GrantAllowanceParams : Type 0 where
    pub token_instance : TokenInstanceKey number
    pub allowance_type : AllowanceType
    pub quantities : List (GrantAllowanceQuantity W)
    pub uses : Amount number
    pub expires : ℕ

  -- the `reduce`
  unfoldable pub total_quantity : Amount number → List (GrantAllowanceQuantity W) → Amount number
  unfolding amount_plus
  total_quantity sum [] = sum
  total_quantity sum (q ∷ qs) = total_quantity (amount_plus number sum q.quantity) qs

  -- who may grant mint allowances, and for which instance
  unfoldable pub ensure_mint_authority :
      TokenClass number → TokenInstanceKey number → Text → Result (Unit {0})
  ensure_mint_authority c k user =
      if not (includes c.authorities user)
      then err not_a_token_authority
      else if c.is_non_fungible && not (is_equal_to k.instance_ (of_ℕ 0))
      then err nft_instance_allowance_mismatch
      else ok tt

  -- the checks and the three writes of a mint allowance
  unfoldable pub grant_mint_allowance :
      Context
      → GrantAllowanceParams
      → TokenClass number
      → Action stub (List (TokenAllowance number))
  unfolding calling_user ensure_mint_authority fetch_mint_allowance_supply fetch_known_burn_count
      ensure_quantity_can_be_minted total_quantity put_allowances_on_chain
      put_mint_allowance_requests_on_chain put_mint_allowances_on_chain
  grant_mint_allowance ctx p c = do
    user ← lift (calling_user ctx)
    lift (ensure_mint_authority c p.token_instance user)
    let key : TokenClassKey = record {
      collection = c.collection;
      category = c.category;
      type = c.type;
      additional_key = c.additional_key;
    }
    supply ← fetch_mint_allowance_supply W ctx key (some 1)
    burned ← fetch_known_burn_count W ctx key
    lift (
        ensure_quantity_can_be_minted number c (total_quantity (zero_amount number) p.quantities)
          (some supply) (some burned))
    allowances ← put_allowances_on_chain ctx mint p.quantities p.uses p.expires p.token_instance c
    requests ← put_mint_allowance_requests_on_chain W ctx p.quantities p.uses p.expires c supply
    put_mint_allowances_on_chain W ctx requests c supply
    lift (ok allowances)

  -- the balances that hold the instance: the first one counts
  abbrev first_ids : List (TokenBalance number) → List Num
  first_ids [] = []
  first_ids (b ∷ bs) = get_nft_instance_ids number b

  unfoldable pub ensure_owns_nft :
      Context → TokenInstanceKey number → TokenInstance number → Action stub (Unit {0})
  unfolding calling_user fetch_balances
  ensure_owns_nft ctx k i = do
    user ← lift (calling_user ctx)
    elim i.owner [
      | none ↦ lift (err invalid_token_owner)
      | some owner ↦ if not (eqb owner user) then lift (err invalid_token_owner) else (do
        balances ←
            fetch_balances W owner (some k.collection) (some k.category) (some k.type)
              (some k.additional_key)
        if any (λ id. is_equal_to id k.instance_) (first_ids balances)
            then lift (ok tt)
            else lift (err token_not_in_balance))
    ]

  unfoldable pub grant_token_allowance :
      Context
      → GrantAllowanceParams
      → TokenClass number
      → Action stub (List (TokenAllowance number))
  unfolding fetch_token_instance ensure_owns_nft put_allowances_on_chain
  grant_token_allowance ctx p c = do
    i ← fetch_token_instance W p.token_instance
    (if i.is_non_fungible && is_equal_to i.instance_ (of_ℕ 0)
        then lift (err nft_instance_allowance_mismatch)
        else lift (ok tt))
    (if i.is_non_fungible then ensure_owns_nft ctx p.token_instance i else lift (ok tt))
    put_allowances_on_chain ctx p.allowance_type p.quantities p.uses p.expires p.token_instance c

  unfoldable pub grant_allowance :
      Context → GrantAllowanceParams → Action stub (List (TokenAllowance number))
  unfolding set_size get_object_by_key build_token_class_composite_key get_token_class_key
      grant_mint_allowance grant_token_allowance same_type
  grant_allowance ctx p =
      let users : List Text = users_of W p.quantities in
      if not (set_size users == length users) then lift (err duplicate_user) else do
        c ←
            get_object_by_key stub W.classes
              (build_token_class_composite_key W (get_token_class_key W p.token_instance))
        if same_type p.allowance_type mint
            then grant_mint_allowance ctx p c
            else grant_token_allowance ctx p c
