-- ===== src/Vesting.antt =====
-- chaincode/src/vesting/vestingToken.ts: a token class whose whole supply is minted to owners and
-- locked until it vests.
use galachain_sdk.Base.{
  ℕ, ◌+◌, ◌*◌, ◌==◌, Bool, some, List, [], ◌∷◌, ◌++◌, Text, text, ltb, if◌then◌else◌,
}
use galachain_sdk.Errors.{ok, err, vesting_allocation}
use galachain_sdk.Numeric.{BigNumber}
use galachain_sdk.Balance.Hold.{TokenHold}
use galachain_sdk.Balance.Account.{TokenBalance}
use galachain_sdk.State.{Serial, Action, lift, ◌>>=◌, ◌>>◌, get_object_by_key, put_chain_object}
use galachain_sdk.Keys.{composite_key}
use galachain_sdk.Tokens.{TokenClassKey}
use galachain_sdk.Context.{Context, calling_user}
use galachain_sdk.Ledger.{Chain, balance_key}
use galachain_sdk.Allowances.Amount.{equals}
use galachain_sdk.Classes.{CreateTokenClassParams, create_token_class}
use galachain_sdk.Locks.Lock.{lock_token}
use galachain_sdk.Mint.{fungible_key}
use galachain_sdk.Mint.WithAllowance.{mint_token_with_allowance}

module _ (B : BigNumber) where
  pub record Allocation : Type 0 where
    pub name : Text
    pub owner : Text
    pub quantity : B.Num
    pub cliff : ℕ
    pub vesting_days : ℕ

  pub record VestingToken : Type 0 where
    pub collection : Text
    pub category : Text
    pub type : Text
    pub additional_key : Text
    pub vesting_name : Text
    pub start_date : ℕ
    pub allocations : List Allocation

  -- the object, and the balances of its allocations
  pub record VestingTokenInfo : Type 0 where
    pub vesting_token : VestingToken
    pub allocation_balances : List (TokenBalance B)

unfoldable pub days_to_milliseconds : ℕ → ℕ
days_to_milliseconds days = days * 1000 * 24 * 60 * 60

-- when the vesting starts, and when the hold expires
unfoldable pub vesting_period : ℕ → ℕ → ℕ → ℕ → ℕ × ℕ
unfolding days_to_milliseconds
vesting_period start_date cliff vesting_days now =
    let start = if cliff == 0 then start_date else start_date + days_to_milliseconds cliff in
    let expires = if cliff == 0 then start else start + days_to_milliseconds vesting_days in
    (start, (if ltb expires now then now else expires))

-- `hold_is_valid` is class-validator's verdict on a hold.
module _ (W : Chain) (hold_is_valid : TokenHold W.number → Bool)
    (codec : Serial (VestingToken W.number)) where
  open W use {stub, number}
  open number use {Num, of_ℕ, plus}

  -- the parameters of the class, and those of the vesting
  pub record CreateVestingTokenParams : Type 0 where
    pub class : CreateTokenClassParams W
    pub start_date : ℕ
    pub vesting_name : Text
    pub allocations : List (Allocation number)

  unfoldable pub vesting_key : TokenClassKey → Text
  unfolding composite_key
  vesting_key k =
      composite_key (text "GCVT") (k.collection ∷ k.category ∷ k.type ∷ k.additional_key ∷ [])

  unfoldable pub allocation_balances :
      TokenClassKey → List (Allocation number) → Action stub (List (TokenBalance number))
  unfolding get_object_by_key balance_key
  allocation_balances k [] = lift (ok [])
  allocation_balances k (a ∷ as_) = do
    b ← get_object_by_key stub W.balances (balance_key W a.owner k)
    bs ← allocation_balances k as_
    lift (ok (b ∷ bs))

  unfoldable pub fetch_vesting_token : TokenClassKey → Action stub (VestingTokenInfo number)
  unfolding get_object_by_key vesting_key allocation_balances
  fetch_vesting_token k = do
    v ← get_object_by_key stub codec (vesting_key k)
    let key : TokenClassKey = record {
      collection = v.collection;
      category = v.category;
      type = v.type;
      additional_key = v.additional_key;
    }
    bs ← allocation_balances key v.allocations
    lift (ok (record { vesting_token = v; allocation_balances = bs }))

  -- the `reduce`
  unfoldable pub allocation_total : Num → List (Allocation number) → Num
  allocation_total sum [] = sum
  allocation_total sum (a ∷ as_) = allocation_total (plus sum a.quantity) as_

  -- one round of the loop: the quantity is minted to the owner, and locked
  unfoldable pub allocate :
      Context → CreateVestingTokenParams → Allocation number → Action stub (TokenBalance number)
  unfolding mint_token_with_allowance calling_user vesting_period lock_token fungible_key
  allocate ctx p a = do
    minted ← mint_token_with_allowance W ctx (record {
      token_class_key = p.class.token_class;
      token_instance = of_ℕ 0;
      owner = a.owner;
      quantity = a.quantity;
    })
    user ← lift (calling_user ctx)
    let period = vesting_period p.start_date a.cliff a.vesting_days ctx.tx_unix_time
    lock_token W hold_is_valid ctx (record {
      owner = some a.owner;
      lock_authority = some user;
      token_instance_key = fungible_key W p.class.token_class;
      quantity = a.quantity;
      expires = period.1;
      name = some (p.vesting_name ++ text "-" ++ a.name);
      verify_authorized_on_behalf = λ _. lift (ok (some a.owner));
      vesting_period_start = some period.0;
    })

  unfoldable pub allocate_all :
      Context → CreateVestingTokenParams → List (Allocation number) → Action stub (Unit {0})
  unfolding allocate
  allocate_all ctx p [] = lift (ok tt)
  allocate_all ctx p (a ∷ as_) = do b ← allocate ctx p a; allocate_all ctx p as_

  unfoldable pub new_vesting_token : CreateVestingTokenParams → VestingToken number
  new_vesting_token p = record {
    collection = p.class.token_class.collection;
    category = p.class.token_class.category;
    type = p.class.token_class.type;
    additional_key = p.class.token_class.additional_key;
    vesting_name = p.vesting_name;
    start_date = p.start_date;
    allocations = p.allocations;
  }

  unfoldable pub create_vesting_token :
      Context → CreateVestingTokenParams → Action stub (VestingToken number)
  unfolding allocation_total equals create_token_class allocate_all new_vesting_token
      put_chain_object vesting_key
  create_vesting_token ctx p =
      if equals number (allocation_total (of_ℕ 0) p.allocations) p.class.max_supply
      then (do
        k ← create_token_class W p.class
        allocate_all ctx p p.allocations
        put_chain_object stub codec (vesting_key p.class.token_class) (new_vesting_token p)
        lift (ok (new_vesting_token p)))
      else lift (err vesting_allocation)
