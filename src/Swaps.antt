-- ===== src/Swaps.antt =====
-- chaincode/src/swaps: a user offers tokens for others; the offered ones are locked until another user
-- fills the swap, or the first one terminates it. The messages of the validation errors are left out:
-- only their number matters. An alias is taken to be valid, as its type says.
pub mod Index
pub mod Request
pub mod Exchange
pub mod Token
pub mod Checks
pub mod Fill
pub mod Bounds
pub mod Terminate
pub mod Conserve
use galachain_sdk.Base.{ℕ, ◌+◌, Bool, Option, List, [], ◌∷◌, Text, text, if◌then◌else◌}
use galachain_sdk.Errors.{Result, ok, err, Error}
use galachain_sdk.Balance.Hold.{TokenHold}
use galachain_sdk.State.{Serial, Action, lift, catch, ◌>>=◌, ◌>>◌}
use galachain_sdk.Keys.{composite_key}
use galachain_sdk.Numeric.{BigNumber}
use galachain_sdk.Tokens.{TokenInstanceKey, TokenInstance}
use galachain_sdk.Ledger.{Chain, fetch_token_instance}

module _ (B : BigNumber) where
  pub record TokenInstanceQuantity : Type 0 where
    pub token_instance : TokenInstanceKey B
    pub quantity : B.Num

  pub record TokenSwapRequest : Type 0 where
    pub created : ℕ
    pub txid : Text
    pub swap_request_id : Text
    pub offered : List TokenInstanceQuantity
    pub wanted : List TokenInstanceQuantity
    pub offered_to : Option Text
    pub offered_by : Text
    pub fill_ids : List Text
    pub uses : B.Num
    pub uses_spent : B.Num
    pub expires : ℕ

  pub record TokenSwapFill : Type 0 where
    pub swap_request_id : Text
    pub filled_by : Text
    pub created : ℕ
    pub uses : B.Num

  -- the index objects: of an instance offered or wanted, and of a user
  pub record TokenSwapRequestInstance : Type 0 where
    pub collection : Text
    pub category : Text
    pub type : Text
    pub additional_key : Text
    pub instance_ : B.Num
    pub swap_request_id : Text

  pub record TokenSwapRequestUser : Type 0 where
    pub user : Text
    pub swap_request_id : Text

-- The codecs of these classes, and class-validator's verdict on a hold.
pub record SwapChain : Type 1 where
  pub chain : Chain
  pub hold_is_valid : TokenHold chain.number → Bool
  pub swaps : Serial (TokenSwapRequest chain.number)
  pub fills : Serial (TokenSwapFill chain.number)
  pub offered_instances : Serial (TokenSwapRequestInstance chain.number)
  pub wanted_instances : Serial (TokenSwapRequestInstance chain.number)
  pub offered_by_users : Serial (TokenSwapRequestUser chain.number)
  pub offered_to_users : Serial (TokenSwapRequestUser chain.number)

-- `if (test) chainValidationErrors.push(..)`
abbrev pub count_if : Bool → ℕ
count_if t = if t then 1 else 0

module _ (X : SwapChain) where
  open X use {chain}
  open chain use {stub, number}

  unfoldable pub swap_key : TokenSwapRequest number → Text
  unfolding composite_key
  swap_key r = composite_key (text "GCTSR") (chain.ℕ_text r.created ∷ r.txid ∷ [])

  -- `fetchTokenInstances`: all are read, whether or not another fails
  unfoldable pub fetch_token_instances :
      List (TokenInstanceQuantity number) → Action stub (List (TokenInstance number))
  unfolding fetch_token_instance
  fetch_token_instances [] s = (ok [], s)
  fetch_token_instances (t ∷ ts) s =
      let (r, s') = fetch_token_instance chain t.token_instance s in
      let (rs, s'') = fetch_token_instances ts s' in
      (elim r [ err e ↦ err e | ok i ↦ elim rs [ err e ↦ err e | ok is ↦ ok (i ∷ is) ] ], s'')

  -- with a catch that gives no instances
  unfoldable pub instances_or_none :
      List (TokenInstanceQuantity number) → Action stub (List (TokenInstance number) × ℕ)
  unfolding fetch_token_instances
  instances_or_none ts s =
      let (r, s') = fetch_token_instances ts s in
      (elim r [ err e ↦ ok ([], 1) | ok is ↦ ok (is, 0) ], s')

  -- a catch that throws another error
  abbrev pub or_throw : {A : Type 0} → Action stub A → Error → Action stub A
  or_throw m e = catch m (λ _. err e)
