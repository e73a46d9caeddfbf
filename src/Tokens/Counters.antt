-- ===== src/Tokens/Counters.antt =====
-- The chain objects that record burns, mints and mint allowances, and from which the supplies are
-- counted: TokenBurn, TokenBurnCounter, TokenMintRequest, TokenMintFulfillment,
-- TokenMintAllowanceRequest and TokenMintAllowance of chain-api/src/types.
use galachain_sdk.Base.{ℕ, Text}
use galachain_sdk.Numeric.{BigNumber}
use galachain_sdk.Tokens.{Amount}

pub data TokenMintStatus : Type 0 where
  unknown_status minted partially_minted allowance_total_exceeded : TokenMintStatus
  supply_total_exceeded null_administrative_patch_entry : TokenMintStatus

module _ (B : BigNumber) where
  pub record TokenBurn : Type 0 where
    pub burned_by : Text
    pub collection : Text
    pub category : Text
    pub type : Text
    pub additional_key : Text
    pub instance_ : B.Num
    pub created : ℕ
    pub quantity : B.Num

  pub record TokenBurnCounter : Type 0 where
    pub collection : Text
    pub category : Text
    pub type : Text
    pub additional_key : Text
    pub time_key : Text
    pub burned_by : Text
    pub instance_ : B.Num
    pub total_known_burns_count : B.Num
    pub created : ℕ
    pub quantity : B.Num
    pub reference_id : Text
    pub epoch : Text

  pub record TokenMintRequest : Type 0 where
    pub collection : Text
    pub category : Text
    pub type : Text
    pub additional_key : Text
    pub time_key : Text
    pub owner : Text
    pub total_known_mints_count : B.Num
    pub requestor : Text
    pub created : ℕ
    pub quantity : B.Num
    pub state : TokenMintStatus
    pub id : Text
    pub epoch : Text

  pub record TokenMintFulfillment : Type 0 where
    pub collection : Text
    pub category : Text
    pub type : Text
    pub additional_key : Text
    pub requestor : Text
    pub request_created : ℕ
    pub owner : Text
    pub quantity : B.Num
    pub state : TokenMintStatus
    pub id : Text
    pub created : ℕ

  -- A quantity of mint allowances may be infinite, and then the known count too.
  pub record TokenMintAllowanceRequest : Type 0 where
    pub collection : Text
    pub category : Text
    pub type : Text
    pub additional_key : Text
    pub time_key : Text
    pub granted_to : Text
    pub total_known_mint_allowances_count : Amount B
    pub created : ℕ
    pub granted_by : Text
    pub quantity : Amount B
    pub state : TokenMintStatus
    pub id : Text
    pub uses : Amount B
    pub expires : ℕ
    pub epoch : Text

  pub record TokenMintAllowance : Type 0 where
    pub collection : Text
    pub category : Text
    pub type : Text
    pub additional_key : Text
    pub total_known_mint_allowances_at_request : Amount B
    pub granted_by : Text
    pub granted_to : Text
    pub created : ℕ
    pub req_id : Text
    pub quantity : Amount B
