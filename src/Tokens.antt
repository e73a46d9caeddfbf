-- ===== src/Tokens.antt =====
-- The chain objects of the token contract (chain-api/src/types), and everything outside the modelled
-- code that a contract method uses.
pub mod Counters
use galachain_sdk.Base.{ℕ, Bool, ◌==◌, Option, List, Text}
use galachain_sdk.Numeric.{BigNumber}

pub data AllowanceType : Type 0 where
  use_token lock spend transfer mint swap burn : AllowanceType

-- the numbers of the enum
unfoldable pub type_number : AllowanceType → ℕ
type_number use_token = 0
type_number lock = 1
type_number spend = 2
type_number transfer = 3
type_number mint = 4
type_number swap = 5
type_number burn = 6

-- `===`
unfoldable pub same_type : AllowanceType → AllowanceType → Bool
unfolding type_number
same_type a b = type_number a == type_number b

pub record TokenClassKey : Type 0 where
  pub collection : Text
  pub category : Text
  pub type : Text
  pub additional_key : Text

module _ (B : BigNumber) where
  pub record TokenInstanceKey : Type 0 where
    pub collection : Text
    pub category : Text
    pub type : Text
    pub additional_key : Text
    pub instance_ : B.Num

  pub record TokenInstance : Type 0 where
    pub collection : Text
    pub category : Text
    pub type : Text
    pub additional_key : Text
    pub instance_ : B.Num
    pub is_non_fungible : Bool
    pub owner : Option Text

  -- A quantity that may be infinite, as `allowInfinity` permits.
  pub data Amount : Type 0 where
    finite : B.Num → Amount
    infinite : Amount

  pub record TokenClass : Type 0 where
    pub collection : Text
    pub category : Text
    pub type : Text
    pub additional_key : Text
    pub network : Text
    pub decimals : ℕ
    pub max_supply : Amount
    pub is_non_fungible : Bool
    pub max_capacity : Amount
    pub authorities : List Text
    pub name : Text
    pub symbol : Text
    pub description : Text
    pub contract_address : Option Text
    pub metadata_address : Option Text
    pub image : Text
    pub rarity : Option Text
    pub total_burned : B.Num
    pub total_mint_allowance : B.Num
    pub known_mint_allowance_supply : Option B.Num
    pub total_supply : B.Num
    pub known_mint_supply : Option B.Num

  pub record TokenAllowance : Type 0 where
    pub granted_to : Text
    pub collection : Text
    pub category : Text
    pub type : Text
    pub additional_key : Text
    pub instance_ : B.Num
    pub allowance_type : AllowanceType
    pub granted_by : Text
    pub created : ℕ
    pub uses : Amount
    pub uses_spent : Option B.Num
    pub expires : ℕ
    pub quantity : Amount
    pub quantity_spent : Option B.Num

  pub record TokenClaim : Type 0 where
    pub owner_key : Text
    pub collection : Text
    pub category : Text
    pub type : Text
    pub additional_key : Text
    pub instance_ : B.Num
    pub action : AllowanceType
    pub issuer_key : Text
    pub allowance_created : ℕ
    pub claim_sequence : B.Num
    pub created : ℕ
    pub quantity : B.Num
