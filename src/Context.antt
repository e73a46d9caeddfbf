-- ===== src/Context.antt =====
-- `GalaChainContext` (chaincode/src/types/GalaChainContext.ts): who calls, with which roles, and
-- when. A getter throws where the value is not set.
use galachain_sdk.Base.{ℕ, Bool, Option, none, some, List, Text}
use galachain_sdk.Errors.{Result, ok, err, authentication_failed}

pub record Context : Type 0 where
  pub calling_user_value : Option Text
  pub calling_user_roles_value : Option (List Text)
  pub is_multisig_value : Option Bool
  pub is_dry_run : Bool
  pub tx_unix_time : ℕ
  -- `clientIdentity.getMSPID()` and `operationCtx.fullOperationId`
  pub msp_id : Text
  pub full_operation_id : Text

unfoldable pub or_unauthorized : {A : Type 0} → Option A → Result A
or_unauthorized none = err authentication_failed
or_unauthorized (some a) = ok a

unfoldable pub calling_user : Context → Result Text
unfolding or_unauthorized
calling_user ctx = or_unauthorized ctx.calling_user_value

unfoldable pub calling_user_roles : Context → Result (List Text)
unfolding or_unauthorized
calling_user_roles ctx = or_unauthorized ctx.calling_user_roles_value

unfoldable pub is_multisig : Context → Result Bool
unfolding or_unauthorized
is_multisig ctx = or_unauthorized ctx.is_multisig_value
