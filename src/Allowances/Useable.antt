-- ===== src/Allowances/Useable.antt =====
-- Whether an allowance may be used: three functions of the code test it, in different words.
use galachain_sdk.Base.{◌≡◌, not, ◌||◌, arith}
use galachain_sdk.Tokens.{TokenAllowance}
use galachain_sdk.Context.{Context}
use galachain_sdk.Ledger.{Chain}
use galachain_sdk.Allowances.Check.{is_exhausted, is_allowance_spent, is_allowance_expired}
use galachain_sdk.Allowances.Grant.{allowance_is_useable}
use galachain_sdk.Allowances.Refresh.{is_used_up}

module _ (W : Chain) where
  -- An allowance is useable for `preventDuplicateAllowance` exactly when it is neither spent nor expired
  -- for `checkAllowances`, and exactly when `fullAllowanceCheck` does not drop it.
  pub allowance_is_useable-agrees :
      (ctx : Context) (a : TokenAllowance W.number)
      → (allowance_is_useable W ctx a
          ≡ not (is_allowance_spent W a || is_allowance_expired W ctx a))
        × (allowance_is_useable W ctx a ≡ not (is_used_up W ctx a))
  unfolding allowance_is_useable is_allowance_spent is_used_up is_exhausted is_allowance_expired
  allowance_is_useable-agrees ctx a = ground arith
