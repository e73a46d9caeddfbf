-- ===== src/Allowances/Verify.antt =====
-- chaincode/src/allowances/verifyAndUseAllowances.ts: allowances that are fetched by their token, or
-- named by their keys, are checked and then used.
use galachain_sdk.Base.{
  Bool, ◌&&◌, ◌||◌, not, some, List, [], ◌∷◌, Text, eqb, any, filter, if◌then◌else◌,
}
use galachain_sdk.Errors.{Result, ok, err, insufficient_allowance, allowance_users_mismatch}
use galachain_sdk.State.{Action, lift, ◌>>=◌, ◌>>◌, get_objects_by_keys}
use galachain_sdk.Tokens.{
  TokenAllowance, TokenInstance, TokenInstanceKey, AllowanceType, transfer, same_type,
}
use galachain_sdk.Context.{Context}
use galachain_sdk.Ledger.{Chain}
use galachain_sdk.Allowances.Amount.{exceeds}
use galachain_sdk.Allowances.Fetch.{fetch_allowances}
use galachain_sdk.Allowances.Check.{check_allowances}
use galachain_sdk.Allowances.Use.{use_allowances}

-- `[...new Set(texts)]`: the first of each, given those already `seen`
unfoldable pub unique : List Text → List Text → List Text
unique seen [] = []
unique seen (t ∷ ts) =
    let rest = unique (t ∷ seen) ts in if any (λ s. eqb s t) seen then rest else t ∷ rest

module _ (W : Chain) where
  open W use {stub, number, number_text}
  open number use {Num, is_equal_to}

  unfoldable pub verify_and_use_allowances_internal :
      Context
      → TokenInstanceKey number
      → Num
      → Text
      → AllowanceType
      → List (TokenAllowance number)
      → Action stub Bool
  unfolding check_allowances exceeds use_allowances
  verify_and_use_allowances_internal ctx k quantity user action allowances = do
    allowed ← check_allowances W ctx allowances k action user
    if exceeds number quantity allowed
        then lift (err insufficient_allowance)
        else use_allowances W ctx quantity allowances action

  unfoldable pub verify_and_use_allowances :
      Context
      → Text
      → TokenInstanceKey number
      → Num
      → TokenInstance number
      → Text
      → AllowanceType
      → Action stub Bool
  unfolding fetch_allowances verify_and_use_allowances_internal
  verify_and_use_allowances ctx granted_by k quantity i user action = do
    allowances ← fetch_allowances W (record {
      granted_to = user;
      collection = some i.collection;
      category = some i.category;
      type = some i.type;
      additional_key = some i.additional_key;
      instance_ = some (number_text i.instance_);
      allowance_type = some action;
      granted_by = some granted_by;
    })
    verify_and_use_allowances_internal ctx k quantity user action allowances

  unfoldable pub is_transfer_allowance_of : TokenInstance number → TokenAllowance number → Bool
  unfolding same_type
  is_transfer_allowance_of i a =
      same_type a.allowance_type transfer
      && eqb a.collection i.collection
      && eqb a.category i.category
      && eqb a.type i.type
      && eqb a.additional_key i.additional_key
      && is_equal_to a.instance_ i.instance_

  -- the `forEach` that throws
  unfoldable pub ensure_users_match : Text → Text → List (TokenAllowance number) → Result (Unit {0})
  ensure_users_match granted_by user [] = ok tt
  ensure_users_match granted_by user (a ∷ as_) =
      if not (eqb a.granted_by granted_by) || not (eqb a.granted_to user)
      then err allowance_users_mismatch
      else ensure_users_match granted_by user as_

  unfoldable pub verify_and_use_transfer_allowances_by_keys :
      Context
      → Text
      → TokenInstanceKey number
      → Num
      → TokenInstance number
      → Text
      → List Text
      → Action stub Bool
  unfolding unique get_objects_by_keys is_transfer_allowance_of ensure_users_match
      verify_and_use_allowances_internal
  verify_and_use_transfer_allowances_by_keys ctx granted_by k quantity i user keys = do
    fetched ← get_objects_by_keys stub W.allowances (unique [] keys)
    let applicable = filter (is_transfer_allowance_of i) fetched
    lift (ensure_users_match granted_by user applicable)
    verify_and_use_allowances_internal ctx k quantity user transfer applicable
