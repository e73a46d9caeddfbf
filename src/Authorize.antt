-- ===== src/Authorize.antt =====
-- chaincode/src/contracts/authorize.ts: which calls are let through, by the origin chaincode, the
-- signed operation, the caller's organisation and the caller's roles.
pub mod Sound
use galachain_sdk.Base.{
  ℕ, Bool, true, false, ◌&&◌, ◌||◌, not, Option, none, some, List, [], ◌∷◌, Text, text, eqb, any,
  if◌then◌else◌,
}
use galachain_sdk.Errors.{
  Result, ok, err, ◌>>=◌, ◌>>◌, throw_if, missing_role, organization_not_allowed,
  chaincode_not_allowed, missing_operation, wrong_operation,
}
use galachain_sdk.Stub.Cache.{starts_with}
use galachain_sdk.Context.{Context, calling_user, calling_user_roles, is_multisig}

pub record AuthorizeOptions : Type 0 where
  pub allowed_orgs : Option (List Text)
  pub allowed_roles : Option (List Text)
  pub allowed_origin_chaincodes : Option (List Text)
  pub quorum : Option ℕ

-- `list.some((o) => o === x)`, `list.includes(x)`
unfoldable pub member : List Text → Text → Bool
member xs x = any (λ y. eqb y x) xs

unfoldable pub ensure_organization_is_allowed : Context → List Text → Result (Unit {0})
unfolding member
ensure_organization_is_allowed ctx orgs =
    throw_if (not (member orgs ctx.msp_id)) organization_not_allowed

-- `!dto?.dtoOperation`: missing and empty are alike
unfoldable pub named_operation : Option Text → Option Text
named_operation none = none
named_operation (some []) = none
named_operation (some (c ∷ cs)) = some (c ∷ cs)

-- `dto_operation` is `dto?.dtoOperation`.
unfoldable pub ensure_correct_method_is_used : Context → Option Text → Result (Unit {0})
unfolding named_operation is_multisig
ensure_correct_method_is_used ctx dto_operation = do
  multisig ← is_multisig ctx
  elim (named_operation dto_operation) [
    | none ↦ throw_if multisig missing_operation
    | some operation ↦ throw_if (not (eqb operation ctx.full_operation_id)) wrong_operation
  ]

unfoldable pub has_role : List Text → List Text → Bool
unfolding member
has_role allowed roles = any (λ role. member roles role) allowed

-- The roles are read for the test, or for the error.
unfoldable pub ensure_role_is_allowed : Context → List Text → Result (Unit {0})
unfolding has_role calling_user_roles
ensure_role_is_allowed ctx allowed = do
  roles ← calling_user_roles ctx
  throw_if (not (has_role allowed roles)) missing_role

unfoldable pub ensure_chaincode_is_allowed : Text → List Text → Result (Unit {0})
unfolding member
ensure_chaincode_is_allowed chaincode allowed =
    throw_if (not (member allowed chaincode)) chaincode_not_allowed

-- `user.slice(8)`
unfoldable pub without_service : Text → Text
without_service (_ ∷ _ ∷ _ ∷ _ ∷ _ ∷ _ ∷ _ ∷ _ ∷ rest) = rest
without_service _ = []

abbrev pub service_prefix : Text
service_prefix = text "service|"

-- the checks of a call that does not come from another chaincode
unfoldable pub authorize_user : Context → AuthorizeOptions → Option Text → Result (Unit {0})
unfolding ensure_correct_method_is_used ensure_organization_is_allowed ensure_role_is_allowed
authorize_user ctx options dto_operation = do
  ensure_correct_method_is_used ctx dto_operation
  (elim options.allowed_orgs [ none ↦ ok tt | some orgs ↦ ensure_organization_is_allowed ctx orgs ])
  elim options.allowed_roles [ none ↦ ok tt | some roles ↦ ensure_role_is_allowed ctx roles ]

unfoldable pub authorize : Context → AuthorizeOptions → Option Text → Result (Unit {0})
unfolding ensure_chaincode_is_allowed without_service authorize_user calling_user
authorize ctx options dto_operation = elim options.allowed_origin_chaincodes [
  | none ↦ authorize_user ctx options dto_operation
  | some chaincodes ↦ do
    user ← calling_user ctx
    if starts_with user service_prefix
        then ensure_chaincode_is_allowed (without_service user) chaincodes
        else authorize_user ctx options dto_operation
]
