-- ===== src/Authorize/Sound.antt =====
-- What a call that was let through had.
use galachain_sdk.Base.{◌≡◌, true, Option, none, some, List, Text, eqb_iff, arith}
use galachain_sdk.Errors.{ok}
use galachain_sdk.Context.{Context}
use galachain_sdk.Authorize.{
  AuthorizeOptions, member, named_operation, ensure_correct_method_is_used,
  ensure_organization_is_allowed, authorize, authorize_user,
}

organization_is_member :
    (ctx : Context) (orgs : List Text)
    → ensure_organization_is_allowed ctx orgs ≡ ok tt
    → member orgs ctx.msp_id ≡ true
unfolding ensure_organization_is_allowed
organization_is_member ctx orgs h = ground arith

-- A call without origin chaincodes passes only if an allowed organisation is the caller's, where
-- organisations are named; and a signed operation is the one that is called.
pub authorize-organization :
    (ctx : Context) (options : AuthorizeOptions) (operation : Option Text) (orgs : List Text)
    → options.allowed_origin_chaincodes ≡ none
    → options.allowed_orgs ≡ some orgs
    → authorize ctx options operation ≡ ok tt
    → (member orgs ctx.msp_id ≡ true)
      × ((t : Text) → named_operation operation ≡ some t → t ≡ ctx.full_operation_id)
unfolding authorize authorize_user ensure_organization_is_allowed ensure_correct_method_is_used
authorize-organization ctx options operation orgs o g h =
    (ground arith, λ t e. ground (arith, eqb_iff t ctx.full_operation_id))
