-- ===== src/Examples/Allowances.antt =====
-- A run of an allowance: five of the eight that are left.
use galachain_sdk.Base.{◌≡◌, true, false, none, some, [], ◌∷◌, text, arith, ◌⊎◌}
use galachain_sdk.Base.Int.{pos}
use galachain_sdk.Numeric.Units.{whole}
use galachain_sdk.Errors.{ok, err, object_validation_failed, allowances_not_reached}
use galachain_sdk.Stub.Cache.{StubCache, new_cache}
use galachain_sdk.Tokens.{TokenAllowance, finite, transfer}
use galachain_sdk.Context.{Context}
use galachain_sdk.Allowances.Use.{use_allowances}
use galachain_sdk.Allowances.Bounds.{use_allowances-outcomes}
use galachain_sdk.Examples.World.{world}
use galachain_sdk.Examples.Chains.{channel}

abbrev granted : TokenAllowance whole
granted = record {
  granted_to = text "bob";
  collection = text "GALA";
  category = text "Unit";
  type = text "none";
  additional_key = text "none";
  instance_ = pos 0;
  allowance_type = transfer;
  granted_by = text "alice";
  created = 1;
  uses = finite (pos 3);
  uses_spent = some (pos 1);
  expires = 0;
  quantity = finite (pos 10);
  quantity_spent = some (pos 2);
}

abbrev bob : Context
bob = record {
  calling_user_value = some (text "bob");
  calling_user_roles_value = some [];
  is_multisig_value = some false;
  is_dry_run = false;
  tx_unix_time = 5;
  msp_id = text "Org";
  full_operation_id = text "op";
}

abbrev empty : StubCache world
empty = new_cache world [] false none

use_allowances-outcomes_example :
    ((use_allowances channel bob (pos 5) (granted ∷ []) transfer empty).0 ≡ ok true)
    ⊎ ((use_allowances channel bob (pos 5) (granted ∷ []) transfer empty).0
        ≡ err allowances_not_reached)
    ⊎ ((use_allowances channel bob (pos 5) (granted ∷ []) transfer empty).0
        ≡ err object_validation_failed)
use_allowances-outcomes_example =
    use_allowances-outcomes channel bob (pos 5) (granted ∷ []) transfer empty (omega arith)
