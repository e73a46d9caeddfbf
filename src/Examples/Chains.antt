-- ===== src/Examples/Chains.antt =====
-- A whole channel over the dictionary.
mod Objects
mod Counters
mod Swaps
use galachain_sdk.Base.{
  refl, ℕ, zero, suc, ◌+◌, ◌*◌, ◌-◌, ◌/◌, [], ◌∷◌, ◌++◌, Text, true, ltb, if◌then◌else◌,
}
use galachain_sdk.Base.Int.{ℤ, pos, negsuc}
use galachain_sdk.Numeric.Units.{whole}
use galachain_sdk.Errors.{ok}
use galachain_sdk.Ledger.{Chain}
use galachain_sdk.Examples.Codec.{serial}
use galachain_sdk.Examples.World.{world}
pub use Objects.*
pub use Counters.*
pub use Swaps.*

-- the decimal digits of a number below 10 ^ fuel
abbrev digits : ℕ → ℕ → Text
digits zero n = []
digits (suc fuel) n =
    let rest = digits fuel (n / 10) in
    let last : Text = (48 + (n - n / 10 * 10)) ∷ [] in if ltb n 10 then last else rest ++ last

abbrev number_text : ℤ → Text
number_text (pos n) = digits 25 n
number_text (negsuc n) = b'-' ∷ digits 25 (suc n)

abbrev pub channel : Chain
channel = record {
  stub = world;
  number = whole;
  balances = serial balance_codec refl (λ x. true);
  instances = serial instance_codec refl (λ x. true);
  classes = serial class_codec refl (λ x. true);
  allowances = serial allowance_codec refl (λ x. true);
  claims = serial claim_codec refl (λ x. true);
  burns = serial burn_codec refl (λ x. true);
  burn_counters = serial burn_counter_codec refl (λ x. true);
  mint_requests = serial mint_request_codec refl (λ x. true);
  mint_fulfillments = serial mint_fulfillment_codec refl (λ x. true);
  mint_allowance_requests = serial mint_allowance_request_codec refl (λ x. true);
  mint_allowances = serial mint_allowance_codec refl (λ x. true);
  number_text = number_text;
  number_fixed = number_text;
  ℕ_text = digits 25;
  resolve_user_alias = λ user s. (ok user, s);
}
