-- ===== src/Allowances/Use.antt =====
-- chaincode/src/allowances/useAllowances.ts: taking a quantity off the allowances, in order, with a
-- claim for each.
use galachain_sdk.Base.{
  Bool, true, false, ◌&&◌, ◌||◌, not, Option, none, some, List, [], ◌∷◌, Text, text, if◌then◌else◌,
}
use galachain_sdk.Errors.{ok, err, allowances_below_zero, allowances_not_reached}
use galachain_sdk.State.{Action, lift, ◌>>=◌, ◌>>◌, put_chain_object}
use galachain_sdk.Keys.{composite_key}
use galachain_sdk.Tokens.{TokenAllowance, TokenClaim, AllowanceType, type_number, same_type}
use galachain_sdk.Context.{Context}
use galachain_sdk.Ledger.{Chain}
use galachain_sdk.Allowances.Amount.{equals, amount_minus, amount_min}
use galachain_sdk.Allowances.Fetch.{allowance_key}
use galachain_sdk.Allowances.Check.{is_allowance_expired}

module _ (W : Chain) where
  open W use {stub, number, ℕ_text, number_fixed}
  open number use {Num, of_ℕ, plus, minus, is_equal_to, is_less_than}

  unfoldable pub claim_key : TokenClaim number → Text
  unfolding composite_key type_number
  claim_key c = composite_key (text "GCTC") (
      c.owner_key
      ∷ c.collection
      ∷ c.category
      ∷ c.type
      ∷ c.additional_key
      ∷ number_fixed c.instance_
      ∷ ℕ_text (type_number c.action)
      ∷ c.issuer_key
      ∷ ℕ_text c.allowance_created
      ∷ number_fixed c.claim_sequence
      ∷ [])

  -- `quantityToRemove`
  unfoldable pub quantity_to_remove : TokenAllowance number → Num → Num → Num
  unfolding amount_minus amount_min
  quantity_to_remove a spent remaining =
      amount_min number remaining (amount_minus number a.quantity spent)

  -- the allowance after one use
  unfoldable pub spend_allowance :
      Context → TokenAllowance number → Num → Num → Num → TokenAllowance number
  unfolding equals
  spend_allowance ctx a spent uses removed =
      let spent' = plus spent removed in
      let uses' = plus uses (of_ℕ 1) in
      record a {
        quantity_spent = some spent';
        uses_spent = some uses';
        expires =
            if equals number uses' a.uses || equals number spent' a.quantity
            then ctx.tx_unix_time
            else a.expires;
      }

  unfoldable pub claim_of : Context → TokenAllowance number → Num → Num → TokenClaim number
  claim_of ctx a uses removed = record {
    owner_key = a.granted_to;
    collection = a.collection;
    category = a.category;
    type = a.type;
    additional_key = a.additional_key;
    instance_ = a.instance_;
    action = a.allowance_type;
    issuer_key = a.granted_by;
    allowance_created = a.created;
    claim_sequence = plus uses (of_ℕ 1);
    created = ctx.tx_unix_time;
    quantity = removed;
  }

  -- the body for one allowance: what remains, and whether it was without a limit
  unfoldable pub use_finite :
      Context → TokenAllowance number → Option Num → Option Num → Num → Action stub (Num × Bool)
  unfolding quantity_to_remove spend_allowance claim_of put_chain_object claim_key allowance_key
  use_finite ctx a none uses remaining = lift (ok (remaining, true))
  use_finite ctx a (some spent) none remaining = lift (ok (remaining, true))
  use_finite ctx a (some spent) (some uses) remaining =
      let removed = quantity_to_remove a spent remaining in
      let claim = claim_of ctx a uses removed in
      let a' = spend_allowance ctx a spent uses removed in
      do
        put_chain_object stub W.claims (claim_key claim) claim
        put_chain_object stub W.allowances (allowance_key W a') a'
        lift (ok (minus remaining removed, false))

  -- the loop: what remains, and whether an allowance without a limit was met
  unfoldable pub use_loop :
      Context → AllowanceType → List (TokenAllowance number) → Num → Bool → Action stub (Num × Bool)
  unfolding same_type is_allowance_expired use_finite
  use_loop ctx action [] remaining infinite_ = lift (ok (remaining, infinite_))
  use_loop ctx action (a ∷ as_) remaining infinite_ =
      if not (same_type a.allowance_type action)
      then use_loop ctx action as_ remaining infinite_
      else if is_equal_to remaining (of_ℕ 0)
      then lift (ok (remaining, infinite_))
      else if is_less_than remaining (of_ℕ 0)
      then lift (err allowances_below_zero)
      else if is_allowance_expired W ctx a
      then use_loop ctx action as_ remaining infinite_
      else (do
        used ← use_finite ctx a a.quantity_spent a.uses_spent remaining
        use_loop ctx action as_ used.0 (infinite_ || used.1))

  unfoldable pub use_allowances :
      Context → Num → List (TokenAllowance number) → AllowanceType → Action stub Bool
  unfolding use_loop
  use_allowances ctx quantity allowances action = do
    used ← use_loop ctx action allowances quantity false
    if not (is_equal_to used.0 (of_ℕ 0)) && not used.1
        then lift (err allowances_not_reached)
        else lift (ok true)
