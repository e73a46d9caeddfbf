-- ===== src/Allowances/Check.antt =====
-- chaincode/src/allowances/checkAllowances.ts: dropping what is spent, expired or not backed by a
-- balance, and summing what is left.
use galachain_sdk.Base.{
  Bool, true, false, ◌&&◌, ◌||◌, ◌==◌, not, Option, none, some, List, [], ◌∷◌, ◌++◌, Text, eqb, any,
  leb, if◌then◌else◌,
}
use galachain_sdk.Errors.{ok}
use galachain_sdk.Balance.Account.{TokenBalance, is_fungible, get_nft_instance_ids}
use galachain_sdk.State.{Action, lift, ◌>>=◌, ◌>>◌}
use galachain_sdk.Tokens.{
  TokenAllowance, TokenInstanceKey, AllowanceType, mint, same_type, Amount, finite,
}
use galachain_sdk.Context.{Context}
use galachain_sdk.Ledger.{Chain, fetch_balances}
use galachain_sdk.Allowances.Amount.{reaches, amount_plus, amount_minus}
use galachain_sdk.Allowances.Fetch.{delete_one_allowance}

module _ (W : Chain) where
  open W use {stub, number}
  open number use {Num, of_ℕ, is_equal_to}

  -- `spent?.isGreaterThanOrEqualTo(limit) ?? false`
  unfoldable pub is_exhausted : Option Num → Amount number → Bool
  unfolding reaches
  is_exhausted none limit = false
  is_exhausted (some spent) limit = reaches number spent limit

  unfoldable pub is_allowance_spent : TokenAllowance number → Bool
  unfolding is_exhausted
  is_allowance_spent a =
      is_exhausted a.uses_spent a.uses || is_exhausted a.quantity_spent a.quantity

  unfoldable pub is_allowance_expired : Context → TokenAllowance number → Bool
  is_allowance_expired ctx a = not (a.expires == 0) && leb a.expires ctx.tx_unix_time

  -- `balances.flatMap((b) => b.getNftInstanceIds())`
  unfoldable pub all_nft_ids : List (TokenBalance number) → List Num
  all_nft_ids [] = []
  all_nft_ids (b ∷ bs) = get_nft_instance_ids number b ++ all_nft_ids bs

  abbrev is_not_empty : List (TokenBalance number) → Bool
  is_not_empty [] = false
  is_not_empty (_ ∷ _) = true

  unfoldable pub does_grantor_have_token : TokenAllowance number → Action stub Bool
  unfolding same_type fetch_balances is_fungible all_nft_ids
  does_grantor_have_token a = if same_type a.allowance_type mint then lift (ok true) else do
    owner ← W.resolve_user_alias a.granted_by
    balances ←
        fetch_balances W owner (some a.collection) (some a.category) (some a.type)
          (some a.additional_key)
    lift (
        ok (
          if is_fungible number a.instance_
          then is_not_empty balances
          else any (λ (id : Num). is_equal_to id a.instance_) (all_nft_ids balances)))

  -- `||` looks at the balance only if the first two tests fail
  unfoldable pub is_allowance_invalid : Context → TokenAllowance number → Action stub Bool
  unfolding is_allowance_spent is_allowance_expired does_grantor_have_token
  is_allowance_invalid ctx a =
      if is_allowance_spent a || is_allowance_expired ctx a
      then lift (ok true)
      else do has ← does_grantor_have_token a; lift (ok (not has))

  unfoldable pub clean_allowances :
      Context → List (TokenAllowance number) → Text → Action stub (List (TokenAllowance number))
  unfolding is_allowance_invalid delete_one_allowance
  clean_allowances ctx [] user = lift (ok [])
  clean_allowances ctx (a ∷ as_) user = do
    invalid ← is_allowance_invalid ctx a
    (if invalid then delete_one_allowance W a user else lift (ok tt))
    rest ← clean_allowances ctx as_ user
    lift (ok (if invalid then rest else a ∷ rest))

  -- the test in the `forEach`
  unfoldable pub applies :
      Context → TokenInstanceKey number → AllowanceType → TokenAllowance number → Bool
  unfolding is_allowance_expired same_type
  applies ctx k action a =
      eqb a.collection k.collection
      && eqb a.category k.category
      && eqb a.type k.type
      && eqb a.additional_key k.additional_key
      && is_equal_to a.instance_ k.instance_
      && same_type a.allowance_type action
      && not (is_allowance_expired ctx a)

  -- `quantitySpent ?? new BigNumber("0")`
  abbrev spent_or_zero : Option Num → Num
  spent_or_zero none = of_ℕ 0
  spent_or_zero (some q) = q

  unfoldable pub sum_allowances :
      Context
      → TokenInstanceKey number
      → AllowanceType
      → Amount number
      → List (TokenAllowance number)
      → Amount number
  unfolding applies amount_plus amount_minus
  sum_allowances ctx k action total [] = total
  sum_allowances ctx k action total (a ∷ as_) =
      sum_allowances ctx k action
        (if applies ctx k action a
          then amount_minus number (amount_plus number total a.quantity)
              (spent_or_zero a.quantity_spent)
          else total)
        as_

  unfoldable pub check_allowances :
      Context
      → List (TokenAllowance number)
      → TokenInstanceKey number
      → AllowanceType
      → Text
      → Action stub (Amount number)
  unfolding clean_allowances sum_allowances
  check_allowances ctx allowances k action user = do
    valid ← clean_allowances ctx allowances user
    lift (ok (sum_allowances ctx k action (finite (of_ℕ 0)) valid))
