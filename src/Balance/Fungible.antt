-- ===== src/Balance/Fungible.antt =====
-- The fungible half of `class TokenBalance` (chain-api/src/types/TokenBalance.ts): a quantity of
-- which a part may be locked by holds.
use galachain_sdk.Base.{
  ℕ, Bool, not, ◌&&◌, ◌||◌, Option, none, some, List, [], ◌∷◌, ◌++◌, Text, opt_eqb, if◌then◌else◌,
}
use galachain_sdk.Numeric.{BigNumber}
use galachain_sdk.Balance.Sort.{sort}
use galachain_sdk.Balance.Hold.{
  TokenHold, new_hold, is_vesting_hold, get_locked_vesting_quantity, sort_by_ascending_expiration,
}
use galachain_sdk.Balance.Account.{
  TokenBalance, get_unexpired_locked_holds, ensure_contains_no_nft_instances,
}
use galachain_sdk.Errors.{
  Result, ok, ◌>>◌, throw_if, negative_quantity, insufficient_balance, hold_not_fungible,
  token_quantity_not_unlocked,
}

module _ (B : BigNumber) where
  open B use {
    Num, of_ℕ, plus, minus, is_equal_to, is_less_than, is_less_than_or_equal_to, is_greater_than,
    is_negative,
  }

  -- what a hold counts for: `toAdd` in `getCurrentLockedQuantity`; `none` is NaN
  unfoldable pub held_quantity : TokenHold B → ℕ → Option Num
  held_quantity h now =
      if is_vesting_hold B h then get_locked_vesting_quantity B h now else some h.quantity

  -- `plus`, where NaN makes NaN
  unfoldable pub plus_or_nan : Option Num → Option Num → Option Num
  plus_or_nan none b = none
  plus_or_nan (some a) none = none
  plus_or_nan (some a) (some b) = some (plus a b)

  -- the `reduce`
  unfoldable pub sum_held : ℕ → Option Num → List (TokenHold B) → Option Num
  unfolding plus_or_nan
  sum_held now sum [] = sum
  sum_held now sum (h ∷ hs) = sum_held now (plus_or_nan sum (held_quantity h now)) hs

  unfoldable pub get_current_locked_quantity : TokenBalance B → ℕ → Option Num
  get_current_locked_quantity b now =
      sum_held now (some (of_ℕ 0)) (get_unexpired_locked_holds B b now)

  unfoldable pub get_quantity_total : TokenBalance B → Result Num
  get_quantity_total b = do ensure_contains_no_nft_instances B b; ok b.quantity

  unfoldable pub get_spendable_quantity_total : TokenBalance B → ℕ → Result (Option Num)
  get_spendable_quantity_total b now = do
    ensure_contains_no_nft_instances B b
    ok (elim (get_current_locked_quantity b now) [
      | none ↦ none
      | some locked ↦ some (minus b.quantity locked)
    ])

  unfoldable pub get_locked_quantity_total : TokenBalance B → ℕ → Result (Option Num)
  get_locked_quantity_total b now = do
    ensure_contains_no_nft_instances B b
    ok (get_current_locked_quantity b now)

  unfoldable pub ensure_is_valid_quantity_for_fungible : Num → Result (Unit {0})
  ensure_is_valid_quantity_for_fungible q = throw_if (is_negative q) negative_quantity

  -- `NaN.isLessThan(..)` is false, so that every quantity passes
  unfoldable pub ensure_quantity_is_spendable : TokenBalance B → Num → ℕ → Result (Unit {0})
  ensure_quantity_is_spendable b q now = elim (get_current_locked_quantity b now) [
    | none ↦ ok tt
    | some locked ↦ throw_if (is_less_than (minus b.quantity locked) q) insufficient_balance
  ]

  unfoldable pub ensure_token_quantity_hold_is_fungible : TokenHold B → Result (Unit {0})
  ensure_token_quantity_hold_is_fungible h =
      throw_if (not (is_equal_to h.instance_id (of_ℕ 0))) hold_not_fungible

  unfoldable pub add_quantity : TokenBalance B → Num → Result (TokenBalance B)
  unfolding ensure_is_valid_quantity_for_fungible
  add_quantity b q = do
    ensure_contains_no_nft_instances B b
    ensure_is_valid_quantity_for_fungible q
    ok (record b { quantity = plus b.quantity q })

  unfoldable pub subtract_quantity : TokenBalance B → Num → ℕ → Result (TokenBalance B)
  unfolding ensure_is_valid_quantity_for_fungible ensure_quantity_is_spendable
  subtract_quantity b q now = do
    ensure_contains_no_nft_instances B b
    ensure_is_valid_quantity_for_fungible q
    ensure_quantity_is_spendable b q now
    ok (record b { quantity = minus b.quantity q })

  unfoldable pub lock_quantity : TokenBalance B → TokenHold B → Result (TokenBalance B)
  unfolding ensure_token_quantity_hold_is_fungible ensure_quantity_is_spendable
  lock_quantity b hold = do
    ensure_token_quantity_hold_is_fungible hold
    ensure_quantity_is_spendable b hold.quantity hold.created
    ok (record b { locked_holds = some (get_unexpired_locked_holds B b hold.created ++ hold ∷ []) })

  -- `hold.lockAuthority === undefined && callingUser === this.owner`, or the hold's creator
  unfoldable pub is_calling_user_authorized :
      TokenBalance B → TokenHold B → Option Text → Option Text → Bool → Bool
  is_calling_user_authorized b h name calling_user is_token_authority =
      opt_eqb h.name name
      && (is_token_authority
          || opt_eqb calling_user h.lock_authority
          || (opt_eqb h.lock_authority none && opt_eqb calling_user (some b.owner))
          || (opt_eqb h.lock_authority none && opt_eqb calling_user (some h.created_by)))

  -- what is left of a hold that is unlocked in part
  unfoldable pub partial_hold : TokenHold B → Num → TokenHold B
  partial_hold h rest =
      new_hold B h.created_by h.instance_id rest h.created (some h.expires) h.name h.lock_authority
        none

  -- One round of the loop: what it keeps of the hold, and what remains to unlock.
  unfoldable pub unlock_one :
      TokenBalance B
      → Option Text
      → Option Text
      → Bool
      → TokenHold B
      → Num
      → List (TokenHold B) × Num
  unfolding partial_hold
  unlock_one b name user authority h remaining =
      if is_vesting_hold B h
      then (h ∷ [], remaining)
      else if not (is_calling_user_authorized b h name user authority)
      then (h ∷ [], remaining)
      else if is_less_than_or_equal_to h.quantity remaining
      then ([], minus remaining h.quantity)
      else (partial_hold h (minus h.quantity remaining) ∷ [], of_ℕ 0)

  -- the loop: the updated holds, and what remains to unlock
  unfoldable pub unlock_loop :
      TokenBalance B
      → Option Text
      → Option Text
      → Bool
      → List (TokenHold B)
      → List (TokenHold B)
      → Num
      → List (TokenHold B) × Num
  unlock_loop b name user authority [] updated remaining = (updated, remaining)
  unlock_loop b name user authority (h ∷ hs) updated remaining =
      let (kept, remaining') = unlock_one b name user authority h remaining in
      unlock_loop b name user authority hs (updated ++ kept) remaining'

  unfoldable pub get_unexpired_locked_holds_sorted : TokenBalance B → ℕ → List (TokenHold B)
  get_unexpired_locked_holds_sorted b now =
      sort (sort_by_ascending_expiration B) (get_unexpired_locked_holds B b now)

  unfoldable pub unlock_quantity :
      TokenBalance B → Num → ℕ → Option Text → Option Text → Bool → Result (TokenBalance B)
  unlock_quantity b q now name user authority = do
    let holds = get_unexpired_locked_holds_sorted b now
    let (updated, remaining) = unlock_loop b name user authority holds [] q
    throw_if (is_greater_than remaining (of_ℕ 0)) token_quantity_not_unlocked
    ok (record b { locked_holds = some updated })
