-- ===== src/Examples/Balances.antt =====
-- Runs of a fungible balance: subtraction, addition, locks, unlocks and vesting.
use galachain_sdk.Balance.AtOnce.{vests_at_once}
use galachain_sdk.Balance.Sort.{sort}
use galachain_sdk.Base.{
  ◌≡◌, refl, ◌<◌, ◌⊎◌, true, false, none, some, [], ◌∷◌, text, arith, eqb, opt_eqb,
}
use galachain_sdk.Base.Int.{ℤ, pos, negsuc, ◌+ℤ◌, ◌-ℤ◌, ◌≤ℤ◌}
use galachain_sdk.Numeric.Units.{whole}
use galachain_sdk.Errors.{ok, err, insufficient_balance}
use galachain_sdk.Balance.Hold.{
  TokenHold, get_locked_vesting_quantity, is_expired, is_vesting_hold, new_hold,
  sort_by_ascending_expiration,
}
use galachain_sdk.Balance.Account.{
  TokenBalance, contains_any_nft_instance_id, ensure_contains_no_nft_instances,
  get_unexpired_locked_holds,
}
use galachain_sdk.Balance.Fungible.{
  get_current_locked_quantity, subtract_quantity, add_quantity, lock_quantity, unlock_quantity,
  get_unexpired_locked_holds_sorted, held_quantity, is_calling_user_authorized, sum_held,
  unlock_loop, unlock_one,
}
use galachain_sdk.Balance.Solvency.{
  IsSolvent, IsSolventOrVests, subtract_quantity-IsSolvent, subtract_quantity_decides,
  add_quantity-IsSolvent, lock_quantity-IsSolvent,
}
use galachain_sdk.Balance.Held.{vests_now}
use galachain_sdk.Balance.Unlocking.{unlock_quantity-exact}
use galachain_sdk.Balance.Vesting.{vesting-bounds}

abbrev held_three : TokenHold whole
held_three = record {
  created_by = text "alice";
  instance_id = pos 0;
  quantity = pos 3;
  created = 4;
  expires = 0;
  name = none;
  lock_authority = none;
  vesting_period_start = none;
}

abbrev ten : TokenBalance whole
ten = record {
  owner = text "alice";
  collection = text "GALA";
  category = text "Unit";
  type = text "none";
  additional_key = text "none";
  instance_ids = some [];
  locked_holds = some (held_three ∷ []);
  quantity = pos 10;
  vesting_period_start = none;
}

abbrev six : TokenBalance whole
six = record ten { quantity = pos 6 }

subtract_quantity-IsSolvent_example :
    (six.quantity ≡ ten.quantity -ℤ pos 4)
    × (six.locked_holds ≡ ten.locked_holds)
    × IsSolventOrVests whole six 5
unfolding subtract_quantity ensure_contains_no_nft_instances get_current_locked_quantity sum_held
    get_unexpired_locked_holds is_expired held_quantity is_vesting_hold ◌-ℤ◌ ◌+ℤ◌
subtract_quantity-IsSolvent_example = subtract_quantity-IsSolvent whole ten (pos 4) 5 six refl

subtract_quantity_decides_example :
    let done = ok (record ten { quantity = ten.quantity -ℤ pos 8 }) in
    ((vests_now whole 5 ten ≡ true) × (subtract_quantity whole ten (pos 8) 5 ≡ done))
    ⊎ ((vests_now whole 5 ten ≡ false)
        × (l : ℤ) × (get_current_locked_quantity whole ten 5 ≡ some l)
        × (pos 8 ≤ℤ ten.quantity -ℤ l → subtract_quantity whole ten (pos 8) 5 ≡ done)
        × (¬ (pos 8 ≤ℤ ten.quantity -ℤ l)
            → subtract_quantity whole ten (pos 8) 5 ≡ err insufficient_balance))
unfolding contains_any_nft_instance_id
subtract_quantity_decides_example = subtract_quantity_decides whole ten (pos 8) 5 refl refl

-- A hold that starts and ends its vesting at 20 lets a thousand be taken from ten at that time.
abbrev at_once : TokenHold whole
at_once = record held_three { expires = 20; vesting_period_start = some 20 }

abbrev overdrawn : TokenBalance whole
overdrawn = record ten { locked_holds = some (at_once ∷ []) }

overdrawn_run :
    subtract_quantity whole overdrawn (pos 1000) 20
    ≡ ok (record overdrawn { quantity = negsuc 989 })
unfolding contains_any_nft_instance_id subtract_quantity ensure_contains_no_nft_instances
    get_current_locked_quantity sum_held get_unexpired_locked_holds is_expired held_quantity
    is_vesting_hold get_locked_vesting_quantity ◌-ℤ◌
overdrawn_run = refl

abbrev twelve : TokenBalance whole
twelve = record ten { quantity = pos 12 }

add_quantity-IsSolvent_example :
    (twelve.quantity ≡ ten.quantity +ℤ pos 2) × IsSolvent whole twelve 5
unfolding add_quantity ensure_contains_no_nft_instances ◌+ℤ◌ get_current_locked_quantity sum_held
    get_unexpired_locked_holds is_expired held_quantity is_vesting_hold
add_quantity-IsSolvent_example =
    add_quantity-IsSolvent whole ten (pos 2) 5 twelve refl (pos 3, refl, omega arith)

abbrev held_two : TokenHold whole
held_two = record held_three { quantity = pos 2; created = 5; expires = 9 }

abbrev five_locked : TokenBalance whole
five_locked = record ten { locked_holds = some (held_three ∷ held_two ∷ []) }

lock_quantity-IsSolvent_example :
    (l l' : ℤ) × (get_current_locked_quantity whole ten 5 ≡ some l)
    × (get_current_locked_quantity whole five_locked 5 ≡ some l')
    × (l' ≡ l +ℤ pos 2)
    × (five_locked.quantity ≡ ten.quantity)
    × IsSolvent whole five_locked 5
unfolding lock_quantity is_expired is_vesting_hold vests_now vests_at_once
    get_current_locked_quantity sum_held get_unexpired_locked_holds held_quantity ◌-ℤ◌ ◌+ℤ◌
lock_quantity-IsSolvent_example =
    lock_quantity-IsSolvent whole ten held_two five_locked refl refl refl refl

abbrev one_left : TokenHold whole
one_left = record held_three { quantity = pos 1 }

abbrev one_locked : TokenBalance whole
one_locked = record ten { locked_holds = some (one_left ∷ []) }

-- Four of the five are unlocked: the hold that expires first goes, the other one shrinks.
unlock_quantity-exact_example :
    (((vests_now whole 6 five_locked ≡ true)
        × (get_current_locked_quantity whole five_locked 6 ≡ none)
        × (get_current_locked_quantity whole one_locked 6 ≡ none))
      ⊎ ((vests_now whole 6 five_locked ≡ false)
          × (l l' : ℤ) × (get_current_locked_quantity whole five_locked 6 ≡ some l)
          × (get_current_locked_quantity whole one_locked 6 ≡ some l')
          × (l' +ℤ pos 4 ≡ l)))
    × (one_locked.quantity ≡ five_locked.quantity)
unfolding unlock_quantity unlock_loop get_unexpired_locked_holds_sorted sort
    get_unexpired_locked_holds is_expired sort_by_ascending_expiration unlock_one is_vesting_hold
    is_calling_user_authorized opt_eqb eqb ◌-ℤ◌ new_hold
unlock_quantity-exact_example =
    unlock_quantity-exact whole 6 five_locked (pos 4) none (some (text "alice")) false one_locked
      (omega arith) refl

abbrev vesting : TokenHold whole
vesting = record held_three { quantity = pos 100; expires = 20; vesting_period_start = some 10 }

vesting-bounds_example :
    (l : ℤ) × (get_locked_vesting_quantity whole vesting 15 ≡ some l)
    × (pos 0 ≤ℤ l)
    × (l ≤ℤ pos 100)
    × (15 < 10 → l ≡ pos 100)
    × (20 < 15 → l ≡ pos 0)
vesting-bounds_example = vesting-bounds whole vesting 15 10 refl (omega arith) refl (omega arith)
