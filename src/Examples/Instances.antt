-- ===== src/Examples/Instances.antt =====
-- Runs of an NFT balance.
use galachain_sdk.Balance.Sort.{sort}
use galachain_sdk.Base.{◌≡◌, refl, true, false, none, some, [], ◌∷◌, text}
use galachain_sdk.Base.Int.{pos}
use galachain_sdk.Numeric.Units.{whole}
use galachain_sdk.Errors.{ok, err, token_locked}
use galachain_sdk.Balance.Hold.{TokenHold, is_expired}
use galachain_sdk.Balance.Account.{TokenBalance, contains_instance, get_unexpired_locked_holds}
use galachain_sdk.Balance.Nft.{add_instance, remove_instance, lock_instance, is_instance_locked}
use galachain_sdk.Balance.Instances.{
  IsNftBalance, add_instance-appends, add_instance-IsNftBalance, remove_instance-IsNftBalance,
  remove-add_instance,
}
use galachain_sdk.Balance.Locking.{lock_instance-locks}

abbrev seven : TokenBalance whole
seven = record {
  owner = text "alice";
  collection = text "Elixir";
  category = text "Item";
  type = text "none";
  additional_key = text "none";
  instance_ids = some (pos 7 ∷ []);
  locked_holds = some [];
  quantity = pos 1;
  vesting_period_start = none;
}

abbrev seven_two : TokenBalance whole
seven_two = record seven { instance_ids = some (pos 7 ∷ pos 2 ∷ []); quantity = pos 2 }

-- 2 comes after 7.
add_instance-appends_example :
    (seven_two.instance_ids ≡ some (pos 7 ∷ pos 2 ∷ []))
    × (seven_two.locked_holds ≡ seven.locked_holds)
unfolding add_instance contains_instance sort
add_instance-appends_example = add_instance-appends whole seven (pos 2) seven_two refl

add_instance-IsNftBalance_example :
    IsNftBalance whole seven_two × (contains_instance whole seven_two (pos 2) ≡ true)
unfolding add_instance contains_instance sort
add_instance-IsNftBalance_example =
    add_instance-IsNftBalance whole seven (pos 2) seven_two ((refl, refl, tt), refl) refl

remove_instance-IsNftBalance_example :
    IsNftBalance whole seven
    × (contains_instance whole seven_two (pos 2) ≡ true)
    × (is_instance_locked whole seven_two (pos 2) 5 ≡ false)
    × (contains_instance whole seven (pos 2) ≡ false)
unfolding remove_instance contains_instance get_unexpired_locked_holds
remove_instance-IsNftBalance_example =
    remove_instance-IsNftBalance whole seven_two (pos 2) 5 seven
      ((refl, refl, (refl, refl, tt)), refl) refl

remove-add_instance_example : remove_instance whole seven_two (pos 2) 5 ≡ ok seven
unfolding add_instance is_instance_locked get_unexpired_locked_holds contains_instance sort
remove-add_instance_example =
    remove-add_instance whole seven (pos 2) 5 seven_two (pos 7 ∷ []) ((refl, refl, tt), refl) refl
      refl refl

abbrev hold_seven : TokenHold whole
hold_seven = record {
  created_by = text "alice";
  instance_id = pos 7;
  quantity = pos 1;
  created = 4;
  expires = 9;
  name = none;
  lock_authority = none;
  vesting_period_start = none;
}

abbrev locked_seven : TokenBalance whole
locked_seven = record seven { locked_holds = some (hold_seven ∷ []) }

lock_instance-locks_example : remove_instance whole locked_seven (pos 7) 5 ≡ err token_locked
unfolding lock_instance is_expired contains_instance get_unexpired_locked_holds
lock_instance-locks_example = lock_instance-locks whole seven hold_seven 5 locked_seven refl refl
