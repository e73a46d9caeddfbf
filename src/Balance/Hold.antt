-- ===== src/Balance/Hold.antt =====
-- `class TokenHold` (chain-api/src/types/TokenBalance.ts): one lock, with its expiry and, for a
-- vesting hold, the start of the vesting period. Times are milliseconds, JavaScript integers.
use galachain_sdk.Base.{
  ℕ, zero, suc, ◌+◌, Bool, true, false, not, ◌&&◌, Option, none, some, [], ◌∷◌, Text, opt_eqb, ltb,
  leb, ◌==◌, if◌then◌else◌,
}
use galachain_sdk.Base.Int.{ℤ, pos, negsuc, sub_ℕ, ltb_ℤ}
use galachain_sdk.Numeric.{BigNumber}

pub record TokenHold (B : BigNumber) : Type 0 where
  pub created_by : Text
  pub instance_id : B.Num
  pub quantity : B.Num
  pub created : ℕ
  pub expires : ℕ
  pub name : Option Text
  pub lock_authority : Option Text
  pub vesting_period_start : Option ℕ

-- `if (params.name)`: an empty text counts as missing
unfoldable pub truthy_text : Option Text → Option Text
truthy_text none = none
truthy_text (some []) = none
truthy_text (some (c ∷ cs)) = some (c ∷ cs)

-- `if (params.vestingPeriodStart)`: zero counts as missing
unfoldable pub truthy_number : Option ℕ → Option ℕ
truthy_number none = none
truthy_number (some n) = if n == 0 then none else some n

unfoldable pub default_expires : Option ℕ → ℕ
default_expires none = 0
default_expires (some n) = n

module _ (B : BigNumber) where
  open B use {Num, of_ℕ, minus, times, div, is_equal_to}

  -- the constructor
  unfoldable pub new_hold :
      Text → Num → Num → ℕ → Option ℕ → Option Text → Option Text → Option ℕ → TokenHold B
  unfolding truthy_text truthy_number default_expires
  new_hold created_by instance_id quantity created expires name lock_authority start = record {
    created_by = created_by;
    instance_id = instance_id;
    quantity = quantity;
    created = created;
    expires = default_expires expires;
    name = truthy_text name;
    lock_authority = truthy_text lock_authority;
    vesting_period_start = truthy_number start;
  }

  unfoldable pub matches : TokenHold B → Num → Option Text → Bool
  unfolding opt_eqb
  matches h instance_id name = is_equal_to h.instance_id instance_id && opt_eqb h.name name

  unfoldable pub is_expired : TokenHold B → ℕ → Bool
  is_expired h now = not (h.expires == 0) && ltb h.expires now

  unfoldable pub is_vesting_hold : TokenHold B → Bool
  is_vesting_hold h = elim h.vesting_period_start [ none ↦ false | some _ ↦ true ]

  unfoldable pub is_vesting_started : TokenHold B → ℕ → Bool
  is_vesting_started h now = elim h.vesting_period_start [
    | none ↦ false
    | some start ↦ leb start now
  ]

  unfoldable pub time_since_start : TokenHold B → ℕ → ℤ
  time_since_start h now = elim h.vesting_period_start [
    | none ↦ pos 0
    | some start ↦ sub_ℕ now start
  ]

  unfoldable pub total_time_of_vesting_period : TokenHold B → ℤ
  total_time_of_vesting_period h = elim h.vesting_period_start [
    | none ↦ pos 0
    | some start ↦ sub_ℕ h.expires start
  ]

  -- `new BigNumber(n)` of a difference of times that is not negative
  abbrev of_time : ℤ → Num
  of_time (pos n) = of_ℕ n
  of_time (negsuc n) = minus (of_ℕ 0) (of_ℕ (n + 1))

  -- `x.div(t)`; `none` is NaN. The divisor is zero only at the instant at which a vesting period both
  -- starts and ends, and there the dividend, a quantity times the time since the start, is zero too.
  unfoldable pub div_by_time : Num → ℤ → Option Num
  div_by_time x (pos zero) = none
  div_by_time x (pos (suc n)) = some (div x (of_ℕ (suc n)))
  div_by_time x (negsuc n) = some (div x (of_time (negsuc n)))

  -- `none` is NaN, which `minus` passes on
  unfoldable pub get_locked_vesting_quantity : TokenHold B → ℕ → Option Num
  unfolding is_vesting_hold time_since_start total_time_of_vesting_period div_by_time
  get_locked_vesting_quantity h now =
      if not (is_vesting_hold h)
      then some (of_ℕ 0)
      else if ltb_ℤ (time_since_start h now) (pos 0)
      then some h.quantity
      else if ltb h.expires now
      then some (of_ℕ 0)
      else elim (div_by_time (times h.quantity (of_time (time_since_start h now)))
          (total_time_of_vesting_period h)) [
            | none ↦ none
            | some vested ↦ some (minus h.quantity vested)
          ]

  -- the comparator: 0 is no expiration, and comes last
  unfoldable pub sort_by_ascending_expiration : TokenHold B → TokenHold B → ℤ
  sort_by_ascending_expiration a b =
      if b.expires == 0 && a.expires == 0
      then pos 0
      else if b.expires == 0
      then negsuc 0
      else if a.expires == 0
      then pos 1
      else if ltb b.expires a.expires
      then pos 1
      else negsuc 0
