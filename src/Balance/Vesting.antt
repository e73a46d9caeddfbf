-- ===== src/Balance/Vesting.antt =====
-- A vesting hold locks a part of its quantity, never less than nothing nor more than all of it.
use galachain_sdk.Base.{
  ◌≡◌, refl, ◌∙◌, ap, zero, suc, none, ◌==◌, ◌&&◌, ◌≤◌, ◌<◌, ◌-◌, false, some, ℕ, arith, inl, inr,
  ◌⊎◌,
}
use galachain_sdk.Base.Int.{pos, ◌≤ℤ◌}
use galachain_sdk.Numeric.{BigNumber, minus_parts, units_zero_parts}
use galachain_sdk.Balance.Hold.{
  TokenHold, get_locked_vesting_quantity, time_since_start, total_time_of_vesting_period,
  is_vesting_hold, div_by_time,
}

lt-cases : (a b : ℕ) → (a < b) ⊎ (b ≤ a)
lt-cases a b = ground arith

module _ (B : BigNumber) where
  open B use {Num, units, of_ℕ}

  locked_before :
      (h : TokenHold B) (now start : ℕ)
      → h.vesting_period_start ≡ some start
      → now < start
      → get_locked_vesting_quantity B h now ≡ some h.quantity
  unfolding get_locked_vesting_quantity is_vesting_hold time_since_start
  locked_before h now start v n = rw v (ground arith)

  locked_after :
      (h : TokenHold B) (now start : ℕ)
      → h.vesting_period_start ≡ some start
      → start ≤ now
      → h.expires < now
      → get_locked_vesting_quantity B h now ≡ some (of_ℕ 0)
  unfolding get_locked_vesting_quantity is_vesting_hold time_since_start
  locked_after h now start v n e = rw v (ground arith)

  div_by_time-positive :
      (x : Num) (n : ℕ) → 0 < n → div_by_time B x (pos n) ≡ some (B.div x (of_ℕ n))
  unfolding div_by_time
  div_by_time-positive x zero p = absurd (omega arith)
  div_by_time-positive x (suc n) p = refl

  abbrev vested_part : TokenHold B → ℕ → ℕ → Num
  vested_part h now start =
      B.div (B.times h.quantity (of_ℕ (now - start))) (of_ℕ (h.expires - start))

  locked_during :
      (h : TokenHold B) (now start : ℕ)
      → h.vesting_period_start ≡ some start
      → start ≤ now
      → now ≤ h.expires
      → start < h.expires
      → get_locked_vesting_quantity B h now ≡ some (B.minus h.quantity (vested_part h now start))
  unfolding get_locked_vesting_quantity is_vesting_hold time_since_start
      total_time_of_vesting_period
  locked_during h now start v n e s =
      let whole =
        div_by_time-positive (B.times h.quantity (of_ℕ (now - start))) (h.expires - start)
          (omega arith) in
      rw v (ground (arith, whole))

  locked_at_once :
      (h : TokenHold B) (now : ℕ)
      → h.vesting_period_start ≡ some now
      → h.expires ≡ now
      → get_locked_vesting_quantity B h now ≡ none
  unfolding get_locked_vesting_quantity is_vesting_hold time_since_start
      total_time_of_vesting_period div_by_time
  locked_at_once h now v e = rw v (rw e (ground arith))

  -- What a vesting hold locks is a number but for a period that starts and ends at the time itself.
  pub locked-cases :
      (h : TokenHold B) (now start : ℕ)
      → h.vesting_period_start ≡ some start
      → ((start ≡ now) × (h.expires ≡ now) × (get_locked_vesting_quantity B h now ≡ none))
        ⊎ (((start == now && h.expires == now) ≡ false)
            × (q : Num) × (get_locked_vesting_quantity B h now ≡ some q))
  locked-cases h now start v = elim (lt-cases now start) [
    | inl n ↦ inr (ground arith, h.quantity, locked_before h now start v n)
    | inr n ↦ elim (lt-cases h.expires now) [
      | inl e ↦ inr (ground arith, of_ℕ 0, locked_after h now start v n e)
      | inr e ↦ elim (lt-cases start h.expires) [
        | inl s ↦ inr (
          ground arith,
          B.minus h.quantity (vested_part h now start),
          locked_during h now start v n e s,
        )
        | inr s ↦
            let at : start ≡ now = omega arith in
            let ends : h.expires ≡ now = omega arith in
            inl (at, ends, locked_at_once h now (v ∙ ap some at) ends)
      ]
    ]
  ]

  -- A hold that vests from a start before its expiry, with a quantity that is not negative and has no
  -- more places than a division keeps, locks a number between zero and its quantity: the whole
  -- quantity before the start, and nothing after the expiry.
  pub vesting-bounds :
      (h : TokenHold B) (now start : ℕ)
      → h.vesting_period_start ≡ some start
      → start < h.expires
      → B.is_negative h.quantity ≡ false
      → B.decimal_places h.quantity ≤ B.max_places
      → (l : Num) × (get_locked_vesting_quantity B h now ≡ some l)
        × (pos 0 ≤ℤ units l)
        × (units l ≤ℤ units h.quantity)
        × (now < start → l ≡ h.quantity)
        × (h.expires < now → l ≡ of_ℕ 0)
  vesting-bounds h now start v s p d =
      let positive = B.lt_negative h.quantity p in
      elim (lt-cases now start) [
        | inl n ↦ (
          h.quantity,
          locked_before h now start v n,
          positive,
          omega arith,
          λ _. refl,
          λ e. absurd (omega arith),
        )
        | inr n ↦ elim (lt-cases h.expires now) [
          | inl e ↦ (
            of_ℕ 0,
            locked_after h now start v n e,
            omega (arith, units_zero_parts B),
            omega (arith, units_zero_parts B, positive),
            λ k. absurd (omega arith),
            λ _. refl,
          )
          | inr e ↦
              let part = vested_part h now start in
              let bounds =
                B.portion_bounds h.quantity (now - start) (h.expires - start) p d (omega arith)
                  (omega arith) in
              (
                B.minus h.quantity part,
                locked_during h now start v n e s,
                omega (arith, minus_parts B h.quantity part, bounds),
                omega (arith, minus_parts B h.quantity part, bounds),
                λ k. absurd (omega arith),
                λ k. absurd (omega arith),
              )
        ]
      ]
