-- ===== src/Balance/AtOnce.antt =====
-- Holds whose vesting starts and ends at one instant: at that instant they lock 0/0 of their quantity.
use galachain_sdk.Base.{
  ◌≡◌, refl, ◌∙◌, Bool, true, false, Option, none, ◌==◌, ◌&&◌, ◌⊎◌, inl, inr, ℕ, arith, some,
}
use galachain_sdk.Numeric.{BigNumber}
use galachain_sdk.Balance.Hold.{TokenHold, is_expired, get_locked_vesting_quantity, is_vesting_hold}
use galachain_sdk.Balance.Vesting.{locked-cases}
use galachain_sdk.Balance.Fungible.{held_quantity}

module _ (B : BigNumber) (now : ℕ) where
  -- a hold whose vesting starts and ends at the time `now`: it locks 0/0 of its quantity
  unfoldable pub vests_at_once : TokenHold B → Bool
  vests_at_once h = elim h.vesting_period_start [
    | none ↦ false
    | some start ↦ start == now && h.expires == now
  ]

  plain-cases :
      (h : TokenHold B)
      → h.vesting_period_start ≡ none
      → (vests_at_once h ≡ false) × (held_quantity B h now ≡ some h.quantity)
  unfolding vests_at_once held_quantity is_vesting_hold
  plain-cases h v = rw v (refl, refl)

  held_quantity-vesting :
      (h : TokenHold B)
      → is_vesting_hold B h ≡ true
      → held_quantity B h now ≡ get_locked_vesting_quantity B h now
  unfolding held_quantity
  held_quantity-vesting h v = rw v refl

  is_vesting_hold-some :
      (h : TokenHold B) (start : ℕ)
      → h.vesting_period_start ≡ some start
      → is_vesting_hold B h ≡ true
  unfolding is_vesting_hold
  is_vesting_hold-some h start v = rw v refl

  vests_at_once-some :
      (h : TokenHold B) (start : ℕ)
      → h.vesting_period_start ≡ some start
      → vests_at_once h ≡ (start == now && h.expires == now)
  unfolding vests_at_once
  vests_at_once-some h start v = rw v refl

  vesting-cases :
      (h : TokenHold B) (start : ℕ)
      → h.vesting_period_start ≡ some start
      → ((vests_at_once h ≡ true) × (held_quantity B h now ≡ none))
        ⊎ ((vests_at_once h ≡ false) × (q : B.Num) × (held_quantity B h now ≡ some q))
  vesting-cases h start v =
      let locks = held_quantity-vesting h (is_vesting_hold-some h start v) in
      let tests = vests_at_once-some h start v in
      elim (locked-cases B h now start v) [
        | inl (s, e, l) ↦ inl (tests ∙ ground (arith, s, e), locks ∙ l)
        | inr (t, q, l) ↦ inr (tests ∙ t, q, locks ∙ l)
      ]

  Option-cases : {A : Type 0} (o : Option A) → (o ≡ none) ⊎ ((a : A) × (o ≡ some a))
  Option-cases none = inl refl
  Option-cases (some a) = inr (a, refl)

  -- A hold counts for a number, unless it vests at once.
  pub held_quantity-cases :
      (h : TokenHold B)
      → ((vests_at_once h ≡ true) × (held_quantity B h now ≡ none))
        ⊎ ((vests_at_once h ≡ false) × (q : B.Num) × (held_quantity B h now ≡ some q))
  held_quantity-cases h = elim (Option-cases h.vesting_period_start) [
    | inl v ↦ let (t, l) = plain-cases h v in inr (t, h.quantity, l)
    | inr (start, v) ↦ vesting-cases h start v
  ]

  pub vests_at_once-plain :
      (h : TokenHold B) → is_vesting_hold B h ≡ false → vests_at_once h ≡ false
  unfolding vests_at_once is_vesting_hold
  vests_at_once-plain h p = ground arith

  -- one that vests at once expires now, so that it has not expired yet
  pub vests_at_once-live : (h : TokenHold B) → vests_at_once h ≡ true → is_expired B h now ≡ false
  unfolding vests_at_once is_expired
  vests_at_once-live h t = ground arith
