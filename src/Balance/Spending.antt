-- ===== src/Balance/Spending.antt =====
-- When a quantity can be spent, and what a successful subtraction went through.
use galachain_sdk.Base.{
  ◌≡◌, refl, ◌∙◌, sym, true, false, none, ℕ, arith, some, Bool-cases, inl, inr,
}
use galachain_sdk.Base.Int.{◌≤ℤ◌}
use galachain_sdk.Numeric.{BigNumber, le_of_test}
use galachain_sdk.Errors.{ok, err, throw_if, insufficient_balance}
use galachain_sdk.Balance.Account.{
  TokenBalance, get_unexpired_locked_holds, contains_any_nft_instance_id,
  ensure_contains_no_nft_instances,
}
use galachain_sdk.Balance.Fungible.{
  get_current_locked_quantity, ensure_quantity_is_spendable, subtract_quantity,
}
use galachain_sdk.Balance.Held.{vests_now}

module _ (B : BigNumber) where
  open B use {Num, units}

  -- the locked quantity reads only the holds
  pub locked-same :
      (b c : TokenBalance B) (now : ℕ)
      → b.locked_holds ≡ c.locked_holds
      → get_current_locked_quantity B b now ≡ get_current_locked_quantity B c now
  unfolding get_current_locked_quantity get_unexpired_locked_holds
  locked-same b c now e = rw e

  pub vests_now-same :
      (b c : TokenBalance B) (now : ℕ)
      → b.locked_holds ≡ c.locked_holds
      → vests_now B now b ≡ vests_now B now c
  unfolding vests_now
  vests_now-same b c now e = rw e

  pub spendable-some :
      (b : TokenBalance B) (q l : Num) (now : ℕ)
      → get_current_locked_quantity B b now ≡ some l
      → ensure_quantity_is_spendable B b q now
        ≡ throw_if (B.is_less_than (B.minus b.quantity l) q) insufficient_balance
  unfolding ensure_quantity_is_spendable
  spendable-some b q l now e = rw (ensure_quantity_is_spendable, e) refl

  pub spendable-nan :
      (b : TokenBalance B) (q : Num) (now : ℕ)
      → get_current_locked_quantity B b now ≡ none
      → ensure_quantity_is_spendable B b q now ≡ ok tt
  unfolding ensure_quantity_is_spendable
  spendable-nan b q now e = rw (ensure_quantity_is_spendable, e) refl

  pub subtract_quantity-inv :
      (b : TokenBalance B) (q : Num) (now : ℕ) (b' : TokenBalance B)
      → subtract_quantity B b q now ≡ ok b'
      → (contains_any_nft_instance_id B b ≡ false)
        × (B.is_negative q ≡ false)
        × (ensure_quantity_is_spendable B b q now ≡ ok tt)
        × (b' ≡ record b { quantity = B.minus b.quantity q })
  unfolding subtract_quantity ensure_contains_no_nft_instances
  subtract_quantity-inv b q now b' h = ground arith

  pub subtract_quantity-spendable :
      (b : TokenBalance B) (q : Num) (now : ℕ)
      → contains_any_nft_instance_id B b ≡ false
      → B.is_negative q ≡ false
      → ensure_quantity_is_spendable B b q now ≡ ok tt
      → subtract_quantity B b q now ≡ ok (record b { quantity = B.minus b.quantity q })
  unfolding subtract_quantity ensure_contains_no_nft_instances
  subtract_quantity-spendable b q now n p e = rw n (rw p (rw e refl))

  pub subtract_quantity-short :
      (b : TokenBalance B) (q : Num) (now : ℕ)
      → contains_any_nft_instance_id B b ≡ false
      → B.is_negative q ≡ false
      → ensure_quantity_is_spendable B b q now ≡ err insufficient_balance
      → subtract_quantity B b q now ≡ err insufficient_balance
  unfolding subtract_quantity ensure_contains_no_nft_instances
  subtract_quantity-short b q now n p e = rw n (rw p (rw e refl))

  pub short : (a q : Num) → ¬ (units q ≤ℤ units a) → B.is_less_than a q ≡ true
  short a q above = elim (Bool-cases (B.is_less_than a q)) [
    | inl t ↦ t
    | inr f ↦ absurd (above (le_of_test B a q f))
  ]

  pub enough :
      (b : TokenBalance B) (q l : Num) (now : ℕ)
      → get_current_locked_quantity B b now ≡ some l
      → ensure_quantity_is_spendable B b q now ≡ ok tt
      → B.is_less_than (B.minus b.quantity l) q ≡ false
  enough b q l now e h =
      let test : throw_if (B.is_less_than (B.minus b.quantity l) q) insufficient_balance ≡ ok tt =
        sym (spendable-some b q l now e) ∙ h in
      ground (arith, test)
