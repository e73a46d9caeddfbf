-- ===== src/Balance/Solvency.antt =====
-- A balance is solvent when its holds lock no more than it has.
use galachain_sdk.Base.{
  ◌≡◌, refl, ◌∙◌, true, false, ◌⊎◌, [], ◌∷◌, ◌++◌, ℕ, arith, All-append, any-append, some,
  Bool-cases, inl, inr,
}
use galachain_sdk.Base.Int.{ℤ, ◌+ℤ◌, ◌-ℤ◌, ◌≤ℤ◌, int_laws}
use galachain_sdk.Numeric.{BigNumber, plus_parts, minus_parts, le_of_test, test_of_le}
use galachain_sdk.Errors.{ok, err, insufficient_balance}
use galachain_sdk.Balance.Hold.{TokenHold, is_expired, is_vesting_hold}
use galachain_sdk.Balance.Account.{
  TokenBalance, get_unexpired_locked_holds, or_empty, contains_any_nft_instance_id,
  ensure_contains_no_nft_instances,
}
use galachain_sdk.Balance.Fungible.{
  held_quantity, get_current_locked_quantity, ensure_quantity_is_spendable, subtract_quantity,
  add_quantity, lock_quantity,
}
use galachain_sdk.Balance.AtOnce.{vests_at_once, vests_at_once-plain}
use galachain_sdk.Balance.Held.{
  held, held-append, locked-eq-held, locked-nan, vests_now, some_vest-unexpired, unexpired-AreLive,
  unexpired-of_live, AreLive,
}
use galachain_sdk.Balance.Spending.{
  locked-same, vests_now-same, spendable-some, spendable-nan, subtract_quantity-inv,
  subtract_quantity-spendable, subtract_quantity-short, short, enough,
}

module _ (B : BigNumber) where
  open B use {Num, units}

  -- A balance is solvent when its holds lock a number, and no more than it has.
  abbrev pub IsSolvent : TokenBalance B → ℕ → Type 0
  IsSolvent b now =
      (l : Num) × (get_current_locked_quantity B b now ≡ some l) × (units l ≤ℤ units b.quantity)

  -- At the instant at which a hold both starts and ends its vesting the locked quantity is NaN, and
  -- nothing is known of the quantity.
  abbrev pub IsSolventOrVests : TokenBalance B → ℕ → Type 0
  IsSolventOrVests b now = (vests_now B now b ≡ true) ⊎ IsSolvent b now

  spent-IsSolvent :
      (b : TokenBalance B) (q l : Num) (now : ℕ)
      → get_current_locked_quantity B b now ≡ some l
      → B.is_less_than (B.minus b.quantity l) q ≡ false
      → IsSolvent (record b { quantity = B.minus b.quantity q }) now
  spent-IsSolvent b q l now e h =
      let c : TokenBalance B = record b { quantity = B.minus b.quantity q } in
      (
        l,
        locked-same B c b now refl ∙ e,
        omega (
          arith,
          le_of_test B (B.minus b.quantity l) q h,
          minus_parts B b.quantity l,
          minus_parts B b.quantity q,
        ),
      )

  -- A successful subtraction lowers the quantity by exactly the amount, and keeps the holds; it leaves
  -- a solvent balance, unless a hold both starts and ends its vesting at that instant.
  pub subtract_quantity-IsSolvent :
      (b : TokenBalance B) (q : Num) (now : ℕ) (b' : TokenBalance B)
      → subtract_quantity B b q now ≡ ok b'
      → (units b'.quantity ≡ units b.quantity -ℤ units q)
        × (b'.locked_holds ≡ b.locked_holds)
        × IsSolventOrVests b' now
  subtract_quantity-IsSolvent b q now b' h =
      let (no_nft, positive, spendable, e) = subtract_quantity-inv B b q now b' h in
      rw e (
        B.units-minus b.quantity q,
        refl,
        elim (Bool-cases (vests_now B now b)) [
          | inl t ↦
              inl (vests_now-same B (record b { quantity = B.minus b.quantity q }) b now refl ∙ t)
          | inr f ↦
              let (l, locks, _) = locked-eq-held B now b f in
              inr (spent-IsSolvent b q l now locks (enough B b q l now locks spendable))
        ],
      )

  -- From a balance with no NFT instance, an amount that is not negative can be subtracted exactly when
  -- it is at most the quantity less what is locked, and the balance is insufficient if it is more;
  -- but at the instant at which a hold both starts and ends its vesting every amount can be.
  pub subtract_quantity_decides :
      (b : TokenBalance B) (q : Num) (now : ℕ)
      → contains_any_nft_instance_id B b ≡ false
      → B.is_negative q ≡ false
      → let done = ok (record b { quantity = B.minus b.quantity q }) in
        ((vests_now B now b ≡ true) × (subtract_quantity B b q now ≡ done))
        ⊎ ((vests_now B now b ≡ false)
            × (l : Num) × (get_current_locked_quantity B b now ≡ some l)
            × (units q ≤ℤ units b.quantity -ℤ units l → subtract_quantity B b q now ≡ done)
            × (¬ (units q ≤ℤ units b.quantity -ℤ units l)
                → subtract_quantity B b q now ≡ err insufficient_balance))
  subtract_quantity_decides b q now n p = elim (Bool-cases (vests_now B now b)) [
    | inl t ↦ inl (
      t,
      subtract_quantity-spendable B b q now n p (spendable-nan B b q now (locked-nan B now b t)),
    )
    | inr f ↦
        let (l, locks, _) = locked-eq-held B now b f in
        let e = B.units-minus b.quantity l in
        let spends = spendable-some B b q l now locks in
        inr (
          f,
          l,
          locks,
          λ fits.
              subtract_quantity-spendable B b q now n p
                (spends ∙ rw (test_of_le B (B.minus b.quantity l) q (rw e fits)) refl),
          λ no_fit.
              subtract_quantity-short B b q now n p
                (spends ∙ rw (short B (B.minus b.quantity l) q (λ le. no_fit (rw (← e) le))) refl),
        )
  ]

  add_quantity-inv :
      (b : TokenBalance B) (q : Num) (b' : TokenBalance B)
      → add_quantity B b q ≡ ok b'
      → (B.is_negative q ≡ false) × (b' ≡ record b { quantity = B.plus b.quantity q })
  unfolding add_quantity ensure_contains_no_nft_instances
  add_quantity-inv b q b' h = ground arith

  pub add_quantity-units :
      (b : TokenBalance B) (q : Num) (b' : TokenBalance B)
      → add_quantity B b q ≡ ok b'
      → units b'.quantity ≡ units b.quantity +ℤ units q
  add_quantity-units b q b' h =
      let (p, e) = add_quantity-inv b q b' h in rw e (B.units-plus b.quantity q)

  held-one :
      (now : ℕ) (h : TokenHold B) (z : ℤ)
      → is_vesting_hold B h ≡ false
      → z +ℤ held B now (h ∷ []) ≡ z +ℤ units h.quantity
  unfolding held held_quantity
  held-one now h z plain = rw plain (omega int_laws)

  -- A successful addition raises the quantity by exactly the amount, and keeps a solvent balance
  -- solvent.
  pub add_quantity-IsSolvent :
      (b : TokenBalance B) (q : Num) (now : ℕ) (b' : TokenBalance B)
      → add_quantity B b q ≡ ok b'
      → IsSolvent b now
      → (units b'.quantity ≡ units b.quantity +ℤ units q) × IsSolvent b' now
  add_quantity-IsSolvent b q now b' h (l, locks, le) =
      let (p, e) = add_quantity-inv b q b' h in
      let c : TokenBalance B = record b { quantity = B.plus b.quantity q } in
      rw e (
        B.units-plus b.quantity q,
        (
          l,
          locked-same B c b now refl ∙ locks,
          omega (arith, B.lt_negative q p, plus_parts B b.quantity q, le),
        ),
      )

  lock_quantity-inv :
      (b : TokenBalance B) (h : TokenHold B) (b' : TokenBalance B)
      → lock_quantity B b h ≡ ok b'
      → (ensure_quantity_is_spendable B b h.quantity h.created ≡ ok tt)
        × (b'
            ≡ record b { locked_holds = some (get_unexpired_locked_holds B b h.created ++ h ∷ []) })
  unfolding lock_quantity
  lock_quantity-inv b h b' e = ground arith

  -- the live holds and one more that does not vest do not vest at once, if the holds do not
  vests_now-append :
      (b c : TokenBalance B) (h : TokenHold B) (now : ℕ)
      → vests_now B now b ≡ false
      → is_vesting_hold B h ≡ false
      → c.locked_holds ≡ some (get_unexpired_locked_holds B b now ++ h ∷ [])
      → vests_now B now c ≡ false
  unfolding vests_now or_empty
  vests_now-append b c h now f plain e =
      rw (e, or_empty)
        (any-append (vests_at_once B now) (get_unexpired_locked_holds B b now) (h ∷ [])
          ∙ rw (some_vest-unexpired B now b) (ground (arith, f, vests_at_once-plain B now h plain)))

  -- A successful lock of a hold that has not expired and does not vest, on a balance with no hold that
  -- both starts and ends its vesting at that instant, locks exactly the hold's quantity more, leaves the
  -- quantity, and leaves a solvent balance.
  pub lock_quantity-IsSolvent :
      (b : TokenBalance B) (h : TokenHold B) (b' : TokenBalance B)
      → is_expired B h h.created ≡ false
      → is_vesting_hold B h ≡ false
      → vests_now B h.created b ≡ false
      → lock_quantity B b h ≡ ok b'
      → (l l' : Num) × (get_current_locked_quantity B b h.created ≡ some l)
        × (get_current_locked_quantity B b' h.created ≡ some l')
        × (units l' ≡ units l +ℤ units h.quantity)
        × (b'.quantity ≡ b.quantity)
        × IsSolvent b' h.created
  lock_quantity-IsSolvent b h b' live plain f e =
      let (spendable, eq) = lock_quantity-inv b h b' e in
      let now = h.created in
      let hs = get_unexpired_locked_holds B b now in
      let c : TokenBalance B = record b { locked_holds = some (hs ++ h ∷ []) } in
      let lives : AreLive B now (hs ++ h ∷ []) =
        All-append (λ x. is_expired B x now ≡ false) hs (h ∷ []) (unexpired-AreLive B now b)
          (live, tt) in
      let (l, locks, sum) = locked-eq-held B now b f in
      let (l', locks', sum') = locked-eq-held B now c (vests_now-append b c h now f plain refl) in
      let more : units l' ≡ units l +ℤ units h.quantity =
        sum'
        ∙ rw (unexpired-of_live B now c (hs ++ h ∷ []) refl lives)
            (held-append B now hs (h ∷ []) ∙ rw (← sum) (held-one now h _ plain)) in
      rw eq (
        l,
        l',
        locks,
        locks',
        more,
        refl,
        (
          l',
          locks',
          rw more (
              omega (
                int_laws,
                le_of_test B (B.minus b.quantity l) h.quantity
                    (enough B b h.quantity l now locks spendable),
                minus_parts B b.quantity l,
              )),
        ),
      )
