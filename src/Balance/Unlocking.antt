-- ===== src/Balance/Unlocking.antt =====
-- Unlocking a quantity of fungible tokens takes exactly that quantity off the holds.
use galachain_sdk.Base.{
  ◌≡◌, refl, ◌∙◌, none, any-append, ◌||◌, Bool-cases, Bool, true, false, not, List, [], ◌∷◌, ◌++◌,
  ℕ, arith, All-append, some, Option, inl, inr, ◌⊎◌, Text,
}
use galachain_sdk.Base.Int.{pos, ◌+ℤ◌, ◌≤ℤ◌, int_laws, parts_of_eq}
use galachain_sdk.Numeric.{BigNumber, minus_parts, units_zero_parts, le_of_test}
use galachain_sdk.Errors.{ok}
use galachain_sdk.Balance.Hold.{
  TokenHold, is_expired, is_vesting_hold, new_hold, sort_by_ascending_expiration,
}
use galachain_sdk.Balance.AtOnce.{vests_at_once, vests_at_once-plain}
use galachain_sdk.Balance.Account.{TokenBalance, or_empty, get_unexpired_locked_holds}
use galachain_sdk.Balance.Fungible.{
  held_quantity, get_current_locked_quantity, partial_hold, unlock_one, unlock_loop,
  unlock_quantity, get_unexpired_locked_holds_sorted,
}
use galachain_sdk.Balance.Held.{
  held, held-append, held-sort, locked-eq-held, unexpired-AreLive, unexpired-of_live, AreLive,
  AreLive-sort, some_vest, some_vest-sort, some_vest-unexpired, vests_now, locked-nan,
}

module _ (B : BigNumber) (now : ℕ) where
  open B use {Num, units}

  lte_units : (a c : Num) → B.is_less_than_or_equal_to a c ≡ true → units a ≤ℤ units c
  lte_units a c h = le_of_test B c a (
      let e : not (B.is_less_than c a) ≡ true = rw (← B.less_than_or_equal_to a c) h in
      ground arith)

  gt_units : (a c : Num) → B.is_greater_than a c ≡ false → units a ≤ℤ units c
  gt_units a c h = le_of_test B c a (rw (← B.greater_than a c) h)

  -- What a round leaves of the hold `h` and of the rest to unlock.
  abbrev IsRound : TokenHold B → Num → List (TokenHold B) × Num → Type 0
  IsRound h rest (kept, rest') =
      (held B now kept +ℤ units rest ≡ held B now (h ∷ []) +ℤ units rest')
      × (pos 0 ≤ℤ units rest')
      × AreLive B now kept

  unlock_one-cases :
      (b : TokenBalance B) (name user : Option Text) (authority : Bool) (h : TokenHold B)
      (rest : Num)
      → (unlock_one B b name user authority h rest ≡ (h ∷ [], rest))
        ⊎ ((is_vesting_hold B h ≡ false)
            × (B.is_less_than_or_equal_to h.quantity rest ≡ true)
            × (unlock_one B b name user authority h rest ≡ ([], B.minus rest h.quantity)))
        ⊎ ((is_vesting_hold B h ≡ false)
            × (B.is_less_than_or_equal_to h.quantity rest ≡ false)
            × (unlock_one B b name user authority h rest
                ≡ (partial_hold B h (B.minus h.quantity rest) ∷ [], B.of_ℕ 0)))
  unfolding unlock_one
  unlock_one-cases b name user authority h rest = ground arith

  whole-IsRound :
      (h : TokenHold B) (rest : Num)
      → is_vesting_hold B h ≡ false
      → units h.quantity ≤ℤ units rest
      → IsRound h rest ([], B.minus rest h.quantity)
  unfolding held held_quantity
  whole-IsRound h rest plain le = (
    rw plain (omega (int_laws, minus_parts B rest h.quantity)),
    omega (arith, minus_parts B rest h.quantity),
    tt,
  )

  partial_hold-live :
      (h : TokenHold B) (q : Num)
      → is_expired B h now ≡ false
      → is_expired B (partial_hold B h q) now ≡ false
  unfolding partial_hold is_expired new_hold
  partial_hold-live h q l = l

  part-IsRound :
      (h : TokenHold B) (rest : Num)
      → is_expired B h now ≡ false
      → is_vesting_hold B h ≡ false
      → IsRound h rest (partial_hold B h (B.minus h.quantity rest) ∷ [], B.of_ℕ 0)
  unfolding held held_quantity
  part-IsRound h rest l plain = (
    rw plain (
        unfold partial_hold new_hold is_vesting_hold in
        omega (int_laws, minus_parts B h.quantity rest, units_zero_parts B)),
    omega (arith, units_zero_parts B),
    (partial_hold-live h _ l, tt),
  )

  -- One round neither creates nor loses quantity, and the rest to unlock never falls below zero.
  unlock_one-IsRound :
      (b : TokenBalance B) (name user : Option Text) (authority : Bool) (h : TokenHold B)
      (rest : Num)
      → pos 0 ≤ℤ units rest
      → is_expired B h now ≡ false
      → IsRound h rest (unlock_one B b name user authority h rest)
  unlock_one-IsRound b name user authority h rest p l =
      elim (unlock_one-cases b name user authority h rest) [
        | inl e ↦ rw e (refl, p, (l, tt))
        | inr (inl (plain, le, e)) ↦
            rw e (whole-IsRound h rest plain (lte_units h.quantity rest le))
        | inr (inr (plain, gt, e)) ↦ rw e (part-IsRound h rest l plain)
      ]

  unlock_loop_lem :
      (b : TokenBalance B) (name user : Option Text) (authority : Bool)
      (hs updated : List (TokenHold B)) (rest : Num)
      → pos 0 ≤ℤ units rest
      → AreLive B now hs
      → AreLive B now updated
      → let (updated', rest') = unlock_loop B b name user authority hs updated rest in
        (held B now updated' +ℤ units rest ≡ held B now updated +ℤ held B now hs +ℤ units rest')
        × (pos 0 ≤ℤ units rest')
        × AreLive B now updated'
  unfolding unlock_loop held
  unlock_loop_lem b name user authority [] updated rest p l u = (omega int_laws, p, u)
  unlock_loop_lem b name user authority (h ∷ hs) updated rest p l u =
      let (kept, rest') = unlock_one B b name user authority h rest in
      let (moved, p', k) = unlock_one-IsRound b name user authority h rest p l.0 in
      let (moved', p'', u') =
        unlock_loop_lem b name user authority hs (updated ++ kept) rest' p' l.1
          (All-append (λ x. is_expired B x now ≡ false) updated kept u k) in
      (
        omega (
          int_laws,
          parts_of_eq _ _ moved,
          parts_of_eq _ _ moved',
          parts_of_eq _ _ (held-append B now updated kept),
        ),
        p'',
        u',
      )

  -- A round takes no hold that vests at once, and makes none.
  unlock_one-some_vest :
      (b : TokenBalance B) (name user : Option Text) (authority : Bool) (h : TokenHold B)
      (rest : Num)
      → some_vest B now (unlock_one B b name user authority h rest).0 ≡ some_vest B now (h ∷ [])
  unlock_one-some_vest b name user authority h rest =
      elim (unlock_one-cases b name user authority h rest) [
        | inl e ↦ rw e refl
        | inr (inl (plain, _, e)) ↦ rw e (rw (vests_at_once-plain B now h plain) refl)
        | inr (inr (plain, _, e)) ↦ rw e (
            rw (vests_at_once-plain B now h plain) (
              rw
                (vests_at_once-plain B now (partial_hold B h (B.minus h.quantity rest))
                  (unfold partial_hold new_hold is_vesting_hold in refl))
                refl))
      ]

  unlock_loop-some_vest :
      (b : TokenBalance B) (name user : Option Text) (authority : Bool)
      (hs updated : List (TokenHold B)) (rest : Num)
      → some_vest B now (unlock_loop B b name user authority hs updated rest).0
        ≡ (some_vest B now updated || some_vest B now hs)
  unfolding unlock_loop
  unlock_loop-some_vest b name user authority [] updated rest = ground arith
  unlock_loop-some_vest b name user authority (h ∷ hs) updated rest =
      let (kept, rest') = unlock_one B b name user authority h rest in
      unlock_loop-some_vest b name user authority hs (updated ++ kept) rest'
      ∙ rw (any-append (vests_at_once B now) updated kept)
          (rw (unlock_one-some_vest b name user authority h rest) (ground arith))

  unlock_quantity-inv :
      (b : TokenBalance B) (q : Num) (name user : Option Text) (authority : Bool)
      (b' : TokenBalance B)
      → unlock_quantity B b q now name user authority ≡ ok b'
      → let (updated, rest) =
          unlock_loop B b name user authority (get_unexpired_locked_holds_sorted B b now) [] q in
        (B.is_greater_than rest (B.of_ℕ 0) ≡ false)
        × (b' ≡ record b { locked_holds = some updated })
  unfolding unlock_quantity
  unlock_quantity-inv b q name user authority b' e = ground arith

  -- A successful unlock of a quantity that is not negative takes exactly that quantity off what is
  -- locked, and leaves the balance's quantity; at the instant at which a hold both starts and ends its
  -- vesting, what is locked is NaN before and after.
  pub unlock_quantity-exact :
      (b : TokenBalance B) (q : Num) (name user : Option Text) (authority : Bool)
      (b' : TokenBalance B)
      → pos 0 ≤ℤ units q
      → unlock_quantity B b q now name user authority ≡ ok b'
      → (((vests_now B now b ≡ true)
            × (get_current_locked_quantity B b now ≡ none)
            × (get_current_locked_quantity B b' now ≡ none))
          ⊎ ((vests_now B now b ≡ false)
              × (l l' : Num) × (get_current_locked_quantity B b now ≡ some l)
              × (get_current_locked_quantity B b' now ≡ some l')
              × (units l' +ℤ units q ≡ units l)))
        × (b'.quantity ≡ b.quantity)
  unfolding get_unexpired_locked_holds_sorted
  unlock_quantity-exact b q name user authority b' p e =
      let hs = get_unexpired_locked_holds B b now in
      let sorted = get_unexpired_locked_holds_sorted B b now in
      let (updated, rest) = unlock_loop B b name user authority sorted [] q in
      let (done, eq) = unlock_quantity-inv b q name user authority b' e in
      let (sum, above, live) =
        unlock_loop_lem b name user authority sorted [] q p
          (AreLive-sort B now (sort_by_ascending_expiration B) hs (unexpired-AreLive B now b)) tt in
      let c : TokenBalance B = record b { locked_holds = some updated } in
      let kept : vests_now B now c ≡ vests_now B now b =
        unfold vests_now or_empty in
        unlock_loop-some_vest b name user authority sorted [] q
        ∙ some_vest-sort B now (sort_by_ascending_expiration B) hs
        ∙ some_vest-unexpired B now b in
      rw eq (
        elim (Bool-cases (vests_now B now b)) [
          | inl t ↦ inl (t, locked-nan B now b t, locked-nan B now c (kept ∙ t))
          | inr f ↦
              let (l, locks, eq_l) = locked-eq-held B now b f in
              let (l', locks', eq_c) = locked-eq-held B now c (kept ∙ f) in
              inr (
                f,
                l,
                l',
                locks,
                locks',
                rw eq_c (
                    rw (unexpired-of_live B now c updated refl live) (
                      rw eq_l (
                        unfold held in
                        omega (
                          int_laws,
                          parts_of_eq _ _ sum,
                          parts_of_eq _ _ (held-sort B now (sort_by_ascending_expiration B) hs),
                          gt_units rest (B.of_ℕ 0) done,
                          units_zero_parts B,
                          above,
                        )))),
              )
        ],
        refl,
      )
