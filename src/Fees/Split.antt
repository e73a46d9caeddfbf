-- ===== src/Fees/Split.antt =====
-- What the parts of a fee add up to.
use galachain_sdk.Base.{ℕ, ◌≡◌, refl, true, false, List, [], ◌∷◌, ◌++◌}
use galachain_sdk.Base.Int.{ℤ, pos, ◌+ℤ◌, int_laws, parts_of_eq}
use galachain_sdk.Numeric.{BigNumber, minus_parts}
use galachain_sdk.Fees.{
  FeeCodeTransferPercentage, FeeCodeTransferQuantity, FeeCodeSplitFormula, transfer_of, share,
  split_loop, calculate_amounts,
}

module _ (B : BigNumber) where
  open B use {Num, of_ℕ, units, is_equal_to, round}

  -- what the transfers move
  unfoldable pub transferred : List (FeeCodeTransferQuantity B) → ℤ
  transferred [] = pos 0
  transferred (t ∷ ts) = units t.transfer_quantity +ℤ transferred ts

  split_loop_lem :
      (total : Num) (decimals : ℕ) (burn : Num) (ts : List (FeeCodeTransferPercentage B))
      (remaining : Num)
      → is_equal_to burn (of_ℕ 0) ≡ false
      → let (left, transfers) = split_loop B total decimals burn ts remaining in
        units left +ℤ transferred transfers ≡ units remaining
  unfolding split_loop transferred
  split_loop_lem total decimals burn [] remaining h = omega int_laws
  split_loop_lem total decimals burn (t ∷ []) remaining h =
      rw h (omega (int_laws, minus_parts B remaining (share B total decimals t)))
  split_loop_lem total decimals burn (t ∷ u ∷ ts) remaining h =
      let ih =
        split_loop_lem total decimals burn (u ∷ ts) (B.minus remaining (share B total decimals t))
          h in
      omega (int_laws, parts_of_eq _ _ ih, minus_parts B remaining (share B total decimals t))

  -- A formula that burns a part divides the whole fee: the burn and the transfers add up to the fee,
  -- rounded to the token's decimals.
  pub calculate_amounts-total :
      (f : FeeCodeSplitFormula B) (total : Num) (decimals : ℕ)
      → is_equal_to f.burn_percentage (of_ℕ 0) ≡ false
      → let (burned, transfers) = calculate_amounts B f total decimals in
        units burned +ℤ transferred transfers ≡ units (round total decimals)
  unfolding calculate_amounts
  calculate_amounts-total f total decimals h =
      split_loop_lem total decimals f.burn_percentage f.transfer_percentages (round total decimals)
        h

  split_loop-last :
      (total : Num) (decimals : ℕ) (burn : Num) (ts : List (FeeCodeTransferPercentage B))
      (t : FeeCodeTransferPercentage B) (remaining : Num)
      → is_equal_to burn (of_ℕ 0) ≡ true
      → (transfers : List (FeeCodeTransferQuantity B)) × let left =
            (split_loop B total decimals burn (ts ++ t ∷ []) remaining).0 in
          ((split_loop B total decimals burn (ts ++ t ∷ []) remaining).1
            ≡ transfers ++ transfer_of B t (round left decimals) ∷ [])
          × (units left +ℤ transferred transfers ≡ units remaining)
  unfolding split_loop transferred
  split_loop-last total decimals burn [] t remaining h = ([], (rw h refl, rw h (omega int_laws)))
  split_loop-last total decimals burn (s ∷ []) t remaining h = (
    transfer_of B s (share B total decimals s) ∷ [],
    (rw h refl, rw h (omega (int_laws, minus_parts B remaining (share B total decimals s)))),
  )
  split_loop-last total decimals burn (s ∷ u ∷ ts) t remaining h =
      let (transfers, (last, sum)) =
        split_loop-last total decimals burn (u ∷ ts) t
          (B.minus remaining (share B total decimals s)) h in
      (
        transfer_of B s (share B total decimals s) ∷ transfers,
        (
          rw last refl,
          omega (int_laws, parts_of_eq _ _ sum, minus_parts B remaining (share B total decimals s)),
        ),
      )

  -- A formula that burns nothing gives its last recipient, rounded, the same quantity that it
  -- names as the burn: what is burned and what the other recipients get already add up to the rounded fee.
  pub calculate_amounts-twice :
      (f : FeeCodeSplitFormula B) (total : Num) (decimals : ℕ)
      (ts : List (FeeCodeTransferPercentage B)) (t : FeeCodeTransferPercentage B)
      → is_equal_to f.burn_percentage (of_ℕ 0) ≡ true
      → f.transfer_percentages ≡ ts ++ t ∷ []
      → (others : List (FeeCodeTransferQuantity B)) × let (burned, transfers) =
            calculate_amounts B f total decimals in
          (transfers ≡ others ++ transfer_of B t (round burned decimals) ∷ [])
          × (units burned +ℤ transferred others ≡ units (round total decimals))
  unfolding calculate_amounts
  calculate_amounts-twice f total decimals ts t h e =
      rw e (split_loop-last total decimals f.burn_percentage ts t (round total decimals) h)
