-- ===== src/Allowances/Bounds.antt =====
-- Using allowances never takes more than what remains.
use galachain_sdk.Base.{
  ◌||◌, Text, ◌≡◌, refl, Bool, true, false, not, Option, none, some, List, [], ◌∷◌, arith, ◌⊎◌, inl,
  inr, if◌then◌else◌,
}
use galachain_sdk.Base.Int.{pos, ◌≤ℤ◌}
use galachain_sdk.Numeric.{minus_parts, units_zero_parts, test_of_le}
use galachain_sdk.Errors.{Result, ok, err, object_validation_failed, allowances_not_reached}
use galachain_sdk.Stub.{ChaincodeStub}
use galachain_sdk.Stub.Cache.{StubCache}
use galachain_sdk.State.{Action, Serial, lift, ◌>>=◌, ◌>>◌, put_chain_object, validate_or_reject}
use galachain_sdk.Tokens.{TokenAllowance, AllowanceType, Amount, finite, infinite, same_type}
use galachain_sdk.Context.{Context}
use galachain_sdk.Ledger.{Chain}
use galachain_sdk.Allowances.Amount.{amount_min, amount_minus}
use galachain_sdk.Allowances.Fetch.{allowance_key}
use galachain_sdk.Allowances.Check.{is_allowance_expired}
use galachain_sdk.Allowances.Use.{
  claim_of, claim_key, spend_allowance, quantity_to_remove, use_finite, use_loop, use_allowances,
}

put_chain_object-cases :
    (S : ChaincodeStub) {T : Type 0} (c : Serial T) (k : Text) (x : T) (s : StubCache S)
    → ((put_chain_object S c k x s).0 ≡ ok tt)
      ⊎ ((put_chain_object S c k x s).0 ≡ err object_validation_failed)
unfolding put_chain_object validate_or_reject
put_chain_object-cases S c k x s = ground arith

step-cases :
    {S : ChaincodeStub} {A : Type 0} (m : Action S (Unit {0})) (k : Action S A) (y : A)
    (c : StubCache S)
    → ((m c).0 ≡ ok tt) ⊎ ((m c).0 ≡ err object_validation_failed)
    → ((s : StubCache S) → ((k s).0 ≡ ok y) ⊎ ((k s).0 ≡ err object_validation_failed))
    → (((m >> k) c).0 ≡ ok y) ⊎ (((m >> k) c).0 ≡ err object_validation_failed)
step-cases m k y c e f = elim e [ inl h ↦ rw h (f (m c).1) | inr h ↦ inr (rw h refl) ]

module _ (W : Chain) where
  open W use {stub, number}
  open number use {Num, of_ℕ, units}

  min_bound : (x : Num) (a : Amount number) → units (amount_min number x a) ≤ℤ units x
  unfolding amount_min
  min_bound x (finite a) = (number.min_le x a).0
  min_bound x infinite = omega arith

  left_over :
      (a : TokenAllowance number) (spent remaining : Num)
      → pos 0 ≤ℤ units (number.minus remaining (quantity_to_remove W a spent remaining))
  unfolding quantity_to_remove
  left_over a spent remaining =
      let rest = amount_minus number a.quantity spent in
      omega (
        arith,
        min_bound remaining rest,
        minus_parts number remaining (amount_min number remaining rest),
      )

  -- a step that fails only in validation, or leaves an amount that is not negative
  abbrev IsSafe : Result (Num × Bool) → Type 0
  IsSafe r =
      (r ≡ err object_validation_failed) ⊎ ((x : Num × Bool) × (r ≡ ok x) × (pos 0 ≤ℤ units x.0))

  use_finite-IsSafe :
      (ctx : Context) (a : TokenAllowance number) (spent uses : Option Num) (remaining : Num)
      (c : StubCache stub)
      → pos 0 ≤ℤ units remaining
      → IsSafe (use_finite W ctx a spent uses remaining c).0
  unfolding use_finite
  use_finite-IsSafe ctx a none uses remaining c h = inr ((remaining, true), refl, h)
  use_finite-IsSafe ctx a (some s) none remaining c h = inr ((remaining, true), refl, h)
  use_finite-IsSafe ctx a (some s) (some u) remaining c h =
      let removed = quantity_to_remove W a s remaining in
      let y : Num × Bool = (number.minus remaining removed, false) in
      let claim = claim_of W ctx a u removed in
      let spent = spend_allowance W ctx a s u removed in
      let done =
        step-cases (put_chain_object stub W.claims (claim_key W claim) claim)
          (put_chain_object stub W.allowances (allowance_key W spent) spent >> lift (ok y)) y c
          (put_chain_object-cases stub W.claims (claim_key W claim) claim c)
          (λ d.
            step-cases (put_chain_object stub W.allowances (allowance_key W spent) spent)
              (lift (ok y)) y d
              (put_chain_object-cases stub W.allowances (allowance_key W spent) spent d)
              (λ e. inl refl)) in
      elim done [ inl e ↦ inr (y, e, left_over a s remaining) | inr e ↦ inl e ]

  not_negative : (x : Num) → pos 0 ≤ℤ units x → number.is_less_than x (of_ℕ 0) ≡ false
  not_negative x h = test_of_le number x (of_ℕ 0) (omega (arith, units_zero_parts number))

  if-IsSafe :
      (t : Bool) (m n : Action stub (Num × Bool)) (c : StubCache stub)
      → IsSafe (m c).0
      → IsSafe (n c).0
      → IsSafe ((if t then m else n) c).0
  if-IsSafe true m n c hm hn = hm
  if-IsSafe false m n c hm hn = hn

  bind-IsSafe :
      (m : Action stub (Num × Bool)) (f : Num × Bool → Action stub (Num × Bool))
      (c : StubCache stub)
      → IsSafe (m c).0
      → ((x : Num × Bool) (s : StubCache stub) → pos 0 ≤ℤ units x.0 → IsSafe (f x s).0)
      → IsSafe ((m >>= f) c).0
  bind-IsSafe m f c hm hf = elim hm [
    | inl e ↦ inl (rw e refl)
    | inr (x, e, p) ↦ rw e (hf x (m c).1 p)
  ]

  use_loop-IsSafe :
      (ctx : Context) (action : AllowanceType) (as_ : List (TokenAllowance number))
      (remaining : Num) (met : Bool) (c : StubCache stub)
      → pos 0 ≤ℤ units remaining
      → IsSafe (use_loop W ctx action as_ remaining met c).0
  unfolding use_loop
  use_loop-IsSafe ctx action [] remaining met c h = inr ((remaining, met), refl, h)
  use_loop-IsSafe ctx action (a ∷ as_) remaining met c h =
      let skip = use_loop-IsSafe ctx action as_ remaining met c h in
      let spend : Action stub (Num × Bool) =
        use_finite W ctx a a.quantity_spent a.uses_spent remaining >>= λ used.
        use_loop W ctx action as_ used.0 (met || used.1) in
      let live : Action stub (Num × Bool) =
        if is_allowance_expired W ctx a then use_loop W ctx action as_ remaining met else spend in
      let stop : Action stub (Num × Bool) = lift (ok (remaining, met)) in
      rw (not_negative remaining h) (
        if-IsSafe (not (same_type a.allowance_type action))
          (use_loop W ctx action as_ remaining met)
          (if number.is_equal_to remaining (of_ℕ 0) then stop else live) c skip
          (if-IsSafe (number.is_equal_to remaining (of_ℕ 0)) stop live c
            (inr ((remaining, met), refl, h))
            (if-IsSafe (is_allowance_expired W ctx a) (use_loop W ctx action as_ remaining met)
              spend c skip
              (bind-IsSafe (use_finite W ctx a a.quantity_spent a.uses_spent remaining)
                (λ used. use_loop W ctx action as_ used.0 (met || used.1)) c
                (use_finite-IsSafe ctx a a.quantity_spent a.uses_spent remaining c h)
                (λ x s p. use_loop-IsSafe ctx action as_ x.0 (met || x.1) s p)))))

  -- Using a quantity that is not negative is accepted, or refused since the allowances do not reach it
  -- or an object is invalid: the amount that remains never falls below zero.
  pub use_allowances-outcomes :
      (ctx : Context) (quantity : Num) (allowances : List (TokenAllowance number))
      (action : AllowanceType) (c : StubCache stub)
      → pos 0 ≤ℤ units quantity
      → ((use_allowances W ctx quantity allowances action c).0 ≡ ok true)
        ⊎ ((use_allowances W ctx quantity allowances action c).0 ≡ err allowances_not_reached)
        ⊎ ((use_allowances W ctx quantity allowances action c).0 ≡ err object_validation_failed)
  unfolding use_allowances
  use_allowances-outcomes ctx quantity allowances action c h =
      elim (use_loop-IsSafe ctx action allowances quantity false c h) [
        | inl e ↦ inr (inr (rw e refl))
        | inr (x, e, p) ↦ rw e (ground arith)
      ]
