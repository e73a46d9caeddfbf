-- ===== src/Swaps/Conserve.antt =====
-- What `swapToken` (chaincode/src/swaps/fillTokenSwap.ts) does to the quantities of the two balances.
use galachain_sdk.Base.{ℕ, ◌≡◌, refl, ◌∙◌, sym, ap, Bool, true, false, Option, some, Text, arith}
use galachain_sdk.Base.Int.{◌+ℤ◌}
use galachain_sdk.Base.Int.{◌-ℤ◌}
use galachain_sdk.Errors.{Result, ok, err, ◌>>=◌}
use galachain_sdk.Balance.Account.{TokenBalance}
use galachain_sdk.Balance.Fungible.{add_quantity, subtract_quantity, unlock_quantity}
use galachain_sdk.Balance.Solvency.{
  IsSolventOrVests, subtract_quantity-IsSolvent, add_quantity-units,
}
use galachain_sdk.Tokens.{TokenInstance}
use galachain_sdk.Ledger.{Chain}
use galachain_sdk.Swaps.Exchange.{release, hand_over, swapped}

after-inv :
    {A C : Type 0} (r : Result A) (f : A → Result C) (y : C)
    → (r >>= f) ≡ ok y
    → (x : A) × (r ≡ ok x) × (f x ≡ ok y)
after-inv (ok x) f y e = (x, refl, e)
after-inv (err b) f y e = ground arith

ok-pair :
    {A : Type 0} (x y x' y' : A)
    → ◌≡◌ {A = Result (A × A)} (ok (x, y)) (ok (x', y'))
    → (x ≡ x') × (y ≡ y')
ok-pair x y x' y' e = ground arith

module _ (W : Chain) where
  open W use {number}

  -- unlocking changes the holds only
  unlock_quantity-quantity :
      (b b' : TokenBalance number) (q : number.Num) (now : ℕ) (name user : Option Text)
      (authority : Bool)
      → unlock_quantity number b q now name user authority ≡ ok b'
      → b'.quantity ≡ b.quantity
  unfolding unlock_quantity
  unlock_quantity-quantity b b' q now name user authority e = ground arith

  release-quantity :
      (i : TokenInstance number) (q : number.Num) (from_ id : Text) (now : ℕ) (skip : Bool)
      (b b' : TokenBalance number)
      → i.is_non_fungible ≡ false
      → release W i q from_ id now skip b ≡ ok b'
      → b'.quantity ≡ b.quantity
  unfolding release
  release-quantity i q from_ id now true b b' n e = ground arith
  release-quantity i q from_ id now false b b' n e =
      unlock_quantity-quantity b b' q now (some id) (some from_) false (rw n at e)

  same-IsSolventOrVests :
      (b c : TokenBalance number) (now : ℕ)
      → b ≡ c
      → IsSolventOrVests number b now
      → IsSolventOrVests number c now
  same-IsSolventOrVests b c now e s = rw (← e) s

  hand_over-conserves :
      (i : TokenInstance number) (q : number.Num) (now : ℕ) (f t f' t' : TokenBalance number)
      → i.is_non_fungible ≡ false
      → hand_over W i q now f t ≡ ok (f', t')
      → (number.units f'.quantity ≡ number.units f.quantity -ℤ number.units q)
        × (number.units t'.quantity ≡ number.units t.quantity +ℤ number.units q)
        × IsSolventOrVests number f' now
  unfolding hand_over
  hand_over-conserves i q now f t f' t' n e =
      let (x, ex, e₁) =
        after-inv (subtract_quantity number f q now)
          (λ x. add_quantity number t q >>= λ y. ok (x, y)) (f', t') (rw n at e) in
      let (y, ey, e₂) = after-inv (add_quantity number t q) (λ y. ok (x, y)) (f', t') e₁ in
      let (less, _, solvent) = subtract_quantity-IsSolvent number f q now x ex in
      let (same_f, same_t) = ok-pair x y f' t' e₂ in
      (
        ap (λ b. number.units b.quantity) (sym same_f) ∙ less,
        ap (λ b. number.units b.quantity) (sym same_t) ∙ add_quantity-units number t q y ey,
        same-IsSolventOrVests x f' now same_f solvent,
      )

  -- A fungible token of a swap that changes hands with success takes the quantity off the one balance
  -- and adds it to the other, whether or not it was locked, and leaves the one
  -- solvent, unless one of its holds both starts and ends its vesting at that instant.
  pub swapped-conserves :
      (i : TokenInstance number) (q : number.Num) (from_ id : Text) (now : ℕ) (skip : Bool)
      (f t f' t' : TokenBalance number)
      → i.is_non_fungible ≡ false
      → swapped W i q from_ id now skip f t ≡ ok (f', t')
      → (number.units f'.quantity ≡ number.units f.quantity -ℤ number.units q)
        × (number.units t'.quantity ≡ number.units t.quantity +ℤ number.units q)
        × IsSolventOrVests number f' now
  unfolding swapped
  swapped-conserves i q from_ id now skip f t f' t' n e =
      let (b, eb, e₁) =
        after-inv (release W i q from_ id now skip f) (λ b. hand_over W i q now b t) (f', t') e in
      let (less, more, solvent) = hand_over-conserves i q now b t f' t' n e₁ in
      (rw (← release-quantity i q from_ id now skip f b n eb) less, more, solvent)
