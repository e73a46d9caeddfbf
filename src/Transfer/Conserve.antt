-- ===== src/Transfer/Conserve.antt =====
-- Transfers of fungible tokens: what one balance loses the other gains.
use galachain_sdk.Base.{ℕ, ◌≡◌, refl, ◌∙◌, sym, ap, false, arith}
use galachain_sdk.Base.Int.{◌+ℤ◌, ◌-ℤ◌}
use galachain_sdk.Errors.{Result, ok, err}
use galachain_sdk.Balance.Account.{TokenBalance}
use galachain_sdk.Balance.Fungible.{add_quantity, subtract_quantity}
use galachain_sdk.Balance.Solvency.{
  IsSolventOrVests, subtract_quantity-IsSolvent, add_quantity-units,
}
use galachain_sdk.Stub.Cache.{StubCache}
use galachain_sdk.State.{lift, ◌>>=◌}
use galachain_sdk.State.Inversion.{bind-inv, lift-inv}
use galachain_sdk.Tokens.{TokenInstance}
use galachain_sdk.Context.{Context}
use galachain_sdk.Ledger.{Chain, get_token_class_key, fetch_or_create_balance}
use galachain_sdk.Transfer.{
  TransferTokenParams, then_, take_from, give_to, exchange, store, move_to, move,
}

then_-inv :
    {A C : Type 0} (r : Result A) (f : A → Result C) (y : C)
    → then_ r f ≡ ok y
    → (x : A) × (r ≡ ok x) × (f x ≡ ok y)
then_-inv (ok x) f y e = (x, refl, e)
then_-inv (err b) f y e = ground arith

module _ (W : Chain) where
  open W use {stub, number}

  pub take_from-fungible :
      (i : TokenInstance number) (q : number.Num) (now : ℕ) (b : TokenBalance number)
      → i.is_non_fungible ≡ false
      → take_from W i q now b ≡ subtract_quantity number b q now
  unfolding take_from
  take_from-fungible i q now b n = rw n refl

  give_to-fungible :
      (i : TokenInstance number) (q : number.Num) (b : TokenBalance number)
      → i.is_non_fungible ≡ false
      → give_to W i q b ≡ add_quantity number b q
  unfolding give_to
  give_to-fungible i q b n = rw n refl

  exchange-inv :
      (i : TokenInstance number) (q : number.Num) (now : ℕ) (f t f' t' : TokenBalance number)
      → i.is_non_fungible ≡ false
      → exchange W i q now f t ≡ ok (f', t')
      → (subtract_quantity number f q now ≡ ok f') × (add_quantity number t q ≡ ok t')
  unfolding exchange
  exchange-inv i q now f t f' t' n e =
      let (x, ex, e₁) =
        then_-inv (take_from W i q now f) (λ y. then_ (give_to W i q t) (λ z. ok (y, z))) (f', t')
          e in
      let (z, ez, e₂) = then_-inv (give_to W i q t) (λ z. ok (x, z)) (f', t') e₁ in
      (
        sym (take_from-fungible i q now f n) ∙ ex ∙ grind arith,
        sym (give_to-fungible i q t n) ∙ ez ∙ grind arith,
      )

  store-inv :
      (p : TransferTokenParams W) (i : TokenInstance number) (c c' : StubCache stub)
      (x y : TokenBalance number × TokenBalance number)
      → store W p i x c ≡ (ok y, c')
      → x ≡ y
  unfolding store
  store-inv p i c c' (f, t) y e = ground arith

  -- A successful move of a fungible token takes the quantity off the balance that was fetched for the
  -- sender, adds it to the one fetched for the recipient, and leaves the sender's solvent, unless one of
  -- its holds both starts and ends its vesting at that instant.
  pub move-conserves :
      (ctx : Context) (p : TransferTokenParams W) (i : TokenInstance number) (c : StubCache stub)
      (from_ to : TokenBalance number)
      → i.is_non_fungible ≡ false
      → (move W ctx p i c).0 ≡ ok (from_, to)
      → let key = get_token_class_key W p.token_instance_key in
        (f t : TokenBalance number) × ((fetch_or_create_balance W p.from_ key c).0 ≡ ok f)
        × ((fetch_or_create_balance W p.to key (fetch_or_create_balance W p.from_ key c).1).0
            ≡ ok t)
        × (number.units from_.quantity ≡ number.units f.quantity -ℤ number.units p.quantity)
        × (number.units to.quantity ≡ number.units t.quantity +ℤ number.units p.quantity)
        × IsSolventOrVests number from_ ctx.tx_unix_time
  unfolding move move_to
  move-conserves ctx p i c from_ to n moved =
      let c' = (move W ctx p i c).1 in
      let e : move W ctx p i c ≡ (ok (from_, to), c') = ap (λ r. (r, c')) moved in
      let key = get_token_class_key W p.token_instance_key in
      let fetched = fetch_or_create_balance W p.from_ key in
      let (f, ef, e₁) = bind-inv fetched (move_to W ctx p i) c c' (from_, to) e in
      let (t, et, e₂) =
        bind-inv (fetch_or_create_balance W p.to key)
          (λ to_balance.
            lift (exchange W i p.quantity ctx.tx_unix_time f to_balance) >>= store W p i)
          (fetched c).1 c' (from_, to) e₁ in
      let (x, ex, e₃) =
        lift-inv (exchange W i p.quantity ctx.tx_unix_time f t) (store W p i)
          (fetch_or_create_balance W p.to key (fetched c).1).1 c' (from_, to) e₂ in
      let same =
        store-inv p i (fetch_or_create_balance W p.to key (fetched c).1).1 c' x (from_, to) e₃ in
      let (sub, add) =
        exchange-inv i p.quantity ctx.tx_unix_time f t from_ to n (ex ∙ ap ok same) in
      let (less, _, solvent) =
        subtract_quantity-IsSolvent number f p.quantity ctx.tx_unix_time from_ sub in
      (f, t, ef, et, less, add_quantity-units number t p.quantity to add, solvent)
