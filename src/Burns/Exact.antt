-- ===== src/Burns/Exact.antt =====
-- What a burn of a fungible token leaves in the cache.
use galachain_sdk.Base.{◌≡◌, refl, ◌∙◌, sym, false, Text, eqb}
use galachain_sdk.Base.Int.{◌-ℤ◌}
use galachain_sdk.Errors.{ok}
use galachain_sdk.Balance.Account.{TokenBalance}
use galachain_sdk.Balance.Solvency.{IsSolventOrVests, subtract_quantity-IsSolvent}
use galachain_sdk.Stub.Cache.{StubCache}
use galachain_sdk.Stub.View.{view}
use galachain_sdk.State.{lift, ◌>>=◌, ◌>>◌, put_chain_object}
use galachain_sdk.State.Inversion.{bind-inv, lift-inv, returned}
use galachain_sdk.State.Stored.{put_chain_object-kept, put_chain_object-put}
use galachain_sdk.Keys.{composite_key, join}
use galachain_sdk.Tokens.{TokenInstance, TokenClassKey}
use galachain_sdk.Tokens.Counters.{TokenBurn, TokenBurnCounter}
use galachain_sdk.Context.{Context}
use galachain_sdk.Ledger.{
  Chain, balance_key, class_key_of_balance, put_balance, fetch_or_create_balance,
}
use galachain_sdk.Transfer.{take_from}
use galachain_sdk.Transfer.Conserve.{take_from-fungible}
use galachain_sdk.Burns.Aggregate.{BurnTokenQuantity}
use galachain_sdk.Burns.{
  burn_key, burn_counter_key, class_key_of_instance, store_burn, record_burn, burn_from,
  increment_or_create_token_burn_for_tx, increment_or_create_token_burn_counter_for_tx,
}

module _ (W : Chain) where
  open W use {stub, number}

  abbrev pub key_of : TokenBalance number → Text
  key_of b = balance_key W b.owner (class_key_of_balance W b)

  -- The three objects have keys that differ in their prefixes.
  burn_key-balance_key :
      (b : TokenBurn number) (o : Text) (c : TokenClassKey)
      → eqb (burn_key W b) (balance_key W o c) ≡ false
  unfolding burn_key balance_key composite_key eqb
  burn_key-balance_key b o c = refl

  burn_counter_key-balance_key :
      (b : TokenBurnCounter number) (o : Text) (c : TokenClassKey)
      → eqb (burn_counter_key W b) (balance_key W o c) ≡ false
  unfolding burn_counter_key balance_key composite_key join eqb
  burn_counter_key-balance_key b o c = refl

  burn_counter_key-burn_key :
      (b : TokenBurnCounter number) (d : TokenBurn number)
      → eqb (burn_counter_key W b) (burn_key W d) ≡ false
  unfolding burn_counter_key burn_key composite_key join eqb
  burn_counter_key-burn_key b d = refl

  store_burn-stores :
      (balance : TokenBalance number) (burned : TokenBurn number)
      (counter : TokenBurnCounter number) (s s' : StubCache stub) (r : TokenBurn number)
      → store_burn W balance burned counter s ≡ (ok r, s')
      → (view stub s' (key_of balance) ≡ W.balances.serialize balance)
        × (view stub s' (burn_key W r) ≡ W.burns.serialize r)
  unfolding store_burn put_balance
  store_burn-stores balance burned counter s s' r e =
      let put₁ = put_chain_object stub W.balances (key_of balance) balance in
      let put₂ = put_chain_object stub W.burns (burn_key W burned) burned in
      let put₃ = put_chain_object stub W.burn_counters (burn_counter_key W counter) counter in
      let (_, h₁, e₁) = bind-inv put₁ (λ _. put₂ >> (put₃ >> lift (ok burned))) s s' r e in
      let s₁ = (put₁ s).1 in
      let (_, h₂, e₂) = bind-inv put₂ (λ _. put₃ >> lift (ok burned)) s₁ s' r e₁ in
      let s₂ = (put₂ s₁).1 in
      let (_, h₃, e₃) = bind-inv put₃ (λ _. lift (ok burned)) s₂ s' r e₂ in
      let (eb, es) = returned burned r (put₃ s₂).1 s' e₃ in
      rw (sym es) (
        rw (sym eb) (
          put_chain_object-kept stub W.burn_counters (burn_counter_key W counter) (key_of balance)
                counter s₂ h₃
                (burn_counter_key-balance_key counter balance.owner
                  (class_key_of_balance W balance))
              ∙ put_chain_object-kept stub W.burns (burn_key W burned) (key_of balance) burned s₁ h₂
                  (burn_key-balance_key burned balance.owner (class_key_of_balance W balance))
              ∙ put_chain_object-put stub W.balances (key_of balance) balance s h₁,
          put_chain_object-kept stub W.burn_counters (burn_counter_key W counter)
                (burn_key W burned) counter s₂ h₃ (burn_counter_key-burn_key counter burned)
              ∙ put_chain_object-put stub W.burns (burn_key W burned) burned s₁ h₂,
        ))

  -- A successful burn of a fungible token takes the quantity off the balance that was fetched, leaves
  -- it solvent, unless one of its holds both starts and ends its vesting at that instant, and leaves in
  -- the cache that balance, and the record of the burn that it answers.
  pub burn_from-stores :
      (ctx : Context) (owner : Text) (b : BurnTokenQuantity W) (i : TokenInstance number)
      (s s' : StubCache stub) (r : TokenBurn number)
      → i.is_non_fungible ≡ false
      → burn_from W ctx owner b i s ≡ (ok r, s')
      → (f f' : TokenBalance number) × ((fetch_or_create_balance W owner
            (class_key_of_instance W i)
            s).0
          ≡ ok f)
        × (number.units f'.quantity ≡ number.units f.quantity -ℤ number.units b.quantity)
        × IsSolventOrVests number f' ctx.tx_unix_time
        × (view stub s' (key_of f') ≡ W.balances.serialize f')
        × (view stub s' (burn_key W r) ≡ W.burns.serialize r)
  unfolding burn_from record_burn
  burn_from-stores ctx owner b i s s' r n e =
      let fetch = fetch_or_create_balance W owner (class_key_of_instance W i) in
      let increment =
        increment_or_create_token_burn_for_tx W ctx owner b.token_instance_key b.quantity in
      let count =
        increment_or_create_token_burn_counter_for_tx W ctx owner b.token_instance_key b.quantity in
      let (f, ef, e₁) =
        bind-inv fetch
          (λ f. lift (take_from W i b.quantity ctx.tx_unix_time f) >>= record_burn W ctx owner b) s
          s' r e in
      let (f', et, e₂) =
        lift-inv (take_from W i b.quantity ctx.tx_unix_time f) (record_burn W ctx owner b)
          (fetch s).1 s' r e₁ in
      let (burned, _, e₃) =
        bind-inv increment (λ burned. count >>= store_burn W f' burned) (fetch s).1 s' r e₂ in
      let (counter, _, e₄) =
        bind-inv count (store_burn W f' burned) (increment (fetch s).1).1 s' r e₃ in
      let (kept, recorded) =
        store_burn-stores f' burned counter (count (increment (fetch s).1).1).1 s' r e₄ in
      let (less, _, solvent) =
        subtract_quantity-IsSolvent number f b.quantity ctx.tx_unix_time f'
          (sym (take_from-fungible W i b.quantity ctx.tx_unix_time f n) ∙ et) in
      (f, f', ef, less, solvent, kept, recorded)
