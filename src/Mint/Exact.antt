-- ===== src/Mint/Exact.antt =====
-- What a mint of a fungible token leaves in the cache.
use galachain_sdk.Base.{
  ◌≡◌, refl, ◌∙◌, sym, false, Text, text, eqb, List, [], ◌∷◌, none, some, Option,
}
use galachain_sdk.Base.Int.{◌+ℤ◌}
use galachain_sdk.Errors.{ok}
use galachain_sdk.Balance.Account.{TokenBalance}
use galachain_sdk.Balance.Fungible.{add_quantity}
use galachain_sdk.Balance.Solvency.{add_quantity-units}
use galachain_sdk.Stub.Cache.{StubCache}
use galachain_sdk.Stub.View.{view}
use galachain_sdk.State.{lift, ◌>>=◌, ◌>>◌, put_chain_object}
use galachain_sdk.State.Inversion.{bind-inv, lift-inv, returned}
use galachain_sdk.State.Stored.{put_chain_object-kept, put_chain_object-put}
use galachain_sdk.State.Keeps.{Keeps, bind-Keeps, put_chain_object-Keeps}
use galachain_sdk.Keys.{composite_key, join}
use galachain_sdk.Tokens.{TokenClass, TokenClassKey, TokenInstanceKey}
use galachain_sdk.Tokens.Counters.{TokenMintRequest, TokenMintFulfillment}
use galachain_sdk.Context.{Context}
use galachain_sdk.Ledger.{
  Chain, balance_key, class_key_of_balance, put_balance, put_class, fetch_or_create_balance,
}
use galachain_sdk.Supply.{fetch_mint_supply}
use galachain_sdk.Utils.{inverse_epoch}
use galachain_sdk.Burns.Exact.{key_of}
use galachain_sdk.Mint.{MintTokenParams, supply_params, store_fungible, mint_fungible, fungible_key}
use galachain_sdk.Mint.Request.{
  UpdateTokenSupplyParams, mint_request_key, mint_fulfillment_key, new_request, put_request,
  known_supply, write_mint_request, update_total_supply, fulfill,
}

module _ (W : Chain) where
  open W use {stub, number}
  open number use {Num, plus, units}

  unfoldable pub class_key : TokenClass number → Text
  class_key c =
      composite_key (text "GCTI") (c.collection ∷ c.category ∷ c.type ∷ c.additional_key ∷ [])

  known_supply-Keeps :
      (j : Text) (ctx : Context) (k : TokenClassKey) (known : Option Num)
      → Keeps {S = stub} j (known_supply W ctx k known)
  unfolding known_supply fetch_mint_supply
  known_supply-Keeps j ctx k none s = refl
  known_supply-Keeps j ctx k (some known) s = refl

  -- a key that is neither a request's nor a fulfilment's
  abbrev IsOther : Text → Type 0
  IsOther j =
      ((r : TokenMintRequest number) → eqb (mint_request_key W r) j ≡ false)
      × ((f : TokenMintFulfillment number) → eqb (mint_fulfillment_key W f) j ≡ false)

  put_request-Keeps :
      (j : Text) (r : TokenMintRequest number) → IsOther j → Keeps {S = stub} j (put_request W r)
  unfolding put_request
  put_request-Keeps j r h =
      bind-Keeps j _ (λ _. lift (ok r))
        (put_chain_object-Keeps stub W.mint_requests (mint_request_key W r) j r (h.0 r))
        (λ _ s. refl)

  write_mint_request-Keeps :
      (j : Text) (ctx : Context) (p : UpdateTokenSupplyParams W)
      → IsOther j
      → Keeps {S = stub} j (write_mint_request W ctx p)
  unfolding write_mint_request
  write_mint_request-Keeps j ctx p h =
      bind-Keeps j (known_supply W ctx p.token_class_key p.known_total_supply) _
        (known_supply-Keeps j ctx p.token_class_key p.known_total_supply)
        (λ known.
          bind-Keeps j (λ s. (ok (inverse_epoch W 0 s), s))
            (λ epoch. put_request W (new_request W ctx p known epoch)) (λ s. refl)
            (λ epoch. put_request-Keeps j (new_request W ctx p known epoch) h))

  update_total_supply-Keeps :
      (j : Text) (ctx : Context) (p : UpdateTokenSupplyParams W)
      → IsOther j
      → Keeps {S = stub} j (update_total_supply W ctx p)
  unfolding update_total_supply
  update_total_supply-Keeps j ctx p h =
      bind-Keeps j (write_mint_request W ctx p) _ (write_mint_request-Keeps j ctx p h)
        (λ r. put_chain_object-Keeps stub W.mint_fulfillments _ j _ (h.1 (fulfill W r p.quantity)))

  balance_key-IsOther : (o : Text) (c : TokenClassKey) → IsOther (balance_key W o c)
  unfolding balance_key composite_key mint_request_key mint_fulfillment_key join eqb
  balance_key-IsOther o c = (λ r. refl, λ f. refl)

  class_key-IsOther : (c : TokenClass number) → IsOther (class_key c)
  unfolding class_key composite_key mint_request_key mint_fulfillment_key join eqb
  class_key-IsOther c = (λ r. refl, λ f. refl)

  class_key-balance_key :
      (d : TokenClass number) (o : Text) (c : TokenClassKey)
      → eqb (class_key d) (balance_key W o c) ≡ false
  unfolding class_key balance_key composite_key eqb
  class_key-balance_key d o c = refl

  abbrev minted_class : MintTokenParams W → TokenClass number → TokenClass number
  minted_class p c = record c { total_supply = plus c.total_supply p.quantity }

  store_fungible-stores :
      (ctx : Context) (p : MintTokenParams W) (c : TokenClass number) (user : Text)
      (balance : TokenBalance number) (s s' : StubCache stub) (ks : List (TokenInstanceKey number))
      → store_fungible W ctx p c user balance s ≡ (ok ks, s')
      → (view stub s' (key_of W balance) ≡ W.balances.serialize balance)
        × (view stub s' (class_key c) ≡ W.classes.serialize (minted_class p c))
  unfolding store_fungible put_balance put_class class_key
  store_fungible-stores ctx p c user balance s s' ks e =
      let put₁ = put_chain_object stub W.balances (key_of W balance) balance in
      let put₂ = put_chain_object stub W.classes (class_key c) (minted_class p c) in
      let supply = update_total_supply W ctx (supply_params W p user) in
      let done = λ (_ : Unit {0}). lift {S = stub} (ok (fungible_key W p.token_class_key ∷ [])) in
      let (_, h₁, e₁) = bind-inv put₁ (λ _. put₂ >> (supply >>= done)) s s' ks e in
      let s₁ = (put₁ s).1 in
      let (_, h₂, e₂) = bind-inv put₂ (λ _. supply >>= done) s₁ s' ks e₁ in
      let s₂ = (put₂ s₁).1 in
      let (_, _, e₃) = bind-inv supply done s₂ s' ks e₂ in
      let (_, es) = returned (fungible_key W p.token_class_key ∷ []) ks (supply s₂).1 s' e₃ in
      rw (sym es) (
        update_total_supply-Keeps (key_of W balance) ctx (supply_params W p user)
              (balance_key-IsOther balance.owner (class_key_of_balance W balance)) s₂
            ∙ put_chain_object-kept stub W.classes (class_key c) (key_of W balance)
                (minted_class p c) s₁ h₂
                (class_key-balance_key c balance.owner (class_key_of_balance W balance))
            ∙ put_chain_object-put stub W.balances (key_of W balance) balance s h₁,
        update_total_supply-Keeps (class_key c) ctx (supply_params W p user) (class_key-IsOther c)
              s₂
            ∙ put_chain_object-put stub W.classes (class_key c) (minted_class p c) s₁ h₂,
      )

  -- A successful mint of a fungible token adds the quantity to the balance that was fetched for the
  -- owner, and to the total supply of the class, and leaves both in the cache.
  pub mint_fungible-stores :
      (ctx : Context) (p : MintTokenParams W) (c : TokenClass number) (user : Text)
      (s s' : StubCache stub) (ks : List (TokenInstanceKey number))
      → mint_fungible W ctx p c user s ≡ (ok ks, s')
      → (b b' : TokenBalance number) × (c' : TokenClass number) × ((fetch_or_create_balance W
            p.owner p.token_class_key s).0
          ≡ ok b)
        × (units b'.quantity ≡ units b.quantity +ℤ units p.quantity)
        × (units c'.total_supply ≡ units c.total_supply +ℤ units p.quantity)
        × (view stub s' (key_of W b') ≡ W.balances.serialize b')
        × (view stub s' (class_key c) ≡ W.classes.serialize c')
  unfolding mint_fungible
  mint_fungible-stores ctx p c user s s' ks e =
      let fetch = fetch_or_create_balance W p.owner p.token_class_key in
      let (b, eb, e₁) =
        bind-inv fetch
          (λ b. lift (add_quantity number b p.quantity) >>= store_fungible W ctx p c user) s s' ks
          e in
      let (b', ea, e₂) =
        lift-inv (add_quantity number b p.quantity) (store_fungible W ctx p c user) (fetch s).1 s'
          ks e₁ in
      let (kept, counted) = store_fungible-stores ctx p c user b' (fetch s).1 s' ks e₂ in
      (
        b,
        b',
        minted_class p c,
        eb,
        add_quantity-units number b p.quantity b' ea,
        number.units-plus c.total_supply p.quantity,
        kept,
        counted,
      )
