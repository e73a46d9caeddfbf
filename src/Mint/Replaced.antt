-- ===== src/Mint/Replaced.antt =====
-- Two requests to mint for one owner in one transaction have one key, and the second replaces the first.
use galachain_sdk.Base.{◌≡◌, refl, ◌∙◌, sym, ap, Text}
use galachain_sdk.Errors.{Result, Error, ok, err, mint_request_failed}
use galachain_sdk.Stub.Cache.{StubCache}
use galachain_sdk.Stub.View.{view}
use galachain_sdk.State.{Action, lift, handle, catch, ◌>>=◌, put_chain_object}
use galachain_sdk.State.Inversion.{bind-inv, returned}
use galachain_sdk.State.Stored.{put_chain_object-put}
use galachain_sdk.Tokens.Counters.{TokenMintRequest}
use galachain_sdk.Context.{Context}
use galachain_sdk.Ledger.{Chain}
use galachain_sdk.Utils.{inverse_epoch}
use galachain_sdk.Mint.Request.{
  UpdateTokenSupplyParams, mint_request_key, new_request, put_request, known_supply,
  write_mint_request,
}

caught : (r : Result (Unit {0})) (b : Error) → handle r (λ e. err b) ≡ ok tt → r ≡ ok tt
caught (ok _) b h = refl
caught (err e) b h = cc

module _ (W : Chain) where
  open W use {stub, number}
  open number use {Num}

  put_request-stored :
      (r x : TokenMintRequest number) (s s' : StubCache stub)
      → put_request W r s ≡ (ok x, s')
      → (r ≡ x) × (view stub s' (mint_request_key W r) ≡ W.mint_requests.serialize r)
  unfolding put_request
  put_request-stored r x s s' e =
      let put = put_chain_object stub W.mint_requests (mint_request_key W r) r in
      let (_, h, e₁) =
        bind-inv (catch put (λ e. err mint_request_failed)) (λ _. lift (ok r)) s s' x e in
      let (er, es) = returned r x (put s).1 s' e₁ in
      (
        er,
        rw (sym es) (
            put_chain_object-put stub W.mint_requests (mint_request_key W r) r s
              (caught (put s).0 mint_request_failed h)),
      )

  written :
      (ctx : Context) (p : UpdateTokenSupplyParams W) (s s' : StubCache stub)
      (x : TokenMintRequest number)
      → write_mint_request W ctx p s ≡ (ok x, s')
      → (known : Num) × (epoch : Text) × (new_request W ctx p known epoch ≡ x)
        × (view stub s' (mint_request_key W x) ≡ W.mint_requests.serialize x)
  unfolding write_mint_request
  written ctx p s s' x e =
      let supply = known_supply W ctx p.token_class_key p.known_total_supply in
      let epoch_of : Action stub Text = λ s. (ok (inverse_epoch W 0 s), s) in
      let (known, _, e₁) =
        bind-inv supply
          (λ known. epoch_of >>= λ epoch. put_request W (new_request W ctx p known epoch)) s s' x
          e in
      let (epoch, _, e₂) =
        bind-inv epoch_of (λ epoch. put_request W (new_request W ctx p known epoch)) (supply s).1 s'
          x e₁ in
      let (same, stored) =
        put_request-stored (new_request W ctx p known epoch) x (supply s).1 s' e₂ in
      (known, epoch, same, rw (sym same) stored)

  request_key-same :
      (ctx : Context) (p q : UpdateTokenSupplyParams W) (known known' : Num) (epoch epoch' : Text)
      → p.token_class_key ≡ q.token_class_key
      → p.owner ≡ q.owner
      → mint_request_key W (new_request W ctx p known epoch)
        ≡ mint_request_key W (new_request W ctx q known' epoch')
  unfolding mint_request_key new_request
  request_key-same ctx p q known known' epoch epoch' hk ho = rw hk (rw ho refl)

  -- Two requests for the same class and owner that a transaction writes one after the other have the
  -- same key, whatever their quantities, and afterwards only the second is stored there.
  pub write_mint_request-replaces :
      (ctx : Context) (p q : UpdateTokenSupplyParams W) (s t u : StubCache stub)
      (x y : TokenMintRequest number)
      → p.token_class_key ≡ q.token_class_key
      → p.owner ≡ q.owner
      → write_mint_request W ctx p s ≡ (ok x, t)
      → write_mint_request W ctx q t ≡ (ok y, u)
      → (x.quantity ≡ p.quantity)
        × (y.quantity ≡ q.quantity)
        × (mint_request_key W x ≡ mint_request_key W y)
        × (view stub u (mint_request_key W x) ≡ W.mint_requests.serialize y)
  unfolding new_request
  write_mint_request-replaces ctx p q s t u x y hk ho e f =
      let (known, epoch, same, _) = written ctx p s t x e in
      let (known', epoch', same', stored) = written ctx q t u y f in
      let keys =
        ap (mint_request_key W) (sym same)
        ∙ request_key-same ctx p q known known' epoch epoch' hk ho
        ∙ ap (mint_request_key W) same' in
      (sym (ap (λ r. r.quantity) same), sym (ap (λ r. r.quantity) same'), keys, rw keys stored)
