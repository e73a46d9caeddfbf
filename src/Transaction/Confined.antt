-- ===== src/Transaction/Confined.antt =====
-- What the wrapper does before the flush stays in the cache.
use galachain_sdk.Base.{
  ℕ, ◌≡◌, refl, ◌∙◌, Bool, true, false, Option, Text, arith, if◌then◌else◌, inl, inr, Option-cases,
}
use galachain_sdk.Errors.{dto_expired, Result, ok, err}
use galachain_sdk.Stub.{ChaincodeStub}
use galachain_sdk.Stub.Cache.{StubCache, put_state, get_cached_state}
use galachain_sdk.State.{
  Serial, Action, lift, continue, ◌>>=◌, ◌>>◌, get_object_by_key, put_chain_object,
  validate_or_reject,
}
use galachain_sdk.Context.{Context}
use galachain_sdk.Authorize.{authorize}
use galachain_sdk.Unique.{
  UniqueTransaction, ensure_unique_transaction, ensure_unique_key, put_unique_transaction,
}
use galachain_sdk.Transaction.{
  key_of, is_expired_dto, operation_of, ChainCallDto, Response, normalized, GalaTransaction,
  identify, ensure_once, attempt, recover, gala_transaction,
}

-- An action that writes only to the cache.
abbrev pub KeepsWorld : {S : ChaincodeStub} {A : Type 0} → Action S A → Type 0
KeepsWorld {S} m = (s : StubCache S) → (m s).1.stub ≡ s.stub

module _ {S : ChaincodeStub} {A C : Type 0} where
  continue-KeepsWorld :
      (r : Result A) (f : A → Action S C) → ((a : A) → KeepsWorld (f a)) → KeepsWorld (continue r f)
  continue-KeepsWorld (ok a) f h s = h a s
  continue-KeepsWorld (err e) f h s = refl

  bind-KeepsWorld :
      (m : Action S A) (f : A → Action S C)
      → KeepsWorld m
      → ((a : A) → KeepsWorld (f a))
      → KeepsWorld (m >>= f)
  bind-KeepsWorld m f hm hf s = continue-KeepsWorld (m s).0 f hf (m s).1 ∙ hm s

module _ (S : ChaincodeStub) where
  get_cached_state-KeepsWorld :
      (k : Text) (s : StubCache S) → (get_cached_state S k s).1.stub ≡ s.stub
  unfolding get_cached_state
  get_cached_state-KeepsWorld k s = ground arith

  put_chain_object-KeepsWorld :
      {T : Type 0} (c : Serial T) (k : Text) (x : T) → KeepsWorld (put_chain_object S c k x)
  unfolding put_chain_object validate_or_reject put_state
  put_chain_object-KeepsWorld c k x s = ground arith

  ensure_unique_transaction-KeepsWorld :
      (c : Serial UniqueTransaction) (ctx : Context) (k : Text)
      → KeepsWorld (ensure_unique_transaction S c ctx k)
  unfolding ensure_unique_transaction put_unique_transaction ensure_unique_key get_object_by_key
  ensure_unique_transaction-KeepsWorld c ctx k =
      bind-KeepsWorld (ensure_unique_key S c k) (λ _. put_unique_transaction S c ctx k)
        (λ s.
          continue-KeepsWorld _ _ (λ _ d. refl) (get_cached_state S _ s).1
          ∙ get_cached_state-KeepsWorld _ s)
        (λ _ s. put_chain_object-KeepsWorld c _ _ s)

module _ (S : ChaincodeStub) (c : Serial UniqueTransaction) {Data : Type 0}
    (t : GalaTransaction S c Data) where
  ensure_once-KeepsWorld :
      (ctx : Context) (dto : Option ChainCallDto) → KeepsWorld (ensure_once S c Data t ctx dto)
  unfolding ensure_once
  ensure_once-KeepsWorld ctx dto s = elim (Option-cases (key_of dto)) [
    | inl e ↦ ground arith
    | inr (k, e) ↦ ground (arith, ensure_unique_transaction-KeepsWorld S c ctx k s)
  ]

  identify-KeepsWorld :
      ((ctx : Context) (dto : Option ChainCallDto) → KeepsWorld (t.authenticate ctx dto))
      → (ctx : Context) (dto : Option ChainCallDto) → KeepsWorld (identify S c Data t ctx dto)
  unfolding identify
  identify-KeepsWorld h ctx dto s = ground (arith, h ctx dto s)

  recover-KeepsWorld : (r : Result (Response Data)) → KeepsWorld (recover S c Data r)
  unfolding recover
  recover-KeepsWorld (ok r) s = refl
  recover-KeepsWorld (err e) s = ground arith

  -- The parts of a method that are given write only to the cache.
  pub record IsConfined : Type 0 where
    pub authenticates :
        (ctx : Context) (dto : Option ChainCallDto) → KeepsWorld (t.authenticate ctx dto)
    pub begins : (ctx : Context) (dto : Option ChainCallDto) → KeepsWorld (t.before ctx dto)
    pub runs : (ctx : Context) (dto : Option ChainCallDto) → KeepsWorld (t.method ctx dto)
    pub ends :
        (ctx : Context) (dto : Option ChainCallDto) (r : Response Data)
        → KeepsWorld (t.after ctx dto r)

  expiry-KeepsWorld :
      (b : Bool)
      → KeepsWorld (λ (s : StubCache S). (if b then lift (err dto_expired) else lift (ok tt)) s)
  expiry-KeepsWorld true s = refl
  expiry-KeepsWorld false s = refl

  call-KeepsWorld :
      IsConfined
      → (ctx : Context) (dto : Option ChainCallDto)
      → KeepsWorld (do
        t.before ctx dto
        outcome ← t.method ctx dto
        result ← lift (normalized outcome)
        t.after ctx dto result
        lift (ok result))
  call-KeepsWorld h ctx dto = bind-KeepsWorld (t.before ctx dto) _ (h.begins ctx dto) (λ _.
      bind-KeepsWorld (t.method ctx dto) _ (h.runs ctx dto) (λ outcome.
        bind-KeepsWorld (lift (normalized outcome)) _ (λ s. refl)
          (λ result.
            bind-KeepsWorld (t.after ctx dto result) _ (h.ends ctx dto result) (λ _ s. refl))))

  attempt-KeepsWorld :
      IsConfined → (now : ℕ) (ctx : Context) → KeepsWorld (attempt S c Data t now ctx)
  unfolding attempt
  attempt-KeepsWorld h now ctx =
      bind-KeepsWorld (lift t.parse) _ (λ s. refl)
        (λ dto. bind-KeepsWorld _ _ (expiry-KeepsWorld (is_expired_dto now dto)) (λ _.
          bind-KeepsWorld (identify S c Data t ctx dto) _
            (identify-KeepsWorld h.authenticates ctx dto)
            (λ ctx'.
              bind-KeepsWorld (lift (authorize ctx' t.authorization (operation_of dto))) _
                (λ s. refl)
                (λ _.
                  bind-KeepsWorld (ensure_once S c Data t ctx' dto) _
                    (ensure_once-KeepsWorld ctx' dto) (λ _. call-KeepsWorld h ctx' dto)))))

  pub gala_transaction-KeepsWorld :
      IsConfined → (now : ℕ) (ctx : Context) → KeepsWorld (gala_transaction S c Data t now ctx)
  unfolding gala_transaction
  gala_transaction-KeepsWorld h now ctx s =
      recover-KeepsWorld (attempt S c Data t now ctx s).0 (attempt S c Data t now ctx s).1
      ∙ attempt-KeepsWorld h now ctx s
