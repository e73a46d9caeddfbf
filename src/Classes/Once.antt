-- ===== src/Classes/Once.antt =====
-- A token class is created once.
use galachain_sdk.Base.{
  ◌≡◌, refl, ◌∙◌, sym, ap, true, false, ◌==◌, ◌&&◌, not, Bool, Text, [], ◌∷◌, arith, if◌then◌else◌,
}
use galachain_sdk.Errors.{ok, err, nft_decimal, token_already_exists}
use galachain_sdk.Stub.{ChaincodeStub, Bytes}
use galachain_sdk.Stub.Cache.{StubCache, get_cached_state}
use galachain_sdk.Stub.View.{view}
use galachain_sdk.State.{Serial, Action, lift, ◌>>=◌, ◌>>◌, object_exists, validate_or_reject}
use galachain_sdk.State.Inversion.{bind-inv, returned}
use galachain_sdk.State.Stored.{put_chain_object-put}
use galachain_sdk.Tokens.{TokenClass, TokenClassKey}
use galachain_sdk.Ledger.{Chain, put_class, put_instance, build_token_class_composite_key}
use galachain_sdk.Classes.{
  CreateTokenClassParams, new_class, default_instance, store_class, create_token_class,
}
use galachain_sdk.Mint.Exact.{class_key}

both : {A C : Type 0} (x : A × C) (a : A) (b : C) → x.0 ≡ a → x.1 ≡ b → x ≡ (a, b)
both x a b e f = rw (← e, ← f) refl

module _ (S : ChaincodeStub) {T : Type 0} (c : Serial T) where
  holds-bytes :
      (x : T) (b : Bytes) → b ≡ c.serialize x → (elim b [ [] ↦ false | _ ∷ _ ↦ true ]) ≡ true
  holds-bytes x [] e = absurd (ground (arith, c.deserialize-serialize x, c.deserialize-empty))
  holds-bytes x (b ∷ bs) e = refl

  -- an object that is stored exists
  object_exists-stored :
      (k : Text) (x : T) (s : StubCache S)
      → view S s k ≡ c.serialize x
      → (object_exists S c k s).0 ≡ ok true
  unfolding object_exists view
  object_exists-stored k x s e = ap ok (holds-bytes x (get_cached_state S k s).0 e)

module _ (W : Chain) where
  open W use {stub, number}

  put_class-stores :
      (d : TokenClass number) (c c' : StubCache stub)
      → put_class W d c ≡ (ok tt, c')
      → view stub c' (class_key W d) ≡ W.classes.serialize d
  unfolding put_class class_key
  put_class-stores d c c' e =
      ap (λ s. view stub s (class_key W d)) (sym (ap (λ r. r.1) e))
      ∙ put_chain_object-put stub W.classes (class_key W d) d c (ap (λ r. r.0) e)

  store_class-stores :
      (d : TokenClass number) (c c' : StubCache stub)
      → store_class W d c ≡ (ok tt, c')
      → view stub c' (class_key W d) ≡ W.classes.serialize d
  unfolding store_class
  store_class-stores d c c' e =
      let first : Action stub (Unit {0}) = if d.is_non_fungible then lift (ok tt) else (do
        validate_or_reject stub W.instances (default_instance W d)
        put_instance W (default_instance W d)) in
      let (_, _, e₁) = bind-inv first (λ _. put_class W d) c c' tt e in
      put_class-stores d (first c).1 c' e₁

  let_through :
      (b : Bool) (d : TokenClass number) (c c' : StubCache stub)
      → (if b then lift (err token_already_exists) else store_class W d) c ≡ (ok tt, c')
      → store_class W d c ≡ (ok tt, c')
  let_through true d c c' e = absurd (ground arith)
  let_through false d c c' e = e

  guarded :
      (b : Bool) (m : Action stub TokenClassKey) (c c' : StubCache stub) (k : TokenClassKey)
      → (if b then lift (err nft_decimal) else m) c ≡ (ok k, c')
      → m c ≡ (ok k, c')
  guarded true m c c' k e = absurd (ground arith)
  guarded false m c c' k e = e

  -- behind the guard on the decimals
  abbrev create : CreateTokenClassParams W → Action stub TokenClassKey
  create p = do
    validate_or_reject stub W.classes (new_class W p)
    exists ← object_exists stub W.classes (build_token_class_composite_key W p.token_class)
    (if exists then lift (err token_already_exists) else store_class W (new_class W p))
    lift (ok p.token_class)

  create-stores :
      (p : CreateTokenClassParams W) (c c' : StubCache stub) (k : TokenClassKey)
      → create p c ≡ (ok k, c')
      → view stub c' (class_key W (new_class W p)) ≡ W.classes.serialize (new_class W p)
  create-stores p c c' k e =
      let at = build_token_class_composite_key W p.token_class in
      let last : Unit {0} → Action stub TokenClassKey = λ _. lift (ok p.token_class) in
      let store : Bool → Action stub (Unit {0}) =
        λ b. if b then lift (err token_already_exists) else store_class W (new_class W p) in
      let (_, _, e₁) =
        bind-inv (validate_or_reject stub W.classes (new_class W p))
          (λ _. object_exists stub W.classes at >>= λ b. store b >>= last) c c' k e in
      let c₁ = (validate_or_reject stub W.classes (new_class W p) c).1 in
      let (b, _, e₂) =
        bind-inv (object_exists stub W.classes at) (λ b. store b >>= last) c₁ c' k e₁ in
      let c₂ = (object_exists stub W.classes at c₁).1 in
      let (_, done, e₃) = bind-inv (store b) last c₂ c' k e₂ in
      let (_, same) = returned p.token_class k (store b c₂).1 c' e₃ in
      store_class-stores (new_class W p) c₂ c'
        (let_through b (new_class W p) c₂ c' (both (store b c₂) (ok tt) c' done same))

  create-refuses :
      (p : CreateTokenClassParams W) (x : TokenClass number) (c : StubCache stub)
      → W.classes.is_valid (new_class W p) ≡ true
      → view stub c (build_token_class_composite_key W p.token_class) ≡ W.classes.serialize x
      → (create p c).0 ≡ err token_already_exists
  unfolding validate_or_reject
  create-refuses p x c valid e = rw valid (
      rw
        (object_exists-stored stub W.classes (build_token_class_composite_key W p.token_class) x c
          e)
        refl)

  -- After a class was created with success, another with the same key is refused with a conflict, if
  -- its fields are valid and it is not an NFT with decimals.
  pub create_token_class-once :
      (p q : CreateTokenClassParams W) (c c' : StubCache stub) (k : TokenClassKey)
      → create_token_class W p c ≡ (ok k, c')
      → q.token_class ≡ p.token_class
      → (q.is_non_fungible && not (q.decimals == 0)) ≡ false
      → W.classes.is_valid (new_class W q) ≡ true
      → (create_token_class W q c').0 ≡ err token_already_exists
  unfolding create_token_class
  create_token_class-once p q c c' k e same plain valid =
      let created : create p c ≡ (ok k, c') =
        guarded (p.is_non_fungible && not (p.decimals == 0)) (create p) c c' k e in
      rw plain (
        create-refuses q (new_class W p) c' valid (
          ap (λ t. view stub c' (build_token_class_composite_key W t)) same
          ∙ unfold build_token_class_composite_key class_key new_class in
            create-stores p c c' k created))
