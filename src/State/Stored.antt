-- ===== src/State/Stored.antt =====
-- What a put leaves in the cache: the object under its key, and every other key as it was.
use galachain_sdk.Base.{◌≡◌, refl, ◌∙◌, false, Text, eqb, eqb_self, arith, if◌then◌else◌}
use galachain_sdk.Errors.{ok}
use galachain_sdk.Stub.{ChaincodeStub}
use galachain_sdk.Stub.Cache.{StubCache, put_state}
use galachain_sdk.Stub.View.{view, view-put}
use galachain_sdk.State.{Serial, put_chain_object, validate_or_reject}

module _ (S : ChaincodeStub) {T : Type 0} (c : Serial T) where
  put_chain_object-state :
      (k : Text) (x : T) (s : StubCache S)
      → (put_chain_object S c k x s).0 ≡ ok tt
      → (put_chain_object S c k x s).1 ≡ put_state S k (c.serialize x) s
  unfolding put_chain_object validate_or_reject
  put_chain_object-state k x s h = ground arith

  pub put_chain_object-view :
      (k j : Text) (x : T) (s : StubCache S)
      → (put_chain_object S c k x s).0 ≡ ok tt
      → view S (put_chain_object S c k x s).1 j ≡ (if eqb k j then c.serialize x else view S s j)
  put_chain_object-view k j x s h =
      rw (put_chain_object-state k x s h) (view-put S k j (c.serialize x) s)

  -- the key itself, and a key that differs
  pub put_chain_object-kept :
      (k j : Text) (x : T) (s : StubCache S)
      → (put_chain_object S c k x s).0 ≡ ok tt
      → eqb k j ≡ false
      → view S (put_chain_object S c k x s).1 j ≡ view S s j
  put_chain_object-kept k j x s h e = put_chain_object-view k j x s h ∙ rw e refl

  pub put_chain_object-put :
      (k : Text) (x : T) (s : StubCache S)
      → (put_chain_object S c k x s).0 ≡ ok tt
      → view S (put_chain_object S c k x s).1 k ≡ c.serialize x
  put_chain_object-put k x s h = put_chain_object-view k k x s h ∙ rw (eqb_self k) refl
