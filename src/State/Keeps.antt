-- ===== src/State/Keeps.antt =====
-- Actions that leave what is read under a key as it is.
use galachain_sdk.Base.{◌≡◌, refl, ◌∙◌, false, Text, eqb, arith}
use galachain_sdk.Errors.{Result, ok, err}
use galachain_sdk.Stub.{ChaincodeStub}
use galachain_sdk.Stub.Cache.{StubCache}
use galachain_sdk.Stub.View.{view, view-put, view-get}
use galachain_sdk.State.{
  Serial, Action, continue, ◌>>=◌, put_chain_object, validate_or_reject, get_object_by_key,
}

abbrev pub Keeps : {S : ChaincodeStub} {A : Type 0} → Text → Action S A → Type 0
Keeps {S} j m = (s : StubCache S) → view S (m s).1 j ≡ view S s j

module _ {S : ChaincodeStub} {A C : Type 0} (j : Text) where
  continue-Keeps :
      (r : Result A) (f : A → Action S C) → ((a : A) → Keeps j (f a)) → Keeps j (continue r f)
  continue-Keeps (ok a) f h s = h a s
  continue-Keeps (err e) f h s = refl

  pub bind-Keeps :
      (m : Action S A) (f : A → Action S C)
      → Keeps j m
      → ((a : A) → Keeps j (f a))
      → Keeps j (m >>= f)
  bind-Keeps m f hm hf s = continue-Keeps (m s).0 f hf (m s).1 ∙ hm s

module _ (S : ChaincodeStub) {T : Type 0} (c : Serial T) (k j : Text) where
  pub put_chain_object-Keeps : (x : T) → eqb k j ≡ false → Keeps j (put_chain_object S c k x)
  unfolding put_chain_object validate_or_reject
  put_chain_object-Keeps x e s = ground (arith, view-put S k j (c.serialize x) s, e)

  pub get_object_by_key-Keeps : Keeps j (get_object_by_key S c k)
  unfolding get_object_by_key
  get_object_by_key-Keeps s = view-get S k j s
