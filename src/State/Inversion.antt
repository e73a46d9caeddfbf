-- ===== src/State/Inversion.antt =====
-- What a successful sequence of actions went through.
use galachain_sdk.Base.{arith, ◌≡◌, refl}
use galachain_sdk.Errors.{Result, ok, err}
use galachain_sdk.Stub.{ChaincodeStub}
use galachain_sdk.Stub.Cache.{StubCache}
use galachain_sdk.State.{Action, lift, continue, ◌>>=◌}

module _ {S : ChaincodeStub} {A C : Type 0} where
  continue-inv :
      (r : Result A) (f : A → Action S C) (c c' : StubCache S) (b : C)
      → continue r f c ≡ (ok b, c')
      → (a : A) × (r ≡ ok a) × (f a c ≡ (ok b, c'))
  continue-inv (ok a) f c c' b e = (a, refl, e)
  continue-inv (err x) f c c' b e = cc

  pub bind-inv :
      (m : Action S A) (f : A → Action S C) (c c' : StubCache S) (b : C)
      → (m >>= f) c ≡ (ok b, c')
      → (a : A) × ((m c).0 ≡ ok a) × (f a (m c).1 ≡ (ok b, c'))
  bind-inv m f c c' b e = continue-inv (m c).0 f (m c).1 c' b e

  pub lift-inv :
      (r : Result A) (f : A → Action S C) (c c' : StubCache S) (b : C)
      → (lift r >>= f) c ≡ (ok b, c')
      → (a : A) × (r ≡ ok a) × (f a c ≡ (ok b, c'))
  lift-inv r f c c' b e = continue-inv r f c c' b e

module _ {S : ChaincodeStub} {A : Type 0} where
  pub returned : (a b : A) (c c' : StubCache S) → lift (ok a) c ≡ (ok b, c') → (a ≡ b) × (c ≡ c')
  returned a b c c' e = ground arith
