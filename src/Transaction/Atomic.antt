-- ===== src/Transaction/Atomic.antt =====
-- A transaction that fails leaves the world state as it was.
use galachain_sdk.Base.{ℕ, ◌≡◌, refl, ap, ◌∙◌, true, false, Text, arith, inl, inr, Bool-cases}
use galachain_sdk.Errors.{Error, Result, ok, err}
use galachain_sdk.Stub.{ChaincodeStub}
use galachain_sdk.Stub.Cache.{StubCache, flush_writes}
use galachain_sdk.State.{Serial, Action, lift, continue, ◌>>=◌}
use galachain_sdk.Stub.Flush.{IsCoherent, flush_writes-view, flush_writes-read_only}
use galachain_sdk.Stub.View.{view}
use galachain_sdk.Context.{Context}
use galachain_sdk.Unique.{UniqueTransaction}
use galachain_sdk.Transaction.Confined.{IsConfined, gala_transaction-KeepsWorld}
use galachain_sdk.Transaction.{
  Response, success, failure, GalaTransaction, gala_transaction, after_transaction, run_transaction,
}

module _ (S : ChaincodeStub) (c : Serial UniqueTransaction) {Data : Type 0}
    (t : GalaTransaction S c Data) where
  abbrev finish : Context → Response Data → Action S (Response Data)
  finish ctx r = after_transaction S c Data ctx r >>= λ _. lift (ok r)

  failed-KeepsWorld :
      (ctx : Context) (r : Result (Response Data)) (s : StubCache S) (e : Error)
      → (continue r (finish ctx) s).0 ≡ ok (failure e)
      → (continue r (finish ctx) s).1.stub ≡ s.stub
  unfolding after_transaction flush_writes
  failed-KeepsWorld ctx (err x) s e h = refl
  failed-KeepsWorld ctx (ok (failure x)) s e h = refl
  failed-KeepsWorld ctx (ok (success d)) s e h = ground arith

  thrown-KeepsWorld :
      (ctx : Context) (r : Result (Response Data)) (s : StubCache S) (e : Error)
      → (continue r (finish ctx) s).0 ≡ err e
      → (continue r (finish ctx) s).1.stub ≡ s.stub
  unfolding after_transaction flush_writes
  thrown-KeepsWorld ctx (err x) s e h = refl
  thrown-KeepsWorld ctx (ok (failure x)) s e h = refl
  thrown-KeepsWorld ctx (ok (success d)) s e h = ground arith

  dry-KeepsWorld :
      (ctx : Context) (r : Result (Response Data)) (s : StubCache S)
      → ctx.is_dry_run ≡ true
      → (continue r (finish ctx) s).1.stub ≡ s.stub
  unfolding after_transaction
  dry-KeepsWorld ctx (err x) s h = refl
  dry-KeepsWorld ctx (ok (failure x)) s h = refl
  dry-KeepsWorld ctx (ok (success d)) s h = ground arith

  -- If the parts of a method that are given write only to the cache, then a transaction that answers
  -- with a failure, one that throws, and a dry run leave the world state as it was.
  pub run_transaction-atomic :
      IsConfined S c t
      → (now : ℕ) (ctx : Context) (s : StubCache S)
      → let (r, s') = run_transaction S c Data t now ctx s in
        ((e : Error) → r ≡ ok (failure e) → s'.stub ≡ s.stub)
        × ((e : Error) → r ≡ err e → s'.stub ≡ s.stub)
        × (ctx.is_dry_run ≡ true → s'.stub ≡ s.stub)
  unfolding run_transaction
  run_transaction-atomic confined now ctx s =
      let (r, s') = gala_transaction S c Data t now ctx s in
      let kept = gala_transaction-KeepsWorld S c t confined now ctx s in
      (
        λ e h. failed-KeepsWorld ctx r s' e h ∙ kept,
        λ e h. thrown-KeepsWorld ctx r s' e h ∙ kept,
        λ h. dry-KeepsWorld ctx r s' h ∙ kept,
      )

  settled :
      (f : Result (Unit {0})) (r : Response Data) (s : StubCache S)
      → (continue {S = S} f (λ _. lift (ok r)) s).1 ≡ s
  settled (ok u) r s = refl
  settled (err e) r s = refl

  committed :
      (ctx : Context) (r : Result (Response Data)) (s : StubCache S) (d : Data)
      → (continue r (finish ctx) s).0 ≡ ok (success d)
      → ctx.is_dry_run ≡ false
      → IsCoherent S s
      → (k : Text) → S.get_state (continue r (finish ctx) s).1.stub k ≡ view S s k
  unfolding after_transaction
  committed ctx (err x) s d h live i k = absurd (ground arith)
  committed ctx (ok (failure x)) s d h live i k = absurd (ground arith)
  committed ctx (ok (success x)) s d h live i k = elim (Bool-cases s.is_read_only) [
    | inl w ↦ absurd (let refused = flush_writes-read_only S s w in ground arith)
    | inr w ↦
        let flushed = flush_writes-view S s i w in
        rw live (
          ap (λ (c : StubCache S). S.get_state c.stub k)
            (settled (flush_writes S s).0 (success x) (flush_writes S s).1)
          ∙ flushed.1 k)
  ]

  -- The world state after a transaction that succeeds, and is no dry run, holds at every key what the
  -- transaction saw there in the end, if its cache is coherent.
  pub run_transaction-commits :
      (now : ℕ) (ctx : Context) (s : StubCache S) (d : Data)
      → (run_transaction S c Data t now ctx s).0 ≡ ok (success d)
      → ctx.is_dry_run ≡ false
      → IsCoherent S (gala_transaction S c Data t now ctx s).1
      → (k : Text)
      → S.get_state (run_transaction S c Data t now ctx s).1.stub k
        ≡ view S (gala_transaction S c Data t now ctx s).1 k
  unfolding run_transaction
  run_transaction-commits now ctx s d h live i k =
      let (r, s') = gala_transaction S c Data t now ctx s in committed ctx r s' d h live i k
