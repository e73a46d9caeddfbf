-- ===== src/Unique/Replay.antt =====
-- A transaction cannot be submitted twice under the same unique key.
use galachain_sdk.Base.{◌≡◌, refl, ap, ◌∙◌, Bool, false, Option, [], ◌∷◌, Text, eqb_self, arith}
use galachain_sdk.Base.Dict.{lookup}
use galachain_sdk.Errors.{Result, Error, ok, err, unique_transaction_conflict, code}
use galachain_sdk.Stub.{ChaincodeStub, Bytes}
use galachain_sdk.Stub.Cache.{
  StubCache, get_tx_id, new_cache, put_state, get_cached_state, flush_writes,
}
use galachain_sdk.Stub.View.{view, view-put}
use galachain_sdk.Stub.Flush.{
  IsCoherent, put_state-IsCoherent, get_cached_state-IsCoherent, flush_writes-view,
}
use galachain_sdk.State.Inversion.{bind-inv}
use galachain_sdk.State.{
  continue, Serial, lift, object_of, read_bytes, is_not_found, recover_not_found, get_object_by_key,
  put_chain_object, validate_or_reject,
}
use galachain_sdk.Keys.{composite_key}
use galachain_sdk.Context.{Context}
use galachain_sdk.Unique.{
  UniqueTransaction, unique_index, get_unique_transaction_key, put_unique_transaction,
  ensure_unique_key, ensure_unique_transaction,
}

object_of-bytes :
    (S : ChaincodeStub) {T : Type 0} (c : Serial T) (x : T) (b : Bytes)
    → c.serialize x ≡ b
    → object_of S c b ≡ ok x
unfolding object_of read_bytes
object_of-bytes S c x [] e = absurd (ground (arith, c.deserialize-serialize x, c.deserialize-empty))
object_of-bytes S c x (b ∷ bs) e = ground (arith, c.deserialize-serialize x)

object_of-serialize :
    (S : ChaincodeStub) {T : Type 0} (c : Serial T) (x : T) → object_of S c (c.serialize x) ≡ ok x
object_of-serialize S c x = object_of-bytes S c x (c.serialize x) refl

throw-state :
    {S : ChaincodeStub} {A : Type 0} (r : Result A) (e : Error) (s : StubCache S)
    → (continue {S = S} {A = A} {C = Unit {0}} r (λ _. lift (err e)) s).1 ≡ s
throw-state (ok a) e s = refl
throw-state (err x) e s = refl

module _ (S : ChaincodeStub) (c : Serial UniqueTransaction) where
  ensure_unique_key-conflict :
      (k : Text) (d : StubCache S) (x : UniqueTransaction)
      → view S d (get_unique_transaction_key S c k) ≡ c.serialize x
      → (ensure_unique_key S c k d).0 ≡ err unique_transaction_conflict
  unfolding ensure_unique_key view get_object_by_key
  ensure_unique_key-conflict k d x e =
      rw e (rw (object_of-serialize S c x) (unfold recover_not_found is_not_found code in refl))

  ensure_unique_transaction-conflict :
      (ctx : Context) (k : Text) (d : StubCache S) (x : UniqueTransaction)
      → view S d (get_unique_transaction_key S c k) ≡ c.serialize x
      → (ensure_unique_transaction S c ctx k d).0 ≡ err unique_transaction_conflict
  unfolding ensure_unique_transaction
  ensure_unique_transaction-conflict ctx k d x e = rw (ensure_unique_key-conflict k d x e) refl

  ensure_unique_key-state :
      (k : Text) (d : StubCache S)
      → (ensure_unique_key S c k d).1 ≡ (get_cached_state S (get_unique_transaction_key S c k) d).1
  unfolding ensure_unique_key get_object_by_key
  ensure_unique_key-state k d =
      throw-state (object_of S c (get_cached_state S (get_unique_transaction_key S c k) d).0)
        unique_transaction_conflict (get_cached_state S (get_unique_transaction_key S c k) d).1

  put_unique_transaction-inv :
      (ctx : Context) (k : Text) (d d' : StubCache S)
      → put_unique_transaction S c ctx k d ≡ (ok tt, d')
      → (x : UniqueTransaction) × (d'
          ≡ put_state S (composite_key unique_index (k ∷ [])) (c.serialize x) d)
  unfolding put_unique_transaction put_chain_object validate_or_reject
  put_unique_transaction-inv ctx k d d' e = (
    record { unique_key = k; created = ctx.tx_unix_time; transaction_id = get_tx_id S d },
    ground arith,
  )

  ensure_unique_transaction-inv :
      (ctx : Context) (k : Text) (d d' : StubCache S)
      → ensure_unique_transaction S c ctx k d ≡ (ok tt, d')
      → let read = (get_cached_state S (get_unique_transaction_key S c k) d).1 in
        (x : UniqueTransaction) × (d'
          ≡ put_state S (composite_key unique_index (k ∷ [])) (c.serialize x) read)
  unfolding ensure_unique_transaction
  ensure_unique_transaction-inv ctx k d d' e =
      let (_, _, e₁) =
        bind-inv (ensure_unique_key S c k) (λ _. put_unique_transaction S c ctx k) d d' tt e in
      let (x, eq) = put_unique_transaction-inv ctx k (ensure_unique_key S c k d).1 d' e₁ in
      (
        x,
        eq
            ∙ ap (λ r. put_state S (composite_key unique_index (k ∷ [])) (c.serialize x) r)
                (ensure_unique_key-state k d),
      )

  view-new_cache :
      (s : S.State) (read_only : Bool) (index : Option Text) (k : Text)
      → view S (new_cache S s read_only index) k ≡ S.get_state s k
  unfolding view new_cache get_cached_state lookup
  view-new_cache s read_only index k = refl

  stays_writable :
      (k j : Text) (v : Bytes) (d : StubCache S)
      → (put_state S j v (get_cached_state S k d).1).is_read_only ≡ d.is_read_only
  unfolding put_state get_cached_state
  stays_writable k j v d = ground arith

  view-written :
      (k j : Text) (v : Bytes) (d : StubCache S) → j ≡ k → view S (put_state S k v d) j ≡ v
  view-written k j v d e = rw e (view-put S k k v d ∙ rw eqb_self)

  -- Once a transaction with a unique key has passed, another one with that key is refused as a
  -- conflict, in the same cache, and after the flush in a new one. The cache was coherent and not
  -- read-only, and Fabric's composite key is the object's.
  pub ensure_unique_transaction-once :
      (ctx ctx' : Context) (k : Text) (d d' : StubCache S) (read_only : Bool) (index : Option Text)
      → S.create_composite_key unique_index (k ∷ []) ≡ composite_key unique_index (k ∷ [])
      → IsCoherent S d
      → d.is_read_only ≡ false
      → ensure_unique_transaction S c ctx k d ≡ (ok tt, d')
      → let next = new_cache S (flush_writes S d').1.stub read_only index in
        ((ensure_unique_transaction S c ctx' k d').0 ≡ err unique_transaction_conflict)
        × ((ensure_unique_transaction S c ctx' k next).0 ≡ err unique_transaction_conflict)
  ensure_unique_transaction-once ctx ctx' k d d' read_only index key coherent writable e =
      let (x, eq) = ensure_unique_transaction-inv ctx k d d' e in
      let key' = composite_key unique_index (k ∷ []) in
      let read = (get_cached_state S (get_unique_transaction_key S c k) d).1 in
      let written = put_state S key' (c.serialize x) read in
      let coherent' =
        put_state-IsCoherent S key' (c.serialize x) read
          (get_cached_state-IsCoherent S (get_unique_transaction_key S c k) d coherent) in
      let seen : view S written (get_unique_transaction_key S c k) ≡ c.serialize x =
        unfold get_unique_transaction_key in
        view-written key' (S.create_composite_key unique_index (k ∷ [])) (c.serialize x) read key in
      let flushed =
        flush_writes-view S written coherent'
          (stays_writable (get_unique_transaction_key S c k) key' (c.serialize x) d ∙ writable) in
      rw eq (
        ensure_unique_transaction-conflict ctx' k written x seen,
        ensure_unique_transaction-conflict ctx' k _ x (
            view-new_cache _ read_only index (get_unique_transaction_key S c k)
            ∙ flushed.1 (get_unique_transaction_key S c k)
            ∙ seen),
      )
