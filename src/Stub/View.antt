-- ===== src/Stub/View.antt =====
-- What a transaction reads through the cache, as a function of the key: reads see the last write
-- or deletion, and do not change what later reads see.
use galachain_sdk.Base.{◌≡◌, true, [], Text, eqb, eqb_iff, arith, if◌then◌else◌}
use galachain_sdk.Base.Dict.{lookup-insert, lookup-remove}
use galachain_sdk.Stub.{Bytes, ChaincodeStub}
use galachain_sdk.Stub.Cache.{StubCache, get_cached_state, put_state, delete_state}

module _ (S : ChaincodeStub) where
  -- what `getCachedState` returns
  unfoldable pub view : StubCache S → Text → Bytes
  view c k = (get_cached_state S k c).0

  -- A read after a write sees it; every other key reads as before.
  pub view-put :
      (k j : Text) (v : Bytes) (c : StubCache S)
      → view (put_state S k v c) j ≡ (if eqb k j then v else view c j)
  unfolding view get_cached_state put_state
  view-put k j v c =
      ground (
        arith,
        lookup-insert k j v c.writes,
        lookup-remove k j c.deletes,
        lookup-remove k j c.reads,
      )

  -- A read after a deletion finds nothing; every other key reads as before.
  pub view-delete :
      (k j : Text) (c : StubCache S)
      → view (delete_state S k c) j ≡ (if eqb k j then [] else view c j)
  unfolding view get_cached_state delete_state
  view-delete k j c = ground (
    arith,
    lookup-insert k j true c.deletes,
    lookup-remove k j c.writes,
    lookup-remove k j c.reads,
  )

  -- A read changes nothing that a later read sees, whatever was read.
  pub view-get : (k j : Text) (c : StubCache S) → view (get_cached_state S k c).1 j ≡ view c j
  unfolding view get_cached_state
  view-get k j c = ground (arith, eqb_iff k j, lookup-insert k j (S.get_state c.stub k) c.reads)
