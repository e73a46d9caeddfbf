-- ===== src/Stub/Flush.antt =====
-- Flushing: the world state becomes what the transaction saw.
use galachain_sdk.Base.{
  ◌≡◌, refl, Bool, true, false, Option, none, some, [], ◌∷◌, Text, eqb_iff, arith, Option-cases,
  inl, inr,
}
use galachain_sdk.Base.Dict.{
  Dict, lookup, lookup-insert, lookup-remove, IsDistinct, insert-IsDistinct, remove-IsDistinct,
}
use galachain_sdk.Errors.{ok, err, read_only_flush}
use galachain_sdk.Stub.{Bytes, ChaincodeStub}
use galachain_sdk.Stub.Cache.{
  StubCache, new_cache, get_cached_state, put_state, delete_state, run_deletes, run_writes,
  flush_writes,
}
use galachain_sdk.Stub.View.{view}

module _ (S : ChaincodeStub) where
  -- No key is both written and deleted, and what was read is what the world state holds.
  pub record IsCoherent (c : StubCache S) : Type 0 where
    pub distinct : IsDistinct c.writes
    pub apart : (k : Text) (v : Bytes) → lookup k c.writes ≡ some v → lookup k c.deletes ≡ none
    pub current : (k : Text) (v : Bytes) → lookup k c.reads ≡ some v → v ≡ S.get_state c.stub k

  pub new_cache-IsCoherent :
      (s : S.State) (read_only : Bool) (index : Option Text)
      → IsCoherent (new_cache S s read_only index)
  unfolding new_cache lookup
  new_cache-IsCoherent s read_only index = record {
    distinct = tt;
    apart = λ k v h. cc;
    current = λ k v h. cc;
  }

  pub put_state-IsCoherent :
      (k : Text) (v : Bytes) (c : StubCache S) → IsCoherent c → IsCoherent (put_state S k v c)
  unfolding put_state
  put_state-IsCoherent k v c i = record {
    distinct = insert-IsDistinct k v c.writes i.distinct;
    apart = λ j w h.
        ground (arith, lookup-insert k j v c.writes, lookup-remove k j c.deletes, i.apart j w);
    current = λ j w h. ground (arith, lookup-remove k j c.reads, i.current j w);
  }

  pub delete_state-IsCoherent :
      (k : Text) (c : StubCache S) → IsCoherent c → IsCoherent (delete_state S k c)
  unfolding delete_state
  delete_state-IsCoherent k c i = record {
    distinct = remove-IsDistinct k c.writes i.distinct;
    apart = λ j w h.
        ground (arith, lookup-insert k j true c.deletes, lookup-remove k j c.writes, i.apart j w);
    current = λ j w h. ground (arith, lookup-remove k j c.reads, i.current j w);
  }

  pub get_cached_state-IsCoherent :
      (k : Text) (c : StubCache S) → IsCoherent c → IsCoherent (get_cached_state S k c).1
  unfolding get_cached_state
  get_cached_state-IsCoherent k c i = record {
    distinct = ground (arith, i.distinct);
    apart = λ j w h. ground (arith, i.apart j w);
    current = λ j w h.
        ground
          (arith, eqb_iff k j, lookup-insert k j (S.get_state c.stub k) c.reads, i.current j w);
  }

  get-run_deletes :
      (d : Dict Bool) (s : S.State) (j : Text)
      → S.get_state (run_deletes S d s) j
        ≡ elim (lookup j d) [ none ↦ S.get_state s j | some _ ↦ [] ]
  unfolding run_deletes lookup
  get-run_deletes [] s j = refl
  get-run_deletes ((k, b) ∷ d) s j =
      ground (arith, get-run_deletes d (S.delete_state k s) j, S.get-delete k j s)

  get-run_writes :
      (d : Dict Bytes) (s : S.State) (j : Text)
      → IsDistinct d
      → S.get_state (run_writes S d s) j ≡ elim (lookup j d) [ none ↦ S.get_state s j | some v ↦ v ]
  unfolding run_writes lookup
  get-run_writes [] s j h = refl
  get-run_writes ((k, v) ∷ d) s j h =
      ground (arith, get-run_writes d (S.put_state k v s) j h.1, S.get-put k j v s, eqb_iff k j)

  get-flush_writes :
      (c : StubCache S) (k : Text)
      → IsCoherent c
      → c.is_read_only ≡ false
      → S.get_state (flush_writes S c).1.stub k ≡ view S c k
  unfolding flush_writes view get_cached_state
  get-flush_writes c k i w =
      let gone = get-run_deletes c.deletes c.stub k in
      let kept = get-run_writes c.writes (run_deletes S c.deletes c.stub) k i.distinct in
      elim (Option-cases (lookup k c.writes)) [
        | inr (v, e) ↦ ground (arith, gone, kept, i.apart k v e)
        | inl e ↦ elim (Option-cases (lookup k c.reads)) [
          | inr (v, r) ↦ ground (arith, gone, kept, i.current k v r)
          | inl r ↦ ground (arith, gone, kept)
        ]
      ]

  -- After the flush of a coherent cache that is not read-only the world state holds, at every key,
  -- what the transaction read there.
  pub flush_writes-view :
      (c : StubCache S)
      → IsCoherent c
      → c.is_read_only ≡ false
      → ((flush_writes S c).0 ≡ ok tt)
        × ((k : Text) → S.get_state (flush_writes S c).1.stub k ≡ view S c k)
  flush_writes-view c i w = (unfold flush_writes in ground arith, λ k. get-flush_writes c k i w)

  -- A read-only cache does not flush, and leaves the world state as it is.
  pub flush_writes-read_only :
      (c : StubCache S) → c.is_read_only ≡ true → flush_writes S c ≡ (err read_only_flush, c)
  unfolding flush_writes
  flush_writes-read_only c w = ground arith
