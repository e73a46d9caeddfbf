-- ===== src/Stub/Scan.antt =====
-- Range queries through the cache. A key that was looked up in vain stays in `reads` with the empty
-- array, and `getCachedStateByPartialCompositeKey` lists it as if it were an object.
use galachain_sdk.Base.{
  ◌≡◌, ◌∙◌, refl, true, none, some, List, [], ◌∷◌, ◌++◌, Text, eqb_iff, eqb_self, arith, filter,
}
use galachain_sdk.Base.Dict.{Dict, lookup, insert, lookup-insert}
use galachain_sdk.Stub.{ChaincodeStub}
use galachain_sdk.Stub.Cache.{
  StubCache, get_cached_state, spread, starts_with, cached_entries,
  get_cached_state_by_partial_composite_key,
}

lookup-spread {ℓ} :
    {V : Type ℓ} (k : Text) (a b : Dict V) → lookup k b ≡ none → lookup k (spread a b) ≡ lookup k a
unfolding lookup spread
lookup-spread k a [] h = refl
lookup-spread k a ((j, w) ∷ b) h =
    ground (arith, lookup-spread k (insert j w a) b, lookup-insert j k w a)

lookup-filter {ℓ} :
    {V : Type ℓ} (k p : Text) (v : V) (d : Dict V)
    → starts_with k p ≡ true
    → lookup k d ≡ some v
    → lookup k (filter (λ e. starts_with e.0 p) d) ≡ some v
unfolding lookup
lookup-filter k p v [] t h = h
lookup-filter k p v ((j, w) ∷ d) t h = ground (arith, eqb_iff j k, lookup-filter k p v d t)

lookup-append {ℓ} :
    {V : Type ℓ} (k : Text) (v : V) (d e : Dict V)
    → lookup k d ≡ some v
    → lookup k (d ++ e) ≡ some v
unfolding lookup
lookup-append k v [] e h = cc
lookup-append k v ((j, w) ∷ d) e h = ground (arith, lookup-append k v d e)

module _ (S : ChaincodeStub) where
  get_cached_state-missing :
      (k : Text) (c : StubCache S)
      → S.get_state c.stub k ≡ []
      → lookup k c.writes ≡ none
      → lookup k c.reads ≡ none
      → lookup k c.deletes ≡ none
      → (get_cached_state S k c).1 ≡ record c { reads = insert k [] c.reads }
  unfolding get_cached_state
  get_cached_state-missing k c absent w r d = ground arith

  -- After a key with the prefix has been read in vain, the range query lists the key with the empty
  -- array, if the transaction has not read, written or deleted the key before.
  pub scan-missing :
      (k object_type : Text) (attributes : List Text) (c : StubCache S)
      → S.get_state c.stub k ≡ []
      → lookup k c.writes ≡ none
      → lookup k c.reads ≡ none
      → lookup k c.deletes ≡ none
      → starts_with k (S.create_composite_key object_type attributes) ≡ true
      → lookup k (
          get_cached_state_by_partial_composite_key S object_type attributes
            (get_cached_state S k c).1)
        ≡ some []
  unfolding get_cached_state_by_partial_composite_key cached_entries
  scan-missing k object_type attributes c absent w r d p =
      let found : lookup k (spread (insert k [] c.reads) c.writes) ≡ some [] =
        lookup-spread k (insert k [] c.reads) c.writes w
        ∙ lookup-insert k k [] c.reads
        ∙ (rw eqb_self) in
      rw (get_cached_state-missing k c absent w r d) (
        lookup-append k [] _ _ (
          lookup-filter k (S.create_composite_key object_type attributes) []
            (spread (insert k [] c.reads) c.writes) p found))
