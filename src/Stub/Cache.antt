-- ===== src/Stub/Cache.antt =====
-- `class StubCache` (chaincode/src/types/GalaChainStub.ts): the writes of a transaction are kept
-- back until `flushWrites`, and reads see them. The state comes back beside every result, since
-- what was written before a throw stays written in the cache.
use galachain_sdk.Base.{
  Bool, true, false, not, ◌||◌, Option, none, some, List, [], ◌∷◌, ◌++◌, Text, text, eqb, ◌==◌,
  filter, if◌then◌else◌,
}
use galachain_sdk.Base.Dict.{Dict, lookup, insert, remove}
use galachain_sdk.Stub.{Bytes, ChaincodeStub}
use galachain_sdk.Errors.{Result, ok, err, read_only_flush, duplicate_invoke_chaincode, type_error}

pub record StubCache (S : ChaincodeStub) : Type 0 where
  pub stub : S.State
  pub is_read_only : Bool
  pub index : Option Text
  pub writes : Dict Bytes
  pub reads : Dict Bytes
  pub deletes : Dict Bool
  pub invoke_chaincode_calls : Dict (List Text)

-- `key in object`
unfoldable pub has {ℓ} : {V : Type ℓ} → Text → Dict V → Bool
unfolding lookup
has k d = elim (lookup k d) [ none ↦ false | some _ ↦ true ]

-- `{ ...a, ...b }`
unfoldable pub spread {ℓ} : {V : Type ℓ} → Dict V → Dict V → Dict V
unfolding insert
spread a [] = a
spread a ((k, v) ∷ b) = spread (insert k v a) b

-- `s.startsWith(p)`
unfoldable pub starts_with : Text → Text → Bool
starts_with s [] = true
starts_with [] (c ∷ p) = false
starts_with (d ∷ s) (c ∷ p) = if d == c then starts_with s p else false

-- `s.endsWith(p)`
unfoldable pub ends_with : Text → Text → Bool
ends_with [] p = eqb [] p
ends_with (c ∷ s) p = eqb (c ∷ s) p || ends_with s p

module _ (S : ChaincodeStub) where
  -- the constructor
  unfoldable pub new_cache : S.State → Bool → Option Text → StubCache S
  new_cache stub is_read_only index = record {
    stub = stub;
    is_read_only = is_read_only;
    index = index;
    writes = [];
    reads = [];
    deletes = [];
    invoke_chaincode_calls = [];
  }

  unfoldable pub get_tx_id : StubCache S → Text
  get_tx_id c = elim c.index [
    | none ↦ S.get_tx_id c.stub
    | some i ↦ S.get_tx_id c.stub ++ text "|" ++ i
  ]

  unfoldable pub get_cached_state : Text → StubCache S → Bytes × StubCache S
  get_cached_state k c = elim (lookup k c.deletes) [
    | some _ ↦ ([], c)
    | none ↦ elim (lookup k c.writes) [
      | some v ↦ (v, c)
      | none ↦ elim (lookup k c.reads) [
        | some v ↦ (v, c)
        | none ↦
            (S.get_state c.stub k, record c { reads = insert k (S.get_state c.stub k) c.reads })
      ]
    ]
  ]

  -- what the cache itself lists below a prefix
  unfoldable pub cached_entries : Text → StubCache S → Dict Bytes
  unfolding spread starts_with
  cached_entries prefix c = filter (λ e. starts_with e.0 prefix) (spread c.reads c.writes)

  unfoldable pub get_cached_state_by_partial_composite_key :
      Text → List Text → StubCache S → Dict Bytes
  unfolding cached_entries has
  get_cached_state_by_partial_composite_key object_type attributes c =
      let cached = cached_entries (S.create_composite_key object_type attributes) c in
      cached
      ++ filter (λ e. not (has e.0 cached || has e.0 c.deletes))
          (S.get_state_by_partial_composite_key c.stub object_type attributes)

  unfoldable pub put_state : Text → Bytes → StubCache S → StubCache S
  put_state k v c = record c {
    writes = insert k v c.writes;
    deletes = remove k c.deletes;
    reads = remove k c.reads;
  }

  unfoldable pub delete_state : Text → StubCache S → StubCache S
  delete_state k c = record c {
    deletes = insert k true c.deletes;
    writes = remove k c.writes;
    reads = remove k c.reads;
  }

  -- A call of another chaincode; only a dry run may be repeated. The called chaincode's own writes
  -- are not in this cache. With no argument `args?.[0].endsWith` fails.
  unfoldable pub invoke_chaincode :
      Text → List Text → Text → StubCache S → Result Bytes × StubCache S
  unfolding ends_with
  invoke_chaincode name args channel c =
      let key = channel ++ text "/" ++ name in
      elim (lookup key c.invoke_chaincode_calls) [
        | some _ ↦ (err duplicate_invoke_chaincode, c)
        | none ↦ elim args [
          | [] ↦ (err type_error, c)
          | method ∷ rest ↦ (
            ok (S.invoke_chaincode c.stub name (method ∷ rest) channel),
            if ends_with method (text ":DryRun") then c else record c {
              invoke_chaincode_calls = insert key (method ∷ rest) c.invoke_chaincode_calls;
            },
          )
        ]
      ]

  unfoldable pub external_chaincode_was_invoked : StubCache S → Bool
  external_chaincode_was_invoked c = elim c.invoke_chaincode_calls [ [] ↦ false | _ ∷ _ ↦ true ]

  unfoldable pub run_deletes : Dict Bool → S.State → S.State
  run_deletes [] s = s
  run_deletes ((k, _) ∷ d) s = run_deletes d (S.delete_state k s)

  unfoldable pub run_writes : Dict Bytes → S.State → S.State
  run_writes [] s = s
  run_writes ((k, v) ∷ d) s = run_writes d (S.put_state k v s)

  -- The cache keeps its contents.
  unfoldable pub flush_writes : StubCache S → Result (Unit {0}) × StubCache S
  unfolding run_deletes run_writes
  flush_writes c =
      if c.is_read_only
      then (err read_only_flush, c)
      else (ok tt, record c { stub = run_writes c.writes (run_deletes c.deletes c.stub) })
