-- ===== src/State.antt =====
-- Reading and writing chain objects (chaincode/src/utils/state.ts) through the cache.
pub mod Inversion
pub mod Stored
pub mod Keeps
use galachain_sdk.Base.{
  ℕ, ◌≡◌, Bool, true, false, Option, none, some, List, [], ◌∷◌, Text, length, leb, if◌then◌else◌,
}
use galachain_sdk.Errors.{
  Error, ErrorCode, code, Result, ok, err, object_validation_failed, object_not_found,
  no_object_ids, invalid_results, too_many_results, deserialization_failed,
}
use galachain_sdk.Stub.{Bytes, ChaincodeStub}
use galachain_sdk.Stub.Cache.{
  StubCache, get_cached_state, put_state, delete_state, get_cached_state_by_partial_composite_key,
}
use galachain_sdk.Base.Dict.{Dict}

-- A class of chain objects: how class-transformer writes and reads it, and what class-validator
-- says of its decorators. `none` is a text that cannot be read.
pub record Serial (T : Type 0) : Type 0 where
  pub serialize : T → Bytes
  pub deserialize : Bytes → Option T
  pub is_valid : T → Bool
  pub deserialize-serialize : (x : T) → deserialize (serialize x) ≡ some x
  pub deserialize-empty : deserialize [] ≡ none

module _ (S : ChaincodeStub) where
  -- What a contract method does: it may throw, and the cache keeps what was written before.
  abbrev pub Action : Type 0 → Type 0
  Action A = StubCache S → Result A × StubCache S

abbrev pub handle : {A : Type 0} → Result A → (Error → Result A) → Result A
handle (ok a) f = ok a
handle (err e) f = f e

module _ {S : ChaincodeStub} where
  abbrev pub lift : {A : Type 0} → Result A → Action S A
  lift r c = (r, c)

  abbrev pub continue : {A C : Type 0} → Result A → (A → Action S C) → Action S C
  continue (ok a) f c = f a c
  continue (err e) f c = (err e, c)

  -- A promise's `.then`, and `.catch` with a handler that may throw again.
  infixl 5 ◌>>=◌ ◌>>◌
  abbrev pub ◌>>=◌ : {A C : Type 0} → Action S A → (A → Action S C) → Action S C
  ◌>>=◌ m f c = let (r, c') = m c in continue r f c'

  abbrev pub ◌>>◌ : {A C : Type 0} → Action S A → Action S C → Action S C
  m >> n = m >>= λ _. n

  abbrev pub catch : {A : Type 0} → Action S A → (Error → Result A) → Action S A
  catch m f c = let (r, c') = m c in (handle r f, c')

-- `e.matches(ErrorCode.NOT_FOUND)`
unfoldable pub is_not_found : Error → Bool
unfolding code
is_not_found e = elim (code e) [ ErrorCode.not_found ↦ true | _ ↦ false ]

-- `ChainError.recover(e, ErrorCode.NOT_FOUND, x)` (chain-api/src/utils/error.ts)
unfoldable pub recover_not_found : {A : Type 0} → A → Error → Result A
unfolding is_not_found
recover_not_found x e = if is_not_found e then ok x else err e

-- `TOTAL_RESULTS_LIMIT`
abbrev pub total_results_limit : ℕ
total_results_limit = 100000

module _ (S : ChaincodeStub) where
  unfoldable pub delete_chain_object : Text → Action S (Unit {0})
  delete_chain_object key s = (ok tt, delete_state S key s)

module _ (S : ChaincodeStub) {T : Type 0} (c : Serial T) where
  unfoldable pub validate_or_reject : T → Action S (Unit {0})
  validate_or_reject x s = ((if c.is_valid x then ok tt else err object_validation_failed), s)

  unfoldable pub put_chain_object : Text → T → Action S (Unit {0})
  unfolding validate_or_reject
  put_chain_object key x = do validate_or_reject x; λ s. (ok tt, put_state S key (c.serialize x) s)

  unfoldable pub read_bytes : Bytes → Result T
  read_bytes bytes = elim (c.deserialize bytes) [
    | none ↦ err deserialization_failed
    | some x ↦ ok x
  ]

  -- `!objectBuffer || objectBuffer.length === 0`
  unfoldable pub object_of : Bytes → Result T
  unfolding read_bytes
  object_of [] = err object_not_found
  object_of (b ∷ bs) = read_bytes (b ∷ bs)

  unfoldable pub get_object_by_key : Text → Action S T
  unfolding object_of
  get_object_by_key id s = let (bytes, s') = get_cached_state S id s in (object_of bytes, s')

  unfoldable pub object_exists : Text → Action S Bool
  object_exists id s =
      let (bytes, s') = get_cached_state S id s in
      (ok (elim bytes [ [] ↦ false | _ ∷ _ ↦ true ]), s')

  -- the loop over the iterator
  unfoldable pub read_all : Dict Bytes → Result (List T)
  unfolding read_bytes
  read_all [] = ok []
  read_all ((k, bytes) ∷ rest) = elim (read_bytes bytes) [
    | err e ↦ err e
    | ok x ↦ elim (read_all rest) [ err e ↦ err e | ok xs ↦ ok (x ∷ xs) ]
  ]

  unfoldable pub limit_results : Result (List T) → Result (List T)
  limit_results (err e) = err e
  limit_results (ok xs) =
      if leb total_results_limit (length xs) then err too_many_results else ok xs

  unfoldable pub get_objects_by_partial_composite_key : Text → List Text → Action S (List T)
  unfolding read_all limit_results
  get_objects_by_partial_composite_key object_type attributes s = (
    limit_results (read_all (get_cached_state_by_partial_composite_key S object_type attributes s)),
    s,
  )

  -- the `reduce`: every object is read, whether or not another fails
  unfoldable pub read_each : List Text → StubCache S → Result (List T) × StubCache S
  unfolding get_object_by_key
  read_each [] s = (ok [], s)
  read_each (id ∷ ids) s =
      let (r, s') = get_object_by_key id s in
      let (rs, s'') = read_each ids s' in
      (
        elim r [
          | err e ↦ err invalid_results
          | ok x ↦ elim rs [ err e ↦ err invalid_results | ok xs ↦ ok (x ∷ xs) ]
        ],
        s'',
      )

  unfoldable pub get_objects_by_keys : List Text → Action S (List T)
  unfolding read_each
  get_objects_by_keys [] s = (err no_object_ids, s)
  get_objects_by_keys (id ∷ ids) s = read_each (id ∷ ids) s
