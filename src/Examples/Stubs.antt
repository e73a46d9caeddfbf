-- ===== src/Examples/Stubs.antt =====
-- Runs of the cache, of keys, and of unique transactions.
use galachain_sdk.Base.{
  ◌≡◌, refl, true, false, none, some, [], ◌∷◌, Text, text, eqb, arith, length, if◌then◌else◌,
}
use galachain_sdk.Base.Dict.{Dict, lookup}
use galachain_sdk.Errors.{ok, err, unique_transaction_conflict}
use galachain_sdk.Stub.{Bytes}
use galachain_sdk.Stub.Cache.{
  StubCache, new_cache, get_cached_state, put_state, delete_state, flush_writes,
  get_cached_state_by_partial_composite_key, starts_with,
}
use galachain_sdk.Stub.View.{view, view-put, view-delete}
use galachain_sdk.Stub.Flush.{
  new_cache-IsCoherent, put_state-IsCoherent, delete_state-IsCoherent, flush_writes-view,
}
use galachain_sdk.Stub.Scan.{scan-missing}
use galachain_sdk.Keys.{
  composite_key, get_encodable_string_key_from_parts, get_parts_from_encodable_string_key,
}
use galachain_sdk.Keys.Injective.{composite_key-injective, encodable_key-parts}
use galachain_sdk.State.{Serial}
use galachain_sdk.Context.{Context}
use galachain_sdk.Unique.{UniqueTransaction, ensure_unique_transaction}
use galachain_sdk.Unique.Replay.{ensure_unique_transaction-once}
use galachain_sdk.Examples.World.{world, read}
use galachain_sdk.Examples.Codec.{serial}
use galachain_sdk.Examples.Chains.{unique_codec}

abbrev a : Text
a = text "a"

abbrev b : Text
b = text "b"

abbrev stored : Dict Bytes
stored = (a, 1 ∷ []) ∷ []

abbrev fresh : StubCache world
fresh = new_cache world stored false none

-- a deletion, and a write
abbrev used : StubCache world
used = put_state world b (2 ∷ []) (delete_state world a fresh)

view-put_example :
    view world (put_state world b (2 ∷ []) fresh) a
    ≡ (if eqb b a then 2 ∷ [] else view world fresh a)
view-put_example = view-put world b a (2 ∷ []) fresh

view-delete_example :
    view world (delete_state world a fresh) a ≡ (if eqb a a then [] else view world fresh a)
view-delete_example = view-delete world a a fresh

flush_writes-view_example :
    ((flush_writes world used).0 ≡ ok tt)
    × ((k : Text) → world.get_state (flush_writes world used).1.stub k ≡ view world used k)
unfolding put_state delete_state new_cache
flush_writes-view_example =
    flush_writes-view world used
      (put_state-IsCoherent world b (2 ∷ []) (delete_state world a fresh)
        (delete_state-IsCoherent world a fresh (new_cache-IsCoherent world stored false none)))
      refl

-- A balance that is not there is read, and then listed.
abbrev missing : Text
missing = composite_key (text "GCTB") (text "alice" ∷ text "GALA" ∷ [])

scan-missing_example :
    lookup missing (
      get_cached_state_by_partial_composite_key world
        (text "GCTB")
        (text "alice" ∷ [])
        (get_cached_state world missing fresh).1)
    ≡ some []
unfolding new_cache lookup read eqb composite_key starts_with
scan-missing_example =
    scan-missing world missing (text "GCTB") (text "alice" ∷ []) fresh refl refl refl refl refl

composite_key-injective_example : (text "GCTB" ≡ text "GCTB") × (text "x" ∷ [] ≡ text "x" ∷ [])
composite_key-injective_example =
    composite_key-injective (text "GCTB") (text "GCTB") (text "x" ∷ []) (text "x" ∷ [])
      (omega arith, (omega arith, (omega arith, (omega arith, tt))))
      (omega arith, (omega arith, (omega arith, (omega arith, tt)))) ((omega arith, tt), tt)
      ((omega arith, tt), tt) refl

encodable_key-parts_example :
    (key : Text) × (get_encodable_string_key_from_parts (text "x" ∷ text "y" ∷ []) ≡ ok key)
    × (get_parts_from_encodable_string_key key (length (text "x" ∷ text "y" ∷ []))
        ≡ ok (text "x" ∷ text "y" ∷ []))
encodable_key-parts_example =
    encodable_key-parts (text "x") (text "y" ∷ []) ((omega arith, tt), ((omega arith, tt), tt))

abbrev caller : Context
caller = record {
  calling_user_value = some (text "alice");
  calling_user_roles_value = some [];
  is_multisig_value = some false;
  is_dry_run = false;
  tx_unix_time = 5;
  msp_id = text "Org";
  full_operation_id = text "op";
}

abbrev codec : Serial UniqueTransaction
codec = serial unique_codec refl (λ x. true)

abbrev after : StubCache world
after = (ensure_unique_transaction world codec caller a fresh).1

ensure_unique_transaction-once_example :
    let next = new_cache world (flush_writes world after).1.stub false none in
    ((ensure_unique_transaction world codec caller a after).0 ≡ err unique_transaction_conflict)
    × ((ensure_unique_transaction world codec caller a next).0 ≡ err unique_transaction_conflict)
unfolding ensure_unique_transaction new_cache get_cached_state lookup read eqb
ensure_unique_transaction-once_example =
    ensure_unique_transaction-once world codec caller caller a fresh after false none refl
      (new_cache-IsCoherent world stored false none) refl refl
