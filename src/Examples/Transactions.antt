-- ===== src/Examples/Transactions.antt =====
-- Runs of a transaction: a method that writes, and one that fails after it has written.
use galachain_sdk.Base.{ℕ, ◌≡◌, refl, true, false, none, some, [], ◌∷◌, Text, text, eqb}
use galachain_sdk.Errors.{Error, Result, ok, err, insufficient_balance}
use galachain_sdk.Stub.Cache.{StubCache, new_cache, put_state}
use galachain_sdk.Stub.Flush.{new_cache-IsCoherent, put_state-IsCoherent}
use galachain_sdk.Stub.View.{view}
use galachain_sdk.State.{Serial, lift}
use galachain_sdk.Context.{Context}
use galachain_sdk.Unique.{UniqueTransaction}
use galachain_sdk.Transaction.{
  failure, Outcome, plain, GalaTransaction, gala_transaction, run_transaction,
}
use galachain_sdk.Transaction.Confined.{IsConfined}
use galachain_sdk.Transaction.Atomic.{run_transaction-atomic, run_transaction-commits}
use galachain_sdk.Examples.World.{world}
use galachain_sdk.Examples.Codec.{serial}
use galachain_sdk.Examples.Chains.{unique_codec}

abbrev codec : Serial UniqueTransaction
codec = serial unique_codec refl (λ x. true)

abbrev key : Text
key = text "k"

abbrev ctx : Context
ctx = record {
  calling_user_value = none;
  calling_user_roles_value = none;
  is_multisig_value = none;
  is_dry_run = false;
  tx_unix_time = 5;
  msp_id = text "Org";
  full_operation_id = text "op";
}

abbrev writing : Result (Outcome ℕ) → GalaTransaction world codec ℕ
writing result = record {
  authorization = record {
    allowed_orgs = some (text "Org" ∷ []);
    allowed_roles = none;
    allowed_origin_chaincodes = none;
    quorum = none;
  };
  verify_signature = false;
  enforce_unique_key = false;
  parse = ok none;
  authenticate = λ c dto. lift (ok c);
  before = λ c dto. lift (ok tt);
  method = λ c dto s. (result, put_state world key (7 ∷ []) s);
  after = λ c dto r. lift (ok tt);
}

writing-IsConfined : (r : Result (Outcome ℕ)) → IsConfined world codec (writing r)
unfolding put_state
writing-IsConfined r = record {
  authenticates = λ c dto s. refl;
  begins = λ c dto s. refl;
  runs = λ c dto s. refl;
  ends = λ c dto e s. refl;
}

abbrev fresh : StubCache world
fresh = new_cache world [] false none

abbrev failing : GalaTransaction world codec ℕ
failing = writing (err insufficient_balance)

run_transaction-atomic_example :
    let (r, s') = run_transaction world codec ℕ failing 10 ctx fresh in
    ((e : Error) → r ≡ ok (failure e) → s'.stub ≡ fresh.stub)
    × ((e : Error) → r ≡ err e → s'.stub ≡ fresh.stub)
    × (ctx.is_dry_run ≡ true → s'.stub ≡ fresh.stub)
run_transaction-atomic_example =
    run_transaction-atomic world codec failing (writing-IsConfined (err insufficient_balance)) 10
      ctx fresh

abbrev passing : GalaTransaction world codec ℕ
passing = writing (ok (plain 1))

run_transaction-commits_example :
    world.get_state (run_transaction world codec ℕ passing 10 ctx fresh).1.stub key
    ≡ view world (gala_transaction world codec ℕ passing 10 ctx fresh).1 key
unfolding run_transaction eqb put_state new_cache
run_transaction-commits_example =
    run_transaction-commits world codec passing 10 ctx fresh 1 refl refl
      (put_state-IsCoherent world key (7 ∷ []) fresh (new_cache-IsCoherent world [] false none)) key
