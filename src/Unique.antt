-- ===== src/Unique.antt =====
-- `UniqueTransactionService` (chaincode/src/services/UniqueTransactionService.ts): a key that names
-- a transaction is written with it, and may not be there before.
pub mod Replay
use galachain_sdk.Base.{ℕ, List, [], ◌∷◌, Text, text}
use galachain_sdk.Errors.{err, unique_transaction_conflict}
use galachain_sdk.Stub.{ChaincodeStub}
use galachain_sdk.Stub.Cache.{get_tx_id}
use galachain_sdk.State.{
  Serial, Action, lift, catch, ◌>>=◌, ◌>>◌, recover_not_found, put_chain_object, get_object_by_key,
}
use galachain_sdk.Keys.{composite_key}
use galachain_sdk.Context.{Context}

pub record UniqueTransaction : Type 0 where
  pub unique_key : Text
  pub created : ℕ
  pub transaction_id : Text

abbrev pub unique_index : Text
unique_index = text "UNTX"

module _ (S : ChaincodeStub) (c : Serial UniqueTransaction) where
  -- read under Fabric's composite key
  unfoldable pub get_unique_transaction_key : Text → Text
  get_unique_transaction_key unique_key = S.create_composite_key unique_index (unique_key ∷ [])

  -- written under the object's own
  unfoldable pub put_unique_transaction : Context → Text → Action S (Unit {0})
  unfolding composite_key put_chain_object get_tx_id
  put_unique_transaction ctx unique_key s =
      put_chain_object S c (composite_key unique_index (unique_key ∷ []))
        (record {
          unique_key = unique_key;
          created = ctx.tx_unix_time;
          transaction_id = get_tx_id S s;
        })
        s

  unfoldable pub ensure_unique_key : Text → Action S (Unit {0})
  unfolding get_unique_transaction_key get_object_by_key recover_not_found
  ensure_unique_key unique_key =
      catch
        (do
          found ← get_object_by_key S c (get_unique_transaction_key unique_key)
          lift (err unique_transaction_conflict))
        (recover_not_found tt)

  unfoldable pub ensure_unique_transaction : Context → Text → Action S (Unit {0})
  unfolding ensure_unique_key put_unique_transaction
  ensure_unique_transaction ctx unique_key = do
    ensure_unique_key unique_key
    put_unique_transaction ctx unique_key
