-- ===== src/Mint/Batch.antt =====
-- Many mints at once: chaincode/src/mint/batchMintToken.ts, and `requestMintBatch` of requestMint.ts.
-- A mint that fails does not stop the others, but then the batch throws.
use galachain_sdk.Base.{
  ℕ, suc, ◌==◌, Option, none, some, List, [], ◌∷◌, ◌++◌, Text, text, if◌then◌else◌,
}
use galachain_sdk.Base.Dict.{Dict, lookup, insert}
use galachain_sdk.Errors.{Result, ok, err, batch_mint_failed, mint_request_failed}
use galachain_sdk.Stub.{ChaincodeStub}
use galachain_sdk.State.{Action, lift, ◌>>=◌}
use galachain_sdk.Keys.{join}
use galachain_sdk.Tokens.{TokenClassKey, TokenInstanceKey}
use galachain_sdk.Context.{Context, calling_user}
use galachain_sdk.Ledger.{Chain}
use galachain_sdk.Supply.{fetch_mint_supply}
use galachain_sdk.Mint.{MintTokenParams, mint_token}
use galachain_sdk.Mint.Request.{MintRequestDto, submit_mint_request, request_id}

-- `try`
abbrev pub settled : {S : ChaincodeStub} {A : Type 0} → Action S A → Action S (Result A)
settled m s = let (r, s') = m s in (ok r, s')

module _ (W : Chain) where
  open W use {stub, number}
  open number use {Num, plus}

  -- the operations of one class, by caller
  pub record IndexedMintOperations : Type 0 where
    pub token_class_key : TokenClassKey
    pub by_caller : Dict (List (MintTokenParams W))

  unfoldable pub token_key : TokenClassKey → Text
  unfolding join
  token_key k = join (b'_' ∷ []) (k.collection ∷ k.category ∷ k.type ∷ k.additional_key ∷ [])

  -- an object in a template string is `[object Object]`
  unfoldable pub caller_text : Context → Option Text → Result Text
  unfolding calling_user
  caller_text ctx none = calling_user ctx
  caller_text ctx (some user) = ok (text "[object Object]")

  unfoldable pub push_operation :
      Text → MintTokenParams W → Dict (List (MintTokenParams W)) → Dict (List (MintTokenParams W))
  unfolding lookup insert
  push_operation key op d = elim (lookup key d) [
    | none ↦ insert key (op ∷ []) d
    | some ops ↦ insert key (ops ++ op ∷ []) d
  ]

  unfoldable pub indexed_class :
      Dict IndexedMintOperations → MintTokenParams W → IndexedMintOperations
  unfolding lookup token_key
  indexed_class d op = elim (lookup (token_key op.token_class_key) d) [
    | none ↦ record { token_class_key = op.token_class_key; by_caller = [] }
    | some indexed ↦ indexed
  ]

  unfoldable pub index_mint_operations :
      Context
      → Dict IndexedMintOperations
      → List (MintTokenParams W)
      → Result (Dict IndexedMintOperations)
  unfolding insert caller_text push_operation indexed_class token_key join
  index_mint_operations ctx d [] = ok d
  index_mint_operations ctx d (op ∷ ops) = elim (caller_text ctx op.authorized_on_behalf) [
    | err e ↦ err e
    | ok caller ↦
        let indexed = indexed_class d op in
        let key = join (b'_' ∷ []) (caller ∷ token_key op.token_class_key ∷ []) in
        let pushed : IndexedMintOperations = record indexed {
          by_caller = push_operation key op indexed.by_caller;
        } in
        index_mint_operations ctx (insert (token_key op.token_class_key) pushed d) ops
  ]

  -- what the loops carry on
  pub record BatchState : Type 0 where
    pub known_total_supply : Num
    pub minted : List (TokenInstanceKey number)
    pub errors : ℕ

  unfoldable pub note_result :
      BatchState → Num → Result (List (TokenInstanceKey number)) → BatchState
  note_result b quantity (ok keys) = record b {
    known_total_supply = plus b.known_total_supply quantity;
    minted = b.minted ++ keys;
  }
  note_result b quantity (err e) = record b {
    known_total_supply = plus b.known_total_supply quantity;
    errors = suc b.errors;
  }

  unfoldable pub mint_batch :
      Context → BatchState → List (MintTokenParams W) → Action stub BatchState
  unfolding mint_token note_result
  mint_batch ctx b [] = lift (ok b)
  mint_batch ctx b (op ∷ ops) = do
    r ← settled (mint_token W ctx (record op { known_total_supply = some b.known_total_supply }))
    mint_batch ctx (note_result b op.quantity r) ops

  unfoldable pub mint_callers :
      Context → BatchState → Dict (List (MintTokenParams W)) → Action stub BatchState
  unfolding mint_batch
  mint_callers ctx b [] = lift (ok b)
  mint_callers ctx b ((key, ops) ∷ rest) = do b' ← mint_batch ctx b ops; mint_callers ctx b' rest

  unfoldable pub mint_classes :
      Context
      → List (TokenInstanceKey number)
      → ℕ
      → Dict IndexedMintOperations
      → Action stub (List (TokenInstanceKey number) × ℕ)
  unfolding fetch_mint_supply mint_callers
  mint_classes ctx minted errors [] = lift (ok (minted, errors))
  mint_classes ctx minted errors ((key, indexed) ∷ rest) = do
    known ← fetch_mint_supply W ctx indexed.token_class_key none
    b ←
        mint_callers ctx (record { known_total_supply = known; minted = minted; errors = errors })
          indexed.by_caller
    mint_classes ctx b.minted b.errors rest

  unfoldable pub batch_mint_token :
      Context → List (MintTokenParams W) → Action stub (List (TokenInstanceKey number))
  unfolding index_mint_operations mint_classes
  batch_mint_token ctx ops = do
    indexed ← lift (index_mint_operations ctx [] ops)
    done ← mint_classes ctx [] 0 indexed
    if done.1 == 0 then lift (ok done.0) else lift (err batch_mint_failed)

  -- the requests sent back, and how many failed
  unfoldable pub request_each :
      Context → List (MintTokenParams W) → Action stub (List (MintRequestDto W) × ℕ)
  unfolding submit_mint_request request_id
  request_each ctx [] = lift (ok ([], 0))
  request_each ctx (op ∷ ops) = do
    r ← settled (
        submit_mint_request W ctx (record {
          token_class = op.token_class_key;
          owner = some op.owner;
          quantity = op.quantity;
          authorized_on_behalf = op.authorized_on_behalf;
        }))
    rest ← request_each ctx ops
    lift (
        ok (elim r [
          | err e ↦ (rest.0, suc rest.1)
          | ok x ↦ (
            record {
              collection = x.collection;
              category = x.category;
              type = x.type;
              additional_key = x.additional_key;
              time_key = x.time_key;
              total_known_mints_count = x.total_known_mints_count;
              owner = x.owner;
              id = request_id W x;
            }
                ∷ rest.0,
            rest.1,
          )
        ]))

  unfoldable pub request_mint_batch :
      Context → List (MintTokenParams W) → Action stub (List (MintRequestDto W))
  unfolding request_each
  request_mint_batch ctx ops = do
    done ← request_each ctx ops
    if done.1 == 0 then lift (ok done.0) else lift (err mint_request_failed)
