-- ===== src/Transaction.antt =====
-- The wrapper that `GalaTransaction` puts around a contract method
-- (chaincode/src/contracts/GalaTransaction.ts), and what follows it in `afterTransaction`
-- (chaincode/src/contracts/GalaContract.ts).
pub mod Confined
pub mod Atomic
use galachain_sdk.Base.{
  ℕ, Bool, true, false, ◌&&◌, ◌||◌, ◌==◌, not, Option, none, some, List, [], ◌∷◌, Text, text, ltb,
  if◌then◌else◌,
}
use galachain_sdk.Errors.{
  type_error, Error, Result, ok, err, dto_expired, missing_unique_key, external_call_then_failure,
}
use galachain_sdk.Stub.{ChaincodeStub}
use galachain_sdk.Stub.Cache.{StubCache, external_chaincode_was_invoked, flush_writes}
use galachain_sdk.State.{Serial, Action, lift, continue, ◌>>=◌, ◌>>◌}
use galachain_sdk.Context.{Context}
use galachain_sdk.Authorize.{AuthorizeOptions, authorize}
use galachain_sdk.Unique.{UniqueTransaction, ensure_unique_transaction}

-- The parts of a parsed `ChainCallDTO` that the wrapper reads.
pub record ChainCallDto : Type 0 where
  pub dto_expires_at : Option ℕ
  pub dto_operation : Option Text
  pub unique_key : Option Text
  pub is_signed : Bool

-- `GalaChainResponse`
pub data Response (Data : Type 0) : Type 0 where
  success : Data → Response Data
  failure : Error → Response Data

-- A method gives data, a response of its own, or null.
pub data Outcome (Data : Type 0) : Type 0 where
  plain : Data → Outcome Data
  response : Response Data → Outcome Data
  null : Outcome Data

-- `"Status" in null` throws
unfoldable pub normalized : {Data : Type 0} → Outcome Data → Result (Response Data)
normalized (plain d) = ok (success d)
normalized (response r) = ok r
normalized null = err type_error

-- `dto?.dtoExpiresAt && dto.dtoExpiresAt < Date.now()`
unfoldable pub is_expired_dto : ℕ → Option ChainCallDto → Bool
is_expired_dto now none = false
is_expired_dto now (some dto) = elim dto.dto_expires_at [
  | none ↦ false
  | some t ↦ not (t == 0) && ltb t now
]

unfoldable pub is_signed_dto : Option ChainCallDto → Bool
is_signed_dto none = false
is_signed_dto (some dto) = dto.is_signed

unfoldable pub operation_of : Option ChainCallDto → Option Text
operation_of none = none
operation_of (some dto) = dto.dto_operation

-- `if (dto?.uniqueKey)`: an empty one is missing
unfoldable pub key_of : Option ChainCallDto → Option Text
key_of none = none
key_of (some dto) = elim dto.unique_key [
  | none ↦ none
  | some [] ↦ none
  | some (x ∷ xs) ↦ some (x ∷ xs)
]

-- `options.allowedOrgs?.length`
unfoldable pub has_organizations : AuthorizeOptions → Bool
has_organizations options = elim options.allowed_orgs [
  | none ↦ false
  | some [] ↦ false
  | some (x ∷ xs) ↦ true
]

-- A caller with no signature: roles only.
unfoldable pub unsigned_caller : Context → AuthorizeOptions → Context
unfolding has_organizations
unsigned_caller ctx options = record ctx {
  calling_user_value = none;
  calling_user_roles_value = some (
      if has_organizations options
      then text "EVALUATE" ∷ text "SUBMIT" ∷ []
      else text "EVALUATE" ∷ []);
  is_multisig_value = some false;
}

module _ (S : ChaincodeStub) (c : Serial UniqueTransaction) (Data : Type 0) where
  -- A contract method with its options. Parsing and validating the call's plain object, and the
  -- authentication of its signatures, are given.
  pub record GalaTransaction : Type 0 where
    pub authorization : AuthorizeOptions
    pub verify_signature : Bool
    pub enforce_unique_key : Bool
    pub parse : Result (Option ChainCallDto)
    pub authenticate : Context → Option ChainCallDto → Action S Context
    pub before : Context → Option ChainCallDto → Action S (Unit {0})
    pub method : Context → Option ChainCallDto → Action S (Outcome Data)
    pub after : Context → Option ChainCallDto → Response Data → Action S (Unit {0})

  unfoldable pub identify : GalaTransaction → Context → Option ChainCallDto → Action S Context
  unfolding is_signed_dto unsigned_caller
  identify t ctx dto =
      if ctx.is_dry_run
      then lift (ok ctx)
      else if t.verify_signature || is_signed_dto dto
      then t.authenticate ctx dto
      else lift (ok (unsigned_caller ctx t.authorization))

  unfoldable pub ensure_once : GalaTransaction → Context → Option ChainCallDto → Action S (Unit {0})
  unfolding key_of ensure_unique_transaction
  ensure_once t ctx dto = if not t.enforce_unique_key then lift (ok tt) else elim (key_of dto) [
    | none ↦ lift (err missing_unique_key)
    | some key ↦ ensure_unique_transaction S c ctx key
  ]

  -- the body of the `try`; `now` is `Date.now()`
  unfoldable pub attempt : GalaTransaction → ℕ → Context → Action S (Response Data)
  unfolding is_expired_dto identify operation_of authorize ensure_once normalized
  attempt t now ctx = do
    dto ← lift t.parse
    (if is_expired_dto now dto then lift (err dto_expired) else lift (ok tt))
    ctx' ← identify t ctx dto
    lift (authorize ctx' t.authorization (operation_of dto))
    ensure_once t ctx' dto
    t.before ctx' dto
    outcome ← t.method ctx' dto
    result ← lift (normalized outcome)
    t.after ctx' dto result
    lift (ok result)

  -- the `catch`: after a call of another chaincode the failure is thrown on
  unfoldable pub recover : Result (Response Data) → Action S (Response Data)
  unfolding external_chaincode_was_invoked
  recover (ok r) s = (ok r, s)
  recover (err e) s =
      if external_chaincode_was_invoked S s
      then (err external_call_then_failure, s)
      else (ok (failure e), s)

  unfoldable pub gala_transaction : GalaTransaction → ℕ → Context → Action S (Response Data)
  unfolding attempt recover
  gala_transaction t now ctx s = let (r, s') = attempt t now ctx s in recover r s'

  unfoldable pub after_transaction : Context → Response Data → Action S (Unit {0})
  unfolding flush_writes
  after_transaction ctx (failure e) s = (ok tt, s)
  after_transaction ctx (success d) s = if ctx.is_dry_run then (ok tt, s) else flush_writes S s

  -- A call of the contract: the method in its wrapper, and then `afterTransaction`.
  unfoldable pub run_transaction : GalaTransaction → ℕ → Context → Action S (Response Data)
  unfolding gala_transaction after_transaction
  run_transaction t now ctx = do
    r ← gala_transaction t now ctx
    after_transaction ctx r
    lift (ok r)
