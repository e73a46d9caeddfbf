-- ===== src/Swaps/Request.antt =====
-- chaincode/src/swaps/requestTokenSwap.ts: what is offered is checked and locked.
use galachain_sdk.Base.{
  ℕ, ◌+◌, ◌==◌, Bool, true, false, ◌&&◌, ◌||◌, not, Option, none, some, List, [], ◌∷◌, Text, eqb,
  leb, length, if◌then◌else◌,
}
use galachain_sdk.Errors.{ok, err, type_error, swap_dto_validation, lock_token_failed}
use galachain_sdk.Balance.Account.{is_fungible}
use galachain_sdk.Balance.Nft.{is_instance_spendable}
use galachain_sdk.Balance.Fungible.{get_quantity_total}
use galachain_sdk.State.{
  Action, lift, ◌>>=◌, ◌>>◌, put_chain_object, get_object_by_key, validate_or_reject,
}
use galachain_sdk.Tokens.{TokenInstance, TokenClass, swap}
use galachain_sdk.Context.{Context, calling_user}
use galachain_sdk.Ledger.{
  fetch_or_create_balance, instance_key, build_token_class_composite_key, get_token_class_key,
}
use galachain_sdk.Stub.Cache.{get_tx_id}
use galachain_sdk.Allowances.Amount.{exceeds}
use galachain_sdk.Allowances.Verify.{verify_and_use_allowances}
use galachain_sdk.Locks.Lock.{lock_token}
use galachain_sdk.Locks.Unlock.{includes}
use galachain_sdk.Burns.{class_key_of_instance}
use galachain_sdk.Swaps.{
  SwapChain, TokenInstanceQuantity, TokenSwapRequest, count_if, instances_or_none, or_throw,
  swap_key,
}
use galachain_sdk.Swaps.Index.{put_index_objects}

module _ (X : SwapChain) where
  open X use {chain}
  open chain use {stub, number}
  open number use {
    Num, of_ℕ, times, is_equal_to, is_less_than, is_less_than_or_equal_to, is_integer,
  }

  pub record RequestTokenSwapParams : Type 0 where
    pub offered_by : Text
    pub offered_to : Option Text
    pub offered : List (TokenInstanceQuantity number)
    pub wanted : List (TokenInstanceQuantity number)
    pub uses : Num
    pub expires : ℕ

  unfoldable pub validate_token_swap_quantity : Num → TokenClass number → ℕ
  unfolding exceeds
  validate_token_swap_quantity q c =
      if c.is_non_fungible && (is_less_than q (of_ℕ 1) || not (is_integer q))
      then 1
      else if not c.is_non_fungible && is_less_than q (of_ℕ 0)
      then 1
      else if c.is_non_fungible && not (is_equal_to q (of_ℕ 1))
      then 1
      else count_if (exceeds number q c.max_supply || exceeds number q c.max_capacity)

  -- an empty text is falsy
  unfoldable pub truthy : Option Text → Option Text
  truthy none = none
  truthy (some []) = none
  truthy (some (c ∷ cs)) = some (c ∷ cs)

  unfoldable pub new_swap : Context → RequestTokenSwapParams → Text → TokenSwapRequest number
  unfolding truthy swap_key
  new_swap ctx p txid =
      let r : TokenSwapRequest number = record {
        created = ctx.tx_unix_time;
        txid = txid;
        swap_request_id = [];
        offered = p.offered;
        wanted = p.wanted;
        offered_to = truthy p.offered_to;
        offered_by = p.offered_by;
        fill_ids = [];
        uses = p.uses;
        uses_spent = of_ℕ 0;
        expires = p.expires;
      } in
      record r { swap_request_id = swap_key X r }

  -- an allowance of the owner is used where the caller offers for another
  unfoldable pub use_swap_allowances :
      Context → Text → Bool → TokenInstanceQuantity number → Action stub (Unit {0})
  unfolding calling_user get_object_by_key instance_key verify_and_use_allowances
  use_swap_allowances ctx owner false t = lift (ok tt)
  use_swap_allowances ctx owner true t = do
    i ← get_object_by_key stub chain.instances (instance_key chain t.token_instance)
    user ← lift (calling_user ctx)
    verify_and_use_allowances chain ctx owner t.token_instance t.quantity i user swap
    lift (ok tt)

  -- the keys of the fungible classes offered, and the number of errors
  unfoldable pub offered_errors :
      Context → Text → Bool → List (TokenInstanceQuantity number) → Action stub (List Text × ℕ)
  unfolding get_object_by_key build_token_class_composite_key get_token_class_key
      use_swap_allowances validate_token_swap_quantity
  offered_errors ctx owner on_behalf [] = lift (ok ([], 0))
  offered_errors ctx owner on_behalf (t ∷ ts) = do
    let key = build_token_class_composite_key chain (get_token_class_key chain t.token_instance)
    c ← get_object_by_key stub chain.classes key
    use_swap_allowances ctx owner on_behalf t
    rest ← offered_errors ctx owner on_behalf ts
    lift (
        ok (
          (if c.is_non_fungible then rest.0 else key ∷ rest.0),
          validate_token_swap_quantity t.quantity c + rest.1,
        ))

  -- With no instances fetched the first one is read past the end.
  unfoldable pub wanted_errors :
      List Text → List (TokenInstanceQuantity number) → List (TokenInstance number) → Action stub ℕ
  unfolding get_object_by_key build_token_class_composite_key class_key_of_instance includes
      validate_token_swap_quantity
  wanted_errors keys [] is = lift (ok 0)
  wanted_errors keys (t ∷ ts) [] = lift (err type_error)
  wanted_errors keys (t ∷ ts) (i ∷ is) = do
    let key = build_token_class_composite_key chain (class_key_of_instance chain i)
    c ← get_object_by_key stub chain.classes key
    n ← wanted_errors keys ts is
    lift (
        ok (
          count_if (not c.is_non_fungible && includes keys key)
          + validate_token_swap_quantity t.quantity c
          + n))

  -- the offered tokens that the owner cannot spend
  unfoldable pub balance_errors :
      Context → Text → List (TokenInstanceQuantity number) → Action stub ℕ
  unfolding fetch_or_create_balance get_token_class_key is_fungible get_quantity_total
      is_instance_spendable
  balance_errors ctx owner [] = lift (ok 0)
  balance_errors ctx owner (t ∷ ts) = do
    let k = t.token_instance
    b ← fetch_or_create_balance chain owner (get_token_class_key chain k)
    spendable ←
        if is_fungible number k.instance_
        then (do
          total ← lift (get_quantity_total number b)
          lift (ok (is_less_than_or_equal_to t.quantity total)))
        else lift (ok (is_instance_spendable number b k.instance_ ctx.tx_unix_time))
    n ← balance_errors ctx owner ts
    lift (ok (count_if (not spendable) + n))

  unfoldable pub lock_offered :
      Context
      → TokenSwapRequest number
      → Option Text
      → List (TokenInstanceQuantity number)
      → Action stub (Unit {0})
  unfolding lock_token
  lock_offered ctx r on_behalf [] = lift (ok tt)
  lock_offered ctx r on_behalf (t ∷ ts) = do
    or_throw X
        (lock_token chain X.hold_is_valid ctx (record {
          owner = some r.offered_by;
          lock_authority = some r.offered_by;
          token_instance_key = t.token_instance;
          quantity = times t.quantity r.uses;
          expires = r.expires;
          name = some r.swap_request_id;
          verify_authorized_on_behalf = λ _. lift (ok on_behalf);
          vesting_period_start = none;
        }))
        lock_token_failed
    lock_offered ctx r on_behalf ts

  -- The request is written before its errors are thrown.
  unfoldable pub issue :
      Context → TokenSwapRequest number → Bool → ℕ → Action stub (TokenSwapRequest number)
  unfolding balance_errors put_chain_object swap_key lock_offered put_index_objects
  issue ctx r on_behalf errors = do
    short ← if errors == 0 then balance_errors ctx r.offered_by r.offered else lift (ok 0)
    put_chain_object stub X.swaps (swap_key X r) r
    if errors + short == 0
        then (do
          lock_offered ctx r (if on_behalf then some r.offered_by else none) r.offered
          put_index_objects X r
          lift (ok r))
        else lift (err swap_dto_validation)

  unfoldable pub request_token_swap :
      Context → RequestTokenSwapParams → Action stub (TokenSwapRequest number)
  unfolding get_tx_id new_swap validate_or_reject calling_user instances_or_none offered_errors
      wanted_errors issue
  request_token_swap ctx p = do
    txid ← λ s. (ok (get_tx_id stub s), s)
    let r = new_swap ctx p txid
    validate_or_reject stub X.swaps r
    user ← lift (calling_user ctx)
    let on_behalf = not (eqb r.offered_by user)
    offered ← instances_or_none X r.offered
    wanted ← instances_or_none X r.wanted
    checked ← offered_errors ctx r.offered_by on_behalf r.offered
    n ← wanted_errors checked.0 r.wanted wanted.0
    issue ctx r on_behalf (
        count_if (not (r.expires == 0) && leb r.expires ctx.tx_unix_time)
        + offered.1
        + count_if (not (length offered.0 == length r.offered))
        + wanted.1
        + count_if (not (length wanted.0 == length r.wanted))
        + checked.1
        + n)
