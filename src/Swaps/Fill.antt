-- ===== src/Swaps/Fill.antt =====
-- chaincode/src/swaps/fillTokenSwap.ts and batchFillTokenSwaps.ts: the offered tokens go to the user
-- who fills the swap, and the wanted ones to the one who offered it.
use galachain_sdk.Base.{
  ℕ, ◌+◌, ◌==◌, Bool, true, false, not, none, List, [], ◌∷◌, ◌++◌, Text, text, eqb, if◌then◌else◌,
}
use galachain_sdk.Errors.{ok, err, swap_dto_validation, swap_token_failed, transfer_token_failed}
use galachain_sdk.State.{
  Action, lift, ◌>>=◌, ◌>>◌, put_chain_object, get_object_by_key, validate_or_reject,
}
use galachain_sdk.Keys.{composite_key}
use galachain_sdk.Tokens.{TokenInstance, swap}
use galachain_sdk.Context.{Context, calling_user}
use galachain_sdk.Ledger.{instance_key}
use galachain_sdk.Allowances.Verify.{verify_and_use_allowances}
use galachain_sdk.Transfer.{transfer_token}
use galachain_sdk.Swaps.{
  SwapChain, TokenInstanceQuantity, TokenSwapRequest, TokenSwapFill, instances_or_none, or_throw,
  swap_key,
}
use galachain_sdk.Swaps.Token.{swap_token}
use galachain_sdk.Swaps.Checks.{
  FillTokenSwapParams, validate_token_swap_fill, lacking, request_errors,
}

module _ (X : SwapChain) where
  open X use {chain}
  open chain use {stub, number, number_text}
  open number use {
    Num, of_ℕ, plus, minus, times, is_equal_to, is_less_than, is_less_than_or_equal_to, is_zero,
    is_integer, decimal_places,
  }

  -- the offered tokens go to the filling user
  unfoldable pub give_offered :
      Context
      → FillTokenSwapParams X
      → Text
      → List (TokenInstanceQuantity number)
      → Action stub (Unit {0})
  unfolding swap_token
  give_offered ctx p offered_by [] = lift (ok tt)
  give_offered ctx p offered_by (t ∷ ts) = do
    or_throw X
        (swap_token X ctx offered_by p.filled_by t.token_instance (times t.quantity p.uses)
          p.swap_request_id false)
        swap_token_failed
    give_offered ctx p offered_by ts

  -- one wanted token goes to the offering user, by an allowance if the caller fills for another
  unfoldable pub pay_one :
      Context
      → FillTokenSwapParams X
      → Text
      → Bool
      → TokenInstanceQuantity number
      → Action stub (Unit {0})
  unfolding calling_user get_object_by_key instance_key verify_and_use_allowances swap_token
      transfer_token
  pay_one ctx p offered_by on_behalf t =
      let quantity = times t.quantity p.uses in
      if on_behalf
      then (do
        i ← get_object_by_key stub chain.instances (instance_key chain t.token_instance)
        user ← lift (calling_user ctx)
        verify_and_use_allowances chain ctx p.filled_by t.token_instance quantity i user swap
        or_throw X
            (swap_token X ctx p.filled_by offered_by t.token_instance quantity p.swap_request_id
              true)
            swap_token_failed
        lift (ok tt))
      else (do
        or_throw X
            (transfer_token chain ctx (record {
              from_ = p.filled_by;
              to = offered_by;
              token_instance_key = t.token_instance;
              quantity = quantity;
              allowances_to_use = [];
              authorized_on_behalf = none;
            }))
            transfer_token_failed
        lift (ok tt))

  unfoldable pub pay_wanted :
      Context
      → FillTokenSwapParams X
      → Text
      → Bool
      → List (TokenInstanceQuantity number)
      → Action stub (Unit {0})
  unfolding pay_one
  pay_wanted ctx p offered_by on_behalf [] = lift (ok tt)
  pay_wanted ctx p offered_by on_behalf (t ∷ ts) = do
    pay_one ctx p offered_by on_behalf t
    pay_wanted ctx p offered_by on_behalf ts

  unfoldable pub fill_key : TokenSwapFill number → Text
  unfolding composite_key
  fill_key f =
      composite_key (text "GCTSF") (f.swap_request_id ∷ f.filled_by ∷ chain.ℕ_text f.created ∷ [])

  -- the uses are spent and the fill is noted
  unfoldable pub filled : TokenSwapRequest number → TokenSwapFill number → TokenSwapRequest number
  unfolding fill_key
  filled r f = record r {
    uses_spent = plus r.uses_spent f.uses;
    fill_ids = r.fill_ids ++ fill_key f ∷ [];
  }

  -- the part behind the checks
  unfoldable pub settle :
      Context
      → FillTokenSwapParams X
      → TokenSwapRequest number
      → TokenSwapFill number
      → Bool
      → Action stub (TokenSwapFill number)
  unfolding give_offered pay_wanted put_chain_object fill_key filled swap_key
  settle ctx p r f on_behalf = do
    give_offered ctx p r.offered_by r.offered
    pay_wanted ctx p r.offered_by on_behalf r.wanted
    put_chain_object stub X.fills (fill_key f) f
    put_chain_object stub X.swaps (swap_key X (filled r f)) (filled r f)
    lift (ok f)

  -- What was wanted and could be fetched stands in `wanted`. Balances are looked at, and tokens move,
  -- only without an error.
  unfoldable pub check_and_settle :
      Context
      → FillTokenSwapParams X
      → TokenSwapRequest number
      → TokenSwapFill number
      → Bool
      → List (TokenInstance number)
      → ℕ
      → Action stub (TokenSwapFill number)
  unfolding lacking settle
  check_and_settle ctx p r f on_behalf wanted errors = do
    short ← if errors == 0 then lacking X ctx p wanted r.wanted else lift (ok 0)
    if errors + short == 0 then settle ctx p r f on_behalf else lift (err swap_dto_validation)

  unfoldable pub fill_request :
      Context
      → FillTokenSwapParams X
      → TokenSwapFill number
      → Bool
      → TokenSwapRequest number
      → Action stub (TokenSwapFill number)
  unfolding validate_token_swap_fill instances_or_none request_errors check_and_settle
  fill_request ctx p f on_behalf r = do
    unexpected ← lift (validate_token_swap_fill X r p.expected_token_swap)
    offered ← instances_or_none X r.offered
    wanted ← instances_or_none X r.wanted
    check_and_settle ctx p r f on_behalf wanted.0
        (unexpected + request_errors X ctx p r (offered.1 + wanted.1))

  unfoldable pub new_fill : Context → FillTokenSwapParams X → TokenSwapFill number
  new_fill ctx p = record {
    swap_request_id = p.swap_request_id;
    filled_by = p.filled_by;
    created = ctx.tx_unix_time;
    uses = p.uses;
  }

  unfoldable pub fill_token_swap :
      Context → FillTokenSwapParams X → Action stub (TokenSwapFill number)
  unfolding validate_or_reject calling_user get_object_by_key fill_request new_fill
  fill_token_swap ctx p = do
    validate_or_reject stub X.fills (new_fill ctx p)
    user ← lift (calling_user ctx)
    r ← get_object_by_key stub X.swaps p.swap_request_id
    fill_request ctx p (new_fill ctx p) (not (eqb p.filled_by user)) r

  unfoldable pub batch_fill_token_swaps :
      Context → List (FillTokenSwapParams X) → Action stub (List (TokenSwapFill number))
  unfolding fill_token_swap
  batch_fill_token_swaps ctx [] = lift (ok [])
  batch_fill_token_swaps ctx (p ∷ ps) = do
    f ← fill_token_swap ctx p
    fs ← batch_fill_token_swaps ctx ps
    lift (ok (f ∷ fs))
