-- ===== src/Swaps/Terminate.antt =====
-- chaincode/src/swaps/terminateTokenSwap.ts: the user who offered takes back what was not used.
use galachain_sdk.Base.{ℕ, ◌+◌, ◌==◌, ◌&&◌, not, some, List, [], ◌∷◌, Text, eqb, leb, if◌then◌else◌}
use galachain_sdk.Errors.{ok, err, swap_dto_validation}
use galachain_sdk.State.{Action, lift, ◌>>=◌, ◌>>◌, put_chain_object, get_object_by_key}
use galachain_sdk.Context.{Context, calling_user}
use galachain_sdk.Locks.Unlock.{unlock_token}
use galachain_sdk.Swaps.{SwapChain, TokenInstanceQuantity, TokenSwapRequest, count_if, swap_key}

module _ (X : SwapChain) where
  open X use {chain}
  open chain use {stub, number}
  open number use {minus, times, is_equal_to}

  -- A failed unlock is an error noted, and the others are tried.
  unfoldable pub unlock_offered :
      Context → TokenSwapRequest number → List (TokenInstanceQuantity number) → Action stub ℕ
  unfolding unlock_token swap_key
  unlock_offered ctx r [] s = (ok 0, s)
  unlock_offered ctx r (t ∷ ts) s =
      let (b, s') =
        unlock_token chain ctx
          (record {
            token_instance_key = t.token_instance;
            name = some (swap_key X r);
            quantity = some (times t.quantity (minus r.uses r.uses_spent));
            owner = some r.offered_by;
          })
          s in
      let (rest, s'') = unlock_offered ctx r ts s' in
      (elim rest [ err e ↦ err e | ok n ↦ ok (elim b [ err e ↦ 1 + n | ok x ↦ n ]) ], s'')

  unfoldable pub terminate_token_swap : Context → Text → Action stub (TokenSwapRequest number)
  unfolding get_object_by_key calling_user unlock_offered put_chain_object swap_key
  terminate_token_swap ctx id = do
    r ← get_object_by_key stub X.swaps id
    user ← lift (calling_user ctx)
    failed ← unlock_offered ctx r r.offered
    let errors =
        count_if (not (eqb r.offered_by user))
        + count_if (is_equal_to r.uses r.uses_spent)
        + count_if (not (r.expires == 0) && leb r.expires ctx.tx_unix_time)
        + failed
    if errors == 0
        then (do
          put_chain_object stub X.swaps (swap_key X r) (record r { expires = ctx.tx_unix_time })
          lift (ok (record r { expires = ctx.tx_unix_time })))
        else lift (err swap_dto_validation)
