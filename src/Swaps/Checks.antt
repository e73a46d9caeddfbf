-- ===== src/Swaps/Checks.antt =====
-- What fillTokenSwap (chaincode/src/swaps/fillTokenSwap.ts) checks of a swap before tokens move.
use galachain_sdk.Base.{
  ℕ, ◌+◌, ◌==◌, Bool, false, ◌&&◌, ◌||◌, not, Option, none, some, List, [], ◌∷◌, Text, eqb, leb,
  length, if◌then◌else◌,
}
use galachain_sdk.Errors.{Result, ok, err, type_error}
use galachain_sdk.Balance.Nft.{is_instance_spendable}
use galachain_sdk.Balance.Fungible.{get_quantity_total}
use galachain_sdk.State.{Action, lift, ◌>>=◌}
use galachain_sdk.Keys.{get_string_key_from_parts}
use galachain_sdk.Tokens.{TokenInstance}
use galachain_sdk.Context.{Context}
use galachain_sdk.Ledger.{fetch_or_create_balance, build_instance_key_list}
use galachain_sdk.Burns.{class_key_of_instance}
use galachain_sdk.Swaps.{SwapChain, TokenInstanceQuantity, TokenSwapRequest, count_if}

module _ (X : SwapChain) where
  open X use {chain}
  open chain use {stub, number, number_text}
  open number use {
    Num, of_ℕ, plus, minus, times, is_equal_to, is_less_than, is_less_than_or_equal_to, is_zero,
    is_integer, decimal_places,
  }

  pub record ExpectedTokenSwap : Type 0 where
    pub offered : List (TokenInstanceQuantity number)
    pub wanted : List (TokenInstanceQuantity number)

  pub record FillTokenSwapParams : Type 0 where
    pub filled_by : Text
    pub uses : Num
    pub swap_request_id : Text
    pub expected_token_swap : Option ExpectedTokenSwap

  -- Expected tokens that the swap does not have are read past the end of an array.
  unfoldable pub mismatches :
      List (TokenInstanceQuantity number) → List (TokenInstanceQuantity number) → Result ℕ
  unfolding get_string_key_from_parts build_instance_key_list
  mismatches [] actual = ok 0
  mismatches (e ∷ es) [] = err type_error
  mismatches (e ∷ es) (a ∷ as_) =
      let text_of = λ (t : TokenInstanceQuantity number).
        get_string_key_from_parts (build_instance_key_list chain t.token_instance) in
      elim (mismatches es as_) [
        | err e' ↦ err e'
        | ok n ↦ ok (
            count_if (not (eqb (text_of e) (text_of a)))
            + count_if (not (is_equal_to e.quantity a.quantity))
            + n)
      ]

  unfoldable pub validate_token_swap_fill :
      TokenSwapRequest number → Option ExpectedTokenSwap → Result ℕ
  unfolding mismatches
  validate_token_swap_fill r none = ok 0
  validate_token_swap_fill r (some x) = elim (mismatches x.offered r.offered) [
    | err e ↦ err e
    | ok n ↦ elim (mismatches x.wanted r.wanted) [
      | err e ↦ err e
      | ok m ↦ ok (
          count_if (not (length x.offered == length r.offered))
          + count_if (not (length x.wanted == length r.wanted))
          + n
          + m)
    ]
  ]

  -- `offeredTo` is set, and not to the user
  unfoldable pub is_for_another : Option Text → Text → Bool
  is_for_another none user = false
  is_for_another (some []) user = false
  is_for_another (some (c ∷ cs)) user = not (eqb user (c ∷ cs))

  -- the uses left, and the uses asked for
  unfoldable pub uses_errors : TokenSwapRequest number → Num → ℕ
  uses_errors r uses =
      let left = minus r.uses r.uses_spent in
      count_if (is_less_than_or_equal_to left (of_ℕ 0))
      + (if not (is_integer uses) || is_less_than_or_equal_to uses (of_ℕ 0)
          then 1
          else count_if (is_less_than left uses))

  -- The wanted tokens that were fetched stand beside what is wanted.
  unfoldable pub lacking :
      Context
      → FillTokenSwapParams
      → List (TokenInstance number)
      → List (TokenInstanceQuantity number)
      → Action stub ℕ
  unfolding fetch_or_create_balance class_key_of_instance is_instance_spendable get_quantity_total
  lacking ctx p [] ts = lift (ok 0)
  lacking ctx p (i ∷ is) [] = lift (err type_error)
  lacking ctx p (i ∷ is) (t ∷ ts) = do
    b ← fetch_or_create_balance chain p.filled_by (class_key_of_instance chain i)
    short ←
        if i.is_non_fungible
        then lift (ok (not (is_instance_spendable number b i.instance_ ctx.tx_unix_time)))
        else (do
          total ← lift (get_quantity_total number b)
          lift (ok (is_zero total || is_less_than total (times t.quantity p.uses))))
    n ← lacking ctx p is ts
    lift (ok (count_if short + n))

  -- the errors found before the balances are looked at
  unfoldable pub request_errors : Context → FillTokenSwapParams → TokenSwapRequest number → ℕ → ℕ
  unfolding is_for_another uses_errors
  request_errors ctx p r missing =
      count_if (is_for_another r.offered_to p.filled_by)
      + count_if (eqb p.filled_by r.offered_by)
      + missing
      + uses_errors r p.uses
      + count_if (not (r.expires == 0) && leb r.expires ctx.tx_unix_time)
