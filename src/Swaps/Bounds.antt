-- ===== src/Swaps/Bounds.antt =====
-- What a fill of chaincode/src/swaps/fillTokenSwap.ts may spend.
use galachain_sdk.Base.{
  ℕ, Bool, List, Text, if◌then◌else◌, ◌≡◌, ◌+◌, ◌==◌, true, false, ◌&&◌, not, ap, arith, Bool-cases,
  inl, inr, eqb, leb,
}
use galachain_sdk.Base.Int.{pos, ◌≤ℤ◌, ◌<ℤ◌}
use galachain_sdk.Numeric.{plus_parts, minus_parts, le_of_test, lt_of_test, units_zero_parts}
use galachain_sdk.Errors.{ok, err, swap_dto_validation}
use galachain_sdk.Stub.Cache.{StubCache}
use galachain_sdk.State.{lift, ◌>>=◌, get_object_by_key, validate_or_reject}
use galachain_sdk.State.Inversion.{bind-inv, lift-inv}
use galachain_sdk.Tokens.{TokenInstance}
use galachain_sdk.Context.{Context, calling_user}
use galachain_sdk.Swaps.{SwapChain, instances_or_none, TokenSwapRequest, TokenSwapFill}
use galachain_sdk.Swaps.Checks.{
  FillTokenSwapParams, is_for_another, uses_errors, request_errors, lacking,
  validate_token_swap_fill,
}
use galachain_sdk.Swaps.Fill.{
  check_and_settle, fill_request, fill_token_swap, new_fill, filled, settle,
}

module _ (X : SwapChain) where
  open X use {chain}
  open chain use {stub, number}
  open number use {Num, of_ℕ, minus, is_less_than, is_less_than_or_equal_to, is_integer, units}

  uses_errors-tests :
      (r : TokenSwapRequest number) (uses : Num)
      → uses_errors X r uses ≡ 0
      → (is_less_than (minus r.uses r.uses_spent) uses ≡ false)
        × (is_less_than_or_equal_to uses (of_ℕ 0) ≡ false)
  unfolding uses_errors
  uses_errors-tests r uses e = ground arith

  request_errors-parts :
      (ctx : Context) (p : FillTokenSwapParams X) (r : TokenSwapRequest number) (m : ℕ)
      → request_errors X ctx p r m ≡ 0
      → (uses_errors X r p.uses ≡ 0)
        × (is_for_another X r.offered_to p.filled_by ≡ false)
        × (eqb p.filled_by r.offered_by ≡ false)
        × ((not (r.expires == 0) && leb r.expires ctx.tx_unix_time) ≡ false)
  unfolding request_errors
  request_errors-parts ctx p r m e = ground arith

  uses_errors-bounds :
      (r : TokenSwapRequest number) (f : TokenSwapFill number)
      → uses_errors X r f.uses ≡ 0
      → (pos 0 <ℤ units f.uses) × (units (filled X r f).uses_spent ≤ℤ units r.uses)
  unfolding filled
  uses_errors-bounds r f e =
      let (left, positive) = uses_errors-tests r f.uses e in
      let le = le_of_test number (minus r.uses r.uses_spent) f.uses left in
      let above : is_less_than (of_ℕ 0) f.uses ≡ true =
        elim (Bool-cases (is_less_than (of_ℕ 0) f.uses)) [
          | inl t ↦ t
          | inr n ↦
              absurd (ground (arith, positive, n, number.less_than_or_equal_to f.uses (of_ℕ 0)))
        ] in
      (
        omega (arith, lt_of_test number (of_ℕ 0) f.uses above, units_zero_parts number),
        omega (
          arith,
          le,
          plus_parts number r.uses_spent f.uses,
          minus_parts number r.uses r.uses_spent,
        ),
      )

  check_and_settle-inv :
      (ctx : Context) (p : FillTokenSwapParams X) (r : TokenSwapRequest number)
      (f f' : TokenSwapFill number) (b : Bool) (ws : List (TokenInstance number)) (n : ℕ)
      (c c' : StubCache stub)
      → check_and_settle X ctx p r f b ws n c ≡ (ok f', c')
      → n ≡ 0
  unfolding check_and_settle
  check_and_settle-inv ctx p r f f' b ws n c c' e =
      let checked = if n == 0 then lacking X ctx p ws r.wanted else lift (ok 0) in
      let (short, _, e') =
        bind-inv checked
          (λ short. if n + short == 0 then settle X ctx p r f b else lift (err swap_dto_validation))
          c c' f' e in
      elim (Bool-cases (n + short == 0)) [
        | inl t ↦ ground (arith, t)
        | inr t ↦ absurd (ground (arith, rw t at e'))
      ]

  fill_request-errors :
      (ctx : Context) (p : FillTokenSwapParams X) (f f' : TokenSwapFill number) (b : Bool)
      (r : TokenSwapRequest number) (c c' : StubCache stub)
      → fill_request X ctx p f b r c ≡ (ok f', c')
      → (m : ℕ) × (request_errors X ctx p r m ≡ 0)
  unfolding fill_request
  fill_request-errors ctx p f f' b r c c' e =
      let (u, _, e₁) =
        lift-inv (validate_token_swap_fill X r p.expected_token_swap)
          (λ u. do
            offered ← instances_or_none X r.offered
            wanted ← instances_or_none X r.wanted
            check_and_settle X ctx p r f b wanted.0
                (u + request_errors X ctx p r (offered.1 + wanted.1)))
          c c' f' e in
      let (o, _, e₂) =
        bind-inv (instances_or_none X r.offered)
          (λ offered. do
            wanted ← instances_or_none X r.wanted
            check_and_settle X ctx p r f b wanted.0
                (u + request_errors X ctx p r (offered.1 + wanted.1)))
          c c' f' e₁ in
      let (w, _, e₃) =
        bind-inv (instances_or_none X r.wanted)
          (λ wanted.
            check_and_settle X ctx p r f b wanted.0 (u + request_errors X ctx p r (o.1 + wanted.1)))
          (instances_or_none X r.offered c).1 c' f' e₂ in
      let zero_ =
        check_and_settle-inv ctx p r f f' b w.0 (u + request_errors X ctx p r (o.1 + w.1))
          (instances_or_none X r.wanted (instances_or_none X r.offered c).1).1 c' e₃ in
      (o.1 + w.1, omega (arith, zero_))

  -- A swap that a user fills with success was read from the world state, was offered by someone else
  -- and not to a third user, and has not expired; the uses filled are positive, and with them no more
  -- uses are spent than the swap has.
  pub fill_token_swap-bounds :
      (ctx : Context) (p : FillTokenSwapParams X) (c : StubCache stub) (f : TokenSwapFill number)
      → (fill_token_swap X ctx p c).0 ≡ ok f
      → (r : TokenSwapRequest number) × ((get_object_by_key stub X.swaps p.swap_request_id c).0
          ≡ ok r)
        × (pos 0 <ℤ units p.uses)
        × (units (filled X r (new_fill X ctx p)).uses_spent ≤ℤ units r.uses)
        × (eqb p.filled_by r.offered_by ≡ false)
        × (is_for_another X r.offered_to p.filled_by ≡ false)
        × ((not (r.expires == 0) && leb r.expires ctx.tx_unix_time) ≡ false)
  unfolding fill_token_swap validate_or_reject new_fill
  fill_token_swap-bounds ctx p c f e =
      let c' = (fill_token_swap X ctx p c).1 in
      let n = new_fill X ctx p in
      let fetch = get_object_by_key stub X.swaps p.swap_request_id in
      let go = λ (user : Text). fetch >>= fill_request X ctx p n (not (eqb p.filled_by user)) in
      let (_, _, e₁) =
        bind-inv (validate_or_reject stub X.fills n) (λ _. lift (calling_user ctx) >>= go) c c' f
          (ap (λ r. (r, c')) e) in
      let (user, _, e₂) = lift-inv (calling_user ctx) go c c' f e₁ in
      let (r, found, e₃) =
        bind-inv fetch (fill_request X ctx p n (not (eqb p.filled_by user))) c c' f e₂ in
      let (m, none_) =
        fill_request-errors ctx p n f (not (eqb p.filled_by user)) r (fetch c).1 c' e₃ in
      let (u, for_, self, live) = request_errors-parts ctx p r m none_ in
      let (positive, within) = uses_errors-bounds r n u in
      (r, found, positive, within, self, for_, live)
