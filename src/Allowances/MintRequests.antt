-- ===== src/Allowances/MintRequests.antt =====
-- The records of granted mint allowances (chaincode/src/allowances/grantAllowance.ts), from which the
-- known supply of mint allowances is counted.
use galachain_sdk.Base.{ℕ, List, [], ◌∷◌, Text, text, ltb, if◌then◌else◌}
use galachain_sdk.Errors.{ok, err, invalid_decimal}
use galachain_sdk.State.{Action, lift, ◌>>=◌, ◌>>◌, put_chain_object, validate_or_reject}
use galachain_sdk.Keys.{composite_key, join, get_string_key_from_parts}
use galachain_sdk.Tokens.{TokenClass, Amount, finite, infinite}
use galachain_sdk.Tokens.Counters.{TokenMintAllowanceRequest, TokenMintAllowance, unknown_status}
use galachain_sdk.Context.{Context, calling_user}
use galachain_sdk.Ledger.{Chain}
use galachain_sdk.Allowances.Amount.{amount_places}
use galachain_sdk.Utils.{inverse_time, inverse_epoch}

module _ (W : Chain) where
  open W use {stub, number, number_text, number_fixed, ℕ_text}

  pub record GrantAllowanceQuantity : Type 0 where
    pub user : Text
    pub quantity : Amount number

  abbrev pub users_of : List GrantAllowanceQuantity → List Text
  users_of [] = []
  users_of (q ∷ qs) = q.user ∷ users_of qs

  -- `toString` and `toFixed` of a quantity that may be infinite
  unfoldable pub amount_text : Amount number → Text
  amount_text (finite a) = number_text a
  amount_text infinite = text "Infinity"

  unfoldable pub amount_fixed : Amount number → Text
  amount_fixed (finite a) = number_fixed a
  amount_fixed infinite = text "Infinity"

  -- `requestId`
  unfoldable pub mint_allowance_request_id : TokenMintAllowanceRequest number → Text
  unfolding get_string_key_from_parts amount_text
  mint_allowance_request_id r = get_string_key_from_parts (
      r.collection
      ∷ r.category
      ∷ r.type
      ∷ r.additional_key
      ∷ amount_text r.total_known_mint_allowances_count
      ∷ ℕ_text r.created
      ∷ r.granted_by
      ∷ r.granted_to
      ∷ [])

  -- `getRangedKey`
  unfoldable pub mint_allowance_request_key : TokenMintAllowanceRequest number → Text
  unfolding join
  mint_allowance_request_key r = join (0 ∷ []) (
      text "GCTMAR"
      ∷ r.collection
      ∷ r.category
      ∷ r.type
      ∷ r.additional_key
      ∷ r.time_key
      ∷ r.granted_to
      ∷ [])

  unfoldable pub mint_allowance_key : TokenMintAllowance number → Text
  unfolding composite_key amount_fixed
  mint_allowance_key a = composite_key (text "GCTMA") (
      a.collection
      ∷ a.category
      ∷ a.type
      ∷ a.additional_key
      ∷ amount_fixed a.total_known_mint_allowances_at_request
      ∷ a.granted_by
      ∷ a.granted_to
      ∷ ℕ_text a.created
      ∷ [])

  unfoldable pub put_mint_allowance_request :
      Context
      → GrantAllowanceQuantity
      → Amount number
      → ℕ
      → TokenClass number
      → Amount number
      → Text
      → Action stub (TokenMintAllowanceRequest number)
  unfolding calling_user inverse_time validate_or_reject put_chain_object mint_allowance_request_id
      mint_allowance_request_key amount_places
  put_mint_allowance_request ctx q uses expires c supply epoch =
      if ltb c.decimals (amount_places number q.quantity) then lift (err invalid_decimal) else do
        user ← lift (calling_user ctx)
        let fresh : TokenMintAllowanceRequest number = record {
          collection = c.collection;
          category = c.category;
          type = c.type;
          additional_key = c.additional_key;
          time_key = inverse_time W ctx 0;
          granted_to = q.user;
          total_known_mint_allowances_count = supply;
          created = ctx.tx_unix_time;
          granted_by = user;
          quantity = q.quantity;
          state = unknown_status;
          id = text "-";
          uses = uses;
          expires = expires;
          epoch = epoch;
        }
        validate_or_reject stub W.mint_allowance_requests fresh
        let r : TokenMintAllowanceRequest number = record fresh {
          id = mint_allowance_request_id fresh;
        }
        put_chain_object stub W.mint_allowance_requests (mint_allowance_request_key r) r
        lift (ok r)

  unfoldable pub put_mint_allowance_requests :
      Context
      → List GrantAllowanceQuantity
      → Amount number
      → ℕ
      → TokenClass number
      → Amount number
      → Text
      → Action stub (List (TokenMintAllowanceRequest number))
  unfolding put_mint_allowance_request
  put_mint_allowance_requests ctx [] uses expires c supply epoch = lift (ok [])
  put_mint_allowance_requests ctx (q ∷ qs) uses expires c supply epoch = do
    r ← put_mint_allowance_request ctx q uses expires c supply epoch
    rest ← put_mint_allowance_requests ctx qs uses expires c supply epoch
    lift (ok (r ∷ rest))

  unfoldable pub put_mint_allowance_requests_on_chain :
      Context
      → List GrantAllowanceQuantity
      → Amount number
      → ℕ
      → TokenClass number
      → Amount number
      → Action stub (List (TokenMintAllowanceRequest number))
  unfolding put_mint_allowance_requests inverse_epoch
  put_mint_allowance_requests_on_chain ctx qs uses expires c supply s =
      put_mint_allowance_requests ctx qs uses expires c supply (inverse_epoch W 0 s) s

  unfoldable pub put_mint_allowances_on_chain :
      Context
      → List (TokenMintAllowanceRequest number)
      → TokenClass number
      → Amount number
      → Action stub (List (TokenMintAllowance number))
  unfolding calling_user validate_or_reject put_chain_object mint_allowance_request_id
      mint_allowance_key amount_places
  put_mint_allowances_on_chain ctx [] c supply = lift (ok [])
  put_mint_allowances_on_chain ctx (r ∷ rs) c supply =
      if ltb c.decimals (amount_places number r.quantity) then lift (err invalid_decimal) else do
        user ← lift (calling_user ctx)
        let a : TokenMintAllowance number = record {
          collection = c.collection;
          category = c.category;
          type = c.type;
          additional_key = c.additional_key;
          total_known_mint_allowances_at_request = supply;
          granted_by = user;
          granted_to = r.granted_to;
          created = ctx.tx_unix_time;
          req_id = mint_allowance_request_id r;
          quantity = r.quantity;
        }
        validate_or_reject stub W.mint_allowances a
        put_chain_object stub W.mint_allowances (mint_allowance_key a) a
        rest ← put_mint_allowances_on_chain ctx rs c supply
        lift (ok (a ∷ rest))
