-- ===== src/Supply.antt =====
-- Counting a supply from the entries of a range of the world state, the newest first. The three
-- functions that do so are chaincode/src/mint/fetchMintSupply.ts,
-- chaincode/src/mint/fetchMintAllowanceSupply.ts and `fetchKnownBurnCount` of
-- chaincode/src/burns/fetchBurns.ts; they differ in the class of the entries and in the offset.
pub mod Count
use galachain_sdk.Base.{
  ℕ, zero, suc, Bool, true, false, ◌&&◌, not, Option, none, some, List, [], ◌∷◌, ◌++◌, Text, text,
  leb, if◌then◌else◌,
}
use galachain_sdk.Errors.{Result, ok, err, range_query_failed}
use galachain_sdk.Stub.{Bytes}
use galachain_sdk.State.{Serial, Action}
use galachain_sdk.Keys.{join}
use galachain_sdk.Tokens.{TokenClassKey, Amount, finite, infinite}
use galachain_sdk.Tokens.Counters.{TokenBurnCounter, TokenMintRequest, TokenMintAllowanceRequest}
use galachain_sdk.Context.{Context}
use galachain_sdk.Ledger.{Chain}
use galachain_sdk.Allowances.Amount.{amount_plus, amount_greater}
use galachain_sdk.Utils.{
  pad_start, inverse_time, inverse_key_length, lookback_tx_count, lookback_time_offset,
}

-- The loop over the iterator: `previous` has the entries so far, the oldest first. It stops at 200
-- entries, once there is one.
module _ {E : Type 0} (c : Serial E) where
  unfoldable pub previous_requests : Bool → ℕ → List E → List (Text × Bytes) → Result (List E)
  previous_requests seeking count previous [] = ok previous
  previous_requests seeking count previous ((k, bytes) ∷ rest) =
      if not seeking && leb lookback_tx_count count
      then ok previous
      else elim (c.deserialize bytes) [
        | none ↦ err range_query_failed
        | some entry ↦ previous_requests false (suc count) (entry ∷ previous) rest
      ]

-- The loop over the entries, the oldest first. The known count of the first is the base line, if it
-- is greater than zero.
module _ {N E : Type 0} (zero_ : N) (plus : N → N → N) (is_greater_than : N → N → Bool)
    (total quantity : E → N) where
  unfoldable pub known_count : Bool → N → List E → N
  known_count first updated [] = updated
  known_count first updated (entry ∷ rest) =
      known_count false
        (plus (if first && is_greater_than (total entry) zero_ then total entry else updated)
          (quantity entry))
        rest

module _ (W : Chain) where
  open W use {stub, number}
  open number use {Num, of_ℕ, plus, is_greater_than}

  abbrev class_parts : Text → TokenClassKey → List Text
  class_parts index_key k = index_key ∷ k.collection ∷ k.category ∷ k.type ∷ k.additional_key ∷ []

  unfoldable pub start_key : Text → TokenClassKey → Text → Text
  unfolding join pad_start
  start_key index_key k time_key =
      join (0 ∷ [])
        (class_parts index_key k ++ time_key ∷ pad_start [] inverse_key_length b'0' ∷ [])

  unfoldable pub end_key : Text → TokenClassKey → Text
  unfolding join pad_start
  end_key index_key k = join (0 ∷ []) (
      class_parts index_key k
      ++ pad_start [] inverse_key_length b'z' ∷ pad_start [] inverse_key_length b'z' ∷ [])

  -- the entries of the range; the range is read past the cache
  unfoldable pub entries_since :
      {E : Type 0} → Serial E → Text → TokenClassKey → Text → Action stub (List E)
  unfolding previous_requests start_key end_key
  entries_since c index_key k time_key s = (
    previous_requests c true 0 []
        (stub.get_state_by_range s.stub (start_key index_key k time_key) (end_key index_key k)),
    s,
  )

  abbrev pub map_result : {A C : Type 0} → (A → C) → Result A → Result C
  map_result f (ok a) = ok (f a)
  map_result f (err e) = err e

  unfoldable pub fetch_known_burn_count : Context → TokenClassKey → Action stub Num
  unfolding entries_since known_count inverse_time
  fetch_known_burn_count ctx k s = (
    map_result
        (known_count (of_ℕ 0) plus is_greater_than
          (λ (e : TokenBurnCounter number). e.total_known_burns_count) (λ e. e.quantity) true
          (of_ℕ 0))
        (entries_since W.burn_counters (text "GCTBRC") k (inverse_time W ctx lookback_time_offset)
          s).0,
    s,
  )

  -- `offsetCurrentTimeMs ?? lookbackTimeOffset`
  abbrev pub offset_or_default : Option ℕ → ℕ
  offset_or_default none = lookback_time_offset
  offset_or_default (some offset) = offset

  unfoldable pub fetch_mint_supply : Context → TokenClassKey → Option ℕ → Action stub Num
  unfolding entries_since known_count inverse_time
  fetch_mint_supply ctx k offset s = (
    map_result
        (known_count (of_ℕ 0) plus is_greater_than
          (λ (e : TokenMintRequest number). e.total_known_mints_count) (λ e. e.quantity) true
          (of_ℕ 0))
        (entries_since W.mint_requests (text "GCTMR") k
          (inverse_time W ctx (offset_or_default offset)) s).0,
    s,
  )

  unfoldable pub fetch_mint_allowance_supply :
      Context → TokenClassKey → Option ℕ → Action stub (Amount number)
  unfolding entries_since known_count inverse_time amount_plus amount_greater
  fetch_mint_allowance_supply ctx k offset s = (
    map_result
        (known_count (finite (of_ℕ 0)) (amount_plus number) (amount_greater number)
          (λ (e : TokenMintAllowanceRequest number). e.total_known_mint_allowances_count)
          (λ e. e.quantity) true (finite (of_ℕ 0)))
        (entries_since W.mint_allowance_requests (text "GCTMAR") k
          (inverse_time W ctx (offset_or_default offset)) s).0,
    s,
  )
