-- ===== src/Allowances/Fetch.antt =====
-- chaincode/src/allowances/fetchAllowances.ts and deleteAllowances.ts, with the allowance's chain key.
use galachain_sdk.Base.{
  ◌&&◌, not, Option, none, some, List, [], ◌∷◌, Text, text, eqb, length, filter, ltb, leb,
  if◌then◌else◌,
}
use galachain_sdk.Base.Int.{ℤ, pos, negsuc}
use galachain_sdk.Errors.{ok, err, invalid_allowance_users}
use galachain_sdk.Balance.Sort.{sort}
use galachain_sdk.State.{
  Action, lift, ◌>>=◌, delete_chain_object, get_objects_by_partial_composite_key,
}
use galachain_sdk.Keys.{composite_key}
use galachain_sdk.Tokens.{TokenAllowance, AllowanceType, type_number}
use galachain_sdk.Ledger.{Chain, take_until_undefined}

module _ (W : Chain) where
  open W use {stub, number, ℕ_text, number_fixed}

  unfoldable pub allowance_key : TokenAllowance number → Text
  unfolding composite_key type_number
  allowance_key a = composite_key (text "GCTA") (
      a.granted_to
      ∷ a.collection
      ∷ a.category
      ∷ a.type
      ∷ a.additional_key
      ∷ number_fixed a.instance_
      ∷ ℕ_text (type_number a.allowance_type)
      ∷ a.granted_by
      ∷ ℕ_text a.created
      ∷ [])

  -- `(a.created < b.created ? -1 : 1)`
  unfoldable pub by_created : TokenAllowance number → TokenAllowance number → ℤ
  by_created a b = if ltb a.created b.created then negsuc 0 else pos 1

  -- an empty or missing grantor filters nothing
  unfoldable pub filter_by_granted_by :
      List (TokenAllowance number) → Option Text → List (TokenAllowance number)
  filter_by_granted_by results none = results
  filter_by_granted_by results (some []) = results
  filter_by_granted_by results (some (c ∷ cs)) = filter (λ x. eqb x.granted_by (c ∷ cs)) results

  pub record FetchAllowancesParams : Type 0 where
    pub granted_to : Text
    pub collection : Option Text
    pub category : Option Text
    pub type : Option Text
    pub additional_key : Option Text
    pub instance_ : Option Text
    pub allowance_type : Option AllowanceType
    pub granted_by : Option Text

  -- `data.allowanceType?.toString()`, and the grantor only behind a type
  abbrev type_text : Option AllowanceType → Option Text
  type_text none = none
  type_text (some t) = some (ℕ_text (type_number t))

  abbrev granted_by_part : Option AllowanceType → Option Text → Option Text
  granted_by_part none by = none
  granted_by_part (some t) by = by

  unfoldable pub fetch_allowances :
      FetchAllowancesParams → Action stub (List (TokenAllowance number))
  unfolding take_until_undefined get_objects_by_partial_composite_key filter_by_granted_by
      by_created sort type_number
  fetch_allowances p = do
    query ← lift (
        take_until_undefined (
          some p.granted_to
          ∷ p.collection
          ∷ p.category
          ∷ p.type
          ∷ p.additional_key
          ∷ p.instance_
          ∷ type_text p.allowance_type
          ∷ granted_by_part p.allowance_type p.granted_by
          ∷ []))
    found ← get_objects_by_partial_composite_key stub W.allowances (text "GCTA") query
    lift (
        ok (
          if leb 8 (length query)
          then sort by_created found
          else sort by_created (filter_by_granted_by found p.granted_by)))

  unfoldable pub delete_one_allowance : TokenAllowance number → Text → Action stub (Unit {0})
  unfolding delete_chain_object allowance_key
  delete_one_allowance a user =
      if not (eqb a.granted_by user) && not (eqb a.granted_to user)
      then lift (err invalid_allowance_users)
      else delete_chain_object stub (allowance_key a)
