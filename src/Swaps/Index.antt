-- ===== src/Swaps/Index.antt =====
-- The index objects that requestTokenSwap (chaincode/src/swaps/requestTokenSwap.ts) writes for queries.
use galachain_sdk.Base.{Option, none, some, List, [], ◌∷◌, Text, text}
use galachain_sdk.Errors.{ok}
use galachain_sdk.State.{Serial, Action, lift, ◌>>◌, put_chain_object, validate_or_reject}
use galachain_sdk.Keys.{composite_key}
use galachain_sdk.Swaps.{
  SwapChain, TokenInstanceQuantity, TokenSwapRequest, TokenSwapRequestInstance,
  TokenSwapRequestUser,
}

module _ (X : SwapChain) where
  open X use {chain}
  open chain use {stub, number}

  unfoldable pub index_instance :
      TokenInstanceQuantity number → Text → TokenSwapRequestInstance number
  index_instance t id = record {
    collection = t.token_instance.collection;
    category = t.token_instance.category;
    type = t.token_instance.type;
    additional_key = t.token_instance.additional_key;
    instance_ = t.token_instance.instance_;
    swap_request_id = id;
  }

  unfoldable pub index_instance_key : Text → TokenSwapRequestInstance number → Text
  unfolding composite_key
  index_instance_key index o = composite_key index (
      o.collection
      ∷ o.category
      ∷ o.type
      ∷ o.additional_key
      ∷ chain.number_fixed o.instance_
      ∷ o.swap_request_id
      ∷ [])

  -- the codec and the index key are those of what is offered or of what is wanted
  unfoldable pub put_index_instances :
      Serial (TokenSwapRequestInstance number)
      → Text
      → Text
      → List (TokenInstanceQuantity number)
      → Action stub (Unit {0})
  unfolding index_instance index_instance_key validate_or_reject put_chain_object
  put_index_instances codec index id [] = lift (ok tt)
  put_index_instances codec index id (t ∷ ts) = do
    let o = index_instance t id
    validate_or_reject stub codec o
    put_chain_object stub codec (index_instance_key index o) o
    put_index_instances codec index id ts

  unfoldable pub put_index_user :
      Serial (TokenSwapRequestUser number) → Text → Text → Text → Action stub (Unit {0})
  unfolding composite_key validate_or_reject put_chain_object
  put_index_user codec index user id = do
    let o : TokenSwapRequestUser number = record { user = user; swap_request_id = id }
    validate_or_reject stub codec o
    put_chain_object stub codec (composite_key index (user ∷ id ∷ [])) o

  unfoldable pub put_offered_to : Option Text → Text → Action stub (Unit {0})
  unfolding put_index_user
  put_offered_to none id = lift (ok tt)
  put_offered_to (some user) id = put_index_user X.offered_to_users (text "GCTSROT") user id

  unfoldable pub put_index_objects : TokenSwapRequest number → Action stub (Unit {0})
  unfolding put_index_instances put_index_user put_offered_to
  put_index_objects r = do
    put_index_instances X.offered_instances (text "GCTSRIO") r.swap_request_id r.offered
    put_index_instances X.wanted_instances (text "GCTSRIW") r.swap_request_id r.wanted
    put_index_user X.offered_by_users (text "GCTSROB") r.offered_by r.swap_request_id
    put_offered_to r.offered_to r.swap_request_id
