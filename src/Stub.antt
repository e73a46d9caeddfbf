-- ===== src/Stub.antt =====
-- The world state of a channel behind Hyperledger Fabric's `ChaincodeStub`, as an interface: the
-- library `fabric-shim` is not part of the repository. `StubCache` of
-- chaincode/src/types/GalaChainStub.ts stands in the modules below.
pub mod Cache
pub mod View
pub mod Flush
pub mod Scan
use galachain_sdk.Base.{ℕ, ◌≡◌, Bool, List, [], Text, eqb, if◌then◌else◌}

-- A `Uint8Array`.
abbrev pub Bytes : Type 0
Bytes = List ℕ

pub record ChaincodeStub : Type 1 where
  pub State : Type 0
  -- an absent key has the empty array
  pub get_state : State → Text → Bytes
  pub put_state : Text → Bytes → State → State
  pub delete_state : Text → State → State
  pub create_composite_key : Text → List Text → Text
  -- `getStateByPartialCompositeKey`, in the order of the keys
  pub get_state_by_partial_composite_key : State → Text → List Text → List (Text × Bytes)
  -- `getStateByRange`, in the order of the keys
  pub get_state_by_range : State → Text → Text → List (Text × Bytes)
  -- `getSignedProposal().proposal.header.channelHeader.epoch`
  pub channel_epoch : State → ℕ
  pub invoke_chaincode : State → Text → List Text → Text → Bytes
  pub get_tx_id : State → Text
  pub get-put :
      (k j : Text) (v : Bytes) (s : State)
      → get_state (put_state k v s) j ≡ (if eqb k j then v else get_state s j)
  pub get-delete :
      (k j : Text) (s : State)
      → get_state (delete_state k s) j ≡ (if eqb k j then [] else get_state s j)
