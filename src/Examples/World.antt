-- ===== src/Examples/World.antt =====
-- A world state that is a dictionary: it shows that the laws of the stub can hold.
use galachain_sdk.Base.{
  Bool, true, false, ◌&&◌, not, ◌∷◌, ltb, ◌≡◌, none, some, [], Text, text, eqb, filter,
  if◌then◌else◌, arith,
}
use galachain_sdk.Base.Dict.{Dict, lookup, insert, remove, lookup-insert, lookup-remove}
use galachain_sdk.Keys.{composite_key}
use galachain_sdk.Stub.{Bytes, ChaincodeStub}
use galachain_sdk.Stub.Cache.{starts_with}

unfoldable pub read : Dict Bytes → Text → Bytes
unfolding lookup
read d k = elim (lookup k d) [ none ↦ [] | some v ↦ v ]

pub read-insert :
    (k j : Text) (v : Bytes) (d : Dict Bytes)
    → read (insert k v d) j ≡ (if eqb k j then v else read d j)
unfolding read
read-insert k j v d = ground (arith, lookup-insert k j v d)

pub read-remove :
    (k j : Text) (d : Dict Bytes) → read (remove k d) j ≡ (if eqb k j then [] else read d j)
unfolding read
read-remove k j d = ground (arith, lookup-remove k j d)

-- the order of the keys
abbrev comes_before : Text → Text → Bool
comes_before [] [] = false
comes_before [] (d ∷ ds) = true
comes_before (c ∷ cs) [] = false
comes_before (c ∷ cs) (d ∷ ds) =
    if ltb c d then true else if ltb d c then false else comes_before cs ds

abbrev place : Text × Bytes → Dict Bytes → Dict Bytes
place e [] = e ∷ []
place e (f ∷ d) = let rest = place e d in if comes_before e.0 f.0 then e ∷ f ∷ d else f ∷ rest

abbrev in_order : Dict Bytes → Dict Bytes
in_order [] = []
in_order (e ∷ d) = place e (in_order d)

abbrev pub world : ChaincodeStub
world = record {
  State = Dict Bytes;
  get_state = read;
  put_state = insert;
  delete_state = remove;
  create_composite_key = composite_key;
  get_state_by_partial_composite_key = λ d object_type attributes.
      filter (λ e. starts_with e.0 (composite_key object_type attributes)) d;
  get_state_by_range = λ d start end.
      in_order (filter (λ e. not (comes_before e.0 start) && comes_before e.0 end) d);
  channel_epoch = λ d. 0;
  invoke_chaincode = λ d name args channel. [];
  get_tx_id = λ d. text "tx";
  get-put = read-insert;
  get-delete = read-remove;
}
