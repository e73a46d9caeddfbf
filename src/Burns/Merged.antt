-- ===== src/Burns/Merged.antt =====
-- Tokens that the aggregation of burns takes for one.
use galachain_sdk.Base.{ℕ, ◌<◌, ◌≡◌, ap, [], ◌∷◌, ◌++◌, Text, length, arith}
use mathlib.Core.List.{append_assoc}
use galachain_sdk.Keys.{join}
use galachain_sdk.Tokens.{TokenInstanceKey}
use galachain_sdk.Ledger.{Chain, build_instance_key_list}
use galachain_sdk.Burns.Aggregate.{BurnTokenQuantity, aggregation_key, aggregate_burn_quantities}
use galachain_sdk.Burns.Grouped.{grouped-pair}

length-append-lt : (a c : Text) (x : ℕ) → length a < length (a ++ x ∷ c)
length-append-lt [] c x = omega arith
length-append-lt (y ∷ a) c x = omega (arith, length-append-lt a c x)

module _ (W : Chain) where
  open W use {number}
  open number use {Num, plus}

  -- `a_c` and `d`, and `a` and `c_d`, where `a` is the collection of the key
  abbrev pub moved_left : TokenInstanceKey number → Text → Text → TokenInstanceKey number
  moved_left k c d = record k { collection = k.collection ++ b'_' ∷ c; category = d }

  abbrev pub moved_right : TokenInstanceKey number → Text → Text → TokenInstanceKey number
  moved_right k c d = record k { category = c ++ b'_' ∷ d }

  same-key :
      (k : TokenInstanceKey number) (c d : Text) (p q : Num)
      → aggregation_key W (record { token_instance_key = moved_left k c d; quantity = p })
        ≡ aggregation_key W (record { token_instance_key = moved_right k c d; quantity = q })
  unfolding aggregation_key join build_instance_key_list
  same-key k c d p q = simp append_assoc

  -- A token with the collection `a_c` and the category `d` differs from the one with `a` and `c_d` and
  -- the other parts the same, but requests to burn the two are aggregated to one of the first token,
  -- with the sum of the quantities.
  pub aggregate_burn_quantities-merges :
      (k : TokenInstanceKey number) (c d : Text) (p q : Num)
      → let first : BurnTokenQuantity W = record {
        token_instance_key = moved_left k c d;
        quantity = p;
      } in
        let other : BurnTokenQuantity W = record {
          token_instance_key = moved_right k c d;
          quantity = q;
        } in
        (¬ (first.token_instance_key ≡ other.token_instance_key))
        × (aggregate_burn_quantities W (first ∷ other ∷ [])
            ≡ record first { quantity = plus p q } ∷ [])
  aggregate_burn_quantities-merges k c d p q = (
    λ e.
        let lengths = ap (λ t. length t.collection) e in
        absurd (omega (arith, lengths, length-append-lt k.collection c b'_')),
    grouped-pair W _ _ (same-key k c d p q),
  )
