-- ===== src/Burns/Grouped.antt =====
-- What the aggregation of burns gives: each token once, with all that was asked of it.
use galachain_sdk.Base.{
  ℕ, suc, ◌≡◌, refl, ◌∙◌, Bool, true, false, Option, none, some, List, [], ◌∷◌, Text, eqb, eqb_iff,
  length, arith, Bool-cases, inl, inr, if◌then◌else◌,
}
use galachain_sdk.Base.Int.{ℤ, pos, ◌+ℤ◌, +ℤ_zero, int_laws, eq_of_parts}
use galachain_sdk.Base.Dict.{Dict, lookup, insert, lookup-insert}
use galachain_sdk.Ledger.{Chain}
use galachain_sdk.Burns.Aggregate.{
  BurnTokenQuantity, aggregation_key, index_of, add_at, aggregate, aggregate_burn_quantities,
}

abbrev one_more : Option ℕ → Option ℕ
one_more none = none
one_more (some i) = some (suc i)

-- two quantities of one token, and two of tokens that may differ
sum_same :
    (t : Bool) (a b r : ℤ)
    → (if t then a +ℤ b +ℤ r else r)
      ≡ (if t then b +ℤ (if t then a +ℤ r else r) else if t then a +ℤ r else r)
sum_same true a b r = eq_of_parts (a +ℤ b +ℤ r) (b +ℤ (a +ℤ r)) (omega int_laws)
sum_same false a b r = refl

sum_other :
    (t u : Bool) (a b r : ℤ)
    → (if t then a +ℤ (if u then b +ℤ r else r) else if u then b +ℤ r else r)
      ≡ (if u then b +ℤ (if t then a +ℤ r else r) else if t then a +ℤ r else r)
sum_other true true a b r = eq_of_parts (a +ℤ (b +ℤ r)) (b +ℤ (a +ℤ r)) (omega int_laws)
sum_other true false a b r = refl
sum_other false u a b r = refl

sum_shift : (t : Bool) (q r u : ℤ) → r +ℤ (if t then q +ℤ u else u) ≡ (if t then q +ℤ r else r) +ℤ u
sum_shift true q r u = eq_of_parts (r +ℤ (q +ℤ u)) (q +ℤ r +ℤ u) (omega int_laws)
sum_shift false q r u = refl

module _ (W : Chain) where
  open W use {number}
  open number use {plus, units}

  abbrev pub key : BurnTokenQuantity W → Text
  key = aggregation_key W

  -- The reference: the first element with the key is looked for.
  unfoldable pub add_to :
      BurnTokenQuantity W → List (BurnTokenQuantity W) → List (BurnTokenQuantity W)
  add_to b [] = b ∷ []
  add_to b (x ∷ xs) =
      let rest = add_to b xs in
      if eqb (key x) (key b)
      then record x { quantity = plus x.quantity b.quantity } ∷ xs
      else x ∷ rest

  unfoldable pub grouped_onto :
      List (BurnTokenQuantity W) → List (BurnTokenQuantity W) → List (BurnTokenQuantity W)
  unfolding add_to
  grouped_onto summed [] = summed
  grouped_onto summed (b ∷ bs) = grouped_onto (add_to b summed) bs

  abbrev pub position : Text → List (BurnTokenQuantity W) → Option ℕ
  position k [] = none
  position k (x ∷ xs) = let rest = position k xs in if eqb (key x) k then some 0 else one_more rest

  key-plus : (x : BurnTokenQuantity W) (q : number.Num) → key (record x { quantity = q }) ≡ key x
  unfolding aggregation_key
  key-plus x q = refl

  index_of-more : (o : Option ℕ) (n : ℕ) → index_of W (one_more o) (suc n) ≡ suc (index_of W o n)
  unfolding index_of
  index_of-more none n = refl
  index_of-more (some i) n = refl

  add_at-position :
      (b : BurnTokenQuantity W) (xs : List (BurnTokenQuantity W))
      → add_at W (index_of W (position (key b) xs) (length xs)) b xs ≡ add_to b xs
  unfolding add_at add_to index_of
  add_at-position b [] = refl
  add_at-position b (x ∷ xs) =
      let rest = add_at-position b xs in
      elim (Bool-cases (eqb (key x) (key b))) [
        | inl e ↦ rw e refl
        | inr e ↦ rw e (rw (index_of-more (position (key b) xs) (length xs)) (rw rest refl))
      ]

  add_to-same :
      (b x : BurnTokenQuantity W) (xs : List (BurnTokenQuantity W))
      → eqb (key x) (key b) ≡ true
      → add_to b (x ∷ xs) ≡ record x { quantity = plus x.quantity b.quantity } ∷ xs
  unfolding add_to
  add_to-same b x xs e = rw e refl

  add_to-other :
      (b x : BurnTokenQuantity W) (xs : List (BurnTokenQuantity W))
      → eqb (key x) (key b) ≡ false
      → add_to b (x ∷ xs) ≡ x ∷ add_to b xs
  unfolding add_to
  add_to-other b x xs e = rw e refl

  position-add_to :
      (j : Text) (b : BurnTokenQuantity W) (xs : List (BurnTokenQuantity W))
      → position j (add_to b xs) ≡ (
          if eqb (key b) j
          then some (index_of W (position (key b) xs) (length xs))
          else position j xs)
  unfolding add_to index_of
  position-add_to j b [] = ground arith
  position-add_to j b (x ∷ xs) =
      let rest = position-add_to j b xs in
      let more = index_of-more (position (key b) xs) (length xs) in
      elim (Bool-cases (eqb (key x) (key b))) [
        | inl e ↦
            rw (add_to-same b x xs e)
              (ground (arith, e, key-plus x (plus x.quantity b.quantity), eqb_iff (key x) (key b)))
        | inr e ↦ rw (add_to-other b x xs e) (
            ground
              (arith, e, rest, more, eqb_iff (key x) j, eqb_iff (key b) j, eqb_iff (key x) (key b)))
      ]

  aggregate-grouped :
      (hash : Dict ℕ) (summed bs : List (BurnTokenQuantity W))
      → ((k : Text) → lookup k hash ≡ position k summed)
      → aggregate W hash summed bs ≡ grouped_onto summed bs
  unfolding aggregate grouped_onto
  aggregate-grouped hash summed [] h = refl
  aggregate-grouped hash summed (b ∷ bs) h =
      let i = index_of W (lookup (key b) hash) (length summed) in
      let same : add_at W i b summed ≡ add_to b summed =
        rw (h (key b)) (add_at-position b summed) in
      rw same (
        aggregate-grouped (insert (key b) i hash) (add_to b summed) bs (λ k.
          rw (lookup-insert (key b) k i hash)
            (rw (position-add_to k b summed) (rw (h (key b)) (rw (h k) refl)))))

  -- how much of the token with a key is in a list
  abbrev pub total_of : Text → List (BurnTokenQuantity W) → ℤ
  total_of k [] = pos 0
  total_of k (x ∷ xs) =
      let rest = total_of k xs in if eqb (key x) k then units x.quantity +ℤ rest else rest

  total_of-add_to :
      (k : Text) (b : BurnTokenQuantity W) (xs : List (BurnTokenQuantity W))
      → total_of k (add_to b xs) ≡ total_of k (b ∷ xs)
  unfolding add_to
  total_of-add_to k b [] = refl
  total_of-add_to k b (x ∷ xs) =
      let rest = total_of-add_to k b xs in
      elim (Bool-cases (eqb (key x) (key b))) [
        | inl e ↦ rw (add_to-same b x xs e) (
            rw (key-plus x (plus x.quantity b.quantity)) (
              rw (number.units-plus x.quantity b.quantity) (
                rw ((eqb_iff (key x) (key b)).0 e) (
                  sum_same (eqb (key b) k) (units x.quantity) (units b.quantity) (total_of k xs)))))
        | inr e ↦ rw (add_to-other b x xs e) (
            rw rest (
              sum_other (eqb (key x) k) (eqb (key b) k) (units x.quantity) (units b.quantity)
                (total_of k xs)))
      ]

  -- Every key is there once.
  abbrev pub HasEachOnce : List (BurnTokenQuantity W) → Type 0
  HasEachOnce [] = Unit
  HasEachOnce (x ∷ xs) = (position (key x) xs ≡ none) × HasEachOnce xs

  add_to-HasEachOnce :
      (b : BurnTokenQuantity W) (xs : List (BurnTokenQuantity W))
      → HasEachOnce xs
      → HasEachOnce (add_to b xs)
  unfolding add_to
  add_to-HasEachOnce b [] h = (refl, tt)
  add_to-HasEachOnce b (x ∷ xs) h = elim (Bool-cases (eqb (key x) (key b))) [
    | inl e ↦ rw (add_to-same b x xs e) (rw (key-plus x (plus x.quantity b.quantity)) h)
    | inr e ↦
        let rest = add_to-HasEachOnce b xs h.1 in
        rw (add_to-other b x xs e) (
          (
            rw (position-add_to (key x) b xs)
                (ground (arith, e, eqb_iff (key x) (key b), eqb_iff (key b) (key x), h.0)),
            rest,
          ))
  ]

  total_of-grouped :
      (k : Text) (summed bs : List (BurnTokenQuantity W))
      → total_of k (grouped_onto summed bs) ≡ total_of k bs +ℤ total_of k summed
  unfolding grouped_onto
  total_of-grouped k summed [] =
      eq_of_parts (total_of k summed) (pos 0 +ℤ total_of k summed) (omega int_laws)
  total_of-grouped k summed (b ∷ bs) =
      total_of-grouped k (add_to b summed) bs
      ∙ rw (total_of-add_to k b summed)
          (sum_shift (eqb (key b) k) (units b.quantity) (total_of k bs) (total_of k summed))

  grouped-HasEachOnce :
      (summed bs : List (BurnTokenQuantity W))
      → HasEachOnce summed
      → HasEachOnce (grouped_onto summed bs)
  unfolding grouped_onto
  grouped-HasEachOnce summed [] h = h
  grouped-HasEachOnce summed (b ∷ bs) h =
      grouped-HasEachOnce (add_to b summed) bs (add_to-HasEachOnce b summed h)

  -- Looking a token up in the index gives what a search for the first element with its key gives.
  pub aggregate_burn_quantities-grouped :
      (requests : List (BurnTokenQuantity W))
      → aggregate_burn_quantities W requests ≡ grouped_onto [] requests
  unfolding aggregate_burn_quantities lookup
  aggregate_burn_quantities-grouped requests = aggregate-grouped [] [] requests (λ k. refl)

  -- The aggregated list has each key once, and under each key the sum of what the requests with that
  -- key ask for.
  pub aggregate_burn_quantities-sums :
      (requests : List (BurnTokenQuantity W))
      → HasEachOnce (aggregate_burn_quantities W requests)
        × ((k : Text) → total_of k (aggregate_burn_quantities W requests) ≡ total_of k requests)
  aggregate_burn_quantities-sums requests = rw (aggregate_burn_quantities-grouped requests) (
    grouped-HasEachOnce [] requests tt,
    λ k. total_of-grouped k [] requests ∙ +ℤ_zero (total_of k requests),
  )

  -- two requests with one key
  pub grouped-pair :
      (b d : BurnTokenQuantity W)
      → key b ≡ key d
      → aggregate_burn_quantities W (b ∷ d ∷ [])
        ≡ record b { quantity = plus b.quantity d.quantity } ∷ []
  unfolding grouped_onto add_to
  grouped-pair b d e =
      aggregate_burn_quantities-grouped (b ∷ d ∷ []) ∙ rw ((eqb_iff (key b) (key d)).1 e) refl
