-- ===== src/Balance/Instances.antt =====
-- NFT balances: what they hold stays well-formed as instances come and go.
use galachain_sdk.Base.{
  ◌≡◌, refl, ◌∙◌, Bool, true, false, not, none, some, List, [], ◌∷◌, ◌++◌, ℕ, arith, filter, any,
  find, if◌then◌else◌, length, ap,
}
use galachain_sdk.Numeric.{BigNumber}
use galachain_sdk.Errors.{ok}
use galachain_sdk.Balance.Sort.{sort, sort-constant}
use galachain_sdk.Balance.Hold.{TokenHold}
use galachain_sdk.Balance.Account.{
  TokenBalance, or_empty, get_unexpired_locked_holds, contains_instance,
}
use galachain_sdk.Balance.Nft.{
  is_instance_locked, ensure_instance_is_nft, ensure_instance_is_in_balance,
  ensure_instance_is_not_locked, add_instance, remove_instance,
}

module _ (B : BigNumber) where
  open B use {Num, of_ℕ, is_equal_to, units}

  -- Every id is one of an NFT instance, and no two are equal; the quantity counts them.
  abbrev pub AreInstances : List Num → Type 0
  AreInstances [] = Unit
  AreInstances (x ∷ xs) =
      (ensure_instance_is_nft B x ≡ ok tt)
      × (any (λ y. is_equal_to y x) xs ≡ false)
      × AreInstances xs

  abbrev pub IsNftBalance : TokenBalance B → Type 0
  IsNftBalance b =
      AreInstances (or_empty b.instance_ids)
      × (b.quantity ≡ of_ℕ (length (or_empty b.instance_ids)))

  add_instance-inv :
      (b : TokenBalance B) (id : Num) (b' : TokenBalance B)
      → add_instance B b id ≡ ok b'
      → let ids = sort (λ (i j : Num). B.compared_to i i) (or_empty b.instance_ids ++ id ∷ []) in
        (ensure_instance_is_nft B id ≡ ok tt)
        × (any (λ x. is_equal_to x id) (or_empty b.instance_ids) ≡ false)
        × (b' ≡ record b { instance_ids = some ids; quantity = of_ℕ (length ids) })
  unfolding add_instance contains_instance
  add_instance-inv b id b' e = ground arith

  -- A successful addition puts the instance behind the others, whatever its id, since the comparator
  -- of the sort compares an id with itself; the holds stay.
  pub add_instance-appends :
      (b : TokenBalance B) (id : Num) (b' : TokenBalance B)
      → add_instance B b id ≡ ok b'
      → (b'.instance_ids ≡ some (or_empty b.instance_ids ++ id ∷ []))
        × (b'.locked_holds ≡ b.locked_holds)
  add_instance-appends b id b' e =
      let (_, _, eq) = add_instance-inv b id b' e in
      rw eq (
        ap some (
            sort-constant (λ (i j : Num). B.compared_to i i) (or_empty b.instance_ids ++ id ∷ [])
              (λ x y. rw (B.compared_to_self x))),
        refl,
      )

  equal-sym : (x y : Num) → is_equal_to x y ≡ is_equal_to y x
  equal-sym x y =
      ground (arith, B.equal_units x y, B.equal_units y x, B.units_equal x y, B.units_equal y x)

  any-last :
      (p : Num → Bool) (xs : List Num) (x : Num)
      → any p xs ≡ false
      → p x ≡ false
      → any p (xs ++ x ∷ []) ≡ false
  any-last p [] x h e = ground arith
  any-last p (y ∷ ys) x h e = ground (arith, any-last p ys x)

  AreInstances-append :
      (xs : List Num) (id : Num)
      → AreInstances xs
      → ensure_instance_is_nft B id ≡ ok tt
      → any (λ x. is_equal_to x id) xs ≡ false
      → AreInstances (xs ++ id ∷ [])
  AreInstances-append [] id h n f = (n, refl, tt)
  AreInstances-append (x ∷ xs) id h n f =
      let e : is_equal_to id x ≡ false = rw (equal-sym id x) (ground arith) in
      (
        h.0,
        any-last (λ y. is_equal_to y x) xs id h.1 e,
        AreInstances-append xs id h.2 n (ground arith),
      )

  any-filter : (p q : Num → Bool) (xs : List Num) → any p xs ≡ false → any p (filter q xs) ≡ false
  any-filter p q [] h = h
  any-filter p q (x ∷ xs) h = ground (arith, any-filter p q xs)

  AreInstances-filter :
      (q : Num → Bool) (xs : List Num) → AreInstances xs → AreInstances (filter q xs)
  AreInstances-filter q [] h = tt
  AreInstances-filter q (x ∷ xs) h =
      elim (q x) as (λ t. AreInstances (if t then x ∷ filter q xs else filter q xs)) [
        | true ↦ (h.0, any-filter (λ y. is_equal_to y x) q xs h.1, AreInstances-filter q xs h.2)
        | false ↦ AreInstances-filter q xs h.2
      ]

  any-removed :
      (id : Num) (xs : List Num)
      → any (λ x. is_equal_to x id) (filter (λ x. not (is_equal_to x id)) xs) ≡ false
  any-removed id [] = refl
  any-removed id (x ∷ xs) = ground (arith, any-removed id xs)

  filter-absent :
      (id : Num) (xs : List Num)
      → any (λ x. is_equal_to x id) xs ≡ false
      → filter (λ x. not (is_equal_to x id)) (xs ++ id ∷ []) ≡ xs
  filter-absent id [] h = ground (arith, B.units_equal id id)
  filter-absent id (x ∷ xs) h = ground (arith, filter-absent id xs)

  any_self : (id : Num) (xs : List Num) → any (λ x. is_equal_to x id) (xs ++ id ∷ []) ≡ true
  any_self id [] = ground (arith, B.units_equal id id)
  any_self id (x ∷ xs) = ground (arith, any_self id xs)

  -- A successful addition keeps an NFT balance well-formed, and the balance then contains the
  -- instance.
  pub add_instance-IsNftBalance :
      (b : TokenBalance B) (id : Num) (b' : TokenBalance B)
      → IsNftBalance b
      → add_instance B b id ≡ ok b'
      → IsNftBalance b' × (contains_instance B b' id ≡ true)
  unfolding or_empty contains_instance
  add_instance-IsNftBalance b id b' (w, _) e =
      let (nft, absent, eq) = add_instance-inv b id b' e in
      let ids = or_empty b.instance_ids in
      let ordered =
        sort-constant (λ (i j : Num). B.compared_to i i) (ids ++ id ∷ [])
          (λ x y. rw (B.compared_to_self x)) in
      rw eq (rw ordered ((AreInstances-append ids id w nft absent, refl), any_self id ids))

  find-any :
      (p : TokenHold B → Bool) (hs : List (TokenHold B)) → find p hs ≡ none → any p hs ≡ false
  find-any p [] e = refl
  find-any p (h ∷ hs) e = ground (arith, find-any p hs)

  any-find :
      (p : TokenHold B → Bool) (hs : List (TokenHold B)) → any p hs ≡ false → find p hs ≡ none
  any-find p [] e = refl
  any-find p (h ∷ hs) e = ground (arith, any-find p hs)

  remove_instance-inv :
      (b : TokenBalance B) (id : Num) (now : ℕ) (b' : TokenBalance B)
      → remove_instance B b id now ≡ ok b'
      → let ids = filter (λ (x : Num). not (is_equal_to x id)) (or_empty b.instance_ids) in
        (contains_instance B b id ≡ true)
        × (any (λ h. is_equal_to h.instance_id id) (get_unexpired_locked_holds B b now) ≡ false)
        × (b' ≡ record b { instance_ids = some ids; quantity = of_ℕ (length ids) })
  unfolding remove_instance ensure_instance_is_in_balance ensure_instance_is_not_locked
  remove_instance-inv b id now b' e = ground (
    arith,
    find-any (λ (h : TokenHold B). is_equal_to h.instance_id id)
        (get_unexpired_locked_holds B b now),
  )

  -- A successful removal keeps an NFT balance well-formed; the balance contained the instance, with
  -- no live hold on it, and does not contain it any more.
  pub remove_instance-IsNftBalance :
      (b : TokenBalance B) (id : Num) (now : ℕ) (b' : TokenBalance B)
      → IsNftBalance b
      → remove_instance B b id now ≡ ok b'
      → IsNftBalance b'
        × (contains_instance B b id ≡ true)
        × (is_instance_locked B b id now ≡ false)
        × (contains_instance B b' id ≡ false)
  unfolding is_instance_locked or_empty
  remove_instance-IsNftBalance b id now b' (w, _) e =
      let (found, free, eq) = remove_instance-inv b id now b' e in
      let ids = or_empty b.instance_ids in
      rw eq (
        (AreInstances-filter (λ x. not (is_equal_to x id)) ids w, refl),
        found,
        free,
        unfold contains_instance in any-removed id ids,
      )

  remove_instance-removes :
      (b : TokenBalance B) (id : Num) (now : ℕ)
      → ensure_instance_is_nft B id ≡ ok tt
      → contains_instance B b id ≡ true
      → is_instance_locked B b id now ≡ false
      → let ids = filter (λ (x : Num). not (is_equal_to x id)) (or_empty b.instance_ids) in
        remove_instance B b id now
        ≡ ok (record b { instance_ids = some ids; quantity = of_ℕ (length ids) })
  unfolding remove_instance ensure_instance_is_in_balance ensure_instance_is_not_locked
      is_instance_locked
  remove_instance-removes b id now nft found free = ground (
    arith,
    any-find (λ (h : TokenHold B). is_equal_to h.instance_id id)
        (get_unexpired_locked_holds B b now) free,
  )

  same_balance :
      (b : TokenBalance B) (ids : List Num) (q : Num)
      → b.instance_ids ≡ some ids
      → b.quantity ≡ q
      → record b { instance_ids = some ids; quantity = q } ≡ b
  same_balance b ids q i e = rw (← i) (rw (← e) refl)

  abbrev grown : TokenBalance B → Num → TokenBalance B
  grown b id = record b {
    instance_ids = some (or_empty b.instance_ids ++ id ∷ []);
    quantity = of_ℕ (length (or_empty b.instance_ids ++ id ∷ []));
  }

  -- Removing an instance right after it was added, with no live hold on it, gives back the balance
  -- of before, if that was well-formed and had a list of instances.
  pub remove-add_instance :
      (b : TokenBalance B) (id : Num) (now : ℕ) (b' : TokenBalance B) (ids : List Num)
      → IsNftBalance b
      → b.instance_ids ≡ some ids
      → is_instance_locked B b id now ≡ false
      → add_instance B b id ≡ ok b'
      → remove_instance B b' id now ≡ ok b
  unfolding or_empty contains_instance is_instance_locked get_unexpired_locked_holds
  remove-add_instance b id now b' ids (w, q) i free e =
      let (nft, absent, eq) = add_instance-inv b id b' e in
      let xs = or_empty b.instance_ids in
      let ordered =
        sort-constant (λ (i j : Num). B.compared_to i i) (xs ++ id ∷ [])
          (λ x y. rw (B.compared_to_self x)) in
      rw eq (
        rw ordered (
          remove_instance-removes (grown b id) id now nft (any_self id xs) free
          ∙ rw (filter-absent id xs absent)
              (ap ok (same_balance b xs (of_ℕ (length xs)) (rw i) q))))
