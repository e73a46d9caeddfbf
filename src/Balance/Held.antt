-- ===== src/Balance/Held.antt =====
-- The locked quantity as a sum of integers: it does not depend on the order of the holds.
use galachain_sdk.Base.{
  ◌≡◌, refl, ◌∙◌, Bool, true, false, Option, none, ◌||◌, any, inl, inr, not, List, [], ◌∷◌, ◌++◌, ℕ,
  arith, filter, All, some,
}
use galachain_sdk.Base.Int.{ℤ, pos, ◌+ℤ◌, int_laws}
use galachain_sdk.Numeric.{BigNumber, plus_parts, units_zero_parts}
use galachain_sdk.Balance.Sort.{insert_by, sort_onto, sort}
use galachain_sdk.Balance.Hold.{TokenHold, is_expired}
use galachain_sdk.Balance.Account.{TokenBalance, or_empty, get_unexpired_locked_holds}
use galachain_sdk.Balance.AtOnce.{vests_at_once, held_quantity-cases, vests_at_once-live}
use galachain_sdk.Balance.Fungible.{
  plus_or_nan, held_quantity, sum_held, get_current_locked_quantity,
}

module _ (B : BigNumber) (now : ℕ) where
  abbrev units_or_zero : Option B.Num → ℤ
  units_or_zero none = pos 0
  units_or_zero (some q) = B.units q

  -- what the holds lock at the time `now`, but for those that vest at once
  unfoldable pub held : List (TokenHold B) → ℤ
  held [] = pos 0
  held (h ∷ hs) = units_or_zero (held_quantity B h now) +ℤ held hs

  abbrev pub some_vest : List (TokenHold B) → Bool
  some_vest = any (vests_at_once B now)

  pub held-append : (xs ys : List (TokenHold B)) → held (xs ++ ys) ≡ held xs +ℤ held ys
  unfolding held
  held-append [] ys = omega int_laws
  held-append (x ∷ xs) ys = grind (int_laws, held-append xs ys)

  -- A sum with NaN in it is NaN.
  sum_held-undefined : (hs : List (TokenHold B)) → sum_held B now none hs ≡ none
  unfolding sum_held plus_or_nan
  sum_held-undefined [] = refl
  sum_held-undefined (h ∷ hs) = sum_held-undefined hs

  sum_held-next :
      (acc q : B.Num) (h : TokenHold B) (hs : List (TokenHold B))
      → held_quantity B h now ≡ some q
      → sum_held B now (some acc) (h ∷ hs) ≡ sum_held B now (some (B.plus acc q)) hs
  unfolding sum_held plus_or_nan
  sum_held-next acc q h hs e = rw e refl

  sum_held-stop :
      (acc : B.Num) (h : TokenHold B) (hs : List (TokenHold B))
      → held_quantity B h now ≡ none
      → sum_held B now (some acc) (h ∷ hs) ≡ none
  unfolding sum_held plus_or_nan
  sum_held-stop acc h hs e = rw e (sum_held-undefined hs)

  sum_held-nan :
      (acc : B.Num) (hs : List (TokenHold B))
      → some_vest hs ≡ true
      → sum_held B now (some acc) hs ≡ none
  sum_held-nan acc [] t = absurd (ground arith)
  sum_held-nan acc (h ∷ hs) t = elim (held_quantity-cases B now h) [
    | inl (_, e) ↦ sum_held-stop acc h hs e
    | inr (f, q, e) ↦ sum_held-next acc q h hs e ∙ sum_held-nan (B.plus acc q) hs (rw f at t)
  ]

  pub sum_held-eq :
      (acc : B.Num) (hs : List (TokenHold B))
      → some_vest hs ≡ false
      → (l : B.Num) × (sum_held B now (some acc) hs ≡ some l) × (B.units l ≡ B.units acc +ℤ held hs)
  unfolding sum_held held
  sum_held-eq acc [] f = (acc, refl, omega int_laws)
  sum_held-eq acc (h ∷ hs) f = elim (held_quantity-cases B now h) [
    | inl (t, _) ↦ absurd (ground (arith, t, f))
    | inr (t, q, e) ↦
        let (l, sum, eq) = sum_held-eq (B.plus acc q) hs (rw t at f) in
        (l, sum_held-next acc q h hs e ∙ sum, eq ∙ rw e (omega (int_laws, plus_parts B acc q)))
  ]

  some_vest-filter :
      (hs : List (TokenHold B))
      → some_vest (filter (λ h. not (is_expired B h now)) hs) ≡ some_vest hs
  some_vest-filter [] = refl
  some_vest-filter (h ∷ hs) = ground (arith, some_vest-filter hs, vests_at_once-live B now h)

  -- does a hold of the balance vest at once
  unfoldable pub vests_now : TokenBalance B → Bool
  unfolding or_empty
  vests_now b = some_vest (or_empty b.locked_holds)

  pub some_vest-unexpired :
      (b : TokenBalance B) → some_vest (get_unexpired_locked_holds B b now) ≡ vests_now b
  unfolding get_unexpired_locked_holds vests_now
  some_vest-unexpired b = some_vest-filter (or_empty b.locked_holds)

  -- The locked quantity is NaN if a hold vests at once, and otherwise the sum.
  pub locked-nan :
      (b : TokenBalance B) → vests_now b ≡ true → get_current_locked_quantity B b now ≡ none
  unfolding get_current_locked_quantity
  locked-nan b t =
      sum_held-nan (B.of_ℕ 0) (get_unexpired_locked_holds B b now) (some_vest-unexpired b ∙ t)

  pub locked-eq-held :
      (b : TokenBalance B)
      → vests_now b ≡ false
      → (l : B.Num) × (get_current_locked_quantity B b now ≡ some l)
        × (B.units l ≡ held (get_unexpired_locked_holds B b now))
  unfolding get_current_locked_quantity
  locked-eq-held b f =
      let (l, e, sum) =
        sum_held-eq (B.of_ℕ 0) (get_unexpired_locked_holds B b now) (some_vest-unexpired b ∙ f) in
      (l, e, sum ∙ omega (int_laws, units_zero_parts B))

  held-insert_by :
      (cmp : TokenHold B → TokenHold B → ℤ) (h : TokenHold B) (hs : List (TokenHold B))
      → held (insert_by cmp h hs) ≡ units_or_zero (held_quantity B h now) +ℤ held hs
  unfolding held insert_by
  held-insert_by cmp h [] = refl
  held-insert_by cmp h (e ∷ es) = grind (int_laws, held-insert_by cmp h es)

  held-sort_onto :
      (cmp : TokenHold B → TokenHold B → ℤ) (done hs : List (TokenHold B))
      → held (sort_onto cmp done hs) ≡ held done +ℤ held hs
  unfolding held sort_onto
  held-sort_onto cmp done [] = omega int_laws
  held-sort_onto cmp done (h ∷ hs) =
      held-sort_onto cmp (insert_by cmp h done) hs ∙ rw (held-insert_by cmp h done) (omega int_laws)

  pub held-sort :
      (cmp : TokenHold B → TokenHold B → ℤ) (hs : List (TokenHold B)) → held (sort cmp hs) ≡ held hs
  unfolding sort held
  held-sort cmp hs = held-sort_onto cmp [] hs ∙ omega int_laws

  some_vest-insert_by :
      (cmp : TokenHold B → TokenHold B → ℤ) (h : TokenHold B) (hs : List (TokenHold B))
      → some_vest (insert_by cmp h hs) ≡ (vests_at_once B now h || some_vest hs)
  unfolding insert_by
  some_vest-insert_by cmp h [] = refl
  some_vest-insert_by cmp h (e ∷ es) = ground (arith, some_vest-insert_by cmp h es)

  some_vest-sort_onto :
      (cmp : TokenHold B → TokenHold B → ℤ) (done hs : List (TokenHold B))
      → some_vest (sort_onto cmp done hs) ≡ (some_vest done || some_vest hs)
  unfolding sort_onto
  some_vest-sort_onto cmp done [] = ground arith
  some_vest-sort_onto cmp done (h ∷ hs) =
      some_vest-sort_onto cmp (insert_by cmp h done) hs
      ∙ rw (some_vest-insert_by cmp h done) (ground arith)

  pub some_vest-sort :
      (cmp : TokenHold B → TokenHold B → ℤ) (hs : List (TokenHold B))
      → some_vest (sort cmp hs) ≡ some_vest hs
  unfolding sort
  some_vest-sort cmp hs = some_vest-sort_onto cmp [] hs

  -- holds that have not expired
  abbrev pub AreLive : List (TokenHold B) → Type 0
  AreLive = All (λ h. is_expired B h now ≡ false)

  pub filter-live :
      (hs : List (TokenHold B)) → AreLive hs → filter (λ h. not (is_expired B h now)) hs ≡ hs
  filter-live [] l = refl
  filter-live (h ∷ hs) l = ground (arith, filter-live hs l.1)

  pub live-filter : (hs : List (TokenHold B)) → AreLive (filter (λ h. not (is_expired B h now)) hs)
  live-filter [] = tt
  live-filter (h ∷ hs) = ground (arith, live-filter hs)

  AreLive-insert_by :
      (cmp : TokenHold B → TokenHold B → ℤ) (h : TokenHold B) (hs : List (TokenHold B))
      → is_expired B h now ≡ false
      → AreLive hs
      → AreLive (insert_by cmp h hs)
  unfolding insert_by
  AreLive-insert_by cmp h [] l ls = (l, tt)
  AreLive-insert_by cmp h (e ∷ es) l ls = ground (arith, AreLive-insert_by cmp h es l ls.1)

  AreLive-sort_onto :
      (cmp : TokenHold B → TokenHold B → ℤ) (done hs : List (TokenHold B))
      → AreLive done
      → AreLive hs
      → AreLive (sort_onto cmp done hs)
  unfolding sort_onto
  AreLive-sort_onto cmp done [] d l = d
  AreLive-sort_onto cmp done (h ∷ hs) d l =
      AreLive-sort_onto cmp (insert_by cmp h done) hs (AreLive-insert_by cmp h done l.0 d) l.1

  pub AreLive-sort :
      (cmp : TokenHold B → TokenHold B → ℤ) (hs : List (TokenHold B))
      → AreLive hs
      → AreLive (sort cmp hs)
  unfolding sort
  AreLive-sort cmp hs l = AreLive-sort_onto cmp [] hs tt l

  pub unexpired-AreLive : (b : TokenBalance B) → AreLive (get_unexpired_locked_holds B b now)
  unfolding get_unexpired_locked_holds
  unexpired-AreLive b = live-filter (or_empty b.locked_holds)

  -- a balance whose holds are all live shows them all
  pub unexpired-of_live :
      (b : TokenBalance B) (hs : List (TokenHold B))
      → b.locked_holds ≡ some hs
      → AreLive hs
      → get_unexpired_locked_holds B b now ≡ hs
  unfolding get_unexpired_locked_holds or_empty
  unexpired-of_live b hs e l = rw e (filter-live hs l)
