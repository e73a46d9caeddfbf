-- ===== src/Balance/Sort.antt =====
-- `Array.prototype.sort` with a comparator, as an insertion sort: an element goes before the first
-- one that the comparator puts after it.
use galachain_sdk.Base.{◌≡◌, refl, false, List, [], ◌∷◌, ◌++◌, if◌then◌else◌, ap, ◌∙◌}
use mathlib.Core.List.{append-nil, append_assoc}
use galachain_sdk.Base.Int.{ℤ, pos, ltb_ℤ}

module _ {ℓ} {A : Type ℓ} where
  unfoldable pub insert_by : (A → A → ℤ) → A → List A → List A
  insert_by cmp x [] = x ∷ []
  insert_by cmp x (e ∷ es) = if ltb_ℤ (cmp x e) (pos 0) then x ∷ e ∷ es else e ∷ insert_by cmp x es

  unfoldable pub sort_onto : (A → A → ℤ) → List A → List A → List A
  unfolding insert_by
  sort_onto cmp done [] = done
  sort_onto cmp done (x ∷ xs) = sort_onto cmp (insert_by cmp x done) xs

  unfoldable pub sort : (A → A → ℤ) → List A → List A
  unfolding sort_onto
  sort cmp xs = sort_onto cmp [] xs

module _ {ℓ} {A : Type ℓ} where
  -- A comparator that never answers below zero leaves the elements where they are.
  insert_by-last :
      (cmp : A → A → ℤ) (x : A) (es : List A)
      → ((a b : A) → ltb_ℤ (cmp a b) (pos 0) ≡ false)
      → insert_by cmp x es ≡ es ++ x ∷ []
  unfolding insert_by
  insert_by-last cmp x [] h = refl
  insert_by-last cmp x (e ∷ es) h = rw (h x e) (ap (λ r. e ∷ r) (insert_by-last cmp x es h))

  sort_onto-constant :
      (cmp : A → A → ℤ) (done xs : List A)
      → ((a b : A) → ltb_ℤ (cmp a b) (pos 0) ≡ false)
      → sort_onto cmp done xs ≡ done ++ xs
  unfolding sort_onto
  sort_onto-constant cmp done [] h = rw append-nil
  sort_onto-constant cmp done (x ∷ xs) h =
      sort_onto-constant cmp (insert_by cmp x done) xs h
      ∙ rw (insert_by-last cmp x done h) (simp append_assoc)

  pub sort-constant :
      (cmp : A → A → ℤ) (xs : List A)
      → ((a b : A) → ltb_ℤ (cmp a b) (pos 0) ≡ false)
      → sort cmp xs ≡ xs
  unfolding sort
  sort-constant cmp xs h = sort_onto-constant cmp [] xs h
