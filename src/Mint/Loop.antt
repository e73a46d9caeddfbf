-- ===== src/Mint/Loop.antt =====
-- The loop that makes NFT instances: its fuel is enough, and the instances it makes are numbered on.
use galachain_sdk.Base.{
  ℕ, zero, suc, ◌+◌, ◌≤◌, ◌*◌, ◌≡◌, subst, refl, sym, ◌∙◌, ap, true, false, List, [], ◌∷◌, Text,
  arith, Bool-cases, inl, inr,
}
use galachain_sdk.Base.Int.{ℤ, pos, ◌+ℤ◌}
use galachain_sdk.Numeric.{test_of_le, le_of_test}
use galachain_sdk.Errors.{Result, ok, err, ◌>>=◌}
use galachain_sdk.Balance.Account.{TokenBalance}
use galachain_sdk.Balance.Nft.{add_instance}
use galachain_sdk.Tokens.{TokenClassKey, TokenInstance}
use galachain_sdk.Ledger.{Chain}
use galachain_sdk.Mint.Nft.{Minted, max_nft_mint_size, mint_nfts, new_nft, prepend}

zero_plus : (i : ℕ) → 0 + i ≡ i
zero_plus i = omega arith

suc_plus : (n i : ℕ) → suc n + i ≡ n + suc i
suc_plus n i = omega arith

abbrev value : {A : Type 0} → A → Result A → A
value d (ok a) = a
value d (err e) = d

times_mono : (a b c : ℕ) → a ≤ b → a * c ≤ b * c
times_mono a b c h = grind arith

one_times : (n : ℕ) → 1 * n ≡ n
one_times n = omega arith

bind-same :
    {A C : Type 0} (r : Result A) (f g : A → Result C)
    → ((a : A) → f a ≡ g a)
    → (r >>= f) ≡ (r >>= g)
bind-same (ok a) f g h = h a
bind-same (err e) f g h = refl

bind-ok :
    {A C : Type 0} (r : Result A) (f : A → Result C) (c : C)
    → (r >>= f) ≡ ok c
    → (a : A) × (r ≡ ok a) × (f a ≡ ok c)
bind-ok (ok a) f c e = (a, refl, e)
bind-ok (err x) f c e = cc

module _ (W : Chain) where
  open W use {number}
  open number use {Num, of_ℕ, plus, is_less_than, is_greater_than, units}

  -- the loop stands where its test fails
  mint_nfts-stops :
      (k : TokenClassKey) (owner : Text) (quantity : Num) (fuel i : ℕ) (supply : Num)
      (b : TokenBalance number)
      → is_less_than (of_ℕ i) quantity ≡ false
      → mint_nfts W k owner quantity fuel i supply b
        ≡ ok (record { total_supply = supply; balance = b; instances = [] })
  unfolding mint_nfts
  mint_nfts-stops k owner quantity zero i supply b h = refl
  mint_nfts-stops k owner quantity (suc fuel) i supply b h = rw (h, mint_nfts) refl

  mint_nfts-goes :
      (k : TokenClassKey) (owner : Text) (quantity : Num) (fuel i : ℕ) (supply : Num)
      (b : TokenBalance number)
      → is_less_than (of_ℕ i) quantity ≡ true
      → mint_nfts W k owner quantity (suc fuel) i supply b ≡ (
          add_instance number b (plus supply (of_ℕ 1)) >>= λ b'.
          prepend W
            (new_nft W k owner (plus supply (of_ℕ 1)))
            (mint_nfts W k owner quantity fuel (suc i) (plus supply (of_ℕ 1)) b'))
  unfolding mint_nfts
  mint_nfts-goes k owner quantity fuel i supply b h = rw (h, mint_nfts) refl

  -- Two amounts of fuel that reach the end give the same.
  mint_nfts-same :
      (k : TokenClassKey) (owner : Text) (quantity : Num) (fuel fuel' i : ℕ) (supply : Num)
      (b : TokenBalance number)
      → is_less_than (of_ℕ (fuel + i)) quantity ≡ false
      → is_less_than (of_ℕ (fuel' + i)) quantity ≡ false
      → mint_nfts W k owner quantity fuel i supply b ≡ mint_nfts W k owner quantity fuel' i supply b
  unfolding mint_nfts
  mint_nfts-same k owner quantity zero fuel' i supply b h h' =
      sym (mint_nfts-stops k owner quantity fuel' i supply b (rw (sym (zero_plus i)) h))
  mint_nfts-same k owner quantity (suc fuel) zero i supply b h h' =
      mint_nfts-stops k owner quantity (suc fuel) i supply b (rw (sym (zero_plus i)) h')
  mint_nfts-same k owner quantity (suc fuel) (suc fuel') i supply b h h' =
      let id = plus supply (of_ℕ 1) in
      elim (Bool-cases (is_less_than (of_ℕ i) quantity)) [
        | inr e ↦
            mint_nfts-stops k owner quantity (suc fuel) i supply b e
            ∙ sym (mint_nfts-stops k owner quantity (suc fuel') i supply b e)
        | inl e ↦
            mint_nfts-goes k owner quantity fuel i supply b e
            ∙ bind-same (add_instance number b id)
                (λ b'.
                  prepend W (new_nft W k owner id)
                    (mint_nfts W k owner quantity fuel (suc i) id b'))
                (λ b'.
                  prepend W (new_nft W k owner id)
                    (mint_nfts W k owner quantity fuel' (suc i) id b'))
                (λ b'. ap (prepend W (new_nft W k owner id)) (
                  mint_nfts-same k owner quantity fuel fuel' (suc i) id b'
                    (rw (sym (suc_plus fuel i)) h) (rw (sym (suc_plus fuel' i)) h')))
            ∙ sym (mint_nfts-goes k owner quantity fuel' i supply b e)
      ]

  enough :
      (quantity : Num) (fuel : ℕ)
      → is_greater_than quantity (of_ℕ max_nft_mint_size) ≡ false
      → max_nft_mint_size ≤ fuel
      → is_less_than (of_ℕ (fuel + 0)) quantity ≡ false
  enough quantity fuel h le =
      let bound =
        le_of_test number (of_ℕ max_nft_mint_size) quantity
          (sym (number.greater_than quantity (of_ℕ max_nft_mint_size)) ∙ h) in
      let mono = times_mono max_nft_mint_size (fuel + 0) number.one (omega arith) in
      test_of_le number (of_ℕ (fuel + 0)) quantity (
        ground
          (arith, bound, mono, number.units-of_ℕ max_nft_mint_size, number.units-of_ℕ (fuel + 0)))

  -- The loop ends before its fuel: for a quantity of at most 1000, more fuel gives the same.
  pub mint_nfts-ends :
      (k : TokenClassKey) (owner : Text) (quantity : Num) (fuel : ℕ) (supply : Num)
      (b : TokenBalance number)
      → is_greater_than quantity (of_ℕ max_nft_mint_size) ≡ false
      → max_nft_mint_size ≤ fuel
      → mint_nfts W k owner quantity fuel 0 supply b
        ≡ mint_nfts W k owner quantity max_nft_mint_size 0 supply b
  mint_nfts-ends k owner quantity fuel supply b h le =
      mint_nfts-same k owner quantity fuel max_nft_mint_size 0 supply b (enough quantity fuel h le)
        (enough quantity max_nft_mint_size h (omega arith))

  -- The instances are numbered on from one number to another, one by one.
  abbrev pub IsNumbered : ℤ → ℤ → List (TokenInstance number) → Type 0
  IsNumbered from_ to [] = from_ ≡ to
  IsNumbered from_ to (i ∷ is) =
      (units i.instance_ ≡ from_ +ℤ pos number.one) × IsNumbered (from_ +ℤ pos number.one) to is

  units-next : (a : Num) → units (plus a (of_ℕ 1)) ≡ units a +ℤ pos number.one
  units-next a =
      rw (number.units-plus a (of_ℕ 1)) (rw (number.units-of_ℕ 1) rw (one_times number.one) refl)

  prepend-inv :
      (i : TokenInstance number) (r : Result (Minted W)) (m : Minted W)
      → prepend W i r ≡ ok m
      → (m' : Minted W) × (r ≡ ok m')
        × (m.instances ≡ i ∷ m'.instances)
        × (m.total_supply ≡ m'.total_supply)
  unfolding prepend
  prepend-inv i (ok m') m e = (m', refl, ground arith, ground arith)
  prepend-inv i (err x) m e = cc

  stopped-IsNumbered :
      (supply : Num) (b : TokenBalance number) (m : Minted W)
      → ok (record { total_supply = supply; balance = b; instances = [] }) ≡ ok m
      → IsNumbered (units supply) (units m.total_supply) m.instances
  stopped-IsNumbered supply b m e =
      subst (λ x. IsNumbered (units supply) (units x.total_supply) x.instances) (ap (value m) e)
        refl

  -- A successful loop numbers its instances on from the supply before it to the supply after it.
  pub mint_nfts-IsNumbered :
      (k : TokenClassKey) (owner : Text) (quantity : Num) (fuel i : ℕ) (supply : Num)
      (b : TokenBalance number) (m : Minted W)
      → mint_nfts W k owner quantity fuel i supply b ≡ ok m
      → IsNumbered (units supply) (units m.total_supply) m.instances
  unfolding mint_nfts
  mint_nfts-IsNumbered k owner quantity zero i supply b m e = stopped-IsNumbered supply b m e
  mint_nfts-IsNumbered k owner quantity (suc fuel) i supply b m e =
      let id = plus supply (of_ℕ 1) in
      elim (Bool-cases (is_less_than (of_ℕ i) quantity)) [
        | inr h ↦
            stopped-IsNumbered supply b m
              (sym (mint_nfts-stops k owner quantity (suc fuel) i supply b h) ∙ e)
        | inl h ↦
            let (b', _, e₁) =
              bind-ok (add_instance number b id)
                (λ b'.
                  prepend W (new_nft W k owner id)
                    (mint_nfts W k owner quantity fuel (suc i) id b'))
                m (sym (mint_nfts-goes k owner quantity fuel i supply b h) ∙ e) in
            let (m', e₂, same, total) =
              prepend-inv (new_nft W k owner id) (mint_nfts W k owner quantity fuel (suc i) id b') m
                e₁ in
            let rest = mint_nfts-IsNumbered k owner quantity fuel (suc i) id b' m' e₂ in
            rw same (
              rw total (
                units-next supply,
                subst (λ n. IsNumbered n (units m'.total_supply) m'.instances) (units-next supply)
                    rest,
              ))
      ]
