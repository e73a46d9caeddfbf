-- ===== src/Balance/Nft.antt =====
-- The NFT half of `class TokenBalance` (chain-api/src/types/TokenBalance.ts): instances come, go,
-- and are locked under a name. A method returns the changed balance, or throws.
use galachain_sdk.Base.{
  ℕ, Bool, not, ◌&&◌, ◌||◌, ◌==◌, Option, none, some, [], ◌∷◌, ◌++◌, Text, filter, any, find,
  length,
}
use galachain_sdk.Numeric.{BigNumber}
use galachain_sdk.Balance.Sort.{sort}
use galachain_sdk.Balance.Hold.{TokenHold, matches}
use galachain_sdk.Balance.Account.{
  TokenBalance, or_empty, get_unexpired_locked_holds, contains_instance,
}
use galachain_sdk.Errors.{
  Result, ok, err, ◌>>=◌, ◌>>◌, throw_if, instance_already_in_balance, invalid_instance_id,
  token_not_in_balance, token_locked, token_not_locked,
}

module _ (B : BigNumber) where
  open B use {Num, of_ℕ, is_equal_to, is_negative, is_zero, is_integer, compared_to}

  unfoldable pub ensure_instance_is_nft : Num → Result (Unit {0})
  ensure_instance_is_nft id =
      throw_if (is_negative id || is_zero id || not (is_integer id)) invalid_instance_id

  unfoldable pub ensure_instance_is_in_balance : TokenBalance B → Num → Result (Unit {0})
  ensure_instance_is_in_balance b id =
      throw_if (not (contains_instance B b id)) token_not_in_balance

  unfoldable pub is_instance_locked : TokenBalance B → Num → ℕ → Bool
  is_instance_locked b id now =
      any (λ h. is_equal_to h.instance_id id) (get_unexpired_locked_holds B b now)

  unfoldable pub is_instance_spendable : TokenBalance B → Num → ℕ → Bool
  unfolding is_instance_locked
  is_instance_spendable b id now = contains_instance B b id && not (is_instance_locked b id now)

  unfoldable pub ensure_instance_is_not_locked : TokenBalance B → Num → ℕ → Result (Unit {0})
  ensure_instance_is_not_locked b id now =
      elim (find (λ h. is_equal_to h.instance_id id) (get_unexpired_locked_holds B b now)) [
        | none ↦ ok tt
        | some h ↦ err token_locked
      ]

  unfoldable pub find_locked_hold :
      TokenBalance B → Num → Option Text → ℕ → Result (Option (TokenHold B))
  unfolding ensure_instance_is_nft
  find_locked_hold b id name now = do
    ensure_instance_is_nft id
    ok (find (λ h. matches B h id name) (get_unexpired_locked_holds B b now))

  unfoldable pub ensure_instance_is_not_locked_with_the_same_name :
      TokenBalance B → Num → Option Text → ℕ → Result (Unit {0})
  unfolding find_locked_hold
  ensure_instance_is_not_locked_with_the_same_name b id name now = do
    hold ← find_locked_hold b id name now
    elim hold [ none ↦ ok tt | some h ↦ err token_locked ]

  -- The comparator of `sort` compares its first argument with itself.
  unfoldable pub add_instance : TokenBalance B → Num → Result (TokenBalance B)
  unfolding ensure_instance_is_nft or_empty
  add_instance b id = do
    ensure_instance_is_nft id
    throw_if (contains_instance B b id) instance_already_in_balance
    let ids = sort (λ (i j : Num). compared_to i i) (or_empty b.instance_ids ++ id ∷ [])
    ok (record b { instance_ids = some ids; quantity = of_ℕ (length ids) })

  unfoldable pub remove_instance : TokenBalance B → Num → ℕ → Result (TokenBalance B)
  unfolding ensure_instance_is_nft ensure_instance_is_in_balance ensure_instance_is_not_locked
      or_empty
  remove_instance b id now = do
    ensure_instance_is_nft id
    ensure_instance_is_in_balance b id
    ensure_instance_is_not_locked b id now
    let ids = filter (λ (x : Num). not (is_equal_to x id)) (or_empty b.instance_ids)
    ok (record b { instance_ids = some ids; quantity = of_ℕ (length ids) })

  unfoldable pub lock_instance : TokenBalance B → TokenHold B → ℕ → Result (TokenBalance B)
  unfolding ensure_instance_is_nft ensure_instance_is_in_balance
      ensure_instance_is_not_locked_with_the_same_name
  lock_instance b hold now = do
    ensure_instance_is_nft hold.instance_id
    ensure_instance_is_in_balance b hold.instance_id
    ensure_instance_is_not_locked_with_the_same_name b hold.instance_id hold.name now
    ok (record b { locked_holds = some (get_unexpired_locked_holds B b now ++ hold ∷ []) })

  unfoldable pub unlock_instance : TokenBalance B → Num → Option Text → ℕ → Result (TokenBalance B)
  unlock_instance b id name now = do
    let unexpired = get_unexpired_locked_holds B b now
    let updated = filter (λ (h : TokenHold B). not (matches B h id name)) unexpired
    throw_if (length unexpired == length updated) token_not_locked
    ok (record b { locked_holds = some updated })

  unfoldable pub clear_holds : TokenBalance B → Num → ℕ → Result (TokenBalance B)
  unfolding ensure_instance_is_nft
  clear_holds b id now = do
    ensure_instance_is_nft id
    ok (record b {
      locked_holds =
          some
            (filter (λ h. not (is_equal_to h.instance_id id)) (get_unexpired_locked_holds B b now));
    })
