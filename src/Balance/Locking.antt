-- ===== src/Balance/Locking.antt =====
-- Locking an NFT instance: a locked instance stays where it is.
use galachain_sdk.Base.{
  ◌≡◌, refl, Bool, true, false, some, List, [], ◌∷◌, ◌++◌, ℕ, arith, All-append, find, Bool-cases,
  inl, inr,
}
use galachain_sdk.Numeric.{BigNumber}
use galachain_sdk.Errors.{ok, err, token_locked}
use galachain_sdk.Balance.Hold.{TokenHold, is_expired}
use galachain_sdk.Balance.Account.{TokenBalance, get_unexpired_locked_holds, contains_instance}
use galachain_sdk.Balance.Held.{AreLive, unexpired-AreLive, unexpired-of_live}
use galachain_sdk.Balance.Nft.{
  ensure_instance_is_nft, ensure_instance_is_in_balance, ensure_instance_is_not_locked,
  remove_instance, lock_instance,
}

module _ (B : BigNumber) where
  open B use {Num, of_ℕ, is_equal_to, units}

  lock_instance-inv :
      (b : TokenBalance B) (h : TokenHold B) (now : ℕ) (b' : TokenBalance B)
      → lock_instance B b h now ≡ ok b'
      → (ensure_instance_is_nft B h.instance_id ≡ ok tt)
        × (contains_instance B b h.instance_id ≡ true)
        × (b' ≡ record b { locked_holds = some (get_unexpired_locked_holds B b now ++ h ∷ []) })
  unfolding lock_instance ensure_instance_is_in_balance
  lock_instance-inv b h now b' e = ground arith

  find-last :
      (p : TokenHold B → Bool) (hs : List (TokenHold B)) (h : TokenHold B)
      → p h ≡ true
      → (x : TokenHold B) × (find p (hs ++ h ∷ []) ≡ some x)
  find-last p [] h e = (h, ground arith)
  find-last p (y ∷ ys) h e = elim (Bool-cases (p y)) [
    | inl t ↦ (y, ground arith)
    | inr t ↦ let (x, f) = find-last p ys h e in (x, ground arith)
  ]

  remove_instance-refuses :
      (b : TokenBalance B) (id : Num) (now : ℕ) (x : TokenHold B)
      → ensure_instance_is_nft B id ≡ ok tt
      → contains_instance B b id ≡ true
      → find
          (λ (h : TokenHold B). is_equal_to h.instance_id id)
          (get_unexpired_locked_holds B b now)
        ≡ some x
      → remove_instance B b id now ≡ err token_locked
  unfolding remove_instance ensure_instance_is_in_balance ensure_instance_is_not_locked
  remove_instance-refuses b id now x nft found locked = ground arith

  -- An instance that was locked by a hold that has not expired cannot be removed.
  pub lock_instance-locks :
      (b : TokenBalance B) (h : TokenHold B) (now : ℕ) (b' : TokenBalance B)
      → is_expired B h now ≡ false
      → lock_instance B b h now ≡ ok b'
      → remove_instance B b' h.instance_id now ≡ err token_locked
  unfolding contains_instance
  lock_instance-locks b h now b' live e =
      let (nft, found, eq) = lock_instance-inv b h now b' e in
      let hs = get_unexpired_locked_holds B b now in
      let c : TokenBalance B = record b { locked_holds = some (hs ++ h ∷ []) } in
      let lives : AreLive B now (hs ++ h ∷ []) =
        All-append (λ x. is_expired B x now ≡ false) hs (h ∷ []) (unexpired-AreLive B now b)
          (live, tt) in
      let (x, locked) =
        find-last (λ k. is_equal_to k.instance_id h.instance_id) hs h
          (B.units_equal h.instance_id h.instance_id refl) in
      let shown = unexpired-of_live B now c (hs ++ h ∷ []) refl lives in
      rw eq (remove_instance-refuses c h.instance_id now x nft found (rw shown locked))
