-- ===== src/Locks/Unlock.antt =====
-- chaincode/src/locks/unlockToken.ts: taking a hold, or a quantity off the holds.
use galachain_sdk.Base.{
  Bool, ◌||◌, Option, none, some, List, [], ◌∷◌, Text, eqb, any, if◌then◌else◌,
}
use galachain_sdk.Errors.{
  ok, err, instance_has_no_owner, unlock_forbidden_user, quantity_not_provided,
}
use galachain_sdk.Balance.Hold.{TokenHold}
use galachain_sdk.Balance.Account.{TokenBalance, is_fungible}
use galachain_sdk.Balance.Nft.{find_locked_hold, unlock_instance}
use galachain_sdk.Balance.Fungible.{unlock_quantity}
use galachain_sdk.State.{Action, lift, ◌>>=◌, ◌>>◌}
use galachain_sdk.Tokens.{TokenInstanceKey}
use galachain_sdk.Context.{Context, calling_user}
use galachain_sdk.Ledger.{
  Chain, put_balance, get_token_class_key, fetch_or_create_balance, fetch_token_instance,
  fetch_token_class,
}
use galachain_sdk.Locks.Lock.{get_or}

-- `authorities.includes(user)`
unfoldable pub includes : List Text → Text → Bool
includes ts user = any (λ t. eqb t user) ts

module _ (W : Chain) where
  open W use {stub, number}
  open number use {Num, of_ℕ, is_equal_to}

  pub record UnlockTokenParams : Type 0 where
    pub token_instance_key : TokenInstanceKey number
    pub name : Option Text
    pub quantity : Option Num
    pub owner : Option Text

  unfoldable pub unlock_fungible_token :
      Context → UnlockTokenParams → Action stub (TokenBalance number)
  unfolding calling_user get_or fetch_token_class fetch_or_create_balance unlock_quantity
      put_balance get_token_class_key includes
  unlock_fungible_token ctx p = do
    owner ← lift (elim p.owner [ none ↦ calling_user ctx | some o ↦ ok o ])
    let q : Num = get_or p.quantity (of_ℕ 0)
    if is_equal_to q (of_ℕ 0) then lift (err quantity_not_provided) else (do
      c ← fetch_token_class W (get_token_class_key W p.token_instance_key)
      user ← lift (calling_user ctx)
      b ← fetch_or_create_balance W owner (get_token_class_key W p.token_instance_key)
      b' ← lift (
          unlock_quantity number b q ctx.tx_unix_time p.name (some user)
            (includes c.authorities user))
      put_balance W b'
      lift (ok b'))

  -- who may take the hold, apart from the token authorities; with no hold only the owner
  unfoldable pub may_unlock : Option (TokenHold number) → TokenBalance number → Text → Bool
  may_unlock none b user = eqb b.owner user
  may_unlock (some h) b user = elim h.lock_authority [
    | some authority ↦ eqb authority user
    | none ↦ eqb h.created_by user || eqb b.owner user
  ]

  unfoldable pub ensure_token_authority : TokenInstanceKey number → Text → Action stub (Unit {0})
  unfolding fetch_token_class get_token_class_key includes
  ensure_token_authority k user = do
    c ← fetch_token_class W (get_token_class_key W k)
    if includes c.authorities user then lift (ok tt) else lift (err unlock_forbidden_user)

  -- A hold that is not found may have expired: the balance comes back unchanged.
  unfoldable pub take_hold :
      Context
      → Option (TokenHold number)
      → Option Text
      → TokenBalance number
      → Action stub (TokenBalance number)
  unfolding unlock_instance put_balance
  take_hold ctx none name b = lift (ok b)
  take_hold ctx (some h) name b = do
    b' ← lift (unlock_instance number b h.instance_id name ctx.tx_unix_time)
    put_balance W b'
    lift (ok b')

  unfoldable pub unlock_nft : Context → UnlockTokenParams → Action stub (TokenBalance number)
  unfolding fetch_token_instance fetch_or_create_balance find_locked_hold may_unlock
      ensure_token_authority take_hold calling_user get_token_class_key
  unlock_nft ctx p = do
    let k = p.token_instance_key
    i ← fetch_token_instance W k
    owner ← lift (elim i.owner [ none ↦ err instance_has_no_owner | some o ↦ ok o ])
    b ← fetch_or_create_balance W owner (get_token_class_key W k)
    hold ← lift (find_locked_hold number b k.instance_ p.name ctx.tx_unix_time)
    user ← lift (calling_user ctx)
    (if may_unlock hold b user then lift (ok tt) else ensure_token_authority k user)
    take_hold ctx hold p.name b

  unfoldable pub unlock_token : Context → UnlockTokenParams → Action stub (TokenBalance number)
  unfolding is_fungible unlock_fungible_token unlock_nft
  unlock_token ctx p =
      if is_fungible number p.token_instance_key.instance_
      then unlock_fungible_token ctx p
      else unlock_nft ctx p

  unfoldable pub unlock_tokens :
      Context → List UnlockTokenParams → Action stub (List (TokenBalance number))
  unfolding unlock_token
  unlock_tokens ctx [] = lift (ok [])
  unlock_tokens ctx (p ∷ ps) = do
    b ← unlock_token ctx p
    bs ← unlock_tokens ctx ps
    lift (ok (b ∷ bs))
