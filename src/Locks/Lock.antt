-- ===== src/Locks/Lock.antt =====
-- chaincode/src/locks/lockTokens.ts: putting a hold on a quantity or on an NFT instance.
use galachain_sdk.Base.{
  ℕ, Bool, true, ◌&&◌, not, Option, none, some, List, [], ◌∷◌, Text, eqb, ltb, if◌then◌else◌,
}
use galachain_sdk.Errors.{
  Result, ok, err, nft_invalid_quantity_lock, invalid_expiration, invalid_decimal,
  lock_of_others_fungible, object_validation_failed,
}
use galachain_sdk.Balance.Hold.{TokenHold, new_hold}
use galachain_sdk.Balance.Account.{TokenBalance, is_fungible}
use galachain_sdk.Balance.Nft.{lock_instance}
use galachain_sdk.Balance.Fungible.{lock_quantity}
use galachain_sdk.State.{Action, lift, ◌>>=◌, ◌>>◌}
use galachain_sdk.Tokens.{TokenClassKey, TokenInstanceKey, lock}
use galachain_sdk.Context.{Context}
use galachain_sdk.Ledger.{
  Chain, put_balance, get_token_class_key, fetch_or_create_balance, fetch_token_instance,
  fetch_token_class,
}
use galachain_sdk.Allowances.Verify.{verify_and_use_allowances}
use galachain_sdk.Transfer.{calling_on_behalf_of}

-- `a ?? b`
unfoldable pub get_or {ℓ} : {A : Type ℓ} → Option A → A → A
get_or none d = d
get_or (some a) d = a

-- `hold_is_valid` is class-validator's verdict on a hold.
module _ (W : Chain) (hold_is_valid : TokenHold W.number → Bool) where
  open W use {stub, number}
  open number use {Num, of_ℕ, is_equal_to, decimal_places}

  -- `verify_authorized_on_behalf` is a callback; it may throw.
  pub record LockTokenParams : Type 0 where
    pub owner : Option Text
    pub lock_authority : Option Text
    pub token_instance_key : TokenInstanceKey number
    pub quantity : Num
    pub expires : ℕ
    pub name : Option Text
    pub verify_authorized_on_behalf : TokenClassKey → Action stub (Option Text)
    pub vesting_period_start : Option ℕ

  -- `TokenHold.createValid`
  unfoldable pub create_valid_hold : TokenHold number → Result (TokenHold number)
  create_valid_hold h = if hold_is_valid h then ok h else err object_validation_failed

  unfoldable pub place_hold :
      LockTokenParams → TokenHold number → ℕ → TokenBalance number → Result (TokenBalance number)
  unfolding is_fungible lock_quantity lock_instance
  place_hold p h now b =
      if is_fungible number p.token_instance_key.instance_
      then lock_quantity number b h
      else lock_instance number b h now

  -- the part behind the checks: the allowances, the hold and the write
  unfoldable pub lock_for :
      Context → LockTokenParams → Text → Text → Num → Action stub (TokenBalance number)
  unfolding fetch_or_create_balance put_balance get_token_class_key create_valid_hold place_hold
      new_hold
  lock_for ctx p owner user instance_ = do
    b ← fetch_or_create_balance W owner (get_token_class_key W p.token_instance_key)
    h ← lift (
        create_valid_hold (
          new_hold number user instance_ p.quantity ctx.tx_unix_time (some p.expires) p.name
            p.lock_authority p.vesting_period_start))
    b' ← lift (place_hold p h ctx.tx_unix_time b)
    put_balance W b'
    lift (ok b')

  unfoldable pub lock_token : Context → LockTokenParams → Action stub (TokenBalance number)
  unfolding is_fungible fetch_token_class fetch_token_instance get_token_class_key
      calling_on_behalf_of get_or verify_and_use_allowances lock_for
  lock_token ctx p =
      let k = p.token_instance_key in
      if not (is_fungible number k.instance_) && not (is_equal_to p.quantity (of_ℕ 1))
      then lift (err nft_invalid_quantity_lock)
      else if ltb 0 p.expires && ltb p.expires ctx.tx_unix_time
      then lift (err invalid_expiration)
      else do
        c ← fetch_token_class W (get_token_class_key W k)
        if ltb c.decimals (decimal_places p.quantity) then lift (err invalid_decimal) else (do
          i ← fetch_token_instance W k
          on_behalf ← p.verify_authorized_on_behalf (get_token_class_key W k)
          user ← lift (calling_on_behalf_of ctx on_behalf)
          let owner = get_or p.owner user
          (if eqb owner user
              then lift (ok true)
              else if is_fungible number k.instance_
              then lift (err lock_of_others_fungible)
              else verify_and_use_allowances W ctx owner k p.quantity i user lock)
          lock_for ctx p owner user i.instance_)

  pub record TokenQuantityParams : Type 0 where
    pub token_instance_key : TokenInstanceKey number
    pub quantity : Num
    pub owner : Option Text

  -- the batch; a batch makes no vesting holds
  unfoldable pub lock_tokens :
      Context
      → Option Text
      → Option Text
      → ℕ
      → (TokenClassKey → Action stub (Option Text))
      → List TokenQuantityParams
      → Action stub (List (TokenBalance number))
  unfolding lock_token
  lock_tokens ctx name lock_authority expires verify [] = lift (ok [])
  lock_tokens ctx name lock_authority expires verify (t ∷ ts) = do
    b ← lock_token ctx (record {
      owner = t.owner;
      lock_authority = lock_authority;
      token_instance_key = t.token_instance_key;
      quantity = t.quantity;
      expires = expires;
      name = name;
      verify_authorized_on_behalf = verify;
      vesting_period_start = none;
    })
    bs ← lock_tokens ctx name lock_authority expires verify ts
    lift (ok (b ∷ bs))
