-- ===== src/Utils.antt =====
-- chaincode/src/utils/utils.ts: the time keys of ranged objects, which sort the newest first.
use galachain_sdk.Base.{ℕ, zero, suc, ◌-◌, ◌*◌, List, [], ◌∷◌, ◌++◌, Text, length}
use galachain_sdk.Stub.Cache.{StubCache}
use galachain_sdk.Context.{Context}
use galachain_sdk.Ledger.{Chain}

unfoldable pub replicate {ℓ} : {A : Type ℓ} → ℕ → A → List A
replicate zero x = []
replicate (suc n) x = x ∷ replicate n x

-- `text.padStart(len, c)`
unfoldable pub pad_start : Text → ℕ → ℕ → Text
unfolding replicate
pad_start t len c = replicate (len - length t) c ++ t

abbrev pub block_timeout : ℕ
block_timeout = 2000

-- 1.41912e20
abbrev pub inversion_height : ℕ
inversion_height = 141912000000000000000

abbrev pub inverse_key_length : ℕ
inverse_key_length = 22

abbrev pub lookback_tx_count : ℕ
lookback_tx_count = 200

abbrev pub lookback_time_offset : ℕ
lookback_time_offset = block_timeout * 2

module _ (W : Chain) where
  open W use {stub, number, number_text}
  open number use {Num, of_ℕ, minus}

  unfoldable pub generate_inverse_time_key : Num → Text
  unfolding pad_start
  generate_inverse_time_key height =
      pad_start (number_text (minus (of_ℕ inversion_height) height)) inverse_key_length b'0'

  unfoldable pub inverse_time : Context → ℕ → Text
  unfolding generate_inverse_time_key
  inverse_time ctx offset = generate_inverse_time_key (minus (of_ℕ ctx.tx_unix_time) (of_ℕ offset))

  unfoldable pub inverse_epoch : ℕ → StubCache stub → Text
  unfolding pad_start
  inverse_epoch offset s =
      let height = minus (of_ℕ (stub.channel_epoch s.stub)) (of_ℕ offset) in
      pad_start (number_text (minus (of_ℕ inversion_height) height)) inverse_key_length b'0'
