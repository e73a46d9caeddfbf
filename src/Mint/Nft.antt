-- ===== src/Mint/Nft.antt =====
-- The loop of `mintToken` (chaincode/src/mint/mintToken.ts) that makes NFT instances, on fuel: a mint
-- makes at most 1000.
use galachain_sdk.Base.{ℕ, zero, suc, true, false, some, List, [], ◌∷◌, Text}
use galachain_sdk.Errors.{Result, ok, err, ◌>>=◌}
use galachain_sdk.Balance.Account.{TokenBalance}
use galachain_sdk.Balance.Nft.{add_instance}
use galachain_sdk.Tokens.{TokenClassKey, TokenInstance}
use galachain_sdk.Ledger.{Chain}

-- `MintTokenDto.MAX_NFT_MINT_SIZE`
abbrev pub max_nft_mint_size : ℕ
max_nft_mint_size = 1000

module _ (W : Chain) where
  open W use {number}
  open number use {Num, of_ℕ, plus, is_less_than}

  -- what the loop changes
  pub record Minted : Type 0 where
    pub total_supply : Num
    pub balance : TokenBalance number
    pub instances : List (TokenInstance number)

  unfoldable pub new_nft : TokenClassKey → Text → Num → TokenInstance number
  new_nft k owner id = record {
    collection = k.collection;
    category = k.category;
    type = k.type;
    additional_key = k.additional_key;
    instance_ = id;
    is_non_fungible = true;
    owner = some owner;
  }

  -- the instance made first comes first
  unfoldable pub prepend : TokenInstance number → Result Minted → Result Minted
  prepend i (err e) = err e
  prepend i (ok m) = ok (record m { instances = i ∷ m.instances })

  -- `for (i = ..; i < quantity; i += 1)`
  unfoldable pub mint_nfts :
      TokenClassKey → Text → Num → ℕ → ℕ → Num → TokenBalance number → Result Minted
  unfolding new_nft add_instance prepend
  mint_nfts k owner quantity zero i supply b =
      ok (record { total_supply = supply; balance = b; instances = [] })
  mint_nfts k owner quantity (suc fuel) i supply b = elim (is_less_than (of_ℕ i) quantity) [
    | false ↦ ok (record { total_supply = supply; balance = b; instances = [] })
    | true ↦
        let id = plus supply (of_ℕ 1) in
        add_instance number b id >>= λ b'.
        prepend (new_nft k owner id) (mint_nfts k owner quantity fuel (suc i) id b')
  ]
