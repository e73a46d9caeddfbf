-- ===== src/Mint/WithAllowance.antt =====
-- chaincode/src/mint/mintTokenWithAllowance.ts: the caller grants itself an allowance, and mints. The
-- query key is taken to be valid, as its parts' types say.
use galachain_sdk.Base.{none, List, [], ◌∷◌, Text}
use galachain_sdk.State.{Action, lift, ◌>>=◌}
use galachain_sdk.Tokens.{TokenClassKey, TokenInstanceKey, finite, mint}
use galachain_sdk.Context.{Context, calling_user}
use galachain_sdk.Ledger.{Chain}
use galachain_sdk.Allowances.Grant.{grant_allowance}
use galachain_sdk.Mint.{mint_token}

module _ (W : Chain) where
  open W use {stub, number}
  open number use {Num, of_ℕ}

  pub record MintTokenWithAllowanceParams : Type 0 where
    pub token_class_key : TokenClassKey
    pub token_instance : Num
    pub owner : Text
    pub quantity : Num

  unfoldable pub mint_token_with_allowance :
      Context → MintTokenWithAllowanceParams → Action stub (List (TokenInstanceKey number))
  unfolding calling_user grant_allowance mint_token
  mint_token_with_allowance ctx p = do
    user ← lift (calling_user ctx)
    granted ← grant_allowance W ctx (record {
      token_instance = record {
        collection = p.token_class_key.collection;
        category = p.token_class_key.category;
        type = p.token_class_key.type;
        additional_key = p.token_class_key.additional_key;
        instance_ = p.token_instance;
      };
      allowance_type = mint;
      quantities = record { user = user; quantity = finite p.quantity } ∷ [];
      uses = finite (of_ℕ 1);
      expires = 0;
    })
    mint_token W ctx (record {
      token_class_key = p.token_class_key;
      owner = p.owner;
      quantity = p.quantity;
      authorized_on_behalf = none;
      known_total_supply = none;
    })
