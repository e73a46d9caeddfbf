-- ===== src/Examples/Chains/Objects.antt =====
-- Codecs of the chain objects.
use galachain_sdk.Base.{ℕ, zero, suc, ◌≡◌, refl, Option, none, some}
use galachain_sdk.Base.Int.{ℤ}
use galachain_sdk.Numeric.Units.{whole}
use galachain_sdk.Balance.Hold.{TokenHold}
use galachain_sdk.Balance.Account.{TokenBalance}
use galachain_sdk.Tokens.{
  TokenInstance, TokenClass, TokenAllowance, TokenClaim, Amount, finite, infinite, AllowanceType,
  use_token, lock, spend, transfer, mint, swap, burn,
}
use galachain_sdk.Unique.{UniqueTransaction}
use galachain_sdk.Examples.Codec.{
  Codec, number, integer, boolean, text_codec, pair, via, list, option,
}

abbrev limit : Amount whole → Option ℤ
limit (finite a) = some a
limit infinite = none

abbrev amount_of : Option ℤ → Amount whole
amount_of none = infinite
amount_of (some a) = finite a

pub amount_of-limit : (a : Amount whole) → amount_of (limit a) ≡ a
amount_of-limit (finite a) = refl
amount_of-limit infinite = refl

abbrev pub amount : Codec (Amount whole)
amount = via (option integer) limit amount_of amount_of-limit

abbrev kind_number : AllowanceType → ℕ
kind_number use_token = 0
kind_number lock = 1
kind_number spend = 2
kind_number transfer = 3
kind_number mint = 4
kind_number swap = 5
kind_number burn = 6

abbrev kind_of : ℕ → AllowanceType
kind_of zero = use_token
kind_of (suc zero) = lock
kind_of (suc (suc zero)) = spend
kind_of (suc (suc (suc zero))) = transfer
kind_of (suc (suc (suc (suc zero)))) = mint
kind_of (suc (suc (suc (suc (suc zero))))) = swap
kind_of (suc (suc (suc (suc (suc (suc n)))))) = burn

pub kind_of-number : (t : AllowanceType) → kind_of (kind_number t) ≡ t
kind_of-number use_token = refl
kind_of-number lock = refl
kind_of-number spend = refl
kind_of-number transfer = refl
kind_of-number mint = refl
kind_of-number swap = refl
kind_of-number burn = refl

abbrev pub kind : Codec AllowanceType
kind = via number kind_number kind_of kind_of-number

abbrev hold : Codec (TokenHold whole)
hold =
    via
      (pair text_codec (
        pair integer (
          pair integer (
            pair number (
              pair number (pair (option text_codec) (pair (option text_codec) (option number))))))))
      (λ x. (
        x.created_by,
        (
          x.instance_id,
          (
            x.quantity,
            (x.created, (x.expires, (x.name, (x.lock_authority, x.vesting_period_start)))),
          ),
        ),
      ))
      (λ (v0, (v1, (v2, (v3, (v4, (v5, (v6, v7))))))). record {
        created_by = v0;
        instance_id = v1;
        quantity = v2;
        created = v3;
        expires = v4;
        name = v5;
        lock_authority = v6;
        vesting_period_start = v7;
      })
      (λ x. refl)

abbrev pub balance_codec : Codec (TokenBalance whole)
balance_codec =
    via
      (pair text_codec (
        pair text_codec (
          pair text_codec (
            pair text_codec (
              pair text_codec (
                pair (option (list integer))
                  (pair (option (list hold)) (pair integer (option number)))))))))
      (λ x. (
        x.owner,
        (
          x.collection,
          (
            x.category,
            (
              x.type,
              (
                x.additional_key,
                (x.instance_ids, (x.locked_holds, (x.quantity, x.vesting_period_start))),
              ),
            ),
          ),
        ),
      ))
      (λ (v0, (v1, (v2, (v3, (v4, (v5, (v6, (v7, v8)))))))). record {
        owner = v0;
        collection = v1;
        category = v2;
        type = v3;
        additional_key = v4;
        instance_ids = v5;
        locked_holds = v6;
        quantity = v7;
        vesting_period_start = v8;
      })
      (λ x. refl)

abbrev pub instance_codec : Codec (TokenInstance whole)
instance_codec =
    via
      (pair text_codec (
        pair text_codec
          (pair text_codec (pair text_codec (pair integer (pair boolean (option text_codec)))))))
      (λ x. (
        x.collection,
        (x.category, (x.type, (x.additional_key, (x.instance_, (x.is_non_fungible, x.owner))))),
      ))
      (λ (v0, (v1, (v2, (v3, (v4, (v5, v6)))))). record {
        collection = v0;
        category = v1;
        type = v2;
        additional_key = v3;
        instance_ = v4;
        is_non_fungible = v5;
        owner = v6;
      })
      (λ x. refl)

abbrev pub class_codec : Codec (TokenClass whole)
class_codec =
    via
      (pair text_codec (
        pair text_codec (
          pair text_codec (
            pair text_codec (
              pair text_codec (
                pair number (
                  pair amount (
                    pair boolean (
                      pair amount (
                        pair (list text_codec) (
                          pair text_codec (
                            pair text_codec (
                              pair text_codec (
                                pair (option text_codec) (
                                  pair (option text_codec) (
                                    pair text_codec (
                                      pair (option text_codec) (
                                        pair integer (
                                          pair integer (
                                            pair (option integer)
                                              (pair integer (option integer))))))))))))))))))))))
      (λ x. (
        x.collection,
        (
          x.category,
          (
            x.type,
            (
              x.additional_key,
              (
                x.network,
                (
                  x.decimals,
                  (
                    x.max_supply,
                    (
                      x.is_non_fungible,
                      (
                        x.max_capacity,
                        (
                          x.authorities,
                          (
                            x.name,
                            (
                              x.symbol,
                              (
                                x.description,
                                (
                                  x.contract_address,
                                  (
                                    x.metadata_address,
                                    (
                                      x.image,
                                      (
                                        x.rarity,
                                        (
                                          x.total_burned,
                                          (
                                            x.total_mint_allowance,
                                            (
                                              x.known_mint_allowance_supply,
                                              (x.total_supply, x.known_mint_supply),
                                            ),
                                          ),
                                        ),
                                      ),
                                    ),
                                  ),
                                ),
                              ),
                            ),
                          ),
                        ),
                      ),
                    ),
                  ),
                ),
              ),
            ),
          ),
        ),
      ))
      (λ (
        v0,
        (
          v1,
          (
            v2,
            (
              v3,
              (
                v4,
                (
                  v5,
                  (
                    v6,
                    (
                      v7,
                      (
                        v8,
                        (
                          v9,
                          (
                            v10,
                            (
                              v11,
                              (v12, (v13, (v14, (v15, (v16, (v17, (v18, (v19, (v20, v21))))))))),
                            ),
                          ),
                        ),
                      ),
                    ),
                  ),
                ),
              ),
            ),
          ),
        ),
      ).
        record {
          collection = v0;
          category = v1;
          type = v2;
          additional_key = v3;
          network = v4;
          decimals = v5;
          max_supply = v6;
          is_non_fungible = v7;
          max_capacity = v8;
          authorities = v9;
          name = v10;
          symbol = v11;
          description = v12;
          contract_address = v13;
          metadata_address = v14;
          image = v15;
          rarity = v16;
          total_burned = v17;
          total_mint_allowance = v18;
          known_mint_allowance_supply = v19;
          total_supply = v20;
          known_mint_supply = v21;
        })
      (λ x. refl)

abbrev pub allowance_codec : Codec (TokenAllowance whole)
allowance_codec =
    via
      (pair text_codec (
        pair text_codec (
          pair text_codec (
            pair text_codec (
              pair text_codec (
                pair integer (
                  pair kind (
                    pair text_codec (
                      pair number (
                        pair amount (
                          pair (option integer)
                            (pair number (pair amount (option integer))))))))))))))
      (λ x. (
        x.granted_to,
        (
          x.collection,
          (
            x.category,
            (
              x.type,
              (
                x.additional_key,
                (
                  x.instance_,
                  (
                    x.allowance_type,
                    (
                      x.granted_by,
                      (
                        x.created,
                        (x.uses, (x.uses_spent, (x.expires, (x.quantity, x.quantity_spent)))),
                      ),
                    ),
                  ),
                ),
              ),
            ),
          ),
        ),
      ))
      (λ (v0, (v1, (v2, (v3, (v4, (v5, (v6, (v7, (v8, (v9, (v10, (v11, (v12, v13))))))))))))).
        record {
          granted_to = v0;
          collection = v1;
          category = v2;
          type = v3;
          additional_key = v4;
          instance_ = v5;
          allowance_type = v6;
          granted_by = v7;
          created = v8;
          uses = v9;
          uses_spent = v10;
          expires = v11;
          quantity = v12;
          quantity_spent = v13;
        })
      (λ x. refl)

abbrev pub claim_codec : Codec (TokenClaim whole)
claim_codec =
    via
      (pair text_codec (
        pair text_codec (
          pair text_codec (
            pair text_codec (
              pair text_codec (
                pair integer (
                  pair kind
                    (pair text_codec (pair number (pair integer (pair number integer)))))))))))
      (λ x. (
        x.owner_key,
        (
          x.collection,
          (
            x.category,
            (
              x.type,
              (
                x.additional_key,
                (
                  x.instance_,
                  (
                    x.action,
                    (
                      x.issuer_key,
                      (x.allowance_created, (x.claim_sequence, (x.created, x.quantity))),
                    ),
                  ),
                ),
              ),
            ),
          ),
        ),
      ))
      (λ (v0, (v1, (v2, (v3, (v4, (v5, (v6, (v7, (v8, (v9, (v10, v11))))))))))). record {
        owner_key = v0;
        collection = v1;
        category = v2;
        type = v3;
        additional_key = v4;
        instance_ = v5;
        action = v6;
        issuer_key = v7;
        allowance_created = v8;
        claim_sequence = v9;
        created = v10;
        quantity = v11;
      })
      (λ x. refl)

abbrev pub unique_codec : Codec (UniqueTransaction)
unique_codec =
    via (pair text_codec (pair number text_codec))
      (λ x. (x.unique_key, (x.created, x.transaction_id)))
      (λ (v0, (v1, v2)). record { unique_key = v0; created = v1; transaction_id = v2 }) (λ x. refl)
