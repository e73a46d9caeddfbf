-- ===== src/Examples/Chains/Counters.antt =====
-- Codecs of the chain objects that record burns and mints.
use galachain_sdk.Base.{ℕ, zero, suc, ◌≡◌, refl}
use galachain_sdk.Numeric.Units.{whole}
use galachain_sdk.Tokens.Counters.{
  TokenMintStatus, unknown_status, minted, partially_minted, allowance_total_exceeded,
  supply_total_exceeded, null_administrative_patch_entry, TokenBurn, TokenBurnCounter,
  TokenMintRequest, TokenMintFulfillment, TokenMintAllowanceRequest, TokenMintAllowance,
}
use galachain_sdk.Examples.Codec.{Codec, number, integer, text_codec, pair, via}
use galachain_sdk.Examples.Chains.Objects.{amount}

abbrev status_number : TokenMintStatus → ℕ
status_number unknown_status = 0
status_number minted = 1
status_number partially_minted = 2
status_number allowance_total_exceeded = 3
status_number supply_total_exceeded = 4
status_number null_administrative_patch_entry = 5

abbrev status_of : ℕ → TokenMintStatus
status_of zero = unknown_status
status_of (suc zero) = minted
status_of (suc (suc zero)) = partially_minted
status_of (suc (suc (suc zero))) = allowance_total_exceeded
status_of (suc (suc (suc (suc zero)))) = supply_total_exceeded
status_of (suc (suc (suc (suc (suc n))))) = null_administrative_patch_entry

pub status_of-number : (t : TokenMintStatus) → status_of (status_number t) ≡ t
status_of-number unknown_status = refl
status_of-number minted = refl
status_of-number partially_minted = refl
status_of-number allowance_total_exceeded = refl
status_of-number supply_total_exceeded = refl
status_of-number null_administrative_patch_entry = refl

abbrev status : Codec TokenMintStatus
status = via number status_number status_of status_of-number

abbrev pub burn_codec : Codec (TokenBurn whole)
burn_codec =
    via
      (pair text_codec (
        pair text_codec (
          pair text_codec
            (pair text_codec (pair text_codec (pair integer (pair number integer)))))))
      (λ x. (
        x.burned_by,
        (
          x.collection,
          (x.category, (x.type, (x.additional_key, (x.instance_, (x.created, x.quantity))))),
        ),
      ))
      (λ (v0, (v1, (v2, (v3, (v4, (v5, (v6, v7))))))). record {
        burned_by = v0;
        collection = v1;
        category = v2;
        type = v3;
        additional_key = v4;
        instance_ = v5;
        created = v6;
        quantity = v7;
      })
      (λ x. refl)

abbrev pub burn_counter_codec : Codec (TokenBurnCounter whole)
burn_counter_codec =
    via
      (pair text_codec (
        pair text_codec (
          pair text_codec (
            pair text_codec (
              pair text_codec (
                pair text_codec (
                  pair integer
                    (pair integer (pair number (pair integer (pair text_codec text_codec)))))))))))
      (λ x. (
        x.collection,
        (
          x.category,
          (
            x.type,
            (
              x.additional_key,
              (
                x.time_key,
                (
                  x.burned_by,
                  (
                    x.instance_,
                    (
                      x.total_known_burns_count,
                      (x.created, (x.quantity, (x.reference_id, x.epoch))),
                    ),
                  ),
                ),
              ),
            ),
          ),
        ),
      ))
      (λ (v0, (v1, (v2, (v3, (v4, (v5, (v6, (v7, (v8, (v9, (v10, v11))))))))))). record {
        collection = v0;
        category = v1;
        type = v2;
        additional_key = v3;
        time_key = v4;
        burned_by = v5;
        instance_ = v6;
        total_known_burns_count = v7;
        created = v8;
        quantity = v9;
        reference_id = v10;
        epoch = v11;
      })
      (λ x. refl)

abbrev pub mint_request_codec : Codec (TokenMintRequest whole)
mint_request_codec =
    via
      (pair text_codec (
        pair text_codec (
          pair text_codec (
            pair text_codec (
              pair text_codec (
                pair text_codec (
                  pair integer (
                    pair text_codec (
                      pair number (pair integer (pair status (pair text_codec text_codec))))))))))))
      (λ x. (
        x.collection,
        (
          x.category,
          (
            x.type,
            (
              x.additional_key,
              (
                x.time_key,
                (
                  x.owner,
                  (
                    x.total_known_mints_count,
                    (x.requestor, (x.created, (x.quantity, (x.state, (x.id, x.epoch))))),
                  ),
                ),
              ),
            ),
          ),
        ),
      ))
      (λ (v0, (v1, (v2, (v3, (v4, (v5, (v6, (v7, (v8, (v9, (v10, (v11, v12)))))))))))). record {
        collection = v0;
        category = v1;
        type = v2;
        additional_key = v3;
        time_key = v4;
        owner = v5;
        total_known_mints_count = v6;
        requestor = v7;
        created = v8;
        quantity = v9;
        state = v10;
        id = v11;
        epoch = v12;
      })
      (λ x. refl)

abbrev pub mint_fulfillment_codec : Codec (TokenMintFulfillment whole)
mint_fulfillment_codec =
    via
      (pair text_codec (
        pair text_codec (
          pair text_codec (
            pair text_codec (
              pair text_codec (
                pair number
                  (pair text_codec (pair integer (pair status (pair text_codec number))))))))))
      (λ x. (
        x.collection,
        (
          x.category,
          (
            x.type,
            (
              x.additional_key,
              (
                x.requestor,
                (x.request_created, (x.owner, (x.quantity, (x.state, (x.id, x.created))))),
              ),
            ),
          ),
        ),
      ))
      (λ (v0, (v1, (v2, (v3, (v4, (v5, (v6, (v7, (v8, (v9, v10)))))))))). record {
        collection = v0;
        category = v1;
        type = v2;
        additional_key = v3;
        requestor = v4;
        request_created = v5;
        owner = v6;
        quantity = v7;
        state = v8;
        id = v9;
        created = v10;
      })
      (λ x. refl)

abbrev pub mint_allowance_request_codec : Codec (TokenMintAllowanceRequest whole)
mint_allowance_request_codec =
    via
      (pair text_codec (
        pair text_codec (
          pair text_codec (
            pair text_codec (
              pair text_codec (
                pair text_codec (
                  pair amount (
                    pair number (
                      pair text_codec (
                        pair amount (
                          pair status
                            (pair text_codec (pair amount (pair number text_codec))))))))))))))
      (λ x. (
        x.collection,
        (
          x.category,
          (
            x.type,
            (
              x.additional_key,
              (
                x.time_key,
                (
                  x.granted_to,
                  (
                    x.total_known_mint_allowances_count,
                    (
                      x.created,
                      (
                        x.granted_by,
                        (x.quantity, (x.state, (x.id, (x.uses, (x.expires, x.epoch))))),
                      ),
                    ),
                  ),
                ),
              ),
            ),
          ),
        ),
      ))
      (λ (
        v0,
        (v1, (v2, (v3, (v4, (v5, (v6, (v7, (v8, (v9, (v10, (v11, (v12, (v13, v14))))))))))))),
      ).
        record {
          collection = v0;
          category = v1;
          type = v2;
          additional_key = v3;
          time_key = v4;
          granted_to = v5;
          total_known_mint_allowances_count = v6;
          created = v7;
          granted_by = v8;
          quantity = v9;
          state = v10;
          id = v11;
          uses = v12;
          expires = v13;
          epoch = v14;
        })
      (λ x. refl)

abbrev pub mint_allowance_codec : Codec (TokenMintAllowance whole)
mint_allowance_codec =
    via
      (pair text_codec (
        pair text_codec (
          pair text_codec (
            pair text_codec (
              pair amount
                (pair text_codec (pair text_codec (pair number (pair text_codec amount)))))))))
      (λ x. (
        x.collection,
        (
          x.category,
          (
            x.type,
            (
              x.additional_key,
              (
                x.total_known_mint_allowances_at_request,
                (x.granted_by, (x.granted_to, (x.created, (x.req_id, x.quantity)))),
              ),
            ),
          ),
        ),
      ))
      (λ (v0, (v1, (v2, (v3, (v4, (v5, (v6, (v7, (v8, v9))))))))). record {
        collection = v0;
        category = v1;
        type = v2;
        additional_key = v3;
        total_known_mint_allowances_at_request = v4;
        granted_by = v5;
        granted_to = v6;
        created = v7;
        req_id = v8;
        quantity = v9;
      })
      (λ x. refl)
