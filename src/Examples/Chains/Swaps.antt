-- ===== src/Examples/Chains/Swaps.antt =====
-- Codecs of the swap objects.
use galachain_sdk.Base.{refl}
use galachain_sdk.Numeric.Units.{whole}
use galachain_sdk.Tokens.{TokenInstanceKey}
use galachain_sdk.Swaps.{
  TokenInstanceQuantity, TokenSwapRequest, TokenSwapFill, TokenSwapRequestInstance,
  TokenSwapRequestUser,
}
use galachain_sdk.Examples.Codec.{Codec, via, pair, list, option, number, integer, text_codec}

abbrev key_codec : Codec (TokenInstanceKey whole)
key_codec =
    via (pair text_codec (pair text_codec (pair text_codec (pair text_codec integer))))
      (λ x. (x.collection, (x.category, (x.type, (x.additional_key, x.instance_)))))
      (λ (v0, (v1, (v2, (v3, v4)))). record {
        collection = v0;
        category = v1;
        type = v2;
        additional_key = v3;
        instance_ = v4;
      })
      (λ x. refl)

abbrev quantity_codec : Codec (TokenInstanceQuantity whole)
quantity_codec =
    via (pair key_codec integer) (λ x. (x.token_instance, x.quantity))
      (λ (v0, v1). record { token_instance = v0; quantity = v1 }) (λ x. refl)

abbrev pub swap_codec : Codec (TokenSwapRequest whole)
swap_codec =
    via
      (pair number (
        pair text_codec (
          pair text_codec (
            pair (list quantity_codec) (
              pair (list quantity_codec) (
                pair (option text_codec) (
                  pair text_codec
                    (pair (list text_codec) (pair integer (pair integer number))))))))))
      (λ x. (
        x.created,
        (
          x.txid,
          (
            x.swap_request_id,
            (
              x.offered,
              (
                x.wanted,
                (x.offered_to, (x.offered_by, (x.fill_ids, (x.uses, (x.uses_spent, x.expires))))),
              ),
            ),
          ),
        ),
      ))
      (λ (v0, (v1, (v2, (v3, (v4, (v5, (v6, (v7, (v8, (v9, v10)))))))))). record {
        created = v0;
        txid = v1;
        swap_request_id = v2;
        offered = v3;
        wanted = v4;
        offered_to = v5;
        offered_by = v6;
        fill_ids = v7;
        uses = v8;
        uses_spent = v9;
        expires = v10;
      })
      (λ x. refl)

abbrev pub fill_codec : Codec (TokenSwapFill whole)
fill_codec =
    via (pair text_codec (pair text_codec (pair number integer)))
      (λ x. (x.swap_request_id, (x.filled_by, (x.created, x.uses))))
      (λ (v0, (v1, (v2, v3))). record {
        swap_request_id = v0;
        filled_by = v1;
        created = v2;
        uses = v3;
      })
      (λ x. refl)

abbrev pub swap_instance_codec : Codec (TokenSwapRequestInstance whole)
swap_instance_codec =
    via
      (pair text_codec
        (pair text_codec (pair text_codec (pair text_codec (pair integer text_codec)))))
      (λ x. (
        x.collection,
        (x.category, (x.type, (x.additional_key, (x.instance_, x.swap_request_id)))),
      ))
      (λ (v0, (v1, (v2, (v3, (v4, v5))))). record {
        collection = v0;
        category = v1;
        type = v2;
        additional_key = v3;
        instance_ = v4;
        swap_request_id = v5;
      })
      (λ x. refl)

abbrev pub swap_user_codec : Codec (TokenSwapRequestUser whole)
swap_user_codec =
    via (pair text_codec text_codec) (λ x. (x.user, x.swap_request_id))
      (λ (v0, v1). record { user = v0; swap_request_id = v1 }) (λ x. refl)
