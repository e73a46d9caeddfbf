-- ===== src/Collections/Sound.antt =====
-- Who creates a class in an NFT collection.
use galachain_sdk.Base.{◌≡◌, ap, true, Text, eqb, arith}
use galachain_sdk.Errors.{Result, Error, ok, err, nft_collection_not_found}
use galachain_sdk.Stub.Cache.{StubCache}
use galachain_sdk.State.{Serial, catch, handle, ◌>>=◌}
use galachain_sdk.State.Inversion.{bind-inv, lift-inv}
use galachain_sdk.Context.{Context, calling_user}
use galachain_sdk.Tokens.{TokenClassKey}
use galachain_sdk.Ledger.{Chain}
use galachain_sdk.Locks.Unlock.{includes}
use galachain_sdk.Collections.{
  NftCollectionAuthorization, CreateNftCollectionDto, fetch_nft_collection_authorization,
  create_if_authorized, create_nft_collection,
}

handle-thrown :
    {A : Type 0} (r : Result A) (e : Error) (a : A) → handle r (λ _. err e) ≡ ok a → r ≡ ok a
handle-thrown (ok b) e a h = h
handle-thrown (err b) e a h = absurd (ground arith)

module _ (W : Chain) (codec : Serial NftCollectionAuthorization) where
  open W use {stub}

  create_if_authorized-tests :
      (dto : CreateNftCollectionDto W codec) (user : Text) (a : NftCollectionAuthorization)
      (c c' : StubCache stub) (k : TokenClassKey)
      → create_if_authorized W codec dto user a c ≡ (ok k, c')
      → (includes a.authorized_users user ≡ true) × (eqb a.collection dto.collection ≡ true)
  unfolding create_if_authorized
  create_if_authorized-tests dto user a c c' k e = ground arith

  -- Who creates a class in a collection with success is in the list that was read for that
  -- collection, and the list is that of the collection.
  pub create_nft_collection-authorized :
      (ctx : Context) (dto : CreateNftCollectionDto W codec) (c : StubCache stub)
      (k : TokenClassKey)
      → (create_nft_collection W codec ctx dto c).0 ≡ ok k
      → (user : Text) × (a : NftCollectionAuthorization) × (calling_user ctx ≡ ok user)
        × ((fetch_nft_collection_authorization W codec dto.collection c).0 ≡ ok a)
        × (includes a.authorized_users user ≡ true)
        × (eqb a.collection dto.collection ≡ true)
  unfolding create_nft_collection
  create_nft_collection-authorized ctx dto c k e =
      let c' = (create_nft_collection W codec ctx dto c).1 in
      let fetch = fetch_nft_collection_authorization W codec dto.collection in
      let read = catch fetch (λ e. err nft_collection_not_found) in
      let (user, called, e₁) =
        lift-inv (calling_user ctx) (λ user. read >>= create_if_authorized W codec dto user) c c' k
          (ap (λ r. (r, c')) e) in
      let (a, found, e₂) = bind-inv read (create_if_authorized W codec dto user) c c' k e₁ in
      let (listed, named) = create_if_authorized-tests dto user a (read c).1 c' k e₂ in
      (user, a, called, handle-thrown (fetch c).0 nft_collection_not_found a found, listed, named)
