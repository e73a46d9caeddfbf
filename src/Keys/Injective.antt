-- ===== src/Keys/Injective.antt =====
-- Different keys are different texts, and encoded keys can be read back.
use galachain_sdk.Base.{
  ℕ, ◌≡◌, refl, sym, ◌≢◌, ap, ◌∙◌, true, false, ◌==◌, some, List, [], ◌∷◌, ◌++◌, map, Text, any,
  All, length, arith,
}
use mathlib.Core.List.{append-nil, append_assoc}
use galachain_sdk.Errors.{ok}
use galachain_sdk.Keys.{
  HasNoZero, tail_of, composite_key, get_composite_key_from_parts,
  get_composite_key_from_parts-some, get_encodable_string_key_from_parts,
  get_parts_from_encodable_string_key, split_zero, join,
}

-- A piece without 0 is determined by the text that it begins, up to the 0.
piece-injective :
    (p q s t : Text) → HasNoZero p → HasNoZero q → p ++ 0 ∷ s ≡ q ++ 0 ∷ t → (p ≡ q) × (s ≡ t)
piece-injective [] [] s t hp hq e = (refl, cc)
piece-injective [] (d ∷ q) s t hp hq e = absurd (hq.0 (cc))
piece-injective (c ∷ p) [] s t hp hq e = absurd (hp.0 (cc))
piece-injective (c ∷ p) (d ∷ q) s t hp hq e =
    let (ep, es) = piece-injective p q s t hp.1 hq.1 (cc) in (cc, es)

tail_of-injective :
    (ps qs : List Text) → All HasNoZero ps → All HasNoZero qs → tail_of ps ≡ tail_of qs → ps ≡ qs
unfolding tail_of
tail_of-injective [] [] hp hq e = refl
tail_of-injective [] ([] ∷ qs) hp hq e = cc
tail_of-injective [] ((d ∷ q) ∷ qs) hp hq e = cc
tail_of-injective ([] ∷ ps) [] hp hq e = cc
tail_of-injective ((c ∷ p) ∷ ps) [] hp hq e = cc
tail_of-injective (p ∷ ps) (q ∷ qs) hp hq e =
    let (ep, es) = piece-injective p q (tail_of ps) (tail_of qs) hp.0 hq.0 e in
    let er = tail_of-injective ps qs hp.1 hq.1 es in cc

-- Two composite keys are the same text only if their index keys and all their parts are the same,
-- if none of these has a code unit 0.
pub composite_key-injective :
    (index index' : Text) (ps qs : List Text)
    → HasNoZero index
    → HasNoZero index'
    → All HasNoZero ps
    → All HasNoZero qs
    → get_composite_key_from_parts index (map some ps)
      ≡ get_composite_key_from_parts index' (map some qs)
    → (index ≡ index') × (ps ≡ qs)
composite_key-injective index index' ps qs hi hi' hp hq e =
    let same : ok (composite_key index ps) ≡ ok (composite_key index' qs) =
      sym (get_composite_key_from_parts-some index ps)
      ∙ e
      ∙ get_composite_key_from_parts-some index' qs in
    unfold composite_key in
    let (ei, et) = piece-injective index index' (tail_of ps) (tail_of qs) hi hi' (cc) in
    (ei, tail_of-injective ps qs hp hq et)

not_zero : (c : ℕ) → c ≢ 0 → (c == 0) ≡ false
not_zero c h = ground arith

same_length : (n : ℕ) → (n == n) ≡ true
same_length n = ground arith

split_zero-piece :
    (piece p rest : Text)
    → HasNoZero p
    → split_zero piece (p ++ 0 ∷ rest) ≡ (piece ++ p) ∷ split_zero [] rest
unfolding split_zero
split_zero-piece piece [] rest h = rw append-nil
split_zero-piece piece (c ∷ p) rest h =
    rw (not_zero c h.0) (split_zero-piece (piece ++ c ∷ []) p rest h.1 ∙ simp append_assoc)

split_zero-last : (piece p : Text) → HasNoZero p → split_zero piece p ≡ (piece ++ p) ∷ []
unfolding split_zero
split_zero-last piece [] h = rw append-nil
split_zero-last piece (c ∷ p) h =
    rw (not_zero c h.0) (split_zero-last (piece ++ c ∷ []) p h.1 ∙ simp append_assoc)

split_zero-join :
    (p : Text) (ps : List Text)
    → All HasNoZero (p ∷ ps)
    → split_zero [] (join (0 ∷ []) (p ∷ ps)) ≡ p ∷ ps
unfolding join
split_zero-join p [] h = split_zero-last [] p h.0
split_zero-join p (q ∷ qs) h =
    split_zero-piece [] p (join (0 ∷ []) (q ∷ qs)) h.0 ∙ ap (λ r. p ∷ r) (split_zero-join q qs h.1)

any_zero : (p : Text) → HasNoZero p → any (λ c. c == 0) p ≡ false
any_zero [] h = refl
any_zero (c ∷ p) h = ground (arith, any_zero p h.1, not_zero c h.0)

any_part : (ps : List Text) → All HasNoZero ps → any (λ p. any (λ c. c == 0) p) ps ≡ false
any_part [] h = refl
any_part (p ∷ ps) h = rw (any_zero p h.0) (any_part ps h.1)

-- Parts without a code unit 0 are encoded, and read back as they were.
pub encodable_key-parts :
    (p : Text) (ps : List Text)
    → All HasNoZero (p ∷ ps)
    → (key : Text) × (get_encodable_string_key_from_parts (p ∷ ps) ≡ ok key)
      × (get_parts_from_encodable_string_key key (length (p ∷ ps)) ≡ ok (p ∷ ps))
unfolding get_encodable_string_key_from_parts get_parts_from_encodable_string_key
encodable_key-parts p ps h = (
  join (0 ∷ []) (p ∷ ps),
  rw (any_part (p ∷ ps) h),
  rw (split_zero-join p ps h) (rw (same_length (length (p ∷ ps)))),
)
