-- ===== src/Keys.antt =====
-- Keys of chain objects (chain-api/src/types/ChainObject.ts): a composite key is the index key and
-- the parts, each followed by the code unit 0, after a first 0.
pub mod Injective
use galachain_sdk.Base.{
  ℕ, zero, ◌≡◌, refl, ◌≢◌, ap, ◌∙◌, Bool, true, false, ◌||◌, ◌==◌, Option, none, some, List, [],
  ◌∷◌, ◌++◌, map, Text, any, All, length, arith, if◌then◌else◌,
}
use galachain_sdk.Errors.{Result, ok, err, ◌>>=◌, invalid_composite_key, throw_if, ◌>>◌}
use mathlib.Core.List.{append-nil, append_assoc}

-- `compositeKey + part + MIN_UNICODE_RUNE_VALUE` for each part; a part that is null, undefined or an
-- object is `none`.
unfoldable pub append_parts : Text → List (Option Text) → Result Text
append_parts key [] = ok key
append_parts key (none ∷ parts) = err invalid_composite_key
append_parts key (some part ∷ parts) = append_parts (key ++ part ++ 0 ∷ []) parts

unfoldable pub get_composite_key_from_parts : Text → List (Option Text) → Result Text
unfolding append_parts
get_composite_key_from_parts index_key parts = append_parts (0 ∷ index_key ++ 0 ∷ []) parts

-- `parts.join(separator)`
unfoldable pub join : Text → List Text → Text
join separator [] = []
join separator (p ∷ []) = p
join separator (p ∷ q ∷ ps) = p ++ (separator ++ join separator (q ∷ ps))

-- with `ID_SPLIT_CHAR`, `$`
unfoldable pub get_string_key_from_parts : List Text → Text
unfolding join
get_string_key_from_parts parts = join (b'$' ∷ []) parts

unfoldable pub get_encodable_string_key_from_parts : List Text → Result Text
unfolding join
get_encodable_string_key_from_parts parts =
    if any (λ p. any (λ c. c == 0) p) parts
    then err invalid_composite_key
    else ok (join (0 ∷ []) parts)

-- `text.split("\u0000")`: the pieces between the zeros, the last one in `piece` so far
unfoldable pub split_zero : Text → Text → List Text
split_zero piece [] = piece ∷ []
split_zero piece (c ∷ cs) =
    let after = split_zero [] cs in
    let longer = split_zero (piece ++ c ∷ []) cs in if c == 0 then piece ∷ after else longer

unfoldable pub get_parts_from_encodable_string_key : Text → ℕ → Result (List Text)
unfolding split_zero
get_parts_from_encodable_string_key key expected =
    if length (split_zero [] key) == expected
    then ok (split_zero [] key)
    else err invalid_composite_key

-- a text with no code unit 0
abbrev pub HasNoZero : Text → Type 0
HasNoZero = All (λ c. c ≢ 0)

-- the key of parts that are all there
unfoldable pub tail_of : List Text → Text
tail_of [] = []
tail_of (p ∷ ps) = p ++ 0 ∷ tail_of ps

unfoldable pub composite_key : Text → List Text → Text
unfolding tail_of
composite_key index_key parts = 0 ∷ index_key ++ 0 ∷ tail_of parts

append_parts-some :
    (key : Text) (parts : List Text) → append_parts key (map some parts) ≡ ok (key ++ tail_of parts)
unfolding append_parts tail_of
append_parts-some key [] = rw append-nil
append_parts-some key (p ∷ ps) = append_parts-some (key ++ p ++ 0 ∷ []) ps ∙ simp append_assoc

pub get_composite_key_from_parts-some :
    (index_key : Text) (parts : List Text)
    → get_composite_key_from_parts index_key (map some parts) ≡ ok (composite_key index_key parts)
unfolding get_composite_key_from_parts composite_key
get_composite_key_from_parts-some index_key parts =
    append_parts-some (0 ∷ index_key ++ 0 ∷ []) parts ∙ simp append_assoc
