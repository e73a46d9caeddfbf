-- ===== src/Supply/Count.antt =====
-- The count from the newest entries is the whole supply, however many there are: the loops of
-- `fetchMintSupply` and `fetchKnownBurnCount`, which read at most 200 entries.
use galachain_sdk.Base.{
  ℕ, suc, ◌≡◌, refl, sym, ◌∙◌, Bool, true, false, not, ◌&&◌, Option, List, [], ◌∷◌, Text, text, map,
  leb, arith, Bool-cases, inl, inr, if◌then◌else◌,
}
use galachain_sdk.Base.Int.{
  ℤ, pos, ◌+ℤ◌, +ℤ_assoc, +ℤ_zero, ◌≤ℤ◌, int_laws, eq_of_parts, parts_of_eq,
}
use galachain_sdk.Numeric.{BigNumber, units_zero_parts, le_of_test}
use galachain_sdk.Errors.{Result, ok}
use galachain_sdk.Stub.{Bytes}
use galachain_sdk.State.{Serial}
use galachain_sdk.Utils.{lookback_tx_count}
use galachain_sdk.Stub.Cache.{StubCache}
use galachain_sdk.Tokens.{TokenClassKey}
use galachain_sdk.Tokens.Counters.{TokenMintRequest}
use galachain_sdk.Context.{Context}
use galachain_sdk.Ledger.{Chain}
use galachain_sdk.Utils.{inverse_time}
use galachain_sdk.Supply.{
  previous_requests, known_count, start_key, end_key, entries_since, offset_or_default,
  fetch_mint_supply,
}

shift : (a b c : ℤ) → b +ℤ (a +ℤ c) ≡ a +ℤ b +ℤ c
shift a b c = eq_of_parts (b +ℤ (a +ℤ c)) (a +ℤ b +ℤ c) (omega int_laws)

-- a range of the world state that holds the entries under some keys
module _ {E : Type 0} where
  abbrev pub stored : Serial E → List (Text × E) → List (Text × Bytes)
  stored c = map (λ x. (x.0, c.serialize x.1))

  abbrev pub entries : List (Text × E) → List E
  entries = map (λ x. x.1)

module _ (B : BigNumber) {E : Type 0} (total quantity : E → B.Num) where
  open B use {Num, of_ℕ, plus, is_greater_than, units}

  -- what the entries, the newest first, add up to
  abbrev pub tally : List E → ℤ
  tally [] = pos 0
  tally (e ∷ older) = units (quantity e) +ℤ tally older

  -- Every entry was written with the count of those before it.
  abbrev pub IsLedger : List E → Type 0
  IsLedger [] = Unit
  IsLedger (e ∷ older) =
      (units (total e) ≡ tally older) × (pos 0 ≤ℤ units (quantity e)) × IsLedger older

  abbrev pub count : Bool → Num → List E → Num
  count = known_count (of_ℕ 0) plus is_greater_than total quantity

  tally-IsNotNegative : (es : List E) → IsLedger es → pos 0 ≤ℤ tally es
  tally-IsNotNegative [] h = omega arith
  tally-IsNotNegative (e ∷ es) (t, q, h) = let rest = tally-IsNotNegative es h in omega int_laws

  -- after the first entry the count only adds
  count-adds : (u : Num) (es : List E) → units (count false u es) ≡ units u +ℤ tally es
  unfolding known_count
  count-adds u [] = sym (+ℤ_zero (units u))
  count-adds u (e ∷ es) =
      count-adds (plus u (quantity e)) es
      ∙ rw (B.units-plus u (quantity e)) (+ℤ_assoc (units u) (units (quantity e)) (tally es))

  -- the base line is the known count of the first entry, whether or not it is taken
  base_line :
      (t : Num)
      → pos 0 ≤ℤ units t
      → units (if is_greater_than t (of_ℕ 0) then t else of_ℕ 0) ≡ units t
  base_line t h = elim (Bool-cases (is_greater_than t (of_ℕ 0))) [
    | inl e ↦ rw e refl
    | inr e ↦
        let le = le_of_test B (of_ℕ 0) t (sym (B.greater_than t (of_ℕ 0)) ∙ e) in
        rw e (eq_of_parts (units (of_ℕ 0)) (units t) (omega (arith, units_zero_parts B)))
  ]

  count-first :
      (e : E) (newer : List E)
      → pos 0 ≤ℤ units (total e)
      → units (count true (of_ℕ 0) (e ∷ newer))
        ≡ units (total e) +ℤ units (quantity e) +ℤ tally newer
  unfolding known_count
  count-first e newer h =
      let t = if is_greater_than (total e) (of_ℕ 0) then total e else of_ℕ 0 in
      count-adds (plus t (quantity e)) newer
      ∙ rw (B.units-plus t (quantity e)) (rw (base_line (total e) h) refl)

  abbrev pub IsCounted : Result (List E) → ℤ → Type 0
  IsCounted r t = (es : List E) × (r ≡ ok es) × (units (count true (of_ℕ 0) es) ≡ t)

  read-next :
      (c : Serial E) (x : Text × E) (older : List (Text × E)) (seeking : Bool) (n : ℕ)
      (newer : List E)
      → (not seeking && leb lookback_tx_count n) ≡ false
      → previous_requests c seeking n newer (stored c (x ∷ older))
        ≡ previous_requests c false (suc n) (x.1 ∷ newer) (stored c older)
  unfolding previous_requests
  read-next c x older seeking n newer go = rw go (rw (c.deserialize-serialize x.1) refl)

  read-enough :
      (c : Serial E) (kvs : List (Text × Bytes)) (n : ℕ) (newer : List E)
      → leb lookback_tx_count n ≡ true
      → previous_requests c false n newer kvs ≡ ok newer
  unfolding previous_requests
  read-enough c [] n newer stop = refl
  read-enough c (kv ∷ kvs) n newer stop = rw stop refl

  read-all :
      (c : Serial E) (n : ℕ) (newer : List E) → previous_requests c false n newer [] ≡ ok newer
  unfolding previous_requests
  read-all c n newer = refl

  count-last :
      (e : E) (newer : List E) (t : ℤ)
      → units (total e) ≡ t
      → pos 0 ≤ℤ t
      → units (count true (of_ℕ 0) (e ∷ newer)) ≡ units (quantity e) +ℤ t +ℤ tally newer
  count-last e newer t h p =
      let first = count-first e newer (rw h p) in
      let a = units (total e) +ℤ units (quantity e) +ℤ tally newer in
      let b = units (quantity e) +ℤ t +ℤ tally newer in
      first ∙ eq_of_parts a b (omega (int_laws, parts_of_eq (units (total e)) t h))

  -- The entries read so far are `newer`; the next one is there to be read.
  previous_requests-IsCounted :
      (c : Serial E) (x : Text × E) (older : List (Text × E)) (seeking : Bool) (n : ℕ)
      (newer : List E)
      → (not seeking && leb lookback_tx_count n) ≡ false
      → IsLedger (x.1 ∷ entries older)
      → IsCounted
          (previous_requests c seeking n newer (stored c (x ∷ older)))
          (tally (x.1 ∷ entries older) +ℤ tally newer)
  previous_requests-IsCounted c x [] seeking n newer go h =
      rw (read-next c x [] seeking n newer go) (
        x.1 ∷ newer,
        read-all c (suc n) (x.1 ∷ newer),
        count-last x.1 newer (pos 0) h.0 (omega arith),
      )
  previous_requests-IsCounted c x (y ∷ older) seeking n newer go h =
      let rest = tally (entries (y ∷ older)) in
      rw (read-next c x (y ∷ older) seeking n newer go)
        (elim (Bool-cases (leb lookback_tx_count (suc n))) [
          | inl stop ↦ (
            x.1 ∷ newer,
            read-enough c (stored c (y ∷ older)) (suc n) (x.1 ∷ newer) stop,
            count-last x.1 newer rest h.0 (tally-IsNotNegative (entries (y ∷ older)) h.2),
          )
          | inr on ↦
              let (es, read, counted) =
                previous_requests-IsCounted c y older false (suc n) (x.1 ∷ newer) on h.2 in
              (es, read, counted ∙ shift (units (quantity x.1)) rest (tally newer))
        ])

  pub known_count-IsCounted :
      (c : Serial E) (history : List (Text × E))
      → IsLedger (entries history)
      → IsCounted (previous_requests c true 0 [] (stored c history)) (tally (entries history))
  unfolding previous_requests known_count
  known_count-IsCounted c [] h =
      ([], refl, eq_of_parts (units (of_ℕ 0)) (pos 0) (omega (arith, units_zero_parts B)))
  known_count-IsCounted c (x ∷ older) h =
      let (es, read, counted) = previous_requests-IsCounted c x older true 0 [] refl h in
      (es, read, counted ∙ +ℤ_zero (tally (entries (x ∷ older))))

module _ (W : Chain) where
  open W use {stub, number}
  open number use {Num, units}

  abbrev pub IsMintLedger : List (Text × TokenMintRequest number) → Type 0
  IsMintLedger history =
      IsLedger number (λ e. e.total_known_mints_count) (λ e. e.quantity) (entries history)

  abbrev pub mint_tally : List (Text × TokenMintRequest number) → ℤ
  mint_tally history =
      tally number (λ e. e.total_known_mints_count) (λ e. e.quantity) (entries history)

  -- Where the range of the mint requests of a class holds requests, the newest first, each of which was
  -- written with the count of those before it, the mint supply is what they all add up to, although at
  -- most 200 of them are read; it is zero where there are none.
  pub fetch_mint_supply_complete :
      (ctx : Context) (k : TokenClassKey) (offset : Option ℕ) (s : StubCache stub)
      (history : List (Text × TokenMintRequest number))
      → stub.get_state_by_range s.stub
          (start_key W (text "GCTMR") k (inverse_time W ctx (offset_or_default W offset)))
          (end_key W (text "GCTMR") k)
        ≡ stored W.mint_requests history
      → IsMintLedger history
      → (n : Num) × (fetch_mint_supply W ctx k offset s ≡ (ok n, s))
        × (units n ≡ mint_tally history)
  unfolding fetch_mint_supply entries_since
  fetch_mint_supply_complete ctx k offset s history r h =
      let (es, read, counted) =
        known_count-IsCounted number (λ e. e.total_known_mints_count) (λ e. e.quantity)
          W.mint_requests history h in
      (_, rw r (rw read refl), counted)
