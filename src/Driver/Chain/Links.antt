-- ===== src/Driver/Chain/Links.antt =====
-- apps/population_driver: the driver's records link each to the one before it, and a pending round is open
-- exactly while its record is not written.
use metering.Prelude.{
  ℕ, zero, suc, ◌+◌, ◌≡◌, refl, subst, arith, true, Option, none, some, List, [], ◌∷◌, String,
  get_elem?,
}
use metering.Runtime.{after, require-eq-ok, ok, ◌>>=◌, require, driver_error, Platform, Fields, get}
use metering.AgentProtocol.{item, get_is_text}
use metering.Driver.Chain.{
  is_integer, text_of, kind_at, has_previous, validate_link, validate_chain_from,
  validate_record_chain,
}

module _ (P : Platform) where
  open P use {Float}

  -- The identity before the first record is given; before another, it is that of the record in front of it.
  abbrev pub Link : List (Fields Float) → ℕ → Option String → Fields Float → Type 0
  Link records zero previous r = has_previous P previous r ≡ true
  Link records (suc i) previous r =
      (q : Fields Float) × (identity : String) × (get_elem? records i ≡ some q)
      × ((item "record_id" q >>= text_of) ≡ ok identity)
      × (has_previous P (some identity) r ≡ true)

  -- A record in a chain: its sequence, its kind, and its link to the identity before it.
  abbrev pub IsLinked : List (Fields Float) → ℕ → ℕ → Option String → Fields Float → Type 0
  IsLinked records start i previous r =
      (is_integer (get "sequence" r) (start + i) ≡ true)
      × (get_is_text "kind" r (kind_at (start + i)) ≡ true)
      × (is_integer (get "schema_version" r) 1 ≡ true)
      × Link records i previous r

  Link-cons :
      (previous : Option String) (i : ℕ) (q : Fields Float) (identity : String)
      (records : List (Fields Float)) (r : Fields Float)
      → (item "record_id" q >>= text_of) ≡ ok identity
      → Link records i (some identity) r
      → Link (q ∷ records) (suc i) previous r
  Link-cons previous zero q identity records r named linked = (q, identity, refl, named, linked)
  Link-cons previous (suc i) q identity records r named linked = linked

  validate_link-facts :
      (sequence : ℕ) (previous : Option String) (r : Fields Float) (identity : String)
      → validate_link P sequence previous r ≡ ok identity
      → (is_integer (get "sequence" r) sequence ≡ true)
        × (get_is_text "kind" r (kind_at sequence) ≡ true)
        × (is_integer (get "schema_version" r) 1 ≡ true)
        × (has_previous P previous r ≡ true)
        × ((item "record_id" r >>= text_of) ≡ ok identity)
  unfolding validate_link
  validate_link-facts sequence previous r identity h =
      let version = is_integer (get "schema_version" r) 1 in
      let kind = get_is_text "kind" r (kind_at sequence) in
      let at = is_integer (get "sequence" r) sequence in
      let linked = has_previous P previous r in
      after (require version driver_error) _ h λ u₁ e₁ h₁.
        after (require kind driver_error) _ h₁ λ u₂ e₂ h₂.
          after (require at driver_error) _ h₂ λ u₃ e₃ h₃.
            after (require linked driver_error) _ h₃ λ u₄ e₄ h₄. (
              require-eq-ok at driver_error e₃,
              require-eq-ok kind driver_error e₂,
              require-eq-ok version driver_error e₁,
              require-eq-ok linked driver_error e₄,
              h₄,
            )

  -- In a chain of more records the links of the later ones are the same.
  validate_chain_from-IsLinked :
      (start : ℕ) (previous : Option String) (records : List (Fields Float)) (i : ℕ)
      (r : Fields Float) {u : Unit {0}}
      → validate_chain_from P start previous records ≡ ok u
      → get_elem? records i ≡ some r
      → IsLinked records start i previous r
  unfolding validate_chain_from
  validate_chain_from-IsLinked start previous [] i r h found = cc
  validate_chain_from-IsLinked start previous (q ∷ records) zero r h found =
      after (validate_link P start previous q) _ h λ identity e k.
        let (at, kind, version, linked, named) = validate_link-facts start previous q identity e in
        let same : q ≡ r = cc in
        subst (λ s. IsLinked (q ∷ records) start zero previous s) same
          (
            subst (λ n. is_integer (get "sequence" q) n ≡ true) (omega arith) at,
            subst (λ n. get_is_text "kind" q (kind_at n) ≡ true) (omega arith) kind,
            version,
            linked,
          )
  validate_chain_from-IsLinked start previous (q ∷ records) (suc i) r h found =
      after (validate_link P start previous q) _ h λ identity e k.
        let (at, kind, version, linked, named) = validate_link-facts start previous q identity e in
        let (at', kind', version', linked') =
          validate_chain_from-IsLinked (suc start) (some identity) records i r k found in
        (
          subst (λ n. is_integer (get "sequence" r) n ≡ true) (omega arith) at',
          subst (λ n. get_is_text "kind" r (kind_at n) ≡ true) (omega arith) kind',
          version',
          Link-cons previous i q identity records r named linked',
        )

  -- In a chain of records that is accepted, the record at each position carries that position as its
  -- sequence, is the header exactly at the first position, and names as its parent the identity of the record
  -- in front of it, the header none.
  pub validate_record_chain-IsLinked :
      (records : List (Fields Float)) (i : ℕ) (r : Fields Float) {u : Unit {0}}
      → validate_record_chain P records ≡ ok u
      → get_elem? records i ≡ some r
      → IsLinked records 0 i none r
  unfolding validate_record_chain
  validate_record_chain-IsLinked records i r h found =
      validate_chain_from-IsLinked 0 none records i r h found
