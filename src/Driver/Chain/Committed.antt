-- ===== src/Driver/Chain/Committed.antt =====
-- apps/population_driver/replay.py: when a pending checkpoint counts as committed.
use metering.Prelude.{
  ℕ, suc, ◌≡◌, refl, subst, sym, arith, Bool, true, false, Option, none, some, List, length, leb,
  ◌==◌, get_elem?,
}
use metering.Prelude.Int.{ℤ, pos, negsuc}
use metering.Runtime.{
  after, ok-injective, or_raise-eq-ok, ok, or_raise, index_error, Json, null, bool, int, float, str,
  surrogates, arr, obj, Platform, Fields,
}
use metering.Runtime.{equals}
use metering.Controller.Generations.{get_or_null}
use metering.Driver.Chain.{
  integer_of, Classified, nothing_pending, active, committed, classify_completed, classify_round,
  classify_number, classify_at, classify_pending,
}

integer_of-some : {F : Type 0} (v : Json F) (n : ℤ) → integer_of v ≡ some n → v ≡ int n
unfolding integer_of
integer_of-some (int m) n h = cc
integer_of-some null n h = cc
integer_of-some (bool b) n h = cc
integer_of-some (float x) n h = cc
integer_of-some (str s) n h = cc
integer_of-some (surrogates cs) n h = cc
integer_of-some (arr vs) n h = cc
integer_of-some (obj d) n h = cc

module _ (P : Platform) where
  open P use {Float}

  -- A pending round that is written already: the last record is of its round and of its intent.
  abbrev pub IsWritten : List (Fields Float) → Fields Float → Type 0
  IsWritten records pending =
      (n : ℕ) × (completed : Fields Float) × (get_or_null "round" pending ≡ int (pos n))
      × (suc n ≡ length records)
      × (get_elem? records n ≡ some completed)
      × (equals P (get_or_null "intent_id" completed) (get_or_null "intent_id" pending) ≡ true)

  -- What a committed classification tells of the one it is.
  IsCommitted : Classified Float → Fields Float → Type 0
  IsCommitted nothing_pending p = ⊥
  IsCommitted (active q) p = ⊥
  IsCommitted (committed q) p = q ≡ p

  active_not_committed : (p q : Fields Float) → ok (active p) ≡ ok (committed q) → ⊥
  unfolding IsCommitted
  active_not_committed p q h =
      subst (λ (c : Classified Float). IsCommitted c q) (sym (ok-injective h)) refl

  classify_completed-committed :
      (b : Bool) (pending p : Fields Float)
      → classify_completed P b pending ≡ ok (committed p)
      → (b ≡ true) × (pending ≡ p)
  unfolding classify_completed IsCommitted
  classify_completed-committed true pending p h =
      (refl, subst (λ (c : Classified Float). IsCommitted c p) (sym (ok-injective h)) refl)
  classify_completed-committed false pending p h = cc

  classify_round-committed :
      (later last : Bool) (records : List (Fields Float)) (pending p : Fields Float) (n : ℕ)
      → (suc n == length records) ≡ last
      → get_or_null "round" pending ≡ int (pos n)
      → classify_round P later last records pending n ≡ ok (committed p)
      → (pending ≡ p) × IsWritten records pending
  unfolding classify_round
  classify_round-committed true last records pending p n e r h =
      absurd (active_not_committed pending p h)
  classify_round-committed false true records pending p n e r h =
      after (or_raise index_error (get_elem? records n)) _ h λ completed found k.
        let same = equals P (get_or_null "intent_id" completed) (get_or_null "intent_id" pending) in
        let (equal, named) = classify_completed-committed same pending p k in
        (
          named,
          (
            n,
            completed,
            r,
            ground (arith, e),
            or_raise-eq-ok index_error (get_elem? records n) found,
            equal,
          ),
        )
  classify_round-committed false false records pending p n e r h = cc

  classify_number-committed :
      (records : List (Fields Float)) (pending p : Fields Float) (o : Option ℤ)
      → integer_of (get_or_null "round" pending) ≡ o
      → classify_number P records pending o ≡ ok (committed p)
      → (pending ≡ p) × IsWritten records pending
  unfolding classify_number classify_at
  classify_number-committed records pending p none e h = absurd (active_not_committed pending p h)
  classify_number-committed records pending p (some (negsuc n)) e h = cc
  classify_number-committed records pending p (some (pos n)) e h =
      classify_round-committed (leb (length records) n) (suc n == length records) records pending p
        n refl (integer_of-some (get_or_null "round" pending) (pos n) e) h

  -- A pending checkpoint counts as committed, and is then removed, only if it is the one that was read, the
  -- last record of the driver is of its round, and that record has its intent.
  pub classify_pending-IsWritten :
      (records : List (Fields Float)) (pending p : Fields Float)
      → classify_pending P records (some pending) ≡ ok (committed p)
      → (pending ≡ p) × IsWritten records pending
  unfolding classify_pending
  classify_pending-IsWritten records pending p h =
      classify_number-committed records pending p (integer_of (get_or_null "round" pending)) refl h
