-- ===== src/Journal.antt =====
-- apps/_support/journal.py: content-addressed records. Files and fsync are not modelled.
use metering.Prelude.{Bool, ◌&&◌, not, Option, some, ◌==◌, String, str_eq, any_char, is_hex, count}
use metering.Runtime.{
  Result, ok, raise, ◌>>=◌, ◌>>◌, require, refuse, Failure, Json, str, obj, Platform, Fields, get,
  has_key, without, field,
}
use metering.AgentProtocol.{canonical_digest}

module _ (P : Platform) where
  open P use {Float}

  -- `content_record`: a document with its identity attached
  unfoldable pub content_record : Fields Float → Failure → Result (Fields Float)
  content_record body e = do
    refuse (has_key "record_id" body) e
    record_id ← canonical_digest P (obj body)
    ok (field "record_id" (str record_id) body)

  -- The texts that `validate_content_record` takes for an identity.
  unfoldable pub is_identity : String → Bool
  is_identity s = count s == 64 && not (any_char (λ c. not (is_hex c)) s)

  abbrev identity_text : Option (Json Float) → Failure → Result String
  identity_text (some (str s)) e = do require (is_identity s) e; ok s
  identity_text other e = raise e

  unfoldable pub validate_content_record : Fields Float → Failure → Result String
  unfolding is_identity
  validate_content_record d e = do
    supplied ← identity_text (get "record_id" d) e
    expected ← canonical_digest P (obj (without "record_id" d))
    require (str_eq expected supplied) e
    ok supplied
