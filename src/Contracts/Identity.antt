-- ===== src/Contracts/Identity.antt =====
-- SHA-256 as the library gives it: `hashlib` and the text of `json.dumps` are not modelled, only
-- that a digest is a function of what is hashed and has 64 lowercase hexadecimal digits.
use hermes_agentic_variation.Base.{String, true, ◌≡◌}
use hermes_agentic_variation.Base.Value.{Value}
use hermes_agentic_variation.Contracts.Checks.{is_digest}

pub record Hashing : Type 0 where
  -- the digest of the sorted, compact JSON text of a document
  pub of_json : Value → String
  pub of_json-is_digest : (v : Value) → is_digest (of_json v) ≡ true
  -- the digest of a text's UTF-8 bytes
  pub of_text : String → String
  pub of_text-is_digest : (s : String) → is_digest (of_text s) ≡ true
