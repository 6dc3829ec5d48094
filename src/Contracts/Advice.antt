-- ===== src/Contracts/Advice.antt =====
-- contracts.py: `SupervisorAdvice`.
use hermes_agentic_variation.Base.{String, false, true, List, [], ◌∷◌, ltb, length}
use hermes_agentic_variation.Base.Result.{contract_error, Result, ok, raise_if, ◌>>◌}
use hermes_agentic_variation.Base.Value.{Value, str, tuple, dict}
use hermes_agentic_variation.Contracts.Checks.{require_text, require_digest, require_text_tuple}
use hermes_agentic_variation.Contracts.Identity.{Hashing}
use hermes_agentic_variation.Contracts.Json.{fields, text_list, text_values}

pub record SupervisorAdvice : Type 0 where
  pub advice_id : String
  pub run_spec_hash : String
  pub stagnation_evidence_hash : String
  pub directions : List String
  pub prohibited_repeats : List String

-- `SupervisorAdvice.__post_init__`
unfoldable pub new : SupervisorAdvice → Result SupervisorAdvice
new a = do
  require_text "advice_id" (str a.advice_id)
  require_digest "run_spec_hash" (str a.run_spec_hash)
  require_digest "stagnation_evidence_hash" (str a.stagnation_evidence_hash)
  require_text_tuple "directions" false (tuple (text_values a.directions))
  require_text_tuple "prohibited_repeats" true (tuple (text_values a.prohibited_repeats))
  raise_if (ltb 3 (length a.directions))
      (contract_error "directions" "must contain at most three items")
  ok a

unfoldable pub to_dict : SupervisorAdvice → Value
to_dict a = dict (
    fields (
      ("contract_version", str "avo.supervisor-advice.v1")
      ∷ ("advice_id", str a.advice_id)
      ∷ ("run_spec_hash", str a.run_spec_hash)
      ∷ ("stagnation_evidence_hash", str a.stagnation_evidence_hash)
      ∷ ("directions", text_list a.directions)
      ∷ ("prohibited_repeats", text_list a.prohibited_repeats)
      ∷ []))

-- `advice.identity`
unfoldable pub identity : Hashing → SupervisorAdvice → String
identity h a = h.of_json (to_dict a)
