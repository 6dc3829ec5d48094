-- ===== src/Contracts/TerminalReceipt.antt =====
-- contracts.py: `TerminalReceipt`. `steps_used` is an int or a bool, which counts as one.
use hermes_agentic_variation.Base.{
  String, Bool, true, false, ◌&&◌, List, [], ◌∷◌, Option, none, some, any, str_eq,
}
use hermes_agentic_variation.Base.Int.{ℤ, pos, negsuc}
use hermes_agentic_variation.Base.Float.{int}
use hermes_agentic_variation.Base.Result.{contract_error, Result, ok, require, raise_if, ◌>>◌}
use hermes_agentic_variation.Base.Value.{Value, num, str, tuple, dict}
use hermes_agentic_variation.Contracts.Checks.{
  require_text, require_digest, require_text_tuple, finite_nonneg,
}
use hermes_agentic_variation.Contracts.Identity.{Hashing}
use hermes_agentic_variation.Contracts.Json.{fields, text_list, text_values, optional_text}
use hermes_agentic_variation.Contracts.Memory.{require_optional_digest}

pub record TerminalReceipt : Type 0 where
  pub receipt_id : String
  pub run_spec_hash : String
  pub terminal_state : String
  pub best_candidate_hash : Option String
  pub steps_used : ℤ
  pub cost_usd : Value
  pub unresolved_failures : List String
  pub export_manifest_hash : String

abbrev pub terminal_states : List String
terminal_states = "succeeded" ∷ "no_result" ∷ "cancelled" ∷ "budget_exhausted" ∷ "failed" ∷ []

abbrev is_none : Option String → Bool
is_none none = true
is_none (some s) = false

abbrev is_natural : ℤ → Bool
is_natural (pos n) = true
is_natural (negsuc n) = false

-- `TerminalReceipt.__post_init__`
unfoldable pub new : TerminalReceipt → Result TerminalReceipt
unfolding require_optional_digest
new r = do
  require_text "receipt_id" (str r.receipt_id)
  require_digest "run_spec_hash" (str r.run_spec_hash)
  require_digest "export_manifest_hash" (str r.export_manifest_hash)
  require (any (str_eq r.terminal_state) terminal_states)
      (contract_error "terminal_state" "must be a supported terminal state")
  require_optional_digest "best_candidate_hash" (optional_text r.best_candidate_hash)
  raise_if (str_eq r.terminal_state "succeeded" && is_none r.best_candidate_hash)
      (contract_error "best_candidate_hash" "required by a succeeded terminal receipt")
  require (is_natural r.steps_used) (contract_error "steps_used" "must be non-negative")
  finite_nonneg (contract_error "cost_usd" "must be finite and non-negative") r.cost_usd
  require_text_tuple "unresolved_failures" true (tuple (text_values r.unresolved_failures))
  ok r

unfoldable pub to_dict : TerminalReceipt → Value
to_dict r = dict (
    fields (
      ("contract_version", str "avo.terminal-receipt.v1")
      ∷ ("receipt_id", str r.receipt_id)
      ∷ ("run_spec_hash", str r.run_spec_hash)
      ∷ ("terminal_state", str r.terminal_state)
      ∷ ("best_candidate_hash", optional_text r.best_candidate_hash)
      ∷ ("steps_used", num (int r.steps_used))
      ∷ ("cost_usd", r.cost_usd)
      ∷ ("unresolved_failures", text_list r.unresolved_failures)
      ∷ ("export_manifest_hash", str r.export_manifest_hash)
      ∷ []))

-- `receipt.identity`
unfoldable pub identity : Hashing → TerminalReceipt → String
identity h r = h.of_json (to_dict r)
