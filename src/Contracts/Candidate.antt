-- ===== src/Contracts/Candidate.antt =====
-- contracts.py: `Candidate`.
use hermes_agentic_variation.Base.{String, false, List, [], ◌∷◌, Option, any}
use hermes_agentic_variation.Base.Result.{contract_error, Result, ok, raise_if, ◌>>◌}
use hermes_agentic_variation.Base.Value.{Value, str, tuple, dict}
use hermes_agentic_variation.Contracts.Checks.{require_text, require_digest, require_text_tuple}
use hermes_agentic_variation.Contracts.Identity.{Hashing}
use hermes_agentic_variation.Contracts.Json.{fields, text_list, text_values, optional_text}
use hermes_agentic_variation.Contracts.Paths.{is_unsafe}

pub record Candidate : Type 0 where
  pub candidate_id : String
  pub run_spec_hash : String
  pub parent_candidate_id : Option String
  pub artifact_digest : String
  pub child_result_hash : String
  pub changed_paths : List String
  pub hypothesis : String

-- `Candidate.__post_init__`
unfoldable pub new : Candidate → Result Candidate
new c = do
  require_text "candidate_id" (str c.candidate_id)
  require_digest "run_spec_hash" (str c.run_spec_hash)
  require_digest "artifact_digest" (str c.artifact_digest)
  require_digest "child_result_hash" (str c.child_result_hash)
  require_text "hypothesis" (str c.hypothesis)
  require_text_tuple "changed_paths" false (tuple (text_values c.changed_paths))
  raise_if (any is_unsafe c.changed_paths)
      (contract_error "changed_paths" "must be relative and traversal-free")
  ok c

unfoldable pub to_dict : Candidate → Value
to_dict c = dict (
    fields (
      ("contract_version", str "avo.candidate.v1")
      ∷ ("candidate_id", str c.candidate_id)
      ∷ ("run_spec_hash", str c.run_spec_hash)
      ∷ ("parent_candidate_id", optional_text c.parent_candidate_id)
      ∷ ("artifact_digest", str c.artifact_digest)
      ∷ ("child_result_hash", str c.child_result_hash)
      ∷ ("changed_paths", text_list c.changed_paths)
      ∷ ("hypothesis", str c.hypothesis)
      ∷ []))

-- `candidate.identity`
unfoldable pub identity : Hashing → Candidate → String
identity h c = h.of_json (to_dict c)
