-- ===== src/Contracts/Evaluation.antt =====
-- contracts.py: `EvaluationResult`. A score is a number by the time that the result is built.
use hermes_agentic_variation.Base.{
  none, some, String, Bool, true, false, not, ◌&&◌, ◌||◌, List, [], ◌∷◌, any, str_eq,
}
use hermes_agentic_variation.Base.Float.{Number, to_float, isfinite}
use hermes_agentic_variation.Base.Result.{
  contract_error, overflow_error, Result, ok, err, require, raise_if, ◌>>◌,
}
use hermes_agentic_variation.Base.Value.{Value, bool, num, str, dict, tuple, Entries, end, entry}
use hermes_agentic_variation.Contracts.Checks.{
  is_digest, require_text, require_digest, require_text_tuple,
}
use hermes_agentic_variation.Contracts.Freeze.{primitive_mapping}
use hermes_agentic_variation.Contracts.Identity.{Hashing}
use hermes_agentic_variation.Contracts.Json.{fields, text_list, text_values}

abbrev pub Scores : Type 0
Scores = List (String × Number)

pub record EvaluationResult : Type 0 where
  pub evaluation_id : String
  pub candidate_hash : String
  pub run_spec_hash : String
  pub evaluator_id : String
  pub correctness_passed : Bool
  pub scores : Scores
  pub baseline_scores : Scores
  pub eligible : Bool
  pub reason : String
  pub evidence_hashes : List String

-- A finite float; `math.isfinite` of an int that no float can hold raises.
unfoldable pub require_finite : String → Number → Result (Unit {0})
require_finite name n = elim (to_float n) [
  | none ↦ err overflow_error
  | some f ↦ require (isfinite f) (contract_error name "must contain finite numeric scores")
]

unfoldable pub require_all_finite : String → Scores → Result (Unit {0})
unfolding require_finite
require_all_finite name [] = ok tt
require_all_finite name ((k, n) ∷ scores) = require_finite name n >> require_all_finite name scores

abbrev has_empty_key : Scores → Bool
has_empty_key [] = false
has_empty_key ((k, n) ∷ scores) = str_eq k "" || has_empty_key scores

abbrev is_empty : Scores → Bool
is_empty [] = true
is_empty (e ∷ scores) = false

-- The check of one score mapping: keys, then that it is not empty and finite.
unfoldable pub require_scores : String → Scores → Result (Unit {0})
unfolding require_all_finite
require_scores name scores = do
  raise_if (has_empty_key scores) (contract_error name "keys must be non-empty strings")
  raise_if (is_empty scores) (contract_error name "must contain finite numeric scores")
  require_all_finite name scores

-- `EvaluationResult.__post_init__`
unfoldable pub new : EvaluationResult → Result EvaluationResult
unfolding require_scores
new r = do
  require_text "evaluation_id" (str r.evaluation_id)
  require_text "evaluator_id" (str r.evaluator_id)
  require_text "reason" (str r.reason)
  require_digest "candidate_hash" (str r.candidate_hash)
  require_digest "run_spec_hash" (str r.run_spec_hash)
  require_text_tuple "evidence_hashes" false (tuple (text_values r.evidence_hashes))
  raise_if (any (λ d. not (is_digest d)) r.evidence_hashes)
      (contract_error "evidence_hashes" "must be a lowercase SHA-256 digest")
  raise_if (r.eligible && not r.correctness_passed)
      (contract_error "eligible" "cannot be true when correctness failed")
  require_scores "scores" r.scores
  require_scores "baseline_scores" r.baseline_scores
  ok r

abbrev pub score_entries : Scores → Entries
score_entries [] = end
score_entries ((k, n) ∷ scores) = entry k (num n) (score_entries scores)

unfoldable pub to_dict : EvaluationResult → Value
to_dict r = dict (
    fields (
      ("contract_version", str "avo.evaluation-result.v1")
      ∷ ("evaluation_id", str r.evaluation_id)
      ∷ ("candidate_hash", str r.candidate_hash)
      ∷ ("run_spec_hash", str r.run_spec_hash)
      ∷ ("evaluator_id", str r.evaluator_id)
      ∷ ("correctness_passed", bool r.correctness_passed)
      ∷ ("scores", dict (primitive_mapping (score_entries r.scores)))
      ∷ ("baseline_scores", dict (primitive_mapping (score_entries r.baseline_scores)))
      ∷ ("eligible", bool r.eligible)
      ∷ ("reason", str r.reason)
      ∷ ("evidence_hashes", text_list r.evidence_hashes)
      ∷ []))

-- `evaluation.identity`
unfoldable pub identity : Hashing → EvaluationResult → String
identity h r = h.of_json (to_dict r)
