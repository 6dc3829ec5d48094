-- ===== src/Evaluator.antt =====
-- evaluator.py: the model-free evaluator of fixture outcomes.
pub mod Eligibility
use hermes_agentic_variation.Base.{
  String, Bool, true, false, not, ◌&&◌, ◌||◌, List, [], ◌∷◌, Option, none, some, all, any, str_eq,
  if◌then◌else◌,
}
use text.Mathlib.Text.{is_lt}
use Prim.Native.String.{compare}
use hermes_agentic_variation.Base.Float.{Number, exact, to_float, isfinite, le_float, lt_float}
use hermes_agentic_variation.Base.Result.{
  Error, contract_error, overflow_error, Result, ok, err, require, raise_if, ◌>>=◌, ◌>>◌,
}
use hermes_agentic_variation.Base.Value.{Value, bool, num, str, dict, Entries, end, entry}
use hermes_agentic_variation.Contracts.Candidate
use hermes_agentic_variation.Contracts.Candidate.{Candidate}
use hermes_agentic_variation.Contracts.Evaluation
use hermes_agentic_variation.Contracts.Evaluation.{Scores, EvaluationResult, score_entries}
use hermes_agentic_variation.Contracts.Identity.{Hashing}
use hermes_agentic_variation.Contracts.Json.{get, fields}
use hermes_agentic_variation.Contracts.RunSpec.{Comparison, minimize, maximize, pareto, RunSpec}
use hermes_agentic_variation.Contracts.RunSpec.Stored.{identity}

-- `FixtureOutcome`. The evidence is the text whose UTF-8 bytes are passed.
pub record FixtureOutcome : Type 0 where
  pub correctness : Entries
  pub scores : Entries
  pub evidence : String

abbrev pub has : Entries → String → Bool
has es key = elim (get key es) [ none ↦ false | some v ↦ true ]

-- `isinstance(outcome.correctness[key], bool)`, with its value.
abbrev pub flag : Option Value → Option Bool
flag (some (bool b)) = some b
flag _ = none

abbrev pub is_flag : Entries → String → Bool
is_flag es key = elim (flag (get key es)) [ none ↦ false | some b ↦ true ]

-- `outcome.correctness[key]`, once the checks are passed.
abbrev pub holds : Entries → String → Bool
holds es key = elim (flag (get key es)) [ none ↦ false | some b ↦ b ]

abbrev pub number : Option Value → Option Number
number (some (num n)) = some n
number _ = none

missing_scores : Error
missing_scores = contract_error "score_keys" "must resolve to finite numeric values"

-- A score that is a finite number and no bool.
unfoldable pub require_score : Option Value → Result Number
unfolding missing_scores
require_score (some (num n)) = elim (to_float n) [
  | none ↦ err overflow_error
  | some f ↦ if isfinite f then ok n else err missing_scores
]
require_score _ = err missing_scores

-- The scores at the keys. The source walks the keys as a set; which bad key raises first is not
-- observable but for the choice between the two exceptions.
unfoldable pub scores_at : Entries → List String → Result Scores
unfolding require_score
scores_at es [] = ok []
scores_at es (key ∷ keys) = do
  n ← require_score (get key es)
  rest ← scores_at es keys
  ok ((key, n) ∷ rest)

-- `candidate <= baseline` and `candidate < baseline`, or the other way round to maximize.
unfoldable pub non_regressing_at : Comparison → Number → Number → Bool
non_regressing_at minimize a b = le_float (exact a) (exact b)
non_regressing_at _ a b = le_float (exact b) (exact a)

unfoldable pub better_at : Comparison → Number → Number → Bool
better_at minimize a b = lt_float (exact a) (exact b)
better_at _ a b = lt_float (exact b) (exact a)

-- `all(...)` and `any(...)` over the keys, on the scores at the keys.
unfoldable pub all_scores : (Number → Number → Bool) → Scores → Scores → Bool
all_scores p ((k, a) ∷ as') ((j, b) ∷ bs) = p a b && all_scores p as' bs
all_scores p _ _ = true

unfoldable pub any_scores : (Number → Number → Bool) → Scores → Scores → Bool
any_scores p ((k, a) ∷ as') ((j, b) ∷ bs) = p a b || any_scores p as' bs
any_scores p _ _ = false

abbrev is_true : Option Value → Bool
is_true (some (bool b)) = b
is_true _ = false

-- `run_spec.evaluator_config.get("strict_improvement") is True`
unfoldable pub strict_required : RunSpec → Bool
strict_required spec = is_true (get "strict_improvement" spec.evaluator_config)

unfoldable pub reason_for : Bool → Bool → Bool → Bool → String
reason_for passed non_regressing strict better =
    if not passed
    then "candidate failed at least one correctness predicate"
    else if not non_regressing
    then "candidate regressed at least one required score"
    else if strict && not better
    then "candidate did not strictly improve a required score"
    else "correctness passed and scores are non-regressing"

-- `sorted(set(keys))`
abbrev insert_key : String → List String → List String
insert_key k [] = k ∷ []
insert_key k (j ∷ js) =
    if str_eq k j then j ∷ js else if is_lt (compare k j) then k ∷ j ∷ js else j ∷ insert_key k js

abbrev sorted_keys : List String → List String
sorted_keys [] = []
sorted_keys (k ∷ ks) = insert_key k (sorted_keys ks)

abbrev flags_at : Entries → List String → Entries
flags_at es [] = end
flags_at es (k ∷ ks) = entry k (bool (holds es k)) (flags_at es ks)

abbrev values_at : Entries → List String → Entries
values_at es [] = end
values_at es (k ∷ ks) = elim (number (get k es)) [
  | none ↦ values_at es ks
  | some n ↦ entry k (num n) (values_at es ks)
]

-- `{key: ... for key in score_keys}`: a key that comes again keeps its first place.
abbrev has_key : String → Scores → Bool
has_key k [] = false
has_key k ((j, n) ∷ scores) = str_eq j k || has_key k scores

abbrev keep_first : Scores → Scores → Scores
keep_first seen [] = []
keep_first seen ((k, n) ∷ scores) =
    let rest = keep_first ((k, n) ∷ seen) scores in if has_key k seen then rest else (k, n) ∷ rest

abbrev pub is_pareto : Comparison → Bool
is_pareto pareto = true
is_pareto _ = false

-- The result that the checked scores give.
unfoldable pub result_of :
    Hashing → RunSpec → Candidate → Entries → FixtureOutcome → Scores → Scores → EvaluationResult
unfolding all_scores any_scores strict_required
result_of h spec candidate baseline outcome scores base =
    let passed = all (holds outcome.correctness) spec.correctness_predicates in
    let non_regressing = all_scores (non_regressing_at spec.comparison) scores base in
    let better = any_scores (better_at spec.comparison) scores base in
    let strict = strict_required spec in
    let evidence_hash = h.of_text outcome.evidence in
    let predicates = sorted_keys spec.correctness_predicates in
    let keys = sorted_keys spec.score_keys in
    let payload = fields (
      ("run_spec_hash", str (identity h spec))
      ∷ ("candidate_hash", str (Candidate.identity h candidate))
      ∷ ("evaluator_id", str spec.evaluator_id)
      ∷ ("correctness", dict (flags_at outcome.correctness predicates))
      ∷ ("scores", dict (values_at outcome.scores keys))
      ∷ ("baseline_scores", dict (values_at baseline keys))
      ∷ ("evidence_hash", str evidence_hash)
      ∷ []) in
    record {
      evaluation_id = h.of_json (dict payload);
      candidate_hash = Candidate.identity h candidate;
      run_spec_hash = identity h spec;
      evaluator_id = spec.evaluator_id;
      correctness_passed = passed;
      scores = keep_first [] scores;
      baseline_scores = keep_first [] base;
      eligible = passed && non_regressing && (better || not strict);
      reason = reason_for passed non_regressing strict better;
      evidence_hashes = evidence_hash ∷ [];
    }

-- `FixtureEvaluator.evaluate`
unfoldable pub evaluate :
    Hashing → RunSpec → Candidate → Entries → FixtureOutcome → Result EvaluationResult
unfolding scores_at result_of
evaluate h spec candidate baseline outcome = do
  require (str_eq candidate.run_spec_hash (identity h spec))
      (contract_error "candidate" "RunSpec hash does not match")
  raise_if (is_pareto spec.comparison)
      (contract_error "comparison" "fixture evaluator does not implement pareto comparison")
  raise_if (str_eq outcome.evidence "") (contract_error "evidence" "must be non-empty bytes")
  require (all (has outcome.correctness) spec.correctness_predicates)
      (contract_error "correctness_predicates" "are missing from fixture outcome")
  require (all (is_flag outcome.correctness) spec.correctness_predicates)
      (contract_error "correctness_predicates" "must resolve to booleans")
  require (all (has outcome.scores) spec.score_keys && all (has baseline) spec.score_keys)
      (contract_error "score_keys" "are missing from candidate or baseline scores")
  scores ← scores_at outcome.scores spec.score_keys
  base ← scores_at baseline spec.score_keys
  Evaluation.new (result_of h spec candidate baseline outcome scores base)
