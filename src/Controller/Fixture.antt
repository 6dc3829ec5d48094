-- ===== src/Controller/Fixture.antt =====
-- controller.py: the fixture's data, and the RunSpec, the candidate and the baseline of a step.
use hermes_agentic_variation.Base.{
  ℕ, ◌*◌, ◌^◌, String, true, List, [], ◌∷◌, Option, none, some, str_eq, if◌then◌else◌,
}
use hermes_agentic_variation.Base.Int.{pos}
use hermes_agentic_variation.Base.Float.{finite, Number, float, to_float}
use hermes_agentic_variation.Base.Result.{overflow_error, Result, ok, err}
use hermes_agentic_variation.Base.Value.{Value, bool, num, str, tuple, dict, end, entry}
use hermes_agentic_variation.Contracts.Identity.{Hashing}
use hermes_agentic_variation.Contracts.Json.{get, natural, text_values}
use hermes_agentic_variation.Contracts.RunSpec.{RunSpecArgs}

-- A whole float.
abbrev pub whole : ℕ → Number
whole n = float (finite (pos (n * 2 ^ 1074)))

-- `_STRATEGY_SCORES`
unfoldable pub strategy_score : String → Option Number
strategy_score s =
    if str_eq s "baseline"
    then some (whole 10)
    else if str_eq s "single_pass"
    then some (whole 7)
    else if str_eq s "memoized_lookup"
    then some (whole 5)
    else none

abbrev pub strategies : Value
strategies = dict (
    entry "baseline" (num (whole 10))
      (entry "single_pass" (num (whole 7)) (entry "memoized_lookup" (num (whole 5)) end)))

abbrev pub texts : List String → Value
texts ss = tuple (text_values ss)

-- `_FIXTURE_SEED` and `_FIXTURE_ID`
abbrev pub fixture_seed : Hashing → String
fixture_seed h = h.of_text "agentic-variation-phase1-fixture-v1"

abbrev pub fixture_id : String
fixture_id = "phase1.strategy.v1"

-- The arguments of the RunSpec of a new run.
unfoldable pub spec_args : Hashing → String → Value → Value → ℕ → RunSpecArgs
spec_args h run_id objective approval_receipt wait_seconds = record {
  run_id = str run_id;
  target_root = str "plugin://agentic-variation/phase1-fixture";
  seed_digest = str (fixture_seed h);
  objective = objective;
  exclusions = texts (
      "No file or repository mutation" ∷ "No command execution" ∷ "No network access"
      ∷ "No external effects" ∷ []);
  evaluator_id = str fixture_id;
  evaluator_config = dict (entry "strategies" strategies end);
  correctness_predicates = texts ("strategy_allowed" ∷ "output_matches" ∷ []);
  score_keys = texts ("operations" ∷ []);
  comparison = str "minimize";
  allowed_toolsets = texts ("todo" ∷ []);
  network_policy = str "disabled";
  max_steps = natural 1;
  max_wall_seconds = natural wait_seconds;
  max_cost_usd = num (whole 1);
  no_progress_limit = natural 1;
  approval_receipt = approval_receipt;
}

-- `prior.get("scores", {}).get("operations")` of an evaluation that was eligible.
abbrev operations : Option Value → Option Number
operations (some (num n)) = some n
operations _ = none

abbrev operations_in : Option Value → Option Number
operations_in (some (dict es)) = operations (get "operations" es)
operations_in _ = none

abbrev score_if : Option Value → Option Value → Option Number
score_if (some (bool true)) scores = operations_in scores
score_if _ scores = none

abbrev prior_score : Value → Option Number
prior_score (dict es) = score_if (get "eligible" es) (get "scores" es)
prior_score _ = none

-- The last score of an eligible evaluation, in the order of the ledger.
unfoldable pub last_score : List Value → Option Number
last_score [] = none
last_score (v ∷ vs) = elim (last_score vs) [ none ↦ prior_score v | some n ↦ some n ]

abbrev as_baseline : Option Number → Result Number
as_baseline none = ok (whole 10)
as_baseline (some n) = elim (to_float n) [ none ↦ err overflow_error | some f ↦ ok (float f) ]

-- `baseline_scores`
unfoldable pub baseline_of : List Value → Result Number
unfolding last_score
baseline_of evaluations = as_baseline (last_score evaluations)
