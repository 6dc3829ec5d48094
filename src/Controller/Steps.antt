-- ===== src/Controller/Steps.antt =====
-- controller.py: `Phase1Controller` over the ledger.
use hermes_agentic_variation.Base.{
  ℕ, zero, suc, ◌+◌, ◌/◌, ◌%◌, ◌==◌, String, Bool, true, [], ◌∷◌, Option, none, some, ltb,
  if◌then◌else◌,
}
use hermes_agentic_variation.Base.Float.{Number}
use hermes_agentic_variation.Base.Result.{Error, Result, value_error, ok, err}
use hermes_agentic_variation.Child.{
  Request, ChildOutcome, Lifecycle, leaf_request, launch, child_payload, summary_of,
}
use hermes_agentic_variation.Verdict.{candidate_row, evaluation_row, is_in_flight, conclude}
use hermes_agentic_variation.Storage.Tables.{Database}
use hermes_agentic_variation.Base.Value.{Value, bool, num, str, dict, end, entry}
use hermes_agentic_variation.Contracts.Candidate
use hermes_agentic_variation.Contracts.Candidate.{Candidate}
use hermes_agentic_variation.Contracts.Evaluation.{EvaluationResult}
use hermes_agentic_variation.Contracts.Identity.{Hashing}
use hermes_agentic_variation.Contracts.Json.{fields}
use hermes_agentic_variation.Contracts.RunSpec
use hermes_agentic_variation.Contracts.RunSpec.{RunSpec}
use hermes_agentic_variation.Contracts.RunSpec.Stored.{identity}
use hermes_agentic_variation.Controller.Fixture.{strategy_score, spec_args, baseline_of}
use hermes_agentic_variation.Controller.Payload.{parse_child_payload}
use hermes_agentic_variation.Evaluator.{FixtureOutcome, evaluate}
use hermes_agentic_variation.Patch.Lines.{append}
use hermes_agentic_variation.StateMachine.{
  Status, approve, cancel, start_step, child_failed, RunState, no_cost,
}
use hermes_agentic_variation.Storage.Evidence.{record_attempt, lineage}
use hermes_agentic_variation.Storage.Monad.{
  Action, pure, lift, gets, require, raise_if, ◌>>=◌, ◌>>◌,
}
use hermes_agentic_variation.Storage.Reads.{load_run}
use hermes_agentic_variation.Storage.Runs.{create_run, transition, record_observation}

-- `Phase1Controller`, with the JSON texts of Python. `disabled` and `variation_context` are the
-- methods that a subclass overrides: what `_require_enabled` raises, and `_variation_context`.
pub record Phase1Controller : Type 0 where
  pub hashing : Hashing
  pub loads : String → Option Value
  pub dumps : Value → String
  pub lifecycle : Lifecycle
  pub enabled : Bool
  pub wait_seconds : ℕ
  pub disabled : Error
  pub variation_context : String → Database → Result String

-- What `step` answers.
pub data Reply : Type 0 where
  failed : Status → String → Reply
  evaluated : Status → Bool → String → EvaluationResult → Candidate → Reply

unfoldable pub require_enabled : Phase1Controller → Action (Unit {0})
require_enabled c = require c.enabled c.disabled

-- `create_run`: the run's id is drawn at random by the caller's `secrets.token_hex`.
unfoldable pub create : Phase1Controller → String → Value → Value → Action RunState
unfolding require_enabled spec_args create_run transition
create c run_id objective approval_receipt = do
  require_enabled c
  spec ← lift (RunSpec.new (spec_args c.hashing run_id objective approval_receipt c.wait_seconds))
  state ← create_run c.hashing spec
  transition c.hashing run_id approve state.revision none no_cost

-- A decimal number in front of a text. The fuel is more than the number of its digits.
abbrev digit : ℕ → String → String
unfolding append
digit d s =
    if d == 0
    then append "0" s
    else if d == 1
    then append "1" s
    else if d == 2
    then append "2" s
    else if d == 3
    then append "3" s
    else if d == 4
    then append "4" s
    else if d == 5
    then append "5" s
    else if d == 6
    then append "6" s
    else if d == 7
    then append "7" s
    else if d == 8
    then append "8" s
    else append "9" s

unfoldable decimal_in : ℕ → ℕ → String → String
unfolding digit
decimal_in zero n s = s
decimal_in (suc fuel) n s =
    let more = decimal_in fuel (n / 10) (digit (n % 10) s) in if ltb n 10 then digit n s else more

unfoldable pub decimal : ℕ → String
unfolding decimal_in
decimal n = decimal_in (suc n) n ""

-- `child_failed`, and the answer with its error.
unfoldable pub fail : Phase1Controller → String → RunState → String → Action Reply
unfolding transition
fail c run_id state error = do
  after ← transition c.hashing run_id child_failed state.revision none no_cost
  pure (failed after.status error)

-- The artifact, the candidate and the outcome of a strategy that is allowed.
abbrev artifact : Phase1Controller → String → String → String
artifact c strategy rationale =
    c.dumps (dict (fields (("rationale", str rationale) ∷ ("strategy", str strategy) ∷ [])))

unfoldable pub candidate_of :
    Phase1Controller → String → RunSpec → RunState → ChildOutcome → String → String → Candidate
unfolding append decimal
candidate_of c run_id spec state child strategy rationale = record {
  candidate_id = append run_id (append "-candidate-" (decimal (state.steps_used + 1)));
  run_spec_hash = identity c.hashing spec;
  parent_candidate_id = state.best_candidate_hash;
  artifact_digest = c.hashing.of_text (artifact c strategy rationale);
  child_result_hash = child.result_hash;
  changed_paths = "fixtures/strategy.json" ∷ [];
  hypothesis = rationale;
}

unfoldable pub outcome_of : Phase1Controller → String → String → Number → FixtureOutcome
outcome_of c strategy rationale score = record {
  correctness = entry "strategy_allowed" (bool true) (entry "output_matches" (bool true) end);
  scores = entry "operations" (num score) end;
  evidence = artifact c strategy rationale;
}

-- The attempt is recorded, and the verdict applied.
unfoldable pub recorded :
    Phase1Controller → String → RunState → String → Candidate → EvaluationResult → Action Reply
unfolding record_attempt conclude
recorded c run_id state strategy candidate evaluation = do
  record_attempt run_id (candidate_row c.hashing candidate) (evaluation_row c.hashing evaluation)
  after ←
      conclude c.hashing run_id state (Candidate.identity c.hashing candidate) evaluation.eligible
  pure (evaluated after.status evaluation.eligible strategy evaluation candidate)

-- The evaluation of the candidate, and its two transitions.
unfoldable pub judge :
    Phase1Controller
    → String
    → RunSpec
    → RunState
    → ChildOutcome
    → String
    → String
    → Number
    → Action Reply
unfolding candidate_of outcome_of baseline_of evaluate recorded lineage
judge c run_id spec state child strategy rationale score = do
  candidate ← lift (Candidate.new (candidate_of c run_id spec state child strategy rationale))
  documents ← gets (lineage run_id)
  baseline ← lift (baseline_of documents.1)
  evaluation ← lift (
      evaluate c.hashing spec candidate (entry "operations" (num baseline) end)
        (outcome_of c strategy rationale score))
  recorded c run_id state strategy candidate evaluation

unfoldable pub choose :
    Phase1Controller
    → String
    → RunSpec
    → RunState
    → ChildOutcome
    → Option (String × String)
    → Action Reply
unfolding fail judge strategy_score
choose c run_id spec state child none = fail c run_id state "INVALID_CHILD_PAYLOAD"
choose c run_id spec state child (some (strategy, rationale)) = elim (strategy_score strategy) [
  | none ↦ fail c run_id state "STRATEGY_NOT_ALLOWED"
  | some score ↦ judge c run_id spec state child strategy rationale score
]

abbrev pub launch_error : Value
launch_error = dict (fields (("error_classification", str "CHILD_LAUNCH_ERROR") ∷ []))

unfoldable pub finish :
    Phase1Controller → String → RunSpec → RunState → Option ChildOutcome → Action Reply
unfolding fail choose record_observation parse_child_payload
finish c run_id spec state none = do
  reply ← fail c run_id state "CHILD_LAUNCH_ERROR"
  record_observation c.hashing run_id "child_launch_error" launch_error
  pure reply
finish c run_id spec state (some child) = do
  record_observation c.hashing run_id "child_result" (child_payload child)
  elim (summary_of child) [
    | none ↦ fail c run_id state "CHILD_FAILED"
    | some s ↦ choose c run_id spec state child (parse_child_payload c.loads s)
  ]

-- `_variation_goal`
abbrev variation_goal : String
variation_goal =
    "Choose the best deterministic strategy for the supplied fixture. Return exactly one JSON object with string fields strategy and rationale. Allowed strategy values: baseline, single_pass, memoized_lookup."

-- `_variation_context` of Phase 1
abbrev pub phase1_context : String
phase1_context =
    "This is an isolated reasoning fixture. You have no file, command, repository, credential, or network authority. The only permitted output is the requested JSON. Scores are deterministic operations: baseline=10, single_pass=7, memoized_lookup=5. Lower is better."

-- The request of a step, with its context.
unfoldable pub step_request : Phase1Controller → String → RunState → String → Request
unfolding append decimal leaf_request
step_request c run_id state context =
    leaf_request variation_goal context
      (append run_id (append ":revision:" (decimal state.revision))) c.wait_seconds

abbrev pub requested : Phase1Controller → String → RunState → Result String → Result Request
requested c run_id state (ok context) = ok (step_request c run_id state context)
requested c run_id state (err e) = err e

unfoldable pub run_child : Phase1Controller → String → RunState → Action (Option ChildOutcome)
unfolding launch step_request
run_child c run_id state db =
    launch c.hashing c.lifecycle (requested c run_id state (c.variation_context run_id db)) db

-- `step`
unfoldable pub step : Phase1Controller → String → Action Reply
unfolding require_enabled load_run transition run_child finish
step c run_id = do
  require_enabled c
  loaded? ← gets (load_run run_id)
  loaded ← lift loaded?
  state ← transition c.hashing run_id start_step loaded.1.revision none no_cost
  child ← run_child c run_id state
  finish c run_id loaded.0 state child

-- `cancel`
unfoldable pub cancel_run : Phase1Controller → String → Action RunState
unfolding require_enabled load_run transition
cancel_run c run_id = do
  require_enabled c
  loaded? ← gets (load_run run_id)
  loaded ← lift loaded?
  raise_if (is_in_flight loaded.1.status)
      (value_error "in-flight cancellation is not claimed in Phase 1")
  transition c.hashing run_id cancel loaded.1.revision none no_cost
