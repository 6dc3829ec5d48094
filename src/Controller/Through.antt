-- ===== src/Controller/Through.antt =====
-- The Phase 1 controller reaches the store only through its methods.
use hermes_agentic_variation.Base.{String, Option, none, some}
use hermes_agentic_variation.Base.Float.{Number}
use hermes_agentic_variation.Base.Result
use hermes_agentic_variation.Base.Result.{value_error}
use hermes_agentic_variation.Base.Value.{Value, num, end, entry}
use hermes_agentic_variation.Child.{ChildOutcome, child_payload, summary_of}
use hermes_agentic_variation.Contracts.Candidate
use hermes_agentic_variation.Contracts.Candidate.{Candidate}
use hermes_agentic_variation.Contracts.Evaluation.{EvaluationResult}
use hermes_agentic_variation.Contracts.RunSpec
use hermes_agentic_variation.Contracts.RunSpec.{RunSpec}
use hermes_agentic_variation.Controller.Fixture.{strategy_score, spec_args, baseline_of}
use hermes_agentic_variation.Controller.Payload.{parse_child_payload}
use hermes_agentic_variation.Controller.Steps.{
  Phase1Controller, Reply, failed, evaluated, require_enabled, create, fail, candidate_of,
  outcome_of, recorded, judge, choose, launch_error, finish, requested, run_child, step, cancel_run,
}
use hermes_agentic_variation.Evaluator.{evaluate}
use hermes_agentic_variation.StateMachine.{
  approve, cancel, start_step, child_failed, RunState, no_cost,
}
use hermes_agentic_variation.Storage.Calls.Through.{
  Through, bind-Through, lift-Through, pure-Through, create_run-Through, transition-Through,
  observation-Through, attempt-Through,
}
use hermes_agentic_variation.Storage.Evidence.{record_attempt, lineage}
use hermes_agentic_variation.Storage.Monad.{Action, lift, gets, ◌>>=◌}
use hermes_agentic_variation.Storage.Reads.{load_run}
use hermes_agentic_variation.Storage.Runs.{create_run, transition, record_observation}
use hermes_agentic_variation.Verdict.{candidate_row, evaluation_row, is_in_flight, conclude}
use hermes_agentic_variation.Verdict.Through.{launch-Through, conclude-Through}

module _ (c : Phase1Controller) where
  pub require_enabled-Through :
      {B : Type 0} (f : Unit {0} → Action B)
      → ((u : Unit {0}) → Through c.hashing (f u))
      → Through c.hashing (require_enabled c >>= f)
  unfolding require_enabled
  require_enabled-Through f q = lift-Through c.hashing (Result.require c.enabled c.disabled) f q

  pub loaded-Through :
      {B : Type 0} (run_id : String) (f : RunSpec × RunState → Action B)
      → ((l : RunSpec × RunState) → Through c.hashing (f l))
      → Through c.hashing (gets (load_run run_id) >>= λ loaded?. lift loaded? >>= f)
  loaded-Through run_id f q db = lift-Through c.hashing (load_run run_id db) f q db

  fail-Through :
      (run_id : String) (s : RunState) (error : String) → Through c.hashing (fail c run_id s error)
  unfolding fail
  fail-Through run_id s error =
      bind-Through c.hashing (transition c.hashing run_id child_failed s.revision none no_cost) _
        (transition-Through c.hashing run_id child_failed s.revision none no_cost)
        (λ after. pure-Through c.hashing (failed after.status error))

  recorded-Through :
      (run_id : String) (s : RunState) (strategy : String) (candidate : Candidate)
      (evaluation : EvaluationResult)
      → Through c.hashing (recorded c run_id s strategy candidate evaluation)
  unfolding recorded
  recorded-Through run_id s strategy candidate evaluation =
      bind-Through c.hashing
        (record_attempt run_id (candidate_row c.hashing candidate)
          (evaluation_row c.hashing evaluation))
        _
        (attempt-Through c.hashing run_id (candidate_row c.hashing candidate)
          (evaluation_row c.hashing evaluation))
        (λ _.
          bind-Through c.hashing
            (conclude c.hashing run_id s (Candidate.identity c.hashing candidate)
              evaluation.eligible)
            _
            (conclude-Through c.hashing run_id s (Candidate.identity c.hashing candidate)
              evaluation.eligible)
            (λ after.
              pure-Through c.hashing
                (evaluated after.status evaluation.eligible strategy evaluation candidate)))

  judge-Through :
      (run_id : String) (spec : RunSpec) (s : RunState) (child : ChildOutcome)
      (strategy rationale : String) (score : Number)
      → Through c.hashing (judge c run_id spec s child strategy rationale score)
  unfolding judge
  judge-Through run_id spec s child strategy rationale score =
      lift-Through c.hashing (Candidate.new (candidate_of c run_id spec s child strategy rationale))
        _
        (λ candidate db.
          lift-Through c.hashing (baseline_of (lineage run_id db).1) _
            (λ baseline.
              lift-Through c.hashing
                (evaluate c.hashing spec candidate (entry "operations" (num baseline) end)
                  (outcome_of c strategy rationale score))
                _ (λ evaluation. recorded-Through run_id s strategy candidate evaluation))
            db)

  choose-Through :
      (run_id : String) (spec : RunSpec) (s : RunState) (child : ChildOutcome)
      (parsed : Option (String × String))
      → Through c.hashing (choose c run_id spec s child parsed)
  unfolding choose
  choose-Through run_id spec s child none = fail-Through run_id s "INVALID_CHILD_PAYLOAD"
  choose-Through run_id spec s child (some (strategy, rationale)) = scored (strategy_score strategy)
    where
      scored :
          (o : Option Number)
          → Through c.hashing (elim o as (λ _. Action Reply) [
            | none ↦ fail c run_id s "STRATEGY_NOT_ALLOWED"
            | some score ↦ judge c run_id spec s child strategy rationale score
          ])
      scored none = fail-Through run_id s "STRATEGY_NOT_ALLOWED"
      scored (some score) = judge-Through run_id spec s child strategy rationale score

  finish-Through :
      (run_id : String) (spec : RunSpec) (s : RunState) (child : Option ChildOutcome)
      → Through c.hashing (finish c run_id spec s child)
  unfolding finish
  finish-Through run_id spec s none =
      bind-Through c.hashing (fail c run_id s "CHILD_LAUNCH_ERROR") _
        (fail-Through run_id s "CHILD_LAUNCH_ERROR")
        (λ reply.
          bind-Through c.hashing
            (record_observation c.hashing run_id "child_launch_error" launch_error) _
            (observation-Through c.hashing run_id "child_launch_error" launch_error)
            (λ _. pure-Through c.hashing reply))
  finish-Through run_id spec s (some child) =
      bind-Through c.hashing
        (record_observation c.hashing run_id "child_result" (child_payload child)) _
        (observation-Through c.hashing run_id "child_result" (child_payload child))
        (λ _. answered (summary_of child))
    where
      answered :
          (o : Option String)
          → Through c.hashing (elim o as (λ _. Action Reply) [
            | none ↦ fail c run_id s "CHILD_FAILED"
            | some t ↦ choose c run_id spec s child (parse_child_payload c.loads t)
          ])
      answered none = fail-Through run_id s "CHILD_FAILED"
      answered (some t) = choose-Through run_id spec s child (parse_child_payload c.loads t)

  run_child-Through : (run_id : String) (s : RunState) → Through c.hashing (run_child c run_id s)
  unfolding run_child
  run_child-Through run_id s db =
      launch-Through c.hashing c.lifecycle (requested c run_id s (c.variation_context run_id db)) db

  pub step-Through : (run_id : String) → Through c.hashing (step c run_id)
  unfolding step
  step-Through run_id = require_enabled-Through _ (λ _. loaded-Through run_id _ (λ l.
      bind-Through c.hashing (transition c.hashing run_id start_step l.1.revision none no_cost) _
        (transition-Through c.hashing run_id start_step l.1.revision none no_cost)
        (λ s.
          bind-Through c.hashing (run_child c run_id s) _ (run_child-Through run_id s)
            (λ child. finish-Through run_id l.0 s child))))

  pub cancel_run-Through : (run_id : String) → Through c.hashing (cancel_run c run_id)
  unfolding cancel_run
  cancel_run-Through run_id = require_enabled-Through _ (λ _. loaded-Through run_id _ (λ l.
      lift-Through c.hashing (Result.raise_if (is_in_flight l.1.status) _) _
        (λ _. transition-Through c.hashing run_id cancel l.1.revision none no_cost)))

  pub create-Through :
      (run_id : String) (objective receipt : Value)
      → Through c.hashing (create c run_id objective receipt)
  unfolding create
  create-Through run_id objective receipt = require_enabled-Through _ (λ _.
      lift-Through c.hashing
        (RunSpec.new (spec_args c.hashing run_id objective receipt c.wait_seconds)) _
        (λ spec.
          bind-Through c.hashing (create_run c.hashing spec) _ (create_run-Through c.hashing spec)
            (λ s. transition-Through c.hashing run_id approve s.revision none no_cost)))
