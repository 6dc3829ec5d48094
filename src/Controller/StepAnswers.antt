-- ===== src/Controller/StepAnswers.antt =====
-- Every answer of `step` tells what the ledger holds.
use hermes_agentic_variation.Base.{String, Option, none, some, ◌≡◌, ap}
use hermes_agentic_variation.Base.Float.{Number}
use hermes_agentic_variation.Base.Result
use hermes_agentic_variation.Base.Result.{Result, ok, disabled_error}
use hermes_agentic_variation.Base.Value.{num, end, entry}
use hermes_agentic_variation.Contracts.Candidate
use hermes_agentic_variation.Contracts.Candidate.{Candidate}
use hermes_agentic_variation.Contracts.RunSpec.{RunSpec}
use hermes_agentic_variation.Controller.Answers.{status_of, fail-Reports}
use hermes_agentic_variation.Verdict.{candidate_row, evaluation_row, conclude}
use hermes_agentic_variation.Child.{ChildOutcome, child_payload, summary_of}
use hermes_agentic_variation.Verdict.Reports.{
  Reports, Reports-same, Reports-along, conclude-Reports, record_observation-load_run,
}
use hermes_agentic_variation.Controller.Fixture.{strategy_score, baseline_of}
use hermes_agentic_variation.Controller.Payload.{parse_child_payload}
use hermes_agentic_variation.Controller.Steps.{
  Phase1Controller, Reply, evaluated, fail, candidate_of, outcome_of, recorded, judge, choose,
  launch_error, finish, step, require_enabled, run_child,
}
use hermes_agentic_variation.Evaluator.{evaluate}
use hermes_agentic_variation.StateMachine.{start_step, RunState, no_cost}
use hermes_agentic_variation.Storage.Evidence.{record_attempt, lineage}
use hermes_agentic_variation.Storage.Monad.{Action, continue-ok, lift-ok, pure-ok}
use hermes_agentic_variation.Storage.Reads.{load_run}
use hermes_agentic_variation.Storage.Runs.{transition, record_observation}
use hermes_agentic_variation.Storage.Tables.{Database}

-- Once the candidate is recorded: the two transitions.
judge-Reports :
    (c : Phase1Controller) (run_id : String) (spec : RunSpec) (s : RunState) (child : ChildOutcome)
    (strategy rationale : String) (score : Number) (db : Database) (reply : Reply)
    (after : Database)
    → judge c run_id spec s child strategy rationale score db ≡ (ok reply, after)
    → Reports run_id (status_of reply) after
unfolding judge recorded
judge-Reports c run_id spec s child strategy rationale score db reply after e =
    let (candidate, _, e1) =
      lift-ok (Candidate.new (candidate_of c run_id spec s child strategy rationale)) _ db e in
    let (baseline, _, e2) = lift-ok (baseline_of (lineage run_id db).1) _ db e1 in
    let (evaluation, _, e3) =
      lift-ok
        (evaluate c.hashing spec candidate (entry "operations" (num baseline) end)
          (outcome_of c strategy rationale score))
        _ db e2 in
    let (_, d1, _, e4) =
      continue-ok
        (record_attempt run_id (candidate_row c.hashing candidate)
          (evaluation_row c.hashing evaluation) db)
        _ e3 in
    let hash : String = Candidate.identity c.hashing candidate in
    let (t, d3, q, e5) =
      continue-ok (conclude c.hashing run_id s hash evaluation.eligible d1) _ e4 in
    let reply' : Reply = evaluated t.status evaluation.eligible strategy evaluation candidate in
    let (same, same_db) = pure-ok reply' reply d3 after e5 in
    Reports-along run_id (status_of reply') (status_of reply) d3 after (ap status_of same) same_db
      (conclude-Reports c.hashing run_id s hash evaluation.eligible d1 t d3 q)

choose-Reports :
    (c : Phase1Controller) (run_id : String) (spec : RunSpec) (s : RunState) (child : ChildOutcome)
    (parsed : Option (String × String)) (db : Database) (reply : Reply) (after : Database)
    → choose c run_id spec s child parsed db ≡ (ok reply, after)
    → Reports run_id (status_of reply) after
unfolding choose
choose-Reports c run_id spec s child none db reply after e =
    fail-Reports c run_id s "INVALID_CHILD_PAYLOAD" db reply after e
choose-Reports c run_id spec s child (some (strategy, rationale)) db reply after e =
    scored (strategy_score strategy) e
  where
    scored :
        (o : Option Number)
        → (elim o as (λ _. Action Reply) [
          | none ↦ fail c run_id s "STRATEGY_NOT_ALLOWED"
          | some score ↦ judge c run_id spec s child strategy rationale score
        ])
            db
          ≡ (ok reply, after)
        → Reports run_id (status_of reply) after
    scored none q = fail-Reports c run_id s "STRATEGY_NOT_ALLOWED" db reply after q
    scored (some score) q =
        judge-Reports c run_id spec s child strategy rationale score db reply after q

finish-Reports :
    (c : Phase1Controller) (run_id : String) (spec : RunSpec) (s : RunState)
    (child : Option ChildOutcome) (db : Database) (reply : Reply) (after : Database)
    → finish c run_id spec s child db ≡ (ok reply, after)
    → Reports run_id (status_of reply) after
unfolding finish
finish-Reports c run_id spec s none db reply after e =
    let (answer, d1, q, e1) = continue-ok (fail c run_id s "CHILD_LAUNCH_ERROR" db) _ e in
    let (u, d2, r, e2) =
      continue-ok (record_observation c.hashing run_id "child_launch_error" launch_error d1) _ e1 in
    let (same, same_db) = pure-ok answer reply d2 after e2 in
    Reports-along run_id (status_of answer) (status_of reply) d2 after (ap status_of same) same_db (
      Reports-same run_id (status_of answer) d1 d2
        (record_observation-load_run c.hashing run_id "child_launch_error" launch_error d1 u d2
          run_id r)
        (fail-Reports c run_id s "CHILD_LAUNCH_ERROR" db answer d1 q))
finish-Reports c run_id spec s (some child) db reply after e =
    let (_, d1, _, e1) =
      continue-ok (record_observation c.hashing run_id "child_result" (child_payload child) db) _
        e in
    answered (summary_of child) d1 e1
  where
    answered :
        (o : Option String) (d : Database)
        → (elim o as (λ _. Action Reply) [
          | none ↦ fail c run_id s "CHILD_FAILED"
          | some t ↦ choose c run_id spec s child (parse_child_payload c.loads t)
        ])
            d
          ≡ (ok reply, after)
        → Reports run_id (status_of reply) after
    answered none d q = fail-Reports c run_id s "CHILD_FAILED" d reply after q
    answered (some t) d q =
        choose-Reports c run_id spec s child (parse_child_payload c.loads t) d reply after q

-- When a step answers, whatever the child did, the status that it tells is the one that the ledger
-- then holds for the run, and the run is neither running nor evaluating any more.
pub step-Reports :
    (c : Phase1Controller) (run_id : String) (db : Database) (reply : Reply) (after : Database)
    → step c run_id db ≡ (ok reply, after)
    → Reports run_id (status_of reply) after
unfolding step require_enabled
step-Reports c run_id db reply after e =
    let (_, _, e1) = lift-ok (Result.require c.enabled c.disabled) _ db e in
    let (found, _, e2) = lift-ok (load_run run_id db) _ db e1 in
    let (s, d1, _, e3) =
      continue-ok (transition c.hashing run_id start_step found.1.revision none no_cost db) _ e2 in
    let (child, d2, _, e4) = continue-ok (run_child c run_id s d1) _ e3 in
    finish-Reports c run_id found.0 s child d2 reply after e4
