-- ===== src/Phase3/Through.antt =====
-- What phase3.py does to the ledger, it does through the store.
use hermes_agentic_variation.Base.{String, Bool, true, false, List, none, if◌then◌else◌}
use hermes_agentic_variation.Base.Result.{ok}
use hermes_agentic_variation.Base.Value.{Value}
use hermes_agentic_variation.Contracts.Candidate
use hermes_agentic_variation.Contracts.Candidate.{Candidate}
use hermes_agentic_variation.Contracts.Evaluation.{EvaluationResult}
use hermes_agentic_variation.Contracts.Identity.{Hashing}
use hermes_agentic_variation.Contracts.MutationReceipt.{MutationReceipt}
use hermes_agentic_variation.Contracts.RunSpec.{RunSpec}
use hermes_agentic_variation.Phase3.Data.{created_payload}
use hermes_agentic_variation.Phase3.Ledger.{
  record_created, fail_attempt, receipt_row, recorded, recover_attempt, recover_last, recover,
  has_current_receipt,
}
use hermes_agentic_variation.StateMachine.{Status, RunState, approve, child_failed, no_cost}
use hermes_agentic_variation.Storage.Calls.Through.{
  Left, Left-refl, Through, bind-Through, pure-Through, create_run-Through, transition-Through,
  observation-Through, mutation_attempt-Through,
}
use hermes_agentic_variation.Storage.Evidence.{lineage, record_mutation_attempt}
use hermes_agentic_variation.Storage.Runs.{create_run, transition, record_observation}
use hermes_agentic_variation.Storage.Tables.{Database}
use hermes_agentic_variation.Verdict.{
  candidate_row, evaluation_row, is_in_flight, classification, replay, abandon, abandoned,
}
use hermes_agentic_variation.Verdict.Through.{conclude-Through, replay-Through, abandon-Through}

-- The parts on the ledger alone.
module _ (h : Hashing) where
  pub record_created-Through :
      (run_id : String) (spec : RunSpec) (tree_hash : String)
      → Through h (record_created h run_id spec tree_hash)
  unfolding record_created
  record_created-Through run_id spec tree_hash =
      bind-Through h (create_run h spec) _ (create_run-Through h spec) (λ state.
        bind-Through h (transition h run_id approve state.revision none no_cost) _
          (transition-Through h run_id approve state.revision none no_cost)
          (λ approved.
            bind-Through h
              (record_observation h run_id "repo_created" (created_payload run_id tree_hash)) _
              (observation-Through h run_id "repo_created" (created_payload run_id tree_hash))
              (λ _. pure-Through h approved)))

  pub fail_attempt-Through :
      (run_id : String) (s : RunState) (error : String) → Through h (fail_attempt h run_id s error)
  unfolding fail_attempt
  fail_attempt-Through run_id s error =
      bind-Through h (transition h run_id child_failed s.revision none no_cost) _
        (transition-Through h run_id child_failed s.revision none no_cost)
        (λ after.
          bind-Through h (record_observation h run_id "phase3_failed" (classification error)) _
            (observation-Through h run_id "phase3_failed" (classification error))
            (λ _. pure-Through h after.status))

  pub recorded-Through :
      (run_id : String) (s : RunState) (candidate : Candidate) (evaluation : EvaluationResult)
      (receipt : MutationReceipt)
      → Through h (recorded h run_id s candidate evaluation receipt)
  unfolding recorded
  recorded-Through run_id s candidate evaluation receipt =
      bind-Through h
        (record_mutation_attempt run_id (candidate_row h candidate) (evaluation_row h evaluation)
          (receipt_row h receipt))
        _
        (mutation_attempt-Through h run_id (candidate_row h candidate) (evaluation_row h evaluation)
          (receipt_row h receipt))
        (λ _. conclude-Through h run_id s (Candidate.identity h candidate) evaluation.eligible)

  recover_attempt-Through :
      (run_id : String) (s : RunState) (current : Bool) (documents : List Value × List Value)
      → Through h (recover_attempt h run_id s current documents)
  unfolding recover_attempt
  recover_attempt-Through run_id s true documents =
      bind-Through h (replay h run_id s documents) _ (replay-Through h run_id s documents)
        (λ after. pure-Through {A = Status × String} h (after.status, "evaluation_replayed"))
  recover_attempt-Through run_id s false documents =
      bind-Through h (abandon h run_id s) _ (abandon-Through h run_id s)
        (λ after. pure-Through {A = Status × String} h (after.status, (abandoned s.status).1))

  pub recover-Through : (run_id : String) (s : RunState) → Through h (recover h run_id s)
  unfolding recover recover_last
  recover-Through run_id s db = from (is_in_flight s.status)
    where
      from :
          (b : Bool)
          → Left h db
              ((if b
                  then recover_last h run_id s
                  else (λ (d : Database). (ok (s.status, "noop"), d)))
                db).1
      from true =
          recover_attempt-Through run_id s (has_current_receipt run_id db) (lineage run_id db) db
      from false = Left-refl h db
