-- ===== src/Phase3/Reports.antt =====
-- What the ledger holds behind an attempt of Phase 3 that has ended.
use hermes_agentic_variation.Base.{String, none, ◌≡◌, refl, sym}
use hermes_agentic_variation.Base.Result.{ok}
use hermes_agentic_variation.Contracts.Candidate
use hermes_agentic_variation.Contracts.Candidate.{Candidate}
use hermes_agentic_variation.Contracts.Evaluation.{EvaluationResult}
use hermes_agentic_variation.Contracts.Identity.{Hashing}
use hermes_agentic_variation.Contracts.MutationReceipt.{MutationReceipt}
use hermes_agentic_variation.Phase3.Ledger.{fail_attempt, receipt_row, recorded}
use hermes_agentic_variation.StateMachine.{Status, child_failed, RunState, no_cost}
use hermes_agentic_variation.Storage.Evidence.{record_mutation_attempt}
use hermes_agentic_variation.Storage.Monad
use hermes_agentic_variation.Storage.Runs.{transition, record_observation}
use hermes_agentic_variation.Storage.Tables.{Database}
use hermes_agentic_variation.Verdict.{candidate_row, evaluation_row, classification}
use hermes_agentic_variation.Verdict.Reports.{
  Reports, Reports-same, transition-Reports, conclude-Reports, record_observation-load_run,
}

pub fail_attempt-Reports :
    (h : Hashing) (run_id : String) (s : RunState) (error : String) (db : Database)
    (status : Status) (after : Database)
    → fail_attempt h run_id s error db ≡ (ok status, after)
    → Reports run_id status after
unfolding fail_attempt
fail_attempt-Reports h run_id s error db status after e =
    let (t, d, q, e1) =
      Monad.continue-ok (transition h run_id child_failed s.revision none no_cost db) _ e in
    let (u, d1, r, e2) =
      Monad.continue-ok (record_observation h run_id "phase3_failed" (classification error) d) _
        e1 in
    let (same, same_db) = Monad.pure-ok t.status status d1 after e2 in
    rw (sym same, sym same_db)
      (Reports-same run_id t.status d d1
        (record_observation-load_run h run_id "phase3_failed" (classification error) d u d1 run_id
          r)
        (transition-Reports h run_id child_failed s.revision none no_cost db t d refl q))

pub recorded-Reports :
    (h : Hashing) (run_id : String) (s : RunState) (candidate : Candidate)
    (evaluation : EvaluationResult) (receipt : MutationReceipt) (db : Database) (t : RunState)
    (after : Database)
    → recorded h run_id s candidate evaluation receipt db ≡ (ok t, after)
    → Reports run_id t.status after
unfolding recorded
recorded-Reports h run_id s candidate evaluation receipt db t after e =
    let (_, d, _, e1) =
      Monad.continue-ok
        (record_mutation_attempt run_id (candidate_row h candidate) (evaluation_row h evaluation)
          (receipt_row h receipt) db)
        _ e in
    conclude-Reports h run_id s (Candidate.identity h candidate) evaluation.eligible d t after e1
