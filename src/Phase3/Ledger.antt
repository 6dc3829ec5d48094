-- ===== src/Phase3/Ledger.antt =====
-- phase3.py: what `Phase3Controller` does to the ledger.
use hermes_agentic_variation.Base.{
  String, Bool, true, false, ◌&&◌, List, none, ltb, length, if◌then◌else◌,
}
use hermes_agentic_variation.Base.Value.{Value}
use hermes_agentic_variation.Contracts.Candidate
use hermes_agentic_variation.Contracts.Candidate.{Candidate}
use hermes_agentic_variation.Contracts.Evaluation.{EvaluationResult}
use hermes_agentic_variation.Contracts.Identity.{Hashing}
use hermes_agentic_variation.Contracts.MutationReceipt
use hermes_agentic_variation.Contracts.MutationReceipt.{MutationReceipt}
use hermes_agentic_variation.Contracts.RunSpec.{RunSpec}
use hermes_agentic_variation.StateMachine.{Status, approve, child_failed, RunState, no_cost}
use hermes_agentic_variation.Storage.Evidence.{
  Artifact, record_mutation_attempt, mutation_receipts, lineage,
}
use hermes_agentic_variation.Phase3.Data.{created_payload}
use hermes_agentic_variation.Storage.Monad.{Action, pure, gets, ◌>>=◌, ◌>>◌}
use hermes_agentic_variation.Storage.Reads.{events}
use hermes_agentic_variation.Storage.Runs.{create_run, transition, record_observation}
use hermes_agentic_variation.Storage.Tables.{Database}
use hermes_agentic_variation.Verdict.{
  candidate_row, evaluation_row, is_in_flight, classification, conclude, applied, replay, abandoned,
  abandon,
}

-- `create_run`, behind the repository
unfoldable pub record_created : Hashing → String → RunSpec → String → Action RunState
unfolding create_run transition record_observation
record_created h run_id spec tree_hash = do
  state ← create_run h spec
  approved ← transition h run_id approve state.revision none no_cost
  record_observation h run_id "repo_created" (created_payload run_id tree_hash)
  pure approved

-- `_fail_attempt`
unfoldable pub fail_attempt : Hashing → String → RunState → String → Action Status
unfolding transition record_observation
fail_attempt h run_id state error = do
  after ← transition h run_id child_failed state.revision none no_cost
  record_observation h run_id "phase3_failed" (classification error)
  pure after.status

abbrev pub receipt_row : Hashing → MutationReceipt → Artifact
receipt_row h r = record {
  identity = MutationReceipt.identity h r;
  document = MutationReceipt.to_dict r;
}

-- The attempt is recorded, and the verdict applied.
unfoldable pub recorded :
    Hashing → String → RunState → Candidate → EvaluationResult → MutationReceipt → Action RunState
unfolding record_mutation_attempt conclude
recorded h run_id state candidate evaluation receipt = do
  record_mutation_attempt run_id (candidate_row h candidate) (evaluation_row h evaluation)
      (receipt_row h receipt)
  conclude h run_id state (Candidate.identity h candidate) evaluation.eligible

-- `len(lineage["evaluations"]) > applied and len(receipts) > applied`
unfoldable pub has_current_receipt : String → Database → Bool
unfolding applied events lineage mutation_receipts
has_current_receipt run_id db =
    let verdicts = applied (events run_id db) in
    ltb verdicts (length (lineage run_id db).1)
    && ltb verdicts (length (mutation_receipts run_id db))

unfoldable pub recover_attempt :
    Hashing → String → RunState → Bool → List Value × List Value → Action (Status × String)
unfolding replay abandon
recover_attempt h run_id state true documents = do
  after ← replay h run_id state documents
  pure (after.status, "evaluation_replayed")
recover_attempt h run_id state false documents = do
  after ← abandon h run_id state
  let (event, action, label) = abandoned state.status
  pure (after.status, action)

unfoldable pub recover_last : Hashing → String → RunState → Action (Status × String)
unfolding recover_attempt has_current_receipt lineage
recover_last h run_id state = do
  current ← gets (has_current_receipt run_id)
  documents ← gets (lineage run_id)
  recover_attempt h run_id state current documents

-- `reconcile`, behind the run's loading
unfoldable pub recover : Hashing → String → RunState → Action (Status × String)
unfolding recover_last
recover h run_id state =
    if is_in_flight state.status then recover_last h run_id state else pure (state.status, "noop")
