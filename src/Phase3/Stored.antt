-- ===== src/Phase3/Stored.antt =====
-- The methods of phase3.py reach the ledger only through the store.
use hermes_agentic_variation.Base.{
  String, Bool, true, false, List, Option, none, some, if◌then◌else◌,
}
use hermes_agentic_variation.Base.Result
use hermes_agentic_variation.Base.Result.{Result, ok, err, disabled_error, value_error}
use hermes_agentic_variation.Base.Value.{Value, num, end, entry}
use hermes_agentic_variation.Child.{ChildOutcome, child_payload, summary_of}
use hermes_agentic_variation.Contracts.Candidate
use hermes_agentic_variation.Contracts.Candidate.{Candidate}
use hermes_agentic_variation.Contracts.MutationReceipt
use hermes_agentic_variation.Controller.Fixture.{whole}
use hermes_agentic_variation.Evaluator.{evaluate}
use hermes_agentic_variation.Workspace.Methods.{CommandResult}
use hermes_agentic_variation.Contracts.MutationReceipt.{MutationReceipt}
use hermes_agentic_variation.Contracts.RunSpec
use hermes_agentic_variation.Contracts.RunSpec.{RunSpec}
use hermes_agentic_variation.Patch.Lines.{append}
use hermes_agentic_variation.Phase3.Data.{
  spec_args, is_short_text, parse_child_payload, applied_payload, is_allowed, mutation_request,
}
use hermes_agentic_variation.Phase3.Ledger.{record_created, fail_attempt, recorded}
use hermes_agentic_variation.Phase3.Methods
use hermes_agentic_variation.Phase3.Mutate
use hermes_agentic_variation.Phase3.Mutate.{failed}
use hermes_agentic_variation.Phase3.Methods.{Phase3Controller, World}
use hermes_agentic_variation.StateMachine.{RunState, cancel, start_step, no_cost}
use hermes_agentic_variation.Storage.Calls.Through.{
  Left-refl, transition-Through, observation-Through,
}
use hermes_agentic_variation.Storage.Runs.{transition, record_observation}
use hermes_agentic_variation.Verdict.{is_in_flight}
use hermes_agentic_variation.Verdict.Through.{launch-Through}
use hermes_agentic_variation.Workspace.Files.{FileSystem}
use hermes_agentic_variation.Workspace.Methods as Repository
use hermes_agentic_variation.Phase3.Kept.{
  Kept, bind-Kept, lift-Kept, read-Kept, first-Kept, second-Kept,
}
use hermes_agentic_variation.Phase3.Through.{
  record_created-Through, fail_attempt-Through, recorded-Through, recover-Through,
}

module _ (F : FileSystem) (c : Phase3Controller F) where
  pub create3-Kept :
      (token : String) (objective receipt : Value)
      → Kept F c.hashing (Methods.create F c token objective receipt)
  unfolding Methods.create Methods.require_enabled
  create3-Kept token objective receipt =
      lift-Kept F c.hashing _
        (λ _.
          lift-Kept F c.hashing _
            (λ _.
              lift-Kept F c.hashing _
                (λ _.
                  second-Kept F c.hashing _
                    (λ repo.
                      read-Kept F c.hashing _
                        (λ tree_hash.
                          lift-Kept F c.hashing _
                            (λ spec.
                              first-Kept F c.hashing _ (λ state w. Left-refl c.hashing w.0)
                                (record_created c.hashing (append "phase3-" token) spec tree_hash)
                                (record_created-Through c.hashing (append "phase3-" token) spec
                                  tree_hash))
                            (RunSpec.new (
                              spec_args (append "phase3-" token) (F.to_text repo) tree_hash
                                objective receipt c.wait_seconds)))
                        (λ (w : World F). Repository.tree_hash F c.workspace repo w.1))
                    (Repository.create F c.workspace (append "phase3-" token)))
                (Result.require (is_short_text receipt) (
                  value_error
                    "approval_receipt must be a non-empty string of at most 1000 characters")))
            (Result.require (is_short_text objective)
              (value_error "objective must be a non-empty string of at most 1000 characters")))
        (Result.require c.enabled (disabled_error "Phase 3 execution is disabled"))

  fail-Kept :
      (run_id : String) (s : RunState) (error : String)
      → Kept F c.hashing (Mutate.fail F c run_id s error)
  unfolding Mutate.fail
  fail-Kept run_id s error =
      first-Kept F c.hashing _ (λ status w. Left-refl c.hashing w.0)
        (fail_attempt c.hashing run_id s error) (fail_attempt-Through c.hashing run_id s error)

  judge-Kept :
      (run_id : String) (spec : RunSpec) (s : RunState) (child : ChildOutcome)
      (mutation rationale : String) (changed : List String) (tree_hash : String)
      (command : CommandResult)
      → Kept F c.hashing
          (Mutate.judge F c run_id spec s child mutation rationale changed tree_hash command)
  unfolding Mutate.judge
  judge-Kept run_id spec s child mutation rationale changed tree_hash command =
      lift-Kept F c.hashing _
        (λ candidate.
          lift-Kept F c.hashing _
            (λ evaluation.
              lift-Kept F c.hashing _
                (λ receipt.
                  first-Kept F c.hashing _ (λ after w. Left-refl c.hashing w.0)
                    (recorded c.hashing run_id s candidate evaluation receipt)
                    (recorded-Through c.hashing run_id s candidate evaluation receipt))
                (MutationReceipt.new (
                  Mutate.receipt_of F c run_id spec candidate evaluation mutation changed tree_hash
                    command)))
            (evaluate c.hashing spec candidate (entry "test_failures" (num (whole 1)) end)
              (Mutate.outcome_of F c mutation tree_hash command)))
        (Candidate.new (Mutate.candidate_of F c run_id spec child changed tree_hash rationale))

  mutate_allowed-Kept :
      (run_id : String) (spec : RunSpec) (s : RunState) (child : ChildOutcome)
      (mutation rationale : String)
      → Kept F c.hashing (Mutate.mutate_allowed F c run_id spec s child mutation rationale)
  unfolding Mutate.mutate_allowed
  mutate_allowed-Kept run_id spec s child mutation rationale =
      let repo : F.Location = F.of_text spec.target_root in
      second-Kept F c.hashing _
        (λ changed.
          read-Kept F c.hashing _
            (λ tree_hash.
              first-Kept F c.hashing _
                (λ _.
                  second-Kept F c.hashing _
                    (λ command.
                      first-Kept F c.hashing _
                        (λ _.
                          judge-Kept run_id spec s child mutation rationale changed tree_hash
                            command)
                        (record_observation c.hashing run_id "command_result"
                          (Mutate.command_payload F c command))
                        (observation-Through c.hashing run_id "command_result"
                          (Mutate.command_payload F c command)))
                    (Repository.evaluate F c.workspace repo))
                (record_observation c.hashing run_id "mutation_applied"
                  (applied_payload mutation changed tree_hash))
                (observation-Through c.hashing run_id "mutation_applied"
                  (applied_payload mutation changed tree_hash)))
            (λ (w : World F). Repository.tree_hash F c.workspace repo w.1))
        (Repository.apply F c.workspace repo mutation)

  choose-Kept :
      (run_id : String) (spec : RunSpec) (s : RunState) (child : ChildOutcome)
      (choice : Option (String × String))
      → Kept F c.hashing (Mutate.choose F c run_id spec s child choice)
  unfolding Mutate.choose
  choose-Kept run_id spec s child none = fail-Kept run_id s "INVALID_CHILD_PAYLOAD"
  choose-Kept run_id spec s child (some (mutation, rationale)) = from (is_allowed mutation)
    where
      from :
          (b : Bool)
          → Kept F c.hashing (
              if b
              then Mutate.mutate_allowed F c run_id spec s child mutation rationale
              else Mutate.fail F c run_id s "MUTATION_NOT_ALLOWED")
      from true = mutate_allowed-Kept run_id spec s child mutation rationale
      from false = fail-Kept run_id s "MUTATION_NOT_ALLOWED"

  finish-Kept :
      (run_id : String) (spec : RunSpec) (s : RunState) (answer : Option ChildOutcome)
      → Kept F c.hashing (Mutate.finish F c run_id spec s answer)
  unfolding Mutate.finish
  finish-Kept run_id spec s none = fail-Kept run_id s "CHILD_LAUNCH_ERROR"
  finish-Kept run_id spec s (some child) =
      first-Kept F c.hashing _ (λ _. from (summary_of child))
        (record_observation c.hashing run_id "child_result" (child_payload child))
        (observation-Through c.hashing run_id "child_result" (child_payload child))
    where
      from :
          (summary : Option String)
          → Kept F c.hashing (elim summary [
            | none ↦ Mutate.fail F c run_id s "CHILD_FAILED"
            | some t ↦ Mutate.choose F c run_id spec s child (parse_child_payload c.loads t)
          ])
      from none = fail-Kept run_id s "CHILD_FAILED"
      from (some t) = choose-Kept run_id spec s child (parse_child_payload c.loads t)

  run_child-Kept : (run_id : String) → Kept F c.hashing (Mutate.run_child F c run_id)
  unfolding Mutate.run_child
  run_child-Kept run_id w =
      launch-Through c.hashing c.lifecycle (ok (mutation_request run_id c.wait_seconds)) w.0

  pub mutate-Kept : (run_id : String) → Kept F c.hashing (Mutate.mutate F c run_id)
  unfolding Mutate.mutate Methods.require_enabled
  mutate-Kept run_id =
      lift-Kept F c.hashing _
        (λ _.
          read-Kept F c.hashing _
            (λ loaded.
              first-Kept F c.hashing _
                (λ s.
                  bind-Kept F c.hashing (Mutate.run_child F c run_id)
                    (Mutate.finish F c run_id loaded.0 s) (run_child-Kept run_id)
                    (λ child. finish-Kept run_id loaded.0 s child))
                (transition c.hashing run_id start_step loaded.1.revision none no_cost)
                (transition-Through c.hashing run_id start_step loaded.1.revision none no_cost))
            (Methods.load_phase3_run F c run_id))
        (Result.require c.enabled (disabled_error "Phase 3 execution is disabled"))

  pub cancel3-Kept : (run_id : String) → Kept F c.hashing (Methods.cancel_run F c run_id)
  unfolding Methods.cancel_run Methods.require_enabled
  cancel3-Kept run_id =
      lift-Kept F c.hashing _
        (λ _.
          read-Kept F c.hashing _
            (λ loaded.
              lift-Kept F c.hashing _
                (λ _.
                  first-Kept F c.hashing _ (λ after w. Left-refl c.hashing w.0)
                    (transition c.hashing run_id cancel loaded.1.revision none no_cost)
                    (transition-Through c.hashing run_id cancel loaded.1.revision none no_cost))
                (Result.raise_if (is_in_flight loaded.1.status)
                  (value_error "in-flight Phase 3 cancellation is not claimed")))
            (Methods.load_phase3_run F c run_id))
        (Result.require c.enabled (disabled_error "Phase 3 execution is disabled"))

  pub reconcile3-Kept : (run_id : String) → Kept F c.hashing (Methods.reconcile F c run_id)
  unfolding Methods.reconcile Methods.require_enabled
  reconcile3-Kept run_id =
      lift-Kept F c.hashing _
        (λ _.
          read-Kept F c.hashing _ (λ loaded w. recover-Through c.hashing run_id loaded.1 w.0)
            (Methods.load_phase3_run F c run_id))
        (Result.require c.enabled (disabled_error "Phase 3 execution is disabled"))
