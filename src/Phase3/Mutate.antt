-- ===== src/Phase3/Mutate.antt =====
-- phase3.py: `mutate`, from its last part to its first.
use hermes_agentic_variation.Base.{
  String, true, List, [], ◌∷◌, Option, none, some, str_eq, if◌then◌else◌,
}
use hermes_agentic_variation.Base.Float.{int}
use hermes_agentic_variation.Base.Result.{ok}
use hermes_agentic_variation.Base.Value.{Value, bool, num, str, dict, end, entry}
use hermes_agentic_variation.Child.{ChildOutcome, launch, child_payload, summary_of}
use hermes_agentic_variation.Contracts.Candidate
use hermes_agentic_variation.Contracts.Candidate.{Candidate}
use hermes_agentic_variation.Contracts.Evaluation
use hermes_agentic_variation.Contracts.Evaluation.{EvaluationResult}
use hermes_agentic_variation.Contracts.Json.{fields}
use hermes_agentic_variation.Contracts.MutationReceipt
use hermes_agentic_variation.Contracts.MutationReceipt.{MutationReceipt}
use hermes_agentic_variation.Contracts.RunSpec.{RunSpec}
use hermes_agentic_variation.Contracts.RunSpec.Stored
use hermes_agentic_variation.Controller.Fixture.{whole}
use hermes_agentic_variation.Effect.{Effect, pure, lift, gets, on_first, on_second, ◌>>=◌, ◌>>◌}
use hermes_agentic_variation.Evaluator.{FixtureOutcome, evaluate}
use hermes_agentic_variation.Patch.Lines.{append}
use hermes_agentic_variation.StateMachine.{Status, start_step, RunState, no_cost}
use hermes_agentic_variation.Phase3.Data.{
  command_id, is_allowed, applied_payload, parse_child_payload, mutation_request,
}
use hermes_agentic_variation.Phase3.Ledger.{fail_attempt, recorded}
use hermes_agentic_variation.Storage.Runs.{transition, record_observation}
use hermes_agentic_variation.Workspace.Files.{FileSystem}
use hermes_agentic_variation.Workspace.Methods
use hermes_agentic_variation.Workspace.Methods.{Workspace, CommandResult}
use hermes_agentic_variation.Phase3.Methods.{
  Phase3Controller, World, require_enabled, load_phase3_run,
}

-- What `mutate` answers.
pub data Reply : Type 0 where
  failed : Status → String → Reply
  mutated : Status → String → CommandResult → EvaluationResult → MutationReceipt → Reply

module _ (F : FileSystem) (c : Phase3Controller F) where
  unfoldable pub fail : String → RunState → String → Effect (World F) Reply
  unfolding fail_attempt
  fail run_id state error = do
    status ← on_first (fail_attempt c.hashing run_id state error)
    pure (failed status error)

  -- What is observed of the fixed command.
  abbrev pub stdout_hash : CommandResult → String
  stdout_hash command = c.workspace.digests.hexdigest command.stdout

  abbrev pub stderr_hash : CommandResult → String
  stderr_hash command = c.workspace.digests.hexdigest command.stderr

  abbrev pub command_payload : CommandResult → Value
  command_payload command = dict (
      fields (
        ("command_id", str command_id)
        ∷ ("exit_code", num (int command.exit_code))
        ∷ ("tests_passed", bool command.tests_passed)
        ∷ ("stdout_hash", str (stdout_hash command))
        ∷ ("stderr_hash", str (stderr_hash command))
        ∷ []))

  unfoldable pub candidate_of :
      String → RunSpec → ChildOutcome → List String → String → String → Candidate
  unfolding append
  candidate_of run_id spec child changed tree_hash rationale = record {
    candidate_id = append run_id "-candidate-1";
    run_spec_hash = Stored.identity c.hashing spec;
    parent_candidate_id = none;
    artifact_digest = tree_hash;
    child_result_hash = child.result_hash;
    changed_paths = changed;
    hypothesis = rationale;
  }

  unfoldable pub outcome_of : String → String → CommandResult → FixtureOutcome
  outcome_of mutation tree_hash command = record {
    correctness =
        entry "tests_pass" (bool command.tests_passed)
          (entry "mutation_matches" (bool (str_eq mutation "filter_even")) end);
    scores = entry "test_failures" (num (if command.tests_passed then whole 0 else whole 1)) end;
    evidence = c.dumps (
        dict (
          fields (
            ("command_id", str command_id)
            ∷ ("exit_code", num (int command.exit_code))
            ∷ ("stdout_hash", str (stdout_hash command))
            ∷ ("stderr_hash", str (stderr_hash command))
            ∷ ("tree_hash", str tree_hash)
            ∷ [])));
  }

  unfoldable pub receipt_of :
      String
      → RunSpec
      → Candidate
      → EvaluationResult
      → String
      → List String
      → String
      → CommandResult
      → MutationReceipt
  unfolding append
  receipt_of run_id spec candidate evaluation mutation changed tree_hash command = record {
    receipt_id = append run_id "-mutation-receipt-1";
    run_spec_hash = Stored.identity c.hashing spec;
    candidate_hash = Candidate.identity c.hashing candidate;
    evaluation_hash = Evaluation.identity c.hashing evaluation;
    repository_id = run_id;
    baseline_tree_hash = spec.seed_digest;
    mutated_tree_hash = tree_hash;
    mutation = mutation;
    changed_paths = changed;
    command_id = command_id;
    exit_code = num (int command.exit_code);
    tests_passed = bool command.tests_passed;
    stdout_hash = stdout_hash command;
    stderr_hash = stderr_hash command;
    repository_retained = bool true;
    cleanup_status = "retained";
  }

  -- The candidate, its evaluation and its receipt, and their record.
  unfoldable pub judge :
      String
      → RunSpec
      → RunState
      → ChildOutcome
      → String
      → String
      → List String
      → String
      → CommandResult
      → Effect (World F) Reply
  unfolding candidate_of outcome_of receipt_of evaluate recorded
  judge run_id spec state child mutation rationale changed tree_hash command = do
    candidate ← lift (Candidate.new (candidate_of run_id spec child changed tree_hash rationale))
    evaluation ← lift (
        evaluate c.hashing spec candidate (entry "test_failures" (num (whole 1)) end)
          (outcome_of mutation tree_hash command))
    receipt ← lift (
        MutationReceipt.new
          (receipt_of run_id spec candidate evaluation mutation changed tree_hash command))
    after ← on_first (recorded c.hashing run_id state candidate evaluation receipt)
    pure (mutated after.status mutation command evaluation receipt)

  -- The mutation is applied and the fixed command run, each with its observation.
  unfoldable pub mutate_allowed :
      String → RunSpec → RunState → ChildOutcome → String → String → Effect (World F) Reply
  unfolding judge record_observation Methods.apply Methods.evaluate Methods.tree_hash
  mutate_allowed run_id spec state child mutation rationale = do
    let repo = F.of_text spec.target_root
    changed ← on_second (Methods.apply F c.workspace repo mutation)
    tree_hash? ← gets (λ (w : World F). Methods.tree_hash F c.workspace repo w.1)
    tree_hash ← lift tree_hash?
    on_first (
        record_observation c.hashing run_id "mutation_applied"
          (applied_payload mutation changed tree_hash))
    command ← on_second (Methods.evaluate F c.workspace repo)
    on_first (record_observation c.hashing run_id "command_result" (command_payload command))
    judge run_id spec state child mutation rationale changed tree_hash command

  unfoldable pub choose :
      String → RunSpec → RunState → ChildOutcome → Option (String × String) → Effect (World F) Reply
  unfolding fail mutate_allowed is_allowed
  choose run_id spec state child none = fail run_id state "INVALID_CHILD_PAYLOAD"
  choose run_id spec state child (some (mutation, rationale)) =
      if is_allowed mutation
      then mutate_allowed run_id spec state child mutation rationale
      else fail run_id state "MUTATION_NOT_ALLOWED"

  unfoldable pub finish : String → RunSpec → RunState → Option ChildOutcome → Effect (World F) Reply
  unfolding fail choose record_observation parse_child_payload
  finish run_id spec state none = fail run_id state "CHILD_LAUNCH_ERROR"
  finish run_id spec state (some child) = do
    on_first (record_observation c.hashing run_id "child_result" (child_payload child))
    elim (summary_of child) [
      | none ↦ fail run_id state "CHILD_FAILED"
      | some s ↦ choose run_id spec state child (parse_child_payload c.loads s)
    ]

  -- The child runs, while others may use the store and the disk.
  unfoldable pub run_child : String → Effect (World F) (Option ChildOutcome)
  unfolding launch mutation_request
  run_child run_id (db, d) =
      let request = mutation_request run_id c.wait_seconds in
      let (answer, after) = launch c.hashing c.lifecycle (ok request) db in
      (answer, (after, c.others request d))

  -- `mutate`
  unfoldable pub mutate : String → Effect (World F) Reply
  unfolding require_enabled load_phase3_run transition run_child finish
  mutate run_id = do
    require_enabled F c
    loaded? ← gets (load_phase3_run F c run_id)
    loaded ← lift loaded?
    state ← on_first (transition c.hashing run_id start_step loaded.1.revision none no_cost)
    child ← run_child run_id
    finish run_id loaded.0 state child
