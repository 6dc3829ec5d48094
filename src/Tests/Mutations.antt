-- ===== src/Tests/Mutations.antt =====
-- The controller of Phase 3 on a run of its own.
use hermes_agentic_variation.Base.{
  ℕ, String, true, List, [], ◌∷◌, none, some, ◌≡◌, refl, ap, hex_digits, is_blank, length,
}
use hermes_agentic_variation.Base.Int.{pos}
use hermes_agentic_variation.Base.Float.{
  lt_float, exact, to_float, le_float, add, rounded, round_units,
}
use hermes_agentic_variation.Base.Result.{Result, ok, err, is_ok}
use hermes_agentic_variation.Base.Same.{same}
use hermes_agentic_variation.Base.Value.{Value, str, bool, num, dict, end, entry}
use hermes_agentic_variation.Contracts.Checks.{
  require_text, require_digest, require_text_tuple, require_positive, finite_nonneg, texts,
}
use hermes_agentic_variation.Contracts.Freeze.{freeze_value, primitive_mapping, insert_sorted}
use hermes_agentic_variation.Contracts.MutationReceipt.{MutationReceipt}
use hermes_agentic_variation.Contracts.RunSpec
use hermes_agentic_variation.Contracts.RunSpec.{RunSpec, minimize}
use hermes_agentic_variation.Contracts.RunSpec.Stored.{
  spec_from_json, tuple_item, spec_of_kwargs, argument, identity, to_dict,
}
use hermes_agentic_variation.Effect.{pure, on_first, ◌>>=◌}
use hermes_agentic_variation.Phase3.Answers.{Told, mutate-Told}
use hermes_agentic_variation.Phase3.Mutate.{Reply, failed, mutate}
use hermes_agentic_variation.Phase3.CrashRecovery.{reconcile-finishes_mutate}
use hermes_agentic_variation.Phase3.Data.{evaluator_id, command_id}
use hermes_agentic_variation.Phase3.Ledger.{receipt_row, recorded}
use hermes_agentic_variation.Phase3.Methods.{World, Phase3Controller, load_phase3_run, reconcile}
use hermes_agentic_variation.StateMachine.{Status, running, ready, succeeded, RunState}
use hermes_agentic_variation.StateMachine
use hermes_agentic_variation.StateMachine.{is_allowed, is_terminal, is_spent, apply_transition}
use hermes_agentic_variation.Contracts.Candidate
use hermes_agentic_variation.Contracts.Evaluation
use hermes_agentic_variation.Contracts.MutationReceipt
use hermes_agentic_variation.Evaluator.{evaluate, reason_for, non_regressing_at, better_at}
use hermes_agentic_variation.Storage.Evidence.{record_mutation_attempt, lineage, mutation_receipts}
use hermes_agentic_variation.Storage.Reads.{load_run, loaded, events}
use hermes_agentic_variation.Storage.State.{state_document, state_from_json}
use hermes_agentic_variation.Storage.Tables.{Database, initial, find_run}
use hermes_agentic_variation.Tests.Disk.{disk, repository}
use hermes_agentic_variation.Tests.Evaluations.{proposal, verdict}
use hermes_agentic_variation.Tests.Executable.{workspace}
use hermes_agentic_variation.Tests.Samples.{hashing, spec, hex_a}
use hermes_agentic_variation.Tests.States.{ready_state}
use hermes_agentic_variation.Verdict.{applied, candidate_row, evaluation_row}

abbrev own_spec : RunSpec
own_spec = record spec {
  run_id = "phase3-012345";
  target_root = "phase3-012345";
  evaluator_id = evaluator_id;
  correctness_predicates = "tests_pass" ∷ "mutation_matches" ∷ [];
  score_keys = "test_failures" ∷ [];
  comparison = minimize;
  max_steps = 1;
  no_progress_limit = 1;
}

-- The child chooses the mutation that fits.
abbrev pub payload : Value
payload = dict (entry "mutation" (str "filter_even") (entry "rationale" (str "Even.") end))

abbrev pub controller : Phase3Controller disk
controller = record {
  hashing = hashing;
  loads = λ s. some payload;
  dumps = λ v. "{}";
  lifecycle = record {
    outcome = λ r. some (record {
      terminal_state = "SUCCEEDED";
      summary = some "{}";
      result_hash = hex_a;
      api_calls = 1;
    });
    meanwhile = λ r. [];
  };
  others = λ r d. d;
  workspace = workspace;
  enabled = true;
  wait_seconds = 60;
}

abbrev ledger : RunState → Database
unfolding to_dict state_document
ledger s = record initial {
  runs =
      record {
        run_id = "phase3-012345";
        run_spec_hash = hex_a;
        spec_json = to_dict own_spec;
        state_json = state_document s;
      }
      ∷ [];
}

abbrev running_state : RunState
running_state = record ready_state { status = running; revision = 2 }

unfoldable running_ledger : Database
unfolding ledger
running_ledger = ledger running_state

running_ledger-loaded :
    load_phase3_run disk controller "phase3-012345" (running_ledger, repository "phase3-012345")
    ≡ ok (own_spec, running_state)
unfolding running_ledger load_phase3_run load_run loaded RunSpec.new require_text is_blank
    require_digest hex_digits require_text_tuple RunSpec.require_comparison
    RunSpec.require_network_policy require_positive finite_nonneg to_float lt_float
    RunSpec.freeze_config hermes_agentic_variation.Contracts.Freeze.freeze_mapping primitive_mapping
running_ledger-loaded = refl

abbrev receipt : MutationReceipt
receipt = record {
  receipt_id = "phase3-012345-mutation-receipt-1";
  run_spec_hash = hex_a;
  candidate_hash = hex_a;
  evaluation_hash = hex_a;
  repository_id = "phase3-012345";
  baseline_tree_hash = hex_a;
  mutated_tree_hash = hex_a;
  mutation = "filter_even";
  changed_paths = "calculator.py" ∷ [];
  command_id = command_id;
  exit_code = num (hermes_agentic_variation.Base.Float.int (pos 0));
  tests_passed = bool true;
  stdout_hash = hex_a;
  stderr_hash = hex_a;
  repository_retained = bool true;
  cleanup_status = "retained";
}

unfoldable crashed : Database
unfolding running_ledger
crashed =
    (record_mutation_attempt "phase3-012345" (candidate_row hashing proposal)
      (evaluation_row hashing verdict) (receipt_row hashing receipt) running_ledger).1

records :
    record_mutation_attempt "phase3-012345"
      (candidate_row hashing proposal)
      (evaluation_row hashing verdict)
      (receipt_row hashing receipt)
      running_ledger
    ≡ (ok tt, crashed)
unfolding record_mutation_attempt crashed running_ledger
    hermes_agentic_variation.Contracts.Candidate.identity
records = refl

no_evaluation :
    ◌≡◌ {A = ℕ}
      (length (lineage "phase3-012345" running_ledger).1)
      (applied (events "phase3-012345" running_ledger))
unfolding lineage events applied running_ledger
no_evaluation = refl

no_receipt :
    ◌≡◌ {A = ℕ}
      (length (mutation_receipts "phase3-012345" running_ledger))
      (applied (events "phase3-012345" running_ledger))
unfolding mutation_receipts events applied running_ledger
no_receipt = refl

reconcile-finishes_mutate_example :
    reconcile disk controller "phase3-012345" (crashed, repository "phase3-012345")
    ≡ (on_first (recorded hashing "phase3-012345" running_state proposal verdict receipt) >>= λ t.
          pure {A = Status × String} (t.status, "evaluation_replayed"))
        (running_ledger, repository "phase3-012345")
reconcile-finishes_mutate_example =
    reconcile-finishes_mutate disk controller "phase3-012345" own_spec running_state proposal
      verdict receipt (running_ledger, repository "phase3-012345") tt crashed refl
      running_ledger-loaded refl no_evaluation no_receipt records

-- The child's choice is applied, and the tests pass.
unfoldable ready_ledger : Database
unfolding ledger
ready_ledger = ledger ready_state

ready_ledger-loaded :
    load_phase3_run disk controller "phase3-012345" (ready_ledger, repository "phase3-012345")
    ≡ ok (own_spec, ready_state)
unfolding ready_ledger load_phase3_run load_run loaded RunSpec.new require_text is_blank
    require_digest hex_digits require_text_tuple RunSpec.require_comparison
    RunSpec.require_network_policy require_positive finite_nonneg to_float lt_float
    RunSpec.freeze_config hermes_agentic_variation.Contracts.Freeze.freeze_mapping primitive_mapping
ready_ledger-loaded = refl

abbrev answer_of : Result Reply → Reply
answer_of (ok reply) = reply
answer_of (err e) = failed ready "none"

unfoldable ended : Result Reply × World disk
unfolding mutate ready_ledger
ended = mutate disk controller "phase3-012345" (ready_ledger, repository "phase3-012345")

unfoldable reply : Reply
unfolding ended
reply = answer_of ended.0

succeeds : is_ok ended.0 ≡ true
unfolding mutate ended ready_ledger StateMachine.new hex_digits is_blank identity RunSpec.new
    require_text require_digest require_text_tuple texts require_positive finite_nonneg to_float
    exact lt_float le_float add rounded round_units freeze_value insert_sorted state_document
    state_from_json tuple_item spec_of_kwargs argument same apply_transition is_allowed is_terminal
    is_spent find_run spec_from_json RunSpec.require_comparison RunSpec.require_network_policy
    RunSpec.freeze_config primitive_mapping load_run loaded lineage events
    hermes_agentic_variation.Contracts.Freeze.freeze_mapping load_phase3_run evaluate Evaluation.new
    reason_for non_regressing_at better_at Candidate.identity Candidate.new MutationReceipt.new
    Evaluation.identity MutationReceipt.identity hermes_agentic_variation.Contracts.Paths.is_unsafe
    hermes_agentic_variation.Base.hex_between hermes_agentic_variation.Contracts.Agreement.is_int
    hermes_agentic_variation.Contracts.Agreement.is_bool
    hermes_agentic_variation.Contracts.Agreement.agree
succeeds = refl

answered : (r : Result Reply) → is_ok r ≡ true → r ≡ ok (answer_of r)
answered (ok x) h = refl
answered (err e) h = cc

mutates :
    mutate disk controller "phase3-012345" (ready_ledger, repository "phase3-012345")
    ≡ (ok reply, ended.1)
unfolding ended reply
mutates = ap (λ r. (r, ended.1)) (answered ended.0 succeeds)

mutate-Told_example : Told "phase3-012345" reply ended.1.0
mutate-Told_example =
    mutate-Told disk controller "phase3-012345" (ready_ledger, repository "phase3-012345") own_spec
      ready_state reply ended.1 ready_ledger-loaded
      (record { correctness_predicates = refl; score_keys = refl; comparison = refl }) mutates
