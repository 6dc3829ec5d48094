-- ===== src/Tests/Phase2.antt =====
-- The Phase 2 controller on the run of `Samples`.
use hermes_agentic_variation.Base.{
  ℕ, true, List, [], ◌∷◌, none, some, ◌≡◌, refl, hex_digits, is_blank, length,
}
use hermes_agentic_variation.Base.Float.{
  lt_float, exact, to_float, le_float, add, rounded, round_units,
}
use hermes_agentic_variation.Base.Result.{disabled_error, ok}
use hermes_agentic_variation.Base.Same.{same}
use hermes_agentic_variation.Base.Value.{Value, null, str, list, dict, nil, cons, end, entry}
use hermes_agentic_variation.Child.{Lifecycle}
use hermes_agentic_variation.Contracts.Advice
use hermes_agentic_variation.Contracts.Checks.{
  require_text, require_digest, require_text_tuple, require_positive, finite_nonneg, texts,
}
use hermes_agentic_variation.Contracts.Freeze.{freeze_value, primitive_mapping, insert_sorted}
use hermes_agentic_variation.Contracts.Memory
use hermes_agentic_variation.Contracts.Memory.{ContinuationMemory}
use hermes_agentic_variation.Contracts.RunSpec
use hermes_agentic_variation.Contracts.RunSpec.{RunSpec}
use hermes_agentic_variation.Contracts.RunSpec.Stored.{
  spec_from_json, tuple_item, spec_of_kwargs, argument, identity, to_dict,
}
use hermes_agentic_variation.Controller.Steps.{Phase1Controller, failed, recorded, phase1_context}
use hermes_agentic_variation.Phase2.Advises.{supervise-Answered}
use hermes_agentic_variation.Phase2.Answers.{Answered, step-Answered}
use hermes_agentic_variation.Phase2.CrashRecovery.{rest_of_step, reconcile-finishes_step}
use hermes_agentic_variation.Phase2.Heard.{heard-accepted}
use hermes_agentic_variation.Phase2.Methods.{step, reconcile}
use hermes_agentic_variation.Phase2.OneCall.{with_lifecycle, supervise_once}
use hermes_agentic_variation.Phase2.Payload.{parse_supervisor_payload}
use hermes_agentic_variation.Phase2.Recovers.{Recovered, reconcile-Recovers, reconcile_idempotent}
use hermes_agentic_variation.Phase2.Supervise.{SupervisorReply, ended, advice_of, supervise}
use hermes_agentic_variation.StateMachine
use hermes_agentic_variation.StateMachine.{
  Status, ready, running, supervision_required, no_result, RunState, is_allowed, is_terminal,
  is_spent, apply_transition, outcome,
}
use hermes_agentic_variation.Storage.Evidence.{record_attempt, lineage, supervisor_advice}
use hermes_agentic_variation.Storage.Monad.{◌>>=◌}
use hermes_agentic_variation.Storage.Reads.{load_run, loaded, events}
use hermes_agentic_variation.Storage.State.{state_document, state_from_json}
use hermes_agentic_variation.Storage.Tables.{Database, Document, initial, find_run}
use hermes_agentic_variation.Tests.Evaluations.{proposal, verdict}
use hermes_agentic_variation.Tests.Samples.{hashing, spec, hex_a}
use hermes_agentic_variation.Tests.States.{ready_state}
use hermes_agentic_variation.Verdict.Reports.{is_busy}
use hermes_agentic_variation.Verdict.{applied, candidate_row, evaluation_row}

-- The ledger of a run in a state, with the advice that it has.
abbrev ledger : RunState → List Document → Database
unfolding to_dict state_document
ledger s advice = record initial {
  runs =
      record {
        run_id = "run-001";
        run_spec_hash = hex_a;
        spec_json = to_dict spec;
        state_json = state_document s;
      }
      ∷ [];
  supervisor_advice = advice;
}

-- Every text is a payload of the supervisor, and no child can be launched.
abbrev payload : Value
payload = dict (
    entry "directions" (list (cons (str " try another order ") nil))
      (entry "prohibited_repeats" (list nil) end))

abbrev controller : Phase1Controller
controller = record {
  hashing = hashing;
  loads = λ s. some payload;
  dumps = λ v. "{}";
  lifecycle = record { outcome = λ r. none; meanwhile = λ r. [] };
  enabled = true;
  wait_seconds = 60;
  disabled = disabled_error "Phase 1 execution is disabled";
  variation_context = λ run_id db. ok phase1_context;
}

abbrev running_state : RunState
running_state = record ready_state { status = running; revision = 2 }

abbrev stuck_state : RunState
stuck_state = record ready_state { status = supervision_required; revision = 4 }

unfoldable ready_ledger : Database
unfolding ledger
ready_ledger = ledger ready_state []

ready_ledger-loaded : load_run "run-001" ready_ledger ≡ ok (spec, ready_state)
unfolding ready_ledger load_run loaded RunSpec.new require_text is_blank require_digest hex_digits
    require_text_tuple RunSpec.require_comparison RunSpec.require_network_policy require_positive
    finite_nonneg to_float lt_float RunSpec.freeze_config
    hermes_agentic_variation.Contracts.Freeze.freeze_mapping primitive_mapping
ready_ledger-loaded = refl

-- A launch that fails ends the attempt, and the memory keeps the error.
unfoldable stepped : Database
unfolding step ready_ledger
stepped = (step controller "run-001" ready_ledger).1

steps : step controller "run-001" ready_ledger ≡ (ok (failed ready "CHILD_LAUNCH_ERROR"), stepped)
unfolding step stepped ready_ledger StateMachine.new hex_digits is_blank identity RunSpec.new
    require_text require_digest require_text_tuple texts require_positive finite_nonneg to_float
    exact lt_float le_float add rounded round_units freeze_value insert_sorted state_document
    state_from_json tuple_item spec_of_kwargs argument same apply_transition is_allowed is_terminal
    is_spent find_run spec_from_json RunSpec.require_comparison RunSpec.require_network_policy
    RunSpec.freeze_config primitive_mapping load_run loaded Memory.new lineage events
    hermes_agentic_variation.Phase2.Methods.variation_context
steps = refl

step-Answered_example : Answered hashing "run-001" ready stepped
step-Answered_example =
    step-Answered controller "run-001" ready_ledger (failed ready "CHILD_LAUNCH_ERROR") stepped
      steps

-- A run that was interrupted before its attempt was recorded.
unfoldable running_ledger : Database
unfolding ledger
running_ledger = ledger running_state []

running_ledger-loaded : load_run "run-001" running_ledger ≡ ok (spec, running_state)
unfolding running_ledger load_run loaded RunSpec.new require_text is_blank require_digest hex_digits
    require_text_tuple RunSpec.require_comparison RunSpec.require_network_policy require_positive
    finite_nonneg to_float lt_float RunSpec.freeze_config
    hermes_agentic_variation.Contracts.Freeze.freeze_mapping primitive_mapping
running_ledger-loaded = refl

unfoldable reconciled : Database
unfolding reconcile running_ledger
reconciled = (reconcile controller "run-001" running_ledger).1

reconciles : reconcile controller "run-001" running_ledger ≡ (ok (ready, "interrupted"), reconciled)
unfolding reconcile reconciled running_ledger StateMachine.new hex_digits is_blank identity
    RunSpec.new require_text require_digest require_text_tuple texts require_positive finite_nonneg
    to_float exact lt_float le_float add rounded round_units freeze_value insert_sorted
    state_document state_from_json tuple_item spec_of_kwargs argument same apply_transition
    is_allowed is_terminal is_spent find_run spec_from_json RunSpec.require_comparison
    RunSpec.require_network_policy RunSpec.freeze_config primitive_mapping load_run loaded
    Memory.new lineage events
reconciles = refl

reconcile-Recovers_example :
    (found : RunSpec) × (s : RunState) × (load_run "run-001" running_ledger ≡ ok (found, s))
    × Recovered controller "run-001"
        (is_busy s.status)
        s.status
        (ready, "interrupted")
        running_ledger
        reconciled
reconcile-Recovers_example =
    reconcile-Recovers controller "run-001" running_ledger (ready, "interrupted") reconciled
      reconciles

reconcile_idempotent_example :
    reconcile controller "run-001" reconciled ≡ (ok (ready, "noop"), reconciled)
reconcile_idempotent_example =
    reconcile_idempotent controller "run-001" running_ledger (ready, "interrupted") reconciled
      reconciles

-- A run whose supervisor cannot be launched.
unfoldable stuck_ledger : Database
unfolding ledger
stuck_ledger = ledger stuck_state []

unfoldable supervised : Database
unfolding supervise stuck_ledger
supervised = (supervise controller "run-001" stuck_ledger).1

supervises :
    supervise controller "run-001" stuck_ledger
    ≡ (ok (ended no_result "SUPERVISOR_LAUNCH_ERROR"), supervised)
unfolding supervise supervised stuck_ledger StateMachine.new hex_digits is_blank identity
    RunSpec.new require_text require_digest require_text_tuple texts require_positive finite_nonneg
    to_float exact lt_float le_float add rounded round_units freeze_value insert_sorted
    state_document state_from_json tuple_item spec_of_kwargs argument same apply_transition
    is_allowed is_terminal is_spent find_run spec_from_json RunSpec.require_comparison
    RunSpec.require_network_policy RunSpec.freeze_config primitive_mapping load_run loaded
    Memory.new lineage events Memory.memory_from_json
supervises = refl

supervise-Answered_example : Answered hashing "run-001" no_result supervised
supervise-Answered_example =
    supervise-Answered controller "run-001" stuck_ledger (ended no_result "SUPERVISOR_LAUNCH_ERROR")
      supervised supervises

-- A run that has had its advice.
abbrev advice_row : Document
advice_row = record { key = hex_a; run_id = "run-001"; body = null }

unfoldable advised_ledger : Database
unfolding ledger
advised_ledger = ledger stuck_state (advice_row ∷ [])

advised_ledger-loaded : load_run "run-001" advised_ledger ≡ ok (spec, stuck_state)
unfolding advised_ledger load_run loaded RunSpec.new require_text is_blank require_digest hex_digits
    require_text_tuple RunSpec.require_comparison RunSpec.require_network_policy require_positive
    finite_nonneg to_float lt_float RunSpec.freeze_config
    hermes_agentic_variation.Contracts.Freeze.freeze_mapping primitive_mapping
advised_ledger-loaded = refl

advised_ledger-advice : supervisor_advice "run-001" advised_ledger ≡ (null ∷ [])
unfolding advised_ledger supervisor_advice
advised_ledger-advice = refl

abbrev eager : Lifecycle
eager = record {
  outcome = λ r. some (record {
    terminal_state = "SUCCEEDED";
    summary = some "{}";
    result_hash = hex_a;
    api_calls = 1;
  });
  meanwhile = λ r. [];
}

supervise_once_example :
    (supervise controller "run-001" advised_ledger
      ≡ supervise (with_lifecycle eager controller) "run-001" advised_ledger)
    × ((reply : SupervisorReply) (after : Database)
        → supervise controller "run-001" advised_ledger ≡ (ok reply, after)
        → reply ≡ ended (outcome none) "SUPERVISOR_BUDGET_EXHAUSTED")
supervise_once_example =
    supervise_once controller eager "run-001" advised_ledger spec stuck_state null [] refl
      advised_ledger-loaded refl advised_ledger-advice

-- A payload whose one direction is stripped.
parses : parse_supervisor_payload controller.loads (some "{}") ≡ some ("try another order" ∷ [], [])
unfolding parse_supervisor_payload is_blank
parses = refl

abbrev remembered : ContinuationMemory
remembered = record {
  run_spec_hash = hex_a;
  memory_revision = 1;
  run_status = "supervision_required";
  state_revision = 4;
  best_candidate_hash = none;
  recent_candidate_hashes = [];
  recent_evaluation_hashes = [];
  recent_failure_signatures = [];
  tried_hypotheses = [];
  supervisor_advice_hash = none;
}

heard-accepted_example :
    Advice.new (advice_of controller "run-001" spec remembered ("try another order" ∷ [], []))
    ≡ ok (advice_of controller "run-001" spec remembered ("try another order" ∷ [], []))
heard-accepted_example =
    heard-accepted controller "run-001" spec remembered (some "{}") ("try another order" ∷ [], [])
      parses

-- A run that was interrupted right behind the record of its attempt.
unfoldable crashed : Database
unfolding running_ledger
crashed =
    (record_attempt "run-001" (candidate_row hashing proposal) (evaluation_row hashing verdict)
      running_ledger).1

records :
    record_attempt "run-001"
      (candidate_row hashing proposal)
      (evaluation_row hashing verdict)
      running_ledger
    ≡ (ok tt, crashed)
unfolding record_attempt crashed running_ledger
    hermes_agentic_variation.Contracts.Candidate.identity
records = refl

nothing_pending :
    ◌≡◌ {A = ℕ}
      (length (lineage "run-001" running_ledger).1)
      (applied (events "run-001" running_ledger))
unfolding lineage events applied running_ledger
nothing_pending = refl

reconcile-finishes_step_example :
    reconcile controller "run-001" crashed
    ≡ (recorded controller "run-001" running_state "single_pass" proposal verdict
          >>= rest_of_step controller "run-001")
        running_ledger
reconcile-finishes_step_example =
    reconcile-finishes_step controller "run-001" spec running_state "single_pass" proposal verdict
      running_ledger tt crashed refl running_ledger-loaded refl nothing_pending records
