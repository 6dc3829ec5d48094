-- ===== src/Tests/Phase1.antt =====
-- The Phase 1 controller on the run of `Samples`.
use hermes_agentic_variation.Base.{◌≡◌, refl, none, hex_digits, is_blank}
use hermes_agentic_variation.Base.Float.{lt_float, exact, to_float}
use hermes_agentic_variation.Base.Result.{ok, err}
use hermes_agentic_variation.Base.Same.{same}
use hermes_agentic_variation.Contracts.Checks.{
  require_text, require_digest, require_text_tuple, require_positive, finite_nonneg,
}
use hermes_agentic_variation.Contracts.Freeze.{freeze_value, primitive_mapping, insert_sorted}
use hermes_agentic_variation.Contracts.RunSpec
use hermes_agentic_variation.Contracts.RunSpec.{RunSpec}
use hermes_agentic_variation.Contracts.RunSpec.Stored.{
  spec_from_json, tuple_item, spec_of_kwargs, argument, identity,
}
use hermes_agentic_variation.StateMachine
use hermes_agentic_variation.StateMachine.{
  approve, cancel, RunState, is_allowed, is_terminal, is_spent, apply_transition, no_cost,
}
use hermes_agentic_variation.Storage.Reads.{load_run, loaded}
use hermes_agentic_variation.Storage.Runs.{transition}
use hermes_agentic_variation.Storage.State.{state_document, state_from_json}
use hermes_agentic_variation.Storage.Tables.{Database, find_run}
use hermes_agentic_variation.Tests.Samples.{hashing, spec}
use hermes_agentic_variation.Tests.States.{start}
use hermes_agentic_variation.Base.{true, false, [], String, ◌≢◌}
use hermes_agentic_variation.Base.Value.{str}
use hermes_agentic_variation.Verdict.{is_in_flight}
use hermes_agentic_variation.Verdict.Reports.{Reports}
use hermes_agentic_variation.Base.Float.{le_float, add, rounded, round_units}
use hermes_agentic_variation.StateMachine.{is_spent}
use hermes_agentic_variation.Controller.Fixture.{spec_args}
use hermes_agentic_variation.Storage.Tables.{initial}
use hermes_agentic_variation.Tests.Samples.{hex_a}
use hermes_agentic_variation.Tests.States.{ready_state}
use hermes_agentic_variation.Controller.Cancel.{create-ready, step-refused, cancel_run-cancels}
use hermes_agentic_variation.Controller.StepAnswers.{step-Reports}
use hermes_agentic_variation.Controller.Steps.{
  create, Phase1Controller, failed, step, cancel_run, decimal, phase1_context,
}
use hermes_agentic_variation.StateMachine.{created, ready, cancelled, start_step}
use hermes_agentic_variation.Storage.Transition.Stale.{transition-refused}
use hermes_agentic_variation.Base.Result.{transition_error, disabled_error}
use hermes_agentic_variation.Tests.Ledger.{one_run, approved, one_run-loaded}
use hermes_agentic_variation.Tests.States.{not_before_approval}

-- A controller whose lifecycle raises.
abbrev controller : Phase1Controller
controller = record {
  hashing = hashing;
  loads = λ s. none;
  dumps = λ v. "{}";
  lifecycle = record { outcome = λ r. none; meanwhile = λ r. [] };
  enabled = true;
  wait_seconds = 60;
  disabled = disabled_error "Phase 1 execution is disabled";
  variation_context = λ run_id db. ok phase1_context;
}

two_digits : decimal 42 ≡ "42"
unfolding decimal
two_digits = refl

transition-refused_example :
    transition hashing "run-001" start_step 0 none no_cost one_run
    ≡ (err (transition_error "event is not allowed from the status"), one_run)
transition-refused_example =
    transition-refused hashing "run-001" start_step none no_cost one_run spec start
      (transition_error "event is not allowed from the status") one_run-loaded not_before_approval

not_ready : created ≢ ready
not_ready e = cc

step-refused_example :
    (message : String) × (step controller "run-001" one_run
      ≡ (err (transition_error message), one_run))
step-refused_example =
    step-refused controller "run-001" one_run spec start refl one_run-loaded not_ready

abbrev stopped : RunState
stopped = record start { status = cancelled; revision = 1 }

abbrev ended : Database
unfolding cancel_run one_run
ended = (cancel_run controller "run-001" one_run).1

cancels : cancel_run controller "run-001" one_run ≡ (ok stopped, ended)
unfolding cancel_run one_run ended StateMachine.new hex_digits is_blank identity RunSpec.new
    require_text require_digest require_text_tuple require_positive finite_nonneg to_float exact
    lt_float le_float add rounded round_units freeze_value insert_sorted state_document
    state_from_json tuple_item spec_of_kwargs argument same apply_transition is_allowed is_terminal
    is_spent find_run spec_from_json RunSpec.require_comparison RunSpec.require_network_policy
    RunSpec.freeze_config primitive_mapping load_run loaded
cancels = refl

cancel_run-cancels_example :
    (true ≡ true)
    × (spec' : RunSpec) × (s : RunState) × (load_run "run-001" one_run ≡ ok (spec', s))
    × (is_in_flight s.status ≡ false)
    × (load_run "run-001" ended ≡ ok (spec', stopped))
    × (cancelled ≡ cancelled)
cancel_run-cancels_example = cancel_run-cancels controller "run-001" one_run stopped ended cancels

abbrev retried : Database
unfolding step approved one_run
retried = (step controller "run-001" approved).1

answers : step controller "run-001" approved ≡ (ok (failed ready "CHILD_LAUNCH_ERROR"), retried)
unfolding step approved one_run retried StateMachine.new hex_digits is_blank identity RunSpec.new
    require_text require_digest require_text_tuple require_positive finite_nonneg to_float exact
    lt_float le_float add rounded round_units freeze_value insert_sorted state_document
    state_from_json tuple_item spec_of_kwargs argument same apply_transition is_allowed is_terminal
    is_spent find_run spec_from_json RunSpec.require_comparison RunSpec.require_network_policy
    RunSpec.freeze_config primitive_mapping load_run loaded
answers = refl

step-Reports_example : Reports "run-001" ready retried
step-Reports_example =
    step-Reports controller "run-001" approved (failed ready "CHILD_LAUNCH_ERROR") retried answers

abbrev new_state : RunState
new_state = record ready_state { run_spec_hash = hex_a }

abbrev made : Database
unfolding create
made = (create controller "phase1-01" (str "Improve.") (str "approved") initial).1

makes :
    create controller "phase1-01" (str "Improve.") (str "approved") initial ≡ (ok new_state, made)
unfolding create made StateMachine.new hex_digits is_blank identity RunSpec.new require_text
    require_digest require_text_tuple require_positive finite_nonneg to_float exact lt_float
    le_float add rounded round_units freeze_value insert_sorted state_document state_from_json
    tuple_item spec_of_kwargs argument same apply_transition is_allowed is_terminal is_spent
    find_run spec_from_json RunSpec.require_comparison RunSpec.require_network_policy
    RunSpec.freeze_config primitive_mapping load_run loaded
makes = refl

create-ready_example :
    (true ≡ true)
    × ((asked : RunSpec) × (RunSpec.new
            (spec_args hashing "phase1-01" (str "Improve.") (str "approved") 60)
          ≡ ok asked))
    × ((stored : RunSpec) × (load_run "phase1-01" made ≡ ok (stored, new_state)))
    × (ready ≡ ready)
create-ready_example =
    create-ready controller "phase1-01" (str "Improve.") (str "approved") initial new_state made
      makes
