-- ===== src/Tests/Ledger.antt =====
-- The store on the run of `Samples`.
use hermes_agentic_variation.Base.{List, ◌≡◌, refl, [], ◌∷◌, none, arith, hex_digits, is_blank}
use hermes_agentic_variation.Base.Float.{lt_float, exact, to_float}
use hermes_agentic_variation.Base.Result.{ok, err, storage_conflict, integrity_error}
use hermes_agentic_variation.Base.Same.{same}
use hermes_agentic_variation.Base.Value.{str, null, tuple, nil, cons}
use hermes_agentic_variation.Contracts.Checks.{
  require_text, require_digest, require_text_tuple, require_positive, finite_nonneg,
}
use hermes_agentic_variation.Contracts.Freeze.{freeze_value, primitive_mapping, insert_sorted}
use hermes_agentic_variation.Contracts.RunSpec
use hermes_agentic_variation.Contracts.RunSpec.{RunSpec}
use hermes_agentic_variation.Contracts.RunSpec.Stored.{
  spec_from_json, tuple_item, spec_of_kwargs, argument, identity,
}
use hermes_agentic_variation.StateMachine
use hermes_agentic_variation.StateMachine.{
  approve, cancel, RunState, is_allowed, is_terminal, is_spent, apply_transition, no_cost,
}
use hermes_agentic_variation.Storage.Calls.{Call, create, attempt, transit, execute, execute_all}
use hermes_agentic_variation.Storage.Calls.Atomic.{execute-atomic}
use hermes_agentic_variation.Storage.Calls.Extends.{Extends}
use hermes_agentic_variation.Storage.Calls.Methods.{execute-Extends}
use hermes_agentic_variation.Storage.Calls.Reached.{execute_all-Recorded}
use hermes_agentic_variation.Storage.Calls.Recorded.{Recorded}
use hermes_agentic_variation.Storage.Evidence.{Artifact, Evaluated}
use hermes_agentic_variation.Storage.Memories.{save_memory}
use hermes_agentic_variation.Storage.Memories.Saved.{Saved, save_memory-Saved}
use hermes_agentic_variation.Storage.Reads.{load_run, loaded}
use hermes_agentic_variation.Contracts.Json.{natural}
use hermes_agentic_variation.Contracts.Memory
use hermes_agentic_variation.Contracts.Memory.{MemoryArgs, ContinuationMemory, memory_from_json}
use hermes_agentic_variation.Contracts.Memory.RoundTrip.{memory_round_trip}
use hermes_agentic_variation.Storage.Runs.{create_run, transition}
use hermes_agentic_variation.Storage.State.{state_document, state_from_json}
use hermes_agentic_variation.Storage.Tables.{Database, initial, find_run}
use hermes_agentic_variation.Storage.Transition.Readers.{Transitions, transition-Transitions}
use hermes_agentic_variation.Storage.Transition.Stale.{transition-stale, no_lost_update}
use hermes_agentic_variation.Tests.Samples.{hex_a, hex_b, hashing, spec}
use hermes_agentic_variation.Tests.States.{start, ready_state}

unfoldable pub one_run : Database
unfolding create_run
one_run = (create_run hashing spec initial).1

creates : create_run hashing spec initial ≡ (ok start, one_run)
unfolding create_run one_run StateMachine.new hex_digits is_blank identity RunSpec.new require_text
    require_digest require_text_tuple require_positive finite_nonneg to_float exact lt_float
    freeze_value insert_sorted state_document state_from_json tuple_item spec_of_kwargs argument
    same apply_transition is_allowed is_terminal
creates = refl

unfoldable pub approved : Database
unfolding transition one_run
approved = (transition hashing "run-001" approve 0 none no_cost one_run).1

approves_stored :
    transition hashing "run-001" approve 0 none no_cost one_run ≡ (ok ready_state, approved)
unfolding transition approved one_run StateMachine.new hex_digits is_blank identity RunSpec.new
    require_text require_digest require_text_tuple require_positive finite_nonneg to_float exact
    lt_float freeze_value insert_sorted state_document state_from_json tuple_item spec_of_kwargs
    argument same apply_transition is_allowed is_terminal find_run spec_from_json
    RunSpec.require_comparison RunSpec.require_network_policy RunSpec.freeze_config
    primitive_mapping
approves_stored = refl

pub one_run-loaded : load_run "run-001" one_run ≡ ok (spec, start)
unfolding load_run loaded one_run StateMachine.new hex_digits is_blank identity RunSpec.new
    require_text require_digest require_text_tuple require_positive finite_nonneg to_float exact
    lt_float freeze_value insert_sorted state_document state_from_json tuple_item spec_of_kwargs
    argument find_run spec_from_json RunSpec.require_comparison RunSpec.require_network_policy
    RunSpec.freeze_config primitive_mapping
one_run-loaded = refl

transition-Transitions_example :
    Transitions hashing "run-001" approve 0 none no_cost one_run ready_state approved
transition-Transitions_example =
    transition-Transitions hashing "run-001" approve 0 none no_cost one_run ready_state approved
      approves_stored

transition-stale_example :
    transition hashing "run-001" cancel 7 none no_cost one_run
    ≡ (err (storage_conflict "revision mismatch"), one_run)
transition-stale_example =
    transition-stale hashing "run-001" cancel 7 none no_cost one_run spec start one_run-loaded
      (omega arith)

no_lost_update_example :
    transition hashing "run-001" cancel 0 none no_cost approved
    ≡ (err (storage_conflict "revision mismatch"), approved)
no_lost_update_example =
    no_lost_update hashing "run-001" approve cancel 0 none none no_cost no_cost one_run ready_state
      approved approves_stored

execute-Extends_example : Extends one_run (execute hashing (create spec) one_run).1
execute-Extends_example = execute-Extends hashing (create spec) one_run

abbrev artifact : Artifact
artifact = record { identity = hex_a; document = null }

abbrev evaluated : Evaluated
evaluated = record { identity = hex_a; candidate_hash = hex_a; document = null }

-- The second creation of a run fails on its primary key.
twice : (execute hashing (create spec) one_run).0 ≡ err (storage_conflict "run_id already exists")
unfolding execute one_run StateMachine.new hex_digits identity
twice = refl

abbrev attempted : Database
unfolding execute one_run
attempted = (execute hashing (attempt "run-001" artifact evaluated) one_run).1

abbrev second_artifact : Artifact
second_artifact = record { identity = hex_b; document = null }

-- The candidate is inserted, then its evaluation violates its primary key.
half_way :
    (execute hashing (attempt "run-001" second_artifact evaluated) attempted).0
    ≡ err integrity_error
unfolding execute attempted one_run StateMachine.new hex_digits identity
half_way = refl

execute-atomic_example :
    (execute hashing (attempt "run-001" second_artifact evaluated) attempted).1 ≡ attempted
execute-atomic_example =
    execute-atomic hashing (attempt "run-001" second_artifact evaluated) attempted integrity_error
      half_way

abbrev memory_args : MemoryArgs
memory_args = record {
  run_spec_hash = str hex_a;
  memory_revision = natural 1;
  run_status = str "ready";
  state_revision = natural 1;
  best_candidate_hash = null;
  recent_candidate_hashes = tuple (cons (str hex_b) nil);
  recent_evaluation_hashes = tuple nil;
  recent_failure_signatures = tuple (cons (str "tests failed") nil);
  tried_hypotheses = tuple nil;
  supervisor_advice_hash = null;
}

abbrev memory : ContinuationMemory
memory = record {
  run_spec_hash = hex_a;
  memory_revision = 1;
  run_status = "ready";
  state_revision = 1;
  best_candidate_hash = none;
  recent_candidate_hashes = hex_b ∷ [];
  recent_evaluation_hashes = [];
  recent_failure_signatures = "tests failed" ∷ [];
  tried_hypotheses = [];
  supervisor_advice_hash = none;
}

memory_accepted : Memory.new memory_args ≡ ok memory
unfolding Memory.new hex_digits is_blank require_text require_digest require_text_tuple
    require_positive
memory_accepted = refl

memory_round_trip_example : memory_from_json (Memory.to_dict memory) ≡ ok memory
memory_round_trip_example = memory_round_trip memory_args memory memory_accepted

abbrev remembered : Database
unfolding save_memory one_run
remembered = (save_memory hashing "run-001" memory 0 one_run).1

saves : save_memory hashing "run-001" memory 0 one_run ≡ (ok tt, remembered)
unfolding save_memory one_run remembered StateMachine.new hex_digits identity
saves = refl

save_memory-Saved_example : Saved "run-001" memory 0 one_run remembered
save_memory-Saved_example =
    save_memory-Saved hashing "run-001" memory_args memory 0 one_run tt remembered memory_accepted
      saves

abbrev two_calls : List Call
two_calls = create spec ∷ transit "run-001" approve 0 none no_cost ∷ []

execute_all-Recorded_example : Recorded hashing (execute_all hashing two_calls initial)
execute_all-Recorded_example = execute_all-Recorded hashing two_calls
