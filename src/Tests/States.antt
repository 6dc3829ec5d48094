-- ===== src/Tests/States.antt =====
-- The state machine on the runs of tests/test_state_machine.py.
use hermes_agentic_variation.Base.{
  ◌+◌, ◌*◌, ◌≤◌, ◌↔◌, false, List, [], ◌∷◌, none, some, ◌≡◌, refl, arith, hex_digits,
}
use hermes_agentic_variation.Base.Float.{
  zero_float, add, le_float, lt_float, exact, to_float, rounded, round_units,
}
use hermes_agentic_variation.Base.Result.{ok, err, transition_error}
use hermes_agentic_variation.Contracts.Checks.{finite_nonneg}
use hermes_agentic_variation.Contracts.RunSpec.Stored.{identity}
use hermes_agentic_variation.StateMachine.{
  created, ready, running, evaluating, cancelled, Event, approve, start_step, evaluation_eligible,
  cancel, RunState, new, is_allowed, is_terminal, is_spent, apply_transition, no_cost,
}
use hermes_agentic_variation.StateMachine.Invariant.{IsWellFormed, apply_transition-IsWellFormed}
use hermes_agentic_variation.StateMachine.Effect.{
  Changes, apply_transition-Changes, running_within_budget, IsEnded, Closed, Closed-iff,
  cancel_succeeds,
}
use hermes_agentic_variation.StateMachine.Attempts.{Outcome, attempt-Outcome}
use hermes_agentic_variation.StateMachine.Termination.{Run, here, next, moves, Run_bounded}
use hermes_agentic_variation.Tests.Samples.{hex_a, hex_b, hashing, spec}

abbrev pub start : RunState
start = record {
  run_spec_hash = hex_a;
  status = created;
  revision = 0;
  steps_used = 0;
  consecutive_no_progress = 0;
  best_candidate_hash = none;
  cost_usd = zero_float;
  paused_from = none;
}

abbrev pub ready_state : RunState
ready_state = record start { status = ready; revision = 1 }

abbrev running_state : RunState
running_state = record start { status = running; revision = 2 }

abbrev evaluating_state : RunState
evaluating_state = record start { status = evaluating; revision = 3 }

abbrev promoted : RunState
promoted = record start {
  status = ready;
  revision = 4;
  steps_used = 1;
  best_candidate_hash = some hex_b;
}

created_by_new : new hex_a ≡ ok start
unfolding new hex_digits
created_by_new = refl

-- test_run_cannot_start_before_explicit_approval
pub not_before_approval :
    apply_transition hashing start start_step spec none no_cost
    ≡ err (transition_error "event is not allowed from the status")
unfolding apply_transition identity is_allowed is_terminal finite_nonneg to_float exact lt_float
not_before_approval = refl

approves : apply_transition hashing start approve spec none no_cost ≡ ok ready_state
unfolding apply_transition identity is_allowed is_terminal finite_nonneg to_float exact lt_float
approves = refl

starts : apply_transition hashing ready_state start_step spec none no_cost ≡ ok running_state
unfolding apply_transition identity is_allowed is_terminal is_spent finite_nonneg to_float exact
    lt_float le_float
starts = refl

-- test_eligible_evaluation_promotes_candidate_and_resets_stagnation
promotes :
    apply_transition hashing evaluating_state evaluation_eligible spec (some hex_b) no_cost
    ≡ ok promoted
unfolding apply_transition identity is_allowed is_terminal is_spent finite_nonneg to_float exact
    lt_float le_float add rounded round_units hex_digits
promotes = refl

evaluating_state-IsWellFormed : IsWellFormed spec evaluating_state
evaluating_state-IsWellFormed = ground arith

apply_transition-IsWellFormed_example : IsWellFormed spec promoted
apply_transition-IsWellFormed_example =
    apply_transition-IsWellFormed hashing spec evaluating_state promoted evaluation_eligible
      (some hex_b) no_cost (omega arith) evaluating_state-IsWellFormed promotes

apply_transition-Changes_example :
    Changes evaluation_eligible (some hex_b) evaluating_state promoted
apply_transition-Changes_example =
    apply_transition-Changes hashing spec evaluating_state promoted evaluation_eligible (some hex_b)
      no_cost promotes

running_within_budget_example : (start_step ≡ start_step) × (is_spent spec 0 zero_float ≡ false)
running_within_budget_example =
    running_within_budget hashing spec ready_state running_state start_step none no_cost starts refl

attempt-Outcome_example : Outcome spec evaluation_eligible evaluating_state promoted
attempt-Outcome_example =
    attempt-Outcome hashing spec evaluating_state promoted evaluation_eligible (some hex_b) no_cost
      (omega arith) evaluating_state-IsWellFormed refl promotes

abbrev stopped : RunState
stopped = record start { status = cancelled; revision = 1 }

Closed-iff_example : Closed hashing spec stopped ↔ IsEnded cancelled
unfolding identity
Closed-iff_example = Closed-iff hashing spec stopped refl

cancel_succeeds_example :
    apply_transition hashing running_state cancel spec none no_cost
    ≡ ok (record running_state { status = cancelled; revision = 3 })
unfolding identity is_terminal
cancel_succeeds_example = cancel_succeeds hashing spec running_state none refl refl

abbrev two_events : List Event
two_events = start_step ∷ approve ∷ []

two_events-Run : Run hashing spec start two_events running_state
two_events-Run = next start_step none no_cost (next approve none no_cost here approves) starts

Run_bounded_example : moves two_events ≤ 6 * 3 + 4
Run_bounded_example =
    Run_bounded hashing spec (omega arith) hex_a start running_state two_events created_by_new
      two_events-Run
