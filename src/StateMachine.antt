-- ===== src/StateMachine.antt =====
-- state_machine.py: the run state and its transitions.
pub mod Accepted
pub mod Effect
pub mod Attempts
pub mod Termination
pub mod Invariant
use hermes_agentic_variation.Base.{
  ℕ, ◌+◌, String, Bool, true, false, not, ◌&&◌, ◌||◌, Option, none, some, leb, str_eq,
  if◌then◌else◌,
}
use hermes_agentic_variation.Base.Float.{
  Float, add, isfinite, le_float, zero_float, Number, float, exact, to_float,
}
use hermes_agentic_variation.Base.Result.{
  transition_error, overflow_error, Result, ok, err, require, raise_if, ◌>>=◌, ◌>>◌,
}
use hermes_agentic_variation.Base.Value.{Value, num}
use hermes_agentic_variation.Contracts.Checks.{is_digest, finite_nonneg}
use hermes_agentic_variation.Contracts.Identity.{Hashing}
use hermes_agentic_variation.Contracts.RunSpec.{RunSpec}
use hermes_agentic_variation.Contracts.RunSpec.Stored.{identity}

pub data Status : Type 0 where
  created ready running evaluating supervision_required supervising paused : Status
  succeeded no_result cancelled budget_exhausted failed : Status

-- The events of the machine. `other` is any other name: the ledger's labels, or a caller's text.
pub data Event : Type 0 where
  approve cancel start_step pause complete candidate_ready child_failed interrupt : Event
  evaluation_eligible evaluation_ineligible evaluation_missing : Event
  start_supervisor supervisor_applied supervisor_failed resume : Event
  other : String → Event

pub record RunState : Type 0 where
  pub run_spec_hash : String
  pub status : Status
  pub revision : ℕ
  pub steps_used : ℕ
  pub consecutive_no_progress : ℕ
  pub best_candidate_hash : Option String
  pub cost_usd : Float
  pub paused_from : Option Status

-- `RunState.new`
unfoldable pub new : String → Result RunState
new run_spec_hash = do
  require (is_digest run_spec_hash)
      (transition_error "run_spec_hash must be a lowercase SHA-256 digest")
  ok (record {
    run_spec_hash = run_spec_hash;
    status = created;
    revision = 0;
    steps_used = 0;
    consecutive_no_progress = 0;
    best_candidate_hash = none;
    cost_usd = zero_float;
    paused_from = none;
  })

-- `_TERMINAL`
unfoldable pub is_terminal : Status → Bool
is_terminal succeeded = true
is_terminal no_result = true
is_terminal cancelled = true
is_terminal budget_exhausted = true
is_terminal failed = true
is_terminal _ = false

-- `_ALLOWED`
unfoldable pub is_allowed : Status → Event → Bool
is_allowed created approve = true
is_allowed created cancel = true
is_allowed ready start_step = true
is_allowed ready pause = true
is_allowed ready cancel = true
is_allowed ready complete = true
is_allowed running candidate_ready = true
is_allowed running child_failed = true
is_allowed running interrupt = true
is_allowed running cancel = true
is_allowed evaluating evaluation_eligible = true
is_allowed evaluating evaluation_ineligible = true
is_allowed evaluating evaluation_missing = true
is_allowed evaluating cancel = true
is_allowed supervision_required start_supervisor = true
is_allowed supervision_required pause = true
is_allowed supervision_required cancel = true
is_allowed supervision_required complete = true
is_allowed supervising supervisor_applied = true
is_allowed supervising supervisor_failed = true
is_allowed supervising cancel = true
is_allowed paused resume = true
is_allowed paused cancel = true
is_allowed _ _ = false

-- `steps >= spec.max_steps or cost >= spec.max_cost_usd`
unfoldable pub is_spent : RunSpec → ℕ → Float → Bool
is_spent spec steps cost = leb spec.max_steps steps || le_float (exact spec.max_cost_usd) cost

abbrev is_digest_or_none : Option String → Bool
is_digest_or_none none = true
is_digest_or_none (some s) = is_digest s

-- The status after an attempt, from its new counters.
unfoldable pub status_after : RunSpec → Bool → ℕ → ℕ → Float → Status
unfolding is_spent
status_after spec progressed steps no_progress cost =
    if progressed && is_spent spec steps cost
    then succeeded
    else if is_spent spec steps cost
    then budget_exhausted
    else if leb spec.no_progress_limit no_progress
    then supervision_required
    else ready

-- `_next_after_attempt`
unfoldable pub next_after_attempt :
    RunState → RunSpec → Bool → Option String → Float → Result RunState
unfolding status_after
next_after_attempt state spec progressed candidate_hash cost_delta = do
  let steps = state.steps_used + 1
  let cost = add state.cost_usd cost_delta
  require (isfinite cost) (transition_error "accumulated cost must remain finite")
  let no_progress = if progressed then 0 else state.consecutive_no_progress + 1
  require (is_digest_or_none candidate_hash)
      (transition_error "candidate_hash must be a lowercase SHA-256 digest")
  ok (record state {
    status = status_after spec progressed steps no_progress cost;
    revision = state.revision + 1;
    steps_used = steps;
    consecutive_no_progress = no_progress;
    best_candidate_hash = if progressed then candidate_hash else state.best_candidate_hash;
    cost_usd = cost;
  })

-- The truth of a best candidate: neither None nor the empty text.
abbrev pub is_truthy : Option String → Bool
is_truthy none = false
is_truthy (some s) = not (str_eq s "")

abbrev pub outcome : Option String → Status
outcome best = if is_truthy best then succeeded else no_result

-- `paused run has no safe resume state` unless it was paused in one of the two.
resume_to : RunState → Option Status → Result RunState
resume_to state (some ready) =
    ok (record state { status = ready; revision = state.revision + 1; paused_from = none })
resume_to state (some supervision_required) = ok (record state {
  status = supervision_required;
  revision = state.revision + 1;
  paused_from = none;
})
resume_to state _ = err (transition_error "paused run has no safe resume state")

-- The chain of `if event == ...` at the end of `apply_transition`.
unfoldable pub dispatch : Event → RunState → RunSpec → Option String → Float → Result RunState
unfolding next_after_attempt is_spent resume_to
dispatch approve state spec hash delta =
    ok (record state { status = ready; revision = state.revision + 1 })
dispatch start_step state spec hash delta =
    if is_spent spec state.steps_used state.cost_usd
    then ok (record state { status = budget_exhausted; revision = state.revision + 1 })
    else ok (record state { status = running; revision = state.revision + 1 })
dispatch candidate_ready state spec hash delta =
    ok (record state { status = evaluating; revision = state.revision + 1 })
dispatch child_failed state spec hash delta = next_after_attempt state spec false none delta
dispatch interrupt state spec hash delta = next_after_attempt state spec false none delta
dispatch evaluation_missing state spec hash delta = next_after_attempt state spec false none delta
dispatch evaluation_eligible state spec none delta =
    err (transition_error "evaluation_eligible requires candidate_hash")
dispatch evaluation_eligible state spec (some hash) delta =
    next_after_attempt state spec true (some hash) delta
dispatch evaluation_ineligible state spec hash delta =
    next_after_attempt state spec false none delta
dispatch start_supervisor state spec hash delta =
    ok (record state { status = supervising; revision = state.revision + 1 })
dispatch supervisor_applied state spec hash delta =
    ok (record state { status = ready; revision = state.revision + 1; consecutive_no_progress = 0 })
dispatch supervisor_failed state spec hash delta =
    ok (record state { status = outcome state.best_candidate_hash; revision = state.revision + 1 })
dispatch pause state spec hash delta = ok (record state {
  status = paused;
  revision = state.revision + 1;
  paused_from = some state.status;
})
dispatch resume state spec hash delta = resume_to state state.paused_from
dispatch cancel state spec hash delta =
    ok (record state { status = cancelled; revision = state.revision + 1 })
dispatch complete state spec hash delta =
    ok (record state { status = outcome state.best_candidate_hash; revision = state.revision + 1 })
dispatch (other name) state spec hash delta = err (transition_error "unsupported event")

-- `state.cost_usd + cost_delta` adds the float of an int.
abbrev as_float : Number → Result Float
as_float n = elim (to_float n) [ none ↦ err overflow_error | some f ↦ ok f ]

-- The default of `cost_delta`, 0.0.
abbrev pub no_cost : Value
no_cost = num (float zero_float)

-- `apply_transition`
unfoldable pub apply_transition :
    Hashing → RunState → Event → RunSpec → Option String → Value → Result RunState
unfolding dispatch
apply_transition h state event spec candidate_hash cost_delta = do
  require (str_eq state.run_spec_hash (identity h spec))
      (transition_error "RunSpec identity does not match the run state")
  raise_if (is_terminal state.status) (transition_error "terminal run cannot accept the event")
  n ← finite_nonneg (transition_error "cost_delta must be finite and non-negative") cost_delta
  delta ← as_float n
  require (is_allowed state.status event) (transition_error "event is not allowed from the status")
  dispatch event state spec candidate_hash delta
