-- ===== src/StateMachine/Attempts.antt =====
-- How an attempt ends: the status that the counters and the budgets call for.
use hermes_agentic_variation.Base.{
  ◌+◌, ◌<◌, String, true, false, Option, none, some, ◌≡◌, arith, if◌then◌else◌,
}
use hermes_agentic_variation.Base.Float.{Float}
use hermes_agentic_variation.Base.Result.{ok}
use hermes_agentic_variation.Base.Value.{Value}
use hermes_agentic_variation.Contracts.Identity.{Hashing}
use hermes_agentic_variation.Contracts.RunSpec.{RunSpec}
use hermes_agentic_variation.StateMachine.{
  ready, supervision_required, succeeded, budget_exhausted, Event, evaluation_eligible, RunState,
  is_spent, status_after, dispatch, apply_transition,
}
use hermes_agentic_variation.StateMachine.Accepted.{apply_transition-Accepted}
use hermes_agentic_variation.StateMachine.Invariant.{
  IsWellFormed, ends_attempt, ends_attempt-IsUnderWay,
}
use hermes_agentic_variation.StateMachine.Effect.{is_eligible}

-- The outcome of an attempt in terms of the state that it leads to.
pub record Outcome (spec : RunSpec) (event : Event) (s t : RunState) : Type 0 where
  pub idle :
      t.consecutive_no_progress ≡ (if is_eligible event then 0 else s.consecutive_no_progress + 1)
  -- spent: the run ends, as succeeded if this attempt progressed
  pub spent :
      is_spent spec t.steps_used t.cost_usd ≡ true
      → t.status ≡ (if is_eligible event then succeeded else budget_exhausted)
  -- not spent: supervision exactly at the no-progress limit
  pub stagnant :
      is_spent spec t.steps_used t.cost_usd ≡ false
      → t.consecutive_no_progress ≡ spec.no_progress_limit
      → t.status ≡ supervision_required
  pub going_on :
      is_spent spec t.steps_used t.cost_usd ≡ false
      → t.consecutive_no_progress < spec.no_progress_limit
      → t.status ≡ ready

dispatch-Outcome :
    (spec : RunSpec) (s t : RunState) (event : Event) (hash : Option String) (delta : Float)
    → 0 < spec.no_progress_limit
    → s.consecutive_no_progress < spec.no_progress_limit
    → ends_attempt event ≡ true
    → dispatch event s spec hash delta ≡ ok t
    → Outcome spec event s t
unfolding dispatch status_after
dispatch-Outcome spec s t evaluation_eligible none delta p f a e = cc
dispatch-Outcome spec s t evaluation_eligible (some hash) delta p f a e = ground arith
dispatch-Outcome spec s t _ hash delta p f a e = ground arith

-- Every event that ends an attempt of a well-formed run leads to the status that the new counters
-- call for: when the steps or the cost are used up, to succeeded after an eligible evaluation and
-- to budget_exhausted after any other event; else to supervision_required when the consecutive
-- attempts without progress reach the limit, and back to ready below it. An eligible evaluation
-- resets that count, and any other event adds one to it.
pub attempt-Outcome :
    (h : Hashing) (spec : RunSpec) (s t : RunState) (event : Event) (hash : Option String)
    (cost : Value)
    → 0 < spec.no_progress_limit
    → IsWellFormed spec s
    → ends_attempt event ≡ true
    → apply_transition h s event spec hash cost ≡ ok t
    → Outcome spec event s t
attempt-Outcome h spec s t event hash cost p w a e =
    let acc = apply_transition-Accepted h s event spec hash cost t e in
    dispatch-Outcome spec s t event hash acc.delta p
      (ends_attempt-IsUnderWay spec s event w acc.allowed a).fresh a acc.stepped
