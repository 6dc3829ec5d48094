-- ===== src/StateMachine/Termination.antt =====
-- A run ends: how many transitions a run can take.
use hermes_agentic_variation.Base.{
  ℕ, suc, ◌+◌, ◌-◌, ◌*◌, ◌<◌, ◌≤◌, String, true, Option, none, some, ◌≡◌, List, [], ◌∷◌, arith,
}
use hermes_agentic_variation.Base.Float.{Float}
use hermes_agentic_variation.Base.Result.{ok}
use hermes_agentic_variation.Base.Value.{Value}
use hermes_agentic_variation.Contracts.Identity.{Hashing}
use hermes_agentic_variation.Contracts.RunSpec.{RunSpec}
use hermes_agentic_variation.StateMachine.{
  Status, created, ready, running, evaluating, supervision_required, supervising, paused, succeeded,
  no_result, cancelled, budget_exhausted, failed, Event, pause, resume, RunState, new, is_allowed,
  status_after, dispatch, apply_transition,
}
use hermes_agentic_variation.StateMachine.Accepted.{apply_transition-Accepted}
use hermes_agentic_variation.StateMachine.Invariant.{
  IsWellFormed, new-IsWellFormed, apply_transition-IsWellFormed,
}

module _ (h : Hashing) (spec : RunSpec) where
  -- A run from a state: accepted transitions, one after the other.
  pub data Run (s : RunState) : List Event → RunState → Type 0 where
    here : Run s [] s
    next :
        {es : List Event} {t u : RunState} (event : Event) (hash : Option String) (cost : Value)
        → Run s es t
        → apply_transition h t event spec hash cost ≡ ok u
        → Run s (event ∷ es) u

-- The events that are not a pause or a resumption.
abbrev pub moves : List Event → ℕ
moves [] = 0
moves (pause ∷ es) = moves es
moves (resume ∷ es) = moves es
moves (e ∷ es) = suc (moves es)

-- How far a status is from the next attempt's end, at most.
abbrev rank : Status → ℕ
rank created = 4
rank ready = 3
rank running = 2
rank evaluating = 1
rank supervision_required = 5
rank supervising = 4
rank _ = 0

abbrev paused_rank : Option Status → ℕ
paused_rank none = 0
paused_rank (some st) = rank st

-- Six units for each step that is left, and the rank; nothing in a terminal status.
abbrev measure_of : RunSpec → Status → ℕ → Option Status → ℕ
measure_of spec succeeded steps from = 0
measure_of spec no_result steps from = 0
measure_of spec cancelled steps from = 0
measure_of spec budget_exhausted steps from = 0
measure_of spec failed steps from = 0
measure_of spec paused steps from = 6 * (spec.max_steps - steps) + paused_rank from
measure_of spec st steps from = 6 * (spec.max_steps - steps) + rank st

abbrev measure : RunSpec → RunState → ℕ
measure spec s = measure_of spec s.status s.steps_used s.paused_from

module _ (spec : RunSpec) where
  dispatch-measure :
      (s t : RunState) (event : Event) (hash : Option String) (delta : Float)
      → IsWellFormed spec s
      → is_allowed s.status event ≡ true
      → dispatch event s spec hash delta ≡ ok t
      → measure spec t + moves (event ∷ []) ≤ measure spec s
  unfolding dispatch status_after is_allowed
  dispatch-measure s t Event.approve hash delta w a e = ground arith
  dispatch-measure s t Event.evaluation_eligible none delta w a e = cc
  dispatch-measure s t Event.evaluation_eligible (some hash) delta w a e = ground arith
  dispatch-measure s t _ hash delta w a e = ground arith

  moves-cons : (e : Event) (es : List Event) → moves (e ∷ es) ≡ moves (e ∷ []) + moves es
  moves-cons e es = ground arith

module _ (h : Hashing) (spec : RunSpec) (limit_pos : 0 < spec.no_progress_limit) where
  -- The invariant along a run.
  pub Run-IsWellFormed :
      (s t : RunState) (es : List Event)
      → IsWellFormed spec s
      → Run h spec s es t
      → IsWellFormed spec t
  Run-IsWellFormed s t es w here = w
  Run-IsWellFormed s u es w (next {t = t} event hash cost r e) =
      apply_transition-IsWellFormed h spec t u event hash cost limit_pos
        (Run-IsWellFormed s t _ w r) e

  Run-measure :
      (s t : RunState) (es : List Event)
      → IsWellFormed spec s
      → Run h spec s es t
      → measure spec t + moves es ≤ measure spec s
  Run-measure s t es w here = omega arith
  Run-measure s u es w (next {es = es'} {t = t} event hash cost r e) =
      let a = apply_transition-Accepted h t event spec hash cost u e in
      omega (
        arith,
        Run-measure s t es' w r,
        moves-cons spec event es',
        dispatch-measure spec t u event hash a.delta (Run-IsWellFormed s t es' w r) a.allowed
            a.stepped,
      )

  -- However a run is driven, from its creation on it accepts at most six transitions for each
  -- permitted step and four more, pauses and resumptions aside.
  pub Run_bounded :
      (hash : String) (s t : RunState) (es : List Event)
      → new hash ≡ ok s
      → Run h spec s es t
      → moves es ≤ 6 * spec.max_steps + 4
  unfolding new
  Run_bounded hash s t es n r =
      omega (arith, Run-measure s t es (new-IsWellFormed spec limit_pos hash s n) r, new-measure)
    where
      new-measure : measure spec s ≡ 6 * spec.max_steps + 4
      new-measure = ground arith
