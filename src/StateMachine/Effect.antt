-- ===== src/StateMachine/Effect.antt =====
-- What one accepted transition changes and leaves alone, and which ones are refused.
use hermes_agentic_variation.Base.{
  ◌+◌, String, Bool, true, false, Option, none, some, ◌≡◌, ◌≢◌, ◌↔◌, refl, ap, ◌∙◌, inl, inr, arith,
  str_eq, Bool-cases, eq_iff, if◌then◌else◌,
}
use hermes_agentic_variation.Base.Result.{ok, err, transition_error}
use hermes_agentic_variation.Base.Float.{Float, to_float, exact, lt_float}
use hermes_agentic_variation.Base.Value.{Value}
use hermes_agentic_variation.Contracts.Checks.{finite_nonneg}
use hermes_agentic_variation.Contracts.Identity.{Hashing}
use hermes_agentic_variation.Contracts.RunSpec.{RunSpec}
use hermes_agentic_variation.Contracts.RunSpec.Stored.{identity}
use hermes_agentic_variation.StateMachine.{
  Status, running, cancelled, Event, cancel, start_step, evaluation_eligible, RunState, is_allowed,
  is_terminal, is_spent, dispatch, apply_transition, status_after, no_cost,
}
use hermes_agentic_variation.StateMachine.Accepted.{apply_transition-Accepted}
use hermes_agentic_variation.StateMachine.Invariant.{ends_attempt}

abbrev pub is_eligible : Event → Bool
is_eligible evaluation_eligible = true
is_eligible _ = false

-- The fields after a transition, as functions of those before.
pub record Changes (event : Event) (hash : Option String) (s t : RunState) : Type 0 where
  pub same_spec : t.run_spec_hash ≡ s.run_spec_hash
  pub next_revision : t.revision ≡ s.revision + 1
  pub steps : t.steps_used ≡ (if ends_attempt event then s.steps_used + 1 else s.steps_used)
  pub best : t.best_candidate_hash ≡ (if is_eligible event then hash else s.best_candidate_hash)

dispatch-Changes :
    (spec : RunSpec) (s t : RunState) (event : Event) (hash : Option String) (delta : Float)
    → dispatch event s spec hash delta ≡ ok t
    → Changes event hash s t
unfolding dispatch
dispatch-Changes spec s t Event.approve hash delta e = ground arith
dispatch-Changes spec s t evaluation_eligible none delta e = cc
dispatch-Changes spec s t evaluation_eligible (some hash) delta e = ground arith
dispatch-Changes spec s t _ hash delta e = ground arith

dispatch-running :
    (spec : RunSpec) (s t : RunState) (event : Event) (hash : Option String) (delta : Float)
    → is_allowed s.status event ≡ true
    → dispatch event s spec hash delta ≡ ok t
    → t.status ≡ running
    → (event ≡ start_step) × (is_spent spec s.steps_used s.cost_usd ≡ false)
unfolding dispatch status_after is_allowed
dispatch-running spec s t Event.approve hash delta a e r = ground arith
dispatch-running spec s t evaluation_eligible none delta a e r = cc
dispatch-running spec s t evaluation_eligible (some hash) delta a e r = ground arith
dispatch-running spec s t _ hash delta a e r = ground arith

module _ (h : Hashing) (spec : RunSpec) (s t : RunState) (event : Event) (hash : Option String)
    (cost : Value) (e : apply_transition h s event spec hash cost ≡ ok t) where
  -- An accepted transition raises the revision by one, keeps the RunSpec hash, counts a step
  -- exactly on the five events that end an attempt, and replaces the best candidate exactly on
  -- `evaluation_eligible`, by the candidate that was given.
  pub apply_transition-Changes : Changes event hash s t
  apply_transition-Changes =
      let a = apply_transition-Accepted h s event spec hash cost t e in
      dispatch-Changes spec s t event hash a.delta a.stepped

  -- A step is started only by `start_step`, and only while neither the steps nor the cost are
  -- used up.
  pub running_within_budget :
      t.status ≡ running → (event ≡ start_step) × (is_spent spec s.steps_used s.cost_usd ≡ false)
  running_within_budget r =
      let a = apply_transition-Accepted h s event spec hash cost t e in
      dispatch-running spec s t event hash a.delta a.allowed a.stepped r

-- A run that is not terminal can always be cancelled, by a call with the run's RunSpec and no
-- cost; nothing else than the status and the revision changes.
pub cancel_succeeds :
    (h : Hashing) (spec : RunSpec) (s : RunState) (hash : Option String)
    → s.run_spec_hash ≡ identity h spec
    → is_terminal s.status ≡ false
    → apply_transition h s cancel spec hash no_cost
      ≡ ok (record s { status = cancelled; revision = s.revision + 1 })
unfolding apply_transition is_allowed is_terminal dispatch finite_nonneg to_float exact lt_float
cancel_succeeds h spec s hash same live =
    rw ((eq_iff s.run_spec_hash (identity h spec)).1 same, live, allowed s.status live)
  where
    allowed : (st : Status) → is_terminal st ≡ false → is_allowed st cancel ≡ true
    allowed st l = ground arith

terminal_refuses :
    (h : Hashing) (spec : RunSpec) (s : RunState) (event : Event) (hash : Option String)
    (cost : Value)
    → is_terminal s.status ≡ true
    → apply_transition h s event spec hash cost
      ≡ err (
          transition_error (
            if str_eq s.run_spec_hash (identity h spec)
            then "terminal run cannot accept the event"
            else "RunSpec identity does not match the run state"))
unfolding apply_transition
terminal_refuses h spec s event hash cost d =
    elim (Bool-cases (str_eq s.run_spec_hash (identity h spec))) [
      | inl e ↦ rw (e, d)
      | inr e ↦ rw e
    ]

-- The five ends of a run.
abbrev pub IsEnded : Status → Type 0
IsEnded Status.succeeded = Unit
IsEnded Status.no_result = Unit
IsEnded Status.cancelled = Unit
IsEnded Status.budget_exhausted = Unit
IsEnded Status.failed = Unit
IsEnded _ = ⊥

-- Every event is refused as one for a terminal run.
abbrev pub Closed : Hashing → RunSpec → RunState → Type 0
Closed h spec s =
    (event : Event) (hash : Option String) (cost : Value)
    → apply_transition h s event spec hash cost
      ≡ err (transition_error "terminal run cannot accept the event")

terminal-IsEnded : (st : Status) → is_terminal st ≡ true → IsEnded st
unfolding is_terminal
terminal-IsEnded Status.succeeded d = tt
terminal-IsEnded Status.no_result d = tt
terminal-IsEnded Status.cancelled d = tt
terminal-IsEnded Status.budget_exhausted d = tt
terminal-IsEnded Status.failed d = tt
terminal-IsEnded _ d = cc

ended_terminal : (st : Status) → IsEnded st → is_terminal st ≡ true
unfolding is_terminal
ended_terminal Status.succeeded d = refl
ended_terminal Status.no_result d = refl
ended_terminal Status.cancelled d = refl
ended_terminal Status.budget_exhausted d = refl
ended_terminal Status.failed d = refl
ended_terminal _ d = absurd d

-- A run refuses every event as one for a terminal run, whatever the candidate and the cost, exactly if it has succeeded, ended with no result, been cancelled, used up its budget or failed. The calls are with the run's own RunSpec.
pub Closed-iff :
    (h : Hashing) (spec : RunSpec) (s : RunState)
    → s.run_spec_hash ≡ identity h spec
    → Closed h spec s ↔ IsEnded s.status
Closed-iff h spec s same = (opened, closed)
  where
    opened : Closed h spec s → IsEnded s.status
    opened c = elim (Bool-cases (is_terminal s.status)) [
      | inl d ↦ terminal-IsEnded s.status d
      | inr live ↦
          let refused = c cancel none no_cost in
          let accepted = cancel_succeeds h spec s none same live in cc
    ]

    closed : IsEnded s.status → Closed h spec s
    closed d event hash cost =
        terminal_refuses h spec s event hash cost (ended_terminal s.status d)
        ∙ ap
            (λ b. err (
              transition_error (
                if b
                then "terminal run cannot accept the event"
                else "RunSpec identity does not match the run state")))
            ((eq_iff s.run_spec_hash (identity h spec)).1 same)

not_ready : (st : Status) → st ≢ Status.ready → is_allowed st start_step ≡ false
unfolding is_allowed
not_ready Status.ready n = absurd (n refl)
not_ready Status.created n = refl
not_ready _ n = refl

-- No step is started of a run that is not ready.
pub start_refused :
    (h : Hashing) (spec : RunSpec) (s : RunState)
    → s.status ≢ Status.ready
    → (message : String) × (apply_transition h s start_step spec none no_cost
        ≡ err (transition_error message))
unfolding apply_transition finite_nonneg to_float exact lt_float
start_refused h spec s n =
    from (str_eq s.run_spec_hash (identity h spec)) (is_terminal s.status) refl refl
  where
    from :
        (same terminal : Bool)
        → str_eq s.run_spec_hash (identity h spec) ≡ same
        → is_terminal s.status ≡ terminal
        → (message : String) × (apply_transition h s start_step spec none no_cost
            ≡ err (transition_error message))
    from false terminal p q = ("RunSpec identity does not match the run state", rw p refl)
    from true true p q = ("terminal run cannot accept the event", rw (p, q) refl)
    from true false p q =
        ("event is not allowed from the status", rw (p, q, not_ready s.status n) refl)
