-- ===== src/StateMachine/Invariant.antt =====
-- The invariant of a run: the counters stay within the budgets of its RunSpec, and the status
-- agrees with the counters, the best candidate and the paused status.
use hermes_agentic_variation.Base.{
  ℕ, ◌+◌, ◌*◌, ◌≤◌, ◌<◌, String, Bool, true, false, Option, none, some, ◌≡◌, ◌⊎◌, inl, inr, refl,
  arith, str_eq, hex_digits, Bool-cases, eq_iff,
}
use hermes_agentic_variation.Base.Float.{Float}
use hermes_agentic_variation.Base.Float.Nonneg.{is_nonneg, add-nonneg}
use hermes_agentic_variation.Base.Result.{ok}
use hermes_agentic_variation.Base.Value.{Value}
use hermes_agentic_variation.Contracts.Checks.{is_digest}
use hermes_agentic_variation.Contracts.Identity.{Hashing}
use hermes_agentic_variation.Contracts.RunSpec.{RunSpec}
use hermes_agentic_variation.StateMachine.{
  Status, created, ready, running, evaluating, supervision_required, supervising, paused, succeeded,
  no_result, cancelled, budget_exhausted, failed, Event, approve, cancel, start_step, pause,
  complete, candidate_ready, child_failed, interrupt, evaluation_eligible, evaluation_ineligible,
  evaluation_missing, start_supervisor, supervisor_applied, supervisor_failed, resume, other,
  RunState, new, is_allowed, is_spent, status_after, is_truthy, outcome, is_digest_or_none,
  next_after_attempt, dispatch, apply_transition,
}
use hermes_agentic_variation.StateMachine.Accepted.{apply_transition-Accepted}

-- What a status says of the counters, and `from` of the status that a pause keeps.
abbrev Agrees : RunSpec → Status → ℕ → ℕ → Option String → Option Status → Type 0
Agrees spec created steps idle best from = (steps ≡ 0) × (idle ≡ 0) × (best ≡ none) × (from ≡ none)
Agrees spec ready steps idle best from = (idle < spec.no_progress_limit) × (from ≡ none)
Agrees spec running steps idle best from =
    (steps < spec.max_steps) × (idle < spec.no_progress_limit) × (from ≡ none)
Agrees spec evaluating steps idle best from =
    (steps < spec.max_steps) × (idle < spec.no_progress_limit) × (from ≡ none)
Agrees spec supervision_required steps idle best from =
    (idle ≡ spec.no_progress_limit) × (from ≡ none)
Agrees spec supervising steps idle best from = (idle ≡ spec.no_progress_limit) × (from ≡ none)
Agrees spec paused steps idle best from =
    ((from ≡ some ready) × (idle < spec.no_progress_limit))
    ⊎ ((from ≡ some supervision_required) × (idle ≡ spec.no_progress_limit))
Agrees spec succeeded steps idle best from = is_truthy best ≡ true
Agrees spec no_result steps idle best from = best ≡ none
Agrees spec cancelled steps idle best from = Unit
Agrees spec budget_exhausted steps idle best from = Unit
Agrees spec failed steps idle best from = ⊥

abbrev in_attempt : Status → ℕ
in_attempt running = 1
in_attempt evaluating = 1
in_attempt _ = 0

pub record IsWellFormed (spec : RunSpec) (s : RunState) : Type 0 where
  pub steps_bounded : s.steps_used ≤ spec.max_steps
  pub idle_bounded : s.consecutive_no_progress ≤ spec.no_progress_limit
  pub idle-le-steps : s.consecutive_no_progress ≤ s.steps_used
  pub revision_counts : 2 * s.steps_used + in_attempt s.status ≤ s.revision
  pub best_is_digest : is_digest_or_none s.best_candidate_hash ≡ true
  pub cost_nonneg : is_nonneg s.cost_usd ≡ true
  pub agrees :
      Agrees spec s.status s.steps_used s.consecutive_no_progress s.best_candidate_hash
        s.paused_from

pub is_digest-truthy : (s : String) → is_digest s ≡ true → is_truthy (some s) ≡ true
unfolding hex_digits
is_digest-truthy s h = elim (Bool-cases (str_eq s "")) [
  | inl e ↦ cc (h, (eq_iff s "").0 e)
  | inr e ↦ rw e
]

-- A completed run has succeeded exactly if it has a best candidate.
outcome-cases :
    (best : Option String)
    → is_digest_or_none best ≡ true
    → ((outcome best ≡ succeeded) × (is_truthy best ≡ true))
      ⊎ ((outcome best ≡ no_result) × (best ≡ none))
outcome-cases none h = inr (refl, refl)
outcome-cases (some s) h = let t = is_digest-truthy s h in inl (rw t, t)

-- The events that end an attempt, and the one that counts as progress.
abbrev pub ends_attempt : Event → Bool
ends_attempt child_failed = true
ends_attempt interrupt = true
ends_attempt evaluation_eligible = true
ends_attempt evaluation_ineligible = true
ends_attempt evaluation_missing = true
ends_attempt _ = false

-- An attempt ends only while it is under way.
pub record IsUnderWay (spec : RunSpec) (s : RunState) : Type 0 where
  pub room : s.steps_used < spec.max_steps
  pub fresh : s.consecutive_no_progress < spec.no_progress_limit
  pub counted : 2 * s.steps_used < s.revision
  pub not_paused : s.paused_from ≡ none

pub ends_attempt-IsUnderWay :
    (spec : RunSpec) (s : RunState) (event : Event)
    → IsWellFormed spec s
    → is_allowed s.status event ≡ true
    → ends_attempt event ≡ true
    → IsUnderWay spec s
unfolding is_allowed
ends_attempt-IsUnderWay spec s event w a e = ground arith

module _ (spec : RunSpec) (limit_pos : 0 < spec.no_progress_limit) where
  pub new-IsWellFormed : (hash : String) (s : RunState) → new hash ≡ ok s → IsWellFormed spec s
  unfolding new
  new-IsWellFormed hash s h = ground arith

  -- An attempt that began within the budgets ends within them.
  next_after_attempt-IsWellFormed :
      (s t : RunState) (progressed : Bool) (hash : Option String) (delta : Float)
      → IsWellFormed spec s
      → IsUnderWay spec s
      → is_nonneg delta ≡ true
      → (progressed ≡ true → is_digest_or_none hash ≡ true → is_truthy hash ≡ true)
      → next_after_attempt s spec progressed hash delta ≡ ok t
      → IsWellFormed spec t
  unfolding next_after_attempt status_after
  next_after_attempt-IsWellFormed s t progressed hash delta w u d p h =
      ground (arith, add-nonneg s.cost_usd delta)

  -- Every branch of the dispatch keeps the invariant, from a status where the event is allowed.
  pub dispatch-IsWellFormed :
      (s t : RunState) (event : Event) (hash : Option String) (delta : Float)
      → IsWellFormed spec s
      → is_allowed s.status event ≡ true
      → is_nonneg delta ≡ true
      → dispatch event s spec hash delta ≡ ok t
      → IsWellFormed spec t
  unfolding dispatch is_allowed is_spent
  dispatch-IsWellFormed s t approve hash delta w a d h = ground arith
  dispatch-IsWellFormed s t cancel hash delta w a d h = ground arith
  dispatch-IsWellFormed s t start_step hash delta w a d h = ground arith
  dispatch-IsWellFormed s t pause hash delta w a d h = ground arith
  dispatch-IsWellFormed s t complete hash delta w a d h =
      ground (arith, outcome-cases s.best_candidate_hash)
  dispatch-IsWellFormed s t candidate_ready hash delta w a d h = ground arith
  dispatch-IsWellFormed s t child_failed hash delta w a d h =
      next_after_attempt-IsWellFormed s t false none delta w
        (ends_attempt-IsUnderWay spec s child_failed w a refl) d (λ p _. cc) h
  dispatch-IsWellFormed s t interrupt hash delta w a d h =
      next_after_attempt-IsWellFormed s t false none delta w
        (ends_attempt-IsUnderWay spec s interrupt w a refl) d (λ p _. cc) h
  dispatch-IsWellFormed s t evaluation_eligible none delta w a d h = cc
  dispatch-IsWellFormed s t evaluation_eligible (some hash) delta w a d h =
      next_after_attempt-IsWellFormed s t true (some hash) delta w
        (ends_attempt-IsUnderWay spec s evaluation_eligible w a refl) d (λ _. is_digest-truthy hash)
        h
  dispatch-IsWellFormed s t evaluation_ineligible hash delta w a d h =
      next_after_attempt-IsWellFormed s t false none delta w
        (ends_attempt-IsUnderWay spec s evaluation_ineligible w a refl) d (λ p _. cc) h
  dispatch-IsWellFormed s t evaluation_missing hash delta w a d h =
      next_after_attempt-IsWellFormed s t false none delta w
        (ends_attempt-IsUnderWay spec s evaluation_missing w a refl) d (λ p _. cc) h
  dispatch-IsWellFormed s t start_supervisor hash delta w a d h = ground arith
  dispatch-IsWellFormed s t supervisor_applied hash delta w a d h = ground arith
  dispatch-IsWellFormed s t supervisor_failed hash delta w a d h =
      ground (arith, outcome-cases s.best_candidate_hash)
  dispatch-IsWellFormed s t resume hash delta w a d h = ground arith
  dispatch-IsWellFormed s t (other name) hash delta w a d h = ground arith

-- An accepted transition, whatever the event, keeps the invariant of a run whose RunSpec has a
-- positive no-progress limit: the step and no-progress counters stay within their limits, the
-- cost stays finite and non-negative, the best candidate is a digest, a succeeded run has one, and
-- the revision counts at least two transitions for each step.
pub apply_transition-IsWellFormed :
    (h : Hashing) (spec : RunSpec) (s t : RunState) (event : Event) (hash : Option String)
    (cost : Value)
    → 0 < spec.no_progress_limit
    → IsWellFormed spec s
    → apply_transition h s event spec hash cost ≡ ok t
    → IsWellFormed spec t
apply_transition-IsWellFormed h spec s t event hash cost p w e =
    let a = apply_transition-Accepted h s event spec hash cost t e in
    dispatch-IsWellFormed spec p s t event hash a.delta w a.allowed a.cost_nonneg a.stepped
