-- ===== src/StateMachine/Accepted.antt =====
-- What an accepted transition has passed: the checks of `apply_transition`, read backwards.
use hermes_agentic_variation.Base.{String, true, false, Option, ◌≡◌, arith, eq_iff}
use hermes_agentic_variation.Base.Float.{Float, lt_float, Number, exact, to_float}
use hermes_agentic_variation.Base.Float.Nonneg.{is_nonneg}
use hermes_agentic_variation.Base.Result.{Error, ok, >>=-eq-ok, require-ok, raise_if-ok}
use hermes_agentic_variation.Base.Value.{Value, num}
use hermes_agentic_variation.Contracts.Checks.{finite_nonneg}
use hermes_agentic_variation.Contracts.Identity.{Hashing}
use hermes_agentic_variation.Contracts.RunSpec.{RunSpec}
use hermes_agentic_variation.Contracts.RunSpec.Stored.{identity}
use hermes_agentic_variation.StateMachine.{
  RunState, Event, is_terminal, is_allowed, as_float, dispatch, apply_transition,
}

finite_nonneg-is_nonneg :
    (e : Error) (v : Value) (n : Number) (d : Float)
    → finite_nonneg e v ≡ ok n
    → as_float n ≡ ok d
    → is_nonneg d ≡ true
unfolding finite_nonneg to_float exact lt_float
finite_nonneg-is_nonneg e (num m) n d h k = ground arith
finite_nonneg-is_nonneg e _ n d h k = cc

module _ (h : Hashing) (s : RunState) (event : Event) (spec : RunSpec) (hash : Option String) where
  -- Every check passed, and the event's branch gave the new state.
  pub record Accepted (t : RunState) : Type 0 where
    pub delta : Float
    pub cost_nonneg : is_nonneg delta ≡ true
    pub same_spec : s.run_spec_hash ≡ identity h spec
    pub live : is_terminal s.status ≡ false
    pub allowed : is_allowed s.status event ≡ true
    pub stepped : dispatch event s spec hash delta ≡ ok t

  pub apply_transition-Accepted :
      (cost : Value) (t : RunState) → apply_transition h s event spec hash cost ≡ ok t → Accepted t
  unfolding apply_transition
  apply_transition-Accepted cost t e =
      let (_, same, e1) = >>=-eq-ok _ _ e in
      let (_, live, e2) = >>=-eq-ok _ _ e1 in
      let (n, checked, e3) = >>=-eq-ok _ _ e2 in
      let (d, converted, e4) = >>=-eq-ok _ _ e3 in
      let (_, allowed, e5) = >>=-eq-ok _ _ e4 in
      record {
        delta = d;
        cost_nonneg = finite_nonneg-is_nonneg _ cost n d checked converted;
        same_spec = (eq_iff s.run_spec_hash (identity h spec)).0 (require-ok _ _ same);
        live = raise_if-ok _ _ live;
        allowed = require-ok _ _ allowed;
        stepped = e5;
      }
