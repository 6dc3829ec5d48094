-- ===== src/Controller/Cancel.antt =====
-- What the Phase 1 controller refuses, cancels and creates.
use hermes_agentic_variation.Base.{String, true, false, none, ◌≡◌, ◌≢◌, sym, ◌∙◌, arith}
use hermes_agentic_variation.Base.Result
use hermes_agentic_variation.Base.Result.{
  transition_error, Result, disabled_error, value_error, ok, err, raise_if-ok, require-ok,
}
use hermes_agentic_variation.Base.Float.{Float}
use hermes_agentic_variation.Contracts.RunSpec
use hermes_agentic_variation.Contracts.RunSpec.{RunSpec}
use hermes_agentic_variation.Controller.Fixture.{spec_args}
use hermes_agentic_variation.Controller.Steps.{
  Phase1Controller, require_enabled, create, step, cancel_run,
}
use hermes_agentic_variation.Verdict.{is_in_flight}
use hermes_agentic_variation.Base.Value.{Value}
use hermes_agentic_variation.StateMachine.{
  approve, ready, cancelled, start_step, cancel, RunState, dispatch, no_cost,
}
use hermes_agentic_variation.StateMachine.Accepted.{apply_transition-Accepted}
use hermes_agentic_variation.StateMachine.Effect.{start_refused}
use hermes_agentic_variation.Storage.Monad.{lift-ok, continue-ok}
use hermes_agentic_variation.Storage.Reads.{load_run}
use hermes_agentic_variation.Storage.Runs.{create_run}
use hermes_agentic_variation.Storage.Tables.{Database}
use hermes_agentic_variation.Storage.Transition.Readers.{transition-Transitions}
use hermes_agentic_variation.Storage.Transition.Stale.{transition-refused}

-- While the plugin is enabled, a step of a stored run that is in any other status than ready raises a TransitionError and leaves the ledger as it was: no child is run.
pub step-refused :
    (c : Phase1Controller) (run_id : String) (db : Database) (spec : RunSpec) (s : RunState)
    → c.enabled ≡ true
    → load_run run_id db ≡ ok (spec, s)
    → s.status ≢ ready
    → (message : String) × (step c run_id db ≡ (err (transition_error message), db))
unfolding step require_enabled
step-refused c run_id db spec s on l other =
    let (message, refused) = start_refused c.hashing spec s other in
    (
      message,
      rw (
        on,
        l,
        transition-refused c.hashing run_id start_step none no_cost db spec s
            (transition_error message) l refused,
      ),
    )

dispatch-cancel :
    (s t : RunState) (spec : RunSpec) (delta : Float)
    → dispatch cancel s spec none delta ≡ ok t
    → t.status ≡ cancelled
unfolding dispatch
dispatch-cancel s t spec delta e = ground arith

-- A cancellation through the controller succeeds only while the plugin is enabled and the run is
-- neither running nor evaluating; the run is then stored as cancelled.
pub cancel_run-cancels :
    (c : Phase1Controller) (run_id : String) (db : Database) (t : RunState) (after : Database)
    → cancel_run c run_id db ≡ (ok t, after)
    → (c.enabled ≡ true)
      × (spec : RunSpec) × (s : RunState) × (load_run run_id db ≡ ok (spec, s))
      × (is_in_flight s.status ≡ false)
      × (load_run run_id after ≡ ok (spec, t))
      × (t.status ≡ cancelled)
unfolding cancel_run require_enabled
cancel_run-cancels c run_id db t after e =
    let (_, on, e1) = lift-ok (Result.require c.enabled c.disabled) _ db e in
    let (found, q, e2) = lift-ok (load_run run_id db) _ db e1 in
    let (_, calm, e3) =
      lift-ok
        (Result.raise_if (is_in_flight found.1.status)
          (value_error "in-flight cancellation is not claimed in Phase 1"))
        _ db e2 in
    let w =
      transition-Transitions c.hashing run_id cancel found.1.revision none no_cost db t after e3 in
    let a = apply_transition-Accepted c.hashing w.before cancel w.spec none no_cost t w.stepped in
    (
      require-ok _ _ on,
      w.spec,
      w.before,
      w.loaded_before,
      calm_state found.0 w.spec found.1 w.before (sym q ∙ w.loaded_before) (raise_if-ok _ _ calm),
      w.loaded_after,
      dispatch-cancel w.before t w.spec a.delta a.stepped,
    )
  where
    calm_state :
        (a b : RunSpec) (x y : RunState)
        → ◌≡◌ {A = Result (RunSpec × RunState)} (ok (a, x)) (ok (b, y))
        → is_in_flight x.status ≡ false
        → is_in_flight y.status ≡ false
    calm_state a b x y same calm = let q : x ≡ y = cc in rw (sym q) calm

pub dispatch-approve :
    (s t : RunState) (spec : RunSpec) (delta : Float)
    → dispatch approve s spec none delta ≡ ok t
    → t.status ≡ ready
unfolding dispatch
dispatch-approve s t spec delta e = ground arith

-- A run that the controller creates is accepted only while the plugin is enabled, from arguments
-- that the RunSpec accepts; it is then stored under its id as ready, approved but not started.
pub create-ready :
    (c : Phase1Controller) (run_id : String) (objective receipt : Value) (db : Database)
    (t : RunState) (after : Database)
    → create c run_id objective receipt db ≡ (ok t, after)
    → (c.enabled ≡ true)
      × ((asked : RunSpec) × (RunSpec.new
              (spec_args c.hashing run_id objective receipt c.wait_seconds)
            ≡ ok asked))
      × ((stored : RunSpec) × (load_run run_id after ≡ ok (stored, t)))
      × (t.status ≡ ready)
unfolding create require_enabled
create-ready c run_id objective receipt db t after e =
    let (_, on, e1) = lift-ok (Result.require c.enabled c.disabled) _ db e in
    let (spec, made, e2) =
      lift-ok (RunSpec.new (spec_args c.hashing run_id objective receipt c.wait_seconds)) _ db e1 in
    let (s, d1, _, e3) = continue-ok (create_run c.hashing spec db) _ e2 in
    let w = transition-Transitions c.hashing run_id approve s.revision none no_cost d1 t after e3 in
    let a = apply_transition-Accepted c.hashing w.before approve w.spec none no_cost t w.stepped in
    (
      require-ok _ _ on,
      (spec, made),
      (w.spec, w.loaded_after),
      dispatch-approve w.before t w.spec a.delta a.stepped,
    )
