-- ===== src/Phase2/OneCall.antt =====
-- The supervisor of a run is called once.
use hermes_agentic_variation.Base.{
  String, true, List, ◌∷◌, none, some, ◌≡◌, refl, ap, sym, ◌∙◌, arith,
}
use hermes_agentic_variation.Base.Float.{Float}
use hermes_agentic_variation.Base.Result.{ok}
use hermes_agentic_variation.Base.Value.{Value}
use hermes_agentic_variation.Child.{Lifecycle}
use hermes_agentic_variation.Contracts.RunSpec.{RunSpec}
use hermes_agentic_variation.Controller.Steps.{Phase1Controller, require_enabled}
use hermes_agentic_variation.Phase2.Fresh.{loaded_unique}
use hermes_agentic_variation.Phase2.Refresh.{refresh_memory}
use hermes_agentic_variation.Phase2.Supervise.{
  SupervisorReply, ended, exhaust, ask, needs_supervision, supervise,
}
use hermes_agentic_variation.StateMachine.{
  Status, supervision_required, complete, RunState, outcome, dispatch, no_cost,
}
use hermes_agentic_variation.StateMachine.Accepted.{apply_transition-Accepted}
use hermes_agentic_variation.Storage.Evidence.{supervisor_advice}
use hermes_agentic_variation.Storage.Monad.{continue-ok, pure-ok}
use hermes_agentic_variation.Storage.Reads.{load_run}
use hermes_agentic_variation.Storage.Runs.{transition}
use hermes_agentic_variation.Storage.Tables.{Database}
use hermes_agentic_variation.Storage.Transition.Readers.{transition-Transitions}

abbrev pub with_lifecycle : Lifecycle → Phase1Controller → Phase1Controller
with_lifecycle l c = record {
  hashing = c.hashing;
  loads = c.loads;
  dumps = c.dumps;
  lifecycle = l;
  enabled = c.enabled;
  wait_seconds = c.wait_seconds;
  disabled = c.disabled;
  variation_context = c.variation_context;
}

supervise-exhaust :
    (c : Phase1Controller) (run_id : String) (db : Database) (spec : RunSpec) (s : RunState)
    (v : Value) (vs : List Value)
    → c.enabled ≡ true
    → load_run run_id db ≡ ok (spec, s)
    → s.status ≡ supervision_required
    → supervisor_advice run_id db ≡ (v ∷ vs)
    → supervise c run_id db ≡ exhaust c run_id s db
unfolding supervise require_enabled ask
supervise-exhaust c run_id db spec s v vs on l st stored =
    rw (on, l, needed s.status st, stored) refl
  where
    needed : (status : Status) → status ≡ supervision_required → needs_supervision status ≡ true
    needed status e = rw e refl

dispatch-complete :
    (s t : RunState) (spec : RunSpec) (delta : Float)
    → dispatch complete s spec none delta ≡ ok t
    → t.status ≡ outcome s.best_candidate_hash
unfolding dispatch
dispatch-complete s t spec delta e = ground arith

-- Once a run in need of supervision has advice, its supervision makes no further call: whatever the lifecycle, it has the same result and leaves the same ledger. When it answers, the run has ended, as succeeded if it has a best candidate and else with no result, and the error is SUPERVISOR_BUDGET_EXHAUSTED.
pub supervise_once :
    (c : Phase1Controller) (l : Lifecycle) (run_id : String) (db : Database) (spec : RunSpec)
    (s : RunState) (v : Value) (vs : List Value)
    → c.enabled ≡ true
    → load_run run_id db ≡ ok (spec, s)
    → s.status ≡ supervision_required
    → supervisor_advice run_id db ≡ (v ∷ vs)
    → (supervise c run_id db ≡ supervise (with_lifecycle l c) run_id db)
      × ((reply : SupervisorReply) (after : Database)
          → supervise c run_id db ≡ (ok reply, after)
          → reply ≡ ended (outcome s.best_candidate_hash) "SUPERVISOR_BUDGET_EXHAUSTED")
unfolding exhaust
supervise_once c l run_id db spec s v vs on found st stored =
    let left = supervise-exhaust c run_id db spec s v vs on found st stored in
    let right = supervise-exhaust (with_lifecycle l c) run_id db spec s v vs on found st stored in
    (
      left ∙ sym right,
      λ reply after e.
          let (t, d1, q, e1) =
            continue-ok (transition c.hashing run_id complete s.revision none no_cost db) _
              (sym left ∙ e) in
          let w =
            transition-Transitions c.hashing run_id complete s.revision none no_cost db t d1 q in
          let a =
            apply_transition-Accepted c.hashing w.before complete w.spec none no_cost t w.stepped in
          let (_, same) = loaded_unique w.spec spec w.before s (sym w.loaded_before ∙ found) in
          let (_, d2, _, e2) =
            continue-ok
              (refresh_memory c.hashing run_id (some "SUPERVISOR_BUDGET_EXHAUSTED") none d1) _ e1 in
          let (told, _) =
            pure-ok (ended t.status "SUPERVISOR_BUDGET_EXHAUSTED") reply d2 after e2 in
          sym told
          ∙ ap (λ (x : Status). ended x "SUPERVISOR_BUDGET_EXHAUSTED")
              (dispatch-complete w.before t w.spec a.delta a.stepped
                ∙ ap (λ (x : RunState). outcome x.best_candidate_hash) same),
    )
