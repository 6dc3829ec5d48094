-- ===== src/Phase2/Through.antt =====
-- The Phase 2 controller reaches the store only through its methods.
use hermes_agentic_variation.Base.{String, Bool, true, false, List, [], ◌∷◌, Option, none, some}
use hermes_agentic_variation.Base.Result
use hermes_agentic_variation.Base.Result.{value_error, ok}
use hermes_agentic_variation.Base.Value.{Value}
use hermes_agentic_variation.Child.{ChildOutcome, launch}
use hermes_agentic_variation.Contracts.Advice
use hermes_agentic_variation.Contracts.Advice.{SupervisorAdvice}
use hermes_agentic_variation.Contracts.Identity.{Hashing}
use hermes_agentic_variation.Contracts.Memory
use hermes_agentic_variation.Contracts.Memory.{ContinuationMemory}
use hermes_agentic_variation.Contracts.RunSpec
use hermes_agentic_variation.Contracts.RunSpec.{RunSpec}
use hermes_agentic_variation.Controller.Steps
use hermes_agentic_variation.Controller.Steps.{Phase1Controller, require_enabled, cancel_run}
use hermes_agentic_variation.Controller.Through.{
  require_enabled-Through, loaded-Through, step-Through, cancel_run-Through,
}
use hermes_agentic_variation.Phase2.Methods
use hermes_agentic_variation.Phase2.Methods.{
  as_phase2, spec_args, error_of, recover_supervision, recover_attempt, has_current_evaluation,
  recover, reconcile,
}
use hermes_agentic_variation.Phase2.Payload.{parse_supervisor_payload}
use hermes_agentic_variation.Phase2.Refresh.{
  memory_args, effective_advice, current_revision, refresh_memory, last_of,
}
use hermes_agentic_variation.Phase2.Supervise.{
  ended, advised, fail_supervision, supervisor_request, success_summary, advice_of,
  supervisor_result, advice_row, apply_advice, take_advice, hear, memory_or_new, call_supervisor,
  consult, exhaust, ask, needs_supervision, supervise,
}
use hermes_agentic_variation.StateMachine.{
  Status, running, evaluating, supervising, approve, complete, start_supervisor, supervisor_applied,
  supervisor_failed, RunState, no_cost,
}
use hermes_agentic_variation.Storage.Calls.Through.{
  Through, bind-Through, lift-Through, pure-Through, create_run-Through, transition-Through,
  observation-Through, advice-Through, save_memory-Through,
}
use hermes_agentic_variation.Storage.Evidence.{lineage, supervisor_advice, record_supervisor_advice}
use hermes_agentic_variation.Storage.Memories.{load_memory, save_memory}
use hermes_agentic_variation.Storage.Monad.{Action, pure, ◌>>=◌}
use hermes_agentic_variation.Storage.Reads.{load_run}
use hermes_agentic_variation.Storage.Runs.{create_run, transition, record_observation}
use hermes_agentic_variation.Verdict.{classification, replay, abandoned, abandon}
use hermes_agentic_variation.Verdict.Through.{launch-Through, replay-Through, abandon-Through}

pub refresh_memory-Through :
    (h : Hashing) (run_id : String) (failure advice : Option String)
    → Through h (refresh_memory h run_id failure advice)
unfolding refresh_memory
refresh_memory-Through h run_id failure advice db =
    lift-Through h (load_run run_id db) _
      (λ l db1.
        lift-Through h (load_memory run_id db1) _
          (λ previous db2.
            lift-Through h
              (Memory.new (
                memory_args h l.0 l.1 previous (lineage run_id db2) failure
                  (effective_advice h advice (supervisor_advice run_id db2))))
              _
              (λ memory.
                bind-Through h (save_memory h run_id memory (current_revision previous)) _
                  (save_memory-Through h run_id memory (current_revision previous))
                  (λ _. pure-Through h memory))
              db2)
          db1)
      db

module _ (c : Phase1Controller) where
  -- The end of each branch.
  told-Through :
      {A B : Type 0} (m : Action A) (a : A → B) (run_id : String) (failure advice : Option String)
      → Through c.hashing m
      → Through c.hashing
          (m >>= λ x. refresh_memory c.hashing run_id failure advice >>= λ _. pure (a x))
  told-Through m a run_id failure advice t = bind-Through c.hashing m _ t (λ x.
      bind-Through c.hashing (refresh_memory c.hashing run_id failure advice) _
        (refresh_memory-Through c.hashing run_id failure advice)
        (λ _. pure-Through c.hashing (a x)))

  fail_supervision-Through :
      (run_id : String) (s : RunState) (error : String)
      → Through c.hashing (fail_supervision c run_id s error)
  unfolding fail_supervision
  fail_supervision-Through run_id s error =
      bind-Through c.hashing (transition c.hashing run_id supervisor_failed s.revision none no_cost)
        _ (transition-Through c.hashing run_id supervisor_failed s.revision none no_cost)
        (λ after.
          told-Through
            (record_observation c.hashing run_id "supervisor_failed" (classification error))
            (λ _. ended after.status error) run_id (some error) none
            (observation-Through c.hashing run_id "supervisor_failed" (classification error)))

  apply_advice-Through :
      (run_id : String) (s : RunState) (child : ChildOutcome) (advice : SupervisorAdvice)
      → Through c.hashing (apply_advice c run_id s child advice)
  unfolding apply_advice
  apply_advice-Through run_id s child advice =
      let hash : String = Advice.identity c.hashing advice in
      bind-Through c.hashing (record_supervisor_advice run_id (advice_row c.hashing advice)) _
        (advice-Through c.hashing run_id (advice_row c.hashing advice))
        (λ _.
          bind-Through c.hashing
            (transition c.hashing run_id supervisor_applied s.revision none no_cost) _
            (transition-Through c.hashing run_id supervisor_applied s.revision none no_cost)
            (λ after.
              told-Through
                (record_observation c.hashing run_id "supervisor_result"
                  (supervisor_result child hash))
                (λ _. advised after.status hash advice.directions advice.prohibited_repeats) run_id
                none (some hash)
                (observation-Through c.hashing run_id "supervisor_result"
                  (supervisor_result child hash))))

  take_advice-Through :
      (run_id : String) (spec : RunSpec) (s : RunState) (memory : ContinuationMemory)
      (child : ChildOutcome) (lists : Option (List String × List String))
      → Through c.hashing (take_advice c run_id spec s memory child lists)
  unfolding take_advice
  take_advice-Through run_id spec s memory child none =
      fail_supervision-Through run_id s "INVALID_SUPERVISOR_PAYLOAD"
  take_advice-Through run_id spec s memory child (some lists) =
      lift-Through c.hashing (Advice.new (advice_of c run_id spec memory lists)) _
        (λ advice. apply_advice-Through run_id s child advice)

  hear-Through :
      (run_id : String) (spec : RunSpec) (s : RunState) (memory : ContinuationMemory)
      (child : Option ChildOutcome)
      → Through c.hashing (hear c run_id spec s memory child)
  unfolding hear
  hear-Through run_id spec s memory none =
      fail_supervision-Through run_id s "SUPERVISOR_LAUNCH_ERROR"
  hear-Through run_id spec s memory (some child) =
      take_advice-Through run_id spec s memory child
        (parse_supervisor_payload c.loads (success_summary child))

  call_supervisor-Through :
      (run_id : String) (spec : RunSpec) (memory : ContinuationMemory) (s : RunState)
      → Through c.hashing (call_supervisor c run_id spec memory s)
  unfolding call_supervisor
  call_supervisor-Through run_id spec memory s =
      bind-Through c.hashing
        (launch c.hashing c.lifecycle (ok (supervisor_request c run_id memory)))
        (hear c run_id spec s memory)
        (launch-Through c.hashing c.lifecycle (ok (supervisor_request c run_id memory)))
        (hear-Through run_id spec s memory)

  memory_or_new-Through :
      (run_id : String) (found : Option ContinuationMemory)
      → Through c.hashing (memory_or_new c run_id found)
  unfolding memory_or_new
  memory_or_new-Through run_id (some memory) = pure-Through c.hashing memory
  memory_or_new-Through run_id none = refresh_memory-Through c.hashing run_id none none

  ask-Through :
      (run_id : String) (spec : RunSpec) (s : RunState) (stored : List Value)
      → Through c.hashing (ask c run_id spec s stored)
  unfolding ask consult exhaust
  ask-Through run_id spec s [] db =
      lift-Through c.hashing (load_memory run_id db) _
        (λ found.
          bind-Through c.hashing (memory_or_new c run_id found) _
            (memory_or_new-Through run_id found)
            (λ memory.
              bind-Through c.hashing
                (transition c.hashing run_id start_supervisor s.revision none no_cost)
                (call_supervisor c run_id spec memory)
                (transition-Through c.hashing run_id start_supervisor s.revision none no_cost)
                (call_supervisor-Through run_id spec memory)))
        db
  ask-Through run_id spec s (v ∷ vs) db =
      told-Through (transition c.hashing run_id complete s.revision none no_cost)
        (λ after. ended after.status "SUPERVISOR_BUDGET_EXHAUSTED") run_id
        (some "SUPERVISOR_BUDGET_EXHAUSTED") none
        (transition-Through c.hashing run_id complete s.revision none no_cost) db

  pub supervise-Through : (run_id : String) → Through c.hashing (supervise c run_id)
  unfolding supervise
  supervise-Through run_id = require_enabled-Through (as_phase2 c) _ (λ _.
      loaded-Through (as_phase2 c) run_id _ (λ l.
        lift-Through c.hashing
          (Result.require (needs_supervision l.1.status)
            (value_error "supervisor is available only from supervision_required"))
          _ (λ _ db. ask-Through run_id l.0 l.1 (supervisor_advice run_id db) db)))

  recover_supervision-Through :
      (run_id : String) (s : RunState) (advice : Option Value)
      → Through c.hashing (recover_supervision c run_id s advice)
  unfolding recover_supervision
  recover_supervision-Through run_id s (some advice) =
      told-Through (transition c.hashing run_id supervisor_applied s.revision none no_cost)
        (λ after. (after.status, "supervisor_replayed")) run_id none
        (some (c.hashing.of_json advice))
        (transition-Through c.hashing run_id supervisor_applied s.revision none no_cost)
  recover_supervision-Through run_id s none =
      bind-Through c.hashing (transition c.hashing run_id supervisor_failed s.revision none no_cost)
        _ (transition-Through c.hashing run_id supervisor_failed s.revision none no_cost)
        (λ after.
          told-Through
            (record_observation c.hashing run_id "supervisor_missing"
              (classification "SUPERVISOR_MISSING"))
            (λ _. (after.status, "supervisor_missing")) run_id (some "SUPERVISOR_MISSING") none
            (observation-Through c.hashing run_id "supervisor_missing"
              (classification "SUPERVISOR_MISSING")))

  recover_attempt-Through :
      (run_id : String) (s : RunState) (current : Bool) (documents : List Value × List Value)
      → Through c.hashing (recover_attempt c run_id s current documents)
  unfolding recover_attempt
  recover_attempt-Through run_id s true documents =
      told-Through (replay c.hashing run_id s documents)
        (λ after. (after.status, "evaluation_replayed")) run_id none none
        (replay-Through c.hashing run_id s documents)
  recover_attempt-Through run_id s false documents =
      told-Through (abandon c.hashing run_id s) (λ after. (after.status, (abandoned s.status).1))
        run_id (some (abandoned s.status).2) none (abandon-Through c.hashing run_id s)

  recover-Through :
      (run_id : String) (s : RunState) (status : Status)
      → Through c.hashing (recover c run_id s status)
  unfolding recover
  recover-Through run_id s supervising db =
      recover_supervision-Through run_id s (last_of (supervisor_advice run_id db)) db
  recover-Through run_id s running db =
      recover_attempt-Through run_id s (has_current_evaluation run_id db) (lineage run_id db) db
  recover-Through run_id s evaluating db =
      recover_attempt-Through run_id s (has_current_evaluation run_id db) (lineage run_id db) db
  recover-Through run_id s _ db = pure-Through {A = Status × String} c.hashing (s.status, "noop") db

  pub reconcile-Through : (run_id : String) → Through c.hashing (reconcile c run_id)
  unfolding reconcile
  reconcile-Through run_id =
      require_enabled-Through (as_phase2 c) _
        (λ _. loaded-Through (as_phase2 c) run_id _ (λ l. recover-Through run_id l.1 l.1.status))

  pub step2-Through : (run_id : String) → Through c.hashing (Methods.step c run_id)
  unfolding Methods.step
  step2-Through run_id =
      bind-Through c.hashing (Steps.step (as_phase2 c) run_id) _ (step-Through (as_phase2 c) run_id)
        (λ reply.
          bind-Through c.hashing (refresh_memory c.hashing run_id (error_of reply) none) _
            (refresh_memory-Through c.hashing run_id (error_of reply) none)
            (λ _. pure-Through c.hashing reply))

  pub cancel2-Through : (run_id : String) → Through c.hashing (Methods.cancel c run_id)
  unfolding Methods.cancel
  cancel2-Through run_id =
      told-Through (cancel_run (as_phase2 c) run_id) (λ s. s) run_id (some "CANCELLED") none
        (cancel_run-Through (as_phase2 c) run_id)

  pub create2-Through :
      (run_id : String) (objective receipt : Value)
      → Through c.hashing (Methods.create c run_id objective receipt)
  unfolding Methods.create
  create2-Through run_id objective receipt = require_enabled-Through (as_phase2 c) _ (λ _.
      lift-Through c.hashing
        (RunSpec.new (spec_args c.hashing run_id objective receipt c.wait_seconds)) _
        (λ spec.
          bind-Through c.hashing (create_run c.hashing spec) _ (create_run-Through c.hashing spec)
            (λ s.
              told-Through (transition c.hashing run_id approve s.revision none no_cost) (λ t. t)
                run_id none none
                (transition-Through c.hashing run_id approve s.revision none no_cost))))
