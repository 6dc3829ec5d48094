-- ===== src/Phase2/Advises.antt =====
-- `supervise` of phase2.py: what it answers, and what it leaves.
use hermes_agentic_variation.Base.{String, List, [], ◌∷◌, Option, none, some, ◌≡◌, refl, ap}
use hermes_agentic_variation.Base.Result
use hermes_agentic_variation.Base.Result.{Result, value_error, ok}
use hermes_agentic_variation.Base.Value.{Value}
use hermes_agentic_variation.Child.{ChildOutcome, launch}
use hermes_agentic_variation.Contracts.Advice
use hermes_agentic_variation.Contracts.Advice.{SupervisorAdvice}
use hermes_agentic_variation.Contracts.Memory.{ContinuationMemory}
use hermes_agentic_variation.Contracts.RunSpec.{RunSpec}
use hermes_agentic_variation.Controller.Steps.{Phase1Controller, require_enabled}
use hermes_agentic_variation.Phase2.Answers.{Answered, Answered-along, refresh_memory-Answered}
use hermes_agentic_variation.Phase2.Methods.{as_phase2}
use hermes_agentic_variation.Phase2.Payload.{parse_supervisor_payload}
use hermes_agentic_variation.Phase2.Refresh.{refresh_memory}
use hermes_agentic_variation.Phase2.Supervise.{
  SupervisorReply, ended, advised, fail_supervision, supervisor_request, success_summary, advice_of,
  supervisor_result, advice_row, apply_advice, take_advice, hear, memory_or_new, call_supervisor,
  consult, exhaust, ask, needs_supervision, supervise,
}
use hermes_agentic_variation.StateMachine.{
  Status, complete, start_supervisor, supervisor_applied, supervisor_failed, RunState, no_cost,
}
use hermes_agentic_variation.Storage.Evidence.{supervisor_advice, record_supervisor_advice}
use hermes_agentic_variation.Storage.Memories.{load_memory}
use hermes_agentic_variation.Storage.Monad.{pure, continue-ok, lift-ok, pure-ok}
use hermes_agentic_variation.Storage.Reads.{load_run}
use hermes_agentic_variation.Storage.Runs.{transition, record_observation}
use hermes_agentic_variation.Storage.Tables.{Database}
use hermes_agentic_variation.Verdict.{classification}
use hermes_agentic_variation.Verdict.Reports.{
  Reports-same, transition-Reports, record_observation-load_run,
}

abbrev pub status_of : SupervisorReply → Status
status_of (ended status error) = status
status_of (advised status hash directions prohibited) = status

-- The last statement of each branch.
told-Answered :
    (c : Phase1Controller) (run_id : String) (told reply : SupervisorReply) (d after : Database)
    → pure told d ≡ (ok reply, after)
    → Answered c.hashing run_id (status_of told) d
    → Answered c.hashing run_id (status_of reply) after
told-Answered c run_id told reply d after e w =
    let (same, same_db) = pure-ok told reply d after e in
    Answered-along c.hashing run_id (status_of told) (status_of reply) d after (ap status_of same)
      same_db w

fail_supervision-Answered :
    (c : Phase1Controller) (run_id : String) (s : RunState) (error : String) (db : Database)
    (reply : SupervisorReply) (after : Database)
    → fail_supervision c run_id s error db ≡ (ok reply, after)
    → Answered c.hashing run_id (status_of reply) after
unfolding fail_supervision
fail_supervision-Answered c run_id s error db reply after e =
    let (t, d1, q, e1) =
      continue-ok (transition c.hashing run_id supervisor_failed s.revision none no_cost db) _ e in
    let payload : Value = classification error in
    let (u, d2, r, e2) =
      continue-ok (record_observation c.hashing run_id "supervisor_failed" payload d1) _ e1 in
    let (memory, d3, saved, e3) =
      continue-ok (refresh_memory c.hashing run_id (some error) none d2) _ e2 in
    told-Answered c run_id (ended t.status error) reply d3 after e3 (
      refresh_memory-Answered c.hashing run_id (some error) none t.status d2 memory d3
        (Reports-same run_id t.status d1 d2
          (record_observation-load_run c.hashing run_id "supervisor_failed" payload d1 u d2 run_id
            r)
          (transition-Reports c.hashing run_id supervisor_failed s.revision none no_cost db t d1
            refl q))
        saved)

apply_advice-Answered :
    (c : Phase1Controller) (run_id : String) (s : RunState) (child : ChildOutcome)
    (advice : SupervisorAdvice) (db : Database) (reply : SupervisorReply) (after : Database)
    → apply_advice c run_id s child advice db ≡ (ok reply, after)
    → Answered c.hashing run_id (status_of reply) after
unfolding apply_advice
apply_advice-Answered c run_id s child advice db reply after e =
    let hash : String = Advice.identity c.hashing advice in
    let (_, d1, _, e1) =
      continue-ok (record_supervisor_advice run_id (advice_row c.hashing advice) db) _ e in
    let (t, d2, q, e2) =
      continue-ok (transition c.hashing run_id supervisor_applied s.revision none no_cost d1) _
        e1 in
    let payload : Value = supervisor_result child hash in
    let (u, d3, r, e3) =
      continue-ok (record_observation c.hashing run_id "supervisor_result" payload d2) _ e2 in
    let (memory, d4, saved, e4) =
      continue-ok (refresh_memory c.hashing run_id none (some hash) d3) _ e3 in
    told-Answered c run_id (advised t.status hash advice.directions advice.prohibited_repeats) reply
      d4 after e4
      (refresh_memory-Answered c.hashing run_id none (some hash) t.status d3 memory d4
        (Reports-same run_id t.status d2 d3
          (record_observation-load_run c.hashing run_id "supervisor_result" payload d2 u d3 run_id
            r)
          (transition-Reports c.hashing run_id supervisor_applied s.revision none no_cost d1 t d2
            refl q))
        saved)

hear-Answered :
    (c : Phase1Controller) (run_id : String) (spec : RunSpec) (s : RunState)
    (memory : ContinuationMemory) (child : Option ChildOutcome) (db : Database)
    (reply : SupervisorReply) (after : Database)
    → hear c run_id spec s memory child db ≡ (ok reply, after)
    → Answered c.hashing run_id (status_of reply) after
unfolding hear take_advice
hear-Answered c run_id spec s memory none db reply after e =
    fail_supervision-Answered c run_id s "SUPERVISOR_LAUNCH_ERROR" db reply after e
hear-Answered c run_id spec s memory (some child) db reply after e =
    parsed (parse_supervisor_payload c.loads (success_summary child)) e
  where
    parsed :
        (lists : Option (List String × List String))
        → take_advice c run_id spec s memory child lists db ≡ (ok reply, after)
        → Answered c.hashing run_id (status_of reply) after
    parsed none q =
        fail_supervision-Answered c run_id s "INVALID_SUPERVISOR_PAYLOAD" db reply after q
    parsed (some lists) q =
        let (advice, _, q1) = lift-ok (Advice.new (advice_of c run_id spec memory lists)) _ db q in
        apply_advice-Answered c run_id s child advice db reply after q1

ask-Answered :
    (c : Phase1Controller) (run_id : String) (spec : RunSpec) (s : RunState) (stored : List Value)
    (db : Database) (reply : SupervisorReply) (after : Database)
    → ask c run_id spec s stored db ≡ (ok reply, after)
    → Answered c.hashing run_id (status_of reply) after
unfolding ask consult exhaust call_supervisor
ask-Answered c run_id spec s [] db reply after e =
    let (found, _, e1) = lift-ok (load_memory run_id db) _ db e in
    let (memory, d1, _, e2) = continue-ok (memory_or_new c run_id found db) _ e1 in
    let (started, d2, _, e3) =
      continue-ok (transition c.hashing run_id start_supervisor s.revision none no_cost d1)
        (call_supervisor c run_id spec memory) e2 in
    let (child, d3, _, e4) =
      continue-ok (launch c.hashing c.lifecycle (ok (supervisor_request c run_id memory)) d2)
        (hear c run_id spec started memory) e3 in
    hear-Answered c run_id spec started memory child d3 reply after e4
ask-Answered c run_id spec s (v ∷ vs) db reply after e =
    let (t, d1, q, e1) =
      continue-ok (transition c.hashing run_id complete s.revision none no_cost db) _ e in
    let failure : Option String = some "SUPERVISOR_BUDGET_EXHAUSTED" in
    let (memory, d2, saved, e2) =
      continue-ok (refresh_memory c.hashing run_id failure none d1) _ e1 in
    told-Answered c run_id (ended t.status "SUPERVISOR_BUDGET_EXHAUSTED") reply d2 after e2 (
      refresh_memory-Answered c.hashing run_id failure none t.status d1 memory d2
        (transition-Reports c.hashing run_id complete s.revision none no_cost db t d1 refl q) saved)

-- When the supervision of a run answers, whatever the supervisor did, the status that it tells is the one that the ledger then holds for the run, no child is at work for the run any more, and the memory that is stored for it has the revision, the status and the best candidate of the stored state.
pub supervise-Answered :
    (c : Phase1Controller) (run_id : String) (db : Database) (reply : SupervisorReply)
    (after : Database)
    → supervise c run_id db ≡ (ok reply, after)
    → Answered c.hashing run_id (status_of reply) after
unfolding supervise require_enabled
supervise-Answered c run_id db reply after e =
    let (_, _, e1) = lift-ok (Result.require c.enabled (as_phase2 c).disabled) _ db e in
    let (found, _, e2) = lift-ok (load_run run_id db) _ db e1 in
    let (_, _, e3) =
      lift-ok
        (Result.require (needs_supervision found.1.status)
          (value_error "supervisor is available only from supervision_required"))
        _ db e2 in
    ask-Answered c run_id found.0 found.1 (supervisor_advice run_id db) db reply after e3
