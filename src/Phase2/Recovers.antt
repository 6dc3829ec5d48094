-- ===== src/Phase2/Recovers.antt =====
-- `reconcile` of phase2.py: recovery of an interrupted run from the ledger.
use hermes_agentic_variation.Base.{
  String, Bool, true, false, List, Option, none, some, ◌≡◌, refl, if◌then◌else◌, ap, sym,
}
use hermes_agentic_variation.Base.Result
use hermes_agentic_variation.Base.Result.{Result, ok, require-ok}
use hermes_agentic_variation.Base.Value.{Value}
use hermes_agentic_variation.Contracts.RunSpec.{RunSpec}
use hermes_agentic_variation.Controller.Steps.{Phase1Controller, require_enabled}
use hermes_agentic_variation.Phase2.Answers.{Answered, Answered-along, refresh_memory-Answered}
use hermes_agentic_variation.Phase2.Methods.{
  as_phase2, recover_supervision, recover_attempt, has_current_evaluation, recover, reconcile,
}
use hermes_agentic_variation.Phase2.Refresh.{refresh_memory, last_of}
use hermes_agentic_variation.StateMachine.{
  Status, running, evaluating, supervising, supervisor_applied, supervisor_failed, RunState,
  no_cost,
}
use hermes_agentic_variation.Storage.Evidence.{lineage, supervisor_advice}
use hermes_agentic_variation.Storage.Monad.{pure, continue-ok, lift-ok, pure-ok}
use hermes_agentic_variation.Storage.Reads.{load_run}
use hermes_agentic_variation.Storage.Runs.{transition, record_observation}
use hermes_agentic_variation.Storage.Tables.{Database}
use hermes_agentic_variation.Verdict.{classification, replay, abandoned, abandon}
use hermes_agentic_variation.Verdict.Recovered.{replay-Reports, abandon-Reports}
use hermes_agentic_variation.Verdict.Reports.{
  Reports-same, is_busy, transition-Reports, record_observation-load_run,
}

abbrev pub Reply : Type 0
Reply = Status × String

-- The last statement of each branch.
told-Answered :
    (c : Phase1Controller) (run_id : String) (s : Status) (action : String) (reply : Reply)
    (d after : Database)
    → pure (s, action) d ≡ (ok reply, after)
    → Answered c.hashing run_id s d
    → Answered c.hashing run_id reply.0 after
told-Answered c run_id s action reply d after e w =
    let (same, same_db) = pure-ok (s, action) reply d after e in
    Answered-along c.hashing run_id s reply.0 d after (ap (λ (r : Reply). r.0) same) same_db w

recover_supervision-Answered :
    (c : Phase1Controller) (run_id : String) (s : RunState) (advice : Option Value) (db : Database)
    (reply : Reply) (after : Database)
    → recover_supervision c run_id s advice db ≡ (ok reply, after)
    → Answered c.hashing run_id reply.0 after
unfolding recover_supervision
recover_supervision-Answered c run_id s (some advice) db reply after e =
    let (t, d1, q, e1) =
      continue-ok (transition c.hashing run_id supervisor_applied s.revision none no_cost db) _ e in
    let hash : Option String = some (c.hashing.of_json advice) in
    let (memory, d2, saved, e2) = continue-ok (refresh_memory c.hashing run_id none hash d1) _ e1 in
    told-Answered c run_id t.status "supervisor_replayed" reply d2 after e2 (
      refresh_memory-Answered c.hashing run_id none hash t.status d1 memory d2
        (transition-Reports c.hashing run_id supervisor_applied s.revision none no_cost db t d1 refl
          q)
        saved)
recover_supervision-Answered c run_id s none db reply after e =
    let (t, d1, q, e1) =
      continue-ok (transition c.hashing run_id supervisor_failed s.revision none no_cost db) _ e in
    let payload : Value = classification "SUPERVISOR_MISSING" in
    let (u, d2, r, e2) =
      continue-ok (record_observation c.hashing run_id "supervisor_missing" payload d1) _ e1 in
    let (memory, d3, saved, e3) =
      continue-ok (refresh_memory c.hashing run_id (some "SUPERVISOR_MISSING") none d2) _ e2 in
    told-Answered c run_id t.status "supervisor_missing" reply d3 after e3 (
      refresh_memory-Answered c.hashing run_id (some "SUPERVISOR_MISSING") none t.status d2 memory
        d3
        (Reports-same run_id t.status d1 d2
          (record_observation-load_run c.hashing run_id "supervisor_missing" payload d1 u d2 run_id
            r)
          (transition-Reports c.hashing run_id supervisor_failed s.revision none no_cost db t d1
            refl q))
        saved)

recover_attempt-Answered :
    (c : Phase1Controller) (run_id : String) (s : RunState) (current : Bool)
    (documents : List Value × List Value) (db : Database) (reply : Reply) (after : Database)
    → recover_attempt c run_id s current documents db ≡ (ok reply, after)
    → Answered c.hashing run_id reply.0 after
unfolding recover_attempt
recover_attempt-Answered c run_id s true documents db reply after e =
    let (t, d1, q, e1) = continue-ok (replay c.hashing run_id s documents db) _ e in
    let (memory, d2, saved, e2) = continue-ok (refresh_memory c.hashing run_id none none d1) _ e1 in
    told-Answered c run_id t.status "evaluation_replayed" reply d2 after e2 (
      refresh_memory-Answered c.hashing run_id none none t.status d1 memory d2
        (replay-Reports c.hashing run_id s documents db t d1 q) saved)
recover_attempt-Answered c run_id s false documents db reply after e =
    let (t, d1, q, e1) = continue-ok (abandon c.hashing run_id s db) _ e in
    let failure : Option String = some (abandoned s.status).2 in
    let (memory, d2, saved, e2) =
      continue-ok (refresh_memory c.hashing run_id failure none d1) _ e1 in
    told-Answered c run_id t.status (abandoned s.status).1 reply d2 after e2 (
      refresh_memory-Answered c.hashing run_id failure none t.status d1 memory d2
        (abandon-Reports c.hashing run_id s db t d1 q) saved)

-- The run decides: one at which no child is at work is left as it was, and told as a noop; every
-- other one is recovered.
abbrev pub Recovered :
    Phase1Controller → String → Bool → Status → Reply → Database → Database → Type 0
Recovered c run_id busy status reply db after =
    if busy
    then Answered c.hashing run_id reply.0 after
    else ((reply ≡ (status, "noop")) × (after ≡ db))

idle :
    (status : Status) (reply : Reply) (db after : Database)
    → pure (status, "noop") db ≡ (ok reply, after)
    → (reply ≡ (status, "noop")) × (after ≡ db)
idle status reply db after e =
    let (same, same_db) = pure-ok (status, "noop") reply db after e in (sym same, sym same_db)

recover-Recovered :
    (c : Phase1Controller) (run_id : String) (s : RunState) (status : Status) (db : Database)
    (reply : Reply) (after : Database)
    → recover c run_id s status db ≡ (ok reply, after)
    → Recovered c run_id (is_busy status) s.status reply db after
unfolding recover
recover-Recovered c run_id s supervising db reply after e =
    recover_supervision-Answered c run_id s (last_of (supervisor_advice run_id db)) db reply after e
recover-Recovered c run_id s running db reply after e =
    recover_attempt-Answered c run_id s (has_current_evaluation run_id db) (lineage run_id db) db
      reply after e
recover-Recovered c run_id s evaluating db reply after e =
    recover_attempt-Answered c run_id s (has_current_evaluation run_id db) (lineage run_id db) db
      reply after e
recover-Recovered c run_id s _ db reply after e = idle s.status reply db after e

-- A reconciliation that answers leaves a run at which no child is at work as it was, and tells its status as a noop; for every other run it tells the status that the ledger then holds, no child is at work for the run any more, and the memory that is stored for it has the revision, the status and the best candidate of the stored state.
pub reconcile-Recovers :
    (c : Phase1Controller) (run_id : String) (db : Database) (reply : Reply) (after : Database)
    → reconcile c run_id db ≡ (ok reply, after)
    → (spec : RunSpec) × (s : RunState) × (load_run run_id db ≡ ok (spec, s))
      × Recovered c run_id (is_busy s.status) s.status reply db after
unfolding reconcile require_enabled
reconcile-Recovers c run_id db reply after e =
    let (_, _, e1) = lift-ok (Result.require c.enabled (as_phase2 c).disabled) _ db e in
    let (found, l, e2) = lift-ok (load_run run_id db) _ db e1 in
    (found.0, found.1, l, recover-Recovered c run_id found.1 found.1.status db reply after e2)

reconcile-enabled :
    (c : Phase1Controller) (run_id : String) (db : Database) (reply : Reply) (after : Database)
    → reconcile c run_id db ≡ (ok reply, after)
    → c.enabled ≡ true
unfolding reconcile require_enabled
reconcile-enabled c run_id db reply after e =
    let (_, on, _) = lift-ok (Result.require c.enabled (as_phase2 c).disabled) _ db e in
    require-ok c.enabled (as_phase2 c).disabled on

recover-idle :
    (c : Phase1Controller) (run_id : String) (s : RunState) (status : Status) (db : Database)
    → is_busy status ≡ false
    → recover c run_id s status db ≡ (ok (s.status, "noop"), db)
unfolding recover
recover-idle c run_id s running db calm = cc
recover-idle c run_id s evaluating db calm = cc
recover-idle c run_id s supervising db calm = cc
recover-idle c run_id s _ db calm = refl

reconcile-idle :
    (c : Phase1Controller) (run_id : String) (db : Database) (spec : RunSpec) (s : RunState)
    → c.enabled ≡ true
    → load_run run_id db ≡ ok (spec, s)
    → is_busy s.status ≡ false
    → reconcile c run_id db ≡ (ok (s.status, "noop"), db)
unfolding reconcile require_enabled
reconcile-idle c run_id db spec s on l calm = rw (on, l, recover-idle c run_id s s.status db calm)

-- A second reconciliation does nothing: it tells the same status as a noop and leaves the ledger as it is.
pub reconcile_idempotent :
    (c : Phase1Controller) (run_id : String) (db : Database) (reply : Reply) (after : Database)
    → reconcile c run_id db ≡ (ok reply, after)
    → reconcile c run_id after ≡ (ok (reply.0, "noop"), after)
reconcile_idempotent c run_id db reply after e =
    let (spec, s, l, cases) = reconcile-Recovers c run_id db reply after e in
    again spec s (is_busy s.status) refl l (reconcile-enabled c run_id db reply after e) cases
  where
    again :
        (spec : RunSpec) (s : RunState) (busy : Bool)
        → is_busy s.status ≡ busy
        → load_run run_id db ≡ ok (spec, s)
        → c.enabled ≡ true
        → Recovered c run_id busy s.status reply db after
        → reconcile c run_id after ≡ (ok (reply.0, "noop"), after)
    again spec s false calm l on (same, unchanged) =
        rw (unchanged, same) (reconcile-idle c run_id db spec s on l calm)
    again spec s true busy l on w =
        let r = w.reports in
        rw r.told (reconcile-idle c run_id after r.spec r.state on r.loaded r.settled)
