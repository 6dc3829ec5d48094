-- ===== src/Verdict/Recovered.antt =====
-- A run whose attempt is recovered from the ledger, or given up.
use hermes_agentic_variation.Base.{String, Bool, true, List, none, ◌≡◌, refl, ap}
use hermes_agentic_variation.Base.Result.{ok}
use hermes_agentic_variation.Base.Value.{Value}
use hermes_agentic_variation.Contracts.Identity.{Hashing}
use hermes_agentic_variation.StateMachine.{Status, created, running, RunState, no_cost}
use hermes_agentic_variation.Storage.Monad.{continue-ok, lift-ok, pure-ok}
use hermes_agentic_variation.Storage.Runs.{transition, record_observation}
use hermes_agentic_variation.Storage.Tables.{Database}
use hermes_agentic_variation.Verdict.{
  classification, last_item, is_eligible, resumed, replay, abandoned, abandon,
}
use hermes_agentic_variation.Verdict.Reports.{
  Reports, Reports-same, Reports-along, settles, transition-Reports, decide-Reports,
  conclude-Reports, record_observation-load_run,
}

resumed-Reports :
    (status : Status) (h : Hashing) (run_id : String) (s : RunState) (hash : String)
    (eligible : Bool) (db : Database) (t : RunState) (after : Database)
    → resumed status h run_id s hash eligible db ≡ (ok t, after)
    → Reports run_id t.status after
unfolding resumed
resumed-Reports running h run_id s hash eligible db t after e =
    conclude-Reports h run_id s hash eligible db t after e
resumed-Reports created h run_id s hash eligible db t after e =
    decide-Reports h run_id s hash eligible db t after e
resumed-Reports _ h run_id s hash eligible db t after e =
    decide-Reports h run_id s hash eligible db t after e

pub replay-Reports :
    (h : Hashing) (run_id : String) (s : RunState) (documents : List Value × List Value)
    (db : Database) (t : RunState) (after : Database)
    → replay h run_id s documents db ≡ (ok t, after)
    → Reports run_id t.status after
unfolding replay
replay-Reports h run_id s documents db t after e =
    let (candidate, _, e1) = lift-ok (last_item documents.0) _ db e in
    let (evaluation, _, e2) = lift-ok (last_item documents.1) _ db e1 in
    resumed-Reports s.status h run_id s (h.of_json candidate) (is_eligible evaluation) db t after e2

abandoned-settles : (status : Status) → settles (abandoned status).0 ≡ true
abandoned-settles running = refl
abandoned-settles created = refl
abandoned-settles _ = refl

pub abandon-Reports :
    (h : Hashing) (run_id : String) (s : RunState) (db : Database) (t : RunState) (after : Database)
    → abandon h run_id s db ≡ (ok t, after)
    → Reports run_id t.status after
unfolding abandon
abandon-Reports h run_id s db t after e =
    let (u, d1, q, e1) =
      continue-ok (transition h run_id (abandoned s.status).0 s.revision none no_cost db) _ e in
    let payload : Value = classification (abandoned s.status).2 in
    let (v, d2, r, e2) =
      continue-ok (record_observation h run_id (abandoned s.status).1 payload d1) _ e1 in
    let (same, same_db) = pure-ok u t d2 after e2 in
    Reports-along run_id u.status t.status d2 after (ap (λ (x : RunState). x.status) same) same_db (
      Reports-same run_id u.status d1 d2
        (record_observation-load_run h run_id (abandoned s.status).1 payload d1 v d2 run_id r)
        (transition-Reports h run_id (abandoned s.status).0 s.revision none no_cost db u d1
          (abandoned-settles s.status) q))
