-- ===== src/Controller/Answers.antt =====
-- The answer of a step whose attempt fails.
use hermes_agentic_variation.Base.{String, none, ◌≡◌, refl, sym}
use hermes_agentic_variation.Base.Result.{ok}
use hermes_agentic_variation.Controller.Steps.{Phase1Controller, Reply, failed, evaluated, fail}
use hermes_agentic_variation.StateMachine.{Status, child_failed, RunState, no_cost}
use hermes_agentic_variation.Storage.Monad.{continue-ok, pure-ok}
use hermes_agentic_variation.Storage.Runs.{transition}
use hermes_agentic_variation.Storage.Tables.{Database}
use hermes_agentic_variation.Verdict.Reports.{Reports, transition-Reports}

abbrev pub status_of : Reply → Status
status_of (failed status error) = status
status_of (evaluated status eligible strategy evaluation candidate) = status

pub fail-Reports :
    (c : Phase1Controller) (run_id : String) (s : RunState) (error : String) (db : Database)
    (reply : Reply) (after : Database)
    → fail c run_id s error db ≡ (ok reply, after)
    → Reports run_id (status_of reply) after
unfolding fail
fail-Reports c run_id s error db reply after e =
    let (t, d, q, e1) =
      continue-ok (transition c.hashing run_id child_failed s.revision none no_cost db) _ e in
    let (same, same_db) = pure-ok (failed t.status error) reply d after e1 in
    rw (sym same, sym same_db)
      (transition-Reports c.hashing run_id child_failed s.revision none no_cost db t d refl q)
