-- ===== src/Phase2/CrashRecovery.antt =====
-- A crash between the record of an attempt and its verdict, against a step that was not interrupted.
use hermes_agentic_variation.Base.{String, true, [], ◌∷◌, ◌++◌, none, length, ◌≡◌, refl, sym, ◌∙◌}
use hermes_agentic_variation.Base.Result.{Result, ok, err}
use hermes_agentic_variation.Base.Value.{Value}
use hermes_agentic_variation.Contracts.Candidate
use hermes_agentic_variation.Contracts.Candidate.{Candidate}
use hermes_agentic_variation.Contracts.Evaluation
use hermes_agentic_variation.Contracts.Evaluation.{EvaluationResult}
use hermes_agentic_variation.Contracts.Identity.{Hashing}
use hermes_agentic_variation.Contracts.RunSpec.{RunSpec}
use hermes_agentic_variation.Controller.Answers.{status_of}
use hermes_agentic_variation.Controller.Steps.{
  Phase1Controller, Reply, evaluated, require_enabled, recorded,
}
use hermes_agentic_variation.Phase2.Methods.{
  error_of, recover_attempt, has_current_evaluation, recover, reconcile,
}
use hermes_agentic_variation.Phase2.Refresh.{refresh_memory}
use hermes_agentic_variation.StateMachine.{Status, running, RunState}
use hermes_agentic_variation.Storage.Attempts.{record_attempt-Attempted}
use hermes_agentic_variation.Storage.Evidence.{record_attempt, lineage}
use hermes_agentic_variation.Storage.Monad.{Action, continue, pure, ◌>>=◌, ◌>>◌}
use hermes_agentic_variation.Storage.Reads.{load_run, events}
use hermes_agentic_variation.Storage.Tables.{Database}
use hermes_agentic_variation.Verdict.{candidate_row, evaluation_row, conclude, applied}
use hermes_agentic_variation.Verdict.Replayed.{replay-conclude, to_dict-is_eligible, ltb-append}

pending :
    (run_id : String) (v : Value) (db after : Database)
    → (lineage run_id after).1 ≡ ((lineage run_id db).1 ++ v ∷ [])
    → events run_id after ≡ events run_id db
    → length (lineage run_id db).1 ≡ applied (events run_id db)
    → has_current_evaluation run_id after ≡ true
unfolding has_current_evaluation
pending run_id v db after p q n =
    rw (p, q) (ltb-append (lineage run_id db).1 v (applied (events run_id db)) n)

reconcile-current :
    (c : Phase1Controller) (run_id : String) (db : Database) (spec : RunSpec) (s : RunState)
    → c.enabled ≡ true
    → load_run run_id db ≡ ok (spec, s)
    → s.status ≡ running
    → has_current_evaluation run_id db ≡ true
    → reconcile c run_id db ≡ recover_attempt c run_id s true (lineage run_id db) db
unfolding reconcile require_enabled recover
reconcile-current c run_id db spec s on l st current = rw (on, l) (from s.status st)
  where
    from :
        (status : Status)
        → status ≡ running
        → recover c run_id s status db ≡ recover_attempt c run_id s true (lineage run_id db) db
    from status r = rw (r, current) refl

continue-pure :
    {A B C : Type 0} (x : Result A × Database) (g : A → B) (f : B → Action C)
    → continue (continue x (λ a. pure (g a))) f ≡ continue x (λ a. f (g a))
continue-pure (ok a, db) g f = refl
continue-pure (err e, db) g f = refl

-- What `step` of Phase 2 does behind the answer of a step of Phase 1, told as `reconcile` does.
abbrev pub rest_of_step : Phase1Controller → String → Reply → Action (Status × String)
rest_of_step c run_id reply =
    refresh_memory c.hashing run_id (error_of reply) none
    >> pure (status_of reply, "evaluation_replayed")

-- Let the attempt of a running run whose evaluations have all had their verdict be recorded, and the process end there. `reconcile` then does exactly what the interrupted step would have done from the record on: it has the same result, an error included, and leaves the same ledger, the refreshed memory included.
pub reconcile-finishes_step :
    (c : Phase1Controller) (run_id : String) (spec : RunSpec) (s : RunState) (strategy : String)
    (candidate : Candidate) (evaluation : EvaluationResult) (db : Database) (u : Unit {0})
    (crashed : Database)
    → c.enabled ≡ true
    → load_run run_id db ≡ ok (spec, s)
    → s.status ≡ running
    → length (lineage run_id db).1 ≡ applied (events run_id db)
    → record_attempt run_id
        (candidate_row c.hashing candidate)
        (evaluation_row c.hashing evaluation)
        db
      ≡ (ok u, crashed)
    → reconcile c run_id crashed
      ≡ (recorded c run_id s strategy candidate evaluation >>= rest_of_step c run_id) db
unfolding recorded recover_attempt Candidate.identity
reconcile-finishes_step c run_id spec s strategy candidate evaluation db u crashed on l st n rec =
    let h : Hashing = c.hashing in
    let w =
      record_attempt-Attempted run_id (candidate_row h candidate) (evaluation_row h evaluation) db u
        crashed rec in
    let current =
      pending run_id (Evaluation.to_dict evaluation) db crashed w.evaluations (w.log run_id) n in
    let left = reconcile-current c run_id crashed spec s on (w.run run_id ∙ l) st current in
    let replayed =
      replay-conclude h run_id s (lineage run_id db).0 (lineage run_id db).1
        (Candidate.to_dict candidate) (Evaluation.to_dict evaluation) (lineage run_id crashed)
        crashed st w.candidates w.evaluations in
    rw (left, replayed, to_dict-is_eligible evaluation, rec)
      (sym (
        continue-pure
          (conclude h run_id s (Candidate.identity h candidate) evaluation.eligible crashed)
          (λ (t : RunState). evaluated t.status evaluation.eligible strategy evaluation candidate)
          (rest_of_step c run_id)))
