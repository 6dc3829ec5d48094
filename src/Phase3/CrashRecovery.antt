-- ===== src/Phase3/CrashRecovery.antt =====
-- A crash between the record of an attempt and its verdict, against a mutation that was not
-- interrupted.
use hermes_agentic_variation.Base.{String, true, [], ◌∷◌, ◌++◌, length, ◌≡◌, refl, ◌∙◌}
use hermes_agentic_variation.Base.Logic.{true-and}
use hermes_agentic_variation.Base.Result.{Result, ok, err}
use hermes_agentic_variation.Base.Value.{Value}
use hermes_agentic_variation.Contracts.Candidate
use hermes_agentic_variation.Contracts.Candidate.{Candidate}
use hermes_agentic_variation.Contracts.Evaluation
use hermes_agentic_variation.Contracts.Evaluation.{EvaluationResult}
use hermes_agentic_variation.Contracts.Identity.{Hashing}
use hermes_agentic_variation.Contracts.MutationReceipt
use hermes_agentic_variation.Contracts.MutationReceipt.{MutationReceipt}
use hermes_agentic_variation.Contracts.RunSpec.{RunSpec}
use hermes_agentic_variation.Effect.{continue, pure, on_first, ◌>>=◌}
use hermes_agentic_variation.Phase3.Ledger.{
  receipt_row, recorded, has_current_receipt, recover_attempt, recover_last, recover,
}
use hermes_agentic_variation.Phase3.Methods.{
  Phase3Controller, World, require_enabled, load_phase3_run, reconcile,
}
use hermes_agentic_variation.StateMachine.{Status, running, RunState}
use hermes_agentic_variation.Storage.Attempts.Mutation.{record_mutation_attempt-Attempted}
use hermes_agentic_variation.Storage.Evidence.{record_mutation_attempt, lineage, mutation_receipts}
use hermes_agentic_variation.Storage.Monad
use hermes_agentic_variation.Storage.Reads.{load_run, events}
use hermes_agentic_variation.Storage.Tables.{Database}
use hermes_agentic_variation.Verdict.{candidate_row, evaluation_row, conclude, applied}
use hermes_agentic_variation.Verdict.Replayed.{replay-conclude, to_dict-is_eligible, ltb-append}
use hermes_agentic_variation.Workspace.Files.{FileSystem}

pending :
    (run_id : String) (v r : Value) (db after : Database)
    → (lineage run_id after).1 ≡ ((lineage run_id db).1 ++ v ∷ [])
    → mutation_receipts run_id after ≡ (mutation_receipts run_id db ++ r ∷ [])
    → events run_id after ≡ events run_id db
    → length (lineage run_id db).1 ≡ applied (events run_id db)
    → length (mutation_receipts run_id db) ≡ applied (events run_id db)
    → has_current_receipt run_id after ≡ true
unfolding has_current_receipt
pending run_id v r db after p q l n m =
    rw (p, q, l)
      (true-and _ _ (ltb-append (lineage run_id db).1 v (applied (events run_id db)) n)
        (ltb-append (mutation_receipts run_id db) r (applied (events run_id db)) m))

recover-running :
    (h : Hashing) (run_id : String) (s : RunState) (db : Database)
    → s.status ≡ running
    → has_current_receipt run_id db ≡ true
    → recover h run_id s db ≡ recover_attempt h run_id s true (lineage run_id db) db
unfolding recover recover_last
recover-running h run_id s db st current = rw (st, current) refl

-- The answer of a verdict, told behind the disk or in front of it.
first-continue :
    {D : Type 0} (x : Result RunState × Database) (d : D)
    → ◌≡◌ {A = Result (Status × String) × (Database × D)}
        (let r =
            Monad.continue x
              (λ t. Monad.pure {A = Status × String} (t.status, "evaluation_replayed")) in
          (r.0, (r.1, d)))
        (continue
          (x.0, (x.1, d))
          (λ t. pure {A = Status × String} (t.status, "evaluation_replayed")))
first-continue (ok t, db) d = refl
first-continue (err e, db) d = refl

module _ (F : FileSystem) (c : Phase3Controller F) where
  reloaded :
      (run_id : String) (db after : Database) (d : F.Disk)
      → load_run run_id after ≡ load_run run_id db
      → load_phase3_run F c run_id (after, d) ≡ load_phase3_run F c run_id (db, d)
  unfolding load_phase3_run
  reloaded run_id db after d e = rw e refl

  reconcile-enabled :
      (run_id : String) (w : World F) (spec : RunSpec) (s : RunState)
      → c.enabled ≡ true
      → load_phase3_run F c run_id w ≡ ok (spec, s)
      → reconcile F c run_id w ≡ on_first (recover c.hashing run_id s) w
  unfolding reconcile require_enabled
  reconcile-enabled run_id w spec s on l = rw (on, l) refl

  -- Let the attempt of a running Phase 3 run whose evaluations and receipts have all had their verdict be recorded, and the process end there. `reconcile` then does exactly what the interrupted `mutate` would have done from the record on: it has the same result, an error included, and leaves the same ledger and the same disk.
  pub reconcile-finishes_mutate :
      (run_id : String) (spec : RunSpec) (s : RunState) (candidate : Candidate)
      (evaluation : EvaluationResult) (receipt : MutationReceipt) (w : World F) (u : Unit {0})
      (crashed : Database)
      → c.enabled ≡ true
      → load_phase3_run F c run_id w ≡ ok (spec, s)
      → s.status ≡ running
      → length (lineage run_id w.0).1 ≡ applied (events run_id w.0)
      → length (mutation_receipts run_id w.0) ≡ applied (events run_id w.0)
      → record_mutation_attempt run_id
          (candidate_row c.hashing candidate)
          (evaluation_row c.hashing evaluation)
          (receipt_row c.hashing receipt)
          w.0
        ≡ (ok u, crashed)
      → reconcile F c run_id (crashed, w.1)
        ≡ (on_first (recorded c.hashing run_id s candidate evaluation receipt) >>= λ t.
              pure {A = Status × String} (t.status, "evaluation_replayed"))
            w
  unfolding recorded recover_attempt Candidate.identity
  reconcile-finishes_mutate run_id spec s candidate evaluation receipt w u crashed on l st n m rec =
      let h : Hashing = c.hashing in
      let (a, receipts) =
        record_mutation_attempt-Attempted run_id (candidate_row h candidate)
          (evaluation_row h evaluation) (receipt_row h receipt) w.0 u crashed rec in
      let current =
        pending run_id (Evaluation.to_dict evaluation) (MutationReceipt.to_dict receipt) w.0 crashed
          a.evaluations receipts (a.log run_id) n m in
      let left =
        reconcile-enabled run_id (crashed, w.1) spec s on
          (reloaded run_id w.0 crashed w.1 (a.run run_id) ∙ l) in
      let recovered = recover-running h run_id s crashed st current in
      let replayed =
        replay-conclude h run_id s (lineage run_id w.0).0 (lineage run_id w.0).1
          (Candidate.to_dict candidate) (Evaluation.to_dict evaluation) (lineage run_id crashed)
          crashed st a.candidates a.evaluations in
      rw (left, recovered, replayed, to_dict-is_eligible evaluation, rec)
        (first-continue
          (conclude h run_id s (Candidate.identity h candidate) evaluation.eligible crashed) w.1)
