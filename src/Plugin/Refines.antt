-- ===== src/Plugin/Refines.antt =====
-- The commands of the plugin against the calls of the store.
use hermes_agentic_variation.Base.{List, [], ◌∷◌, ◌≡◌}
use hermes_agentic_variation.Controller.Steps
use hermes_agentic_variation.Controller.Steps.{cancel_run}
use hermes_agentic_variation.Controller.Through.{step-Through, cancel_run-Through, create-Through}
use hermes_agentic_variation.Phase2.Methods
use hermes_agentic_variation.Phase2.Supervise.{supervise}
use hermes_agentic_variation.Phase2.Through.{
  supervise-Through, reconcile-Through, step2-Through, cancel2-Through, create2-Through,
}
use hermes_agentic_variation.Plugin.{
  Plugin, controller_of, Command, create, step, cancel, create_phase2, step_phase2, cancel_phase2,
  reconcile, supervise_run, create_phase3, mutate_phase3, cancel_phase3, reconcile_phase3, perform,
  perform_all, phase3_controller,
}
use hermes_agentic_variation.Storage.Calls.{Call, execute_all}
use hermes_agentic_variation.Storage.Calls.Extends.{Extends}
use hermes_agentic_variation.Storage.Calls.Reached.{execute_all-Recorded}
use hermes_agentic_variation.Storage.Calls.Recorded.{Recorded}
use hermes_agentic_variation.Storage.Calls.Through.{
  Left, Left-refl, Left-trans, Through, Left-Extends,
}
use hermes_agentic_variation.Storage.Monad.{Action}
use hermes_agentic_variation.Effect.{Effect, pure, on_first, ◌>>◌}
use hermes_agentic_variation.Phase3.Kept.{Kept, bind-Kept, first-Kept}
use hermes_agentic_variation.Phase3.Methods as Executable
use hermes_agentic_variation.Phase3.Methods.{World}
use hermes_agentic_variation.Phase3.Mutate
use hermes_agentic_variation.Phase3.Stored.{
  create3-Kept, mutate-Kept, cancel3-Kept, reconcile3-Kept,
}
use hermes_agentic_variation.Workspace.Files.{FileSystem}
use hermes_agentic_variation.Storage.Tables.{initial}

module _ (F : FileSystem) (p : Plugin F) where
  stored :
      {A : Type 0} (m : Action A) → Through p.hashing m → Kept F p.hashing (on_first m >> pure tt)
  stored m t = first-Kept F p.hashing (λ _. pure tt) (λ _ w. Left-refl p.hashing w.0) m t

  dropped :
      {A : Type 0} (m : Effect (World F) A) → Kept F p.hashing m → Kept F p.hashing (m >> pure tt)
  dropped m k = bind-Kept F p.hashing m (λ _. pure tt) k (λ _ w. Left-refl p.hashing w.0)

  perform-Kept : (c : Command) → Kept F p.hashing (perform F p c)
  unfolding perform controller_of phase3_controller
  perform-Kept (create run_id objective receipt) =
      stored (Steps.create (controller_of F p p.phase1) run_id objective receipt)
        (create-Through (controller_of F p p.phase1) run_id objective receipt)
  perform-Kept (step run_id) =
      stored (Steps.step (controller_of F p p.phase1) run_id)
        (step-Through (controller_of F p p.phase1) run_id)
  perform-Kept (cancel run_id) =
      stored (cancel_run (controller_of F p p.phase1) run_id)
        (cancel_run-Through (controller_of F p p.phase1) run_id)
  perform-Kept (create_phase2 run_id objective receipt) =
      stored (Methods.create (controller_of F p p.phase2) run_id objective receipt)
        (create2-Through (controller_of F p p.phase2) run_id objective receipt)
  perform-Kept (step_phase2 run_id) =
      stored (Methods.step (controller_of F p p.phase2) run_id)
        (step2-Through (controller_of F p p.phase2) run_id)
  perform-Kept (cancel_phase2 run_id) =
      stored (Methods.cancel (controller_of F p p.phase2) run_id)
        (cancel2-Through (controller_of F p p.phase2) run_id)
  perform-Kept (reconcile run_id) =
      stored (Methods.reconcile (controller_of F p p.phase2) run_id)
        (reconcile-Through (controller_of F p p.phase2) run_id)
  perform-Kept (supervise_run run_id) =
      stored (supervise (controller_of F p p.phase2) run_id)
        (supervise-Through (controller_of F p p.phase2) run_id)
  perform-Kept (create_phase3 token objective receipt) =
      dropped (Executable.create F (phase3_controller F p) token objective receipt)
        (create3-Kept F (phase3_controller F p) token objective receipt)
  perform-Kept (mutate_phase3 run_id) =
      dropped (Mutate.mutate F (phase3_controller F p) run_id)
        (mutate-Kept F (phase3_controller F p) run_id)
  perform-Kept (cancel_phase3 run_id) =
      dropped (Executable.cancel_run F (phase3_controller F p) run_id)
        (cancel3-Kept F (phase3_controller F p) run_id)
  perform-Kept (reconcile_phase3 run_id) =
      dropped (Executable.reconcile F (phase3_controller F p) run_id)
        (reconcile3-Kept F (phase3_controller F p) run_id)

  perform_all-Left : (cs : List Command) (w : World F) → Left p.hashing w.0 (perform_all F p cs w).0
  unfolding perform_all
  perform_all-Left [] w = Left-refl p.hashing w.0
  perform_all-Left (c ∷ cs) w =
      Left-trans p.hashing w.0 (perform F p c w).1.0 (perform_all F p cs (perform F p c w).1).0
        (perform-Kept c w) (perform_all-Left cs (perform F p c w).1)

-- Whatever commands of the three phases a plugin is given, whatever its children answer, and whatever else is called on the store and done to the disk meanwhile: the ledger that the commands leave is one that a sequence of calls of the store leaves, failed ones included, so that it only grows from the ledger before, and from a new store on the last event of every run that loads carries the revision and the digest of the state that is stored for it.
pub perform_all-refines :
    (F : FileSystem) (p : Plugin F) (cs : List Command) (w : World F)
    → ((calls : List Call) × ((perform_all F p cs w).0 ≡ execute_all p.hashing calls w.0))
      × Extends w.0 (perform_all F p cs w).0
      × Recorded p.hashing (perform_all F p cs (initial, w.1)).0
perform_all-refines F p cs w =
    let (calls, same) = perform_all-Left F p cs (initial, w.1) in
    (
      perform_all-Left F p cs w,
      Left-Extends p.hashing w.0 (perform_all F p cs w).0 (perform_all-Left F p cs w),
      rw same (execute_all-Recorded p.hashing calls),
    )
