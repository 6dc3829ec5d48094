-- ===== src/Plugin.antt =====
-- __init__.py: the controllers of one plugin, which share a ledger, and the commands that they are
-- given.
pub mod Refines
pub mod Config
pub mod Bounds
use hermes_agentic_variation.Base.{ℕ, String, Bool, List, [], ◌∷◌, Option}
use hermes_agentic_variation.Base.Result.{disabled_error, ok}
use hermes_agentic_variation.Base.Value.{Value}
use hermes_agentic_variation.Child.{Request, Lifecycle}
use hermes_agentic_variation.Contracts.Identity.{Hashing}
use hermes_agentic_variation.Controller.Steps
use hermes_agentic_variation.Controller.Steps.{Phase1Controller, phase1_context, cancel_run}
use hermes_agentic_variation.Phase2.Methods
use hermes_agentic_variation.Phase2.Supervise.{supervise}
use hermes_agentic_variation.Effect.{Effect, pure, on_first, ◌>>◌}
use hermes_agentic_variation.Phase3.Methods as Executable
use hermes_agentic_variation.Phase3.Methods.{Phase3Controller, World}
use hermes_agentic_variation.Phase3.Mutate
use hermes_agentic_variation.Workspace.Files.{FileSystem}
use hermes_agentic_variation.Workspace.Methods.{Workspace}

-- What `register` reads of the configuration for a phase, with the service that runs its children.
pub record Settings : Type 0 where
  pub enabled : Bool
  pub wait_seconds : ℕ
  pub lifecycle : Lifecycle

-- `Phase1Controller(...)`, which is also what `Phase2Controller(...)` is made of
abbrev pub phase1_controller :
    Hashing → (String → Option Value) → (Value → String) → Settings → Phase1Controller
phase1_controller hashing loads dumps s = record {
  hashing = hashing;
  loads = loads;
  dumps = dumps;
  lifecycle = s.lifecycle;
  enabled = s.enabled;
  wait_seconds = s.wait_seconds;
  disabled = disabled_error "Phase 1 execution is disabled";
  variation_context = λ run_id db. ok phase1_context;
}

-- What `Phase3Controller` also reads and writes: the workspace, on a disk that others may change
-- while a child runs.
module _ (F : FileSystem) where
  pub record Plugin : Type 0 where
    pub hashing : Hashing
    pub loads : String → Option Value
    pub dumps : Value → String
    pub phase1 : Settings
    pub phase2 : Settings
    pub phase3 : Settings
    pub workspace : Workspace F
    pub others : Request → F.Disk → F.Disk

  module _ (p : Plugin) where
    -- The instances of `controller_factory` and `phase2_controller_factory`
    unfoldable pub controller_of : Settings → Phase1Controller
    controller_of s = phase1_controller p.hashing p.loads p.dumps s

    -- The instance of `phase3_controller_factory`
    unfoldable pub phase3_controller : Phase3Controller F
    phase3_controller = record {
      hashing = p.hashing;
      loads = p.loads;
      dumps = p.dumps;
      lifecycle = p.phase3.lifecycle;
      others = p.others;
      workspace = p.workspace;
      enabled = p.phase3.enabled;
      wait_seconds = p.phase3.wait_seconds;
    }

-- The commands of the controllers that change the ledger. The id of a new run is drawn at random.
pub data Command : Type 0 where
  create : String → Value → Value → Command
  step cancel : String → Command
  create_phase2 : String → Value → Value → Command
  step_phase2 cancel_phase2 reconcile supervise_run : String → Command
  create_phase3 : String → Value → Value → Command
  mutate_phase3 cancel_phase3 reconcile_phase3 : String → Command

module _ (F : FileSystem) (p : Plugin F) where
  -- The command, its answer dropped.
  unfoldable pub perform : Command → Effect (World F) (Unit {0})
  unfolding controller_of phase3_controller
  perform (create run_id objective receipt) =
      on_first (Steps.create (controller_of F p p.phase1) run_id objective receipt) >> pure tt
  perform (step run_id) = on_first (Steps.step (controller_of F p p.phase1) run_id) >> pure tt
  perform (cancel run_id) = on_first (cancel_run (controller_of F p p.phase1) run_id) >> pure tt
  perform (create_phase2 run_id objective receipt) =
      on_first (Methods.create (controller_of F p p.phase2) run_id objective receipt) >> pure tt
  perform (step_phase2 run_id) =
      on_first (Methods.step (controller_of F p p.phase2) run_id) >> pure tt
  perform (cancel_phase2 run_id) =
      on_first (Methods.cancel (controller_of F p p.phase2) run_id) >> pure tt
  perform (reconcile run_id) =
      on_first (Methods.reconcile (controller_of F p p.phase2) run_id) >> pure tt
  perform (supervise_run run_id) =
      on_first (supervise (controller_of F p p.phase2) run_id) >> pure tt
  perform (create_phase3 token objective receipt) =
      Executable.create F (phase3_controller F p) token objective receipt >> pure tt
  perform (mutate_phase3 run_id) = Mutate.mutate F (phase3_controller F p) run_id >> pure tt
  perform (cancel_phase3 run_id) = Executable.cancel_run F (phase3_controller F p) run_id >> pure tt
  perform (reconcile_phase3 run_id) =
      Executable.reconcile F (phase3_controller F p) run_id >> pure tt

  -- The ledger and the disk after a sequence of commands, refused and failed ones included.
  unfoldable pub perform_all : List Command → World F → World F
  unfolding perform
  perform_all [] w = w
  perform_all (c ∷ cs) w = perform_all cs (perform c w).1
