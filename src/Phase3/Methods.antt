-- ===== src/Phase3/Methods.antt =====
-- phase3.py: `Phase3Controller`, over the ledger and the disk.
use hermes_agentic_variation.Base.{
  ℕ, String, Bool, ◌&&◌, List, [], ◌∷◌, Option, none, str_eq, if◌then◌else◌,
}
use hermes_agentic_variation.Base.Result.{disabled_error, value_error, Result, ok, err}
use hermes_agentic_variation.Base.Value.{Value}
use hermes_agentic_variation.Child.{Request, Lifecycle}
use hermes_agentic_variation.Contracts.Identity.{Hashing}
use hermes_agentic_variation.Contracts.RunSpec
use hermes_agentic_variation.Contracts.RunSpec.{RunSpec, RunSpecArgs}
use hermes_agentic_variation.Effect.{
  Effect, pure, lift, gets, require, raise_if, on_first, on_second, ◌>>=◌, ◌>>◌,
}
use hermes_agentic_variation.Patch.Lines.{append, starts_with}
use hermes_agentic_variation.StateMachine.{Status, cancel, RunState, no_cost}
use hermes_agentic_variation.Storage.Evidence.{mutation_receipts}
use hermes_agentic_variation.Phase3.Data.{evaluator_id, is_short_text, spec_args}
use hermes_agentic_variation.Phase3.Ledger.{record_created, recover}
use hermes_agentic_variation.Storage.Reads.{load_run}
use hermes_agentic_variation.Storage.Runs.{transition}
use hermes_agentic_variation.Storage.Tables.{Database}
use hermes_agentic_variation.Verdict.{is_in_flight, last_item}
use hermes_agentic_variation.Workspace.Files.{FileSystem}
use hermes_agentic_variation.Workspace.Methods
use hermes_agentic_variation.Workspace.Methods.{Workspace, CommandResult}

-- What `create_run` answers.
pub record Created : Type 0 where
  pub state : RunState
  pub repository_path : String
  pub baseline_tree_hash : String

module _ (F : FileSystem) where
  -- The files may be changed by others while a child runs.
  pub record Phase3Controller : Type 0 where
    pub hashing : Hashing
    pub loads : String → Option Value
    pub dumps : Value → String
    pub lifecycle : Lifecycle
    pub others : Request → F.Disk → F.Disk
    pub workspace : Workspace F
    pub enabled : Bool
    pub wait_seconds : ℕ

  abbrev pub World : Type 0
  World = Database × F.Disk

  module _ (c : Phase3Controller) where
    unfoldable pub require_enabled : Effect World (Unit {0})
    require_enabled = require c.enabled (disabled_error "Phase 3 execution is disabled")

    -- `_load_phase3_run`
    unfoldable pub is_own_run : String → RunSpec → F.Disk → Bool
    is_own_run run_id spec d =
        let target = F.resolve (F.of_text spec.target_root) d in
        str_eq spec.evaluator_id evaluator_id
        && str_eq (F.name target) run_id
        && F.same (F.parent target) c.workspace.root

    unfoldable pub load_phase3_run : String → World → Result (RunSpec × RunState)
    unfolding starts_with load_run is_own_run
    load_phase3_run run_id (db, d) =
        if starts_with run_id "phase3-"
        then elim (load_run run_id db) [
          | err e ↦ err e
          | ok loaded ↦
              if is_own_run run_id loaded.0 d
              then ok loaded
              else err (value_error "run_id must identify a Phase 3 run")
        ]
        else err (value_error "run_id must identify a Phase 3 run")

    -- `create_run`: the hexadecimal token is drawn at random by `secrets.token_hex`.
    unfoldable pub create : String → Value → Value → Effect World Created
    unfolding require_enabled append spec_args record_created Methods.create Methods.tree_hash
    create token objective approval_receipt = do
      require_enabled
      require (is_short_text objective)
          (value_error "objective must be a non-empty string of at most 1000 characters")
      require (is_short_text approval_receipt)
          (value_error "approval_receipt must be a non-empty string of at most 1000 characters")
      let run_id = append "phase3-" token
      repo ← on_second (Methods.create F c.workspace run_id)
      tree_hash? ← gets (λ (w : World). Methods.tree_hash F c.workspace repo w.1)
      tree_hash ← lift tree_hash?
      let path = F.to_text repo
      spec ←
          lift (
            RunSpec.new (spec_args run_id path tree_hash objective approval_receipt c.wait_seconds))
      state ← on_first (record_created c.hashing run_id spec tree_hash)
      pure (record { state = state; repository_path = path; baseline_tree_hash = tree_hash })

    -- `receipt`: the stored document and the repository's path
    unfoldable pub last_receipt : List Value → Result Value
    unfolding last_item
    last_receipt [] = err (value_error "mutation receipt is not available")
    last_receipt (v ∷ vs) = last_item (v ∷ vs)

    unfoldable pub receipt : String → Effect World (Value × String)
    unfolding load_phase3_run mutation_receipts last_receipt
    receipt run_id = do
      loaded? ← gets (load_phase3_run run_id)
      loaded ← lift loaded?
      stored ← gets (λ (w : World). mutation_receipts run_id w.0)
      found ← lift (last_receipt stored)
      pure (found, loaded.0.target_root)

    -- `cancel`
    unfoldable pub cancel_run : String → Effect World Status
    unfolding require_enabled load_phase3_run transition
    cancel_run run_id = do
      require_enabled
      loaded? ← gets (load_phase3_run run_id)
      loaded ← lift loaded?
      raise_if (is_in_flight loaded.1.status)
          (value_error "in-flight Phase 3 cancellation is not claimed")
      after ← on_first (transition c.hashing run_id cancel loaded.1.revision none no_cost)
      pure after.status

    -- `reconcile`
    unfoldable pub reconcile : String → Effect World (Status × String)
    unfolding require_enabled load_phase3_run recover
    reconcile run_id = do
      require_enabled
      loaded? ← gets (load_phase3_run run_id)
      loaded ← lift loaded?
      on_first (recover c.hashing run_id loaded.1)
