-- ===== src/Storage/Calls.antt =====
-- Every method of `RunStore` that writes, as one call.
pub mod Extends
pub mod Grows
pub mod Methods
pub mod Atomic
pub mod Untouched
pub mod Recorded
pub mod Reached
pub mod Through
use hermes_agentic_variation.Base.{ℕ, String, List, [], ◌∷◌, Option}
use hermes_agentic_variation.Base.Result.{Error, Result, ok, err}
use hermes_agentic_variation.Base.Value.{Value}
use hermes_agentic_variation.Contracts.Identity.{Hashing}
use hermes_agentic_variation.Contracts.Memory.{ContinuationMemory}
use hermes_agentic_variation.Contracts.RunSpec.{RunSpec}
use hermes_agentic_variation.StateMachine.{Event}
use hermes_agentic_variation.Storage.Evidence.{
  Artifact, Evaluated, record_candidate, record_evaluation, record_attempt, record_mutation_attempt,
  record_sandbox_attempt, record_supervisor_advice, record_mutation_receipt, record_sandbox_receipt,
}
use hermes_agentic_variation.Storage.Memories.{save_memory}
use hermes_agentic_variation.Storage.Monad.{Action, pure, ◌>>◌}
use hermes_agentic_variation.Storage.Runs.{create_run, transition, record_observation}
use hermes_agentic_variation.Storage.Tables.{Database}

pub data Call : Type 0 where
  create : RunSpec → Call
  transit : String → Event → ℕ → Option String → Value → Call
  observe : String → String → Value → Call
  candidate : String → Artifact → Call
  evaluation : String → Evaluated → Call
  attempt : String → Artifact → Evaluated → Call
  mutation_attempt : String → Artifact → Evaluated → Artifact → Call
  sandbox_attempt : String → Artifact → Evaluated → Artifact → Call
  save : String → ContinuationMemory → ℕ → Call
  advise : String → Artifact → Call
  mutation_receipt : String → Artifact → Call
  sandbox_receipt : String → Artifact → Call

-- The call, its result dropped.
unfoldable pub execute : Hashing → Call → Action (Unit {0})
unfolding create_run transition record_observation record_candidate record_evaluation record_attempt
    record_mutation_attempt record_sandbox_attempt save_memory record_supervisor_advice
    record_mutation_receipt record_sandbox_receipt
execute h (create spec) = create_run h spec >> pure tt
execute h (transit run_id event expected hash cost) =
    transition h run_id event expected hash cost >> pure tt
execute h (observe run_id event payload) = record_observation h run_id event payload
execute h (candidate run_id c) = record_candidate run_id c
execute h (evaluation run_id e) = record_evaluation run_id e
execute h (attempt run_id c e) = record_attempt run_id c e
execute h (mutation_attempt run_id c e r) = record_mutation_attempt run_id c e r
execute h (sandbox_attempt run_id c e r) = record_sandbox_attempt run_id c e r
execute h (save run_id m expected) = save_memory h run_id m expected
execute h (advise run_id a) = record_supervisor_advice run_id a
execute h (mutation_receipt run_id r) = record_mutation_receipt run_id r
execute h (sandbox_receipt run_id r) = record_sandbox_receipt run_id r

-- The database after a sequence of calls, failed ones included.
unfoldable pub execute_all : Hashing → List Call → Database → Database
unfolding execute
execute_all h [] db = db
execute_all h (c ∷ cs) db = execute_all h cs (execute h c db).1
