-- ===== src/Storage/Calls/Atomic.antt =====
-- A call of the store that fails changes nothing.
use hermes_agentic_variation.Base.{◌≡◌, refl}
use hermes_agentic_variation.Base.Result.{Error, integrity_error, Result, ok, err}
use hermes_agentic_variation.Contracts.Identity.{Hashing}
use hermes_agentic_variation.Contracts.RunSpec.{RunSpec}
use hermes_agentic_variation.Contracts.RunSpec.Stored.{identity}
use hermes_agentic_variation.StateMachine
use hermes_agentic_variation.StateMachine.{RunState}
use hermes_agentic_variation.Storage.Calls.{
  Call, create, transit, observe, candidate, evaluation, attempt, mutation_attempt, sandbox_attempt,
  save, advise, mutation_receipt, sandbox_receipt, execute,
}
use hermes_agentic_variation.Storage.Evidence.{
  record_candidate, record_evaluation, record_attempt, record_mutation_attempt,
  record_sandbox_attempt, record_supervisor_advice, record_mutation_receipt, record_sandbox_receipt,
}
use hermes_agentic_variation.Storage.Memories.{save_memory}
use hermes_agentic_variation.Storage.Monad.{pure, settle, transact, continue}
use hermes_agentic_variation.Storage.Runs.{
  as_duplicate, duplicate, create_statements, create_run, transition, transition_statements,
  record_observation,
}
use hermes_agentic_variation.Storage.Tables.{Database}

abbrev Restores : {A : Type 0} → Database → Result A × Database → Type 0
Restores db (ok a, after) = Unit
Restores db (err e, after) = after ≡ db

module _ {A : Type 0} where
  settle-Restores : (db : Database) (x : Result A × Database) → Restores db (settle db x)
  settle-Restores db (ok a, after) = tt
  settle-Restores db (err e, after) = refl

  as_duplicate-Restores :
      (db : Database) (x : Result A × Database) → Restores db x → Restores db (as_duplicate x)
  as_duplicate-Restores db (ok a, after) p = tt
  as_duplicate-Restores db (err integrity_error, after) p = p
  as_duplicate-Restores db (err e, after) p = p

  dropped-Restores :
      (db : Database) (x : Result A × Database)
      → Restores db x
      → Restores db (continue x (λ _. pure tt))
  dropped-Restores db (ok a, after) p = tt
  dropped-Restores db (err e, after) p = p

create-Restores :
    (h : Hashing) (spec : RunSpec) (db : Database) → Restores db (create_run h spec db)
unfolding create_run
create-Restores h spec db = created (StateMachine.new (identity h spec))
  where
    created :
        (r : Result RunState)
        → Restores db (continue (r, db) (λ s. duplicate (transact (create_statements h spec s))))
    created (ok s) =
        as_duplicate-Restores db (transact (create_statements h spec s) db)
          (settle-Restores db (create_statements h spec s db))
    created (err e) = refl

execute-Restores : (h : Hashing) (c : Call) (db : Database) → Restores db (execute h c db)
unfolding execute transition record_observation record_attempt record_mutation_attempt
    record_sandbox_attempt record_candidate record_evaluation record_supervisor_advice
    record_mutation_receipt record_sandbox_receipt save_memory
execute-Restores h (create spec) db =
    dropped-Restores db (create_run h spec db) (create-Restores h spec db)
execute-Restores h (transit id event n hash cost) db =
    dropped-Restores db (transition h id event n hash cost db)
      (settle-Restores db (transition_statements h id event n hash cost db))
execute-Restores h (observe id event payload) db = settle-Restores db _
execute-Restores h (candidate id c) db = settle-Restores db _
execute-Restores h (evaluation id e) db = settle-Restores db _
execute-Restores h (attempt id c e) db = settle-Restores db _
execute-Restores h (mutation_attempt id c e r) db = settle-Restores db _
execute-Restores h (sandbox_attempt id c e r) db = settle-Restores db _
execute-Restores h (save id m n) db = settle-Restores db _
execute-Restores h (advise id a) db = settle-Restores db _
execute-Restores h (mutation_receipt id r) db = settle-Restores db _
execute-Restores h (sandbox_receipt id r) db = settle-Restores db _

-- A call of the store that raises leaves the database exactly as it was, also when some of its
-- statements had already written.
pub execute-atomic :
    (h : Hashing) (c : Call) (db : Database) (e : Error)
    → (execute h c db).0 ≡ err e
    → (execute h c db).1 ≡ db
execute-atomic h c db e p = restored (execute h c db) (execute-Restores h c db) p
  where
    restored : (x : Result (Unit {0}) × Database) → Restores db x → x.0 ≡ err e → x.1 ≡ db
    restored (ok u, after) r q = cc
    restored (err e, after) r q = r
