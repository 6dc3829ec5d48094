-- ===== src/Storage/Calls/Through.antt =====
-- Code that reaches the store only through its methods.
use hermes_agentic_variation.Base.{ℕ, String, List, [], ◌∷◌, ◌++◌, Option, ◌≡◌, refl, sym}
use hermes_agentic_variation.Base.Result.{Result, ok, err}
use hermes_agentic_variation.Base.Value.{Value}
use hermes_agentic_variation.Contracts.Identity.{Hashing}
use hermes_agentic_variation.Contracts.Memory.{ContinuationMemory}
use hermes_agentic_variation.Contracts.RunSpec.{RunSpec}
use hermes_agentic_variation.StateMachine.{Event}
use hermes_agentic_variation.Storage.Calls.{
  Call, create, transit, observe, attempt, mutation_attempt, sandbox_attempt, save, advise, execute,
  execute_all,
}
use hermes_agentic_variation.Storage.Calls.Extends.{Extends, Extends-refl, Extends-trans}
use hermes_agentic_variation.Storage.Calls.Methods.{execute-Extends}
use hermes_agentic_variation.Storage.Evidence.{
  Artifact, Evaluated, record_attempt, record_mutation_attempt, record_sandbox_attempt,
  record_supervisor_advice,
}
use hermes_agentic_variation.Storage.Memories.{save_memory}
use hermes_agentic_variation.Storage.Monad.{Action, continue, pure, lift, ◌>>=◌}
use hermes_agentic_variation.Storage.Runs.{create_run, transition, record_observation}
use hermes_agentic_variation.Storage.Tables.{Database}

-- Whatever it answers, it leaves the database that these calls of the store leave.
abbrev pub Left : Hashing → Database → Database → Type 0
Left h db after = (cs : List Call) × (after ≡ execute_all h cs db)

abbrev pub Through : {A : Type 0} → Hashing → Action A → Type 0
Through h m = (db : Database) → Left h db (m db).1

execute_all-append :
    (h : Hashing) (cs ds : List Call) (db : Database)
    → execute_all h (cs ++ ds) db ≡ execute_all h ds (execute_all h cs db)
unfolding execute_all
execute_all-append h [] ds db = refl
execute_all-append h (c ∷ cs) ds db = execute_all-append h cs ds (execute h c db).1

pub Left-trans : (h : Hashing) (a b c : Database) → Left h a b → Left h b c → Left h a c
Left-trans h a b c (cs, p) (ds, q) = (cs ++ ds, along b p q)
  where
    along :
        (x : Database)
        → x ≡ execute_all h cs a
        → c ≡ execute_all h ds x
        → c ≡ execute_all h (cs ++ ds) a
    along x p q = rw (execute_all-append h cs ds a, sym p) q

pub Left-refl : (h : Hashing) (db : Database) → Left h db db
unfolding execute_all
Left-refl h db = ([], refl)

module _ {A B : Type 0} (h : Hashing) where
  continue-Left :
      (db : Database) (x : Result A × Database) (f : A → Action B)
      → Left h db x.1
      → ((a : A) → Through h (f a))
      → Left h db (continue x f).1
  continue-Left db (ok a, d) f p q = Left-trans h db d (f a d).1 p (q a d)
  continue-Left db (err e, d) f p q = p

  pub bind-Through :
      (m : Action A) (f : A → Action B)
      → Through h m
      → ((a : A) → Through h (f a))
      → Through h (m >>= f)
  bind-Through m f p q db = continue-Left db (m db) f (p db) q

  pub lift-Through :
      (r : Result A) (f : A → Action B) → ((a : A) → Through h (f a)) → Through h (lift r >>= f)
  lift-Through r f q db = continue-Left db (r, db) f (Left-refl h db) q

pub pure-Through : {A : Type 0} (h : Hashing) (a : A) → Through h (pure a)
pure-Through h a db = Left-refl h db

-- A call of the store.
dropped : {A : Type 0} (x : Result A × Database) → (continue x (λ _. pure tt)).1 ≡ x.1
dropped (ok a, d) = refl
dropped (err e, d) = refl

module _ (h : Hashing) where
  called : (c : Call) (db after : Database) → after ≡ (execute h c db).1 → Left h db after
  unfolding execute_all
  called c db after e = (c ∷ [], e)

  pub create_run-Through : (spec : RunSpec) → Through h (create_run h spec)
  unfolding execute
  create_run-Through spec db =
      called (create spec) db (create_run h spec db).1 (sym (dropped (create_run h spec db)))

  pub transition-Through :
      (run_id : String) (event : Event) (n : ℕ) (hash : Option String) (cost : Value)
      → Through h (transition h run_id event n hash cost)
  unfolding execute
  transition-Through run_id event n hash cost db =
      called (transit run_id event n hash cost) db (transition h run_id event n hash cost db).1
        (sym (dropped (transition h run_id event n hash cost db)))

  pub observation-Through :
      (run_id event : String) (payload : Value)
      → Through h (record_observation h run_id event payload)
  unfolding execute
  observation-Through run_id event payload db =
      called (observe run_id event payload) db (record_observation h run_id event payload db).1 refl

  pub attempt-Through :
      (run_id : String) (c : Artifact) (e : Evaluated) → Through h (record_attempt run_id c e)
  unfolding execute
  attempt-Through run_id c e db =
      called (attempt run_id c e) db (record_attempt run_id c e db).1 refl

  pub mutation_attempt-Through :
      (run_id : String) (c : Artifact) (e : Evaluated) (r : Artifact)
      → Through h (record_mutation_attempt run_id c e r)
  unfolding execute
  mutation_attempt-Through run_id c e r db =
      called (mutation_attempt run_id c e r) db (record_mutation_attempt run_id c e r db).1 refl

  pub sandbox_attempt-Through :
      (run_id : String) (c : Artifact) (e : Evaluated) (r : Artifact)
      → Through h (record_sandbox_attempt run_id c e r)
  unfolding execute
  sandbox_attempt-Through run_id c e r db =
      called (sandbox_attempt run_id c e r) db (record_sandbox_attempt run_id c e r db).1 refl

  pub save_memory-Through :
      (run_id : String) (m : ContinuationMemory) (n : ℕ) → Through h (save_memory h run_id m n)
  unfolding execute
  save_memory-Through run_id m n db =
      called (save run_id m n) db (save_memory h run_id m n db).1 refl

  pub advice-Through :
      (run_id : String) (a : Artifact) → Through h (record_supervisor_advice run_id a)
  unfolding execute
  advice-Through run_id a db =
      called (advise run_id a) db (record_supervisor_advice run_id a db).1 refl

-- What every call of the store keeps, such code keeps.
pub Left-Extends : (h : Hashing) (db after : Database) → Left h db after → Extends db after
unfolding execute_all
Left-Extends h db after (cs, e) = rw e (from cs db)
  where
    from : (cs : List Call) (d : Database) → Extends d (execute_all h cs d)
    from [] d = Extends-refl d
    from (c ∷ cs) d =
        Extends-trans d (execute h c d).1 (execute_all h cs (execute h c d).1)
          (execute-Extends h c d) (from cs (execute h c d).1)
