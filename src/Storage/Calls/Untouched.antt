-- ===== src/Storage/Calls/Untouched.antt =====
-- Statements and methods that leave the runs and their events as they are.
use hermes_agentic_variation.Base.{
  ℕ, ◌+◌, ◌==◌, String, Bool, true, false, not, [], ◌∷◌, ◌++◌, Option, none, some, any, ◌≡◌, refl,
  sym, ◌∙◌, str_eq, if◌then◌else◌,
}
use hermes_agentic_variation.Base.Result
use hermes_agentic_variation.Base.Result.{
  Result, ok, err, integrity_error, storage_conflict, >>=-eq-ok, ok-injective,
}
use hermes_agentic_variation.Contracts.Identity.{Hashing}
use hermes_agentic_variation.Contracts.Memory.{ContinuationMemory}
use hermes_agentic_variation.Storage.Evidence.{
  Artifact, Evaluated, row_of, evaluation_of, attempt_statements, mutation_attempt_statements,
  sandbox_attempt_statements,
}
use hermes_agentic_variation.Storage.Memories.{
  find_memory, revision_of, insert_memory, update_memory, write_memory, memory_row, save_statements,
  save_memory,
}
use hermes_agentic_variation.Storage.Monad.{Action, settle, transact, continue, written, run}
use hermes_agentic_variation.Storage.Tables.{
  Document, Evaluation, Memory, Database, has_run, insert_document, insert_candidate,
  insert_evaluation, insert_advice, insert_mutation_receipt, insert_sandbox_receipt,
}

pub record Untouched (db after : Database) : Type 0 where
  pub runs : after.runs ≡ db.runs
  pub run_events : after.run_events ≡ db.run_events

abbrev pub Leaves : {A : Type 0} → Action A → Type 0
Leaves m = (db : Database) → Untouched db (m db).1

Untouched-refl : (db : Database) → Untouched db db
Untouched-refl db = record { runs = refl; run_events = refl }

Untouched-trans : (a b c : Database) → Untouched a b → Untouched b c → Untouched a c
Untouched-trans a b c p q = record {
  runs = q.runs ∙ p.runs;
  run_events = q.run_events ∙ p.run_events;
}

module _ {A B : Type 0} where
  continue-Untouched :
      (before : Database) (x : Result A × Database) (f : A → Action B)
      → Untouched before x.1
      → ((a : A) → Leaves (f a))
      → Untouched before (continue x f).1
  continue-Untouched before (ok a, db) f p g = Untouched-trans before db (f a db).1 p (g a db)
  continue-Untouched before (err e, db) f p g = p

module _ {A : Type 0} where
  settle-Untouched :
      (db : Database) (x : Result A × Database) → Untouched db x.1 → Untouched db (settle db x).1
  settle-Untouched db (ok a, d) p = p
  settle-Untouched db (err e, d) p = Untouched-refl db

  pub transact-Leaves : (m : Action A) → Leaves m → Leaves (transact m)
  transact-Leaves m p db = settle-Untouched db (m db) (p db)

run-Leaves :
    (s : Database → Result Database)
    → ((db after : Database) → s db ≡ ok after → Untouched db after)
    → Leaves (run s)
run-Leaves s p db = ran (s db) (p db)
  where
    ran :
        (r : Result Database)
        → ((after : Database) → r ≡ ok after → Untouched db after)
        → Untouched db (written db r).1
    ran (ok after) q = q after refl
    ran (err e) q = Untouched-refl db

along : (db d after : Database) → d ≡ after → Untouched db d → Untouched db after
along db d after p u = rw (sym p) u

pub candidate-Leaves : (d : Document) → Leaves (run (insert_candidate d))
unfolding insert_candidate
candidate-Leaves d = run-Leaves (insert_candidate d) (λ db after e.
    let (rows, _, e1) = >>=-eq-ok (insert_document db.runs d db.candidates) _ e in
    along db (record db { candidates = rows }) after (ok-injective _ after e1)
      (record { runs = refl; run_events = refl }))

pub advice-Leaves : (d : Document) → Leaves (run (insert_advice d))
unfolding insert_advice
advice-Leaves d = run-Leaves (insert_advice d) (λ db after e.
    let (rows, _, e1) = >>=-eq-ok (insert_document db.runs d db.supervisor_advice) _ e in
    along db (record db { supervisor_advice = rows }) after (ok-injective _ after e1)
      (record { runs = refl; run_events = refl }))

pub mutation_receipt-Leaves : (d : Document) → Leaves (run (insert_mutation_receipt d))
unfolding insert_mutation_receipt
mutation_receipt-Leaves d = run-Leaves (insert_mutation_receipt d) (λ db after e.
    let (rows, _, e1) = >>=-eq-ok (insert_document db.runs d db.mutation_receipts) _ e in
    along db (record db { mutation_receipts = rows }) after (ok-injective _ after e1)
      (record { runs = refl; run_events = refl }))

pub sandbox_receipt-Leaves : (d : Document) → Leaves (run (insert_sandbox_receipt d))
unfolding insert_sandbox_receipt
sandbox_receipt-Leaves d = run-Leaves (insert_sandbox_receipt d) (λ db after e.
    let (rows, _, e1) = >>=-eq-ok (insert_document db.runs d db.sandbox_receipts) _ e in
    along db (record db { sandbox_receipts = rows }) after (ok-injective _ after e1)
      (record { runs = refl; run_events = refl }))

pub evaluation-Leaves : (r : Evaluation) → Leaves (run (insert_evaluation r))
unfolding insert_evaluation
evaluation-Leaves r = run-Leaves (insert_evaluation r) (λ db after e.
    let (_, _, e1) =
      >>=-eq-ok
        (Result.require (not (any (λ x. str_eq x.key r.key) db.evaluations)) integrity_error) _ e in
    let (_, _, e2) = >>=-eq-ok (Result.require (has_run r.run_id db.runs) integrity_error) _ e1 in
    let (_, _, e3) =
      >>=-eq-ok
        (Result.require (any (λ c. str_eq c.key r.candidate_hash) db.candidates) integrity_error) _
        e2 in
    along db (record db { evaluations = db.evaluations ++ r ∷ [] }) after (ok-injective _ after e3)
      (record { runs = refl; run_events = refl }))

pub attempt-Leaves :
    (id : String) (c : Artifact) (e : Evaluated) → Leaves (attempt_statements id c e)
unfolding attempt_statements
attempt-Leaves id c e db =
    continue-Untouched db (run (insert_candidate (row_of id c)) db) _
      (candidate-Leaves (row_of id c) db) (λ _. evaluation-Leaves (evaluation_of id c.identity e))

pub mutation_attempt-Leaves :
    (id : String) (c : Artifact) (e : Evaluated) (r : Artifact)
    → Leaves (mutation_attempt_statements id c e r)
unfolding mutation_attempt_statements
mutation_attempt-Leaves id c e r db =
    continue-Untouched db (attempt_statements id c e db) _ (attempt-Leaves id c e db)
      (λ _. mutation_receipt-Leaves (row_of id r))

pub sandbox_attempt-Leaves :
    (id : String) (c : Artifact) (e : Evaluated) (r : Artifact)
    → Leaves (sandbox_attempt_statements id c e r)
unfolding sandbox_attempt_statements
sandbox_attempt-Leaves id c e r db =
    continue-Untouched db (attempt_statements id c e db) _ (attempt-Leaves id c e db)
      (λ _. sandbox_receipt-Leaves (row_of id r))

insert_memory-Leaves : (row : Memory) → Leaves (run (insert_memory row))
unfolding insert_memory
insert_memory-Leaves row = run-Leaves (insert_memory row) (λ db after e.
    inserted db after (any (λ m. str_eq m.run_id row.run_id) db.continuation_memory)
      (has_run row.run_id db.runs) e)
  where
    inserted :
        (db after : Database) (taken known : Bool)
        → (if taken
            then err integrity_error
            else if known
            then ok (record db { continuation_memory = db.continuation_memory ++ row ∷ [] })
            else err integrity_error)
          ≡ ok after
        → Untouched db after
    inserted db after true known e = cc
    inserted db after false true e =
        along db _ after (ok-injective _ after e) (record { runs = refl; run_events = refl })
    inserted db after false false e = cc

write_memory-Leaves : (o : Option Memory) (n : ℕ) (row : Memory) → Leaves (write_memory o n row)
unfolding write_memory update_memory
write_memory-Leaves none n row db = insert_memory-Leaves row db
write_memory-Leaves (some m) n row db = record { runs = refl; run_events = refl }

pub save_memory-Leaves :
    (h : Hashing) (id : String) (m : ContinuationMemory) (n : ℕ) → Leaves (save_memory h id m n)
unfolding save_memory save_statements
save_memory-Leaves h id m n = transact-Leaves (save_statements h id m n) (λ db.
    let o = find_memory id db.continuation_memory in
    continue-Untouched db
      (Result.require (revision_of o == n) (storage_conflict "memory revision mismatch"), db) _
      (Untouched-refl db)
      (λ _ d.
        continue-Untouched d
          (
            Result.require (m.memory_revision == revision_of o + 1)
                (storage_conflict "memory revision must increase by one"),
            d,
          )
          _ (Untouched-refl d) (λ _. write_memory-Leaves o n (memory_row h id m))))
