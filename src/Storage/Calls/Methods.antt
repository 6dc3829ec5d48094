-- ===== src/Storage/Calls/Methods.antt =====
-- Every call of the store only adds to the ledger.
use hermes_agentic_variation.Base.{
  ℕ, ◌==◌, ◌+◌, String, Bool, true, false, if◌then◌else◌, [], ◌∷◌, ◌++◌, Option, some, none, any,
  ◌≡◌, sym, str_eq,
}
use hermes_agentic_variation.Base.Result
use hermes_agentic_variation.Base.Result.{
  Error, storage_conflict, integrity_error, Result, ok, err, >>=-eq-ok, ok-injective,
}
use hermes_agentic_variation.Base.Value.{Value}
use hermes_agentic_variation.Contracts.Identity.{Hashing}
use hermes_agentic_variation.Contracts.Memory.{ContinuationMemory}
use hermes_agentic_variation.Contracts.RunSpec.{RunSpec}
use hermes_agentic_variation.Contracts.RunSpec.Stored.{identity, spec_from_json}
use hermes_agentic_variation.StateMachine
use hermes_agentic_variation.StateMachine.{Event, RunState, apply_transition}
use hermes_agentic_variation.Storage.Calls.Grows.{
  Grows, bind-Grows, lift-Grows, transact-Grows, duplicate-Grows, insert_run-Grows,
  append_event-Grows, insert_candidate-Grows, insert_advice-Grows, insert_mutation_receipt-Grows,
  insert_sandbox_receipt-Grows, insert_evaluation-Grows, update_state-Grows, run-Grows,
}
use hermes_agentic_variation.Storage.Calls.{
  Call, create, transit, observe, candidate, evaluation, attempt, mutation_attempt, sandbox_attempt,
  save, advise, mutation_receipt, sandbox_receipt, execute,
}
use hermes_agentic_variation.Storage.Calls.Extends.{
  Extends, Extends-refl, Extends-trans, with_memory,
}
use hermes_agentic_variation.Storage.Evidence.{
  Artifact, Evaluated, row_of, evaluation_of, record_candidate, record_evaluation,
  attempt_statements, record_attempt, mutation_attempt_statements, record_mutation_attempt,
  sandbox_attempt_statements, record_sandbox_attempt, record_supervisor_advice,
  record_mutation_receipt, record_sandbox_receipt,
}
use hermes_agentic_variation.Storage.Memories.{
  find_memory, revision_of, insert_memory, replace_memory, memory_row, update_memory, write_memory,
  save_statements, save_memory,
}
use hermes_agentic_variation.Storage.Monad.{run, transact}
use hermes_agentic_variation.Storage.Runs.{
  append_event, new_row, created_payload, transition_payload, create_statements, create_run,
  row_count, update_state, transition_statements, transition, observation_statements,
  record_observation,
}
use hermes_agentic_variation.Storage.Reads.{event_text, found, writable}
use hermes_agentic_variation.Storage.State.{state_json, state_from_json}
use hermes_agentic_variation.Storage.Tables.{
  Memory, Database, find_run, has_run, insert_run, insert_candidate, insert_evaluation,
  insert_advice, insert_mutation_receipt, insert_sandbox_receipt,
}

create_run-Grows : (h : Hashing) (spec : RunSpec) → Grows (create_run h spec)
unfolding create_run create_statements
create_run-Grows h spec db = lift-Grows db (StateMachine.new (identity h spec)) _ (λ s.
    duplicate-Grows (transact (create_statements h spec s)) (
      transact-Grows (create_statements h spec s) (
        bind-Grows (run (insert_run (new_row h spec s))) _ (insert_run-Grows (new_row h spec s))
          (λ _.
            bind-Grows (append_event h spec.run_id "run_created" s (created_payload h spec)) _
              (append_event-Grows h spec.run_id "run_created" s (created_payload h spec))
              (λ _ d. Extends-refl d)))))

transition-Grows :
    (h : Hashing) (id : String) (event : Event) (n : ℕ) (hash : Option String) (cost : Value)
    → Grows (transition h id event n hash cost)
unfolding transition transition_statements
transition-Grows h id event n hash cost =
    transact-Grows (transition_statements h id event n hash cost) (λ db.
      lift-Grows db (found (find_run id db.runs)) _ (λ row d1.
        lift-Grows d1 (spec_from_json row.spec_json) _ (λ spec d2.
          lift-Grows d2 (state_from_json row.state_json) _ (λ s d3.
            lift-Grows d3 (Result.require (s.revision == n) (storage_conflict "revision mismatch"))
              _
              (λ _ d4. lift-Grows d4 (apply_transition h s event spec hash cost) _ (λ t d5.
                lift-Grows d5 (state_json t) _ (λ w d5.
                  let d6 : Database = (update_state id row.state_json w d5).1 in
                  Extends-trans d5 d6 _ (update_state-Grows id row.state_json w d5) (
                    lift-Grows d6
                      (Result.require (row_count id row.state_json d5.runs == 1)
                        (storage_conflict "run changed during transition"))
                      _
                      (λ _.
                        bind-Grows
                          (append_event h id (event_text event) t (transition_payload hash cost)) _
                          (append_event-Grows h id (event_text event) t
                            (transition_payload hash cost))
                          (λ _ d. Extends-refl d))))))))))

record_observation-Grows :
    (h : Hashing) (id event : String) (payload : Value)
    → Grows (record_observation h id event payload)
unfolding record_observation observation_statements
record_observation-Grows h id event payload =
    transact-Grows (observation_statements h id event payload) (λ db.
      lift-Grows db (found (find_run id db.runs)) _ (λ row d1.
        lift-Grows d1 (state_from_json row.state_json) _ (λ s d2.
          lift-Grows d2 (state_json s) _ (λ _ d3.
            lift-Grows d3 (writable payload) _ (λ _. append_event-Grows h id event s payload)))))

attempt-Grows : (id : String) (c : Artifact) (e : Evaluated) → Grows (attempt_statements id c e)
unfolding attempt_statements
attempt-Grows id c e =
    bind-Grows (run (insert_candidate (row_of id c))) _ (insert_candidate-Grows (row_of id c))
      (λ _. insert_evaluation-Grows (evaluation_of id c.identity e))

mutation_attempt-Grows :
    (id : String) (c : Artifact) (e : Evaluated) (r : Artifact)
    → Grows (mutation_attempt_statements id c e r)
unfolding mutation_attempt_statements
mutation_attempt-Grows id c e r =
    bind-Grows (attempt_statements id c e) _ (attempt-Grows id c e)
      (λ _. insert_mutation_receipt-Grows (row_of id r))

sandbox_attempt-Grows :
    (id : String) (c : Artifact) (e : Evaluated) (r : Artifact)
    → Grows (sandbox_attempt_statements id c e r)
unfolding sandbox_attempt_statements
sandbox_attempt-Grows id c e r =
    bind-Grows (attempt_statements id c e) _ (attempt-Grows id c e)
      (λ _. insert_sandbox_receipt-Grows (row_of id r))

insert_memory-Grows : (row : Memory) → Grows (run (insert_memory row))
unfolding insert_memory
insert_memory-Grows row = run-Grows (insert_memory row) (λ db after e.
    inserted row db after (any (λ m. str_eq m.run_id row.run_id) db.continuation_memory)
      (has_run row.run_id db.runs) e)
  where
    inserted :
        (row : Memory) (db after : Database) (taken known : Bool)
        → (if taken
            then err integrity_error
            else if known
            then ok (record db { continuation_memory = db.continuation_memory ++ row ∷ [] })
            else err integrity_error)
          ≡ ok after
        → Extends db after
    inserted row db after true known e = cc
    inserted row db after false true e =
        rw (sym (ok-injective _ after e)) (with_memory db (db.continuation_memory ++ row ∷ []))
    inserted row db after false false e = cc

write_memory-Grows : (o : Option Memory) (n : ℕ) (row : Memory) → Grows (write_memory o n row)
unfolding write_memory update_memory
write_memory-Grows none n row db = insert_memory-Grows row db
write_memory-Grows (some m) n row db = with_memory db (replace_memory n row db.continuation_memory)

save_memory-Grows :
    (h : Hashing) (id : String) (m : ContinuationMemory) (n : ℕ) → Grows (save_memory h id m n)
unfolding save_memory save_statements
save_memory-Grows h id m n = transact-Grows (save_statements h id m n) (λ db.
    let o = find_memory id db.continuation_memory in
    lift-Grows db
      (Result.require (revision_of o == n) (storage_conflict "memory revision mismatch")) _
      (λ _ d.
        lift-Grows d
          (Result.require (m.memory_revision == revision_of o + 1)
            (storage_conflict "memory revision must increase by one"))
          _ (λ _. write_memory-Grows o n (memory_row h id m))))

-- Whatever a call of the store does, and whether it succeeds or fails, the ledger only grows: the
-- rows of the events, candidates, evaluations, advice and receipts stay as they are, in their
-- order, and new ones come after them; no run is removed, and no run's RunSpec or digest changes.
pub execute-Extends : (h : Hashing) (c : Call) (db : Database) → Extends db (execute h c db).1
unfolding execute record_attempt record_mutation_attempt record_sandbox_attempt record_candidate
    record_evaluation record_supervisor_advice record_mutation_receipt record_sandbox_receipt
execute-Extends h (create spec) =
    bind-Grows (create_run h spec) _ (create_run-Grows h spec) (λ _ d. Extends-refl d)
execute-Extends h (transit id event n hash cost) =
    bind-Grows (transition h id event n hash cost) _ (transition-Grows h id event n hash cost)
      (λ _ d. Extends-refl d)
execute-Extends h (observe id event payload) = record_observation-Grows h id event payload
execute-Extends h (candidate id c) =
    transact-Grows (run (insert_candidate (row_of id c))) (insert_candidate-Grows (row_of id c))
execute-Extends h (evaluation id e) =
    transact-Grows (run (insert_evaluation (evaluation_of id e.candidate_hash e)))
      (insert_evaluation-Grows (evaluation_of id e.candidate_hash e))
execute-Extends h (attempt id c e) =
    transact-Grows (attempt_statements id c e) (attempt-Grows id c e)
execute-Extends h (mutation_attempt id c e r) =
    transact-Grows (mutation_attempt_statements id c e r) (mutation_attempt-Grows id c e r)
execute-Extends h (sandbox_attempt id c e r) =
    transact-Grows (sandbox_attempt_statements id c e r) (sandbox_attempt-Grows id c e r)
execute-Extends h (save id m n) = save_memory-Grows h id m n
execute-Extends h (advise id a) =
    transact-Grows (run (insert_advice (row_of id a))) (insert_advice-Grows (row_of id a))
execute-Extends h (mutation_receipt id r) =
    transact-Grows (run (insert_mutation_receipt (row_of id r)))
      (insert_mutation_receipt-Grows (row_of id r))
execute-Extends h (sandbox_receipt id r) =
    transact-Grows (run (insert_sandbox_receipt (row_of id r)))
      (insert_sandbox_receipt-Grows (row_of id r))
