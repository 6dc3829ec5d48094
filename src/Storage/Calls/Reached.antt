-- ===== src/Storage/Calls/Reached.antt =====
-- Every ledger that calls of the store reach.
use hermes_agentic_variation.Base.{
  String, Bool, true, false, not, List, [], ◌∷◌, ◌++◌, some, ◌≡◌, ◌≢◌, refl, sym, inl, inr, str_eq,
  eq_iff, Bool-cases, arith,
}
use hermes_agentic_variation.Base.Result
use hermes_agentic_variation.Base.Result.{
  Error, Result, ok, err, integrity_error, >>=-eq-ok, ok-injective, require-ok,
}
use hermes_agentic_variation.Contracts.Identity.{Hashing}
use hermes_agentic_variation.Contracts.RunSpec.{RunSpec}
use hermes_agentic_variation.Contracts.RunSpec.Stored.{identity}
use hermes_agentic_variation.StateMachine
use hermes_agentic_variation.StateMachine.{RunState}
use hermes_agentic_variation.Storage.Calls.{
  Call, create, transit, observe, candidate, evaluation, attempt, mutation_attempt, sandbox_attempt,
  save, advise, mutation_receipt, sandbox_receipt, execute, execute_all,
}
use hermes_agentic_variation.Storage.Calls.Atomic.{execute-atomic}
use hermes_agentic_variation.Storage.Calls.Recorded.{
  Recorded, kept, Untouched-Recorded, transition-Recorded, observation-Recorded, appended,
  appended-Recorded,
}
use hermes_agentic_variation.Storage.Calls.Untouched.{
  Untouched, Leaves, transact-Leaves, candidate-Leaves, evaluation-Leaves, attempt-Leaves,
  mutation_attempt-Leaves, sandbox_attempt-Leaves, save_memory-Leaves, advice-Leaves,
  mutation_receipt-Leaves, sandbox_receipt-Leaves,
}
use hermes_agentic_variation.Storage.Evidence.{
  row_of, evaluation_of, attempt_statements, mutation_attempt_statements,
  sandbox_attempt_statements, record_candidate, record_evaluation, record_attempt,
  record_mutation_attempt, record_sandbox_attempt, record_supervisor_advice,
  record_mutation_receipt, record_sandbox_receipt,
}
use hermes_agentic_variation.Storage.Memories.{save_memory}
use hermes_agentic_variation.Storage.Monad.{
  Action, continue-ok, lift-ok, transact-ok, run-ok, pure-ok, run, transact,
}
use hermes_agentic_variation.Storage.Reads.{load_run, events}
use hermes_agentic_variation.Storage.Rows.{other-eq}
use hermes_agentic_variation.Storage.Runs.{
  create_run, create_statements, new_row, created_payload, append_event, as_duplicate, transition,
}
use hermes_agentic_variation.Storage.State.{state_round_trip}
use hermes_agentic_variation.Storage.Tables.{
  Run, Database, initial, find_run, has_run, insert_run, insert_candidate, insert_evaluation,
  insert_advice, insert_mutation_receipt, insert_sandbox_receipt,
}
use hermes_agentic_variation.Storage.Transition.{append_event-ok}

find_run-new :
    (rows : List Run) (row : Run)
    → has_run row.run_id rows ≡ false
    → find_run row.run_id (rows ++ row ∷ []) ≡ some row
unfolding find_run
find_run-new [] row h = rw ((eq_iff row.run_id row.run_id).1 refl)
find_run-new (r ∷ rows) row h = elim (Bool-cases (str_eq r.run_id row.run_id)) [
  | inl e ↦ let p : true ≡ false = rw (sym h, e) in cc
  | inr e ↦
      let p : has_run row.run_id rows ≡ false = rw (sym h, e) in rw (e, find_run-new rows row p)
]

find_run-older :
    (id : String) (rows : List Run) (row : Run)
    → id ≢ row.run_id
    → find_run id (rows ++ row ∷ []) ≡ find_run id rows
unfolding find_run
find_run-older id [] row ne = rw (other-eq row.run_id id (λ q. ne (sym q)))
find_run-older id (r ∷ rows) row ne = rw (find_run-older id rows row ne)

as_duplicate-ok :
    {A : Type 0} (x : Result A × Database) {a : A} {after : Database}
    → as_duplicate x ≡ (ok a, after)
    → x ≡ (ok a, after)
as_duplicate-ok (ok b, d) h = h
as_duplicate-ok (err integrity_error, d) h = cc
as_duplicate-ok (err e, d) h = cc

create-Recorded :
    (h : Hashing) (spec : RunSpec) (db : Database) (s : RunState) (after : Database)
    → create_run h spec db ≡ (ok s, after)
    → Recorded h db
    → Recorded h after
unfolding create_run create_statements insert_run new_row load_run events
create-Recorded h spec db s after e rec =
    let (t, _, e1) = lift-ok (StateMachine.new (identity h spec)) _ db e in
    let e2 =
      transact-ok (create_statements h spec t) db
        (as_duplicate-ok (transact (create_statements h spec t) db) e1) in
    let (_, d1, q1, e3) = continue-ok (run (insert_run (new_row h spec t)) db) _ e2 in
    let (_, free, q2) =
      >>=-eq-ok (Result.require (not (has_run spec.run_id db.runs)) integrity_error) _
        (run-ok (insert_run (new_row h spec t)) db q1) in
    let (u, d2, q3, e4) =
      continue-ok (append_event h spec.run_id "run_created" t (created_payload h spec) d1) _ e3 in
    let (_, same_db) = pure-ok t s d2 after e4 in
    let added : Database = record db { runs = db.runs ++ new_row h spec t ∷ [] } in
    let is_added : added ≡ d1 = ok-injective added d1 q2 in
    let last = append_event-ok h spec.run_id "run_created" t (created_payload h spec) d1 u d2 q3 in
    finished t d1 d2 added is_added last same_db (
      appended-Recorded h spec.run_id "run_created" t (created_payload h spec) added
        (new_row h spec t)
        (find_run-new db.runs (new_row h spec t)
          (opposite (has_run spec.run_id db.runs) (require-ok _ _ free)))
        (state_round_trip t)
        (λ id spec1 s1 ne l.
          kept h id spec1 s1 db added rec (rw (find_run-older id db.runs (new_row h spec t) ne))
            refl l))
  where
    opposite : (b : Bool) → not b ≡ true → b ≡ false
    opposite b q = ground arith

    finished :
        (t : RunState) (d1 d2 added : Database)
        → added ≡ d1
        → d2 ≡ appended h spec.run_id "run_created" t (created_payload h spec) d1
        → d2 ≡ after
        → Recorded h (appended h spec.run_id "run_created" t (created_payload h spec) added)
        → Recorded h after
    finished t d1 d2 added p q r g = rw (sym r, q, sym p) g

left :
    (h : Hashing) (m : Action (Unit {0})) (db : Database) (u : Unit {0}) (after : Database)
    → Leaves m
    → m db ≡ (ok u, after)
    → Recorded h db
    → Recorded h after
left h m db u after leaves e rec = same (m db) e (leaves db)
  where
    same :
        (x : Result (Unit {0}) × Database) → x ≡ (ok u, after) → Untouched db x.1 → Recorded h after
    same (ok v, d) q w = let p : d ≡ after = cc in rw (sym p) (Untouched-Recorded h db d w rec)
    same (err e, d) q w = cc

-- A call that succeeds.
succeeded-Recorded :
    (h : Hashing) (c : Call) (db : Database) (u : Unit {0}) (after : Database)
    → execute h c db ≡ (ok u, after)
    → Recorded h db
    → Recorded h after
unfolding execute record_attempt record_mutation_attempt record_sandbox_attempt record_candidate
    record_evaluation record_supervisor_advice record_mutation_receipt record_sandbox_receipt
succeeded-Recorded h (create spec) db u after e rec =
    let (s, d, q, e1) = continue-ok (create_run h spec db) _ e in
    let (_, same) = pure-ok tt u d after e1 in rw (sym same) (create-Recorded h spec db s d q rec)
succeeded-Recorded h (transit id event n hash cost) db u after e rec =
    let (t, d, q, e1) = continue-ok (transition h id event n hash cost db) _ e in
    let (_, same) = pure-ok tt u d after e1 in
    rw (sym same) (transition-Recorded h id event n hash cost db t d q rec)
succeeded-Recorded h (observe id event payload) db u after e rec =
    observation-Recorded h id event payload db u after e rec
succeeded-Recorded h (candidate id c) db u after e rec =
    left h (transact (run (insert_candidate (row_of id c)))) db u after
      (transact-Leaves (run (insert_candidate (row_of id c))) (candidate-Leaves (row_of id c))) e
      rec
succeeded-Recorded h (evaluation id r) db u after e rec =
    left h (transact (run (insert_evaluation (evaluation_of id r.candidate_hash r)))) db u after
      (transact-Leaves (run (insert_evaluation (evaluation_of id r.candidate_hash r)))
        (evaluation-Leaves (evaluation_of id r.candidate_hash r)))
      e rec
succeeded-Recorded h (attempt id c r) db u after e rec =
    left h (transact (attempt_statements id c r)) db u after
      (transact-Leaves (attempt_statements id c r) (attempt-Leaves id c r)) e rec
succeeded-Recorded h (mutation_attempt id c r m) db u after e rec =
    left h (transact (mutation_attempt_statements id c r m)) db u after
      (transact-Leaves (mutation_attempt_statements id c r m) (mutation_attempt-Leaves id c r m)) e
      rec
succeeded-Recorded h (sandbox_attempt id c r m) db u after e rec =
    left h (transact (sandbox_attempt_statements id c r m)) db u after
      (transact-Leaves (sandbox_attempt_statements id c r m) (sandbox_attempt-Leaves id c r m)) e
      rec
succeeded-Recorded h (save id m n) db u after e rec =
    left h (save_memory h id m n) db u after (save_memory-Leaves h id m n) e rec
succeeded-Recorded h (advise id a) db u after e rec =
    left h (transact (run (insert_advice (row_of id a)))) db u after
      (transact-Leaves (run (insert_advice (row_of id a))) (advice-Leaves (row_of id a))) e rec
succeeded-Recorded h (mutation_receipt id r) db u after e rec =
    left h (transact (run (insert_mutation_receipt (row_of id r)))) db u after
      (transact-Leaves (run (insert_mutation_receipt (row_of id r)))
        (mutation_receipt-Leaves (row_of id r)))
      e rec
succeeded-Recorded h (sandbox_receipt id r) db u after e rec =
    left h (transact (run (insert_sandbox_receipt (row_of id r)))) db u after
      (transact-Leaves (run (insert_sandbox_receipt (row_of id r)))
        (sandbox_receipt-Leaves (row_of id r)))
      e rec

pub execute-Recorded :
    (h : Hashing) (c : Call) (db : Database) → Recorded h db → Recorded h (execute h c db).1
execute-Recorded h c db rec =
    ended (execute h c db) (succeeded-Recorded h c db) (execute-atomic h c db)
  where
    ended :
        (x : Result (Unit {0}) × Database)
        → ((u : Unit {0}) (after : Database) → x ≡ (ok u, after) → Recorded h db → Recorded h after)
        → ((e : Error) → x.0 ≡ err e → x.1 ≡ db)
        → Recorded h x.1
    ended (ok u, after) good bad = good u after refl rec
    ended (err e, after) good bad = rw (bad e refl) rec

-- After any sequence of calls on a new store, failed ones included, the last event of every run
-- that loads carries the revision and the digest of the state that is stored for it.
pub execute_all-Recorded : (h : Hashing) (cs : List Call) → Recorded h (execute_all h cs initial)
unfolding execute_all load_run find_run
execute_all-Recorded h cs = from cs initial (λ id spec s l. cc)
  where
    from : (cs : List Call) (db : Database) → Recorded h db → Recorded h (execute_all h cs db)
    from [] db rec = rec
    from (c ∷ cs) db rec = from cs (execute h c db).1 (execute-Recorded h c db rec)
