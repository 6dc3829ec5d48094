-- ===== src/Storage/Calls/Grows.antt =====
-- Statements that only add to the ledger, and how they compose.
use hermes_agentic_variation.Base.{
  suc, String, not, List, [], ◌∷◌, ◌++◌, any, map, ◌≡◌, refl, sym, str_eq,
}
use hermes_agentic_variation.Base.Result
use hermes_agentic_variation.Base.Result.{
  Error, integrity_error, Result, ok, err, >>=-eq-ok, ok-injective,
}
use hermes_agentic_variation.Base.Value.{Value}
use hermes_agentic_variation.Contracts.Identity.{Hashing}
use hermes_agentic_variation.StateMachine.{RunState}
use hermes_agentic_variation.Storage.Calls.Extends.{
  Prefix, Prefix-refl, fixed, Extends, Extends-refl, Extends-trans, map-append, update_rows-fixed,
  with_runs, with_run_events, with_candidates, with_evaluations, with_supervisor_advice,
  with_mutation_receipts, with_sandbox_receipts,
}
use hermes_agentic_variation.Storage.Monad.{Action, run, settle, transact, continue, written, ◌>>=◌}
use hermes_agentic_variation.Storage.Runs.{
  append_event, as_duplicate, duplicate, update_rows, update_state,
}
use hermes_agentic_variation.Storage.State.{state_hash}
use hermes_agentic_variation.Storage.Tables.{
  Run, EventRow, Document, Evaluation, Database, has_run, insert_run, insert_event, insert_document,
  insert_candidate, insert_evaluation, insert_advice, insert_mutation_receipt,
  insert_sandbox_receipt,
}

abbrev pub Grows : {A : Type 0} → Action A → Type 0
Grows m = (db : Database) → Extends db (m db).1

module _ {A B : Type 0} where
  pub continue-Extends :
      (before : Database) (x : Result A × Database) (f : A → Action B)
      → Extends before x.1
      → ((a : A) → Grows (f a))
      → Extends before (continue x f).1
  continue-Extends before (ok a, db) f p g = Extends-trans before db (f a db).1 p (g a db)
  continue-Extends before (err e, db) f p g = p

  pub bind-Grows :
      (m : Action A) (f : A → Action B) → Grows m → ((a : A) → Grows (f a)) → Grows (m >>= f)
  bind-Grows m f p g db = continue-Extends db (m db) f (p db) g

  pub lift-Grows :
      (db : Database) (r : Result A) (f : A → Action B)
      → ((a : A) → Grows (f a))
      → Extends db (continue (r, db) f).1
  lift-Grows db r f g = continue-Extends db (r, db) f (Extends-refl db) g

module _ {A : Type 0} where
  settle-Extends :
      (db : Database) (x : Result A × Database) → Extends db x.1 → Extends db (settle db x).1
  settle-Extends db (ok a, d) p = p
  settle-Extends db (err e, d) p = Extends-refl db

  pub transact-Grows : (m : Action A) → Grows m → Grows (transact m)
  transact-Grows m p db = settle-Extends db (m db) (p db)

  as_duplicate-same : (x : Result A × Database) → (as_duplicate x).1 ≡ x.1
  as_duplicate-same (ok a, db) = refl
  as_duplicate-same (err integrity_error, db) = refl
  as_duplicate-same (err e, db) = refl

  pub duplicate-Grows : (m : Action A) → Grows m → Grows (duplicate m)
  duplicate-Grows m p db = rw (as_duplicate-same (m db)) (p db)

pub run-Grows :
    (s : Database → Result Database)
    → ((db after : Database) → s db ≡ ok after → Extends db after)
    → Grows (run s)
run-Grows s p db = ran (s db) (p db)
  where
    ran :
        (r : Result Database)
        → ((after : Database) → r ≡ ok after → Extends db after)
        → Extends db (written db r).1
    ran (ok after) q = q after refl
    ran (err e) q = Extends-refl db

-- The statements.
pub insert_run-Grows : (r : Run) → Grows (run (insert_run r))
unfolding insert_run
insert_run-Grows r = run-Grows (insert_run r) (λ db after e.
    let (_, _, e1) =
      >>=-eq-ok (Result.require (not (has_run r.run_id db.runs)) integrity_error) _ e in
    rw (sym (ok-injective _ after e1))
      (with_runs db (db.runs ++ r ∷ []) (fixed r ∷ [], map-append fixed db.runs (r ∷ []))))

pub append_event-Grows :
    (h : Hashing) (run_id event : String) (s : RunState) (payload : Value)
    → Grows (append_event h run_id event s payload)
unfolding append_event insert_event
append_event-Grows h run_id event s payload =
    run-Grows (insert_event run_id event s.revision (state_hash h s) payload) (λ db after e.
      let (_, _, e1) = >>=-eq-ok (Result.require (has_run run_id db.runs) integrity_error) _ e in
      grown db after _ e1)
  where
    grown :
        (db after : Database) (row : EventRow)
        → ok (record db {
          run_events = db.run_events ++ row ∷ [];
          last_event_id = suc db.last_event_id;
        })
          ≡ ok after
        → Extends db after
    grown db after row e =
        rw (sym (ok-injective _ after e))
          (with_run_events db (db.run_events ++ row ∷ []) (suc db.last_event_id) (row ∷ [], refl))

insert_document-Prefix :
    (runs : List Run) (d : Document) (table rows : List Document)
    → insert_document runs d table ≡ ok rows
    → Prefix table rows
unfolding insert_document
insert_document-Prefix runs d table rows e =
    let (_, _, e1) =
      >>=-eq-ok (Result.require (not (any (λ x. str_eq x.key d.key) table)) integrity_error) _ e in
    let (_, _, e2) = >>=-eq-ok (Result.require (has_run d.run_id runs) integrity_error) _ e1 in
    (d ∷ [], sym (ok-injective _ rows e2))

pub insert_candidate-Grows : (d : Document) → Grows (run (insert_candidate d))
unfolding insert_candidate
insert_candidate-Grows d = run-Grows (insert_candidate d) (λ db after e.
    let (rows, p, e1) = >>=-eq-ok (insert_document db.runs d db.candidates) _ e in
    rw (sym (ok-injective _ after e1))
      (with_candidates db rows (insert_document-Prefix db.runs d db.candidates rows p)))

pub insert_advice-Grows : (d : Document) → Grows (run (insert_advice d))
unfolding insert_advice
insert_advice-Grows d = run-Grows (insert_advice d) (λ db after e.
    let (rows, p, e1) = >>=-eq-ok (insert_document db.runs d db.supervisor_advice) _ e in
    rw (sym (ok-injective _ after e1)) (
      with_supervisor_advice db rows
        (insert_document-Prefix db.runs d db.supervisor_advice rows p)))

pub insert_mutation_receipt-Grows : (d : Document) → Grows (run (insert_mutation_receipt d))
unfolding insert_mutation_receipt
insert_mutation_receipt-Grows d = run-Grows (insert_mutation_receipt d) (λ db after e.
    let (rows, p, e1) = >>=-eq-ok (insert_document db.runs d db.mutation_receipts) _ e in
    rw (sym (ok-injective _ after e1)) (
      with_mutation_receipts db rows
        (insert_document-Prefix db.runs d db.mutation_receipts rows p)))

pub insert_sandbox_receipt-Grows : (d : Document) → Grows (run (insert_sandbox_receipt d))
unfolding insert_sandbox_receipt
insert_sandbox_receipt-Grows d = run-Grows (insert_sandbox_receipt d) (λ db after e.
    let (rows, p, e1) = >>=-eq-ok (insert_document db.runs d db.sandbox_receipts) _ e in
    rw (sym (ok-injective _ after e1))
      (with_sandbox_receipts db rows (insert_document-Prefix db.runs d db.sandbox_receipts rows p)))

pub insert_evaluation-Grows : (r : Evaluation) → Grows (run (insert_evaluation r))
unfolding insert_evaluation
insert_evaluation-Grows r = run-Grows (insert_evaluation r) (λ db after e.
    let (_, _, e1) =
      >>=-eq-ok
        (Result.require (not (any (λ x. str_eq x.key r.key) db.evaluations)) integrity_error) _ e in
    let (_, _, e2) = >>=-eq-ok (Result.require (has_run r.run_id db.runs) integrity_error) _ e1 in
    let (_, _, e3) =
      >>=-eq-ok
        (Result.require (any (λ c. str_eq c.key r.candidate_hash) db.candidates) integrity_error) _
        e2 in
    rw (sym (ok-injective _ after e3))
      (with_evaluations db (db.evaluations ++ r ∷ []) (r ∷ [], refl)))

pub update_state-Grows : (id : String) (old new : Value) → Grows (update_state id old new)
unfolding update_state
update_state-Grows id old new db =
    with_runs db (update_rows id old new db.runs)
      (rw (update_rows-fixed id old new db.runs) (Prefix-refl (map fixed db.runs)))
