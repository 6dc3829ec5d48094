-- ===== src/Storage/Attempts/Mutation.antt =====
-- What the readers of the ledger see of an attempt that was recorded with its mutation receipt.
use hermes_agentic_variation.Base.{
  String, not, List, [], ◌∷◌, ◌++◌, any, str_eq, ◌≡◌, refl, ap, sym, ◌∙◌,
}
use hermes_agentic_variation.Base.Result
use hermes_agentic_variation.Base.Result.{Result, integrity_error, ok, >>=-eq-ok, ok-injective}
use hermes_agentic_variation.Storage.Attempts.{
  documents_of-append, with_attempt, attempt_statements-ok, Attempted, with_attempt-Attempted,
}
use hermes_agentic_variation.Storage.Evidence.{
  Artifact, Evaluated, row_of, attempt_statements, mutation_attempt_statements,
  record_mutation_attempt, lineage, mutation_receipts,
}
use hermes_agentic_variation.Storage.Monad.{transact-ok, continue-ok, run-ok}
use hermes_agentic_variation.Storage.Reads.{load_run, events}
use hermes_agentic_variation.Storage.Tables.{
  Document, Database, has_run, insert_document, insert_mutation_receipt,
}

insert_mutation_receipt-ok :
    (d : Document) (db after : Database)
    → insert_mutation_receipt d db ≡ ok after
    → after ≡ record db { mutation_receipts = db.mutation_receipts ++ d ∷ [] }
unfolding insert_mutation_receipt insert_document
insert_mutation_receipt-ok d db after e =
    let (table, q, e1) = >>=-eq-ok (insert_document db.runs d db.mutation_receipts) _ e in
    let (_, _, q1) =
      >>=-eq-ok
        (Result.require (not (any (λ x. str_eq x.key d.key) db.mutation_receipts)) integrity_error)
        _ q in
    let (_, _, q2) = >>=-eq-ok (Result.require (has_run d.run_id db.runs) integrity_error) _ q1 in
    sym (ok-injective _ after e1)
    ∙ ap (λ (t : List Document). record db { mutation_receipts = t })
        (sym (ok-injective _ table q2))

-- The ledger with the rows of one more attempt and its receipt.
abbrev pub with_receipt : String → Artifact → Evaluated → Artifact → Database → Database
with_receipt id c e r db = record (with_attempt id c e db) {
  mutation_receipts = db.mutation_receipts ++ row_of id r ∷ [];
}

mutation_attempt_statements-ok :
    (id : String) (c : Artifact) (e : Evaluated) (r : Artifact) (db : Database) (u : Unit {0})
    (after : Database)
    → mutation_attempt_statements id c e r db ≡ (ok u, after)
    → after ≡ with_receipt id c e r db
unfolding mutation_attempt_statements
mutation_attempt_statements-ok id c e r db u after h =
    let (v, d1, q, h1) = continue-ok (attempt_statements id c e db) _ h in
    insert_mutation_receipt-ok (row_of id r) d1 after
      (run-ok (insert_mutation_receipt (row_of id r)) d1 h1)
    ∙ ap
        (λ (d : Database). record d { mutation_receipts = d.mutation_receipts ++ row_of id r ∷ [] })
        (attempt_statements-ok id c e db v d1 q)

with_receipt-Attempted :
    (id : String) (c : Artifact) (e : Evaluated) (r : Artifact) (db : Database)
    → Attempted id c e db (with_receipt id c e r db)
      × (mutation_receipts id (with_receipt id c e r db)
          ≡ mutation_receipts id db ++ r.document ∷ [])
unfolding lineage load_run events mutation_receipts
with_receipt-Attempted id c e r db =
    let w = with_attempt-Attempted id c e db in
    (
      record { candidates = w.candidates; evaluations = w.evaluations; run = w.run; log = w.log },
      documents_of-append id db.mutation_receipts (row_of id r) refl,
    )

pub record_mutation_attempt-Attempted :
    (id : String) (c : Artifact) (e : Evaluated) (r : Artifact) (db : Database) (u : Unit {0})
    (after : Database)
    → record_mutation_attempt id c e r db ≡ (ok u, after)
    → Attempted id c e db after
      × (mutation_receipts id after ≡ mutation_receipts id db ++ r.document ∷ [])
unfolding record_mutation_attempt
record_mutation_attempt-Attempted id c e r db u after h =
    rw
      (mutation_attempt_statements-ok id c e r db u after
        (transact-ok (mutation_attempt_statements id c e r) db h))
      (with_receipt-Attempted id c e r db)
