-- ===== src/Storage/Attempts.antt =====
-- What the readers of the ledger see of an attempt that was recorded.
pub mod Mutation
use hermes_agentic_variation.Base.{
  String, not, List, [], ◌∷◌, ◌++◌, any, str_eq, eq_iff, ◌≡◌, refl, ap, sym, ◌∙◌, inl, inr,
  Bool-cases,
}
use hermes_agentic_variation.Base.Result
use hermes_agentic_variation.Base.Result.{Result, integrity_error, ok, >>=-eq-ok, ok-injective}
use hermes_agentic_variation.Storage.Evidence.{
  Artifact, Evaluated, row_of, evaluation_of, attempt_statements, record_attempt, documents_of,
  evaluations_of, lineage,
}
use hermes_agentic_variation.Storage.Monad.{run, transact-ok, continue-ok, run-ok}
use hermes_agentic_variation.Storage.Reads.{load_run, events}
use hermes_agentic_variation.Storage.Tables.{
  Document, Evaluation, Database, has_run, insert_document, insert_candidate, insert_evaluation,
}

pub documents_of-append :
    (id : String) (ds : List Document) (d : Document)
    → d.run_id ≡ id
    → documents_of id (ds ++ d ∷ []) ≡ documents_of id ds ++ d.body ∷ []
unfolding documents_of
documents_of-append id [] d e = rw ((eq_iff d.run_id id).1 e)
documents_of-append id (x ∷ xs) d e = elim (Bool-cases (str_eq x.run_id id)) [
  | inl q ↦ rw (q, documents_of-append id xs d e)
  | inr q ↦ rw (q, documents_of-append id xs d e)
]

evaluations_of-append :
    (id : String) (ds : List Evaluation) (d : Evaluation)
    → d.run_id ≡ id
    → evaluations_of id (ds ++ d ∷ []) ≡ evaluations_of id ds ++ d.body ∷ []
unfolding evaluations_of
evaluations_of-append id [] d e = rw ((eq_iff d.run_id id).1 e)
evaluations_of-append id (x ∷ xs) d e = elim (Bool-cases (str_eq x.run_id id)) [
  | inl q ↦ rw (q, evaluations_of-append id xs d e)
  | inr q ↦ rw (q, evaluations_of-append id xs d e)
]

insert_candidate-ok :
    (d : Document) (db after : Database)
    → insert_candidate d db ≡ ok after
    → after ≡ record db { candidates = db.candidates ++ d ∷ [] }
unfolding insert_candidate insert_document
insert_candidate-ok d db after e =
    let (table, q, e1) = >>=-eq-ok (insert_document db.runs d db.candidates) _ e in
    let (_, _, q1) =
      >>=-eq-ok (Result.require (not (any (λ x. str_eq x.key d.key) db.candidates)) integrity_error)
        _ q in
    let (_, _, q2) = >>=-eq-ok (Result.require (has_run d.run_id db.runs) integrity_error) _ q1 in
    along table (ok-injective _ table q2) (ok-injective _ after e1)
  where
    along :
        (table : List Document)
        → (db.candidates ++ d ∷ []) ≡ table
        → record db { candidates = table } ≡ after
        → after ≡ record db { candidates = db.candidates ++ d ∷ [] }
    along table p q = rw p (sym q)

insert_evaluation-ok :
    (r : Evaluation) (db after : Database)
    → insert_evaluation r db ≡ ok after
    → after ≡ record db { evaluations = db.evaluations ++ r ∷ [] }
unfolding insert_evaluation
insert_evaluation-ok r db after e =
    let (_, _, e1) =
      >>=-eq-ok
        (Result.require (not (any (λ x. str_eq x.key r.key) db.evaluations)) integrity_error) _ e in
    let (_, _, e2) = >>=-eq-ok (Result.require (has_run r.run_id db.runs) integrity_error) _ e1 in
    let (_, _, e3) =
      >>=-eq-ok
        (Result.require (any (λ c. str_eq c.key r.candidate_hash) db.candidates) integrity_error) _
        e2 in
    sym (ok-injective _ after e3)

-- The ledger with the rows of one more attempt.
abbrev pub with_attempt : String → Artifact → Evaluated → Database → Database
with_attempt id c e db = record db {
  candidates = db.candidates ++ row_of id c ∷ [];
  evaluations = db.evaluations ++ evaluation_of id c.identity e ∷ [];
}

pub attempt_statements-ok :
    (id : String) (c : Artifact) (e : Evaluated) (db : Database) (u : Unit {0}) (after : Database)
    → attempt_statements id c e db ≡ (ok u, after)
    → after ≡ with_attempt id c e db
unfolding attempt_statements
attempt_statements-ok id c e db u after h =
    let (_, d1, q, h1) = continue-ok (run (insert_candidate (row_of id c)) db) _ h in
    along d1
      (insert_candidate-ok (row_of id c) db d1 (run-ok (insert_candidate (row_of id c)) db q))
      (insert_evaluation-ok (evaluation_of id c.identity e) d1 after
        (run-ok (insert_evaluation (evaluation_of id c.identity e)) d1 h1))
  where
    along :
        (d1 : Database)
        → d1 ≡ record db { candidates = db.candidates ++ row_of id c ∷ [] }
        → after ≡ record d1 { evaluations = d1.evaluations ++ evaluation_of id c.identity e ∷ [] }
        → after ≡ with_attempt id c e db
    along d1 p q =
        q
        ∙ ap
            (λ (d : Database). record d {
              evaluations = d.evaluations ++ evaluation_of id c.identity e ∷ [];
            })
            p

-- Nothing else changes.
pub record Attempted (id : String) (c : Artifact) (e : Evaluated) (db after : Database)
    : Type 0 where
  pub candidates : (lineage id after).0 ≡ (lineage id db).0 ++ c.document ∷ []
  pub evaluations : (lineage id after).1 ≡ (lineage id db).1 ++ e.document ∷ []
  pub run : (other : String) → load_run other after ≡ load_run other db
  pub log : (other : String) → events other after ≡ events other db

pub with_attempt-Attempted :
    (id : String) (c : Artifact) (e : Evaluated) (db : Database)
    → Attempted id c e db (with_attempt id c e db)
unfolding lineage load_run events
with_attempt-Attempted id c e db = record {
  candidates = documents_of-append id db.candidates (row_of id c) refl;
  evaluations = evaluations_of-append id db.evaluations (evaluation_of id c.identity e) refl;
  run = λ other. refl;
  log = λ other. refl;
}

pub record_attempt-Attempted :
    (id : String) (c : Artifact) (e : Evaluated) (db : Database) (u : Unit {0}) (after : Database)
    → record_attempt id c e db ≡ (ok u, after)
    → Attempted id c e db after
unfolding record_attempt
record_attempt-Attempted id c e db u after h =
    rw (attempt_statements-ok id c e db u after (transact-ok (attempt_statements id c e) db h))
      (with_attempt-Attempted id c e db)
